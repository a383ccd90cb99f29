-- ===== src/Mount/Options/Spelling.antt =====
-- How an option is spelled, for option_create, po_insert and po_append of utils/mount/parse_opt.c.
use nfs_utils.Common.{
  ◌+◌, ◌^◌, ◌<◌, ◌≡◌, refl, sym, ◌∙◌, inl, inr, true, false, Option, none, some, [], ◌∷◌, ◌++◌,
  arith, Bytes, length, Option-cases, cut, cut-some, cut-none, cut-Lacks, cut-Lacks-none, Lacks,
  append_assoc,
}
use nfs_utils.Mount.Options.{
  MountOption, MountOptions, option_create, po_insert, po_append, cat_value,
}
use nfs_utils.Mount.Options.Counts.{IsValid}

abbrev pub spell : MountOption → Bytes
spell o = cat_value o.keyword o.value

-- The keyword is what stands before the first '='.
abbrev pub IsKeyed : MountOption → Type 0
IsKeyed o = Lacks b'=' o.keyword

pub option_create-spell : (o : MountOption) → IsKeyed o → option_create (some (spell o)) ≡ some o
unfolding option_create
option_create-spell o k = of_parts o.keyword o.value k
  where
    of_parts :
        (kw : Bytes) (v : Option Bytes)
        → Lacks b'=' kw
        → option_create (some (cat_value kw v)) ≡ some (record { keyword = kw; value = v })
    of_parts kw none h = ground (arith, cut-Lacks-none b'=' kw h)
    of_parts kw (some v) h = ground (arith, append_assoc kw (b'=' ∷ []) v, cut-Lacks b'=' kw v h)

-- Every text is the spelling of one option.
pub spell-option_create :
    (str : Bytes)
    → (o : MountOption) × (option_create (some str) ≡ some o) × (spell o ≡ str) × IsKeyed o
unfolding option_create
spell-option_create str = elim (Option-cases (cut b'=' str)) [
  | inl no_eq ↦ (
    record { keyword = str; value = none },
    rw (no_eq, option_create),
    refl,
    cut-none b'=' str no_eq,
  )
  | inr ((k, v), eq) ↦
      let (splits, lacks) = cut-some b'=' str k v eq in
      (
        record { keyword = k; value = some v },
        rw (eq, option_create),
        append_assoc k (b'=' ∷ []) v ∙ sym splits,
        lacks,
      )
]

-- On a group with a right count that an unsigned int can still raise, po_insert puts the option
-- that the string spells in front and po_append puts it last; both keep the other options in order,
-- count one more, and succeed. With no string they fail and change nothing.
pub insert_append_lem :
    (o : MountOptions) (str : Bytes)
    → IsValid o
    → length o.items + 1 < 2 ^ 32
    → (x : MountOption) × (spell x ≡ str)
      × IsKeyed x
      × (po_insert o (some str) ≡ (true, record { items = x ∷ o.items; count = o.count + 1 }))
      × (po_append o (some str) ≡ (true, record { items = o.items ++ x ∷ []; count = o.count + 1 }))
      × (po_insert o none ≡ (false, o))
      × (po_append o none ≡ (false, o))
unfolding po_insert po_append
insert_append_lem o str v h =
    let (x, made, spelled, keyed) = spell-option_create str in
    (
      x,
      spelled,
      keyed,
      ground (arith, made),
      ground (arith, made),
      unfold option_create in refl,
      unfold option_create in refl,
    )

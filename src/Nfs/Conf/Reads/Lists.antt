-- ===== src/Nfs/Conf/Reads/Lists.antt =====
-- The lists that conf_get_list and conf_get_tag_list give.
use nfs_utils.Common.{
  ℕ, zero, suc, ◌<◌, ◌≡◌, inl, inr, ap, ◌∙◌, true, false, Option, none, some, List, [], ◌∷◌, ◌++◌,
  arith, Bytes, Option-cases, All, skip, is_space, cut-Lacks, cut-Lacks-none, Lacks, length,
  length-append,
}
use nfs_utils.Nfs.Conf.{
  Binding, Bindings, conf_hash, find_entry, conf_get_entry, found, get_section,
}
use nfs_utils.Nfs.Conf.Reads.{
  any_case, fields, add_field, conf_get_list, tags, conf_get_tag_list, conf_get_str,
}

-- A tag is listed for a section and an argument exactly if there is an entry for it.
tags-find_entry :
    (section a tag : Bytes) (l : List Binding) (listed : List Bytes)
    → tags section (some a) l ≡ some listed
    → any_case tag listed
      ≡ (elim (find_entry section (some a) tag l) [ none ↦ false | some _ ↦ true ])
unfolding tags find_entry
tags-find_entry section a tag [] listed h = ground arith
tags-find_entry section a tag (cb ∷ l) listed h = elim (Option-cases (tags section (some a) l)) [
  | inl fault ↦ ground (arith, fault)
  | inr (r, rest) ↦ ground (arith, rest, tags-find_entry section a tag l r rest)
]

abbrev pub commas : Bytes → List Bytes → Bytes
commas f [] = f
commas f (g ∷ l) = f ++ (b',' ∷ commas g l)

-- A field that can stand in a list: not empty, no comma, and no whitespace in front.
abbrev pub IsField : Bytes → Type 0
IsField [] = ⊥
IsField (c ∷ s) = Lacks b',' (c ∷ s) × (is_space c ≡ false)

add_field-IsField : (f : Bytes) (l : List Bytes) → IsField f → add_field f l ≡ f ∷ l
unfolding skip
add_field-IsField [] l h = elim h [ ]
add_field-IsField (c ∷ s) l h = ground (arith, h.1)

IsField-Lacks : (f : Bytes) → IsField f → Lacks b',' f
IsField-Lacks [] h = elim h [ ]
IsField-Lacks (c ∷ s) h = h.0

fields-commas :
    (fuel : ℕ) (f : Bytes) (l : List Bytes)
    → IsField f
    → All IsField l
    → length (commas f l) < fuel
    → fields fuel (commas f l) ≡ f ∷ l
unfolding fields
fields-commas zero f l h hs le = elim le [ ]
fields-commas (suc fuel) f [] h hs le =
    rw (cut-Lacks-none b',' f (IsField-Lacks f h), fields) (add_field-IsField f [] h)
fields-commas (suc fuel) f (g ∷ l) h hs le =
    rw (cut-Lacks b',' f (commas g l) (IsField-Lacks f h), fields)
      (ap (add_field f) (
          fields-commas fuel g l hs.0 hs.1 (omega (arith, length-append f (b',' ∷ commas g l), le)))
        ∙ add_field-IsField f (g ∷ l) h)

-- If the look-up finds fields with commas between them, none of them empty, with a comma or with
-- whitespace in front, conf_get_list gives these fields; whitespace behind a field stays.
pub conf_get_list-commas :
    (getenv : Bytes → Option Bytes) (b : Bindings) (fuel : ℕ) (section tag f : Bytes)
    (l : List Bytes)
    → IsField f
    → All IsField l
    → get_section getenv b none fuel section tag ≡ found (commas f l)
    → conf_get_list getenv b fuel section tag ≡ some (f ∷ l)
unfolding conf_get_list conf_get_str
conf_get_list-commas getenv b fuel section tag f l h hs e =
    rw (e, conf_get_list, conf_get_str)
      (ap some (fields-commas (suc (length (commas f l))) f l h hs (omega arith)))

-- If conf_get_tag_list returns for a section and an argument, a tag is in its list, up to case,
-- exactly if conf_get_entry has a value for it.
pub conf_get_tag_list_lem :
    (b : Bindings) (section a tag : Bytes) (listed : List Bytes)
    → conf_get_tag_list b section (some a) ≡ some listed
    → any_case tag listed
      ≡ (elim (conf_get_entry b section (some a) tag) [ none ↦ false | some _ ↦ true ])
unfolding conf_get_tag_list conf_get_entry
conf_get_tag_list_lem b section a tag listed h =
    tags-find_entry section a tag (b (conf_hash section)) listed h

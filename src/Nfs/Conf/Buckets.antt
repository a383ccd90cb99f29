-- ===== src/Nfs/Conf/Buckets.antt =====
-- The hash buckets of support/nfs/conffile.c, with insertion and the removal of a section.
use nfs_utils.Common.{
  ℕ, ◌≡◌, inl, inr, refl, ap, sym, ◌∙◌, Bool, true, false, ◌&&◌, Option, none, some, List, [], ◌∷◌,
  arith, ◌==◌, if◌then◌else◌, Bytes, case_eq, case_eq_iff, to_lower, map, Bool-cases, All, ==_iff,
}
use nfs_utils.Nfs.Conf.{
  Binding, Bindings, hash_step, hash_loop, conf_hash, names, remove_first, drop_section,
  conf_remove_section_now, is_entry, find_entry, conf_get_entry, insert_head,
}

to_lower_idem : (c : ℕ) → to_lower (to_lower c) ≡ to_lower c
unfolding to_lower
to_lower_idem c = ground arith

hash_step-to_lower : (h c : ℕ) → hash_step h (to_lower c) ≡ hash_step h c
unfolding hash_step
hash_step-to_lower h c = rw to_lower_idem refl

hash_loop-map : (h : ℕ) (s : Bytes) → hash_loop h (map to_lower s) ≡ hash_loop h s
unfolding hash_loop
hash_loop-map h [] = refl
hash_loop-map h (c ∷ s) =
    hash_loop-map (hash_step h (to_lower c)) s
    ∙ ap (λ (k : ℕ). hash_loop k s) (hash_step-to_lower h c)

-- Names that strcasecmp takes for equal have one bucket.
pub conf_hash-case_eq : (a b : Bytes) → case_eq a b ≡ true → conf_hash a ≡ conf_hash b
unfolding conf_hash
conf_hash-case_eq a b e =
    sym (hash_loop-map 0 a) ∙ ap (hash_loop 0) ((case_eq_iff a b).0 e) ∙ hash_loop-map 0 b

-- In no bucket do two bindings share section and tag.
abbrev pub Single : List Binding → Type 0
Single [] = Unit
Single (cb ∷ l) = All (λ other. names cb.section cb.tag other ≡ false) l × Single l

pub record IsSingle (b : Bindings) : Type 0 where
  pub single : (n : ℕ) → Single (b n)

-- An insertion adds one entry and changes no other.
pub conf_get_entry-insert_head :
    (b : Bindings) (node : Binding) (section : Bytes) (arg : Option Bytes) (tag : Bytes)
    → conf_get_entry (insert_head b node) section arg tag ≡ (
        if is_entry section arg tag node then some node.value else conf_get_entry b section arg tag)
unfolding conf_get_entry insert_head find_entry
conf_get_entry-insert_head b node section arg tag =
    elim (Bool-cases (conf_hash section == conf_hash node.section)) [
      | inl same ↦ rw same (ground (arith, same))
      | inr other ↦ rw other (ground (arith, conf_hash-case_eq section node.section))
    ]

find_entry-drop_section :
    (dropped section : Bytes) (arg : Option Bytes) (tag : Bytes) (l : List Binding)
    → find_entry section arg tag (drop_section dropped l)
      ≡ (if case_eq section dropped then none else find_entry section arg tag l)
unfolding find_entry drop_section
find_entry-drop_section dropped section arg tag [] = ground arith
find_entry-drop_section dropped section arg tag (cb ∷ l) = ground (
  arith,
  find_entry-drop_section dropped section arg tag l,
  case_eq_iff section dropped,
  case_eq_iff cb.section dropped,
  case_eq_iff section cb.section,
)

-- After conf_remove_section_now a look-up finds no entry of a section of that name, up to case, and
-- what it found before for every other.
pub conf_get_entry-remove_section :
    (b : Bindings) (dropped section : Bytes) (arg : Option Bytes) (tag : Bytes)
    → conf_get_entry (conf_remove_section_now b dropped).0 section arg tag
      ≡ (if case_eq section dropped then none else conf_get_entry b section arg tag)
unfolding conf_get_entry conf_remove_section_now
conf_get_entry-remove_section b dropped section arg tag =
    elim (Bool-cases (conf_hash section == conf_hash dropped)) [
      | inl same ↦ rw same (
          let same_hash = (==_iff (conf_hash section) (conf_hash dropped)).0 same in
          rw (← same_hash)
            (find_entry-drop_section dropped section arg tag (b (conf_hash section))))
      | inr other ↦ rw other (ground (arith, conf_hash-case_eq section dropped))
    ]

-- The list that conf_remove_now leaves.
abbrev pub cleared : Bytes → Bytes → List Binding → List Binding
cleared section tag l = elim (remove_first section tag l) [ none ↦ l | some r ↦ r ]

abbrev pub same_name : Bytes → Bytes → Bytes → Bytes → Bool
same_name section tag section' tag' = case_eq section section' && case_eq tag tag'

pub find_entry-unnamed :
    (gone gone_tag section : Bytes) (arg : Option Bytes) (tag : Bytes) (l : List Binding)
    → All (λ cb. names gone gone_tag cb ≡ false) l
    → same_name section tag gone gone_tag ≡ true
    → find_entry section arg tag l ≡ none
unfolding find_entry
find_entry-unnamed gone gone_tag section arg tag [] h e = refl
find_entry-unnamed gone gone_tag section arg tag (cb ∷ l) h e = ground (
  arith,
  h.0,
  find_entry-unnamed gone gone_tag section arg tag l h.1 e,
  case_eq_iff section gone,
  case_eq_iff tag gone_tag,
  case_eq_iff section cb.section,
  case_eq_iff tag cb.tag,
  case_eq_iff cb.section gone,
  case_eq_iff cb.tag gone_tag,
)

-- ===== src/Nfs/Conf/Single.antt =====
-- How many bindings the updates of support/nfs/conffile.c leave for one section and tag.
use nfs_utils.Common.{
  ℕ, ◌≡◌, inl, inr, refl, sym, ◌∙◌, subst, true, false, Option, some, List, [], ◌∷◌, arith, ◌==◌,
  Bytes, case_eq, Bool-cases, All,
}
use nfs_utils.Nfs.Conf.{
  Binding, Bindings, conf_hash, names, remove_first, conf_remove_now, drop_section,
  conf_remove_section_now, insert_head, conf_set_now,
}
use nfs_utils.Nfs.Conf.Buckets.{Single, IsSingle, cleared}
use nfs_utils.Nfs.Conf.Removal.{All-unnamed, cleared-cons, remove_now-cleared}

cleared-All :
    (P : Binding → Type 0) (section tag : Bytes) (l : List Binding)
    → All P l
    → All P (cleared section tag l)
cleared-All P section tag [] h = unfold remove_first in tt
cleared-All P section tag (cb ∷ l) h =
    subst (All P) (sym (cleared-cons section tag cb l)) (elim (Bool-cases (names section tag cb)) [
      | inl named ↦ rw named h.1
      | inr other ↦ rw other (h.0, cleared-All P section tag l h.1)
    ])

cleared-Single :
    (section tag : Bytes) (l : List Binding) → Single l → Single (cleared section tag l)
cleared-Single section tag [] s = unfold remove_first in tt
cleared-Single section tag (cb ∷ l) s =
    subst Single (sym (cleared-cons section tag cb l)) (elim (Bool-cases (names section tag cb)) [
      | inl named ↦ rw named s.1
      | inr other ↦ rw other (
        cleared-All (λ other. names cb.section cb.tag other ≡ false) section tag l s.0,
        cleared-Single section tag l s.1,
      )
    ])

cleared-unnamed :
    (section tag : Bytes) (l : List Binding)
    → Single l
    → All (λ other. names section tag other ≡ false) (cleared section tag l)
cleared-unnamed section tag [] s = unfold remove_first in tt
cleared-unnamed section tag (cb ∷ l) s =
    subst (All (λ other. names section tag other ≡ false)) (sym (cleared-cons section tag cb l))
      (elim (Bool-cases (names section tag cb)) [
        | inl named ↦ rw named (All-unnamed section tag cb l named s.0)
        | inr other ↦ rw other (other, cleared-unnamed section tag l s.1)
      ])

drop_section-All :
    (P : Binding → Type 0) (section : Bytes) (l : List Binding)
    → All P l
    → All P (drop_section section l)
unfolding drop_section
drop_section-All P section [] h = tt
drop_section-All P section (cb ∷ l) h = elim (Bool-cases (case_eq cb.section section)) [
  | inl same ↦ rw same (drop_section-All P section l h.1)
  | inr other ↦ rw other (h.0, drop_section-All P section l h.1)
]

drop_section-Single :
    (section : Bytes) (l : List Binding) → Single l → Single (drop_section section l)
unfolding drop_section
drop_section-Single section [] s = tt
drop_section-Single section (cb ∷ l) s = elim (Bool-cases (case_eq cb.section section)) [
  | inl same ↦ rw same (drop_section-Single section l s.1)
  | inr other ↦ rw other (
    drop_section-All (λ other. names cb.section cb.tag other ≡ false) section l s.0,
    drop_section-Single section l s.1,
  )
]

conf_remove_now-IsSingle :
    (b : Bindings) (section tag : Bytes) → IsSingle b → IsSingle (conf_remove_now b section tag).0
conf_remove_now-IsSingle b section tag s = record {
  single = λ n.
      subst Single (sym (remove_now-cleared b section tag n))
        (elim (Bool-cases (n == conf_hash section)) [
          | inl same ↦
              rw same
                (cleared-Single section tag (b (conf_hash section)) (s.single (conf_hash section)))
          | inr other ↦ rw other (s.single n)
        ]);
}

conf_remove_section_now-IsSingle :
    (b : Bindings) (section : Bytes) → IsSingle b → IsSingle (conf_remove_section_now b section).0
unfolding conf_remove_section_now
conf_remove_section_now-IsSingle b section s = record {
  single = λ n. elim (Bool-cases (n == conf_hash section)) [
    | inl same ↦
        rw same (drop_section-Single section (b (conf_hash section)) (s.single (conf_hash section)))
    | inr other ↦ rw other (s.single n)
  ];
}

pub conf_set_now-IsSingle :
    (b : Bindings) (node : Binding)
    → IsSingle b
    → IsSingle (insert_head (conf_remove_now b node.section node.tag).0 node)
unfolding insert_head
conf_set_now-IsSingle b node s = record {
  single =
      let removed = remove_now-cleared b node.section node.tag in
      let bucket = b (conf_hash node.section) in
      let left = cleared node.section node.tag bucket in
      let whole = s.single (conf_hash node.section) in
      λ n. elim (Bool-cases (n == conf_hash node.section)) [
        | inl same ↦ rw same (
            subst (λ l. Single (node ∷ l)) (sym (removed (conf_hash node.section) ∙ ground arith))
              ((
                cleared-unnamed node.section node.tag bucket whole,
                cleared-Single node.section node.tag bucket whole,
              )))
        | inr other ↦ rw other (subst Single (sym (removed n ∙ ground (arith, other))) (s.single n))
      ];
}

-- Where no bucket has two bindings with the same section and tag, conf_remove_now,
-- conf_remove_section_now and a conf_set_now that overrides leave none either, and the last of them
-- returns 0.
pub updates-IsSingle :
    (getenv : Bytes → Option Bytes) (fuel : ℕ) (b : Bindings) (node : Binding) (section tag : Bytes)
    → IsSingle b
    → IsSingle (conf_remove_now b section tag).0
      × IsSingle (conf_remove_section_now b section).0
      × (b' : Bindings) × (conf_set_now getenv fuel b node true ≡ some (b', 0))
      × IsSingle b'
unfolding conf_set_now
updates-IsSingle getenv fuel b node section tag s = (
  conf_remove_now-IsSingle b section tag s,
  conf_remove_section_now-IsSingle b section s,
  insert_head (conf_remove_now b node.section node.tag).0 node,
  refl,
  conf_set_now-IsSingle b node s,
)

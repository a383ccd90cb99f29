-- ===== src/Nfs/Conf/Removal.antt =====
-- What conf_remove_now and conf_set_now of support/nfs/conffile.c leave.
use nfs_utils.Common.{
  ℕ, ◌≡◌, inl, inr, refl, ap, ◌∙◌, true, false, Option, none, some, List, [], ◌∷◌, arith, ◌==◌,
  if◌then◌else◌, Bytes, case_eq_iff, Bool-cases, Option-cases, All, ==_iff,
}
use nfs_utils.Nfs.Conf.{
  Binding, Bindings, conf_hash, names, remove_first, conf_remove_now, is_entry, find_entry,
  conf_get_entry, insert_head, conf_set_now,
}
use nfs_utils.Nfs.Conf.Buckets.{
  conf_hash-case_eq, Single, IsSingle, cleared, same_name, find_entry-unnamed,
  conf_get_entry-insert_head,
}

names_trans :
    (section tag : Bytes) (cb other : Binding)
    → names section tag cb ≡ true
    → names cb.section cb.tag other ≡ false
    → names section tag other ≡ false
names_trans section tag cb other h n = ground (
  arith,
  case_eq_iff cb.section section,
  case_eq_iff cb.tag tag,
  case_eq_iff other.section cb.section,
  case_eq_iff other.tag cb.tag,
  case_eq_iff other.section section,
  case_eq_iff other.tag tag,
)

pub All-unnamed :
    (section tag : Bytes) (cb : Binding) (l : List Binding)
    → names section tag cb ≡ true
    → All (λ other. names cb.section cb.tag other ≡ false) l
    → All (λ other. names section tag other ≡ false) l
All-unnamed section tag cb [] h n = tt
All-unnamed section tag cb (x ∷ l) h n =
    (names_trans section tag cb x h n.0, All-unnamed section tag cb l h n.1)

pub cleared-cons :
    (section tag : Bytes) (cb : Binding) (l : List Binding)
    → cleared section tag (cb ∷ l)
      ≡ (if names section tag cb then l else cb ∷ cleared section tag l)
unfolding remove_first
cleared-cons section tag cb l = elim (Option-cases (remove_first section tag l)) [
  | inl gone ↦ ground (arith, gone)
  | inr (r, left) ↦ ground (arith, left)
]

find_entry-cleared :
    (gone gone_tag section : Bytes) (arg : Option Bytes) (tag : Bytes) (l : List Binding)
    → Single l
    → find_entry section arg tag (cleared gone gone_tag l)
      ≡ (if same_name section tag gone gone_tag then none else find_entry section arg tag l)
unfolding find_entry
find_entry-cleared gone gone_tag section arg tag [] s = unfold remove_first in ground arith
find_entry-cleared gone gone_tag section arg tag (cb ∷ l) s =
    rw cleared-cons (elim (Bool-cases (names gone gone_tag cb)) [
      | inl named ↦ rw named (
          ground (
            arith,
            named,
            find_entry-unnamed gone gone_tag section arg tag l
                (All-unnamed gone gone_tag cb l named s.0),
            case_eq_iff cb.section gone,
            case_eq_iff cb.tag gone_tag,
            case_eq_iff section cb.section,
            case_eq_iff tag cb.tag,
            case_eq_iff section gone,
            case_eq_iff tag gone_tag,
          ))
      | inr other ↦ rw other (
          ground (
            arith,
            other,
            find_entry-cleared gone gone_tag section arg tag l s.1,
            case_eq_iff cb.section gone,
            case_eq_iff cb.tag gone_tag,
            case_eq_iff section cb.section,
            case_eq_iff tag cb.tag,
            case_eq_iff section gone,
            case_eq_iff tag gone_tag,
          ))
    ])

pub remove_now-cleared :
    (b : Bindings) (section tag : Bytes) (n : ℕ)
    → (conf_remove_now b section tag).0 n
      ≡ (if n == conf_hash section then cleared section tag (b (conf_hash section)) else b n)
unfolding conf_remove_now
remove_now-cleared b section tag n =
    elim (Option-cases (remove_first section tag (b (conf_hash section)))) [
      | inl gone ↦ rw (gone, conf_remove_now) (ground (arith, gone, ap b))
      | inr (r, left) ↦ rw (left, conf_remove_now) (ground (arith, left))
    ]

-- conf_remove_now takes out the entry for the section and the tag, whatever its argument, and no
-- other.
pub conf_get_entry-remove_now :
    (b : Bindings) (gone gone_tag section : Bytes) (arg : Option Bytes) (tag : Bytes)
    → IsSingle b
    → conf_get_entry (conf_remove_now b gone gone_tag).0 section arg tag
      ≡ (if same_name section tag gone gone_tag then none else conf_get_entry b section arg tag)
unfolding conf_get_entry
conf_get_entry-remove_now b gone gone_tag section arg tag s =
    rw (remove_now-cleared b gone gone_tag (conf_hash section))
      (elim (Bool-cases (conf_hash section == conf_hash gone)) [
        | inl same ↦
            let same_hash = (==_iff (conf_hash section) (conf_hash gone)).0 same in
            rw same (
              rw (← same_hash) (
                find_entry-cleared gone gone_tag section arg tag (b (conf_hash section))
                  (s.single (conf_hash section))))
        | inr other ↦ rw other (ground (arith, conf_hash-case_eq section gone))
      ])

-- In a database with one binding for each section and tag, a conf_set_now that overrides returns 0;
-- its own entry then has the new value, an entry for the same section and tag under another
-- argument is gone, and all others are as they were.
pub conf_set_now_override :
    (getenv : Bytes → Option Bytes) (fuel : ℕ) (b : Bindings) (node : Binding) (section : Bytes)
    (arg : Option Bytes) (tag : Bytes)
    → IsSingle b
    → (b' : Bindings) × (conf_set_now getenv fuel b node true ≡ some (b', 0))
      × (conf_get_entry b' section arg tag ≡ (
          if is_entry section arg tag node
          then some node.value
          else if same_name section tag node.section node.tag
          then none
          else conf_get_entry b section arg tag))
unfolding conf_set_now
conf_set_now_override getenv fuel b node section arg tag s =
    let removed = (conf_remove_now b node.section node.tag).0 in
    (
      insert_head removed node,
      refl,
      conf_get_entry-insert_head removed node section arg tag
          ∙ ap (λ r. if is_entry section arg tag node then some node.value else r)
              (conf_get_entry-remove_now b node.section node.tag section arg tag s),
    )

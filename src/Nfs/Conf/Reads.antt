-- ===== src/Nfs/Conf/Reads.antt =====
-- The typed reads of support/nfs/conffile.c.
pub mod Lists
pub mod Expansion
use nfs_utils.Common.{
  to_int, ℕ, zero, suc, Bool, true, false, ◌||◌, Option, none, some, List, [], ◌∷◌, if◌then◌else◌,
  Bytes, codes, case_eq, ℤ, strtol, skip, is_space, cut, length,
}
use nfs_utils.Nfs.Conf.{Binding, Bindings, conf_hash, Lookup, found, missing, loops, get_section}

unfoldable pub conf_get_str : (Bytes → Option Bytes) → Bindings → ℕ → Bytes → Bytes → Lookup
unfolding get_section
conf_get_str getenv b fuel section tag = get_section getenv b none fuel section tag

unfoldable pub conf_get_str_with_def :
    (Bytes → Option Bytes) → Bindings → ℕ → Bytes → Bytes → Bytes → Lookup
unfolding conf_get_str
conf_get_str_with_def getenv b fuel section tag default =
    elim (conf_get_str getenv b fuel section tag) [
      | found v ↦ found v
      | missing ↦ found default
      | loops ↦ loops
    ]

-- atoi: strtol, its result converted to a 32-bit int
-- `none` in this and the next function: the look-up does not return within `fuel` jumps.
unfoldable pub conf_get_num : (Bytes → Option Bytes) → Bindings → ℕ → Bytes → Bytes → ℤ → Option ℤ
unfolding conf_get_str strtol
conf_get_num getenv b fuel section tag default = elim (conf_get_str getenv b fuel section tag) [
  | found v ↦ some (to_int (strtol v).value)
  | missing ↦ some default
  | loops ↦ none
]

abbrev pub any_case : Bytes → List Bytes → Bool
any_case v [] = false
any_case v (w ∷ l) = case_eq v w || any_case v l

abbrev pub true_words : List Bytes
true_words = codes "1" ∷ codes "t" ∷ codes "true" ∷ codes "y" ∷ codes "yes" ∷ codes "on" ∷ []

abbrev pub false_words : List Bytes
false_words = codes "0" ∷ codes "f" ∷ codes "false" ∷ codes "n" ∷ codes "no" ∷ codes "off" ∷ []

unfoldable pub read_bool : Bool → Bytes → Bool
read_bool default v =
    if any_case v true_words then true else if any_case v false_words then false else default

unfoldable pub conf_get_bool :
    (Bytes → Option Bytes) → Bindings → ℕ → Bytes → Bytes → Bool → Option Bool
unfolding conf_get_str read_bool
conf_get_bool getenv b fuel section tag default = elim (conf_get_str getenv b fuel section tag) [
  | found v ↦ some (read_bool default v)
  | missing ↦ some default
  | loops ↦ none
]

-- One field: whitespace in front is skipped, and an empty field is left out. The loop that skips
-- trailing whitespace starts at the NUL that strsep wrote, and so ends at once.
abbrev pub add_field : Bytes → List Bytes → List Bytes
add_field field l = elim (skip is_space field) [ [] ↦ l | c ∷ s ↦ (c ∷ s) ∷ l ]

-- The loop of strsep with "," over the text; a text of n bytes has at most n + 1 fields, so that much `fuel` is enough.
unfoldable pub fields : ℕ → Bytes → List Bytes
unfolding cut skip
fields zero s = []
fields (suc fuel) s = elim (cut b',' s) [
  | none ↦ add_field s []
  | some (field, p) ↦ add_field field (fields fuel p)
]

-- The fields of the value; `none` for a null list.
unfoldable pub conf_get_list :
    (Bytes → Option Bytes) → Bindings → ℕ → Bytes → Bytes → Option (List Bytes)
unfolding conf_get_str fields
conf_get_list getenv b fuel section tag = elim (conf_get_str getenv b fuel section tag) [
  | found v ↦ some (fields (suc (length v)) v)
  | _ ↦ none
]

abbrev pub cons_tag : Bytes → Option (List Bytes) → Option (List Bytes)
cons_tag tag none = none
cons_tag tag (some r) = some (tag ∷ r)

-- A binding of the section: its tag is listed if its argument is the one asked for.
abbrev pub list_tag :
    Option Bytes → Option Bytes → Bytes → Option (List Bytes) → Option (List Bytes)
list_tag none arg tag rest = cons_tag tag rest
list_tag (some a) none tag rest = none
list_tag (some a) (some x) tag rest = if case_eq a x then cons_tag tag rest else rest

-- The tags of a section. `none` is strcasecmp with a null pointer: an argument is asked for, and
-- the section has a binding without one.
unfoldable pub tags : Bytes → Option Bytes → List Binding → Option (List Bytes)
tags section arg [] = some []
tags section arg (cb ∷ l) =
    let rest = tags section arg l in
    if case_eq section cb.section then list_tag arg cb.arg cb.tag rest else rest

unfoldable pub conf_get_tag_list : Bindings → Bytes → Option Bytes → Option (List Bytes)
unfolding tags
conf_get_tag_list b section arg = tags section arg (b (conf_hash section))

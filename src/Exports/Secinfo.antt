-- ===== src/Exports/Secinfo.antt =====
-- The security flavors and the transport security modes of an export, and the flags that each
-- flavor has of its own (support/nfs/exports.c).
use nfs_utils.Common.{
  ℕ, suc, ◌+◌, Bool, false, not, ◌&&◌, ◌||◌, Option, none, some, List, [], ◌∷◌, ◌++◌, ltb, leb,
  ◌==◌, if◌then◌else◌, Bytes, codes, length, str_eq, map,
}
use nfs_utils.Exports.{
  Flags, set_mask, clear_mask, FlavInfo, flav_map, SecEntry, XprtsecInfo, XprtsecEntry, Exportent,
}

-- SECFLAVOR_COUNT, XPRTSECMODE_COUNT
abbrev pub secflavor_count : ℕ
secflavor_count = 8

abbrev pub xprtsecmode_count : ℕ
xprtsecmode_count = 3

-- The place of the flavor, and the length of the list if it is not there.
unfoldable pub flavor_index : ℕ → List SecEntry → ℕ
flavor_index fnum [] = 0
flavor_index fnum (p ∷ l) = if p.flav.fnum == fnum then 0 else suc (flavor_index fnum l)

abbrev pub add_entry : FlavInfo → Exportent → Exportent
add_entry flav ep = record ep {
  e_secinfo = ep.e_secinfo ++ record { flav = flav; flags = ep.e_flags } ∷ [];
}

-- `none` is -1.
unfoldable pub secinfo_addflavor : FlavInfo → Exportent → Option (ℕ × Exportent)
unfolding flavor_index
secinfo_addflavor flav ep =
    let i = flavor_index flav.fnum ep.e_secinfo in
    if ltb i (length ep.e_secinfo)
    then some (i, ep)
    else if leb secflavor_count i
    then none
    else some (i, add_entry flav ep)

unfoldable pub search_flavor : Bytes → List FlavInfo → Option FlavInfo
search_flavor name [] = none
search_flavor name (f ∷ l) =
    let rest = search_flavor name l in if str_eq f.flavour name then some f else rest

unfoldable pub find_flavor : Bytes → Option FlavInfo
unfolding search_flavor str_eq
find_flavor name = search_flavor name flav_map

-- The words that strsep(&str, sep) gives: one more than there are separators.
unfoldable pub strsep_words : ℕ → Bytes → List Bytes
strsep_words sep [] = [] ∷ []
strsep_words sep (c ∷ s) =
    let rest = strsep_words sep s in
    if c == sep then [] ∷ rest else elim rest [ [] ↦ (c ∷ []) ∷ [] | w ∷ l ↦ (c ∷ w) ∷ l ]

-- A failed parse has changed the record too.
pub data Flavors : Type 0 where
  active : List ℕ → Exportent → Flavors
  unparsed : Exportent → Flavors

unfoldable pub add_flavors : List Bytes → List ℕ → Exportent → Flavors
add_flavors [] out ep = active out ep
add_flavors (name ∷ l) out ep = elim (find_flavor name) [
  | none ↦ unparsed ep
  | some flav ↦ elim (secinfo_addflavor flav ep) [
    | none ↦ unparsed ep
    | some (i, ep') ↦ add_flavors l (i ∷ out) ep'
  ]
]

unfoldable pub parse_flavors : Bytes → Exportent → Flavors
unfolding add_flavors strsep_words
parse_flavors str ep = add_flavors (strsep_words b':' str) [] ep

abbrev xprtsec_info : Bytes → ℕ → XprtsecInfo
xprtsec_info name number = record { name = name; number = number }

abbrev pub xprtsec_name2info : List XprtsecInfo
xprtsec_name2info =
    xprtsec_info (codes "none") 1
    ∷ xprtsec_info (codes "tls") 2
    ∷ xprtsec_info (codes "mtls") 4
    ∷ []

unfoldable pub search_xprtsec : Bytes → List XprtsecInfo → Option XprtsecInfo
search_xprtsec name [] = none
search_xprtsec name (x ∷ l) =
    let rest = search_xprtsec name l in if str_eq x.name name then some x else rest

unfoldable pub find_xprtsec_info : Bytes → Option XprtsecInfo
unfolding search_xprtsec str_eq
find_xprtsec_info name = search_xprtsec name xprtsec_name2info

unfoldable pub mode_index : ℕ → List XprtsecEntry → ℕ
mode_index number [] = 0
mode_index number (p ∷ l) = if p.info.number == number then 0 else suc (mode_index number l)

abbrev add_mode : XprtsecInfo → Exportent → Exportent
add_mode info ep = record ep {
  e_xprtsec = ep.e_xprtsec ++ record { info = info; flags = ep.e_flags } ∷ [];
}

unfoldable pub xprtsec_addmode : XprtsecInfo → Exportent → Option (ℕ × Exportent)
unfolding mode_index
xprtsec_addmode info ep =
    let i = mode_index info.number ep.e_xprtsec in
    if ltb i (length ep.e_xprtsec)
    then some (i, ep)
    else if leb xprtsecmode_count i
    then none
    else some (i, add_mode info ep)

unfoldable pub add_modes : List Bytes → List ℕ → Exportent → Flavors
add_modes [] out ep = active out ep
add_modes (name ∷ l) out ep = elim (find_xprtsec_info name) [
  | none ↦ unparsed ep
  | some info ↦ elim (xprtsec_addmode info ep) [
    | none ↦ unparsed ep
    | some (i, ep') ↦ add_modes l (i ∷ out) ep'
  ]
]

unfoldable pub parse_xprtsec : Bytes → Exportent → Flavors
unfolding add_modes strsep_words
parse_xprtsec str ep = add_modes (strsep_words b':' str) [] ep

abbrev pub is_member : ℕ → List ℕ → Bool
is_member i [] = false
is_member i (x ∷ l) = x == i || is_member i l

-- A change of the flags of the entries whose places are active; the first has place `i`.
unfoldable pub change_active : (Flags → Flags) → List ℕ → ℕ → List SecEntry → List SecEntry
change_active f act i [] = []
change_active f act i (p ∷ l) =
    (if is_member i act then record p { flags = f p.flags } else p) ∷ change_active f act (i + 1) l

unfoldable pub change_flags : (Flags → Flags) → List ℕ → Exportent → Exportent
unfolding change_active
change_flags f act ep = record ep {
  e_flags = f ep.e_flags;
  e_secinfo = change_active f act 0 ep.e_secinfo;
}

unfoldable pub setflags : Flags → List ℕ → Exportent → Exportent
unfolding change_flags set_mask
setflags mask act ep = change_flags (set_mask mask) act ep

unfoldable pub clearflags : Flags → List ℕ → Exportent → Exportent
unfolding change_flags clear_mask
clearflags mask act ep = change_flags (clear_mask mask) act ep

-- p->flags |= e_flags & ~secinfo_flags
unfoldable pub fix_entry : Flags → Flags → SecEntry → SecEntry
unfolding set_mask
fix_entry secinfo_flags e_flags p = record p {
  flags = set_mask (λ g. e_flags g && not (secinfo_flags g)) p.flags;
}

-- `secinfo_flags` is that of get_export_features.
unfoldable pub fix_pseudoflavor_flags : Flags → Exportent → Exportent
unfolding fix_entry
fix_pseudoflavor_flags secinfo_flags ep = record ep {
  e_secinfo = map (fix_entry secinfo_flags ep.e_flags) ep.e_secinfo;
}

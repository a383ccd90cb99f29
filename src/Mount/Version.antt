-- ===== src/Mount/Version.antt =====
-- nfs_nfs_version of utils/mount/network.c: the NFS version that the mount options ask for.
pub mod Counting
pub mod Modes
pub mod Dotted
use nfs_utils.Common.{
  ℕ, ◌+◌, Bool, true, false, not, ◌&&◌, ◌||◌, Option, none, some, List, [], ◌∷◌, ◌==◌, leb, ltb,
  if◌then◌else◌, Bytes, codes, peek, drop, str_eq, to_u64, strtol,
}
use nfs_utils.Mount.Options.{MountOptions, po_get, po_contains_prefix}

abbrev pub nfs_version_opttbl : List Bytes
nfs_version_opttbl = codes "v2" ∷ codes "v3" ∷ codes "v4" ∷ codes "vers" ∷ codes "nfsvers" ∷ []

-- v_mode
pub data Mode : Type 0 where
  v_default v_general v_specific v_parse_err : Mode

pub record NfsVersion : Type 0 where
  pub major : ℕ
  pub minor : ℕ
  pub v_mode : Mode

-- What the loop over nfs_version_opttbl finds: `found` and `version_key`.
pub data Search : Type 0 where
  multiple : Search
  unique : Option (ℕ × Bytes) → Search

unfoldable pub find_version : MountOptions → List Bytes → ℕ → Option (ℕ × Bytes) → Search
unfolding po_contains_prefix
find_version options [] i found = unique found
find_version options (name ∷ table) i found = elim (po_contains_prefix options name 0) [
  | none ↦ find_version options table (i + 1) found
  | some key ↦ elim found [
    | some _ ↦ multiple
    | none ↦ elim (po_contains_prefix options name 1) [
      | some _ ↦ multiple
      | none ↦ find_version options table (i + 1) (some (i, key))
    ]
  ]
]

-- ret_error
abbrev pub ret_error : NfsVersion → Bool × NfsVersion
ret_error version = (false, record version { v_mode = v_parse_err })

-- The end of nfs_nfs_version: the mode is set, and the text must be read up to its end.
abbrev pub ends_at : Bytes → Mode → NfsVersion → Bool × NfsVersion
ends_at [] mode version = (true, record version { v_mode = mode })
ends_at (c ∷ s) mode version = ret_error version

abbrev pub set_minor : NfsVersion → Bytes → NfsVersion
set_minor version v = record version { minor = to_u64 (strtol v).value }

-- The value after the dot
abbrev pub dotted_minor : NfsVersion → Bytes → Bool × NfsVersion
dotted_minor version v =
    if to_u64 (strtol v).value == 0 && str_eq (strtol v).rest v
    then ret_error (set_minor version v)
    else ends_at (strtol v).rest v_specific (set_minor version v)

-- The chain of tests once `major` is set; `rest` is the text at `cptr`, `minorversion` that option's
-- value.
unfoldable pub minor_part : NfsVersion → Bytes → Option Bytes → Bool × NfsVersion
minor_part version [] none =
    if ltb version.major 4
    then (true, record version { v_mode = v_specific })
    else (true, record version { v_mode = v_general })
minor_part version [] (some v) =
    if ltb version.major 4
    then (true, record version { v_mode = v_specific })
    else ends_at (strtol v).rest v_specific (set_minor version v)
minor_part version (c ∷ s) minorversion =
    if ltb version.major 4 then ret_error version else dotted_minor version s

unfoldable pub version_part : MountOptions → NfsVersion → Bytes → Bool × NfsVersion
unfolding minor_part po_get
version_part options version value =
    let version' = record version { major = to_u64 (strtol value).value } in
    let rest = (strtol value).rest in
    if str_eq rest value || not (peek rest == 0 || peek rest == b'.')
    then ret_error version'
    else minor_part version' rest (po_get options (codes "minorversion"))

-- version_val for the option found, and the same for no option
unfoldable pub version_value : MountOptions → ℕ × Bytes → Option Bytes
unfolding po_get
version_value options (found, key) = if leb found 2 then some (drop 1 key) else po_get options key

-- `true` is the value 1; `type` is the file system type of the mount.
unfoldable pub nfs_nfs_version : Bytes → MountOptions → NfsVersion → Bool × NfsVersion
unfolding find_version version_value version_part
nfs_nfs_version type options version =
    let start = record version { v_mode = v_default } in
    elim (find_version options nfs_version_opttbl 0 none) [
      | multiple ↦ ret_error start
      | unique none ↦
          if str_eq type (codes "nfs4")
          then version_part options start (drop 3 type)
          else (true, start)
      | unique (some found) ↦ elim (version_value options found) [
        | none ↦ ret_error start
        | some value ↦ version_part options start value
      ]
    ]

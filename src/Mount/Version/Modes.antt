-- ===== src/Mount/Version/Modes.antt =====
-- The mode that nfs_nfs_version of utils/mount/network.c leaves.
use nfs_utils.Common.{
  ℕ, ◌≡◌, ◌≢◌, refl, Bool, true, false, not, ◌&&◌, ◌||◌, Option, none, some, [], ◌∷◌, arith, ◌==◌,
  ltb, if◌then◌else◌, Bytes, codes, drop, strtol, peek, str_eq, to_u64,
}
use nfs_utils.Mount.Options.{MountOptions, po_get}
use nfs_utils.Mount.Version.{
  NfsVersion, Mode, v_default, v_general, v_specific, v_parse_err, Search, multiple, unique,
  nfs_version_opttbl, find_version, ret_error, ends_at, set_minor, dotted_minor, minor_part,
  version_part, version_value, nfs_nfs_version,
}

abbrev pub IsChecked : Bool × NfsVersion → Type 0
IsChecked (true, v) = v.v_mode ≢ v_parse_err
IsChecked (false, v) = v.v_mode ≡ v_parse_err

ends_at-IsChecked :
    (rest : Bytes) (mode : Mode) (v : NfsVersion)
    → mode ≢ v_parse_err
    → IsChecked (ends_at rest mode v)
ends_at-IsChecked [] mode v h = h
ends_at-IsChecked (c ∷ s) mode v h = refl

if-IsChecked :
    (b : Bool) (x y : Bool × NfsVersion)
    → IsChecked x
    → IsChecked y
    → IsChecked (if b then x else y)
if-IsChecked true x y hx hy = hx
if-IsChecked false x y hx hy = hy

specific_ne : v_specific ≢ v_parse_err
specific_ne e = ground (arith, e)

dotted_minor-IsChecked : (v : NfsVersion) (s : Bytes) → IsChecked (dotted_minor v s)
dotted_minor-IsChecked v s =
    if-IsChecked (to_u64 (strtol s).value == 0 && str_eq (strtol s).rest s)
      (ret_error (set_minor v s)) (ends_at (strtol s).rest v_specific (set_minor v s)) refl
      (ends_at-IsChecked (strtol s).rest v_specific (set_minor v s) specific_ne)

minor_part-IsChecked :
    (v : NfsVersion) (rest : Bytes) (minorversion : Option Bytes)
    → IsChecked (minor_part v rest minorversion)
unfolding minor_part
minor_part-IsChecked v [] none =
    if-IsChecked (ltb v.major 4) (true, record v { v_mode = v_specific })
      (true, record v { v_mode = v_general }) specific_ne (λ e. ground (arith, e))
minor_part-IsChecked v [] (some m) =
    if-IsChecked (ltb v.major 4) (true, record v { v_mode = v_specific })
      (ends_at (strtol m).rest v_specific (set_minor v m)) specific_ne
      (ends_at-IsChecked (strtol m).rest v_specific (set_minor v m) specific_ne)
minor_part-IsChecked v (c ∷ s) minorversion =
    if-IsChecked (ltb v.major 4) (ret_error v) (dotted_minor v s) refl (dotted_minor-IsChecked v s)

version_part-IsChecked :
    (o : MountOptions) (v : NfsVersion) (value : Bytes) → IsChecked (version_part o v value)
unfolding version_part
version_part-IsChecked o v value =
    let v' = record v { major = to_u64 (strtol value).value } in
    let rest = (strtol value).rest in
    if-IsChecked (str_eq rest value || not (peek rest == 0 || peek rest == b'.')) (ret_error v')
      (minor_part v' rest (po_get o (codes "minorversion"))) refl
      (minor_part-IsChecked v' rest (po_get o (codes "minorversion")))

-- nfs_nfs_version returns 0 exactly if it leaves the mode V_PARSE_ERR.
pub nfs_nfs_version-IsChecked :
    (type : Bytes) (o : MountOptions) (v : NfsVersion) → IsChecked (nfs_nfs_version type o v)
unfolding nfs_nfs_version
nfs_nfs_version-IsChecked type o v = of_search (find_version o nfs_version_opttbl 0 none) refl
  where
    start : NfsVersion
    start = record v { v_mode = v_default }

    of_value :
        (found : ℕ × Bytes)
        → find_version o nfs_version_opttbl 0 none ≡ unique (some found)
        → (value : Option Bytes) → version_value o found ≡ value
        → IsChecked (nfs_nfs_version type o v)
    of_value found e none e' = rw (e, e', nfs_nfs_version) refl
    of_value found e (some value) e' =
        rw (e, e', nfs_nfs_version) (version_part-IsChecked o start value)

    of_search :
        (s : Search)
        → find_version o nfs_version_opttbl 0 none ≡ s
        → IsChecked (nfs_nfs_version type o v)
    of_search multiple e = rw (e, nfs_nfs_version) refl
    of_search (unique none) e =
        rw (e, nfs_nfs_version)
          (if-IsChecked (str_eq type (codes "nfs4")) (version_part o start (drop 3 type))
            (true, start) (version_part-IsChecked o start (drop 3 type))
            (λ bad. ground (arith, bad)))
    of_search (unique (some found)) e = of_value found e (version_value o found) refl

-- ===== src/Mount/Version/Dotted.antt =====
-- nfs_nfs_version of utils/mount/network.c on an option "vers=" with a major and a minor number.
use nfs_utils.Common.{
  ℕ, ◌+◌, ◌*◌, ◌-◌, ◌^◌, ◌<◌, ◌≤◌, ◌≡◌, ◌≢◌, inl, inr, refl, sym, ap, ◌∙◌, true, false, Option,
  none, some, [], ◌∷◌, ◌++◌, arith, Bytes, codes, str_eq, str_eq_iff, is_digit, skip, All, length,
  length-append, append-nil, pos, Parsed, read_digits, signed_long, unsigned_part, sign_part,
  strtol, Bool-cases,
}
use nfs_utils.Mount.Version.Counting.{
  occurrences, version_options, find_version-absent, find_version-zero, find_version-once,
}
use nfs_utils.Mount.Options.{MountOptions, po_get, po_contains_prefix}
use nfs_utils.Mount.Version.{
  NfsVersion, v_default, v_specific, nfs_version_opttbl, find_version, unique, dotted_minor,
  minor_part, version_part, version_value, nfs_nfs_version,
}

-- The value of decimal digits behind a number read so far
abbrev pub decimal : ℕ → Bytes → ℕ
decimal n [] = n
decimal n (c ∷ s) = decimal (n * 10 + (c - 48)) s

-- A number that strtol reads whole: digits, one at least, that fit a long
abbrev pub IsNumber : Bytes → Type 0
IsNumber s = (s ≢ []) × All (λ c. is_digit c ≡ true) s × (decimal 0 s < 2 ^ 63)

abbrev NoDigit : Bytes → Type 0
NoDigit [] = Unit
NoDigit (c ∷ s) = is_digit c ≡ false

read_digits-append :
    (n : ℕ) (s rest : Bytes)
    → All (λ c. is_digit c ≡ true) s
    → NoDigit rest
    → read_digits n (s ++ rest) ≡ (decimal n s, rest)
unfolding read_digits
read_digits-append n [] [] h e = refl
read_digits-append n [] (c ∷ rest) h e = rw (e, read_digits) refl
read_digits-append n (c ∷ s) rest h e =
    rw (h.0, read_digits) (read_digits-append (n * 10 + (c - 48)) s rest h.1 e)

abbrev whole_number : ℕ → Bytes → Parsed
whole_number n rest = record { value = pos n; rest = rest; in_range = true }

strtol-digit :
    (c : ℕ) (s : Bytes)
    → is_digit c ≡ true
    → strtol (c ∷ s) ≡ signed_long false (read_digits 0 (c ∷ s))
unfolding strtol sign_part unsigned_part skip
strtol-digit c s h = ground (arith, h)

signed_long-fits :
    (n : ℕ) (rest : Bytes) → n < 2 ^ 63 → signed_long false (n, rest) ≡ whole_number n rest
unfolding signed_long
signed_long-fits n rest h = ground (arith, h)

strtol-append :
    (s rest : Bytes)
    → IsNumber s
    → NoDigit rest
    → strtol (s ++ rest) ≡ whole_number (decimal 0 s) rest
strtol-append [] rest h e = absurd (h.0 refl)
strtol-append (c ∷ s) rest (ne, digits, fits) e =
    strtol-digit c (s ++ rest) digits.0
    ∙ ap (signed_long false) (read_digits-append 0 (c ∷ s) rest digits e)
    ∙ signed_long-fits (decimal 0 (c ∷ s)) rest fits

strtol-number : (s : Bytes) → IsNumber s → strtol s ≡ whole_number (decimal 0 s) []
strtol-number s h = ap strtol (sym (append-nil s)) ∙ strtol-append s [] h tt

-- strtol has read something.
longer : (s rest : Bytes) → s ≢ [] → str_eq rest (s ++ rest) ≡ false
longer [] rest ne = absurd (ne refl)
longer (c ∷ s) rest ne = elim (Bool-cases (str_eq rest (c ∷ s ++ rest))) [
  | inl same ↦ absurd (
      omega
        (arith, ap length ((str_eq_iff rest (c ∷ s ++ rest)).0 same), length-append (c ∷ s) rest))
  | inr other ↦ other
]

dotted_minor-number :
    (v : NfsVersion) (n : Bytes)
    → IsNumber n
    → dotted_minor v n ≡ (true, record v { minor = decimal 0 n; v_mode = v_specific })
unfolding str_eq
dotted_minor-number v [] h = absurd (h.0 refl)
dotted_minor-number v (c ∷ s) h = rw (strtol-number (c ∷ s) h) (ground arith)

version_part-strtol :
    (o : MountOptions) (v : NfsVersion) (value n : Bytes) (a : ℕ)
    → strtol value ≡ whole_number a (b'.' ∷ n)
    → str_eq (b'.' ∷ n) value ≡ false
    → version_part o v value
      ≡ minor_part (record v { major = a }) (b'.' ∷ n) (po_get o (codes "minorversion"))
unfolding version_part
version_part-strtol o v value n a e ne = rw (e, ne, version_part) refl

minor_part-dot :
    (v : NfsVersion) (n : Bytes) (minorversion : Option Bytes)
    → 4 ≤ v.major
    → minor_part v (b'.' ∷ n) minorversion ≡ dotted_minor v n
unfolding minor_part
minor_part-dot v n minorversion h = ground (arith, h)

version_part-dotted :
    (o : MountOptions) (v : NfsVersion) (m n : Bytes)
    → IsNumber m
    → IsNumber n
    → 4 ≤ decimal 0 m
    → version_part o v (m ++ b'.' ∷ n)
      ≡ (true, record { major = decimal 0 m; minor = decimal 0 n; v_mode = v_specific })
version_part-dotted o v m n hm hn four =
    version_part-strtol o v (m ++ b'.' ∷ n) n (decimal 0 m) (strtol-append m (b'.' ∷ n) hm refl)
      (longer m (b'.' ∷ n) hm.0)
    ∙ minor_part-dot (record v { major = decimal 0 m }) n (po_get o (codes "minorversion")) four
    ∙ dotted_minor-number (record v { major = decimal 0 m }) n hn

-- The options that the search meets: one that begins with "vers", and none that begins with another
-- name of the table.
abbrev pub IsVers : MountOptions → Type 0
IsVers o =
    (occurrences (codes "v2") o.items ≡ 0)
    × (occurrences (codes "v3") o.items ≡ 0)
    × (occurrences (codes "v4") o.items ≡ 0)
    × (occurrences (codes "vers") o.items ≡ 1)
    × (occurrences (codes "nfsvers") o.items ≡ 0)

find_version-IsVers :
    (o : MountOptions) (key : Bytes)
    → IsVers o
    → po_contains_prefix o (codes "vers") 0 ≡ some key
    → find_version o nfs_version_opttbl 0 none ≡ unique (some (3, key))
unfolding version_options
find_version-IsVers o key (v2, v3, v4, vers, nfsvers) k =
    find_version-absent o (codes "v2")
      (codes "v3" ∷ codes "v4" ∷ codes "vers" ∷ codes "nfsvers" ∷ []) 0 none v2
    ∙ find_version-absent o (codes "v3") (codes "v4" ∷ codes "vers" ∷ codes "nfsvers" ∷ []) 1 none
        v3
    ∙ find_version-absent o (codes "v4") (codes "vers" ∷ codes "nfsvers" ∷ []) 2 none v4
    ∙ find_version-once o (codes "vers") (codes "nfsvers" ∷ []) 3 key vers k
    ∙ find_version-zero o (codes "nfsvers" ∷ []) 4 (some (3, key)) (omega (arith, nfsvers))

nfs_nfs_version-found :
    (type : Bytes) (o : MountOptions) (v : NfsVersion) (found : ℕ × Bytes) (value : Bytes)
    → find_version o nfs_version_opttbl 0 none ≡ unique (some found)
    → version_value o found ≡ some value
    → nfs_nfs_version type o v ≡ version_part o (record v { v_mode = v_default }) value
unfolding nfs_nfs_version
nfs_nfs_version-found type o v found value e h = rw (e, h, nfs_nfs_version) refl

-- With one version option, "vers=" followed by two decimal numbers that fit a long, with a dot
-- between them and the first 4 at least, nfs_nfs_version returns 1 with the two numbers and
-- V_SPECIFIC.
pub nfs_nfs_version_dotted :
    (type : Bytes) (o : MountOptions) (v : NfsVersion) (key m n : Bytes)
    → IsVers o
    → po_contains_prefix o (codes "vers") 0 ≡ some key
    → po_get o key ≡ some (m ++ b'.' ∷ n)
    → IsNumber m
    → IsNumber n
    → 4 ≤ decimal 0 m
    → nfs_nfs_version type o v
      ≡ (true, record { major = decimal 0 m; minor = decimal 0 n; v_mode = v_specific })
nfs_nfs_version_dotted type o v key m n h k e hm hn four =
    nfs_nfs_version-found type o v (3, key) (m ++ b'.' ∷ n) (find_version-IsVers o key h k)
      (unfold version_value in e)
    ∙ version_part-dotted o (record v { v_mode = v_default }) m n hm hn four

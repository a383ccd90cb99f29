-- ===== src/Mount/Devname/Parts.antt =====
-- Which device names utils/mount/parse_dev.c accepts, and how it takes them apart.
use nfs_utils.Common.{
  ℕ, ◌≤◌, ◌≡◌, inl, inr, refl, false, some, [], ◌∷◌, ◌++◌, arith, ltb, ◌==◌, Bytes, codes, length,
  cut, cut-some, cut-Lacks, cut-Lacks-none, Lacks, starts, Option-cases, Bool-cases, ap, cut-none,
  sym, ◌∙◌, subst, length-append,
}
use nfs_utils.Mount.Devname.{
  DevResult, parsed, failed, nfs_maxhostname, nfs_maxpathname, copy_out, take_first,
  nfs_parse_simple_hostname, after_brace, nfs_parse_square_bracket, parse_other, nfs_parse_devname,
}

-- "host:path" gives its two parts, if the host has no colon, comma or opening bracket in it, the
-- name is not an nfs:// URL, and both keep to their limits.
pub parse_simple :
    (host path : Bytes)
    → Lacks b':' host
    → Lacks b',' host
    → Lacks b'[' host
    → starts (codes "nfs://") (host ++ (b':' ∷ path)) ≡ false
    → length host ≤ nfs_maxhostname
    → length path ≤ nfs_maxpathname
    → nfs_parse_devname (some (host ++ (b':' ∷ path))) ≡ parsed host path
unfolding nfs_parse_devname nfs_parse_simple_hostname
parse_simple [] path c m b n h p =
    ground (arith, cut-Lacks b':' [] path tt, cut-Lacks-none b',' [] tt)
parse_simple (x ∷ host) path c m b n h p =
    ground (arith, cut-Lacks b':' (x ∷ host) path c, cut-Lacks-none b',' (x ∷ host) m, b.0)

-- An address in brackets, with no closing bracket in it, and a path, both within their limits, are
-- what is returned, colons and commas included.
pub parse_bracket :
    (host path : Bytes)
    → Lacks b']' host
    → length host ≤ nfs_maxhostname
    → length path ≤ nfs_maxpathname
    → nfs_parse_devname (some (b'[' ∷ (host ++ (b']' ∷ b':' ∷ path)))) ≡ parsed host path
unfolding nfs_parse_devname nfs_parse_square_bracket
parse_bracket host path c h p = ground (arith, cut-Lacks b']' host (b':' ∷ path) c)

-- For a list of host names before the colon, with no bracket in the first, within the limit of the
-- host name and not an nfs:// URL, the first name is taken, and the path is lost: it comes out
-- empty.
pub parse_list_loses_path :
    (first more path : Bytes)
    → Lacks b':' (first ++ (b',' ∷ more))
    → Lacks b',' first
    → Lacks b'[' first
    → starts (codes "nfs://") ((first ++ (b',' ∷ more)) ++ (b':' ∷ path)) ≡ false
    → length (first ++ (b',' ∷ more)) ≤ nfs_maxhostname
    → nfs_parse_devname (some ((first ++ (b',' ∷ more)) ++ (b':' ∷ path))) ≡ parsed first []
unfolding nfs_parse_devname nfs_parse_simple_hostname
parse_list_loses_path [] more path c m b n h =
    ground (arith, cut-Lacks b':' (b',' ∷ more) path c, cut-Lacks b',' [] more tt)
parse_list_loses_path (x ∷ first) more path c m b n h = ground (
  arith,
  cut-Lacks b':' (x ∷ first ++ (b',' ∷ more)) path c,
  cut-Lacks b',' (x ∷ first) more m,
  b.0,
)

-- How an accepted name is made up.
pub data Parts (host path : Bytes) : Bytes → Type 0 where
  plain :
      {dev : Bytes}
      → dev ≡ host ++ (b':' ∷ path)
      → Lacks b':' host
      → Lacks b',' host
      → Parts host path dev
  listed :
      {dev : Bytes} (more after : Bytes)
      → dev ≡ (host ++ (b',' ∷ more)) ++ (b':' ∷ after)
      → path ≡ []
      → Lacks b',' host
      → Parts host path dev
  bracketed :
      {dev : Bytes}
      → dev ≡ b'[' ∷ (host ++ (b']' ∷ b':' ∷ path))
      → Lacks b']' host
      → Parts host path dev

copy_out-parsed :
    (h p host path : Bytes)
    → copy_out h p ≡ parsed host path
    → (h ≡ host) × (p ≡ path) × (length path ≤ nfs_maxpathname)
copy_out-parsed h p host path e = ground arith

abbrev Sound : Bytes → DevResult → Type 0
Sound dev (failed e) = Unit
Sound dev (parsed host path) =
    Parts host path dev × (length host ≤ nfs_maxhostname) × (length path ≤ nfs_maxpathname)

copy_out-Sound :
    (dev h p : Bytes) → Parts h p dev → length h ≤ nfs_maxhostname → Sound dev (copy_out h p)
copy_out-Sound dev h p parts l = elim (Bool-cases (ltb nfs_maxpathname (length p))) [
  | inl long ↦ rw long tt
  | inr fits ↦ rw fits (parts, l, ground arith)
]

take_first-Sound :
    (dev host after : Bytes)
    → dev ≡ host ++ (b':' ∷ after)
    → Lacks b':' host
    → length host ≤ nfs_maxhostname
    → Sound dev (take_first host after)
unfolding take_first
take_first-Sound dev host after split no_colon short = elim (Option-cases (cut b',' host)) [
  | inl no_comma ↦
      rw (no_comma, take_first)
        (copy_out-Sound dev host after (plain split no_colon (cut-none b',' host no_comma)) short)
  | inr ((first, more), comma) ↦
      let (split', lacks) = cut-some b',' host first more comma in
      rw (comma, take_first)
        (copy_out-Sound dev first []
          (listed more after (split ∙ ap (λ z. z ++ (b':' ∷ after)) split') refl lacks)
          (omega (arith, short, ap length split', length-append first (b',' ∷ more))))
]

simple-Sound : (dev : Bytes) → Sound dev (nfs_parse_simple_hostname dev)
unfolding nfs_parse_simple_hostname
simple-Sound dev = elim (Option-cases (cut b':' dev)) [
  | inl no_colon ↦ rw (no_colon, nfs_parse_simple_hostname) tt
  | inr ((host, after), colon) ↦
      let (split, no_colon) = cut-some b':' dev host after colon in
      rw (colon, nfs_parse_simple_hostname)
        (elim (Bool-cases (ltb nfs_maxhostname (length host))) [
          | inl long ↦ rw long tt
          | inr fits ↦
              let short : length host ≤ nfs_maxhostname = ground arith in
              rw fits (take_first-Sound dev host after split no_colon short)
        ])
]

after_brace-Sound :
    (dev host rest : Bytes)
    → b'[' ∷ (host ++ (b']' ∷ rest)) ≡ dev
    → Lacks b']' host
    → Sound dev (after_brace host rest)
unfolding after_brace
after_brace-Sound dev host [] e l = tt
after_brace-Sound dev host (c ∷ path) e l = elim (Bool-cases (c == b':')) [
  | inr other ↦ rw other tt
  | inl colon ↦ rw colon (elim (Bool-cases (ltb nfs_maxhostname (length host))) [
    | inl long ↦ rw long tt
    | inr fits ↦
        let is_colon : c ≡ b':' = ground arith in
        rw fits (
          copy_out-Sound dev host path
            (bracketed (sym e ∙ ap (λ (x : ℕ). b'[' ∷ (host ++ (b']' ∷ x ∷ path))) is_colon) l)
            (ground arith))
  ])
]

bracket-Sound : (s : Bytes) → Sound (b'[' ∷ s) (nfs_parse_square_bracket s)
unfolding nfs_parse_square_bracket
bracket-Sound s = elim (Option-cases (cut b']' s)) [
  | inl no_brace ↦ rw (no_brace, nfs_parse_square_bracket) tt
  | inr ((host, rest), brace) ↦
      let (split, lacks) = cut-some b']' s host rest brace in
      rw (brace, nfs_parse_square_bracket)
        (after_brace-Sound (b'[' ∷ s) host rest (ap (λ z. b'[' ∷ z) (sym split)) lacks)
]

other-Sound : (dev : Bytes) → Sound dev (parse_other dev)
unfolding parse_other
other-Sound dev = elim (Bool-cases (starts (codes "nfs://") dev)) [
  | inl url ↦ rw url tt
  | inr simple ↦ rw simple (simple-Sound dev)
]

devname-Sound : (dev : Bytes) → Sound dev (nfs_parse_devname (some dev))
unfolding nfs_parse_devname
devname-Sound [] = other-Sound []
devname-Sound (c ∷ s) = elim (Bool-cases (c == b'[')) [
  | inl bracket ↦
      let is_bracket : b'[' ≡ c = ground arith in
      rw bracket
        (subst (λ (x : ℕ). Sound (x ∷ s) (nfs_parse_square_bracket s)) is_bracket (bracket-Sound s))
  | inr other ↦ rw other (other-Sound (c ∷ s))
]

-- A device name that is accepted has one of three forms: "host:path" with no comma in the host; a
-- list of hosts, of which the first is returned with an empty path; or an address in brackets. The
-- two parts keep to NFS_MAXHOSTNAME and NFS_MAXPATHNAME.
pub nfs_parse_devname-Parts :
    (dev host path : Bytes)
    → nfs_parse_devname (some dev) ≡ parsed host path
    → Parts host path dev × (length host ≤ nfs_maxhostname) × (length path ≤ nfs_maxpathname)
nfs_parse_devname-Parts dev host path e = subst (Sound dev) e (devname-Sound dev)

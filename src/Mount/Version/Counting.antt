-- ===== src/Mount/Version/Counting.antt =====
-- The search of nfs_nfs_version in utils/mount/network.c for version options.
use nfs_utils.Common.{
  ℕ, zero, suc, ◌+◌, ◌-◌, ◌≤◌, ◌<◌, ◌≡◌, inl, inr, refl, ◌∙◌, true, false, Option, none, some, List,
  [], ◌∷◌, arith, Bool-cases, if◌then◌else◌, dec_lt, Bytes, codes, starts, str_eq,
}
use nfs_utils.Mount.Options.{MountOption, MountOptions, contains_prefix, po_contains_prefix}
use nfs_utils.Mount.Version.{
  NfsVersion, v_default, v_parse_err, multiple, unique, nfs_version_opttbl, find_version,
  nfs_nfs_version,
}

-- How many options have a keyword that begins with the prefix.
unfoldable pub occurrences : Bytes → List MountOption → ℕ
occurrences prefix [] = 0
occurrences prefix (o ∷ r) =
    if starts prefix o.keyword then suc (occurrences prefix r) else occurrences prefix r

pub contains_prefix-none :
    (r : List MountOption) (prefix : Bytes) (n : ℕ)
    → occurrences prefix r ≤ n
    → contains_prefix r prefix n ≡ none
unfolding contains_prefix occurrences
contains_prefix-none [] prefix n h = refl
contains_prefix-none (o ∷ r) prefix n h = elim (Bool-cases (starts prefix o.keyword)) [
  | inl matches ↦ ground (arith, matches, h, contains_prefix-none r prefix (n - 1))
  | inr other ↦ ground (arith, other, h, contains_prefix-none r prefix n)
]

pub contains_prefix-some :
    (r : List MountOption) (prefix : Bytes) (n : ℕ)
    → n < occurrences prefix r
    → (key : Bytes) × (contains_prefix r prefix n ≡ some key)
unfolding contains_prefix occurrences
contains_prefix-some [] prefix n h = absurd (omega (arith, h))
contains_prefix-some (o ∷ r) prefix zero h = elim (Bool-cases (starts prefix o.keyword)) [
  | inl matches ↦ (o.keyword, ground (arith, matches))
  | inr other ↦
      let (key, e) = contains_prefix-some r prefix 0 (ground (arith, other, h)) in
      (key, ground (arith, other, e))
]
contains_prefix-some (o ∷ r) prefix (suc n) h = elim (Bool-cases (starts prefix o.keyword)) [
  | inl matches ↦
      let (key, e) = contains_prefix-some r prefix n (ground (arith, matches, h)) in
      (key, ground (arith, matches, e))
  | inr other ↦
      let (key, e) = contains_prefix-some r prefix (suc n) (ground (arith, other, h)) in
      (key, ground (arith, other, e))
]

-- How often the table's names begin a keyword.
unfoldable pub version_options : List Bytes → List MountOption → ℕ
version_options [] r = 0
version_options (name ∷ table) r = occurrences name r + version_options table r

module _ (o : MountOptions) where
  pub find_version-absent :
      (name : Bytes) (table : List Bytes) (i : ℕ) (found : Option (ℕ × Bytes))
      → occurrences name o.items ≡ 0
      → find_version o (name ∷ table) i found ≡ find_version o table (i + 1) found
  unfolding find_version po_contains_prefix
  find_version-absent name table i found h =
      rw (contains_prefix-none o.items name 0 (omega (arith, h)), find_version, po_contains_prefix)
        refl

  find_version-again :
      (name : Bytes) (table : List Bytes) (i : ℕ) (f : ℕ × Bytes)
      → 0 < occurrences name o.items
      → find_version o (name ∷ table) i (some f) ≡ multiple
  unfolding find_version po_contains_prefix
  find_version-again name table i f h =
      let (key, e) = contains_prefix-some o.items name 0 h in
      rw (e, find_version, po_contains_prefix) refl

  find_version-twice :
      (name : Bytes) (table : List Bytes) (i : ℕ)
      → 1 < occurrences name o.items
      → find_version o (name ∷ table) i none ≡ multiple
  unfolding find_version po_contains_prefix
  find_version-twice name table i h =
      let (key, e) = contains_prefix-some o.items name 0 (omega (arith, h)) in
      let (key', e') = contains_prefix-some o.items name 1 h in
      rw (e, e', find_version, po_contains_prefix) refl

  pub find_version-once :
      (name : Bytes) (table : List Bytes) (i : ℕ) (key : Bytes)
      → occurrences name o.items ≡ 1
      → po_contains_prefix o name 0 ≡ some key
      → find_version o (name ∷ table) i none ≡ find_version o table (i + 1) (some (i, key))
  unfolding find_version po_contains_prefix
  find_version-once name table i key h e =
      rw
        (
          e,
          contains_prefix-none o.items name 1 (omega (arith, h)),
          find_version,
          po_contains_prefix,
        )
        refl

  pub find_version-zero :
      (table : List Bytes) (i : ℕ) (found : Option (ℕ × Bytes))
      → version_options table o.items ≡ 0
      → find_version o table i found ≡ unique found
  unfolding version_options
  find_version-zero [] i found h = unfold find_version in refl
  find_version-zero (name ∷ table) i found h =
      find_version-absent name table i found (omega (arith, h))
      ∙ find_version-zero table (i + 1) found (omega (arith, h))

  find_version-more :
      (table : List Bytes) (i : ℕ) (f : ℕ × Bytes)
      → 0 < version_options table o.items
      → find_version o table i (some f) ≡ multiple
  unfolding version_options
  find_version-more [] i f h = absurd (omega (arith, h))
  find_version-more (name ∷ table) i f h = elim (dec_lt 0 (occurrences name o.items)) [
    | yes there ↦ find_version-again name table i f there
    | no absent ↦
        find_version-absent name table i (some f) (omega (arith, absent))
        ∙ find_version-more table (i + 1) f (omega (arith, h, absent))
  ]

  find_version-many :
      (table : List Bytes) (i : ℕ)
      → 1 < version_options table o.items
      → find_version o table i none ≡ multiple
  unfolding version_options po_contains_prefix
  find_version-many [] i h = absurd (omega (arith, h))
  find_version-many (name ∷ table) i h = elim (dec_lt 1 (occurrences name o.items)) [
    | yes twice ↦ find_version-twice name table i twice
    | no fewer ↦ elim (dec_lt 0 (occurrences name o.items)) [
      | yes once ↦
          let (key, e) = contains_prefix-some o.items name 0 (omega (arith, once)) in
          find_version-once name table i key (omega (arith, fewer, once)) e
          ∙ find_version-more table (i + 1) (i, key) (omega (arith, h, fewer, once))
      | no absent ↦
          find_version-absent name table i none (omega (arith, absent))
          ∙ find_version-many table (i + 1) (omega (arith, h, absent))
    ]
  ]

-- If more than one of the options begins with a name of the version table, nfs_nfs_version returns
-- 0 and leaves only the mode changed, to V_PARSE_ERR. (An option counts once for each name that it
-- begins with.)
pub nfs_nfs_version_multiple :
    (type : Bytes) (o : MountOptions) (v : NfsVersion)
    → 1 < version_options nfs_version_opttbl o.items
    → nfs_nfs_version type o v ≡ (false, record v { v_mode = v_parse_err })
unfolding nfs_nfs_version
nfs_nfs_version_multiple type o v many =
    rw (find_version-many o nfs_version_opttbl 0 many, nfs_nfs_version) refl

-- With none, it returns 1 with the default mode, unless the file system type is nfs4.
nfs_nfs_version_absent :
    (type : Bytes) (o : MountOptions) (v : NfsVersion)
    → version_options nfs_version_opttbl o.items ≡ 0
    → str_eq type (codes "nfs4") ≡ false
    → nfs_nfs_version type o v ≡ (true, record v { v_mode = v_default })
unfolding nfs_nfs_version
nfs_nfs_version_absent type o v zero_there other =
    rw (find_version-zero o nfs_version_opttbl 0 none zero_there, other, nfs_nfs_version) refl

-- ===== src/Exports/Options.antt =====
-- The option list of an export: parseopts and its callers in support/nfs/exports.c, and
-- reexpdb_apply_reexport_settings of support/reexport/reexport.c.
-- The messages are left out. `secinfo_flags` is what get_export_features reports, and
-- `fsidnum_by_path` is the reexport data base: the number of a path, made if the test says so.
pub mod Bounds
pub mod Refusals
use nfs_utils.Common.{
  ℕ, suc, ◌%◌, ◌^◌, Bool, true, false, not, ◌&&◌, ◌||◌, Option, none, some, List, [], ◌∷◌, leb,
  ◌==◌, if◌then◌else◌, Bytes, codes, length, str_eq, is_blank, is_digit, ℤ, strtol, strtoul_any,
  to_int,
}
use nfs_utils.Exports.{
  Flag, bit, Flags, set_mask, only, readonly, insecure_port, rootsquash, allsquash, async,
  gathered_writes, noreaddirplus, security_label, nohide, nosubtreecheck, noauthnlm, fsid,
  crossmount, noacl, pnfs, Exportent, fsloc_refer, fsloc_replica, Reexport, reexp_none,
  auto_fsidnum, predefined_fsidnum, init_exportent,
}
use nfs_utils.Exports.Secinfo.{
  setflags, clearflags, fix_pseudoflavor_flags, parse_flavors, parse_xprtsec, active, unparsed,
}
use nfs_utils.Exports.Squash.{parsesquash, squashed}

-- The words that set or clear one flag, in the order of the tests
pub record FlagWord : Type 0 where
  pub word : Bytes
  pub sets : Bool
  pub flag : Flag

abbrev flag_word : Bytes → Bool → Flag → FlagWord
flag_word word sets flag = record { word = word; sets = sets; flag = flag }

abbrev pub flag_words : List FlagWord
flag_words =
    flag_word (codes "ro") true readonly
    ∷ flag_word (codes "rw") false readonly
    ∷ flag_word (codes "secure") false insecure_port
    ∷ flag_word (codes "insecure") true insecure_port
    ∷ flag_word (codes "sync") false async
    ∷ flag_word (codes "async") true async
    ∷ flag_word (codes "nordirplus") true noreaddirplus
    ∷ flag_word (codes "security_label") true security_label
    ∷ flag_word (codes "nohide") true nohide
    ∷ flag_word (codes "hide") false nohide
    ∷ flag_word (codes "crossmnt") true crossmount
    ∷ flag_word (codes "nocrossmnt") false crossmount
    ∷ flag_word (codes "wdelay") true gathered_writes
    ∷ flag_word (codes "no_wdelay") false gathered_writes
    ∷ flag_word (codes "root_squash") true rootsquash
    ∷ flag_word (codes "no_root_squash") false rootsquash
    ∷ flag_word (codes "all_squash") true allsquash
    ∷ flag_word (codes "no_all_squash") false allsquash
    ∷ flag_word (codes "subtree_check") false nosubtreecheck
    ∷ flag_word (codes "no_subtree_check") true nosubtreecheck
    ∷ flag_word (codes "auth_nlm") false noauthnlm
    ∷ flag_word (codes "no_auth_nlm") true noauthnlm
    ∷ flag_word (codes "secure_locks") false noauthnlm
    ∷ flag_word (codes "insecure_locks") true noauthnlm
    ∷ flag_word (codes "acl") false noacl
    ∷ flag_word (codes "no_acl") true noacl
    ∷ flag_word (codes "pnfs") true pnfs
    ∷ flag_word (codes "no_pnfs") false pnfs
    ∷ []

pub data Keyword : Type 0 where
  flag_keyword : FlagWord → Keyword
  anonuid anongid squash_uids squash_gids fsid_is mountpoint refer replicas : Bytes → Keyword
  sec xprtsec reexport : Bytes → Keyword
  unknown : Keyword

-- The text behind a prefix
unfoldable pub behind : Bytes → Bytes → Option Bytes
behind [] s = some s
behind (x ∷ p) [] = none
behind (x ∷ p) (y ∷ s) = if x == y then behind p s else none

unfoldable pub find_prefix : List (Bytes × (Bytes → Keyword)) → Bytes → Keyword
find_prefix [] opt = unknown
find_prefix ((prefix, make) ∷ l) opt = elim (behind prefix opt) [
  | none ↦ find_prefix l opt
  | some value ↦ make value
]

abbrev pub value_words : List (Bytes × (Bytes → Keyword))
value_words =
    (codes "anonuid=", anonuid)
    ∷ (codes "anongid=", anongid)
    ∷ (codes "squash_uids=", squash_uids)
    ∷ (codes "squash_gids=", squash_gids)
    ∷ (codes "fsid=", fsid_is)
    ∷ (codes "mountpoint=", mountpoint)
    ∷ (codes "mp=", mountpoint)
    ∷ (codes "refer=", refer)
    ∷ (codes "replicas=", replicas)
    ∷ (codes "sec=", sec)
    ∷ (codes "xprtsec=", xprtsec)
    ∷ (codes "reexport=", reexport)
    ∷ []

unfoldable pub find_word : Bytes → List FlagWord → Option FlagWord
find_word opt [] = none
find_word opt (w ∷ l) = elim (str_eq opt w.word) [ true ↦ some w | false ↦ find_word opt l ]

-- The chain of tests. A bare mountpoint or mp is one with an empty value.
unfoldable pub keyword : Bytes → Keyword
keyword opt = elim (find_word opt flag_words) [
  | some w ↦ flag_keyword w
  | none ↦
      if str_eq opt (codes "mountpoint") || str_eq opt (codes "mp")
      then mountpoint []
      else find_prefix value_words opt
]

-- isxdigit
abbrev is_hex : ℕ → Bool
is_hex c = is_digit c || leb b'a' c && leb c b'f' || leb b'A' c && leb c b'F'

unfoldable pub count_hex : Bytes → ℕ
count_hex [] = 0
count_hex (c ∷ s) = if is_hex c then suc (count_hex s) else count_hex s

unfoldable pub valid_uuid : Bytes → Bool
unfolding count_hex
valid_uuid uuid = count_hex uuid == 32

-- The check of a number against the one that the data base has for the path
abbrev agree_fsid : ℕ → Exportent → Option Exportent
agree_fsid fsidnum ep =
    if ep.e_fsid == 0
    then some (record ep { e_fsid = fsidnum })
    else if ep.e_fsid == fsidnum
    then some ep
    else none

unfoldable pub absent_fsidnum : (Bytes → Bool → Option ℕ) → Reexport → Exportent → Option Exportent
absent_fsidnum fsidnum_by_path auto_fsidnum ep = elim (fsidnum_by_path ep.e_path true) [
  | none ↦ none
  | some n ↦ agree_fsid n ep
]
absent_fsidnum fsidnum_by_path _ ep = if ep.e_fsid == 0 then none else some ep

abbrev is_none : Reexport → Bool
is_none reexp_none = true
is_none _ = false

abbrev is_set : Option Bytes → Bool
is_set none = false
is_set (some _) = true

-- `none` is -1.
unfoldable pub reexpdb_apply_reexport_settings :
    (Bytes → Bool → Option ℕ) → Exportent → Option Exportent
unfolding absent_fsidnum
reexpdb_apply_reexport_settings fsidnum_by_path ep =
    if is_none ep.e_reexport || is_set ep.e_uuid || ep.e_flags fsid && ep.e_fsid == 0
    then some ep
    else elim (fsidnum_by_path ep.e_path false) [
      | none ↦ absent_fsidnum fsidnum_by_path ep.e_reexport ep
      | some n ↦ agree_fsid n ep
    ]

-- The local variables of parseopts, and the two static lists of ids
pub record Options : Type 0 where
  pub ep : Exportent
  pub squids : List ℤ
  pub sqgids : List ℤ
  pub act : List ℕ
  pub had_subtree_opt : Bool
  pub saw_reexport : Bool

-- An option is accepted, or refused with what it has changed by then.
pub data Outcome : Type 0 where
  accepted refused : Options → Outcome

abbrev pub with_ep : Options → Exportent → Options
with_ep o ep = record o { ep = ep }

abbrev pub set_flag : Flag → Options → Options
set_flag f o = with_ep o (setflags (only f) o.act o.ep)

unfoldable pub apply_flag_word : FlagWord → Options → Options
unfolding setflags clearflags
apply_flag_word w o = record o {
  ep = if w.sets then setflags (only w.flag) o.act o.ep else clearflags (only w.flag) o.act o.ep;
  had_subtree_opt = bit w.flag == bit nosubtreecheck || o.had_subtree_opt;
}

-- A number that is stored before the text is looked at
unfoldable pub number_option : Bytes → Options → Outcome
number_option value o =
    if length value == 0 || not (length (strtol value).rest == 0) then refused o else accepted o

unfoldable pub fsid_option : Bytes → Options → Outcome
unfolding valid_uuid strtoul_any
fsid_option value o =
    let n = strtoul_any value in
    let stored = with_ep o (record o.ep { e_fsid = n.value % 2 ^ 32 }) in
    if o.saw_reexport
    then refused o
    else if str_eq value (codes "root")
    then accepted (set_flag fsid (with_ep o (record o.ep { e_fsid = 0 })))
    else if not (length value == 0) && length n.rest == 0
    then accepted (set_flag fsid stored)
    else if valid_uuid value
    then accepted (with_ep stored (record stored.ep { e_uuid = some value }))
    else refused stored

unfoldable pub find_method : Bytes → Option Reexport
find_method value =
    if str_eq value (codes "auto-fsidnum")
    then some auto_fsidnum
    else if str_eq value (codes "predefined-fsidnum")
    then some predefined_fsidnum
    else if str_eq value (codes "none")
    then some reexp_none
    else none

abbrev finish_reexport : Options → Exportent → Options
finish_reexport o ep =
    let stored = with_ep o ep in
    record (if ep.e_fsid == 0 then stored else set_flag fsid stored) { saw_reexport = true }

unfoldable pub reexport_option : (Bytes → Bool → Option ℕ) → Bytes → Options → Outcome
unfolding find_method reexpdb_apply_reexport_settings
reexport_option fsidnum_by_path value o =
    if o.saw_reexport then refused o else elim (find_method value) [
      | none ↦ refused o
      | some method ↦
          let stored = with_ep o (record o.ep { e_reexport = method }) in
          elim (reexpdb_apply_reexport_settings fsidnum_by_path stored.ep) [
            | none ↦ refused stored
            | some ep ↦ accepted (finish_reexport stored ep)
          ]
    ]

-- One round of the loop
unfoldable pub apply_keyword : (Bytes → Bool → Option ℕ) → Keyword → Options → Outcome
unfolding apply_flag_word number_option fsid_option reexport_option strtol
apply_keyword db (flag_keyword w) o = accepted (apply_flag_word w o)
apply_keyword db (anonuid v) o =
    number_option v (with_ep o (record o.ep { e_anonuid = to_int (strtol v).value }))
apply_keyword db (anongid v) o =
    number_option v (with_ep o (record o.ep { e_anongid = to_int (strtol v).value }))
apply_keyword db (squash_uids v) o = elim (parsesquash v o.squids) [
  | squashed ids ↦ accepted (record o { squids = ids })
  | _ ↦ refused o
]
apply_keyword db (squash_gids v) o = elim (parsesquash v o.sqgids) [
  | squashed ids ↦ accepted (record o { sqgids = ids })
  | _ ↦ refused o
]
apply_keyword db (fsid_is v) o = fsid_option v o
apply_keyword db (mountpoint v) o = accepted (with_ep o (record o.ep { e_mountpoint = some v }))
apply_keyword db (refer v) o =
    accepted (with_ep o (record o.ep { e_fslocmethod = fsloc_refer; e_fslocdata = some v }))
apply_keyword db (replicas v) o =
    accepted (with_ep o (record o.ep { e_fslocmethod = fsloc_replica; e_fslocdata = some v }))
apply_keyword db (sec v) o = elim (parse_flavors v o.ep) [
  | active act ep ↦ accepted (record o { ep = ep; act = act })
  | unparsed ep ↦ refused (record o { ep = ep; act = [] })
]
apply_keyword db (xprtsec v) o = elim (parse_xprtsec v o.ep) [
  | active _ ep ↦ accepted (with_ep o ep)
  | unparsed ep ↦ refused (with_ep o ep)
]
apply_keyword db (reexport v) o = reexport_option db v o
apply_keyword db unknown o =
    refused (with_ep o (setflags (set_mask (only allsquash) (only readonly)) o.act o.ep))

-- The options that the loop cuts out of the text: `start` is the state behind a comma or at the
-- front, where blanks are skipped, and where the end of the text ends the loop.
unfoldable pub cut_options : Bool → Bytes → List Bytes
cut_options true [] = []
cut_options false [] = [] ∷ []
cut_options start (c ∷ s) = elim (start && is_blank c) [
  | true ↦ cut_options true s
  | false ↦ elim (c == b',') [
    | true ↦ [] ∷ cut_options true s
    | false ↦ elim (cut_options false s) [ [] ↦ (c ∷ []) ∷ [] | w ∷ l ↦ (c ∷ w) ∷ l ]
  ]
]

unfoldable pub apply_options : (Bytes → Bool → Option ℕ) → List Bytes → Options → Outcome
apply_options db [] o = accepted o
apply_options db (opt ∷ l) o = elim (apply_keyword db (keyword opt) o) [
  | accepted o' ↦ apply_options db l o'
  | refused o' ↦ refused o'
]

unfoldable pub start_options : Exportent → Options
start_options ep = record {
  ep = ep;
  squids = ep.e_squids;
  sqgids = ep.e_sqgids;
  act = [];
  had_subtree_opt = false;
  saw_reexport = false;
}

abbrev pub store_squash : Options → Exportent → Exportent
store_squash o ep = record ep { e_squids = o.squids; e_sqgids = o.sqgids }

-- 1 with the record and *had_subtree_opt_ptr, or -1 with the record as it is by then.
pub data Parseopts : Type 0 where
  parsed : Exportent → Bool → Parseopts
  bad_option : Exportent → Parseopts

-- A NULL text changes nothing.
unfoldable pub parseopts : Flags → (Bytes → Bool → Option ℕ) → Option Bytes → Exportent → Parseopts
unfolding apply_options start_options cut_options
parseopts secinfo_flags db none ep = parsed ep false
parseopts secinfo_flags db (some cp) ep =
    elim (apply_options db (cut_options true cp) (start_options ep)) [
      | accepted o ↦
          parsed (store_squash o (fix_pseudoflavor_flags secinfo_flags o.ep)) o.had_subtree_opt
      | refused o ↦ bad_option o.ep
    ]

-- sizeof(e_path), with NFS_MAXPATHLEN 1024
abbrev pub path_size : ℕ
path_size = 1025

-- `none` is NULL.
unfoldable pub mkexportent :
    Flags → (Bytes → Bool → Option ℕ) → Exportent → Bytes → Bytes → Option Bytes → Option Exportent
unfolding init_exportent parseopts
mkexportent secinfo_flags db ee hname path options =
    if leb path_size (length path)
    then none
    else elim (parseopts secinfo_flags db options
        (record (init_exportent ee false) { e_hostname = some hname; e_path = path })) [
          | parsed ep _ ↦ some ep
          | bad_option _ ↦ none
        ]

-- The record is changed in place.
unfoldable pub updateexportent :
    Flags → (Bytes → Bool → Option ℕ) → Exportent → Option Bytes → Bool × Exportent
unfolding parseopts
updateexportent secinfo_flags db eep options = elim (parseopts secinfo_flags db options eep) [
  | parsed ep _ ↦ (true, ep)
  | bad_option ep ↦ (false, ep)
]

-- ===== src/Nfs/Conf/Load.antt =====
-- support/nfs/conffile.c: reading the configuration file and the files of the directory beside it.
-- The file system is a parameter: conf_readfile, and scandir, which gives the entries of a directory
-- in order and none if it cannot be read.
pub mod File
pub mod Entries
use nfs_utils.Common.{
  ℕ, ◌+◌, ◌-◌, Bool, true, false, not, ◌||◌, Option, none, some, List, [], ◌∷◌, ◌++◌, ◌==◌, leb,
  ltb, if◌then◌else◌, Bytes, codes, peek, length, take, drop, str_eq,
}
use nfs_utils.Nfs.Conf.{Bindings, Conf, conf_begin, conf_end}
use nfs_utils.Nfs.Conf.Parse.{Sections, conf_parse}

-- struct dirent: its name, and whether d_type is DT_UNKNOWN, DT_REG or DT_LNK
pub record Dirent : Type 0 where
  pub may_be_file : Bool
  pub d_name : Bytes

-- What the program asks of its surroundings, and the bounds of the model: `jumps` of
-- conf_get_section, and `depth` of files that include files.
pub record World : Type 0 where
  pub conf_readfile : Bytes → Option Bytes
  pub scandir : Bytes → List Dirent
  pub getenv : Bytes → Option Bytes
  pub jumps : ℕ
  pub depth : ℕ

abbrev pub no_sections : Sections
no_sections = record { section = none; subsection = none }

abbrev pub no_bindings : Bindings
no_bindings n = []

-- conf_free_bindings
unfoldable pub conf_free_bindings : Conf → Conf
conf_free_bindings c = record c { bindings = no_bindings }

unfoldable pub conf_cleanup : Conf → Conf
unfolding conf_free_bindings
conf_cleanup c = record (conf_free_bindings c) { queue = [] }

-- With the value returned: 0 if the file is parsed into the transaction's queue, else 1.
unfoldable pub conf_load_files : World → ℕ → Bytes → Conf → Option (Conf × ℕ)
unfolding conf_parse
conf_load_files w trans conf_file c = elim (w.conf_readfile conf_file) [
  | none ↦ some (c, 1)
  | some conf_data ↦
      elim (conf_parse w.conf_readfile trans w.depth conf_file conf_data no_sections c) [
        | none ↦ none
        | some (c', _) ↦ some (c', 0)
      ]
]

-- conf_load_file from its call of conf_free_bindings on
unfoldable pub apply_file : World → ℕ → Conf → Option (Conf × ℕ)
unfolding conf_end conf_free_bindings
apply_file w trans c = elim (conf_end w.getenv w.jumps (conf_free_bindings c) trans true) [
  | none ↦ none
  | some c' ↦ some (c', 0)
]

unfoldable pub conf_load_file : World → Bytes → Conf → Option (Conf × ℕ)
unfolding conf_begin conf_parse apply_file
conf_load_file w conf_file c =
    let (trans, c1) = conf_begin c in
    elim (w.conf_readfile conf_file) [
      | none ↦ some (c1, 1)
      | some conf_data ↦
          elim (conf_parse w.conf_readfile trans w.depth conf_file conf_data no_sections c1) [
            | none ↦ none
            | some (c2, _) ↦ apply_file w trans c2
          ]
    ]

-- PATH_MAX and CONF_FILE_EXT
abbrev pub path_max : ℕ
path_max = 4096

abbrev pub conf_file_ext : Bytes
conf_file_ext = codes ".conf"

-- The tests of conf_init_dir on an entry
unfoldable pub is_conf_file : Bytes → Dirent → Bool
unfolding str_eq
is_conf_file dname d =
    let fname_len = length d.d_name in
    if not d.may_be_file || peek d.d_name == b'.'
    then false
    else if fname_len == 0 || ltb path_max (fname_len + length dname)
    then false
    else if leb fname_len (length conf_file_ext)
    then false
    else str_eq (drop (fname_len - length conf_file_ext) d.d_name) conf_file_ext

-- The loop over the entries, with nfiles
unfoldable pub load_dir : World → ℕ → Bytes → List Dirent → ℕ → Conf → Option (Conf × ℕ)
unfolding is_conf_file conf_load_files
load_dir w trans dname [] nfiles c = some (c, nfiles)
load_dir w trans dname (d ∷ l) nfiles c =
    let loaded =
      if is_conf_file dname d
      then conf_load_files w trans (take (path_max - 1) (dname ++ b'/' ∷ d.d_name)) c
      else some (c, 1) in
    elim loaded [
      | none ↦ none
      | some (c', rv) ↦ load_dir w trans dname l (if rv == 0 then nfiles + 1 else nfiles) c'
    ]

unfoldable pub apply_dir : World → ℕ → ℕ → Conf → Option Conf
unfolding conf_end
apply_dir w trans nfiles c = if nfiles == 0 then some c else conf_end w.getenv w.jumps c trans true

abbrev pub init_entries : World → Bytes → List Dirent → Conf → Option Conf
init_entries w dname [] c = some c
init_entries w dname (d ∷ l) c =
    let (trans, c1) = conf_begin c in
    elim (load_dir w trans dname (d ∷ l) 0 c1) [
      | none ↦ none
      | some (c2, nfiles) ↦ apply_dir w trans nfiles c2
    ]

unfoldable pub conf_init_dir : World → Bytes → Conf → Option Conf
unfolding load_dir apply_dir conf_begin
conf_init_dir w conf_file c =
    let dname = conf_file ++ codes ".d" in init_entries w dname (w.scandir dname) c

-- With the value that conf_load_file returned
unfoldable pub conf_init_file : World → Bytes → Conf → Option (Conf × ℕ)
unfolding conf_load_file conf_init_dir
conf_init_file w conf_file c =
    elim (conf_load_file w conf_file (record c { bindings = no_bindings; queue = [] })) [
      | none ↦ none
      | some (c1, ret) ↦ elim (conf_init_dir w conf_file c1) [
        | none ↦ none
        | some c2 ↦ some (c2, ret)
      ]
    ]

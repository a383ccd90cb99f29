-- ===== src/Mount/Devname.antt =====
-- utils/mount/parse_dev.c: the server's name and the export's path in a device name.
-- The copy that the code cuts up is the text itself, the copies that it returns are the texts they
-- hold, and memory is there. A caller that passes a NULL handle only gets no copy.
pub mod Parts
use nfs_utils.Common.{
  ℕ, Option, none, some, [], ◌∷◌, ltb, ◌==◌, not, if◌then◌else◌, Bytes, codes, length, cut, starts,
}

pub data DevError : Type 0 where
  no_devname hostname_too_long pathname_too_long bad_format missing_brace nfs_url : DevError

-- 1 with the host name and the path name, or 0 after the error message.
pub data DevResult : Type 0 where
  parsed : Bytes → Bytes → DevResult
  failed : DevError → DevResult

-- NFS_MAXHOSTNAME, NFS_MAXPATHNAME
abbrev pub nfs_maxhostname : ℕ
nfs_maxhostname = 255

abbrev pub nfs_maxpathname : ℕ
nfs_maxpathname = 1024

-- The checks of the path and the copies.
abbrev pub copy_out : Bytes → Bytes → DevResult
copy_out host path =
    if ltb nfs_maxpathname (length path) then failed pathname_too_long else parsed host path

-- From the checks of the host's length on. With a comma the pointer `colon` stays on the NUL that
-- was put there, so the path is empty.
unfoldable pub take_first : Bytes → Bytes → DevResult
take_first host after = elim (cut b',' host) [
  | none ↦ copy_out host after
  | some (first, _) ↦ copy_out first []
]

unfoldable pub nfs_parse_simple_hostname : Bytes → DevResult
unfolding take_first
nfs_parse_simple_hostname dev = elim (cut b':' dev) [
  | none ↦ failed bad_format
  | some (host, after) ↦
      if ltb nfs_maxhostname (length host) then failed hostname_too_long else take_first host after
]

-- what follows the closing bracket
unfoldable pub after_brace : Bytes → Bytes → DevResult
after_brace host [] = failed bad_format
after_brace host (c ∷ path) =
    if not (c == b':')
    then failed bad_format
    else if ltb nfs_maxhostname (length host)
    then failed hostname_too_long
    else copy_out host path

-- on the text behind the opening bracket
unfoldable pub nfs_parse_square_bracket : Bytes → DevResult
unfolding after_brace
nfs_parse_square_bracket dev = elim (cut b']' dev) [
  | none ↦ failed missing_brace
  | some (host, rest) ↦ after_brace host rest
]

unfoldable pub parse_other : Bytes → DevResult
parse_other dev =
    if starts (codes "nfs://") dev then failed nfs_url else nfs_parse_simple_hostname dev

unfoldable pub nfs_parse_devname : Option Bytes → DevResult
unfolding parse_other
nfs_parse_devname none = failed no_devname
nfs_parse_devname (some []) = parse_other []
nfs_parse_devname (some (c ∷ s)) =
    if c == b'[' then nfs_parse_square_bracket s else parse_other (c ∷ s)

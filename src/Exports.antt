-- ===== src/Exports.antt =====
-- support/nfs/exports.c, support/nfs/xio.c, support/export/client.c: the export table.
-- The record of an export (struct exportent of support/include/nfslib.h), its flags
-- (support/include/nfs/export.h) and its security flavors.
-- A word of flags is a test on the flags. An array that a NULL entry ends is a list, and a bitmap
-- of places in it is the list of those places.
pub mod Xio
pub mod Secinfo
pub mod Squash
pub mod Options
pub mod Print
pub mod Entries
pub mod Table
mod Tests
use nfs_utils.Common.{
  ℕ, Bool, true, false, not, ◌&&◌, ◌||◌, Option, none, List, [], ◌∷◌, ◌==◌, if◌then◌else◌, Bytes,
  codes, ℤ, pos,
}

-- NFSEXP_READONLY and so on
pub data Flag : Type 0 where
  readonly insecure_port rootsquash allsquash async gathered_writes noreaddirplus : Flag
  security_label nohide nosubtreecheck noauthnlm fsid crossmount noacl v4root pnfs : Flag

-- the bit of the flag
abbrev pub bit : Flag → ℕ
bit readonly = 0x1
bit insecure_port = 0x2
bit rootsquash = 0x4
bit allsquash = 0x8
bit async = 0x10
bit gathered_writes = 0x20
bit noreaddirplus = 0x40
bit security_label = 0x80
bit nohide = 0x200
bit nosubtreecheck = 0x400
bit noauthnlm = 0x800
bit fsid = 0x2000
bit crossmount = 0x4000
bit noacl = 0x8000
bit v4root = 0x10000
bit pnfs = 0x20000

abbrev pub Flags : Type 0
Flags = Flag → Bool

-- The mask of one flag
abbrev pub only : Flag → Flags
only f g = bit f == bit g

-- flags |= mask, flags &= ~mask
unfoldable pub set_mask : Flags → Flags → Flags
set_mask mask flags g = mask g || flags g

unfoldable pub clear_mask : Flags → Flags → Flags
clear_mask mask flags g = not (mask g) && flags g

-- EXPORT_DEFAULT_FLAGS
unfoldable pub export_default_flags : Flags
export_default_flags readonly = true
export_default_flags rootsquash = true
export_default_flags gathered_writes = true
export_default_flags nosubtreecheck = true
export_default_flags _ = false

pub record FlavInfo : Type 0 where
  pub flavour : Bytes
  pub fnum : ℕ
  pub need_krb5 : Bool

abbrev pub flav_info : Bytes → ℕ → Bool → FlavInfo
flav_info name number krb5 = record { flavour = name; fnum = number; need_krb5 = krb5 }

abbrev pub flav_map : List FlavInfo
flav_map =
    flav_info (codes "krb5") 390003 true
    ∷ flav_info (codes "krb5i") 390004 true
    ∷ flav_info (codes "krb5p") 390005 true
    ∷ flav_info (codes "unix") 1 false
    ∷ flav_info (codes "sys") 1 false
    ∷ flav_info (codes "null") 0 false
    ∷ flav_info (codes "none") 0 false
    ∷ []

-- struct sec_entry
pub record SecEntry : Type 0 where
  pub flav : FlavInfo
  pub flags : Flags

pub record XprtsecInfo : Type 0 where
  pub name : Bytes
  pub number : ℕ

pub record XprtsecEntry : Type 0 where
  pub info : XprtsecInfo
  pub flags : Flags

-- FSLOC_NONE and so on; FSLOC_STUB is of the DEBUG build.
pub data FslocMethod : Type 0 where
  fsloc_none fsloc_refer fsloc_replica : FslocMethod

-- REEXP_NONE and so on
pub data Reexport : Type 0 where
  reexp_none auto_fsidnum predefined_fsidnum : Reexport

-- struct exportent. A pointer to a text is `none` for NULL; a list of ids, two for each range, has
-- its length beside it in the source. e_realpath and e_fsid_value are not used here.
pub record Exportent : Type 0 where
  pub e_hostname : Option Bytes
  pub e_path : Bytes
  pub e_flags : Flags
  pub e_anonuid : ℤ
  pub e_anongid : ℤ
  pub e_squids : List ℤ
  pub e_sqgids : List ℤ
  pub e_fsid : ℕ
  pub e_mountpoint : Option Bytes
  pub e_fslocmethod : FslocMethod
  pub e_fslocdata : Option Bytes
  pub e_uuid : Option Bytes
  pub e_secinfo : List SecEntry
  pub e_xprtsec : List XprtsecEntry
  pub e_ttl : ℕ
  pub e_reexport : Reexport

abbrev pub default_ttl : ℕ
default_ttl = 1800

-- The flags of an entry from the kernel start with `async` and `wdelay` off.
unfoldable pub initial_flags : Bool → Flags
unfolding export_default_flags clear_mask
initial_flags fromkernel =
    if fromkernel
    then clear_mask (only gathered_writes) (clear_mask (only async) export_default_flags)
    else export_default_flags

-- The fields that init_exportent leaves (the host, the path and the fsid of the static record) are
-- those of `ee`.
unfoldable pub init_exportent : Exportent → Bool → Exportent
unfolding initial_flags
init_exportent ee fromkernel = record ee {
  e_flags = initial_flags fromkernel;
  e_anonuid = pos 65534;
  e_anongid = pos 65534;
  e_squids = [];
  e_sqgids = [];
  e_mountpoint = none;
  e_fslocmethod = fsloc_none;
  e_fslocdata = none;
  e_uuid = none;
  e_secinfo = [];
  e_xprtsec = [];
  e_ttl = default_ttl;
  e_reexport = reexp_none;
}

-- A static record, all zero
abbrev pub static_exportent : Exportent
static_exportent = record {
  e_hostname = none;
  e_path = [];
  e_flags = λ _. false;
  e_anonuid = pos 0;
  e_anongid = pos 0;
  e_squids = [];
  e_sqgids = [];
  e_fsid = 0;
  e_mountpoint = none;
  e_fslocmethod = fsloc_none;
  e_fslocdata = none;
  e_uuid = none;
  e_secinfo = [];
  e_xprtsec = [];
  e_ttl = 0;
  e_reexport = reexp_none;
}

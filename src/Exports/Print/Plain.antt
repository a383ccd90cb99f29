-- ===== src/Exports/Print/Plain.antt =====
-- Exports of the plain kind, and the words that putexportent of support/nfs/exports.c writes for them.
use nfs_utils.Common.{
  ℕ, ◌<◌, ◌≤◌, ◌≡◌, ◌^◌, false, Option, none, some, List, [], ◌∷◌, ◌++◌, Bytes, codes, All, length,
  ℤ, Lacks,
}
use nfs_utils.Exports.{
  Flags, v4root, fsid, FlavInfo, Exportent, FslocMethod, fsloc_none, fsloc_refer, fsloc_replica,
  reexp_none, default_ttl,
}
use nfs_utils.Exports.Print.{
  flag_texts, flag_tail, mountpoint_texts, anon_texts, secinfo_flags_show,
}
use nfs_utils.Exports.Print.Numbers.{IsInt}
use nfs_utils.Exports.Print.Flavors.{ArePrintable, IsKnown, IsDistinct, entries, colon_names}
use nfs_utils.Exports.Print.Fsid.{fsid_words, HasFsid}

pub data Locations : Type 0 where
  nowhere : Locations
  referred replicated : Bytes → Locations

abbrev pub method_of : Locations → FslocMethod
method_of nowhere = fsloc_none
method_of (referred d) = fsloc_refer
method_of (replicated d) = fsloc_replica

abbrev pub data_of : Locations → Option Bytes
data_of nowhere = none
data_of (referred d) = some d
data_of (replicated d) = some d

-- What an export of the plain kind is made from: no lists of ids, no transport security modes, no
-- reexport method, and flavors that have the flags of the export.
pub record PlainExport : Type 0 where
  pub host : Bytes
  pub path : Bytes
  pub flags : Flags
  pub uid : ℤ
  pub gid : ℤ
  pub number : ℕ
  pub uuid : Option Bytes
  pub mount : Option Bytes
  pub locations : Locations
  pub flavor : FlavInfo
  pub flavors : List FlavInfo

abbrev pub export : PlainExport → Exportent
export p = record {
  e_hostname = some p.host;
  e_path = p.path;
  e_flags = p.flags;
  e_anonuid = p.uid;
  e_anongid = p.gid;
  e_squids = [];
  e_sqgids = [];
  e_fsid = p.number;
  e_mountpoint = p.mount;
  e_fslocmethod = method_of p.locations;
  e_fslocdata = data_of p.locations;
  e_uuid = p.uuid;
  e_secinfo = entries p.flags (p.flavor ∷ p.flavors);
  e_xprtsec = [];
  e_ttl = default_ttl;
  e_reexport = reexp_none;
}

abbrev pub fsloc_texts : Locations → List Bytes
fsloc_texts nowhere = []
fsloc_texts (referred d) = (codes "refer=" ++ d) ∷ []
fsloc_texts (replicated d) = (codes "replicas=" ++ d) ∷ []

abbrev pub group_texts : Flags → Flags → FlavInfo → List FlavInfo → List Bytes
group_texts mask g f fl =
    (codes "sec=" ++ (f.flavour ++ colon_names fl)) ∷ secinfo_flags_show g mask

-- All words of a plain export
abbrev pub texts : Flags → PlainExport → List Bytes
texts mask p =
    flag_texts p.flags
    ++ (flag_tail p.flags
        ++ (fsid_words (p.flags fsid) p.number p.uuid
            ++ (mountpoint_texts p.mount
                ++ (fsloc_texts p.locations
                    ++ (anon_texts p.uid p.gid
                        ++ (group_texts mask p.flags p.flavor p.flavors ++ []))))))

-- What stands in front of the locations, and behind them
abbrev pub front : PlainExport → List Bytes
front p =
    flag_texts p.flags
    ++ (flag_tail p.flags
        ++ (fsid_words (p.flags fsid) p.number p.uuid ++ mountpoint_texts p.mount))

abbrev pub back : Flags → PlainExport → List Bytes
back mask p = anon_texts p.uid p.gid ++ (group_texts mask p.flags p.flavor p.flavors ++ [])

abbrev pub Prints : Option Bytes → Type 0
Prints none = Unit
Prints (some s) = ArePrintable s

abbrev pub NoComma : Option Bytes → Type 0
NoComma none = Unit
NoComma (some s) = Lacks b',' s

-- A plain export that is read back as it was
pub record IsPlain (p : PlainExport) : Type 0 where
  pub short_path : length p.path < 1025
  pub no_v4root : p.flags v4root ≡ false
  pub uid_fits : IsInt p.uid
  pub gid_fits : IsInt p.gid
  pub number_fits : p.number < 2 ^ 32
  pub uuid_prints : Prints p.uuid
  pub mount_prints : Prints p.mount
  pub locations_lack_comma : NoComma (data_of p.locations)
  pub identity : HasFsid (p.flags fsid) p.number p.uuid
  pub known : All IsKnown (p.flavor ∷ p.flavors)
  pub distinct : IsDistinct (p.flavor ∷ p.flavors)
  pub not_too_many : length (p.flavor ∷ p.flavors) ≤ 8

-- ===== src/Exports/Tests.antt =====
-- Concrete exports, and the theorems about support/nfs/exports.c at them.
use nfs_utils.Common.{
  ℕ, ◌≡◌, ◌≢◌, refl, Bool, true, false, Option, none, some, [], ◌∷◌, ◌++◌, arith, Bytes, codes, All,
  ℤ, pos, negsuc, str_eq,
}
use nfs_utils.Exports.{
  Flags, readonly, rootsquash, allsquash, async, fsid, nosubtreecheck, flav_info, Exportent,
  static_exportent,
}
use nfs_utils.Exports.Xio.{token}
use nfs_utils.Exports.Xio.Quoting.{at}
use nfs_utils.Exports.Squash.{squash_loop}
use nfs_utils.Exports.Squash.Ends.{squash_loop-ends}
use nfs_utils.Exports.Options.{
  parseopts, Parseopts, parsed, bad_option, keyword, unknown, cut_options, apply_keyword, find_word,
}
use nfs_utils.Exports.Options.Bounds.{ParseoptsFit, parseopts-Fits}
use nfs_utils.Exports.Options.Refusals.{parseopts-known, parseopts-digit}
use nfs_utils.Exports.Print.{fprintpath}
use nfs_utils.Exports.Print.Plain.{PlainExport, referred}
use nfs_utils.Exports.Entries.{getpath}
use nfs_utils.Exports.Entries.Paths.{getpath-fprintpath}

-- NFSEXP_OLD_SECINFO_FLAGS
abbrev old_secinfo_flags : Flags
old_secinfo_flags readonly = true
old_secinfo_flags rootsquash = true
old_secinfo_flags allsquash = true
old_secinfo_flags _ = false

abbrev no_numbers : Bytes → Bool → Option ℕ
no_numbers path may_create = none

abbrev no_memory : ℕ → ℤ
no_memory i = pos 0

abbrev sample_flags : Flags
sample_flags readonly = true
sample_flags async = true
sample_flags fsid = true
sample_flags nosubtreecheck = true
sample_flags _ = false

abbrev sample : PlainExport
sample = record {
  host = codes "*.example.org";
  path = codes "/srv/my data";
  flags = sample_flags;
  uid = pos 65534;
  gid = negsuc 1;
  number = 4294967295;
  uuid = none;
  mount = some (codes "/srv");
  locations = referred (codes "/a b@host1");
  flavor = flav_info (codes "krb5p") 390005 true;
  flavors = flav_info (codes "sys") 1 false ∷ [];
}

abbrev no_realpath : Bytes → Option Bytes
no_realpath path = none

-- A space and a hash sign are quoted.
abbrev sample_path : Bytes
sample_path = codes "/a b#c"

getpath-fprintpath_example :
    getpath (at (fprintpath sample_path ++ (b'\t' ∷ codes "*(ro)")) 7) 1025
    ≡ some (token sample_path, at (codes "*(ro)") 7)
getpath-fprintpath_example =
    getpath-fprintpath sample_path (codes "*(ro)") 7 1025 (λ e. cc e)
      (tt, (tt, (tt, (refl, (refl, (refl, tt)))))) (omega arith)

parseopts-Fits_example : ParseoptsFit (
    parseopts old_secinfo_flags no_numbers
      (some (codes "rw,sec=krb5:krb5i:sys,ro"))
      static_exportent)
parseopts-Fits_example =
    parseopts-Fits old_secinfo_flags no_numbers (some (codes "rw,sec=krb5:krb5i:sys,ro"))
      static_exportent (omega arith, omega arith)

parseopts-digit_example :
    (ep : Exportent) × (parseopts old_secinfo_flags no_numbers
        (some (codes "squash_uids=1-5,7,ro"))
        static_exportent
      ≡ bad_option ep)
parseopts-digit_example =
    parseopts-digit old_secinfo_flags no_numbers (codes "squash_uids=1-5") (codes ",ro") b'7'
      static_exportent (ground arith) refl

squash_loop-ends_example : squash_loop 9 (codes "1-5,7,9x") [] ≢ none
squash_loop-ends_example = squash_loop-ends 9 (codes "1-5,7,9x") [] (omega arith)

abbrev exportent_of : Parseopts → Exportent
exportent_of (parsed ep had) = ep
exportent_of (bad_option ep) = ep

abbrev read_only : Parseopts
read_only = parseopts old_secinfo_flags no_numbers (some (codes "ro,no_acl")) static_exportent

read_only_parsed : read_only ≡ parsed (exportent_of read_only) false
unfolding parseopts keyword str_eq apply_keyword find_word
read_only_parsed = refl

parseopts-known_example : All (λ w. keyword w ≢ unknown) (cut_options true (codes "ro,no_acl"))
parseopts-known_example =
    parseopts-known old_secinfo_flags no_numbers (codes "ro,no_acl") static_exportent
      (exportent_of read_only) false read_only_parsed

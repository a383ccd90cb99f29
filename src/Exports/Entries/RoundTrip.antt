-- ===== src/Exports/Entries/RoundTrip.antt =====
-- getexportent of support/nfs/exports.c on a line that putexportent has written for a plain export.
use nfs_utils.Common.{Bool, false, ◌∷◌, Bytes}
use nfs_utils.Exports.{Flags, init_exportent, static_exportent}
use nfs_utils.Exports.Xio.Quoting.{at}
use nfs_utils.Exports.Print.Plain.{PlainExport}
use nfs_utils.Exports.Print.Line.{client_text}
use nfs_utils.Exports.Entries.{ExportsFile}

-- The state with `exp` read up to the end of the line
abbrev read_up : Flags → PlainExport → Bytes → Bool → ExportsFile
read_up mask p rest first = record {
  efp = at (b'\n' ∷ rest) 1;
  first = first;
  has_default_opts = false;
  has_default_subtree_opts = false;
  def_ee = record (init_exportent static_exportent false) { e_path = p.path };
  exp = client_text mask p;
}

-- What the file is once the export has been read
abbrev pub behind_line : Flags → PlainExport → Bytes → ExportsFile
behind_line mask p rest = read_up mask p rest false

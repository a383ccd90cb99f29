-- ===== src/Mount/Tests.antt =====
-- Concrete option strings and device names for the theorems on utils/mount.
use nfs_utils.Common.{
  strtol, ◌≡◌, ◌≢◌, ◌⊎◌, ◌↔◌, ◌≤◌, refl, true, false, none, some, [], ◌∷◌, arith, Bytes, codes,
  lacks-Lacks, cut, starts, str_eq, length, All,
}
use nfs_utils.Mount.Token.{tokens, tokenizer_error, next_token, init_tokenizer}
use nfs_utils.Mount.Token.Words.{is_closed, is_closed-Closed, open_from, IsWord}
use nfs_utils.Mount.Options.{
  MountOption, MountOptions, insert_all, option_create, options_tail_insert, po_split, po_join,
  po_get, po_contains, po_contains_prefix, po_remove_all,
}
use nfs_utils.Mount.Options.Counts.{IsValid}
use nfs_utils.Mount.Options.Lookup.{po_get_lem, Rightmost, Without}
use nfs_utils.Mount.Options.Removal.{po_remove_all_lem, others}
use nfs_utils.Mount.Options.RoundTrip.{
  IsPrintable, ReadAs, po_split-po_join, po_split-ReadAs, po_split-none,
}
use nfs_utils.Mount.Devname.{
  parsed, nfs_parse_devname, nfs_parse_simple_hostname, nfs_maxhostname, nfs_maxpathname,
}
use nfs_utils.Mount.Devname.Parts.{Parts, nfs_parse_devname-Parts, parse_list_loses_path}
use nfs_utils.Mount.Network.{Databases, Pmap, nfs_options2pmap}
use nfs_utils.Mount.Version.{NfsVersion, v_default, v_parse_err, v_specific, nfs_nfs_version}
use nfs_utils.Mount.Version.Dotted.{nfs_nfs_version_dotted}
use nfs_utils.Mount.Version.Counting.{version_options, occurrences, nfs_nfs_version_multiple}

abbrev ro : MountOption
ro = record { keyword = codes "ro"; value = none }

abbrev vers : MountOption
vers = record { keyword = codes "vers"; value = some (codes "4.2") }

abbrev context : MountOption
context = record { keyword = codes "context"; value = some (codes "\"a,b\"") }

abbrev rw_sync : MountOptions
rw_sync = record { items = ro ∷ vers ∷ context ∷ vers ∷ []; count = 4 }

abbrev text : Bytes
text = codes "ro,vers=4.2,context=\"a,b\",vers=4.2"

rw_sync-IsValid : IsValid rw_sync
rw_sync-IsValid = record { counted = refl; fits = omega arith }

rw_sync-IsPrintable : All IsPrintable rw_sync.items
rw_sync-IsPrintable = (
  (lacks-Lacks b'=' (codes "ro") refl, word_of (codes "ro") (λ e. ground (arith, e)) refl),
  (
    (
      lacks-Lacks b'=' (codes "vers") refl,
      word_of (codes "vers=4.2") (λ e. ground (arith, e)) refl,
    ),
    (
      (
        lacks-Lacks b'=' (codes "context") refl,
        word_of (codes "context=\"a,b\"") (λ e. ground (arith, e)) refl,
      ),
      (
        (
          lacks-Lacks b'=' (codes "vers") refl,
          word_of (codes "vers=4.2") (λ e. ground (arith, e)) refl,
        ),
        tt,
      ),
    ),
  ),
)
  where
    word_of : (w : Bytes) → w ≢ [] → is_closed b',' false w ≡ true → IsWord b',' w
    word_of w ne h = (ne, is_closed-Closed b',' false w h)

text_is_split : po_split (some text) ≡ some rw_sync
unfolding po_split tokenizer_error tokens next_token init_tokenizer insert_all option_create cut
    options_tail_insert
text_is_split = refl

po_split-po_join_example : po_split (some (po_join rw_sync).str) ≡ some rw_sync
po_split-po_join_example = po_split-po_join rw_sync rw_sync-IsValid rw_sync-IsPrintable

po_split-ReadAs_example : ReadAs text rw_sync
po_split-ReadAs_example = po_split-ReadAs text rw_sync (omega arith) text_is_split

po_split-none_example :
    (po_split (some (codes "ro,context=\"a,b")) ≡ none)
    ↔ (open_from false (codes "ro,context=\"a,b") ≡ true)
po_split-none_example = po_split-none (codes "ro,context=\"a,b") (omega arith)

po_remove_all_lem_example :
    ((po_remove_all rw_sync (codes "vers")).0 ≡ po_contains rw_sync (codes "vers"))
    × ((po_remove_all rw_sync (codes "vers")).1.items ≡ others (codes "vers") rw_sync.items)
    × IsValid (po_remove_all rw_sync (codes "vers")).1
po_remove_all_lem_example = po_remove_all_lem rw_sync (codes "vers") rw_sync-IsValid

po_get_lem_example :
    (Without (codes "vers") rw_sync.items × (po_get rw_sync (codes "vers") ≡ none))
    ⊎ ((r : Rightmost (codes "vers") rw_sync.items) × (po_get rw_sync (codes "vers")
          ≡ r.option.value))
po_get_lem_example = po_get_lem rw_sync (codes "vers")

abbrev v3_twice : MountOptions
v3_twice = record {
  items =
      record { keyword = codes "v3"; value = none }
      ∷ record { keyword = codes "nfsvers"; value = some (codes "4") }
      ∷ [];
  count = 2;
}

abbrev unset_version : NfsVersion
unset_version = record { major = 0; minor = 0; v_mode = v_default }

nfs_nfs_version_multiple_example :
    nfs_nfs_version (codes "nfs") v3_twice unset_version
    ≡ (false, record { major = 0; minor = 0; v_mode = v_parse_err })
nfs_nfs_version_multiple_example =
    nfs_nfs_version_multiple (codes "nfs") v3_twice unset_version
      (unfold version_options occurrences starts in omega arith)

abbrev v4_2 : MountOptions
v4_2 = record { items = ro ∷ vers ∷ []; count = 2 }

nfs_nfs_version_dotted_example :
    nfs_nfs_version (codes "nfs") v4_2 unset_version
    ≡ (true, record { major = 4; minor = 2; v_mode = v_specific })
nfs_nfs_version_dotted_example =
    nfs_nfs_version_dotted (codes "nfs") v4_2 unset_version (codes "vers") (codes "4") (codes "2")
      (unfold occurrences starts in (refl, refl, refl, refl, refl))
      (unfold po_contains_prefix starts in refl) (unfold po_get str_eq in refl)
      (λ e. ground (arith, e), (refl, tt), omega arith)
      (λ e. ground (arith, e), (refl, tt), omega arith) (omega arith)

abbrev no_databases : Databases
no_databases = record {
  getnetconfigent = λ _. none;
  getprotobyname = λ _. none;
  getrpcbyname = λ _. none;
}

abbrev ports : MountOptions
ports = record {
  items =
      record { keyword = codes "port"; value = some (codes "2049") }
      ∷ record { keyword = codes "rdma"; value = none }
      ∷ [];
  count = 2;
}

abbrev nfs_pmap : Pmap
nfs_pmap = record { pm_prog = 100003; pm_vers = 0; pm_prot = 3939; pm_port = 2049 }

abbrev mnt_pmap : Pmap
mnt_pmap = record { pm_prog = 100005; pm_vers = 0; pm_prot = 6; pm_port = 0 }

ports_are_read : nfs_options2pmap no_databases ports ≡ some (nfs_pmap, mnt_pmap)
unfolding nfs_options2pmap starts strtol
ports_are_read = refl

server_export-parsed :
    nfs_parse_devname (some (codes "server:/export")) ≡ parsed (codes "server") (codes "/export")
unfolding nfs_parse_devname starts nfs_parse_simple_hostname cut
server_export-parsed = refl

nfs_parse_devname-Parts_example :
    Parts (codes "server") (codes "/export") (codes "server:/export")
    × (length (codes "server") ≤ nfs_maxhostname)
    × (length (codes "/export") ≤ nfs_maxpathname)
nfs_parse_devname-Parts_example =
    nfs_parse_devname-Parts (codes "server:/export") (codes "server") (codes "/export")
      server_export-parsed

parse_list_loses_path_example :
    nfs_parse_devname (some (codes "host1,host2:/path")) ≡ parsed (codes "host1") []
parse_list_loses_path_example =
    parse_list_loses_path (codes "host1") (codes "host2") (codes "/path")
      (lacks-Lacks b':' (codes "host1,host2") refl) (lacks-Lacks b',' (codes "host1") refl)
      (lacks-Lacks b'[' (codes "host1") refl) (unfold starts in refl) (omega arith)

-- ===== src/Nfs/Conf/Tests.antt =====
-- A concrete configuration file for the theorems on support/nfs/conffile.c.
use nfs_utils.Common.{
  ◌≡◌, ◌≢◌, refl, Bool, true, false, Option, none, some, List, [], ◌∷◌, arith, if◌then◌else◌, Bytes,
  codes, peek, All, lacks-Lacks, case_eq, str_eq, to_lower,
}
use nfs_utils.Nfs.Conf.{
  Binding, Bindings, conf_set_op, conf_remove_op, Conf, conf_end, conf_get_entry, find_entry,
  is_entry, conf_remove_now, conf_remove_section_now, conf_set_now, get_section, found, loops,
  expand, insert_head,
}
use nfs_utils.Nfs.Conf.Buckets.{IsSingle, same_name}
use nfs_utils.Nfs.Conf.Removal.{conf_set_now_override}
use nfs_utils.Nfs.Conf.Single.{conf_set_now-IsSingle, updates-IsSingle}
use nfs_utils.Nfs.Conf.Transactions.{of_others, own_ops, run_ops, conf_end_lem, with_bindings}
use nfs_utils.Nfs.Conf.Reads.{conf_get_list, conf_get_tag_list, tags}
use nfs_utils.Nfs.Conf.Reads.Lists.{conf_get_list-commas}
use nfs_utils.Nfs.Conf.Reads.Expansion.{get_section_loops}
use nfs_utils.Nfs.Conf.Parse.{conf_parse, trim_end}
use nfs_utils.Nfs.Conf.Parse.Lines.{IsName, IsArg, IsTag}
use nfs_utils.Nfs.Conf.Parse.RoundTrip.{
  Part, IsPart, print, set_parts, last_sections, conf_parse-print,
}
use nfs_utils.Nfs.Conf.Parse.Include.{self_including, conf_parse-self_including}
use nfs_utils.Nfs.Conf.Load.{World, no_sections, no_bindings, conf_load_file}
use nfs_utils.Nfs.Conf.Load.File.{store_parts, idle, conf_load_file-print}
use nfs_utils.Nfs.Conf.Load.Entries.{read_parts, conf_get_entry-store_parts}

abbrev parts : List Part
parts =
    record {
      name = codes "nfsd";
      arg = none;
      entries = (codes "threads", codes "8") ∷ (codes "threads", codes "16") ∷ [];
    }
    ∷ record {
      name = codes "mountd";
      arg = some (codes "a");
      entries = (codes "port", codes "20048") ∷ [];
    }
    ∷ []

nfsd-IsName : IsName (codes "nfsd")
nfsd-IsName = record {
  no_bracket = lacks-Lacks b']' (codes "nfsd") refl;
  no_quote = lacks-Lacks b'"' (codes "nfsd") refl;
  no_newline = lacks-Lacks b'\n' (codes "nfsd") refl;
  begins = λ r h. refl;
  ends = unfold trim_end in refl;
}

mountd-IsName : IsName (codes "mountd")
mountd-IsName = record {
  no_bracket = lacks-Lacks b']' (codes "mountd") refl;
  no_quote = lacks-Lacks b'"' (codes "mountd") refl;
  no_newline = lacks-Lacks b'\n' (codes "mountd") refl;
  begins = λ r h. refl;
  ends = unfold trim_end in refl;
}

a-IsArg : IsArg (codes "a")
a-IsArg = record {
  no_bracket = lacks-Lacks b']' (codes "a") refl;
  no_quote = lacks-Lacks b'"' (codes "a") refl;
  no_newline = lacks-Lacks b'\n' (codes "a") refl;
}

threads-IsTag : IsTag (codes "threads")
threads-IsTag = record {
  no_equals = lacks-Lacks b'=' (codes "threads") refl;
  no_newline = lacks-Lacks b'\n' (codes "threads") refl;
  ends = unfold trim_end in refl;
  no_include = unfold case_eq str_eq to_lower in refl;
}

port-IsTag : IsTag (codes "port")
port-IsTag = record {
  no_equals = lacks-Lacks b'=' (codes "port") refl;
  no_newline = lacks-Lacks b'\n' (codes "port") refl;
  ends = unfold trim_end in refl;
  no_include = unfold case_eq str_eq to_lower in refl;
}

parts-IsPart : All IsPart parts
parts-IsPart = (
  (
    nfsd-IsName,
    (
      (refl, threads-IsTag, lacks-Lacks b'"' (codes "8") refl, lacks-Lacks b'\n' (codes "8") refl),
      (
        (
          refl,
          threads-IsTag,
          lacks-Lacks b'"' (codes "16") refl,
          lacks-Lacks b'\n' (codes "16") refl,
        ),
        tt,
      ),
    ),
  ),
  (
    (
      (mountd-IsName, a-IsArg),
      (
        (
          refl,
          port-IsTag,
          lacks-Lacks b'"' (codes "20048") refl,
          lacks-Lacks b'\n' (codes "20048") refl,
        ),
        tt,
      ),
    ),
    tt,
  ),
)

abbrev no_env : Bytes → Option Bytes
no_env name = none

abbrev world : World
world = record {
  conf_readfile = λ f. some (print parts);
  scandir = λ d. [];
  getenv = no_env;
  jumps = 2;
  depth = 4;
}

conf_load_file-print_example :
    conf_load_file world (codes "/etc/nfs.conf") (idle no_bindings 0)
    ≡ some (idle (store_parts parts no_bindings) 1, 0)
conf_load_file-print_example =
    conf_load_file-print world 3 (codes "/etc/nfs.conf") parts no_bindings 0 refl refl parts-IsPart

-- Sections of tests/nfsconf/02-valid.conf: they have one name, and different arguments.
abbrev two_sections : List Part
two_sections =
    record {
      name = codes "section_two";
      arg = some (codes "two");
      entries = (codes "one", codes "Un") ∷ (codes "two", codes "Dau") ∷ [];
    }
    ∷ record {
      name = codes "section_two";
      arg = some (codes "one");
      entries = (codes "one", codes "Un") ∷ (codes "two", codes "Deux") ∷ [];
    }
    ∷ record {
      name = codes "section_two";
      arg = some (codes "two");
      entries = (codes "four", codes "Pedwar") ∷ (codes "five", codes " Pump ") ∷ [];
    }
    ∷ []

conf_get_entry-store_parts_example :
    conf_get_entry
      (store_parts two_sections no_bindings)
      (codes "section_two")
      (some (codes "two"))
      (codes "two")
    ≡ read_parts (codes "section_two") (some (codes "two")) (codes "two") two_sections none
conf_get_entry-store_parts_example =
    conf_get_entry-store_parts two_sections (codes "section_two") (some (codes "two")) (codes "two")

-- The entry `two` of the first section is lost, `four` is kept.
lost_test :
    read_parts (codes "section_two") (some (codes "two")) (codes "two") two_sections none ≡ none
unfolding read_parts case_eq
lost_test = refl

kept_test :
    read_parts (codes "section_two") (some (codes "two")) (codes "four") two_sections none
    ≡ some (codes "Pedwar")
unfolding read_parts case_eq
kept_test = refl

conf_parse-print_example :
    conf_parse no_env 1 4 (codes "/etc/nfs.conf") (print parts) no_sections (idle no_bindings 1)
    ≡ some (set_parts 1 parts (idle no_bindings 1), last_sections no_sections parts)
conf_parse-print_example =
    conf_parse-print no_env 1 3 (codes "/etc/nfs.conf") parts no_sections (idle no_bindings 1)
      parts-IsPart

abbrev including : Bytes → Option Bytes
including f = some (self_including (codes "nfsd") none (codes "/etc/nfs.conf"))

conf_parse-self_including_example :
    conf_parse including 1 9
      (codes "/etc/nfs.conf")
      (self_including (codes "nfsd") none (codes "/etc/nfs.conf"))
      no_sections
      (idle no_bindings 1)
    ≡ none
conf_parse-self_including_example =
    conf_parse-self_including including 1 (codes "nfsd") none (codes "etc/nfs.conf") nfsd-IsName
      (lacks-Lacks b'"' (codes "etc/nfs.conf") refl) (lacks-Lacks b'\n' (codes "etc/nfs.conf") refl)
      refl 9 (codes "/etc/nfs.conf") no_sections (idle no_bindings 1)

abbrev debug : Binding
debug = record {
  section = codes "lockd";
  arg = none;
  tag = codes "debug";
  value = codes "1";
  is_default = false;
}

abbrev two_queued : Conf
two_queued = record {
  bindings = no_bindings;
  queue =
      record { trans = 1; op = conf_set_op debug true }
      ∷ record { trans = 2; op = conf_remove_op (codes "lockd") (codes "debug") }
      ∷ [];
  seq = 2;
}

conf_end_lem_example :
    conf_end no_env 2 two_queued 1 true
    ≡ with_bindings two_queued (of_others 1 two_queued.queue) (
        if true
        then run_ops no_env 2 no_bindings (own_ops 1 two_queued.queue)
        else some no_bindings)
conf_end_lem_example = conf_end_lem no_env 2 two_queued 1 true

none-IsSingle : IsSingle no_bindings
none-IsSingle = record { single = λ n. tt }

-- One binding is set already.
abbrev debug_set : Bindings
debug_set = insert_head (conf_remove_now no_bindings debug.section debug.tag).0 debug

updates-IsSingle_example :
    IsSingle (conf_remove_now debug_set (codes "lockd") (codes "debug")).0
    × IsSingle (conf_remove_section_now debug_set (codes "lockd")).0
    × (b' : Bindings) × (conf_set_now no_env 2 debug_set debug true ≡ some (b', 0))
    × IsSingle b'
updates-IsSingle_example =
    updates-IsSingle no_env 2 debug_set debug (codes "lockd") (codes "debug")
      (conf_set_now-IsSingle no_bindings debug none-IsSingle)

conf_set_now_override_example :
    (b' : Bindings) × (conf_set_now no_env 2 no_bindings debug true ≡ some (b', 0))
    × (conf_get_entry b' (codes "lockd") none (codes "debug") ≡ (
        if is_entry (codes "lockd") none (codes "debug") debug
        then some debug.value
        else if same_name (codes "lockd") (codes "debug") debug.section debug.tag
        then none
        else conf_get_entry no_bindings (codes "lockd") none (codes "debug")))
conf_set_now_override_example =
    conf_set_now_override no_env 2 no_bindings debug (codes "lockd") none (codes "debug")
      none-IsSingle

abbrev one_binding : Binding → Bindings
one_binding node = λ n. node ∷ []

abbrev hosts : Binding
hosts = record {
  section = codes "nfsd";
  arg = none;
  tag = codes "host";
  value = codes "h1,h2 ";
  is_default = false;
}

hosts_found :
    get_section no_env (one_binding hosts) none 2 (codes "nfsd") (codes "host")
    ≡ found (codes "h1,h2 ")
unfolding get_section conf_get_entry find_entry expand case_eq str_eq to_lower
hosts_found = refl

conf_get_list-commas_example :
    conf_get_list no_env (one_binding hosts) 2 (codes "nfsd") (codes "host")
    ≡ some (codes "h1" ∷ codes "h2 " ∷ [])
conf_get_list-commas_example =
    conf_get_list-commas no_env (one_binding hosts) 2 (codes "nfsd") (codes "host") (codes "h1")
      (codes "h2 " ∷ []) (lacks-Lacks b',' (codes "h1") refl, refl)
      ((lacks-Lacks b',' (codes "h2 ") refl, refl), tt) hosts_found

abbrev of_a : Binding
of_a = record {
  section = codes "mountd";
  arg = some (codes "a");
  tag = codes "port";
  value = codes "20048";
  is_default = false;
}

of_a_tags :
    conf_get_tag_list (one_binding of_a) (codes "mountd") (some (codes "A"))
    ≡ some (codes "port" ∷ [])
unfolding conf_get_tag_list tags case_eq str_eq to_lower
of_a_tags = refl

abbrev plain_home : Binding
plain_home = record {
  section = codes "environment";
  arg = none;
  tag = codes "home";
  value = codes "/root";
  is_default = false;
}

plain_home-plain :
    (name value : Bytes)
    → conf_get_entry (one_binding plain_home) (codes "environment") none name ≡ some value
    → peek value ≢ b'$'
unfolding conf_get_entry find_entry
plain_home-plain name value e d = only_value (is_entry (codes "environment") none name plain_home) e
  where
    only_value : (b : Bool) → (if b then some (codes "/root") else none) ≡ some value → ⊥
    only_value true h = ground (arith, h, d)
    only_value false h = ground (arith, h)

abbrev looping : Binding
looping = record {
  section = codes "environment";
  arg = none;
  tag = codes "home";
  value = codes "$home";
  is_default = false;
}

looping_entry :
    conf_get_entry (one_binding looping) (codes "environment") none (codes "home")
    ≡ some (codes "$home")
unfolding conf_get_entry find_entry case_eq str_eq to_lower
looping_entry = refl

get_section_loops_example :
    get_section no_env (one_binding looping) none 100 (codes "environment") (codes "home") ≡ loops
get_section_loops_example =
    get_section_loops no_env (one_binding looping) none (codes "home") refl looping_entry 100

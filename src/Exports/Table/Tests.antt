-- ===== src/Exports/Table/Tests.antt =====
-- A table with one export, and the theorems about support/export/export.c at it.
use nfs_utils.Common.{[], case_eq, codes, false, none, refl, some, starts, str_eq, true, ◌≡◌}
use nfs_utils.Exports.{Exportent, static_exportent}
use nfs_utils.Clients.{client_gettype, anonymous, init_addrlist}
use nfs_utils.Clients.Lookup.{
  Resolver, Lists, client_lookup, find_or_add, split_at, client_init, client_add,
}
use nfs_utils.Exports.Table.{
  Exports, no_exports, export_create, export_add, export_lookup, find_export, is_export,
}
use nfs_utils.Exports.Table.Adding.{AreSound}
use nfs_utils.Exports.Table.Calls.{Reachable, at_start, after, create, run_call, Reachable-AreSound}
use nfs_utils.Exports.Table.Created.{FoundIn, export_lookup-export_create}
use nfs_utils.Exports.Table.Search.{address_of, export_lookup-find}

-- No host is known.
abbrev resolver : Resolver
resolver = record {
  host_addrinfo = λ s. none;
  host_canonname = λ a. none;
  aliases = λ s. [];
  innetgr = λ group name. false;
  ip_text = λ a. none;
  past_pattern = λ s p. false;
  parsers = record {
    inet_pton4 = λ s. none;
    inet_pton6 = λ s. none;
    host_pton = λ s. none;
    errno_erange = false;
    shifted_out = 0;
  };
}

abbrev entry : Exportent
entry = record static_exportent { e_path = codes "/srv" }

abbrev one_export : Exports
one_export = (export_create resolver no_exports (codes "*") entry true).0

one_export-Reachable : Reachable resolver one_export
unfolding run_call
one_export-Reachable = after no_exports one_export (create (codes "*") entry true) at_start refl

Reachable-AreSound_example : AreSound one_export
Reachable-AreSound_example = Reachable-AreSound resolver one_export one_export-Reachable

abbrev looked_up : Lists
looked_up = (client_lookup resolver one_export.clients (codes "*") true).0

everybody_found :
    client_lookup resolver one_export.clients (codes "*") true ≡ (looked_up, some (anonymous, 0))
unfolding export_create client_lookup client_gettype find_or_add split_at client_init client_add
    str_eq starts case_eq init_addrlist
everybody_found = refl

export_lookup-find_example : export_lookup resolver one_export (codes "*") (codes "/srv") true ≡ (
  record one_export { clients = looked_up },
  address_of (
      find_export
        (is_export (anonymous, 0) (codes "/srv"))
        (one_export.exportlist anonymous).p_head),
)
export_lookup-find_example =
    export_lookup-find resolver one_export (codes "*") (codes "/srv") true looked_up (anonymous, 0)
      one_export-Reachable everybody_found

second_made : (export_create resolver one_export (codes "*") entry true).1 ≡ some 1
unfolding export_create export_add client_lookup client_gettype find_or_add split_at client_init
    client_add str_eq starts case_eq init_addrlist
second_made = refl

export_lookup-export_create_example :
    FoundIn resolver one_export
      (export_create resolver one_export (codes "*") entry true).0
      (codes "*")
      (codes "/srv")
      1
export_lookup-export_create_example =
    export_lookup-export_create resolver one_export (codes "*") entry 1 one_export-Reachable
      second_made

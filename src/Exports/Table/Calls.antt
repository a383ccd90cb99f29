-- ===== src/Exports/Table/Calls.antt =====
-- The calls of support/export/export.c that change the hash tables.
use nfs_utils.Common.{ℕ, ◌≡◌, refl, subst, Bool, Option, none, some, Bytes}
use nfs_utils.Exports.{Exportent}
use nfs_utils.Clients.{
  Client, ClientType, fqdn, subnetwork, wildcard, netgroup, anonymous, gss, AddrInfo,
}
use nfs_utils.Clients.Lookup.{
  Resolver, Lists, Place, all_types, client_lookup, client_dup, client_freeall,
}
use nfs_utils.Exports.Table.{
  NfsExport, Exports, export_init, copied, export_create, export_dup, export_find, export_lookup,
  export_freeall, empty_table, no_exports, export_check, find_types, count_up, add_counted,
  client_at, search_table, free_types, search_table,
}
use nfs_utils.Exports.Table.Sound.{IsSound}
use nfs_utils.Exports.Table.Adding.{AreSound, export_add-AreSound}

abbrev Result : Exports × Option ℕ → Type 0
Result r = AreSound r.0

export_create-AreSound :
    (r : Resolver) (x : Exports) (hname : Bytes) (xep : Exportent) (canonical : Bool)
    → AreSound x
    → AreSound (export_create r x hname xep canonical).0
unfolding export_create export_init
export_create-AreSound r x hname xep canonical s =
    created (client_lookup r x.clients hname canonical).0
      (client_lookup r x.clients hname canonical).1
  where
    created :
        (lists : Lists) (found : Option Place)
        → Result (elim found [
          | none ↦ (record x { clients = lists }, none)
          | some clp ↦
              let exp = export_init x.next_address clp (record xep { e_hostname = some hname }) in
              (add_counted exp lists x, some x.next_address)
        ])
    created lists none = s
    created lists (some clp) =
        let exp = export_init x.next_address clp (record xep { e_hostname = some hname }) in
        export_add-AreSound exp (record x { clients = count_up clp lists }) refl s

export_dup-AreSound :
    (r : Resolver) (x : Exports) (exp : NfsExport) (ai : AddrInfo)
    → AreSound x
    → AreSound (export_dup r x exp ai).0
unfolding export_dup copied
export_dup-AreSound r x exp ai s = from_client (client_at (x.clients exp.m_client.0) exp.m_client.1)
  where
    added :
        (lists : Lists) (new : Option Place)
        → Result (elim new [
          | none ↦ (record x { clients = lists }, none)
          | some clp ↦ (add_counted (copied x.next_address clp exp) lists x, some x.next_address)
        ])
    added lists none = s
    added lists (some clp) =
        export_add-AreSound (copied x.next_address clp exp)
          (record x { clients = count_up clp lists }) refl s

    from_client :
        (q : Option Client)
        → Result (elim q [
          | none ↦ (x, none)
          | some c ↦
              let (lists, new) = client_dup r.parsers c ai x.clients in
              elim new [
                | none ↦ (record x { clients = lists }, none)
                | some clp ↦
                    (add_counted (copied x.next_address clp exp) lists x, some x.next_address)
              ]
        ])
    from_client none = s
    from_client (some c) =
        added (client_dup r.parsers c ai x.clients).0 (client_dup r.parsers c ai x.clients).1

export_find-AreSound :
    (r : Resolver) (x : Exports) (ai : AddrInfo) (path : Bytes)
    → AreSound x
    → AreSound (export_find r x ai path).0
unfolding export_find
export_find-AreSound r x ai path s =
    found (find_types (λ e. export_check r x.clients e ai path) x.exportlist all_types)
  where
    by_type :
        (e : NfsExport) (t : ClientType)
        → Result (elim t [ fqdn ↦ (x, some e.address) | _ ↦ export_dup r x e ai ])
    by_type e fqdn = s
    by_type e subnetwork = export_dup-AreSound r x e ai s
    by_type e wildcard = export_dup-AreSound r x e ai s
    by_type e netgroup = export_dup-AreSound r x e ai s
    by_type e anonymous = export_dup-AreSound r x e ai s
    by_type e gss = export_dup-AreSound r x e ai s

    found :
        (q : Option NfsExport)
        → Result (elim q [
          | none ↦ (x, none)
          | some e ↦ elim e.m_client.0 [ fqdn ↦ (x, some e.address) | _ ↦ export_dup r x e ai ]
        ])
    found none = s
    found (some e) = by_type e e.m_client.0

export_lookup-AreSound :
    (r : Resolver) (x : Exports) (hname path : Bytes) (canonical : Bool)
    → AreSound x
    → AreSound (export_lookup r x hname path canonical).0
unfolding export_lookup
export_lookup-AreSound r x hname path canonical s =
    found (client_lookup r x.clients hname canonical).0
      (client_lookup r x.clients hname canonical).1
  where
    found :
        (lists : Lists) (q : Option Place)
        → Result (elim q [
          | none ↦ (record x { clients = lists }, none)
          | some clp ↦ (record x { clients = lists }, search_table clp path (x.exportlist clp.0))
        ])
    found lists none = s
    found lists (some clp) = s

pub empty-IsSound : (t : ClientType) (n : ℕ) → IsSound t n empty_table
empty-IsSound t n = record { hash = λ _. 0; records = tt; blocks = λ _. tt }

-- The calls that other files make
pub data Call : Type 0 where
  create : Bytes → Exportent → Bool → Call
  find : AddrInfo → Bytes → Call
  look_up : Bytes → Bytes → Bool → Call
  free_all : Call

-- `none` is the fatal error of client_release.
unfoldable pub run_call : Resolver → Exports → Call → Option Exports
run_call r x (create hname xep canonical) = some (export_create r x hname xep canonical).0
run_call r x (find ai path) = some (export_find r x ai path).0
run_call r x (look_up hname path canonical) = some (export_lookup r x hname path canonical).0
run_call r x free_all = export_freeall x

-- The states that calls lead to
pub data Reachable (r : Resolver) : Exports → Type 0 where
  at_start : Reachable r no_exports
  after : (x y : Exports) (c : Call) → Reachable r x → run_call r x c ≡ some y → Reachable r y

MaybeSound : Option Exports → Type 0
MaybeSound none = Unit
MaybeSound (some x) = AreSound x

run_call-MaybeSound :
    (r : Resolver) (x : Exports) (c : Call) → AreSound x → MaybeSound (run_call r x c)
unfolding run_call MaybeSound export_freeall
run_call-MaybeSound r x (create hname xep canonical) s =
    export_create-AreSound r x hname xep canonical s
run_call-MaybeSound r x (find ai path) s = export_find-AreSound r x ai path s
run_call-MaybeSound r x (look_up hname path canonical) s =
    export_lookup-AreSound r x hname path canonical s
run_call-MaybeSound r x free_all s = freed (free_types x.exportlist all_types x.clients)
  where
    freed :
        (q : Option Lists)
        → MaybeSound (elim q [
          | none ↦ none
          | some lists ↦
              some (record x { exportlist = λ _. empty_table; clients = client_freeall lists })
        ])
    freed none = tt
    freed (some lists) = λ t. empty-IsSound t x.next_address

-- In every state that calls lead to, the records with one hash stand together in the list of their
-- table, from the record of p_first to the one of p_last, and each is in the table of its client's
-- type.
pub Reachable-AreSound : (r : Resolver) (x : Exports) → Reachable r x → AreSound x
unfolding MaybeSound
Reachable-AreSound r _ at_start = λ t. empty-IsSound t 0
Reachable-AreSound r _ (after w x c before e) =
    subst MaybeSound e (run_call-MaybeSound r w c (Reachable-AreSound r w before))

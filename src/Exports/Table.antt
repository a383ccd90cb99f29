-- ===== src/Exports/Table.antt =====
-- support/export/export.c: the exports in memory. For each type of client there is a hash table, whose
-- entries point into one list of records; the clients are those of support/export/client.c.
-- A pointer to a record is its `address`, by which its copies are told apart.
pub mod Sound
pub mod Adding
pub mod Calls
pub mod Search
pub mod Created
mod Tests
use nfs_utils.Common.{
  ℕ, zero, suc, ◌+◌, ◌-◌, ◌*◌, ◌%◌, ◌^◌, Bool, true, false, ◌&&◌, Option, none, some, List, [], ◌∷◌,
  leb, ◌==◌, if◌then◌else◌, Bytes, str_eq,
}
use nfs_utils.Exports.{Exportent}
use nfs_utils.Clients.{ClientType, fqdn, type_number, Client, AddrInfo}
use nfs_utils.Clients.Lookup.{
  Resolver, Lists, Place, all_types, put_list, client_check, client_lookup, client_dup,
  client_release, client_freeall,
}

-- nfs_export without its link
pub record NfsExport : Type 0 where
  pub address : ℕ
  pub m_client : Place
  pub m_export : Exportent
  pub m_exported : Bool
  pub m_xtabent : Bool
  pub m_mayexport : Bool
  pub m_changed : Bool
  pub m_warned : Bool

-- exp_hash_entry; the two pointers are set together.
pub record HashEntry : Type 0 where
  pub p_first : ℕ
  pub p_last : ℕ

-- exp_hash_table: the records from p_head on, in the order of m_next
pub record HashTable : Type 0 where
  pub p_head : List NfsExport
  pub entries : ℕ → Option HashEntry

-- exportlist and clientlist, and the address of the next record
pub record Exports : Type 0 where
  pub exportlist : ClientType → HashTable
  pub clients : Lists
  pub next_address : ℕ

-- HASH_TABLE_SIZE
abbrev pub hash_table_size : ℕ
hash_table_size = 1021

-- A signed char as an unsigned int
abbrev char_word : ℕ → ℕ
char_word c = if leb c 127 then c else 2 ^ 32 - 256 + c

unfoldable pub strtoint : ℕ → ℕ → Bytes → ℕ
strtoint i n [] = n
strtoint i n (c ∷ s) = strtoint (i + 1) ((n + char_word c * i) % 2 ^ 32) s

unfoldable pub export_hash : Bytes → ℕ
unfolding strtoint
export_hash str = strtoint 0 0 str % hash_table_size

-- A new record behind the one that p_last points to
unfoldable pub insert_behind : ℕ → NfsExport → List NfsExport → List NfsExport
insert_behind last exp [] = []
insert_behind last exp (e ∷ l) = elim (e.address == last) [
  | true ↦ e ∷ exp ∷ l
  | false ↦ e ∷ insert_behind last exp l
]

abbrev pub put_entry : ℕ → HashEntry → (ℕ → Option HashEntry) → ℕ → Option HashEntry
put_entry slot hen entries k = if k == slot then some hen else entries k

unfoldable pub add_to_table : NfsExport → ℕ → HashTable → HashTable
add_to_table exp slot tbl = elim (tbl.entries slot) [
  | none ↦ record {
    p_head = exp ∷ tbl.p_head;
    entries = put_entry slot (record { p_first = exp.address; p_last = exp.address }) tbl.entries;
  }
  | some hen ↦ record {
    p_head = insert_behind hen.p_last exp tbl.p_head;
    entries = put_entry slot (record { p_first = hen.p_first; p_last = exp.address }) tbl.entries;
  }
]

abbrev pub put_table : ClientType → HashTable → (ClientType → HashTable) → ClientType → HashTable
put_table t tbl tables u = if type_number u == type_number t then tbl else tables u

-- The record takes the next address.
unfoldable pub export_add : NfsExport → Exports → Exports
export_add exp x =
    let t = exp.m_client.0 in
    record x {
      exportlist =
          put_table t (add_to_table exp (export_hash exp.m_export.e_path) (x.exportlist t))
            x.exportlist;
      next_address = x.next_address + 1;
    }

unfoldable pub client_at : List Client → ℕ → Option Client
client_at [] i = none
client_at (c ∷ l) zero = some c
client_at (c ∷ l) (suc i) = client_at l i

unfoldable pub update_client : (Client → Client) → List Client → ℕ → List Client
update_client f [] i = []
update_client f (c ∷ l) zero = f c ∷ l
update_client f (c ∷ l) (suc i) = c ∷ update_client f l i

-- clp->m_count++
unfoldable pub count_up : Place → Lists → Lists
unfolding update_client
count_up (t, i) lists =
    put_list t (update_client (λ c. record c { m_count = c.m_count + 1 }) (lists t) i) lists

-- The copies of the arrays and texts; e_realpath is not part of the model's record.
unfoldable pub dupexportent : Exportent → Exportent
dupexportent src = record src { e_hostname = none }

unfoldable pub export_init : ℕ → Place → Exportent → NfsExport
unfolding dupexportent
export_init address clp nep = record {
  address = address;
  m_client = clp;
  m_export = record (dupexportent nep) { e_hostname = nep.e_hostname };
  m_exported = false;
  m_xtabent = false;
  m_mayexport = false;
  m_changed = false;
  m_warned = false;
}

-- A record that a client has been found for: it is added, and the client counts it.
abbrev pub add_counted : NfsExport → Lists → Exports → Exports
add_counted exp lists x = export_add exp (record x { clients = count_up exp.m_client lists })

-- e_hostname is `hname`, which is not NULL.
unfoldable pub export_create : Resolver → Exports → Bytes → Exportent → Bool → Exports × Option ℕ
unfolding client_lookup export_init export_add count_up
export_create r x hname xep canonical =
    let (lists, found) = client_lookup r x.clients hname canonical in
    elim found [
      | none ↦ (record x { clients = lists }, none)
      | some clp ↦
          let exp = export_init x.next_address clp (record xep { e_hostname = some hname }) in
          (add_counted exp lists x, some x.next_address)
    ]

-- The client of a record; a pointer without a client matches no host.
unfoldable pub export_check : Resolver → Lists → NfsExport → AddrInfo → Bytes → Bool
unfolding client_at client_check
export_check r lists exp ai path =
    str_eq path exp.m_export.e_path && (elim (client_at (lists exp.m_client.0) exp.m_client.1) [
      | none ↦ false
      | some clp ↦ client_check r clp ai
    ])

-- export_init is not called: the bits of m_mayexport are those of the record that is copied.
unfoldable pub copied : ℕ → Place → NfsExport → NfsExport
unfolding dupexportent
copied address clp exp = record {
  address = address;
  m_client = clp;
  m_export = record (dupexportent exp.m_export) { e_hostname = exp.m_export.e_hostname };
  m_exported = false;
  m_xtabent = false;
  m_mayexport = exp.m_mayexport;
  m_changed = false;
  m_warned = false;
}

unfoldable pub export_dup : Resolver → Exports → NfsExport → AddrInfo → Exports × Option ℕ
unfolding client_at client_dup copied export_add count_up
export_dup r x exp ai = elim (client_at (x.clients exp.m_client.0) exp.m_client.1) [
  | none ↦ (x, none)
  | some c ↦
      let (lists, new) = client_dup r.parsers c ai x.clients in
      elim new [
        | none ↦ (record x { clients = lists }, none)
        | some clp ↦ (add_counted (copied x.next_address clp exp) lists x, some x.next_address)
      ]
]

-- The first record that passes a test
unfoldable pub find_export : (NfsExport → Bool) → List NfsExport → Option NfsExport
find_export p [] = none
find_export p (e ∷ l) = elim (p e) [ true ↦ some e | false ↦ find_export p l ]

unfoldable pub find_types :
    (NfsExport → Bool) → (ClientType → HashTable) → List ClientType → Option NfsExport
unfolding find_export
find_types p tables [] = none
find_types p tables (t ∷ l) = elim (find_export p (tables t).p_head) [
  | none ↦ find_types p tables l
  | some e ↦ some e
]

unfoldable pub export_find : Resolver → Exports → AddrInfo → Bytes → Exports × Option ℕ
unfolding find_types export_check export_dup
export_find r x ai path =
    elim (find_types (λ e. export_check r x.clients e ai path) x.exportlist all_types) [
      | none ↦ (x, none)
      | some e ↦ elim e.m_client.0 [ fqdn ↦ (x, some e.address) | _ ↦ export_dup r x e ai ]
    ]

abbrev pub same_place : Place → Place → Bool
same_place (t, i) (u, k) = type_number t == type_number u && i == k

-- The test of export_lookup
abbrev pub is_export : Place → Bytes → NfsExport → Bool
is_export clp path e = same_place e.m_client clp && str_eq e.m_export.e_path path

-- The list from the record that p_first points to
unfoldable pub from_first : ℕ → List NfsExport → List NfsExport
from_first first [] = []
from_first first (e ∷ l) = elim (e.address == first) [ true ↦ e ∷ l | false ↦ from_first first l ]

-- The loop of export_lookup. It ends in front of the record that follows the one of p_last.
unfoldable pub scan_entry : (NfsExport → Bool) → ℕ → List NfsExport → Option ℕ
scan_entry p last [] = none
scan_entry p last (e ∷ l) = elim (p e) [
  | true ↦ some e.address
  | false ↦ elim (e.address == last) [ true ↦ none | false ↦ scan_entry p last l ]
]

unfoldable pub search_table : Place → Bytes → HashTable → Option ℕ
unfolding export_hash from_first scan_entry
search_table clp path tbl = elim (tbl.entries (export_hash path)) [
  | none ↦ none
  | some hen ↦ scan_entry (is_export clp path) hen.p_last (from_first hen.p_first tbl.p_head)
]

unfoldable pub export_lookup : Resolver → Exports → Bytes → Bytes → Bool → Exports × Option ℕ
unfolding client_lookup search_table
export_lookup r x hname path canonical =
    let (lists, found) = client_lookup r x.clients hname canonical in
    elim found [
      | none ↦ (record x { clients = lists }, none)
      | some clp ↦ (record x { clients = lists }, search_table clp path (x.exportlist clp.0))
    ]

-- client_release for each record; `none` is the fatal error.
unfoldable pub release_all : List NfsExport → Lists → Option Lists
unfolding client_at update_client client_release
release_all [] lists = some lists
release_all (e ∷ l) lists = elim (client_at (lists e.m_client.0) e.m_client.1) [
  | none ↦ none
  | some c ↦ elim (client_release c) [
    | none ↦ none
    | some d ↦
        release_all l
          (put_list e.m_client.0 (update_client (λ _. d) (lists e.m_client.0) e.m_client.1) lists)
  ]
]

abbrev pub empty_table : HashTable
empty_table = record { p_head = []; entries = λ _. none }

unfoldable pub free_types : (ClientType → HashTable) → List ClientType → Lists → Option Lists
unfolding release_all
free_types tables [] lists = some lists
free_types tables (t ∷ l) lists = elim (release_all (tables t).p_head lists) [
  | none ↦ none
  | some after ↦ free_types tables l after
]

unfoldable pub export_freeall : Exports → Option Exports
unfolding free_types client_freeall
export_freeall x = elim (free_types x.exportlist all_types x.clients) [
  | none ↦ none
  | some lists ↦ some (record x { exportlist = λ _. empty_table; clients = client_freeall lists })
]

-- exportlist as it starts
abbrev pub no_exports : Exports
no_exports = record { exportlist = λ _. empty_table; clients = λ _. []; next_address = 0 }

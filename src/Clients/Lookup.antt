-- ===== src/Clients/Lookup.antt =====
-- The lists of clients and the tests of a host (support/export/client.c). The functions of
-- support/export/hostname.c that ask the resolver are fields of `Resolver`.
pub mod Compose
pub mod Tables
pub mod Again
use nfs_utils.Common.{
  ℕ, length, ◌+◌, ◌-◌, Bool, true, false, not, ◌&&◌, ◌||◌, Option, none, some, List, [], ◌∷◌, ◌++◌,
  leb, ◌==◌, if◌then◌else◌, Bytes, cut, case_eq, drop,
}
use nfs_utils.Nfs.Wildmat.{wildmat}
use nfs_utils.Clients.{
  Address, unset, ClientType, fqdn, subnetwork, wildcard, netgroup, anonymous, gss, type_number,
  Client, AddrInfo, addresses, init_addrlist, client_gettype, check_fqdn,
}
use nfs_utils.Clients.Masks.{Parsers, init_subnetwork, check_subnetwork}
use nfs_utils.Clients.Names.{add_name}

-- `past_pattern` is what wildmat gives where it reads past the end of a pattern; `aliases` is h_aliases
-- of gethostbyname; `ip_text` is what inet_ntop makes of the bytes at sin_addr.
pub record Resolver : Type 0 where
  pub host_addrinfo : Bytes → Option AddrInfo
  pub host_canonname : Address → Option Bytes
  pub aliases : Bytes → List Bytes
  pub innetgr : Bytes → Bytes → Bool
  pub ip_text : Address → Option Bytes
  pub past_pattern : Bytes → Bytes → Bool
  pub parsers : Parsers

abbrev pub any_name : (Bytes → Bool) → List Bytes → Bool
any_name p [] = false
any_name p (s ∷ l) = p s || any_name p l

-- The name and the aliases of a host
abbrev pub any_alias : Resolver → (Bytes → Bool) → Bytes → Bool
any_alias r p hname = p hname || any_name p (r.aliases hname)

unfoldable pub check_wildcard : Resolver → Client → AddrInfo → Bool
check_wildcard r clp ai = elim (r.host_canonname ai.first) [
  | none ↦ false
  | some hname ↦ any_alias r (λ s. wildmat r.past_pattern s clp.m_hostname) hname
]

-- The name bound to an address that `hname` may be, or `hname`
unfoldable pub bound_name : Resolver → Bytes → Bytes
bound_name r hname = elim (r.parsers.host_pton hname) [
  | none ↦ hname
  | some a ↦ elim (r.host_canonname a) [ none ↦ hname | some cname ↦ cname ]
]

unfoldable pub in_netgroup : Resolver → Bytes → AddrInfo → Bytes → Bool
unfolding bound_name cut
in_netgroup r group ai hname =
    let name = bound_name r hname in
    any_alias r (r.innetgr group) hname
    || r.innetgr group name
    || (elim (r.ip_text ai.first) [ none ↦ false | some ip ↦ r.innetgr group ip ])
    || (elim (cut b'.' name) [ none ↦ false | some (host, _) ↦ r.innetgr group host ])

unfoldable pub check_netgroup : Resolver → Client → AddrInfo → Bool
unfolding in_netgroup
check_netgroup r clp ai = elim (r.host_canonname ai.first) [
  | none ↦ false
  | some hname ↦ in_netgroup r (drop 1 clp.m_hostname) ai hname
]

unfoldable pub check_type : Resolver → ClientType → Client → AddrInfo → Bool
unfolding check_fqdn check_subnetwork check_wildcard check_netgroup
check_type r fqdn clp ai = check_fqdn clp (addresses ai)
check_type r subnetwork clp ai = check_subnetwork clp (addresses ai)
check_type r wildcard clp ai = check_wildcard r clp ai
check_type r netgroup clp ai = check_netgroup r clp ai
check_type r anonymous clp ai = true
check_type r gss clp ai = false

unfoldable pub client_check : Resolver → Client → AddrInfo → Bool
unfolding check_type
client_check r clp ai = check_type r clp.m_type clp ai

-- clientlist
abbrev pub Lists : Type 0
Lists = ClientType → List Client

abbrev pub put_list : ClientType → List Client → Lists → Lists
put_list t l lists u = if type_number u == type_number t then l else lists u

abbrev pub is_subnetwork : ClientType → Bool
is_subnetwork subnetwork = true
is_subnetwork _ = false

-- `none` where the function returns 0.
unfoldable pub client_init : Parsers → Client → Bytes → Option AddrInfo → Option Client
client_init ps clp hname ai =
    let c = record clp { m_hostname = hname; m_exported = false; m_count = 0; m_naddr = 0 } in
    if is_subnetwork c.m_type then init_subnetwork ps c else some (init_addrlist c ai)

-- What a pointer to a client is: the type of its list and its place there
abbrev pub Place : Type 0
Place = ClientType × ℕ

unfoldable pub client_add : Client → Lists → Lists
client_add clp lists = put_list clp.m_type (lists clp.m_type ++ clp ∷ []) lists

-- The first client that passes the test, with those in front of it and behind it
unfoldable pub split_at :
    (Client → Bool) → List Client → Option (List Client × Client × List Client)
split_at p [] = none
split_at p (c ∷ l) = elim (p c) [
  | true ↦ some ([], c, l)
  | false ↦ elim (split_at p l) [ none ↦ none | some (a, d, b) ↦ some (c ∷ a, d, b) ]
]

abbrev pub blank_client : ClientType → Client
blank_client t = record {
  m_hostname = [];
  m_type = t;
  m_naddr = 0;
  m_addrlist = λ _. unset;
  m_exported = false;
  m_count = 0;
  m_match_gen = 0;
  m_match = false;
}

abbrev pub is_fqdn : ClientType → Bool
is_fqdn fqdn = true
is_fqdn _ = false

-- The last step: the addresses of a host that has none yet
abbrev pub with_addresses : Client → Option AddrInfo → Client
with_addresses clp ai = if is_fqdn clp.m_type && clp.m_naddr == 0 then init_addrlist clp ai else clp

-- From the search on: the lists, and the pointer that is returned.
unfoldable pub find_or_add :
    Parsers → ClientType → Bytes → Option AddrInfo → (Client → Bool) → Lists → Lists × Option Place
find_or_add ps t hname ai p lists = elim (split_at p (lists t)) [
  | some (before, clp, after) ↦
      let c = with_addresses clp ai in
      (put_list t (before ++ c ∷ after) lists, some (t, length before))
  | none ↦ elim (client_init ps (blank_client t) hname none) [
    | none ↦ (lists, none)
    | some clp ↦ let c = with_addresses clp ai in (client_add c lists, some (t, length (lists t)))
  ]
]

unfoldable pub client_lookup : Resolver → Lists → Bytes → Bool → Lists × Option Place
client_lookup r lists hname canonical =
    let t = client_gettype hname in
    if is_fqdn t && not canonical
    then (elim (r.host_addrinfo hname) [
      | none ↦ (lists, none)
      | some ai ↦
          find_or_add r.parsers t ai.canonname (some ai) (λ clp. client_check r clp ai) lists
    ])
    else find_or_add r.parsers t hname none (λ clp. case_eq hname clp.m_hostname) lists

-- The copy keeps the other fields of the source.
unfoldable pub client_dup : Parsers → Client → AddrInfo → Lists → Lists × Option Place
client_dup ps clp ai lists =
    let copy = record clp { m_type = fqdn; m_match_gen = 0; m_match = false } in
    elim (client_init ps copy ai.canonname (some ai)) [
      | none ↦ (lists, none)
      | some new ↦ (client_add new lists, some (fqdn, length (lists fqdn)))
    ]

-- `none` is the fatal error.
unfoldable pub client_release : Client → Option Client
client_release clp =
    if leb clp.m_count 0 then none else some (record clp { m_count = clp.m_count - 1 })

unfoldable pub client_freeall : Lists → Lists
client_freeall lists t = []

abbrev is_empty : List Client → Bool
is_empty [] = true
is_empty _ = false

-- The reliable look-up is made only if names matter; `reliable` and `numeric` are
-- host_reliable_addrinfo and host_numeric_addrinfo.
unfoldable pub client_resolve :
    (Address → Option AddrInfo) → (Address → Option AddrInfo) → Lists → Address → Option AddrInfo
client_resolve reliable numeric lists sap =
    if not (is_empty (lists wildcard)) || not (is_empty (lists netgroup))
    then (elim (reliable sap) [ none ↦ numeric sap | some ai ↦ some ai ])
    else numeric sap

unfoldable pub compose_list : (Client → Bool) → List Client → Option Bytes → Option Bytes
unfolding add_name
compose_list p [] name = name
compose_list p (clp ∷ l) name = elim (p clp) [
  | true ↦ compose_list p l (some (add_name name clp.m_hostname))
  | false ↦ compose_list p l name
]

unfoldable pub compose_types :
    (Client → Bool) → Lists → List ClientType → Option Bytes → Option Bytes
unfolding compose_list
compose_types p lists [] name = name
compose_types p lists (t ∷ l) name = compose_types p lists l (compose_list p (lists t) name)

abbrev pub all_types : List ClientType
all_types = fqdn ∷ subnetwork ∷ wildcard ∷ netgroup ∷ anonymous ∷ gss ∷ []

unfoldable pub client_compose : Resolver → Lists → AddrInfo → Option Bytes
unfolding compose_types client_check
client_compose r lists ai = compose_types (λ clp. client_check r clp ai) lists all_types none

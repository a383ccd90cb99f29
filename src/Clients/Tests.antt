-- ===== src/Clients/Tests.antt =====
-- Concrete clients, and the theorems about support/export/client.c at them.
use nfs_utils.Common.{
  ◌+◌, ◌^◌, ◌-◌, ◌≡◌, refl, true, false, Option, none, some, [], ◌∷◌, subst, str_eq, starts,
  case_eq, arith, Bytes, codes, high_mask,
}
use nfs_utils.Clients.{
  in4, ClientType, fqdn, subnetwork, wildcard, netgroup, anonymous, gss, Client, AddrInfo,
  client_gettype,
}
use nfs_utils.Clients.Masks.{Parsers, check_subnet_v4}
use nfs_utils.Clients.Masks.Prefixes.{shares, check_subnet_v4-shares}
use nfs_utils.Clients.Names.Members.{any_eq}
use nfs_utils.Clients.Names.Sorted.{IsSorted}
use nfs_utils.Clients.Lookup.{
  Resolver, Lists, Place, blank_client, client_check, client_lookup, client_compose, find_or_add,
  split_at,
}
use nfs_utils.Clients.Lookup.Compose.{
  matches, composed, insert_all, member_of, client_compose-IsSorted, client_member-client_compose,
}
use nfs_utils.Clients.Lookup.Tables.{IsSound, lookup, run_calls, run_calls-IsSound}
use nfs_utils.Clients.Lookup.Again.{client_lookup_again}

abbrev parsers : Parsers
parsers = record {
  inet_pton4 = λ s. none;
  inet_pton6 = λ s. none;
  host_pton = λ s. some (in4 (2 ^ 31));
  errno_erange = false;
  shifted_out = 2 ^ 32 - 1;
}

-- Every name is a host at one address, and every address has one name.
abbrev resolver : Resolver
resolver = record {
  host_addrinfo = λ s. some (record { canonname = s; first = in4 (2 ^ 31 + 7); rest = [] });
  host_canonname = λ a. some (codes "a.example");
  aliases = λ s. [];
  innetgr = λ group name. true;
  ip_text = λ a. none;
  past_pattern = λ s p. false;
  parsers = parsers;
}

abbrev named : ClientType → Bytes → Client
named t name = record (blank_client t) { m_hostname = name }

-- A netgroup and everybody; the subnetwork has no address and matches nothing.
abbrev lists : Lists
lists fqdn = []
lists subnetwork = named subnetwork (codes "10.0.0.0/8") ∷ []
lists wildcard = []
lists netgroup = named netgroup (codes "@hosts") ∷ []
lists anonymous = named anonymous (codes "*") ∷ []
lists gss = []

abbrev host : AddrInfo
host = record { canonname = codes "a.example"; first = in4 (2 ^ 31 + 7); rest = [] }

matching_names : matches resolver lists host ≡ codes "@hosts" ∷ codes "*" ∷ []
unfolding client_check
matching_names = refl

client_compose-IsSorted_example :
    (client_compose resolver lists host ≡ composed (insert_all (matches resolver lists host) []))
    × IsSorted (insert_all (matches resolver lists host) [])
unfolding client_check
client_compose-IsSorted_example =
    client_compose-IsSorted resolver lists host
      ((ground arith, ground arith), ((ground arith, ground arith), tt))
      ((ground arith, ground arith), ((ground arith, ground arith), tt))

client_member-client_compose_example :
    member_of (codes "*") (client_compose resolver lists host)
    ≡ any_eq (codes "*") (matches resolver lists host)
unfolding client_check
client_member-client_compose_example =
    client_member-client_compose resolver lists host (codes "*")
      ((ground arith, ground arith), ((ground arith, ground arith), tt)) (ground arith)

lists-IsSound : IsSound lists
lists-IsSound fqdn = tt
lists-IsSound subnetwork = ((refl, omega arith), tt)
lists-IsSound wildcard = tt
lists-IsSound netgroup = ((refl, omega arith), tt)
lists-IsSound anonymous = ((refl, omega arith), tt)
lists-IsSound gss = tt

run_calls-IsSound_example :
    IsSound
      (run_calls resolver lists (lookup (codes "b.example") false ∷ lookup (codes "*.c") true ∷ []))
run_calls-IsSound_example =
    run_calls-IsSound resolver lists
      (lookup (codes "b.example") false ∷ lookup (codes "*.c") true ∷ []) lists-IsSound

abbrev IsThere : Option Place → Type 0
IsThere none = ⊥
IsThere (some place) = Unit

client_lookup_again_example :
    client_lookup resolver
      (client_lookup resolver lists (codes "@hosts") true).0
      (codes "@hosts")
      true
    ≡ client_lookup resolver lists (codes "@hosts") true
unfolding client_lookup client_gettype find_or_add split_at str_eq starts case_eq
client_lookup_again_example =
    client_lookup_again resolver lists (codes "@hosts") (λ e. subst IsThere e tt)

check_subnet_v4-shares_example :
    check_subnet_v4 (2 ^ 31) (high_mask 32 (32 - 8)) (in4 (2 ^ 31 + 7) ∷ [])
    ≡ shares 8 (2 ^ 31) (in4 (2 ^ 31 + 7) ∷ [])
check_subnet_v4-shares_example =
    check_subnet_v4-shares 8 (2 ^ 31) (in4 (2 ^ 31 + 7) ∷ []) (omega arith) (omega arith)
      (omega arith) (omega arith, tt)

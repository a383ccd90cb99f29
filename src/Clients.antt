-- ===== src/Clients.antt =====
-- support/export/client.c: the clients of the export table, and which hosts they match.
-- Addresses are those of support/include/sockaddr.h, in host byte order. The resolver, the netgroups
-- and the text forms of addresses are the C library's; the lists of clients are passed on.
pub mod Names
pub mod Masks
pub mod Lookup
mod Tests
use nfs_utils.Common.{
  ℕ, zero, suc, ◌+◌, ◌/◌, ◌^◌, Bool, true, false, not, ◌&&◌, ◌||◌, Option, none, some, List, [],
  ◌∷◌, ◌==◌, if◌then◌else◌, Bytes, codes, length, str_eq, starts, peek,
}

-- An IPv6 address is its four words of 32 bits.
pub data Address : Type 0 where
  unset : Address
  in4 : ℕ → Address
  in6 : List ℕ → ℕ → Address

pub data ClientType : Type 0 where
  fqdn subnetwork wildcard netgroup anonymous gss : ClientType

abbrev pub type_number : ClientType → ℕ
type_number fqdn = 0
type_number subnetwork = 1
type_number wildcard = 2
type_number netgroup = 3
type_number anonymous = 4
type_number gss = 5

-- NFSCLNT_ADDRMAX
abbrev pub addrmax : ℕ
addrmax = 16

-- nfs_client without its link
pub record Client : Type 0 where
  pub m_hostname : Bytes
  pub m_type : ClientType
  pub m_naddr : ℕ
  pub m_addrlist : ℕ → Address
  pub m_exported : Bool
  pub m_count : ℕ
  pub m_match_gen : ℕ
  pub m_match : Bool

-- struct addrinfo: the canonical name and the addresses, of which there is one at least.
pub record AddrInfo : Type 0 where
  pub canonname : Bytes
  pub first : Address
  pub rest : List Address

abbrev pub addresses : AddrInfo → List Address
addresses ai = ai.first ∷ ai.rest

-- An address of another family is not stored.
unfoldable pub set_addrlist : (ℕ → Address) → ℕ → Address → ℕ → Address
set_addrlist slots i unset k = slots k
set_addrlist slots i (in4 a) k = if k == i then in4 a else slots k
set_addrlist slots i (in6 a scope) k = if k == i then in6 a scope else slots k

-- The loop of init_addrlist from place `i` on, with room for `n` more: the slots and the last `i`.
unfoldable pub fill_addrlist : ℕ → ℕ → List Address → (ℕ → Address) → (ℕ → Address) × ℕ
unfolding set_addrlist
fill_addrlist zero i ai slots = (slots, i)
fill_addrlist (suc n) i [] slots = (slots, i)
fill_addrlist (suc n) i (a ∷ ai) slots = fill_addrlist n (i + 1) ai (set_addrlist slots i a)

-- A NULL list changes nothing.
unfoldable pub init_addrlist : Client → Option AddrInfo → Client
unfolding fill_addrlist
init_addrlist clp none = clp
init_addrlist clp (some ai) =
    let (slots, n) = fill_addrlist addrmax 0 (addresses ai) clp.m_addrlist in
    record clp { m_addrlist = slots; m_naddr = n }

-- The scan of client_gettype behind the tests of the start; a backslash hides the next byte.
unfoldable pub scan_type : Bytes → ClientType
scan_type [] = fqdn
scan_type (c ∷ []) =
    if c == b'*' || c == b'?' || c == b'[' then wildcard else if c == b'/' then subnetwork else fqdn
scan_type (c ∷ d ∷ s) =
    let behind_next = scan_type s in
    let here = scan_type (d ∷ s) in
    elim (c == b'*' || c == b'?' || c == b'[') [
      | true ↦ wildcard
      | false ↦ elim (c == b'/') [
        | true ↦ subnetwork
        | false ↦ elim (c == b'\\') [ true ↦ behind_next | false ↦ here ]
      ]
    ]

unfoldable pub client_gettype : Bytes → ClientType
unfolding scan_type
client_gettype ident =
    if length ident == 0 || str_eq ident (codes "*")
    then anonymous
    else if starts (codes "gss/") ident
    then gss
    else if peek ident == b'@'
    then netgroup
    else scan_type ident

-- IN6_IS_ADDR_LINKLOCAL
abbrev pub is_linklocal : List ℕ → Bool
is_linklocal [] = false
is_linklocal (w ∷ l) = w / 2 ^ 22 == 1018

unfoldable pub words_eq : List ℕ → List ℕ → Bool
words_eq [] [] = true
words_eq (a ∷ l) (b ∷ m) = a == b && words_eq l m
words_eq _ _ = false

-- nfs_compare_sockaddr: the scope counts if both are link-local.
unfoldable pub nfs_compare_sockaddr : Address → Address → Bool
unfolding words_eq
nfs_compare_sockaddr (in4 a) (in4 b) = a == b
nfs_compare_sockaddr (in6 a s) (in6 b t) =
    if is_linklocal a && is_linklocal b && not (s == t) then false else words_eq a b
nfs_compare_sockaddr _ _ = false

-- The stored addresses at places below `n`
unfoldable pub any_stored : Address → ℕ → (ℕ → Address) → Bool
unfolding nfs_compare_sockaddr
any_stored a zero slots = false
any_stored a (suc n) slots = any_stored a n slots || nfs_compare_sockaddr a (slots n)

unfoldable pub check_fqdn : Client → List Address → Bool
unfolding any_stored
check_fqdn clp [] = false
check_fqdn clp (a ∷ ai) = any_stored a clp.m_naddr clp.m_addrlist || check_fqdn clp ai

-- ===== src/Clients/Masks.antt =====
-- The clients that are subnetworks: their masks and the test of an address
-- (support/export/client.c).
pub mod Prefixes
use nfs_utils.Common.{
  ℕ, zero, suc, ◌-◌, ◌^◌, Bool, true, false, not, ◌&&◌, ◌||◌, Option, none, some, List, [], ◌∷◌,
  ltb, ◌==◌, if◌then◌else◌, Bytes, cut, lacks, strtoul, high_mask, bit_and, bit_xor, length,
}
use nfs_utils.Clients.{Address, unset, in4, in6, Client, set_addrlist}

-- The C library's inet_pton for both families, and the first address of host_pton
-- (support/export/hostname.c). `errno_erange` is what errno holds before the call of strtoul, and
-- `shifted_out` is the value of (uint32_t)~0 << 32, which C leaves undefined.
pub record Parsers : Type 0 where
  pub inet_pton4 : Bytes → Option ℕ
  pub inet_pton6 : Bytes → Option (List ℕ)
  pub host_pton : Bytes → Option Address
  pub errno_erange : Bool
  pub shifted_out : ℕ

-- strtoul on the text behind the slash, and the test of what it leaves. `none` is a bad prefix.
unfoldable pub read_prefixlen : Parsers → Bytes → Option ℕ
unfolding strtoul
read_prefixlen ps s =
    let n = strtoul 10 s in
    if not (length n.rest == 0)
      && not (n.value == 2 ^ 64 - 1)
      && not (ps.errno_erange || not n.in_range)
    then none
    else some n.value

-- (uint32_t)~0 << shift
unfoldable pub ones_from : Parsers → ℕ → ℕ
ones_from ps shift = if shift == 32 then ps.shifted_out else high_mask 32 shift

unfoldable pub prefix_mask4 : Parsers → ℕ → Option ℕ
unfolding ones_from
prefix_mask4 ps prefixlen = if ltb 32 prefixlen then none else some (ones_from ps (32 - prefixlen))

-- The mask, or `none` where init_netmask4 returns 0
unfoldable pub init_netmask4 : Parsers → Option Bytes → Option ℕ
unfolding read_prefixlen prefix_mask4
init_netmask4 ps none = some (high_mask 32 0)
init_netmask4 ps (some s) =
    if lacks b'.' s
    then (elim (read_prefixlen ps s) [ none ↦ none | some n ↦ prefix_mask4 ps n ])
    else ps.inet_pton4 s

abbrev zeros : ℕ → List ℕ
zeros zero = []
zeros (suc n) = 0 ∷ zeros n

-- The words of the mask from one on; those behind the last bit of the prefix are 0.
unfoldable pub mask_words : Parsers → ℕ → ℕ → List ℕ
unfolding ones_from
mask_words ps zero prefixlen = []
mask_words ps (suc n) prefixlen = elim (ltb 32 prefixlen) [
  | true ↦ (2 ^ 32 - 1) ∷ mask_words ps n (prefixlen - 32)
  | false ↦ ones_from ps (32 - prefixlen) ∷ zeros n
]

abbrev pub prefix_mask6 : Parsers → ℕ → Option (List ℕ)
prefix_mask6 ps prefixlen = if ltb 128 prefixlen then none else some (mask_words ps 4 prefixlen)

unfoldable pub init_netmask6 : Parsers → Option Bytes → Option (List ℕ)
unfolding read_prefixlen mask_words
init_netmask6 ps none = prefix_mask6 ps 128
init_netmask6 ps (some s) =
    if lacks b':' s
    then (elim (read_prefixlen ps s) [ none ↦ none | some n ↦ prefix_mask6 ps n ])
    else ps.inet_pton6 s

abbrev pub with_subnet : Client → Address → Address → Client
with_subnet clp address mask = record clp {
  m_addrlist = set_addrlist (set_addrlist clp.m_addrlist 0 address) 1 mask;
}

abbrev pub before_slash : Bytes → Bytes × Option Bytes
before_slash s = elim (cut b'/' s) [ none ↦ (s, none) | some (a, b) ↦ (a, some b) ]

-- `none` is FALSE.
unfoldable pub init_subnetwork : Parsers → Client → Option Client
unfolding init_netmask4 init_netmask6 set_addrlist cut
init_subnetwork ps clp =
    let (host, slash) = before_slash clp.m_hostname in
    elim (ps.host_pton host) [
      | none ↦ none
      | some unset ↦ none
      | some (in4 a) ↦ elim (init_netmask4 ps slash) [
        | none ↦ none
        | some m ↦ some (with_subnet clp (in4 a) (in4 m))
      ]
      | some (in6 a scope) ↦ elim (init_netmask6 ps slash) [
        | none ↦ none
        | some m ↦ some (with_subnet clp (in6 a scope) (in6 m 0))
      ]
    ]

-- ((a ^ b) & m) == 0
unfoldable pub mask_match : ℕ → ℕ → ℕ → Bool
mask_match a b m = bit_and (bit_xor a b) m == 0

unfoldable pub check_subnet_v4 : ℕ → ℕ → List Address → Bool
unfolding mask_match
check_subnet_v4 address mask [] = false
check_subnet_v4 address mask (in4 a ∷ ai) =
    mask_match address a mask || check_subnet_v4 address mask ai
check_subnet_v4 address mask (_ ∷ ai) = check_subnet_v4 address mask ai

-- All four words match.
unfoldable pub words_match : List ℕ → List ℕ → List ℕ → Bool
unfolding mask_match
words_match (a ∷ l) (b ∷ k) (m ∷ n) = mask_match a b m && words_match l k n
words_match _ _ _ = true

unfoldable pub check_subnet_v6 : List ℕ → List ℕ → List Address → Bool
unfolding words_match
check_subnet_v6 address mask [] = false
check_subnet_v6 address mask (in6 a scope ∷ ai) =
    words_match address a mask || check_subnet_v6 address mask ai
check_subnet_v6 address mask (_ ∷ ai) = check_subnet_v6 address mask ai

-- The union of the address is read as one of the family of the first.
abbrev mask4 : Address → ℕ
mask4 (in4 m) = m
mask4 _ = 0

abbrev mask6 : Address → List ℕ
mask6 (in6 m scope) = m
mask6 _ = 0 ∷ 0 ∷ 0 ∷ 0 ∷ []

unfoldable pub subnet_of : Address → Address → List Address → Bool
unfolding check_subnet_v4 check_subnet_v6
subnet_of unset mask ai = false
subnet_of (in4 a) mask ai = check_subnet_v4 a (mask4 mask) ai
subnet_of (in6 a scope) mask ai = check_subnet_v6 a (mask6 mask) ai

unfoldable pub check_subnetwork : Client → List Address → Bool
unfolding subnet_of
check_subnetwork clp ai = subnet_of (clp.m_addrlist 0) (clp.m_addrlist 1) ai

-- ===== src/Clients/Masks/Prefixes.antt =====
-- A subnetwork given by an IPv4 address and the length of a prefix (support/export/client.c).
use nfs_utils.Common.{
  ℕ, ◌-◌, ◌/◌, ◌^◌, ◌<◌, ◌≤◌, ◌≡◌, refl, ap₂, Bool, false, ◌||◌, some, List, [], ◌∷◌, arith, ◌==◌,
  high_mask, high_mask_iff, bit_and, bit_xor, All, same_test,
}
use nfs_utils.Clients.{Address, unset, in4, in6}
use nfs_utils.Clients.Masks.{Parsers, ones_from, prefix_mask4, mask_match, check_subnet_v4}

-- Some IPv4 address of the list shares its first `prefixlen` bits with `address`.
abbrev pub shares : ℕ → ℕ → List Address → Bool
shares prefixlen address [] = false
shares prefixlen address (in4 a ∷ ai) =
    address / 2 ^ (32 - prefixlen) == a / 2 ^ (32 - prefixlen) || shares prefixlen address ai
shares prefixlen address (_ ∷ ai) = shares prefixlen address ai

abbrev pub Is32 : Address → Type 0
Is32 (in4 a) = a < 2 ^ 32
Is32 _ = Unit

mask_match-prefix :
    (s a b : ℕ)
    → s ≤ 32
    → a < 2 ^ 32
    → b < 2 ^ 32
    → mask_match a b (high_mask 32 s) ≡ (a / 2 ^ s == b / 2 ^ s)
unfolding mask_match
mask_match-prefix s a b h p q =
    let (to, from) = high_mask_iff 32 s a b h p q in
    same_test (bit_and (bit_xor a b) (high_mask 32 s)) 0 (a / 2 ^ s) (b / 2 ^ s) to from

pub prefix_mask4_lem :
    (ps : Parsers) (prefixlen : ℕ)
    → 0 < prefixlen
    → prefixlen ≤ 32
    → prefix_mask4 ps prefixlen ≡ some (high_mask 32 (32 - prefixlen))
unfolding prefix_mask4 ones_from
prefix_mask4_lem ps prefixlen h k = ground (arith, h, k)

-- With the mask that init_netmask4 makes for a prefix of 1 to 32 bits, check_subnet_v4 is the test
-- whether some IPv4 address of the host has the first bits of the subnetwork's address.
pub check_subnet_v4-shares :
    (prefixlen address : ℕ) (ai : List Address)
    → 0 < prefixlen
    → prefixlen ≤ 32
    → address < 2 ^ 32
    → All Is32 ai
    → check_subnet_v4 address (high_mask 32 (32 - prefixlen)) ai ≡ shares prefixlen address ai
unfolding check_subnet_v4
check_subnet_v4-shares n address [] h k a b = refl
check_subnet_v4-shares n address (unset ∷ ai) h k a b =
    check_subnet_v4-shares n address ai h k a b.1
check_subnet_v4-shares n address (in6 x scope ∷ ai) h k a b =
    check_subnet_v4-shares n address ai h k a b.1
check_subnet_v4-shares n address (in4 x ∷ ai) h k a b =
    ap₂ (λ (p q : Bool). p || q) (mask_match-prefix (32 - n) address x (omega arith) a b.0)
      (check_subnet_v4-shares n address ai h k a b.1)

-- ===== src/Common/Unsigned.antt =====
-- strtoul and strtol for any base, and the conversions of their results to narrower types.
use Prim.Native.Nat.{ℕ, zero, suc, ◌+◌, ◌-◌, ◌*◌, ◌/◌, ◌%◌, ◌^◌}
use mathlib.Core.Bool.{Bool, true, false, ◌&&◌}
use mathlib.Core.List.{[], ◌∷◌}
use nfs_utils.Common.Tests.{ltb, leb, ◌==◌, if◌then◌else◌}
use nfs_utils.Common.Text.{Bytes, is_digit, is_space, skip, to_lower}
use nfs_utils.Common.Numbers.{ℤ, pos, negsuc, to_u64}

-- What strtoul stores and returns: the value, and the text at the end pointer.
pub record ParsedUnsigned : Type 0 where
  pub value : ℕ
  pub rest : Bytes
  pub in_range : Bool

abbrev pub letter_value : ℕ → ℕ
letter_value c = if leb b'a' c && leb c b'z' then c - b'a' + 10 else 36

-- The value of a digit of any base; 36 for what is none.
unfoldable pub digit_value : ℕ → ℕ
unfolding to_lower
digit_value c = if is_digit c then c - b'0' else letter_value (to_lower c)

unfoldable pub digits_of : ℕ → ℕ → Bytes → ℕ × Bytes
digits_of base n [] = (n, [])
digits_of base n (c ∷ s) =
    if ltb (digit_value c) base then digits_of base (n * base + digit_value c) s else (n, c ∷ s)

-- The sign, and the clamp with ERANGE.
unfoldable pub wrap_unsigned : Bool → ℕ × Bytes → ParsedUnsigned
wrap_unsigned negative (n, s) =
    if ltb (2 ^ 64 - 1) n
    then record { value = 2 ^ 64 - 1; rest = s; in_range = false }
    else record { value = if negative then (2 ^ 64 - n) % 2 ^ 64 else n; rest = s; in_range = true }

abbrev no_number : Bytes → ParsedUnsigned
no_number rest = record { value = 0; rest = rest; in_range = true }

-- At the first digit; with none the end pointer is at `whole`.
unfoldable pub in_base : ℕ → Bytes → Bool → Bytes → ParsedUnsigned
in_base base whole negative [] = no_number whole
in_base base whole negative (c ∷ s) =
    if ltb (digit_value c) base
    then wrap_unsigned negative (digits_of base 0 (c ∷ s))
    else no_number whole

-- Base 0 behind the sign: 0x is base 16, another 0 is base 8. The end pointer of a bare "0x" is
-- at the x.
unfoldable pub any_base : Bytes → Bool → Bytes → ParsedUnsigned
any_base whole negative (c ∷ d ∷ s) =
    if c == b'0'
    then (if to_lower d == b'x'
        then in_base 16 (d ∷ s) negative s
        else in_base 8 whole negative (c ∷ d ∷ s))
    else in_base 10 whole negative (c ∷ d ∷ s)
any_base whole negative s = in_base 10 whole negative s

-- The text behind the sign, and whether it is a minus
unfoldable pub take_sign : Bytes → Bool × Bytes
take_sign [] = (false, [])
take_sign (c ∷ s) =
    if c == b'-' then (true, s) else if c == b'+' then (false, s) else (false, c ∷ s)

unfoldable pub strtoul_any : Bytes → ParsedUnsigned
unfolding take_sign skip
strtoul_any s = let (negative, t) = take_sign (skip is_space s) in any_base s negative t

unfoldable pub strtoul : ℕ → Bytes → ParsedUnsigned
unfolding take_sign skip
strtoul base s = let (negative, t) = take_sign (skip is_space s) in in_base base s negative t

-- The conversion of a long to an int
abbrev pub to_int : ℤ → ℤ
to_int z = let u = to_u64 z % 2 ^ 32 in if ltb u (2 ^ 31) then pos u else negsuc (2 ^ 32 - 1 - u)

-- The conversion of an int to an unsigned int
abbrev pub to_u32 : ℤ → ℕ
to_u32 (pos n) = n % 2 ^ 32
to_u32 (negsuc n) = 2 ^ 32 - 1 - n

-- The decimal digits that printf writes for %u, on fuel: a number below 2^64 has 20 at most.
unfoldable pub digits_onto : ℕ → ℕ → Bytes → Bytes
digits_onto zero n acc = acc
digits_onto (suc fuel) n acc =
    let more = digits_onto fuel (n / 10) ((b'0' + n % 10) ∷ acc) in
    if ltb n 10 then (b'0' + n) ∷ acc else more

unfoldable pub print_nat : ℕ → Bytes
unfolding digits_onto
print_nat n = digits_onto 20 n []

-- %d
unfoldable pub print_int : ℤ → Bytes
unfolding print_nat
print_int (pos n) = print_nat n
print_int (negsuc n) = b'-' ∷ print_nat (n + 1)

-- ===== src/Common/Numbers.antt =====
-- Integers, and strtol with base 10 for a 64-bit long.
use Prim.Native.Nat.{ℕ, zero, suc, ◌+◌, ◌-◌, ◌*◌, ◌^◌}
use mathlib.Core.Bool.{Bool, true, false}
use mathlib.Core.List.{[], ◌∷◌}
use nfs_utils.Common.Tests.{ltb, ◌==◌, if◌then◌else◌}
use nfs_utils.Common.Text.{Bytes, is_digit, is_space, skip}

-- `negsuc n` is -(n + 1).
pub data ℤ : Type 0 where
  pos : ℕ → ℤ
  negsuc : ℕ → ℤ

abbrev pub neg : ℕ → ℤ
neg zero = pos 0
neg (suc n) = negsuc n

-- The conversion of a long to an unsigned long.
abbrev pub to_u64 : ℤ → ℕ
to_u64 (pos n) = n
to_u64 (negsuc n) = 2 ^ 64 - 1 - n

pub record Parsed : Type 0 where
  pub value : ℤ
  pub rest : Bytes
  pub in_range : Bool

-- The digits at the front: their value, and what follows.
unfoldable pub read_digits : ℕ → Bytes → ℕ × Bytes
read_digits n [] = (n, [])
read_digits n (c ∷ s) = if is_digit c then read_digits (n * 10 + (c - 48)) s else (n, c ∷ s)

-- The sign as "is negative", and the clamp with ERANGE.
unfoldable pub signed_long : Bool → ℕ × Bytes → Parsed
signed_long negative (n, s) =
    if negative
    then (if ltb (2 ^ 63) n
        then record { value = negsuc (2 ^ 63 - 1); rest = s; in_range = false }
        else record { value = neg n; rest = s; in_range = true })
    else (if ltb (2 ^ 63 - 1) n
        then record { value = pos (2 ^ 63 - 1); rest = s; in_range = false }
        else record { value = pos n; rest = s; in_range = true })

-- With no digit the end pointer is the start of the text.
unfoldable pub unsigned_part : Bytes → Bool → Bytes → Parsed
unfolding read_digits signed_long
unsigned_part whole negative [] = record { value = pos 0; rest = whole; in_range = true }
unsigned_part whole negative (c ∷ s) =
    if is_digit c
    then signed_long negative (read_digits 0 (c ∷ s))
    else record { value = pos 0; rest = whole; in_range = true }

unfoldable pub sign_part : Bytes → Bytes → Parsed
unfolding unsigned_part
sign_part whole [] = record { value = pos 0; rest = whole; in_range = true }
sign_part whole (c ∷ s) =
    if c == b'-'
    then unsigned_part whole true s
    else if c == b'+'
    then unsigned_part whole false s
    else unsigned_part whole false (c ∷ s)

-- strtol(s, &end, 10); `rest` is the text at `end`.
unfoldable pub strtol : Bytes → Parsed
unfolding sign_part skip
strtol s = sign_part s (skip is_space s)

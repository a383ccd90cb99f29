-- ===== src/Exports/Print/Numbers.antt =====
-- The numbers that printf writes, read back by strtol and strtoul.
use nfs_utils.Common.{
  ℕ, zero, suc, ◌+◌, ◌-◌, ◌*◌, ◌/◌, ◌%◌, ◌^◌, ◌<◌, ◌≡◌, refl, ap, ◌∙◌, Bool, true, false, [], ◌∷◌,
  arith, ltb, ◌==◌, Bytes, is_digit, skip, ℤ, pos, negsuc, to_int, Parsed, read_digits, signed_long,
  unsigned_part, sign_part, strtol, digits_onto, print_nat, print_int, Bool-cases, inl, inr,
  strtoul_any, any_base, in_base, digits_of, wrap_unsigned, take_sign, digit_value, ParsedUnsigned,
  to_lower,
}

-- A digit is read.
digit-step :
    (m d : ℕ) (s : Bytes) → d < 10 → read_digits m ((b'0' + d) ∷ s) ≡ read_digits (m * 10 + d) s
unfolding read_digits
digit-step m d s h = ground arith

first_digit : (n : ℕ) (s : Bytes) → n < 10 → read_digits 0 ((b'0' + n) ∷ s) ≡ read_digits n s
first_digit n s h = digit-step 0 n s h ∙ ap (λ (k : ℕ). read_digits k s) (omega arith)

read_digits-digits_onto :
    (fuel n : ℕ) (acc : Bytes)
    → n < 10 ^ suc fuel
    → read_digits 0 (digits_onto (suc fuel) n acc) ≡ read_digits n acc
unfolding digits_onto
read_digits-digits_onto zero n acc h = ground (arith, first_digit n acc h)
read_digits-digits_onto (suc fuel) n acc h = elim (Bool-cases (ltb n 10)) [
  | inl small ↦ rw small (first_digit n acc (ground arith))
  | inr large ↦ rw large (
      read_digits-digits_onto fuel (n / 10) ((b'0' + n % 10) ∷ acc) (ground arith)
      ∙ digit-step (n / 10) (n % 10) acc (omega arith)
      ∙ ap (λ (k : ℕ). read_digits k acc) (omega arith))
]

-- strtoul in base 10 reads the digits that strtol reads.
digits_of-ten : (n : ℕ) (s : Bytes) → digits_of 10 n s ≡ read_digits n s
unfolding digits_of read_digits digit_value to_lower
digits_of-ten n [] = refl
digits_of-ten n (c ∷ s) = ground (arith, digits_of-ten (n * 10 + (c - b'0')) s)

-- What a printed number starts with: a digit, and 0 only for the number 0.
abbrev StartsLike : ℕ → Bytes → Type 0
StartsLike n [] = ⊥
StartsLike n (c ∷ s) = (is_digit c ≡ true) × ((c ≡ b'0') → (n ≡ 0) × (s ≡ []))

digits_onto-StartsLike :
    (fuel n : ℕ) (acc : Bytes)
    → n < 10 ^ suc fuel
    → (c : ℕ) × (s : Bytes) × (digits_onto (suc fuel) n acc ≡ c ∷ s)
      × (is_digit c ≡ true)
      × ((c ≡ b'0') → (n ≡ 0) × (s ≡ acc))
unfolding digits_onto
digits_onto-StartsLike zero n acc h =
    (b'0' + n, acc, ground arith, ground arith, λ e. (omega arith, refl))
digits_onto-StartsLike (suc fuel) n acc h = elim (Bool-cases (ltb n 10)) [
  | inl small ↦ (b'0' + n, acc, rw small refl, ground arith, λ e. (omega arith, refl))
  | inr large ↦
      let (c, s, e, d, z) =
        digits_onto-StartsLike fuel (n / 10) ((b'0' + n % 10) ∷ acc) (ground arith) in
      (c, s, rw large e, d, λ zero_first. absurd (ground (arith, z zero_first, large)))
]

pub print_nat-StartsLike :
    (n : ℕ)
    → n < 2 ^ 64
    → (c : ℕ) × (s : Bytes) × (print_nat n ≡ c ∷ s)
      × (is_digit c ≡ true)
      × ((c ≡ b'0') → (n ≡ 0) × (s ≡ []))
unfolding print_nat
print_nat-StartsLike n h = digits_onto-StartsLike 19 n [] (omega arith)

read_digits-print_nat : (n : ℕ) → n < 2 ^ 64 → read_digits 0 (print_nat n) ≡ (n, [])
unfolding print_nat read_digits
read_digits-print_nat n h = read_digits-digits_onto 19 n [] (omega arith)

strtol-digit :
    (c : ℕ) (s : Bytes)
    → is_digit c ≡ true
    → strtol (c ∷ s) ≡ signed_long false (read_digits 0 (c ∷ s))
unfolding strtol sign_part unsigned_part skip
strtol-digit c s h = ground (arith, h)

strtol-minus :
    (c : ℕ) (s : Bytes)
    → is_digit c ≡ true
    → strtol (b'-' ∷ c ∷ s) ≡ signed_long true (read_digits 0 (c ∷ s))
unfolding strtol sign_part unsigned_part skip
strtol-minus c s h = ground (arith, h)

-- A 32-bit int
abbrev pub IsInt : ℤ → Type 0
IsInt (pos n) = n < 2 ^ 31
IsInt (negsuc n) = n < 2 ^ 31

abbrev whole : ℤ → Parsed
whole z = record { value = z; rest = []; in_range = true }

-- What printf writes for an int, strtol reads to the end.
pub strtol-print_int : (z : ℤ) → IsInt z → strtol (print_int z) ≡ whole z
unfolding print_int signed_long
strtol-print_int (pos n) h =
    let (c, s, e, d, _) = print_nat-StartsLike n (omega arith) in
    let read = read_digits-print_nat n (omega arith) in
    rw (e, strtol-digit c s d, ← e, read) (ground (arith, h))
strtol-print_int (negsuc n) h =
    let (c, s, e, d, _) = print_nat-StartsLike (n + 1) (omega arith) in
    let read = read_digits-print_nat (n + 1) (omega arith) in
    rw (e, strtol-minus c s d, ← e, read) (ground (arith, h))

pub to_int_lem : (z : ℤ) → IsInt z → to_int z ≡ z
to_int_lem (pos n) h = ground arith
to_int_lem (negsuc n) h = ground arith

digit_value-digit : (c : ℕ) → is_digit c ≡ true → ltb (digit_value c) 10 ≡ true
unfolding digit_value to_lower
digit_value-digit c h = ground (arith, h)

in_base-digit :
    (whole : Bytes) (negative : Bool) (c : ℕ) (s : Bytes)
    → is_digit c ≡ true
    → in_base 10 whole negative (c ∷ s) ≡ wrap_unsigned negative (read_digits 0 (c ∷ s))
unfolding in_base
in_base-digit whole negative c s h =
    rw (digit_value-digit c h) (ap (wrap_unsigned negative) (digits_of-ten 0 (c ∷ s)))

any_base-digit :
    (whole : Bytes) (negative : Bool) (c : ℕ) (s : Bytes)
    → is_digit c ≡ true
    → ((c ≡ b'0') → s ≡ [])
    → any_base whole negative (c ∷ s) ≡ wrap_unsigned negative (read_digits 0 (c ∷ s))
unfolding any_base
any_base-digit whole negative c [] h z = in_base-digit whole negative c [] h
any_base-digit whole negative c (d ∷ s) h z = elim (Bool-cases (c == b'0')) [
  | inl zero_first ↦ absurd (ground (arith, z, zero_first))
  | inr other ↦ rw other (in_base-digit whole negative c (d ∷ s) h)
]

strtoul_any-digit :
    (c : ℕ) (s : Bytes) → is_digit c ≡ true → strtoul_any (c ∷ s) ≡ any_base (c ∷ s) false (c ∷ s)
unfolding strtoul_any skip take_sign
strtoul_any-digit c s h = ground (arith, h)

strtoul_any-minus : (s : Bytes) → strtoul_any (b'-' ∷ s) ≡ any_base (b'-' ∷ s) true s
unfolding strtoul_any skip take_sign
strtoul_any-minus s = refl

abbrev whole_unsigned : ℕ → ParsedUnsigned
whole_unsigned n = record { value = n; rest = []; in_range = true }

strtoul_any-print_nat : (n : ℕ) → n < 2 ^ 64 → strtoul_any (print_nat n) ≡ whole_unsigned n
unfolding wrap_unsigned
strtoul_any-print_nat n h =
    let (c, s, e, d, z) = print_nat-StartsLike n h in
    let read = read_digits-print_nat n h in
    rw (e, strtoul_any-digit c s d, any_base-digit (c ∷ s) false c s d (λ q. (z q).1), ← e, read)
      (ground (arith, h))

strtoul_any-negative :
    (n : ℕ) → n < 2 ^ 64 → 0 < n → strtoul_any (b'-' ∷ print_nat n) ≡ whole_unsigned (2 ^ 64 - n)
unfolding wrap_unsigned
strtoul_any-negative n h p =
    let (c, s, e, d, z) = print_nat-StartsLike n h in
    let read = read_digits-print_nat n h in
    rw
      (
        strtoul_any-minus (print_nat n),
        e,
        any_base-digit (b'-' ∷ c ∷ s) true c s d (λ q. (z q).1),
        ← e,
        read,
      )
      (ground (arith, h))

to_int-large :
    (n : ℕ) → n < 2 ^ 32 → ltb n (2 ^ 31) ≡ false → to_int (pos n) ≡ negsuc (2 ^ 32 - 1 - n)
to_int-large n h large = ground (arith, large)

abbrev printed : ℤ → ParsedUnsigned
printed z = strtoul_any (print_int z)

-- An unsigned int that printf writes with %d, strtoul reads back, up to the 32 bits that are kept.
pub strtoul_any-print_int :
    (n : ℕ)
    → n < 2 ^ 32
    → (v : ℕ) × (strtoul_any (print_int (to_int (pos n))) ≡ whole_unsigned v) × (v % 2 ^ 32 ≡ n)
unfolding print_int
strtoul_any-print_int n h = elim (Bool-cases (ltb n (2 ^ 31))) [
  | inl small ↦ (
    n,
    ap printed (to_int_lem (pos n) (ground (arith, small))) ∙ strtoul_any-print_nat n (omega arith),
    ground arith,
  )
  | inr large ↦ (
    2 ^ 64 - (2 ^ 32 - n),
    ap printed (to_int-large n h large)
        ∙ ap (λ (k : ℕ). strtoul_any (b'-' ∷ print_nat k)) {x = 2 ^ 32 - 1 - n + 1} {y = 2 ^ 32 - n}
            (omega arith)
        ∙ strtoul_any-negative (2 ^ 32 - n) (omega arith) (omega arith),
    omega arith,
  )
]

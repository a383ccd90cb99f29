-- ===== src/Nfs/Qword/Encode.antt =====
-- What qword_add and qword_addhex of support/nfs/cacheio.c write, and when it fits.
use nfs_utils.Common.{
  ℕ, ◌+◌, ◌-◌, ◌<◌, ◌≤◌, ◌≡◌, refl, true, none, some, [], ◌∷◌, ◌++◌, arith, leb, if◌then◌else◌,
  Bytes, length, Bool-cases, inl, inr, ◌≢◌, ◌/◌, ◌%◌, append_assoc, append-nil,
}
use nfs_utils.Nfs.Qword.{
  is_special, octal, add_loop, qword_add, hex_digit, addhex_loop, qword_addhex,
}

-- The word that stands for the text: each byte as it is, or as a backslash and three digits.
abbrev pub quoted : Bytes → Bytes
quoted [] = []
quoted (c ∷ s) = (if is_special c then octal c else c ∷ []) ++ quoted s

add_loop-quoted :
    (s out : Bytes) (len : ℕ)
    → length (quoted s) < len
    → add_loop s out len
      ≡ record { out = (out ++ quoted s) ++ b' ' ∷ []; len = some (len - length (quoted s) - 1) }
unfolding add_loop
add_loop-quoted [] out len h = ground (arith, append-nil out)
add_loop-quoted (c ∷ s) out len h = elim (Bool-cases (is_special c)) [
  | inl special ↦
      let h' : length (quoted s) + 4 < len = omega (arith, rw special at h) in
      rw special (
        ground (
          arith,
          h',
          add_loop-quoted s (out ++ octal c) (len - 4) (omega arith),
          append_assoc out (octal c) (quoted s),
        ))
  | inr other ↦
      let h' : length (quoted s) + 1 < len = omega (arith, rw other at h) in
      rw other (
        ground (
          arith,
          h',
          add_loop-quoted s (out ++ c ∷ []) (len - 1) (omega arith),
          append_assoc out (c ∷ []) (quoted s),
        ))
]

add_loop-short :
    (s out : Bytes) (len : ℕ) → len ≤ length (quoted s) → (add_loop s out len).len ≡ none
unfolding add_loop
add_loop-short [] out len h = ground arith
add_loop-short (c ∷ s) out len h = elim (Bool-cases (is_special c)) [
  | inl special ↦
      let h' : len ≤ length (quoted s) + 4 = omega (arith, rw special at h) in
      rw special (ground (arith, h', add_loop-short s (out ++ octal c) (len - 4)))
  | inr other ↦
      let h' : len ≤ length (quoted s) + 1 = omega (arith, rw other at h) in
      rw other (ground (arith, h', add_loop-short s (out ++ c ∷ []) (len - 1)))
]

-- qword_add appends the quoted text and a space where they fit, and leaves *lp at -1 where they do
-- not; on a buffer that is at -1 it changes nothing.
pub qword_add_lem :
    (out str : Bytes) (len : ℕ)
    → (length (quoted str) < len
        → qword_add (record { out = out; len = some len }) str ≡ record {
          out = (out ++ quoted str) ++ b' ' ∷ [];
          len = some (len - length (quoted str) - 1);
        })
      × (len ≤ length (quoted str)
          → (qword_add (record { out = out; len = some len }) str).len ≡ none)
      × (qword_add (record { out = out; len = none }) str ≡ record { out = out; len = none })
unfolding qword_add
qword_add_lem out str len = (add_loop-quoted str out len, add_loop-short str out len, refl)

-- Two hex digits for each byte.
abbrev pub hexed : Bytes → Bytes
hexed [] = []
hexed (c ∷ s) = hex_digit (c / 16) ∷ hex_digit (c % 16) ∷ hexed s

addhex_loop-hexed :
    (s out : Bytes) (len : ℕ)
    → length (hexed s) < len
    → addhex_loop s out len
      ≡ record { out = (out ++ hexed s) ++ b' ' ∷ []; len = some (len - length (hexed s) - 1) }
unfolding addhex_loop
addhex_loop-hexed [] out len h = ground (arith, append-nil out)
addhex_loop-hexed (c ∷ s) out len h =
    let two = hex_digit (c / 16) ∷ hex_digit (c % 16) ∷ [] in
    let step = addhex_loop-hexed s (out ++ two) (len - 2) (omega arith) in
    let fits : leb 2 len ≡ true = ground arith in
    rw (fits, step, append_assoc out two (hexed s)) (ground arith)

addhex_loop-short :
    (s out : Bytes) (len : ℕ) → len ≤ length (hexed s) → (addhex_loop s out len).len ≡ none
unfolding addhex_loop
addhex_loop-short [] out len h = ground arith
addhex_loop-short (c ∷ s) out len h =
    ground
      (arith, addhex_loop-short s (out ++ hex_digit (c / 16) ∷ hex_digit (c % 16) ∷ []) (len - 2))

-- qword_addhex appends "\x", two digits for each byte and a space where they fit.
pub qword_addhex_lem :
    (out buf : Bytes) (len : ℕ)
    → (length (hexed buf) + 2 < len
        → qword_addhex (record { out = out; len = some len }) buf ≡ record {
          out = ((out ++ b'\\' ∷ b'x' ∷ []) ++ hexed buf) ++ b' ' ∷ [];
          len = some (len - 2 - length (hexed buf) - 1);
        })
      × (buf ≢ []
          → len ≤ length (hexed buf) + 2
          → (qword_addhex (record { out = out; len = some len }) buf).len ≡ none)
unfolding qword_addhex
qword_addhex_lem out buf len = (
  (λ h. ground (arith, addhex_loop-hexed buf (out ++ b'\\' ∷ b'x' ∷ []) (len - 2) (omega arith))),
  λ ne h. too_long buf ne h,
)
  where
    too_long :
        (buf : Bytes)
        → buf ≢ []
        → len ≤ length (hexed buf) + 2
        → (qword_addhex (record { out = out; len = some len }) buf).len ≡ none
    too_long [] ne h = absurd (ne refl)
    too_long (c ∷ s) ne h =
        ground (arith, addhex_loop-short (c ∷ s) (out ++ b'\\' ∷ b'x' ∷ []) (len - 2))

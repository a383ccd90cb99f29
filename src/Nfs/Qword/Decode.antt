-- ===== src/Nfs/Qword/Decode.antt =====
-- qword_get of support/nfs/cacheio.c on what qword_add and qword_addhex write.
use nfs_utils.Common.{
  ℕ, zero, suc, ◌+◌, ◌-◌, ◌/◌, ◌%◌, ◌<◌, dec_lt, ◌≤◌, ◌≡◌, ◌≢◌, refl, ap, true, none, some, [], ◌∷◌,
  ◌++◌, arith, Bytes, length, append_assoc, All, skip, Bool-cases, inl, inr, to_upper,
}
use nfs_utils.Nfs.Qword.{
  is_special, qword_add, qword_addhex, hex_digit, octal_at, get_text, get_word, hex_at, get_hex,
  finish, is_space_byte, qword_get, is_xdigit, hex_value,
}
use nfs_utils.Nfs.Qword.Encode.{quoted, hexed, qword_add_lem, qword_addhex_lem}

abbrev pub AreBytes : Bytes → Type 0
AreBytes = All (λ c. c < 256)

octal_at-octal :
    (c : ℕ) (s : Bytes)
    → c < 256
    → octal_at ((b'0' + c / 64 % 4) ∷ (b'0' + c / 8 % 8) ∷ (b'0' + c % 8) ∷ s) ≡ some (c, s)
unfolding octal_at
octal_at-octal c s h = ground arith

is_xdigit-hex_digit : (d : ℕ) → d < 16 → is_xdigit (hex_digit d) ≡ true
is_xdigit-hex_digit d h = ground arith

hex_value-hex_digit : (d : ℕ) → d < 16 → hex_value (hex_digit d) ≡ d
unfolding to_upper
hex_value-hex_digit d h = ground arith

hex_at-digits :
    (c : ℕ) (s : Bytes)
    → c < 256
    → hex_at (hex_digit (c / 16) ∷ hex_digit (c % 16) ∷ s) ≡ some (c, s)
unfolding hex_at
hex_at-digits c s h =
    let hi = c / 16 in
    let lo = c % 16 in
    rw (is_xdigit-hex_digit hi (omega arith), is_xdigit-hex_digit lo (omega arith))
      (ap (λ (n : ℕ). some (n, s))
        (omega (arith, hex_value-hex_digit hi (omega arith), hex_value-hex_digit lo (omega arith))))

get_text-quoted :
    (s rest : Bytes) (room : ℕ)
    → AreBytes s
    → length s ≤ room
    → get_text room (quoted s ++ (b' ' ∷ rest)) ≡ record { dest = s; at = b' ' ∷ rest }
unfolding get_text
get_text-quoted [] rest zero b h = refl
get_text-quoted [] rest (suc room) b h = refl
get_text-quoted (c ∷ s) rest zero b h = absurd (omega arith)
get_text-quoted (c ∷ s) rest (suc room) b h = elim (Bool-cases (is_special c)) [
  | inl special ↦ rw special (
      ground (
        arith,
        octal_at-octal c (quoted s ++ (b' ' ∷ rest)) b.0,
        get_text-quoted s rest room b.1 (omega arith),
      ))
  | inr other ↦ rw other (ground (arith, other, get_text-quoted s rest room b.1 (omega arith)))
]

hex_at-space : (rest : Bytes) → hex_at (b' ' ∷ rest) ≡ none
unfolding hex_at
hex_at-space [] = refl
hex_at-space (c ∷ rest) = refl

get_hex-hexed :
    (s rest : Bytes) (room : ℕ)
    → AreBytes s
    → length s ≤ room
    → get_hex room (hexed s ++ (b' ' ∷ rest)) ≡ record { dest = s; at = b' ' ∷ rest }
unfolding get_hex
get_hex-hexed [] rest zero b h = refl
get_hex-hexed [] rest (suc room) b h = ground (arith, hex_at-space rest)
get_hex-hexed (c ∷ s) rest zero b h = absurd (omega arith)
get_hex-hexed (c ∷ s) rest (suc room) b h = ground (
  arith,
  hex_at-digits c (hexed s ++ (b' ' ∷ rest)) b.0,
  get_hex-hexed s rest room b.1 (omega arith),
)

finish-space :
    (s rest : Bytes)
    → finish (record { dest = s; at = b' ' ∷ rest })
      ≡ some (record { dest = s; at = skip is_space_byte rest })
unfolding finish
finish-space s rest = refl

get_word-plain :
    (c : ℕ) (t : Bytes) (bufsize : ℕ)
    → c ≢ b'\\'
    → get_word (c ∷ t) bufsize ≡ get_text (bufsize - 1) (c ∷ t)
unfolding get_word
get_word-plain c [] bufsize n = refl
get_word-plain c (d ∷ t) bufsize n = ground arith

get_word-quoted :
    (str rest : Bytes) (bufsize : ℕ)
    → str ≢ []
    → get_word (quoted str ++ (b' ' ∷ rest)) bufsize
      ≡ get_text (bufsize - 1) (quoted str ++ (b' ' ∷ rest))
unfolding get_word
get_word-quoted [] rest bufsize ne = absurd (ne refl)
get_word-quoted (c ∷ s) rest bufsize ne = elim (Bool-cases (is_special c)) [
  | inl special ↦ rw special (ground arith)
  | inr other ↦ rw other (get_word-plain c _ bufsize (λ e. absurd (ground arith)))
]

skip-quoted :
    (str rest : Bytes)
    → str ≢ []
    → skip is_space_byte (quoted str ++ (b' ' ∷ rest)) ≡ quoted str ++ (b' ' ∷ rest)
unfolding skip
skip-quoted [] rest ne = absurd (ne refl)
skip-quoted (c ∷ s) rest ne = elim (Bool-cases (is_special c)) [
  | inl special ↦ rw special refl
  | inr other ↦ rw other (ground arith)
]

qword_get-quoted :
    (str rest : Bytes) (bufsize : ℕ)
    → str ≢ []
    → AreBytes str
    → length str < bufsize
    → qword_get (quoted str ++ (b' ' ∷ rest)) bufsize
      ≡ some (record { dest = str; at = skip is_space_byte rest })
qword_get-quoted str rest bufsize ne bytes room =
    unfold qword_get in
    rw
      (
        skip-quoted str rest ne,
        get_word-quoted str rest bufsize ne,
        get_text-quoted str rest (bufsize - 1) bytes (omega arith),
      )
      (finish-space str rest)

-- A nonempty word of bytes that qword_add has written into an empty buffer with room for it is read
-- back by qword_get with a buffer that is longer than the word, whatever bytes it holds, and the
-- pointer stops at the next word.
pub qword_get-qword_add :
    (str rest : Bytes) (len bufsize m : ℕ)
    → str ≢ []
    → AreBytes str
    → length str < bufsize
    → (qword_add (record { out = []; len = some len }) str).len ≡ some m
    → qword_get ((qword_add (record { out = []; len = some len }) str).out ++ rest) bufsize
      ≡ some (record { dest = str; at = skip is_space_byte rest })
qword_get-qword_add str rest len bufsize m ne bytes room ok =
    let (fits, short, _) = qword_add_lem [] str len in
    elim (dec_lt (length (quoted str)) len) [
      | yes h ↦
          rw (fits h, append_assoc (quoted str) (b' ' ∷ []) rest)
            (qword_get-quoted str rest bufsize ne bytes room)
      | no h ↦ absurd (ground (arith, short (omega arith), ok))
    ]

pub get_word-hexed :
    (buf rest : Bytes) (bufsize : ℕ)
    → AreBytes buf
    → length buf ≤ bufsize
    → qword_get (b'\\' ∷ b'x' ∷ hexed buf ++ (b' ' ∷ rest)) bufsize
      ≡ some (record { dest = buf; at = skip is_space_byte rest })
unfolding qword_get get_word
get_word-hexed buf rest bufsize bytes room =
    rw (get_hex-hexed buf rest bufsize bytes room) (finish-space buf rest)

-- Bytes, one at least, that qword_addhex has written into an empty buffer with room for them are
-- read back by qword_get with a buffer that is at least as long as they are, and the pointer stops
-- at the next word.
pub qword_get-qword_addhex :
    (buf rest : Bytes) (len bufsize m : ℕ)
    → buf ≢ []
    → AreBytes buf
    → length buf ≤ bufsize
    → (qword_addhex (record { out = []; len = some len }) buf).len ≡ some m
    → qword_get ((qword_addhex (record { out = []; len = some len }) buf).out ++ rest) bufsize
      ≡ some (record { dest = buf; at = skip is_space_byte rest })
qword_get-qword_addhex buf rest len bufsize m ne bytes room ok =
    let (fits, short) = qword_addhex_lem [] buf len in
    elim (dec_lt (length (hexed buf) + 2) len) [
      | yes h ↦
          rw (fits h, append_assoc (b'\\' ∷ b'x' ∷ hexed buf) (b' ' ∷ []) rest)
            (get_word-hexed buf rest bufsize bytes room)
      | no h ↦ absurd (ground (arith, short ne (omega arith), ok))
    ]

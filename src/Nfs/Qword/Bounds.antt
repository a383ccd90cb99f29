-- ===== src/Nfs/Qword/Bounds.antt =====
-- What the functions of support/nfs/cacheio.c store, and the buffers that they are given.
use nfs_utils.Common.{
  ℕ, zero, suc, ◌+◌, ◌-◌, ◌<◌, ◌≤◌, ◌≡◌, refl, ap, ◌&&◌, Option, none, some, [], ◌∷◌, ◌++◌, arith,
  ◌==◌, Bytes, length, length-append, skip, Bool-cases, Option-cases, ◌/◌, ◌%◌, inl, inr,
}
use nfs_utils.Nfs.Qword.{
  Buffer, Read, octal, add_loop, qword_add, addhex_loop, addhex_unprefixed, qword_addhex, hex_digit,
  qword_addeol, octal_at, get_text, get_word, hex_at, get_hex, finish, is_space_byte, qword_get,
}
use nfs_utils.Nfs.Qword.Encode.{hexed}
use nfs_utils.Nfs.Qword.Decode.{AreBytes, get_word-hexed}

-- What is left of the buffer: nothing for certain where *lp is negative.
abbrev left : Option ℕ → ℕ
left none = 0
left (some n) = n

-- The call stays inside the buffer, and *lp tells what is left of it.
abbrev pub Within : Buffer → Buffer → Type 0
Within b b' = length b'.out + left b'.len ≤ length b.out + left b.len

add_loop-Within :
    (s out : Bytes) (len : ℕ) → Within (record { out = out; len = some len }) (add_loop s out len)
unfolding add_loop
add_loop-Within [] out len = ground (arith, length-append out (b' ' ∷ []))
add_loop-Within (c ∷ s) out len = ground (
  arith,
  add_loop-Within s (out ++ octal c) (len - 4),
  add_loop-Within s (out ++ c ∷ []) (len - 1),
  length-append out (octal c),
  length-append out (c ∷ []),
)

addhex_loop-Within :
    (s out : Bytes) (len : ℕ)
    → Within (record { out = out; len = some len }) (addhex_loop s out len)
unfolding addhex_loop
addhex_loop-Within [] out len = ground (arith, length-append out (b' ' ∷ []))
addhex_loop-Within (c ∷ s) out len =
    let two = hex_digit (c / 16) ∷ hex_digit (c % 16) ∷ [] in
    ground (arith, addhex_loop-Within s (out ++ two) (len - 2), length-append out two)

addhex_unprefixed-Within :
    (s out : Bytes) (len : ℕ)
    → Within (record { out = out; len = some len }) (addhex_unprefixed s out len)
unfolding addhex_unprefixed
addhex_unprefixed-Within [] out len = ground (arith, length-append out (b' ' ∷ []))
addhex_unprefixed-Within (c ∷ s) out len = omega arith

-- No call of qword_add, qword_addhex or qword_addeol writes past the end of the buffer: what is
-- written and what *lp still offers never exceed what the buffer offered before.
pub qword_Within :
    (b : Buffer) (str : Bytes)
    → Within b (qword_add b str) × Within b (qword_addhex b str) × Within b (qword_addeol b)
unfolding qword_add qword_addhex qword_addeol
qword_Within b str = of_parts b.out b.len
  where
    of_parts :
        (out : Bytes) (len : Option ℕ)
        → Within (record { out = out; len = len }) (qword_add (record { out = out; len = len }) str)
          × Within
              (record { out = out; len = len })
              (qword_addhex (record { out = out; len = len }) str)
          × Within
              (record { out = out; len = len })
              (qword_addeol (record { out = out; len = len }))
    of_parts out none = (omega arith, omega arith, omega arith)
    of_parts out (some len) = (
      add_loop-Within str out len,
      ground (
        arith,
        addhex_loop-Within str (out ++ b'\\' ∷ b'x' ∷ []) (len - 2),
        addhex_unprefixed-Within str out len,
        length-append out (b'\\' ∷ b'x' ∷ []),
      ),
      ground (arith, length-append out (b'\n' ∷ [])),
    )

get_text-room : (room : ℕ) (s : Bytes) → length (get_text room s).dest ≤ room
unfolding get_text
get_text-room zero s = omega arith
get_text-room (suc room) [] = omega arith
get_text-room (suc room) (c ∷ s) = elim (Option-cases (octal_at s)) [
  | inl plain ↦ ground (arith, plain, get_text-room room s)
  | inr ((byte, r), octal) ↦ ground (arith, octal, get_text-room room s, get_text-room room r)
]

get_hex-room : (room : ℕ) (s : Bytes) → length (get_hex room s).dest ≤ room
unfolding get_hex
get_hex-room zero s = omega arith
get_hex-room (suc room) s = elim (Option-cases (hex_at s)) [
  | inl stops ↦ ground (arith, stops)
  | inr ((byte, r), more) ↦ ground (arith, more, get_hex-room room r)
]

get_word-room : (s : Bytes) (bufsize : ℕ) → length (get_word s bufsize).dest ≤ bufsize
unfolding get_word
get_word-room [] bufsize = omega (arith, get_text-room (bufsize - 1) [])
get_word-room (c ∷ []) bufsize = omega (arith, get_text-room (bufsize - 1) (c ∷ []))
get_word-room (c ∷ d ∷ s) bufsize =
    ground (arith, get_hex-room bufsize s, get_text-room (bufsize - 1) (c ∷ d ∷ s))

finish-dest : (r q : Read) → finish r ≡ some q → q.dest ≡ r.dest
unfolding finish
finish-dest r q e = of_at r.at refl
  where
    of_at : (t : Bytes) → r.at ≡ t → q.dest ≡ r.dest
    of_at [] a = ground arith
    of_at (c ∷ s) a = ground arith

-- The bytes that the call stores: those of the word, and the closing NUL.
abbrev pub stored : Read → ℕ
stored r = length r.dest + 1

abbrev pub IsHex : Bytes → Type 0
IsHex s = (t : Bytes) × (s ≡ b'\\' ∷ b'x' ∷ t)

get_word_text :
    (s : Bytes) (bufsize : ℕ) → ¬ IsHex s → length (get_word s bufsize).dest ≤ bufsize - 1
unfolding get_word
get_word_text [] bufsize n = get_text-room (bufsize - 1) []
get_word_text (c ∷ []) bufsize n = get_text-room (bufsize - 1) (c ∷ [])
get_word_text (c ∷ d ∷ s) bufsize n = elim (Bool-cases (c == b'\\' && d == b'x')) [
  | inl hex ↦ absurd (n (s, ground (arith, hex)))
  | inr text ↦ rw text (get_text-room (bufsize - 1) (c ∷ d ∷ s))
]

-- Into a buffer of `bufsize` bytes qword_get stores at most one byte too many.
pub qword_get-stored :
    (bp : Bytes) (bufsize : ℕ) (r : Read) → qword_get bp bufsize ≡ some r → stored r ≤ bufsize + 1
unfolding qword_get
qword_get-stored bp bufsize r e =
    let same = finish-dest (get_word (skip is_space_byte bp) bufsize) r e in
    omega (arith, ap length same, get_word-room (skip is_space_byte bp) bufsize)

-- Where qword_get returns from a word that is not a hex word, with a buffer of one byte at least,
-- what it has stored, with the closing NUL, fits in the buffer.
pub qword_get_text-stored :
    (bp : Bytes) (bufsize : ℕ) (r : Read)
    → qword_get bp bufsize ≡ some r
    → 0 < bufsize
    → ¬ IsHex (skip is_space_byte bp)
    → stored r ≤ bufsize
unfolding qword_get
qword_get_text-stored bp bufsize r e pos n =
    let same = finish-dest (get_word (skip is_space_byte bp) bufsize) r e in
    omega (arith, ap length same, get_word_text (skip is_space_byte bp) bufsize n)

-- A hex word of bytes is accepted by qword_get with a buffer of as many bytes, and its closing NUL
-- is stored behind the buffer.
pub qword_get_overrun :
    (buf rest : Bytes)
    → AreBytes buf
    → (r : Read) × (qword_get (b'\\' ∷ b'x' ∷ hexed buf ++ (b' ' ∷ rest)) (length buf) ≡ some r)
      × ¬ (stored r ≤ length buf)
qword_get_overrun buf rest bytes =
    (_, get_word-hexed buf rest (length buf) bytes (omega arith), λ h. omega arith)

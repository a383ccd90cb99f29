-- ===== src/Nfs/Qword.antt =====
-- support/nfs/cacheio.c: the words of the kernel's cache files.
-- A word is written at *bpp, of whose buffer *lp bytes are left; `out` is the text written so far.
pub mod Encode
pub mod Decode
pub mod Bounds
use nfs_utils.Common.{
  not, ℕ, zero, suc, ◌+◌, ◌-◌, ◌*◌, ◌/◌, ◌%◌, Bool, ◌&&◌, ◌||◌, Option, none, some, [], ◌∷◌, ◌++◌,
  ltb, leb, ◌==◌, if◌then◌else◌, Bytes, skip, is_digit, to_upper,
}

-- `none` is a negative *lp: the buffer was too small.
pub record Buffer : Type 0 where
  pub out : Bytes
  pub len : Option ℕ

-- the first four labels of the switch
abbrev pub is_special : ℕ → Bool
is_special c = c == b' ' || c == b'\t' || c == b'\n' || c == b'\\'

-- '0' + ((c & 0300) >> 6) and so on
abbrev pub octal : ℕ → Bytes
octal c = b'\\' ∷ (b'0' + c / 64 % 4) ∷ (b'0' + c / 8 % 8) ∷ (b'0' + c % 8) ∷ []

-- The loop of qword_add and the end of it. At the NUL a space is added if there is room; a byte
-- that the loop did not get to leaves *lp at -1.
unfoldable pub add_loop : Bytes → Bytes → ℕ → Buffer
add_loop [] out len =
    if ltb len 1
    then record { out = out; len = none }
    else record { out = out ++ b' ' ∷ []; len = some (len - 1) }
add_loop (c ∷ s) out len =
    let escaped = add_loop s (out ++ octal c) (len - 4) in
    let plain = add_loop s (out ++ c ∷ []) (len - 1) in
    if not (ltb 0 len)
    then record { out = out; len = none }
    else if is_special c
    then (if leb 4 len then escaped else record { out = out; len = none })
    else plain

unfoldable pub qword_add : Buffer → Bytes → Buffer
unfolding add_loop
qword_add b str = elim b.len [ none ↦ b | some len ↦ add_loop str b.out len ]

-- '0' + d, and past '9' from 'a' on
abbrev pub hex_digit : ℕ → ℕ
hex_digit d = if leb 10 d then b'0' + d + 39 else b'0' + d

-- The loop of qword_addhex and the end of it.
unfoldable pub addhex_loop : Bytes → Bytes → ℕ → Buffer
addhex_loop [] out len =
    if ltb len 1
    then record { out = out; len = none }
    else record { out = out ++ b' ' ∷ []; len = some (len - 1) }
addhex_loop (c ∷ s) out len =
    let rest = addhex_loop s (out ++ hex_digit (c / 16) ∷ hex_digit (c % 16) ∷ []) (len - 2) in
    if leb 2 len then rest else record { out = out; len = none }

-- Where the prefix does not fit, only an empty buffer is accepted.
unfoldable pub addhex_unprefixed : Bytes → Bytes → ℕ → Buffer
addhex_unprefixed [] out len =
    if ltb len 1
    then record { out = out; len = none }
    else record { out = out ++ b' ' ∷ []; len = some (len - 1) }
addhex_unprefixed (c ∷ s) out len = record { out = out; len = none }

unfoldable pub qword_addhex : Buffer → Bytes → Buffer
unfolding addhex_loop addhex_unprefixed
qword_addhex b buf = elim b.len [
  | none ↦ b
  | some len ↦
      if ltb 2 len
      then addhex_loop buf (b.out ++ b'\\' ∷ b'x' ∷ []) (len - 2)
      else addhex_unprefixed buf b.out len
]

unfoldable pub qword_addeol : Buffer → Buffer
qword_addeol b = elim b.len [
  | none ↦ b
  | some len ↦ if leb len 0 then b else record { out = b.out ++ b'\n' ∷ []; len = some (len - 1) }
]

-- What a read takes: the bytes that were stored, and the text behind them.
pub record Read : Type 0 where
  pub dest : Bytes
  pub at : Bytes

abbrev pub store : ℕ → Read → Read
store c r = record r { dest = c ∷ r.dest }

abbrev pub is_odigit : ℕ → Bool
is_odigit c = is_digit c && leb c b'7'

-- The three octal digits that may follow a backslash: the byte, and the text behind them.
unfoldable pub octal_at : Bytes → Option (ℕ × Bytes)
octal_at (a ∷ b ∷ c ∷ s) =
    if is_odigit a && leb a b'3' && is_odigit b && is_odigit c
    then some (((a - b'0') * 8 + (b - b'0')) * 8 + (c - b'0'), s)
    else none
octal_at _ = none

abbrev pub ends_word : ℕ → Bool
ends_word c = c == b' ' || c == b'\n'

-- The loop over text with octal quoting, with room for so many bytes.
unfoldable pub get_text : ℕ → Bytes → Read
unfolding octal_at
get_text zero s = record { dest = []; at = s }
get_text (suc room) [] = record { dest = []; at = [] }
get_text (suc room) (c ∷ s) =
    let plain = store c (get_text room s) in
    if ends_word c
    then record { dest = []; at = c ∷ s }
    else if c == b'\\'
    then (elim (octal_at s) [ none ↦ plain | some (byte, r) ↦ store byte (get_text room r) ])
    else plain

-- isxdigit
abbrev pub is_xdigit : ℕ → Bool
is_xdigit c = is_digit c || leb b'a' c && leb c b'f' || leb b'A' c && leb c b'F'

abbrev pub hex_value : ℕ → ℕ
hex_value c = if is_digit c then c - b'0' else to_upper c - b'A' + 10

-- The two hex digits at a pointer.
unfoldable pub hex_at : Bytes → Option (ℕ × Bytes)
unfolding to_upper
hex_at (a ∷ b ∷ s) =
    if is_xdigit a && is_xdigit b then some (hex_value a * 16 + hex_value b, s) else none
hex_at _ = none

unfoldable pub get_hex : ℕ → Bytes → Read
unfolding hex_at
get_hex zero s = record { dest = []; at = s }
get_hex (suc room) s = elim (hex_at s) [
  | none ↦ record { dest = []; at = s }
  | some (byte, r) ↦ store byte (get_hex room r)
]

abbrev pub is_space_byte : ℕ → Bool
is_space_byte c = c == b' '

-- The end of qword_get: -1 where the word goes on.
unfoldable pub finish : Read → Option Read
unfolding skip
finish r = elim r.at [
  | [] ↦ some r
  | c ∷ s ↦ if ends_word c then some (record r { at = skip is_space_byte (c ∷ s) }) else none
]

-- The loop behind the leading spaces: hex for up to `bufsize` bytes, text for one less.
unfoldable pub get_word : Bytes → ℕ → Read
unfolding get_text get_hex
get_word (c ∷ d ∷ s) bufsize =
    if c == b'\\' && d == b'x' then get_hex bufsize s else get_text (bufsize - 1) (c ∷ d ∷ s)
get_word s bufsize = get_text (bufsize - 1) s

-- `none` is -1, with *bpp unchanged. Otherwise the length returned is that of `dest`, a NUL is
-- stored behind it, and `at` is the new *bpp.
unfoldable pub qword_get : Bytes → ℕ → Option Read
unfolding skip get_word finish
qword_get bp bufsize = finish (get_word (skip is_space_byte bp) bufsize)

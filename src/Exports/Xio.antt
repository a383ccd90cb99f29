-- ===== src/Exports/Xio.antt =====
-- support/nfs/xio.c: the characters and the words of /etc/exports.
-- A stream is the bytes that are still to come; a byte that is pushed back stands in front of them.
-- `none` is EOF.
pub mod Quoting
use nfs_utils.Common.{
  ℕ, zero, suc, ◌+◌, ◌-◌, ◌*◌, Bool, true, false, not, ◌&&◌, ◌||◌, Option, none, some, [], ◌∷◌, ltb,
  leb, ◌==◌, if◌then◌else◌, Bytes, length, is_digit, is_blank, is_space, skip,
}

-- XFILE: x_line counts from 1, and a line end is counted when it is read.
pub record Xfile : Type 0 where
  pub x_fp : Bytes
  pub x_line : ℕ

abbrev pub xfile : Bytes → Xfile
xfile text = record { x_fp = text; x_line = 1 }

-- Behind a backslash: a line end and the blanks after it are one space.
unfoldable pub escaped : Bytes → ℕ → Option ℕ × Xfile
unfolding skip
escaped [] line = (some b'\\', record { x_fp = []; x_line = line })
escaped (c ∷ s) line =
    if c == b'\n'
    then (some b' ', record { x_fp = skip is_blank s; x_line = line + 1 })
    else (some b'\\', record { x_fp = c ∷ s; x_line = line })

unfoldable pub read_char : Bytes → ℕ → Option ℕ × Xfile
unfolding escaped
read_char [] line = (none, record { x_fp = []; x_line = line })
read_char (c ∷ s) line =
    if c == b'\\'
    then escaped s line
    else if c == b'\n'
    then (some c, record { x_fp = s; x_line = line + 1 })
    else (some c, record { x_fp = s; x_line = line })

unfoldable pub xgetc : Xfile → Option ℕ × Xfile
unfolding read_char
xgetc xfp = read_char xfp.x_fp xfp.x_line

unfoldable pub xungetc : Option ℕ → Xfile → Xfile
xungetc none xfp = xfp
xungetc (some c) xfp = record xfp {
  x_fp = c ∷ xfp.x_fp;
  x_line = if c == b'\n' then xfp.x_line - 1 else xfp.x_line;
}

-- The rest of the line is dropped; the line end is taken and not counted.
unfoldable pub skip_comment : Bytes → Option ℕ × Bytes
skip_comment [] = (none, [])
skip_comment (c ∷ s) = let rest = skip_comment s in if c == b'\n' then (some c, s) else rest

unfoldable pub xskipcomment : Xfile → Option ℕ × Xfile
unfolding skip_comment
xskipcomment xfp =
    let (c, s) = skip_comment xfp.x_fp in (c, record { x_fp = s; x_line = xfp.x_line })

-- strchr(str, c) != NULL: the NUL that ends `str` is found too.
unfoldable pub occurs : ℕ → Bytes → Bool
occurs c [] = c == 0
occurs c (x ∷ s) = x == c || occurs c s

-- What the loop of xskip looks at: a comment stands for what ends it.
unfoldable pub skip_char : Xfile → Option ℕ × Xfile
unfolding xgetc xskipcomment
skip_char xfp =
    let (c, rest) = xgetc xfp in
    elim c [
      | none ↦ (none, rest)
      | some x ↦ if x == b'#' then xskipcomment rest else (some x, rest)
    ]

unfoldable pub skip_loop : ℕ → Bytes → Xfile → Option Xfile
unfolding skip_char xungetc occurs
skip_loop zero str xfp = none
skip_loop (suc fuel) str xfp =
    let (c, rest) = skip_char xfp in
    elim c [
      | none ↦ some rest
      | some x ↦ elim (occurs x str) [
        | true ↦ skip_loop fuel str rest
        | false ↦ some (xungetc (some x) rest)
      ]
    ]

-- Each round takes a byte at least.
unfoldable pub xskip : Xfile → Bytes → Option Xfile
unfolding skip_loop
xskip xfp str = skip_loop (suc (length xfp.x_fp)) str xfp

abbrev pub is_octal : ℕ → Bool
is_octal c = is_digit c && ltb c b'8'

-- strtol(tok+i-3, NULL, 8) on three octal digits
abbrev pub octal_value : ℕ → ℕ → ℕ → ℕ
octal_value a b c = (a - b'0') * 64 + (b - b'0') * 8 + (c - b'0')

-- The token, its last character first, and the variable `c`.
pub record Tok : Type 0 where
  pub tok : Bytes
  pub last : ℕ

-- tok[i++] = c, and the test for an octal escape at the end.
unfoldable pub settle : Bytes → ℕ → Tok
settle (z ∷ y ∷ x ∷ w ∷ tok) c =
    if w == b'\\' && is_octal x && is_octal y && is_octal z
    then (if ltb (octal_value x y z) 256
        then record { tok = octal_value x y z ∷ tok; last = octal_value x y z }
        else record { tok = z ∷ y ∷ x ∷ w ∷ tok; last = octal_value x y z })
    else record { tok = z ∷ y ∷ x ∷ w ∷ tok; last = c }
settle tok c = record { tok = tok; last = c }

unfoldable pub push : ℕ → Bytes → Tok
push c tok = settle (c ∷ tok) c

-- `ended` is the value of `c` behind the loop.
pub record Scan : Type 0 where
  pub token : Bytes
  pub ended : Option ℕ
  pub file : Xfile

-- The loop; `none` is the end of the fuel.
unfoldable pub gettok_loop : ℕ → ℕ → ℕ → Bool → Tok → Xfile → Option Scan
gettok_loop zero sepa len is_quoted t xfp = none
gettok_loop (suc fuel) sepa len is_quoted t xfp =
    let (c, rest) = xgetc xfp in
    elim (ltb (length t.tok) len) [
      | false ↦ some (record { token = t.tok; ended = some t.last; file = xfp })
      | true ↦ elim c [
        | none ↦ some (record { token = t.tok; ended = none; file = rest })
        | some x ↦ elim (is_quoted || not (x == sepa || is_space x)) [
          | false ↦ some (record { token = t.tok; ended = some x; file = rest })
          | true ↦ elim (x == b'"') [
            | true ↦ gettok_loop fuel sepa len (not is_quoted) (record t { last = x }) rest
            | false ↦ gettok_loop fuel sepa len is_quoted (push x t.tok) rest
          ]
        ]
      ]
    ]

unfoldable pub reverse_onto : Bytes → Bytes → Bytes
reverse_onto [] acc = acc
reverse_onto (c ∷ s) acc = reverse_onto s (c ∷ acc)

-- 0, -1, and 1 with the token
pub data Gettok : Type 0 where
  nothing refused : Gettok
  token : Bytes → Gettok

abbrev pub ended_by : ℕ → Option ℕ → Bool
ended_by sepa none = false
ended_by sepa (some c) = c == sepa

unfoldable pub gettok_result : ℕ → ℕ → Scan → Gettok
unfolding reverse_onto
gettok_result sepa len s =
    if length s.token == 0
    then nothing
    else if leb len (length s.token) || not (sepa == 0) && not (ended_by sepa s.ended)
    then refused
    else token (reverse_onto s.token [])

abbrev pub unread_newline : Scan → Xfile
unread_newline s = if ended_by b'\n' s.ended then xungetc s.ended s.file else s.file

unfoldable pub xgettok : Xfile → ℕ → ℕ → Option (Gettok × Xfile)
unfolding gettok_result xungetc
xgettok xfp sepa len =
    elim (gettok_loop (suc (length xfp.x_fp)) sepa len false (record { tok = []; last = 0 }) xfp) [
      | none ↦ none
      | some s ↦ some (gettok_result sepa len s, unread_newline s)
    ]

-- ===== src/Exports/Xio/Quoting.antt =====
-- xgettok of support/nfs/xio.c on a path that fprintpath of support/nfs/exports.c has written.
use nfs_utils.Common.{
  ℕ, zero, suc, ◌+◌, ◌-◌, ◌/◌, ◌%◌, ◌<◌, ◌≤◌, ◌≡◌, ◌≢◌, refl, ap, subst, ◌∙◌, true, false, not,
  ◌&&◌, ◌||◌, Option, none, some, [], ◌∷◌, ◌++◌, arith, ltb, ◌==◌, Bytes, length, is_space,
  Bool-cases, inl, inr, append-nil, length-append,
}
use nfs_utils.Exports.Print.{is_quoted, octal, fprintpath}
use nfs_utils.Exports.Xio.{
  Xfile, xgetc, read_char, escaped, is_octal, Tok, settle, push, Scan, gettok_loop, reverse_onto,
  Gettok, token, gettok_result, unread_newline, xgettok, xungetc,
}

abbrev pub at : Bytes → ℕ → Xfile
at s n = record { x_fp = s; x_line = n }

in_range : (a b : ℕ) → a < b → ltb a b ≡ true
in_range a b h = ground arith

-- A byte that goes into the token
abbrev IsPart : ℕ → Type 0
IsPart x = ((false || not (x == 0 || is_space x)) ≡ true) × ((x == b'"') ≡ false)

gettok_step :
    (fuel len x : ℕ) (t : Tok) (xfp rest : Xfile)
    → xgetc xfp ≡ (some x, rest)
    → length t.tok < len
    → IsPart x
    → gettok_loop (suc fuel) 0 len false t xfp ≡ gettok_loop fuel 0 len false (push x t.tok) rest
unfolding gettok_loop
gettok_step fuel len x t xfp rest e short part =
    rw (in_range (length t.tok) len short, e, part.0, part.1, gettok_loop)
      (ap (λ (q : Option ℕ × Xfile). gettok_loop fuel 0 len false (push x t.tok) q.1) e)

-- A byte that fprintpath writes as it is
abbrev IsPlainByte : ℕ → Type 0
IsPlainByte c = is_quoted c ≡ false

plain-IsPart : (c : ℕ) → IsPlainByte c → IsPart c
plain-IsPart c h = (ground (arith, h), ground (arith, h))

xgetc-plain : (c : ℕ) (s : Bytes) (n : ℕ) → IsPlainByte c → xgetc (at (c ∷ s) n) ≡ (some c, at s n)
unfolding xgetc read_char
xgetc-plain c s n h = ground (arith, h)

xgetc-backslash :
    (c : ℕ) (s : Bytes) (n : ℕ)
    → c ≢ b'\n'
    → xgetc (at (b'\\' ∷ c ∷ s) n) ≡ (some b'\\', at (c ∷ s) n)
unfolding xgetc read_char escaped
xgetc-backslash c s n h = ground (arith, h)

-- The token so far, last byte first, does not end in a backslash and two octal digits.
abbrev IsFree : Bytes → ℕ → Type 0
IsFree (y ∷ x ∷ w ∷ tok) z = (w == b'\\' && is_octal x && is_octal y && is_octal z) ≡ false
IsFree _ z = Unit

push-free : (z : ℕ) (tok : Bytes) → IsFree tok z → push z tok ≡ record { tok = z ∷ tok; last = z }
unfolding push settle
push-free z [] h = refl
push-free z (y ∷ []) h = refl
push-free z (y ∷ x ∷ []) h = refl
push-free z (y ∷ x ∷ w ∷ tok) h = rw h refl

-- A byte below 128 from its three octal digits
push-octal :
    (c : ℕ) (tok : Bytes)
    → c < 128
    → push (b'0' + c % 8) ((b'0' + c / 8 % 8) ∷ (b'0' + c / 64) ∷ b'\\' ∷ tok)
      ≡ record { tok = c ∷ tok; last = c }
unfolding push settle
push-octal c tok h = ground arith

IsFree-backslash : (tok : Bytes) → IsFree tok b'\\'
IsFree-backslash [] = tt
IsFree-backslash (y ∷ []) = tt
IsFree-backslash (y ∷ x ∷ []) = tt
IsFree-backslash (y ∷ x ∷ w ∷ tok) = ground arith

IsFree-first : (tok : Bytes) (z : ℕ) → IsFree (b'\\' ∷ tok) z
IsFree-first [] z = tt
IsFree-first (x ∷ []) z = tt
IsFree-first (x ∷ w ∷ tok) z = ground arith

IsFree-second : (tok : Bytes) (y z : ℕ) → IsFree (y ∷ b'\\' ∷ tok) z
IsFree-second [] y z = tt
IsFree-second (w ∷ tok) y z = ground arith

digit-IsPlainByte : (d : ℕ) → d < 8 → IsPlainByte (b'0' + d)
digit-IsPlainByte d h = ground arith

plain_step :
    (c : ℕ) (s : Bytes) (n fuel len : ℕ) (t : Tok)
    → is_quoted c ≡ false
    → IsFree t.tok c
    → length t.tok < len
    → gettok_loop (suc fuel) 0 len false t (at (c ∷ s) n)
      ≡ gettok_loop fuel 0 len false (record { tok = c ∷ t.tok; last = c }) (at s n)
plain_step c s n fuel len t q free room =
    gettok_step fuel len c t (at (c ∷ s) n) (at s n) (xgetc-plain c s n q) room (plain-IsPart c q)
    ∙ ap (λ (u : Tok). gettok_loop fuel 0 len false u (at s n)) (push-free c t.tok free)

quoted_step :
    (c : ℕ) (s : Bytes) (n fuel len : ℕ) (t : Tok)
    → is_quoted c ≡ true
    → length t.tok + 3 < len
    → gettok_loop (suc (suc (suc (suc fuel)))) 0 len false t (at (octal c ++ s) n)
      ≡ gettok_loop fuel 0 len false (record { tok = c ∷ t.tok; last = c }) (at s n)
quoted_step c s n fuel len t q room =
    let low : c < 128 = ground (arith, q) in
    let x = b'0' + c / 64 in
    let y = b'0' + c / 8 % 8 in
    let z = b'0' + c % 8 in
    let t1 : Tok = record { tok = b'\\' ∷ t.tok; last = b'\\' } in
    let t2 : Tok = record { tok = x ∷ b'\\' ∷ t.tok; last = x } in
    let t3 : Tok = record { tok = y ∷ x ∷ b'\\' ∷ t.tok; last = y } in
    gettok_step (suc (suc (suc fuel))) len b'\\' t (at (octal c ++ s) n) (at (x ∷ y ∷ z ∷ s) n)
      (xgetc-backslash x (y ∷ z ∷ s) n (ground arith)) (omega arith) (refl, refl)
    ∙ ap (λ (u : Tok). gettok_loop (suc (suc (suc fuel))) 0 len false u (at (x ∷ y ∷ z ∷ s) n))
        (push-free b'\\' t.tok (IsFree-backslash t.tok))
    ∙ plain_step x (y ∷ z ∷ s) n (suc (suc fuel)) len t1 (digit-IsPlainByte (c / 64) (omega arith))
        (IsFree-first t.tok x) (omega arith)
    ∙ plain_step y (z ∷ s) n (suc fuel) len t2 (digit-IsPlainByte (c / 8 % 8) (omega arith))
        (IsFree-second t.tok x y) (omega arith)
    ∙ gettok_step fuel len z t3 (at (z ∷ s) n) (at s n)
        (xgetc-plain z s n (digit-IsPlainByte (c % 8) (omega arith))) (omega arith)
        (plain-IsPart z (digit-IsPlainByte (c % 8) (omega arith)))
    ∙ ap (λ (u : Tok). gettok_loop fuel 0 len false u (at s n)) (push-octal c t.tok low)

-- No byte ends a backslash with three octal digits, `tok` being what stands in front, last byte first.
abbrev pub Unescaped : Bytes → Bytes → Type 0
Unescaped tok [] = Unit
Unescaped tok (c ∷ s) = IsFree tok c × Unescaped (c ∷ tok) s

abbrev read_to : ℕ → Bytes → Xfile → Option Scan
read_to stop tok f = some (record { token = tok; ended = some stop; file = f })

-- The loop takes the byte `stop` and goes no further; `f` is the file behind it.
abbrev pub EndsAt : ℕ → Bytes → ℕ → Xfile → Type 0
EndsAt stop rest n f =
    (xgetc (at (stop ∷ rest) n) ≡ (some stop, f))
    × ((false || not (stop == 0 || is_space stop)) ≡ false)

loop_ends :
    (fuel len n stop : ℕ) (t : Tok) (rest : Bytes) (f : Xfile)
    → EndsAt stop rest n f
    → length t.tok < len
    → gettok_loop (suc fuel) 0 len false t (at (stop ∷ rest) n) ≡ read_to stop t.tok f
unfolding gettok_loop
loop_ends fuel len n stop t rest f ends h =
    rw (in_range (length t.tok) len h, ends.0, ends.1, gettok_loop)
      (ap (λ (q : Option ℕ × Xfile). some (record { token = t.tok; ended = some stop; file = q.1 }))
        ends.0)

four : (fuel : ℕ) → 4 ≤ fuel → suc (suc (suc (suc (fuel - 4)))) ≡ fuel
four fuel h = omega arith

one : (fuel : ℕ) → 1 ≤ fuel → suc (fuel - 1) ≡ fuel
one fuel h = omega arith

quoted_enough :
    (c : ℕ) (s : Bytes) (fuel : ℕ)
    → is_quoted c ≡ true
    → length (fprintpath (c ∷ s)) < fuel
    → (4 ≤ fuel) × (length (fprintpath s) < fuel - 4)
unfolding fprintpath
quoted_enough c s fuel q h = let h' = rw q at h in (omega arith, omega arith)

plain_enough :
    (c : ℕ) (s : Bytes) (fuel : ℕ)
    → is_quoted c ≡ false
    → length (fprintpath (c ∷ s)) < fuel
    → (1 ≤ fuel) × (length (fprintpath s) < fuel - 1)
unfolding fprintpath
plain_enough c s fuel q h = let h' = rw q at h in (omega arith, omega arith)

gettok_loop-fprintpath :
    (s rest : Bytes) (n fuel len stop : ℕ) (t : Tok) (g : Xfile)
    → EndsAt stop rest n g
    → length t.tok + length s + 2 < len
    → Unescaped t.tok s
    → length (fprintpath s) < fuel
    → gettok_loop fuel 0 len false t (at (fprintpath s ++ (stop ∷ rest)) n)
      ≡ read_to stop (reverse_onto s t.tok) g
unfolding fprintpath reverse_onto
gettok_loop-fprintpath [] rest n zero len stop t g ends room free enough = absurd (omega arith)
gettok_loop-fprintpath [] rest n (suc fuel) len stop t g ends room free enough =
    loop_ends fuel len n stop t rest g ends (omega arith)
gettok_loop-fprintpath (c ∷ s) rest n fuel len stop t g ends room free enough =
    let u : Tok = record { tok = c ∷ t.tok; last = c } in
    elim (Bool-cases (is_quoted c)) [
      | inl q ↦
          let f = fuel - 4 in
          rw q (
            subst
              (λ (k : ℕ).
                gettok_loop k 0 len false t (at (octal c ++ (fprintpath s ++ (stop ∷ rest))) n)
                ≡ read_to stop (reverse_onto s (c ∷ t.tok)) g)
              (four fuel (quoted_enough c s fuel q enough).0)
              (quoted_step c (fprintpath s ++ (stop ∷ rest)) n f len t q (omega arith)
                ∙ gettok_loop-fprintpath s rest n f len stop u g ends (omega arith) free.1
                    (quoted_enough c s fuel q enough).1))
      | inr p ↦
          let f = fuel - 1 in
          rw p (
            subst
              (λ (k : ℕ).
                gettok_loop k 0 len false t (at (c ∷ (fprintpath s ++ (stop ∷ rest))) n)
                ≡ read_to stop (reverse_onto s (c ∷ t.tok)) g)
              (one fuel (plain_enough c s fuel p enough).0)
              (plain_step c (fprintpath s ++ (stop ∷ rest)) n f len t p free.0 (omega arith)
                ∙ gettok_loop-fprintpath s rest n f len stop u g ends (omega arith) free.1
                    (plain_enough c s fuel p enough).1))
    ]

reverse_onto-twice : (s a b : Bytes) → reverse_onto (reverse_onto s a) b ≡ reverse_onto a (s ++ b)
unfolding reverse_onto
reverse_onto-twice [] a b = refl
reverse_onto-twice (c ∷ s) a b = reverse_onto-twice s (c ∷ a) b

length-reverse_onto : (s a : Bytes) → length (reverse_onto s a) ≡ length s + length a
unfolding reverse_onto
length-reverse_onto [] a = omega arith
length-reverse_onto (c ∷ s) a = omega (arith, length-reverse_onto s (c ∷ a))

gettok_result-token :
    (path : Bytes) (len stop : ℕ) (f : Xfile)
    → path ≢ []
    → length path < len
    → gettok_result 0 len (record { token = reverse_onto path []; ended = some stop; file = f })
      ≡ token path
unfolding gettok_result
gettok_result-token [] len stop f ne room = absurd (ne refl)
gettok_result-token (c ∷ s) len stop f ne room =
    let back : reverse_onto (reverse_onto (c ∷ s) []) [] ≡ c ∷ s =
      reverse_onto-twice (c ∷ s) [] [] ∙ append-nil (c ∷ s) in
    rw (back, length-reverse_onto (c ∷ s) []) (ground (arith, room))

xgettok-ends :
    (path rest : Bytes) (n len stop : ℕ) (f : Xfile)
    → EndsAt stop rest n f
    → path ≢ []
    → Unescaped [] path
    → length path + 2 < len
    → xgettok (at (fprintpath path ++ (stop ∷ rest)) n) 0 len
      ≡ some (
        token path,
        unread_newline (record { token = reverse_onto path []; ended = some stop; file = f }),
      )
unfolding xgettok
xgettok-ends path rest n len stop f ends ne free room =
    let whole = fprintpath path ++ (stop ∷ rest) in
    let scan : Scan = record { token = reverse_onto path []; ended = some stop; file = f } in
    ap
      (λ (r : Option Scan). elim r [
        | none ↦ none
        | some s ↦ some (gettok_result 0 len s, unread_newline s)
      ])
      (gettok_loop-fprintpath path rest n (suc (length whole)) len stop
        (record { tok = []; last = 0 }) f ends (omega arith) free
        (omega (arith, length-append (fprintpath path) (stop ∷ rest))))
    ∙ ap (λ (r : Gettok). some (r, unread_newline scan))
        (gettok_result-token path len stop f ne (omega arith))

pub xgettok-fprintpath :
    (path rest : Bytes) (n len : ℕ)
    → path ≢ []
    → Unescaped [] path
    → length path + 2 < len
    → xgettok (at (fprintpath path ++ (b'\t' ∷ rest)) n) 0 len ≡ some (token path, at rest n)
unfolding xgetc read_char
xgettok-fprintpath path rest n len ne free room =
    xgettok-ends path rest n len b'\t' (at rest n) (refl, refl) ne free room

-- The end of the line is left in the file.
pub xgettok-line :
    (s rest : Bytes) (n len : ℕ)
    → s ≢ []
    → Unescaped [] s
    → length s + 2 < len
    → xgettok (at (fprintpath s ++ (b'\n' ∷ rest)) n) 0 len ≡ some (token s, at (b'\n' ∷ rest) n)
unfolding xgetc read_char xungetc
xgettok-line s rest n len ne free room =
    xgettok-ends s rest n len b'\n' (at rest (n + 1)) (refl, refl) ne free room
    ∙ ap (λ (k : ℕ). some (token s, at (b'\n' ∷ rest) k)) (omega arith)

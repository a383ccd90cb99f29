-- ===== src/Nfs/Wildmat.antt =====
-- support/nfs/wildmat.c: shell patterns.
-- A char is signed, as on x86; toupper is that of the "C" locale. `overrun` stands for a read past
-- the NUL that ends the pattern. Every call of DoMatch is on a shorter pattern, so the fuel bounds
-- the length of the pattern.
pub mod Spec
pub mod Classes
pub mod Steps
pub mod Cases
pub mod Closed
pub mod Verdict
use nfs_utils.Common.{
  ℕ, zero, suc, ◌+◌, ◌%◌, Bool, true, false, not, ◌&&◌, ◌||◌, Option, none, some, [], ◌∷◌, leb,
  ◌==◌, if◌then◌else◌, Bytes, length, skip, to_upper, str_eq,
}

-- TRUE, FALSE, ABORT
pub data Outcome : Type 0 where
  matched mismatched abort overrun : Outcome

-- a <= b of two signed chars
abbrev pub char_le : ℕ → ℕ → Bool
char_le a b = leb ((a + 128) % 256) ((b + 128) % 256)

abbrev pub upper_eq : ℕ → ℕ → Bool
upper_eq a b = to_upper a == to_upper b

-- How the loop over a character class ends: at the `]`, with the pattern behind it, at the NUL, or
-- past it; with the value of `matched`.
pub data ClassEnd : Type 0 where
  closed : Bool → Bytes → ClassEnd
  unterminated : Bool → ClassEnd
  past_end : ClassEnd

-- for (last = *p; *++p && *p != ']'; last = *p), on the pattern from p[1] on
unfoldable pub class_loop : ℕ → ℕ → Bool → Bytes → ClassEnd
class_loop t last m [] = unterminated m
class_loop t last m (c ∷ []) =
    if c == b']'
    then closed m []
    else if c == b'-'
    then past_end
    else unterminated (m || upper_eq t c)
class_loop t last m (c ∷ d ∷ p) =
    let range = class_loop t d (m || char_le t d && char_le last t) p in
    let single = class_loop t c (m || upper_eq t c) (d ∷ p) in
    if c == b']' then closed m (d ∷ p) else if c == b'-' && not (d == b']') then range else single

-- A `]` or `-` that stands first in the class is a member; `at` is the byte before.
unfoldable pub class_members : ℕ → ℕ → Bytes → ClassEnd
unfolding class_loop
class_members t at [] = class_loop t at false []
class_members t at (c ∷ p) =
    if c == b']' || c == b'-'
    then class_loop t c (upper_eq c t) p
    else class_loop t at false (c ∷ p)

abbrev pub accept : Bool → ClassEnd → ClassEnd
accept reverse (closed m p) = closed (if m then not reverse else reverse) p
accept reverse (unterminated m) = unterminated (if m then not reverse else reverse)
accept reverse past_end = past_end

-- The case '[': whether the byte is accepted (matched != reverse), and the pattern behind.
unfoldable pub class_of : ℕ → Bytes → ClassEnd
unfolding class_members
class_of t [] = accept false (class_members t b'[' [])
class_of t (c ∷ p) =
    if c == b'^'
    then accept true (class_members t b'^' p)
    else accept false (class_members t b'[' (c ∷ p))

-- while (*text) if ((matched = DoMatch(text++, p)) != FALSE) return matched; return ABORT;
unfoldable pub star_loop : (Bytes → Option Outcome) → Bytes → Option Outcome
star_loop match [] = some abort
star_loop match (c ∷ text) = elim (match (c ∷ text)) [
  | none ↦ none
  | some r ↦ (elim r [ mismatched ↦ star_loop match text | other ↦ some other ])
]

-- Behind the stars: a trailing star matches everything.
unfoldable pub star_case : (Bytes → Bytes → Option Outcome) → Bytes → Bytes → Option Outcome
unfolding star_loop
star_case match text [] = some matched
star_case match text (c ∷ p) = star_loop (λ t. match t (c ∷ p)) text

-- The default case; `rest` goes on with the loop.
unfoldable pub literal_case :
    (Bytes → Bytes → Option Outcome) → ℕ → Bytes → ℕ → Bytes → Option Outcome
literal_case match t text c p = if upper_eq t c then match text p else some mismatched

-- The case '\\'. At the end of the pattern the byte is compared with the NUL, and differs.
unfoldable pub quoted_case : (Bytes → Bytes → Option Outcome) → ℕ → Bytes → Bytes → Option Outcome
unfolding literal_case
quoted_case match t text [] = some mismatched
quoted_case match t text (c ∷ p) = literal_case match t text c p

unfoldable pub class_case : (Bytes → Bytes → Option Outcome) → Bytes → ClassEnd → Option Outcome
class_case match text (closed hit p) = if hit then match text p else some mismatched
class_case match text (unterminated hit) = if hit then some overrun else some mismatched
class_case match text past_end = some overrun

-- The switch on the byte *p, where *text is t.
unfoldable pub byte_case : (Bytes → Bytes → Option Outcome) → ℕ → Bytes → ℕ → Bytes → Option Outcome
unfolding literal_case quoted_case class_case class_of
byte_case match t text c p =
    if c == b'\\'
    then quoted_case match t text p
    else if c == b'?'
    then match text p
    else if c == b'['
    then class_case match text (class_of t p)
    else literal_case match t text c p

abbrev pub is_star : ℕ → Bool
is_star c = c == b'*'

-- `none` means that the fuel ran out.
unfoldable pub do_match : ℕ → Bytes → Bytes → Option Outcome
unfolding star_case byte_case skip
do_match zero text p = none
do_match (suc f) [] [] = some matched
do_match (suc f) (t ∷ text) [] = some mismatched
do_match (suc f) [] (c ∷ p) =
    if is_star c then star_case (do_match f) [] (skip is_star p) else some abort
do_match (suc f) (t ∷ text) (c ∷ p) =
    if is_star c
    then star_case (do_match f) (t ∷ text) (skip is_star p)
    else byte_case (do_match f) t text c p

-- C leaves open what comes of a read past the end: that is `past`.
abbrev pub is_match : Bool → Option Outcome → Bool
is_match past none = false
is_match past (some matched) = true
is_match past (some overrun) = past
is_match past (some _) = false

-- with OPTIMIZE_JUST_STAR; `beyond` gives the result for a text and a pattern that DoMatch reads
-- past the end of.
unfoldable pub wildmat : (Bytes → Bytes → Bool) → Bytes → Bytes → Bool
unfolding do_match str_eq
wildmat beyond text p =
    if str_eq p (b'*' ∷ [])
    then true
    else is_match (beyond text p) (do_match (suc (length p)) text p)

-- ===== src/Common/Text.antt =====
-- C strings as lists of byte values without the closing NUL, and the functions of <string.h> and
-- <ctype.h> (in the "C" locale) that the program calls on them.
use Prim.Native.Nat.{ℕ, ◌+◌, ◌-◌}
use Prim.Native.Char.{code}
use Prim.Native.String.{String}
use mathlib.Core.Path.{◌≡◌, refl}
use mathlib.Core.Logic.{◌↔◌, ◌≢◌}
use mathlib.Core.Bool.{Bool, true, false, ◌&&◌, ◌||◌}
use mathlib.Core.Option.{Option, none, some}
use mathlib.Core.List.{List, [], ◌∷◌, ◌++◌, map}
use native.Mathlib.Omega.{arith}
use nfs_utils.Common.Tests.{leb, ◌==◌, if◌then◌else◌}
use nfs_utils.Common.Lists.{All}

abbrev pub Bytes : Type 0
Bytes = List ℕ

-- The code points of a literal: its bytes, since every literal here is ASCII.
abbrev pub codes : String → Bytes
codes String.[] = []
codes (String.◌∷◌ c s) = code c ∷ codes s

-- The byte at a pointer: NUL at the end of the string.
abbrev pub peek : Bytes → ℕ
peek [] = 0
peek (c ∷ s) = c

-- strcmp(a, b) == 0
unfoldable pub str_eq : Bytes → Bytes → Bool
str_eq [] [] = true
str_eq (x ∷ xs) (y ∷ ys) = x == y && str_eq xs ys
str_eq _ _ = false

pub str_eq_iff : (a b : Bytes) → (str_eq a b ≡ true) ↔ (a ≡ b)
unfolding str_eq
str_eq_iff (x ∷ a) (y ∷ b) = ground (arith, str_eq_iff a b)
str_eq_iff _ _ = ground arith

pub str_eq_refl : (a : Bytes) → str_eq a a ≡ true
str_eq_refl a = (str_eq_iff a a).1 refl

-- strncmp(s, p, strlen(p)) == 0, for the prefix p
unfoldable pub starts : Bytes → Bytes → Bool
starts [] s = true
starts (x ∷ p) [] = false
starts (x ∷ p) (y ∷ s) = x == y && starts p s

-- strchr(s, c) for c other than NUL: what stands before the first c, and what follows it.
unfoldable pub cut : ℕ → Bytes → Option (Bytes × Bytes)
cut c [] = none
cut c (x ∷ s) =
    if x == c then some ([], s) else elim (cut c s) [ none ↦ none | some (a, b) ↦ some (x ∷ a, b) ]

abbrev pub Lacks : ℕ → Bytes → Type 0
Lacks c = All (λ x. x ≢ c)

-- The same as a test
abbrev pub lacks : ℕ → Bytes → Bool
lacks c [] = true
lacks c (x ∷ s) = if x == c then false else lacks c s

pub lacks-Lacks : (c : ℕ) (s : Bytes) → lacks c s ≡ true → Lacks c s
lacks-Lacks c [] h = tt
lacks-Lacks c (x ∷ s) h = ground (arith, lacks-Lacks c s)

pub cut-none : (c : ℕ) (s : Bytes) → cut c s ≡ none → Lacks c s
unfolding cut
cut-none c [] h = tt
cut-none c (x ∷ s) h = ground (arith, cut-none c s)

pub cut-some : (c : ℕ) (s a b : Bytes) → cut c s ≡ some (a, b) → (s ≡ a ++ (c ∷ b)) × Lacks c a
unfolding cut
cut-some c [] a b h = absurd (ground arith)
cut-some c (x ∷ s) [] b h = ground arith
cut-some c (x ∷ s) (y ∷ a) b h = ground (arith, cut-some c s a b)

pub cut-Lacks : (c : ℕ) (a b : Bytes) → Lacks c a → cut c (a ++ (c ∷ b)) ≡ some (a, b)
unfolding cut
cut-Lacks c [] b h = ground arith
cut-Lacks c (x ∷ a) b h = ground (arith, cut-Lacks c a b h.1)

pub cut-Lacks-none : (c : ℕ) (a : Bytes) → Lacks c a → cut c a ≡ none
unfolding cut
cut-Lacks-none c [] h = refl
cut-Lacks-none c (x ∷ a) h = ground (arith, cut-Lacks-none c a h.1)

abbrev pub is_digit : ℕ → Bool
is_digit c = leb b'0' c && leb c b'9'

-- isblank
abbrev pub is_blank : ℕ → Bool
is_blank c = c == b' ' || c == b'\t'

-- isspace: also \v and \f
abbrev pub is_space : ℕ → Bool
is_space c = c == b' ' || leb 9 c && leb c 13

unfoldable pub to_upper : ℕ → ℕ
to_upper c = if leb b'a' c && leb c b'z' then c - 32 else c

unfoldable pub to_lower : ℕ → ℕ
to_lower c = if leb b'A' c && leb c b'Z' then c + 32 else c

-- strcasecmp(a, b) == 0
unfoldable pub case_eq : Bytes → Bytes → Bool
unfolding str_eq to_lower
case_eq a b = str_eq (map to_lower a) (map to_lower b)

pub case_eq_iff : (a b : Bytes) → (case_eq a b ≡ true) ↔ (map to_lower a ≡ map to_lower b)
case_eq_iff a b = unfold case_eq in str_eq_iff (map to_lower a) (map to_lower b)

-- Skip a leading run of the bytes that pass the test.
unfoldable pub skip : (ℕ → Bool) → Bytes → Bytes
skip p [] = []
skip p (c ∷ s) = if p c then skip p s else c ∷ s

-- ===== src/Mount/Token/Words.antt =====
-- What a token of utils/mount/token.c is, said without the tokenizer.
use nfs_utils.Common.{
  ℕ, Bool, true, false, not, ◌&&◌, ◌||◌, ◌⊎◌, inl, inr, ◌≡◌, ◌≢◌, refl, ap, [], ◌∷◌, ◌++◌, arith,
  ◌==◌, Bytes, Bool-cases,
}
use nfs_utils.Mount.Token.{scan, toggle_quote}

-- From the quote state given, every delimiter stands in quotes and the quotes are closed.
abbrev pub Closed : ℕ → Bool → Bytes → Type 0
Closed d quoted [] = quoted ≡ false
Closed d quoted (c ∷ s) =
    ((toggle_quote c quoted ≡ true) ⊎ (c ≢ d)) × Closed d (toggle_quote c quoted) s

-- What may follow a token: the end, or the delimiter.
abbrev pub Ends : ℕ → Bytes → Type 0
Ends d [] = Unit
Ends d (c ∷ s) = c ≡ d

pub scan-Closed :
    (d : ℕ) (quoted : Bool) (w rest : Bytes)
    → d ≢ b'"'
    → Closed d quoted w
    → Ends d rest
    → scan d quoted (w ++ rest) ≡ record { passed = w; at = rest; quote_seen = false }
unfolding scan
scan-Closed d quoted [] [] n h e = ground arith
scan-Closed d quoted [] (c ∷ rest) n h e = ground arith
scan-Closed d quoted (c ∷ w) rest n h e =
    ground (arith, scan-Closed d (toggle_quote c quoted) w rest n h.1 e)

-- The scan splits the text; where no quote is open, what it has passed is closed.
pub scan_splits :
    (d : ℕ) (quoted : Bool) (s : Bytes)
    → d ≢ b'"'
    → ((scan d quoted s).passed ++ (scan d quoted s).at ≡ s)
      × Ends d (scan d quoted s).at
      × ((scan d quoted s).quote_seen ≡ false → Closed d quoted (scan d quoted s).passed)
unfolding scan
scan_splits d quoted [] n = (refl, tt, λ h. h)
scan_splits d quoted (c ∷ s) n = elim (Bool-cases (not (toggle_quote c quoted) && c == d)) [
  | inl ends ↦ rw ends (refl, ground arith, λ h. ground arith)
  | inr more ↦
      let (eq, e, closed) = scan_splits d (toggle_quote c quoted) s n in
      rw more (ap (λ t. c ∷ t) eq, e, λ h. (ground arith, closed h))
]

-- A nonempty token. It does not begin with the delimiter, since no quote is open there.
abbrev pub IsWord : ℕ → Bytes → Type 0
IsWord d w = (w ≢ []) × Closed d false w

-- Whether the text leaves a quote open, from the quote state given.
abbrev pub open_from : Bool → Bytes → Bool
open_from quoted [] = quoted
open_from quoted (c ∷ s) = open_from (toggle_quote c quoted) s

pub scan-open_from :
    (d : ℕ) (quoted : Bool) (s : Bytes)
    → d ≢ b'"'
    → (open_from quoted s ≡ open_from (scan d quoted s).quote_seen (scan d quoted s).at)
      × ((scan d quoted s).quote_seen ≡ true → (scan d quoted s).at ≡ [])
unfolding scan
scan-open_from d quoted [] n = (refl, λ h. refl)
scan-open_from d quoted (c ∷ s) n = elim (Bool-cases (not (toggle_quote c quoted) && c == d)) [
  | inl ends ↦ rw ends (ground arith, λ h. ground arith)
  | inr more ↦ rw more (scan-open_from d (toggle_quote c quoted) s n)
]

-- Closed as a test
abbrev pub is_closed : ℕ → Bool → Bytes → Bool
is_closed d quoted [] = not quoted
is_closed d quoted (c ∷ s) =
    (toggle_quote c quoted || not (c == d)) && is_closed d (toggle_quote c quoted) s

pub is_closed-Closed :
    (d : ℕ) (quoted : Bool) (s : Bytes) → is_closed d quoted s ≡ true → Closed d quoted s
is_closed-Closed d quoted [] h = ground (arith, h)
is_closed-Closed d quoted (c ∷ s) h =
    (ground (arith, h), is_closed-Closed d (toggle_quote c quoted) s (ground (arith, h)))

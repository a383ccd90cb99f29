-- ===== src/Mount/Token/Tokens.antt =====
-- Which tokens the loop over next_token of utils/mount/token.c returns.
use nfs_utils.Common.{
  ℕ, zero, suc, ◌<◌, ◌≤◌, true, false, ◌⊎◌, inl, inr, ◌≡◌, ◌≢◌, refl, sym, ap, ap₂, ◌∙◌, Option,
  none, some, List, [], ◌∷◌, ◌++◌, arith, ◌==◌, if◌then◌else◌, Bytes, length, length-append,
  Bool-cases,
}
use nfs_utils.Mount.Token.{
  TokenizerState, Scan, scan, find_next_nondelimiter, take_token, token_at, next_token, collect,
  tokens, take_passed, einval,
}
use nfs_utils.Mount.Token.Words.{IsWord, Ends, scan-Closed, scan_splits, open_from, scan-open_from}

-- How a text falls into words, with any number of delimiters before, between and behind them.
pub data Splits (d : ℕ) : Bytes → List Bytes → Type 0 where
  end : Splits d [] []
  delimiter : {c : ℕ} {s : Bytes} {ws : List Bytes} → c ≡ d → Splits d s ws → Splits d (c ∷ s) ws
  word :
      {s : Bytes} {ws : List Bytes} (w rest : Bytes)
      → IsWord d w
      → Ends d rest
      → s ≡ w ++ rest
      → Splits d rest ws
      → Splits d s (w ∷ ws)

abbrev pub state : ℕ → Bytes → TokenizerState
state d s = record { pos = some s; delimiter = d; error = 0 }

next_token-delimiter :
    (d c : ℕ) (s : Bytes) → c ≡ d → next_token (state d (c ∷ s)) ≡ next_token (state d s)
unfolding next_token
next_token-delimiter d c s e = elim (cases (find_next_nondelimiter d s)) [
  | inl none_left ↦ ground (arith, none_left)
  | inr (x, r, left) ↦ ground (arith, left)
]
  where
    cases : (t : Bytes) → (t ≡ []) ⊎ ((x : ℕ) × (r : Bytes) × (t ≡ x ∷ r))
    cases [] = inl refl
    cases (x ∷ r) = inr (x, r, refl)

next_token-IsWord :
    (d : ℕ) (w rest : Bytes)
    → d ≢ b'"'
    → IsWord d w
    → Ends d rest
    → next_token (state d (w ++ rest)) ≡ (some w, state d rest)
unfolding next_token
next_token-IsWord d [] rest n h e = absurd (h.0 refl)
next_token-IsWord d (c ∷ w) rest n h e = ground (arith, scan-Closed d false (c ∷ w) rest n h.1 e)

-- Every text that falls into words is returned as those words, with no error.
pub Splits-tokens :
    (d : ℕ) {s : Bytes} {ws : List Bytes}
    → Splits d s ws
    → d ≢ b'"'
    → (fuel : ℕ) → length s < fuel
    → tokens fuel (state d s) ≡ (ws, record { pos = none; delimiter = d; error = 0 })
unfolding tokens
Splits-tokens d end n zero h = elim h [ ]
Splits-tokens d end n (suc f) h = unfold next_token in refl
Splits-tokens d (delimiter e sp) n zero h = elim h [ ]
Splits-tokens d (delimiter {c} {s} e sp) n (suc f) h =
    ap (collect (tokens f)) (next_token-delimiter d c s e)
    ∙ Splits-tokens d sp n (suc f) (omega arith)
Splits-tokens d (word w rest iw e eq sp) n zero h = elim h [ ]
Splits-tokens d (word {s} {ws} w rest iw e eq sp) n (suc f) h = rw eq (
    ap (collect (tokens f)) (next_token-IsWord d w rest n iw e)
    ∙ ap (λ (r : List Bytes × TokenizerState). (w ∷ r.0, r.1))
        (Splits-tokens d sp n f (shorter w rest iw.0 (rw eq at h))))
  where
    shorter : (v r : Bytes) → v ≢ [] → length (v ++ r) < suc f → length r < f
    shorter [] r ne l = absurd (ne refl)
    shorter (x ∷ v) r ne l = omega (arith, length-append v r)

Splits-skip :
    (d : ℕ) (s : Bytes) {ws : List Bytes} → Splits d (find_next_nondelimiter d s) ws → Splits d s ws
unfolding find_next_nondelimiter
Splits-skip d [] sp = sp
Splits-skip d (c ∷ s) sp = elim (Bool-cases (c == d)) [
  | inl same ↦ delimiter (ground arith) (Splits-skip d s (rw same at sp))
  | inr other ↦ rw other at sp
]

-- A word found where the delimiters have been skipped.
find_next_nondelimiter_head :
    (d : ℕ) (s : Bytes) (c : ℕ) (r : Bytes) → find_next_nondelimiter d s ≡ c ∷ r → c ≢ d
unfolding find_next_nondelimiter
find_next_nondelimiter_head d [] c r e = absurd (ground arith)
find_next_nondelimiter_head d (x ∷ s) c r e = ground (arith, find_next_nondelimiter_head d s c r)

scan_head : (d c : ℕ) (r : Bytes) → c ≢ d → (scan d false (c ∷ r)).passed ≢ []
unfolding scan
scan_head d c r n = ground arith

-- One call of next_token: no token where nothing but delimiters is left, EINVAL where a quote
-- stays open, and else a word.
data Next (d : ℕ) (s : Bytes) : Option Bytes × TokenizerState → Type 0 where
  finished :
      {t : TokenizerState}
      → t.error ≡ 0
      → Splits d s []
      → open_from false s ≡ false
      → Next d s (none, t)
  unclosed : {t : TokenizerState} → t.error ≡ einval → open_from false s ≡ true → Next d s (none, t)
  found :
      {t : TokenizerState} (c : ℕ) (w rest : Bytes)
      → t ≡ state d rest
      → ((ws : List Bytes) → Splits d rest ws → Splits d s ((c ∷ w) ∷ ws))
      → length rest < length s
      → open_from false s ≡ open_from false rest
      → Next d s (some (c ∷ w), t)

take_passed-Next :
    (d : ℕ) (s p a : Bytes)
    → p ≢ []
    → ((ws : List Bytes) → Splits d a ws → Splits d s (p ∷ ws))
    → length (p ++ a) ≤ length s
    → open_from false s ≡ open_from false a
    → (t : TokenizerState) → t.delimiter ≡ d
    → t.error ≡ 0
    → Next d s (take_passed t p a)
unfolding take_passed
take_passed-Next d s [] a ne splits l o t e z = absurd (ne refl)
take_passed-Next d s (c ∷ p) a ne splits l o t e z =
    found c p a (ground arith) splits (omega (arith, length-append p a)) o

take_token-Next :
    (d : ℕ) (s : Bytes) (r : Scan)
    → r.passed ≢ []
    → (r.quote_seen ≡ false → (ws : List Bytes) → Splits d r.at ws → Splits d s (r.passed ∷ ws))
    → length (r.passed ++ r.at) ≤ length s
    → open_from false s ≡ open_from r.quote_seen r.at
    → (r.quote_seen ≡ true → r.at ≡ [])
    → (t : TokenizerState) → t.delimiter ≡ d
    → t.error ≡ 0
    → Next d s (take_token t r)
unfolding take_token
take_token-Next d s r ne splits l o at_end t e z = elim (Bool-cases r.quote_seen) [
  | inl open_quote ↦
      rw open_quote (unclosed refl (o ∙ ap₂ open_from open_quote (at_end open_quote)))
  | inr closed ↦ rw closed (
      take_passed-Next d s r.passed r.at ne (splits closed) l
        (o ∙ ap (λ q. open_from q r.at) closed) t e z)
]

length-skip : (d : ℕ) (s : Bytes) → length (find_next_nondelimiter d s) ≤ length s
unfolding find_next_nondelimiter
length-skip d [] = omega arith
length-skip d (c ∷ s) = ground (arith, length-skip d s)

open_from-skip :
    (d : ℕ) (s : Bytes)
    → d ≢ b'"'
    → open_from false s ≡ open_from false (find_next_nondelimiter d s)
unfolding find_next_nondelimiter
open_from-skip d [] n = refl
open_from-skip d (c ∷ s) n = ground (arith, open_from-skip d s n)

token_at-Next :
    (d : ℕ) (s p : Bytes)
    → d ≢ b'"'
    → find_next_nondelimiter d s ≡ p
    → Next d s (token_at (state d s) p)
unfolding token_at
token_at-Next d s [] n e =
    finished refl (Splits-skip d s (rw e end)) (open_from-skip d s n ∙ ap (open_from false) e)
token_at-Next d s (c ∷ p) n e =
    let (splits, ends, closed) = scan_splits d false (c ∷ p) n in
    let (parity, at_end) = scan-open_from d false (c ∷ p) n in
    let head = scan_head d c p (find_next_nondelimiter_head d s c p e) in
    take_token-Next d s (scan d false (c ∷ p)) head
      (λ q ws sp. Splits-skip d s (rw e (word _ _ (head, closed q) ends (sym splits) sp)))
      (rw splits (rw e at (length-skip d s)))
      (open_from-skip d s n ∙ ap (open_from false) e ∙ parity) at_end (state d s) refl refl

next_token-Next : (d : ℕ) (s : Bytes) → d ≢ b'"' → Next d s (next_token (state d s))
unfolding next_token
next_token-Next d s n = token_at-Next d s (find_next_nondelimiter d s) n refl

-- What the loop returns with no error is the way that the text falls into words.
collect-Splits :
    (d fuel : ℕ) (s : Bytes) (r : Option Bytes × TokenizerState)
    → length s < suc fuel
    → ((p : Bytes)
        → length p < fuel
        → (tokens fuel (state d p)).1.error ≡ 0
        → Splits d p (tokens fuel (state d p)).0)
    → Next d s r
    → (collect (tokens fuel) r).1.error ≡ 0
    → Splits d s (collect (tokens fuel) r).0
unfolding collect
collect-Splits d fuel s _ l rec (finished z sp o) e = sp
collect-Splits d fuel s _ l rec (unclosed u o) e = absurd (omega arith)
collect-Splits d fuel s _ l rec (found {t} c w rest te build l' o) e =
    build _ (rw te (rec rest (omega arith) (rw te at e)))

pub tokens-Splits :
    (d fuel : ℕ) (s : Bytes)
    → d ≢ b'"'
    → length s < fuel
    → (tokens fuel (state d s)).1.error ≡ 0
    → Splits d s (tokens fuel (state d s)).0
unfolding tokens
tokens-Splits d zero s n l e = elim l [ ]
tokens-Splits d (suc f) s n l e =
    collect-Splits d f s (next_token (state d s)) l (λ p lp ep. tokens-Splits d f p n lp ep)
      (next_token-Next d s n) e

collect-error :
    (d fuel : ℕ) (s : Bytes) (r : Option Bytes × TokenizerState)
    → length s < suc fuel
    → ((p : Bytes)
        → length p < fuel
        → (tokens fuel (state d p)).1.error ≡ (if open_from false p then einval else 0))
    → Next d s r
    → (collect (tokens fuel) r).1.error ≡ (if open_from false s then einval else 0)
unfolding collect
collect-error d fuel s _ l rec (finished z sp o) = ground (arith, z, o)
collect-error d fuel s _ l rec (unclosed u o) = ground (arith, u, o)
collect-error d fuel s _ l rec (found {t} c w rest te build l' o) =
    rw (te, o) (rec rest (omega arith))

-- With fuel beyond the length of the text, and a delimiter other than the quote, the loop over
-- next_token ends with EINVAL exactly where the text leaves a quote open.
pub tokens-error :
    (d fuel : ℕ) (s : Bytes)
    → d ≢ b'"'
    → length s < fuel
    → (tokens fuel (state d s)).1.error ≡ (if open_from false s then einval else 0)
unfolding tokens
tokens-error d zero s n l = elim l [ ]
tokens-error d (suc f) s n l =
    collect-error d f s (next_token (state d s)) l (λ p lp. tokens-error d f p n lp)
      (next_token-Next d s n)

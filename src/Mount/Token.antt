-- ===== src/Mount/Token.antt =====
-- utils/mount/token.c: the tokenizer that knows double quotes.
-- `pos` is the text from the pointer on, `none` a NULL pointer; strndup and malloc succeed.
pub mod Words
pub mod Tokens
use nfs_utils.Common.{
  ℕ, zero, suc, Bool, false, not, ◌&&◌, Option, none, some, List, [], ◌∷◌, ◌==◌, if◌then◌else◌,
  Bytes, skip,
}

-- EINVAL
abbrev pub einval : ℕ
einval = 22

pub record TokenizerState : Type 0 where
  pub pos : Option Bytes
  pub delimiter : ℕ
  pub error : ℕ

-- What a call of find_next_delimiter leaves: the bytes it has counted, the text at `pos`, and
-- whether a quote is open.
pub record Scan : Type 0 where
  pub passed : Bytes
  pub at : Bytes
  pub quote_seen : Bool

unfoldable pub init_tokenizer : Bytes → ℕ → TokenizerState
init_tokenizer string delimiter = record { pos = some string; delimiter = delimiter; error = 0 }

unfoldable pub find_next_nondelimiter : ℕ → Bytes → Bytes
unfolding skip
find_next_nondelimiter delimiter = skip (λ c. c == delimiter)

abbrev pub toggle_quote : ℕ → Bool → Bool
toggle_quote c quote_seen = if c == b'"' then not quote_seen else quote_seen

abbrev pub count_byte : ℕ → Scan → Scan
count_byte c r = record r { passed = c ∷ r.passed }

-- the loop of find_next_delimiter
unfoldable pub scan : ℕ → Bool → Bytes → Scan
scan delimiter quote_seen [] = record { passed = []; at = []; quote_seen = quote_seen }
scan delimiter quote_seen (c ∷ s) =
    let quoted = toggle_quote c quote_seen in
    let rest = count_byte c (scan delimiter quoted s) in
    if not quoted && c == delimiter
    then record { passed = []; at = c ∷ s; quote_seen = quoted }
    else rest

abbrev pub stop : TokenizerState → ℕ → Option Bytes × TokenizerState
stop t e = (none, record t { pos = none; error = e })

-- `len` bytes from the start of the token; none is left where `len` is 0.
unfoldable pub take_passed : TokenizerState → Bytes → Bytes → Option Bytes × TokenizerState
take_passed t [] at = stop t t.error
take_passed t (c ∷ s) at = (some (c ∷ s), record t { pos = some at })

-- The end of next_token, with the length that find_next_delimiter returned: 0 where a quote is
-- still open.
unfoldable pub take_token : TokenizerState → Scan → Option Bytes × TokenizerState
unfolding take_passed
take_token t r = if r.quote_seen then stop t einval else take_passed t r.passed r.at

unfoldable pub token_at : TokenizerState → Bytes → Option Bytes × TokenizerState
unfolding take_token scan
token_at t [] = stop t t.error
token_at t (c ∷ s) = take_token t (scan t.delimiter false (c ∷ s))

unfoldable pub next_in : TokenizerState → Option Bytes → Option Bytes × TokenizerState
unfolding token_at find_next_nondelimiter
next_in t none = (none, t)
next_in t (some p) =
    if not (t.error == 0) then (none, t) else token_at t (find_next_nondelimiter t.delimiter p)

unfoldable pub next_token : TokenizerState → Option Bytes × TokenizerState
unfolding next_in
next_token t = next_in t t.pos

unfoldable pub tokenizer_error : TokenizerState → ℕ
tokenizer_error t = t.error

-- The loop `for (opt = next_token(t); opt; opt = next_token(t))`, by fuel: the tokens and the last
-- state. The loop goes on from a token by `rest`.
unfoldable pub collect :
    (TokenizerState → List Bytes × TokenizerState)
    → Option Bytes × TokenizerState
    → List Bytes × TokenizerState
collect rest (none, t) = ([], t)
collect rest (some w, t) = let (ws, last) = rest t in (w ∷ ws, last)

unfoldable pub tokens : ℕ → TokenizerState → List Bytes × TokenizerState
unfolding collect
tokens zero t = ([], t)
tokens (suc fuel) t = collect (tokens fuel) (next_token t)

-- ===== src/Exports/Squash/Ends.antt =====
-- The loop of parsesquash in support/nfs/exports.c ends.
use nfs_utils.Common.{
  ℕ, zero, suc, ◌<◌, ◌≤◌, ◌≡◌, ◌≢◌, none, some, List, [], ◌∷◌, ◌++◌, arith, ◌||◌, Bytes, length, ℤ,
  Bool-cases, Option-cases, inl, inr,
}
use nfs_utils.Exports.Squash.{
  digit_run, parsenum, range_end, parse_range, is_minus_one, list_ends, next_range, squash_loop,
}

digit_run-le : (s : Bytes) → length (digit_run s).1 ≤ length s
unfolding digit_run
digit_run-le [] = omega arith
digit_run-le (c ∷ s) = ground (arith, digit_run-le s)

parsenum-le : (s : Bytes) → length (parsenum s).1 ≤ length s
unfolding parsenum
parsenum-le [] = omega arith
parsenum-le (c ∷ s) = ground (arith, digit_run-le s, digit_run-le (c ∷ s))

range_end-le : (id0 : ℤ) (s : Bytes) → length (range_end id0 s).2 ≤ length s
unfolding range_end
range_end-le id0 [] = omega arith
range_end-le id0 (c ∷ s) = ground (arith, parsenum-le s)

parse_range-le : (s : Bytes) → length (parse_range s).2 ≤ length s
unfolding parse_range
parse_range-le s = omega (arith, parsenum-le s, range_end-le (parsenum s).0 (parsenum s).1)

next_range-lt : (s t : Bytes) → next_range s ≡ some t → length t < length s
unfolding next_range
next_range-lt [] t h = absurd (ground arith)
next_range-lt (c ∷ s) t h = ground (arith, h)

-- With more fuel than there are bytes left, the loop of parsesquash ends.
pub squash_loop-ends :
    (fuel : ℕ) (cp : Bytes) (id : List ℤ) → length cp < fuel → squash_loop fuel cp id ≢ none
unfolding squash_loop
squash_loop-ends zero cp id h = elim h [ ]
squash_loop-ends (suc fuel) cp id h =
    let (id0, id1, rest) = parse_range cp in
    let ids = id ++ (id0 ∷ id1 ∷ []) in
    elim (Bool-cases (is_minus_one id0 || is_minus_one id1)) [
      | inl minus ↦ rw (minus, squash_loop) (λ e. cc e)
      | inr plus ↦ elim (Bool-cases (list_ends rest)) [
        | inl last ↦ rw (plus, last, squash_loop) (λ e. cc e)
        | inr more ↦ elim (Option-cases (next_range rest)) [
          | inl bad ↦ rw (plus, more, bad, squash_loop) (λ e. cc e)
          | inr (t, e) ↦
              rw (plus, more, e, squash_loop)
                (squash_loop-ends fuel t ids
                  (omega (arith, next_range-lt rest t e, parse_range-le cp)))
        ]
      ]
    ]

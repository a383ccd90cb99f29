-- ===== src/Nfs/Wildmat/Verdict.antt =====
-- DoMatch and wildmat of support/nfs/wildmat.c against the definition of a match.
use nfs_utils.Common.{
  Bool, ℕ, zero, suc, ◌<◌, ◌≡◌, ◌≢◌, refl, subst, sym, inl, inr, ◌↔◌, true, Option, some, [], ◌∷◌,
  arith, Bytes, length, append-nil, Bool-cases, str_eq, str_eq_iff,
}
use nfs_utils.Nfs.Wildmat.{
  Outcome, matched, mismatched, abort, overrun, is_star, do_match, is_match, wildmat,
}
use nfs_utils.Nfs.Wildmat.Closed.{IsClosed, do_match-IsClosed}
use nfs_utils.Nfs.Wildmat.Spec.{Matches, done, star}
use nfs_utils.Nfs.Wildmat.Steps.{Judges}
use nfs_utils.Nfs.Wildmat.Cases.{byte_case-Judges, Matches-nil, stars-Judges, no_text}

-- With fuel beyond the length of the pattern DoMatch returns, and what each outcome claims holds:
-- TRUE, that the text matches; FALSE, that it does not; ABORT, that no end of the text does; and a
-- read past the pattern's end, that the pattern matches no text at all.
pub do_match-Judges :
    (fuel : ℕ) (text p : Bytes) → length p < fuel → Judges (do_match fuel text p) text p
unfolding do_match
do_match-Judges zero text p l = elim l [ ]
do_match-Judges (suc f) [] [] l = (matched, refl, done)
do_match-Judges (suc f) (t ∷ text) [] l =
    (mismatched, refl, λ m. absurd (ground (arith, Matches-nil m refl)))
do_match-Judges (suc f) [] (c ∷ p) l = elim (Bool-cases (is_star c)) [
  | inl one ↦ rw one (
      stars-Judges (do_match f) [] c p (λ s q lq. do_match-Judges f s q (omega arith))
        (ground arith))
  | inr other ↦ rw other (abort, refl, no_text c p (λ e. ground arith))
]
do_match-Judges (suc f) (t ∷ text) (c ∷ p) l = elim (Bool-cases (is_star c)) [
  | inl one ↦ rw one (
      stars-Judges (do_match f) (t ∷ text) c p (λ s q lq. do_match-Judges f s q (omega arith))
        (ground arith))
  | inr other ↦ rw other (
      byte_case-Judges (do_match f) t c text p (λ s q lq. do_match-Judges f s q (omega arith))
        (λ e. ground arith))
]

is_match-Judges :
    (past : Bool) (r : Option Outcome) (text p : Bytes)
    → r ≢ some overrun
    → Judges r text p
    → (is_match past r ≡ true) ↔ Matches text p
is_match-Judges past r text p within (matched, e, h) = ((λ _. h), λ _. rw e refl)
is_match-Judges past r text p within (mismatched, e, h) =
    ((λ t. absurd (ground (arith, e, t))), λ m. absurd (h m))
is_match-Judges past r text p within (abort, e, h) =
    ((λ t. absurd (ground (arith, e, t))), λ m. absurd (h [] text refl m))
is_match-Judges past r text p within (overrun, e, h) = absurd (within e)

-- wildmat returns TRUE for a text and a pattern whose classes are all closed exactly if the text
-- matches the pattern.
pub wildmat_iff :
    (beyond : Bytes → Bytes → Bool) (text p : Bytes)
    → IsClosed p
    → (wildmat beyond text p ≡ true) ↔ Matches text p
unfolding wildmat
wildmat_iff beyond text p closed = elim (Bool-cases (str_eq p (b'*' ∷ []))) [
  | inl just_star ↦
      let is_star_p = (str_eq_iff p (b'*' ∷ [])).0 just_star in
      rw just_star (
        (λ _.
            subst (λ z. Matches text z) (sym is_star_p)
              (star text [] refl (sym (append-nil text)) done)),
        λ _. refl,
      )
  | inr other ↦ rw other (
      is_match-Judges (beyond text p) _ text p (do_match-IsClosed (suc (length p)) text p closed)
        (do_match-Judges (suc (length p)) text p (omega arith)))
]

-- ===== src/Nfs/Wildmat/Cases.antt =====
-- What the outcome says of the text, for each case of the switch in DoMatch and for the stars.
use nfs_utils.Common.{
  ℕ, ◌≤◌, ◌≡◌, ◌≢◌, refl, ap, subst, sym, ◌∙◌, inl, inr, true, false, Option, some, [], ◌∷◌, ◌++◌,
  arith, ◌==◌, Bytes, length, append_assoc, append-nil, skip, Bool-cases,
}
use nfs_utils.Nfs.Wildmat.{
  Outcome, matched, mismatched, abort, overrun, upper_eq, ClassEnd, closed, unterminated, past_end,
  class_of, star_loop, star_case, literal_case, quoted_case, class_case, byte_case, is_star,
}
use nfs_utils.Nfs.Wildmat.Spec.{Matches, done, literal, quoted, any, star, member, IsPlain}
use nfs_utils.Nfs.Wildmat.Classes.{behind, class_of-behind, class_of-shorter}
use nfs_utils.Nfs.Wildmat.Steps.{
  Verdict, Judges, Steps-Judges, literal-Steps, any-Steps, quoted-Steps, member-Steps, not_literal,
  not_quoted, not_member, never_member, begins, Begins, by_literal, by_quoted, by_any, by_member,
}

-- The pattern `p` and every shorter one are judged.
abbrev JudgesUpTo : (Bytes → Bytes → Option Outcome) → Bytes → Type 0
JudgesUpTo match p = (s q : Bytes) → length q ≤ length p → Judges (match s q) s q

literal_case-Judges :
    (match : Bytes → Bytes → Option Outcome) (t c : ℕ) (text p : Bytes)
    → JudgesUpTo match p
    → IsPlain c
    → Judges (literal_case match t text c p) (t ∷ text) (c ∷ p)
unfolding literal_case
literal_case-Judges match t c text p ih pl = elim (Bool-cases (upper_eq t c)) [
  | inl same ↦
      rw same (
        Steps-Judges text (match text p) (literal-Steps pl (ground arith))
          (ih text p (omega arith)))
  | inr other ↦ rw other (mismatched, refl, not_literal pl (λ e. ground arith))
]

quoted_case-Judges :
    (match : Bytes → Bytes → Option Outcome) (t c : ℕ) (text p : Bytes)
    → JudgesUpTo match p
    → c ≡ b'\\'
    → Judges (quoted_case match t text p) (t ∷ text) (c ∷ p)
unfolding quoted_case
quoted_case-Judges match t c text [] ih q =
    (mismatched, refl, not_quoted q (λ d r e. absurd (ground arith)))
quoted_case-Judges match t c text (d ∷ p) ih q = elim (Bool-cases (upper_eq t d)) [
  | inl same ↦
      rw same
        (Steps-Judges text (match text p) (quoted-Steps q (ground arith)) (ih text p (omega arith)))
  | inr other ↦ rw other (mismatched, refl, not_quoted q (λ x r e up. ground arith))
]

class_case-Judges :
    (match : Bytes → Bytes → Option Outcome) (t c : ℕ) (text p : Bytes) (e : ClassEnd)
    → JudgesUpTo match p
    → c ≡ b'['
    → class_of t p ≡ e
    → Judges (class_case match text e) (t ∷ text) (c ∷ p)
unfolding class_case
class_case-Judges match t c text p (closed true r) ih q cl =
    Steps-Judges text (match text r) (member-Steps r q cl)
      (ih text r (class_of-shorter p t r (ap behind cl)))
class_case-Judges match t c text p (closed false r) ih q cl =
    (mismatched, refl, not_member q (λ r' e. ground arith))
class_case-Judges match t c text p (unterminated true) ih q cl = (
  overrun,
  refl,
  never_member q
      (λ u r e. absurd (ground (arith, class_of-behind p u t, ap behind cl, ap behind e))),
)
class_case-Judges match t c text p (unterminated false) ih q cl =
    (mismatched, refl, not_member q (λ r' e. ground arith))
class_case-Judges match t c text p past_end ih q cl = (
  overrun,
  refl,
  never_member q
      (λ u r e. absurd (ground (arith, class_of-behind p u t, ap behind cl, ap behind e))),
)

pub byte_case-Judges :
    (match : Bytes → Bytes → Option Outcome) (t c : ℕ) (text p : Bytes)
    → JudgesUpTo match p
    → c ≢ b'*'
    → Judges (byte_case match t text c p) (t ∷ text) (c ∷ p)
unfolding byte_case
byte_case-Judges match t c text p ih n = elim (Bool-cases (c == b'\\')) [
  | inl slash ↦ rw slash (quoted_case-Judges match t c text p ih (ground arith))
  | inr not_slash ↦ rw not_slash (elim (Bool-cases (c == b'?')) [
    | inl mark ↦
        rw mark
          (Steps-Judges text (match text p) (any-Steps (ground arith)) (ih text p (omega arith)))
    | inr not_mark ↦ rw not_mark (elim (Bool-cases (c == b'[')) [
      | inl class ↦
          rw class (class_case-Judges match t c text p (class_of t p) ih (ground arith) refl)
      | inr not_class ↦ rw not_class (
          literal_case-Judges match t c text p ih (
            (λ e. absurd (ground arith)),
            (λ e. absurd (ground arith)),
            n,
            λ e. absurd (ground arith),
          ))
    ])
  ])
]

-- What the loop over the text behind a star finds out about the pattern `q` behind it.
abbrev LoopVerdict : Outcome → Bytes → Bytes → Type 0
LoopVerdict matched text q = (u : Bytes) × (v : Bytes) × (text ≡ u ++ v) × Matches v q
LoopVerdict mismatched text q = ⊥
LoopVerdict abort text q = (u v : Bytes) → text ≡ u ++ v → ¬ Matches v q
LoopVerdict overrun text q = (s : Bytes) → ¬ Matches s q

abbrev LoopJudges : Option Outcome → Bytes → Bytes → Type 0
LoopJudges r text q = (o : Outcome) × (r ≡ some o) × LoopVerdict o text q

loop_abort :
    (t : ℕ) (text q : Bytes)
    → ¬ Matches (t ∷ text) q
    → ((u v : Bytes) → text ≡ u ++ v → ¬ Matches v q)
    → (u v : Bytes) → t ∷ text ≡ u ++ v
    → ¬ Matches v q
loop_abort t text q n h [] v e m = n (subst (λ z. Matches z q) (sym e) m)
loop_abort t text q n h (y ∷ u) v e m = h u v (ground arith) m

loop_cons :
    (t : ℕ) (text q : Bytes) (r : Option Outcome)
    → ¬ Matches (t ∷ text) q
    → LoopJudges r text q
    → LoopJudges r (t ∷ text) q
loop_cons t text q r n (matched, e, (u, v, split, m)) =
    (matched, e, (t ∷ u, v, ap (λ z. t ∷ z) split, m))
loop_cons t text q r n (mismatched, e, h) = absurd h
loop_cons t text q r n (abort, e, h) = (abort, e, loop_abort t text q n h)
loop_cons t text q r n (overrun, e, h) = (overrun, e, h)

nothing_left : (u v : Bytes) → [] ≡ u ++ v → v ≡ []
nothing_left [] v e = sym e
nothing_left (x ∷ u) v e = absurd (ground arith)

Begins-ne-nil : {c : ℕ} {p s : Bytes} → Begins c p s → s ≢ []
Begins-ne-nil (by_literal _ _ _) e = absurd (ground arith)
Begins-ne-nil (by_quoted _ _ _ _ _ _) e = absurd (ground arith)
Begins-ne-nil (by_any _ _) e = absurd (ground arith)
Begins-ne-nil (by_member _ _ _ _) e = absurd (ground arith)

star_inv :
    {c : ℕ} {q s : Bytes}
    → c ≡ b'*'
    → Matches s (c ∷ q)
    → (u : Bytes) × (v : Bytes) × (s ≡ u ++ v) × Matches v q
star_inv e (literal pl _ m) = absurd (pl.2 e)
star_inv e (quoted q _ m) = absurd (omega arith)
star_inv e (any q m) = absurd (omega arith)
star_inv e (star u v _ split m) = (u, v, split, m)
star_inv e (member _ q _ m) = absurd (omega arith)

-- One round of the loop, with the outcome for the text as it stands.
star_step :
    (match : Bytes → Option Outcome) (t : ℕ) (text q : Bytes)
    → Judges (match (t ∷ text)) (t ∷ text) q
    → LoopJudges (star_loop match text) text q
    → LoopJudges (star_loop match (t ∷ text)) (t ∷ text) q
unfolding star_loop
star_step match t text q (matched, e, h) rest =
    (matched, rw (e, star_loop) refl, ([], t ∷ text, refl, h))
star_step match t text q (mismatched, e, h) rest =
    let (o, oe, oh) = loop_cons t text q (star_loop match text) h rest in
    (o, rw (e, star_loop) oe, oh)
star_step match t text q (abort, e, h) rest = (abort, rw (e, star_loop) refl, h)
star_step match t text q (overrun, e, h) rest = (overrun, rw (e, star_loop) refl, h)

star_loop-LoopJudges :
    (match : Bytes → Bytes → Option Outcome) (text : Bytes) (d : ℕ) (q : Bytes)
    → JudgesUpTo match (d ∷ q)
    → d ≢ b'*'
    → LoopJudges (star_loop (λ s. match s (d ∷ q)) text) text (d ∷ q)
star_loop-LoopJudges match [] d q ih n = (
  abort,
  unfold star_loop in refl,
  λ u v e m. no_empty (subst (λ z. Matches z (d ∷ q)) (nothing_left u v e) m),
)
  where
    no_empty : ¬ Matches [] (d ∷ q)
    no_empty m = Begins-ne-nil (begins n m) refl
star_loop-LoopJudges match (t ∷ text) d q ih n =
    star_step (λ s. match s (d ∷ q)) t text (d ∷ q) (ih (t ∷ text) (d ∷ q) (omega arith))
      (star_loop-LoopJudges match text d q ih n)

after_loop :
    (r : Option Outcome) (text : Bytes) (c : ℕ) (q : Bytes)
    → c ≡ b'*'
    → LoopJudges r text q
    → Judges r text (c ∷ q)
after_loop r text c q e (matched, re, (u, v, split, m)) = (matched, re, star u v e split m)
after_loop r text c q e (mismatched, re, h) = absurd h
after_loop r text c q e (abort, re, h) = (abort, re, λ u v split m. behind_star u v split m)
  where
    behind_star : (u v : Bytes) → text ≡ u ++ v → ¬ Matches v (c ∷ q)
    behind_star u v split m =
        let (u', v', split', m') = star_inv e m in
        h (u ++ u') v' (split ∙ ap (λ z. u ++ z) split' ∙ sym (append_assoc u u' v')) m'
after_loop r text c q e (overrun, re, h) =
    (overrun, re, λ s m. let (u, v, split, m') = star_inv e m in h v m')

-- Several stars match like one.
one_star :
    (p : Bytes) {c : ℕ} {s : Bytes} → c ≡ b'*' → Matches s (c ∷ skip is_star p) → Matches s (c ∷ p)
unfolding skip
one_star [] e m = m
one_star (x ∷ p) {c} {s} e m = elim (Bool-cases (is_star x)) [
  | inl again ↦
      let m' = one_star p e (rw again at m) in
      let same : c ≡ x = ground arith in star [] s e refl (subst (λ z. Matches s (z ∷ p)) same m')
  | inr other ↦ rw other at m
]

to_one_star :
    (p : Bytes) {c : ℕ} {s : Bytes} → c ≡ b'*' → Matches s (c ∷ p) → Matches s (c ∷ skip is_star p)
unfolding skip
to_one_star [] e m = m
to_one_star (x ∷ p) {c} {s} e m = elim (Bool-cases (is_star x)) [
  | inl again ↦
      let (u, v, split, m1) = star_inv e m in
      let (u', v', split', m2) = star_inv (ground arith) m1 in
      rw again (
        to_one_star p e
          (star (u ++ u') v' e (split ∙ ap (λ z. u ++ z) split' ∙ sym (append_assoc u u' v')) m2))
  | inr other ↦ rw other m
]

Judges-iff :
    (r : Option Outcome) (text p q : Bytes)
    → ((s : Bytes) → Matches s p → Matches s q)
    → ((s : Bytes) → Matches s q → Matches s p)
    → Judges r text p
    → Judges r text q
Judges-iff r text p q f g (matched, e, h) = (matched, e, f text h)
Judges-iff r text p q f g (mismatched, e, h) = (mismatched, e, λ m. h (g text m))
Judges-iff r text p q f g (abort, e, h) = (abort, e, λ u v split m. h u v split (g v m))
Judges-iff r text p q f g (overrun, e, h) = (overrun, e, λ s m. h s (g s m))

skip-head : (p : Bytes) (d : ℕ) (q : Bytes) → skip is_star p ≡ d ∷ q → d ≢ b'*'
unfolding skip
skip-head [] d q e = absurd (ground arith)
skip-head (x ∷ p) d q e = ground (arith, skip-head p d q)

length-skip : (p : Bytes) → length (skip is_star p) ≤ length p
unfolding skip
length-skip [] = omega arith
length-skip (x ∷ p) = ground (arith, length-skip p)

star_case-Judges :
    (match : Bytes → Bytes → Option Outcome) (text : Bytes) (c : ℕ) (p q : Bytes)
    → JudgesUpTo match p
    → c ≡ b'*'
    → skip is_star p ≡ q
    → Judges (star_case match text q) text (c ∷ q)
unfolding star_case
star_case-Judges match text c p [] ih e sk =
    (matched, refl, star text [] e (sym (append-nil text)) done)
star_case-Judges match text c p (d ∷ q) ih e sk = after_loop _ text c (d ∷ q) e (
    star_loop-LoopJudges match text d q
      (λ s r l. ih s r (omega (arith, l, length-skip p, ap length sk))) (skip-head p d q sk))

pub Matches-nil : {s p : Bytes} → Matches s p → p ≡ [] → s ≡ []
Matches-nil done e = refl
Matches-nil (literal _ _ _) e = absurd (ground arith)
Matches-nil (quoted _ _ _) e = absurd (ground arith)
Matches-nil (any _ _) e = absurd (ground arith)
Matches-nil (star _ _ _ _ _) e = absurd (ground arith)
Matches-nil (member _ _ _ _) e = absurd (ground arith)

pub stars-Judges :
    (match : Bytes → Bytes → Option Outcome) (text : Bytes) (c : ℕ) (p : Bytes)
    → JudgesUpTo match p
    → c ≡ b'*'
    → Judges (star_case match text (skip is_star p)) text (c ∷ p)
stars-Judges match text c p ih e =
    Judges-iff _ text (c ∷ skip is_star p) (c ∷ p) (λ s m. one_star p e m)
      (λ s m. to_one_star p e m) (star_case-Judges match text c p (skip is_star p) ih e refl)

pub no_text : (c : ℕ) (p : Bytes) → c ≢ b'*' → Verdict abort [] (c ∷ p)
no_text c p n u v split m = Begins-ne-nil (begins n m) (nothing_left u v split)

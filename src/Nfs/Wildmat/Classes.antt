-- ===== src/Nfs/Wildmat/Classes.antt =====
-- Where a character class of support/nfs/wildmat.c ends.
use nfs_utils.Common.{
  ℕ, ◌<◌, ◌≤◌, ◌≡◌, refl, sym, ◌∙◌, inl, inr, Bool, true, false, ◌&&◌, ◌||◌, Option, none, some, [],
  ◌∷◌, arith, ◌==◌, Bytes, length, Bool-cases,
}
use nfs_utils.Nfs.Wildmat.{
  upper_eq, char_le, ClassEnd, closed, unterminated, past_end, class_loop, class_members, accept,
  class_of,
}

-- The pattern behind a class: the same for every byte that is looked up in it.
abbrev pub behind : ClassEnd → Option Bytes
behind (closed m p) = some p
behind (unterminated m) = none
behind past_end = none

class_loop-behind :
    (p : Bytes) (t u at bt : ℕ) (m n : Bool)
    → behind (class_loop t at m p) ≡ behind (class_loop u bt n p)
unfolding class_loop
class_loop-behind [] t u at bt m n = refl
class_loop-behind (c ∷ []) t u at bt m n = ground arith
class_loop-behind (c ∷ d ∷ p) t u at bt m n = ground (
  arith,
  class_loop-behind p t u d d (m || char_le t d && char_le at t) (n || char_le u d && char_le bt u),
  class_loop-behind (d ∷ p) t u c c (m || upper_eq t c) (n || upper_eq u c),
)

class_members-behind :
    (p : Bytes) (t u at : ℕ) → behind (class_members t at p) ≡ behind (class_members u at p)
unfolding class_members
class_members-behind [] t u at = class_loop-behind [] t u at at false false
class_members-behind (c ∷ p) t u at = ground (
  arith,
  class_loop-behind p t u c c (upper_eq c t) (upper_eq c u),
  class_loop-behind (c ∷ p) t u at at false false,
)

accept-behind : (b : Bool) (e : ClassEnd) → behind (accept b e) ≡ behind e
accept-behind b (closed m p) = refl
accept-behind b (unterminated m) = refl
accept-behind b past_end = refl

pub class_of-behind : (p : Bytes) (t u : ℕ) → behind (class_of t p) ≡ behind (class_of u p)
unfolding class_of
class_of-behind [] t u =
    accept-behind false (class_members t b'[' [])
    ∙ class_members-behind [] t u b'['
    ∙ sym (accept-behind false (class_members u b'[' []))
class_of-behind (c ∷ p) t u = elim (Bool-cases (c == b'^')) [
  | inl reversed ↦
      rw reversed
        (accept-behind true _ ∙ class_members-behind p t u b'^' ∙ sym (accept-behind true _))
  | inr plain ↦
      rw plain (
        accept-behind false _ ∙ class_members-behind (c ∷ p) t u b'[' ∙ sym (accept-behind false _))
]

class_loop-shorter :
    (p : Bytes) (t at : ℕ) (m hit : Bool) (r : Bytes)
    → class_loop t at m p ≡ closed hit r
    → length r < length p
unfolding class_loop
class_loop-shorter [] t at m hit r e = absurd (ground arith)
class_loop-shorter (c ∷ []) t at m hit r e = ground arith
class_loop-shorter (c ∷ d ∷ p) t at m hit r e = ground (
  arith,
  class_loop-shorter p t d (m || char_le t d && char_le at t) hit r,
  class_loop-shorter (d ∷ p) t c (m || upper_eq t c) hit r,
)

behind-closed : (e : ClassEnd) (r : Bytes) → behind e ≡ some r → (hit : Bool) × (e ≡ closed hit r)
behind-closed (closed m p) r h = (m, ground arith)
behind-closed (unterminated m) r h = absurd (ground arith)
behind-closed past_end r h = absurd (ground arith)

class_members-shorter :
    (p : Bytes) (t at : ℕ) (r : Bytes)
    → behind (class_members t at p) ≡ some r
    → length r ≤ length p
unfolding class_members
class_members-shorter [] t at r h = absurd (unfold class_loop in ground arith)
class_members-shorter (c ∷ p) t at r h = elim (Bool-cases (c == b']' || c == b'-')) [
  | inl first ↦
      let (hit, e) = behind-closed (class_loop t c (upper_eq c t) p) r (rw first at h) in
      omega (arith, class_loop-shorter p t c (upper_eq c t) hit r e)
  | inr other ↦
      let (hit, e) = behind-closed (class_loop t at false (c ∷ p)) r (rw other at h) in
      omega (arith, class_loop-shorter (c ∷ p) t at false hit r e)
]

pub class_of-shorter :
    (p : Bytes) (t : ℕ) (r : Bytes) → behind (class_of t p) ≡ some r → length r ≤ length p
unfolding class_of
class_of-shorter [] t r h = omega (
  arith,
  class_members-shorter [] t b'[' r (sym (accept-behind false (class_members t b'[' [])) ∙ h),
)
class_of-shorter (c ∷ p) t r h = elim (Bool-cases (c == b'^')) [
  | inl reversed ↦
      omega
        (arith, class_members-shorter p t b'^' r (sym (accept-behind true _) ∙ rw reversed at h))
  | inr plain ↦
      omega (
        arith,
        class_members-shorter (c ∷ p) t b'[' r (sym (accept-behind false _) ∙ rw plain at h),
      )
]

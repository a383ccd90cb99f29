-- ===== src/Nfs/Wildmat/Closed.antt =====
-- Patterns in which every character class ends, and DoMatch of support/nfs/wildmat.c on them.
use nfs_utils.Common.{
  ap, refl, ◌&&◌, ◌||◌, ℕ, zero, suc, ◌≡◌, ◌≢◌, sym, subst, Bool, true, false, Option, none, some,
  [], ◌∷◌, arith, ◌==◌, ==_iff, Bytes, skip, Bool-cases, inl, inr, if◌then◌else◌, both,
}
use nfs_utils.Nfs.Wildmat.{
  ClassEnd, class_loop, class_members, accept, char_le, Outcome, matched, mismatched, abort,
  overrun, closed, class_of, class_case, literal_case, quoted_case, byte_case, is_star, star_loop,
  star_case, do_match, upper_eq,
}

-- The members of a class up to its end, and what is behind: single bytes and ranges, of which each
-- takes the byte behind its hyphen, too.
pub data HasMembers : Bytes → Bytes → Type 0 where
  close : {c : ℕ} {r : Bytes} → c ≡ b']' → HasMembers (c ∷ r) r
  single : {c : ℕ} {p r : Bytes} → c ≢ b']' → c ≢ b'-' → HasMembers p r → HasMembers (c ∷ p) r
  hyphen : {c d : ℕ} {r : Bytes} → c ≡ b'-' → d ≡ b']' → HasMembers (c ∷ d ∷ r) r
  range : {c d : ℕ} {p r : Bytes} → c ≡ b'-' → d ≢ b']' → HasMembers p r → HasMembers (c ∷ d ∷ p) r

-- A bracket or hyphen that stands first is a member.
pub data HasBody : Bytes → Bytes → Type 0 where
  leading :
      {c : ℕ} {p r : Bytes} → (c == b']' || c == b'-') ≡ true → HasMembers p r → HasBody (c ∷ p) r
  direct :
      {c : ℕ} {p r : Bytes}
      → (c == b']' || c == b'-') ≡ false
      → HasMembers (c ∷ p) r
      → HasBody (c ∷ p) r

-- The text of a class behind its opening bracket, and what is behind the class
pub data HasClass : Bytes → Bytes → Type 0 where
  reversed : {c : ℕ} {p r : Bytes} → c ≡ b'^' → HasBody p r → HasClass (c ∷ p) r
  straight : {c : ℕ} {p r : Bytes} → c ≢ b'^' → HasBody (c ∷ p) r → HasClass (c ∷ p) r

-- Each class of the pattern is closed.
pub data IsClosed : Bytes → Type 0 where
  ends : IsClosed []
  byte : {c : ℕ} {p : Bytes} → c ≢ b'\\' → c ≢ b'[' → IsClosed p → IsClosed (c ∷ p)
  lone : {c : ℕ} → c ≡ b'\\' → IsClosed (c ∷ [])
  quotes : {c d : ℕ} {p : Bytes} → c ≡ b'\\' → IsClosed p → IsClosed (c ∷ d ∷ p)
  class : {c : ℕ} {p : Bytes} (r : Bytes) → c ≡ b'[' → HasClass p r → IsClosed r → IsClosed (c ∷ p)

Closes : ClassEnd → Bytes → Type 0
Closes e r = (hit : Bool) × (e ≡ closed hit r)

class_loop-close :
    (c : ℕ) (r : Bytes) (t at : ℕ) (m : Bool) → c ≡ b']' → class_loop t at m (c ∷ r) ≡ closed m r
unfolding class_loop
class_loop-close c [] t at m e = rw ((==_iff c b']').1 e) refl
class_loop-close c (d ∷ r) t at m e = rw ((==_iff c b']').1 e) refl

class_loop-HasMembers :
    (p r : Bytes) → HasMembers p r → (t at : ℕ) (m : Bool) → Closes (class_loop t at m p) r
unfolding class_loop Closes
class_loop-HasMembers _ r (close {c = c} e) t at m = (m, class_loop-close c r t at m e)
class_loop-HasMembers _ r (single {c = c} {p = []} a b h) t at m = elim h [ ]
class_loop-HasMembers _ r (single {c = c} {p = d ∷ p} a b h) t at m =
    let (hit, e) = class_loop-HasMembers (d ∷ p) r h t c (m || upper_eq t c) in
    let not_close : (c == b']') ≡ false = ground (arith, a) in
    let not_hyphen : (c == b'-') ≡ false = ground (arith, b) in (hit, rw (not_close, not_hyphen) e)
class_loop-HasMembers _ r (hyphen {c = c} {d = d} a b) t at m =
    let not_close : (c == b']') ≡ false = ground (arith, a) in
    let ended : (d == b']') ≡ true = (==_iff d b']').1 b in
    let e = class_loop-close d r t c (m || upper_eq t c) b in
    (m || upper_eq t c, ground (arith, not_close, ended, e))
class_loop-HasMembers _ r (range {c = c} {d = d} {p = p} a b h) t at m =
    let (hit, e) = class_loop-HasMembers p r h t d (m || char_le t d && char_le at t) in
    let not_close : (c == b']') ≡ false = ground (arith, a) in
    let is_hyphen : (c == b'-') ≡ true = (==_iff c b'-').1 a in
    let goes_on : (d == b']') ≡ false = ground (arith, b) in
    (hit, rw (not_close, is_hyphen, goes_on) e)

class_members-HasBody : (p r : Bytes) → HasBody p r → (t at : ℕ) → Closes (class_members t at p) r
unfolding class_members
class_members-HasBody _ r (leading {c = c} {p = p} e h) t at =
    rw e (class_loop-HasMembers p r h t c (upper_eq c t))
class_members-HasBody _ r (direct {c = c} {p = p} e h) t at =
    rw e (class_loop-HasMembers (c ∷ p) r h t at false)

accept-Closes :
    (reverse : Bool) (e : ClassEnd) (r : Bytes) → Closes e r → Closes (accept reverse e) r
unfolding Closes
accept-Closes reverse e r (hit, h) = (_, ap (accept reverse) h)

class_of-HasClass : (p r : Bytes) → HasClass p r → (t : ℕ) → Closes (class_of t p) r
unfolding class_of
class_of-HasClass _ r (reversed {c = c} {p = p} e h) t =
    rw ((==_iff c b'^').1 e)
      (accept-Closes true (class_members t b'^' p) r (class_members-HasBody p r h t b'^'))
class_of-HasClass _ r (straight {c = c} {p = p} e h) t =
    let other : (c == b'^') ≡ false = ground (arith, e) in
    rw other (
      accept-Closes false (class_members t b'[' (c ∷ p)) r
        (class_members-HasBody (c ∷ p) r h t b'['))

abbrev Within : Option Outcome → Type 0
Within r = r ≢ some overrun

IsClosed-byte : (c : ℕ) (p : Bytes) → c ≢ b'\\' → c ≢ b'[' → IsClosed (c ∷ p) → IsClosed p
IsClosed-byte c p h k (byte a b q) = q
IsClosed-byte c _ h k (lone e) = absurd (h e)
IsClosed-byte c _ h k (quotes e q) = absurd (h e)
IsClosed-byte c p h k (class r e s q) = absurd (k e)

IsClosed-skip : (p : Bytes) → IsClosed p → IsClosed (skip is_star p)
unfolding skip
IsClosed-skip [] q = q
IsClosed-skip (c ∷ p) q = elim (Bool-cases (is_star c)) [
  | inl star ↦
      rw (star, skip)
        (IsClosed-skip p
          (IsClosed-byte c p (λ e. ground (arith, e, star)) (λ e. ground (arith, e, star)) q))
  | inr other ↦ rw other q
]

behind_star : (c : ℕ) (p : Bytes) → is_star c ≡ true → IsClosed (c ∷ p) → IsClosed (skip is_star p)
behind_star c p star q =
    IsClosed-skip p
      (IsClosed-byte c p (λ e. ground (arith, e, star)) (λ e. ground (arith, e, star)) q)

star_loop-Within :
    (match : Bytes → Option Outcome)
    → ((s : Bytes) → Within (match s))
    → (text : Bytes) → Within (star_loop match text)
unfolding star_loop
star_loop-Within match h [] = λ e. absurd (cc e)
star_loop-Within match h (c ∷ text) =
    tried (match (c ∷ text)) (h (c ∷ text)) (star_loop match text) (star_loop-Within match h text)
  where
    tried :
        (r : Option Outcome)
        → Within r
        → (rest : Option Outcome) → Within rest
        → Within
            (elim r [ none ↦ none | some o ↦ (elim o [ mismatched ↦ rest | other ↦ some other ]) ])
    tried none w rest v = w
    tried (some matched) w rest v = w
    tried (some mismatched) w rest v = v
    tried (some abort) w rest v = w
    tried (some overrun) w rest v = w

star_case-Within :
    (match : Bytes → Bytes → Option Outcome)
    → ((s p : Bytes) → IsClosed p → Within (match s p))
    → (text p : Bytes) → IsClosed p
    → Within (star_case match text p)
unfolding star_case
star_case-Within match h text [] q = λ e. absurd (cc e)
star_case-Within match h text (c ∷ p) q =
    star_loop-Within (λ t. match t (c ∷ p)) (λ s. h s (c ∷ p) q) text

either : (b : Bool) (x : Option Outcome) → Within x → Within (if b then x else some mismatched)
either true x w = w
either false x w = λ e. absurd (cc e)

byte_case-Within :
    (match : Bytes → Bytes → Option Outcome)
    → ((s p : Bytes) → IsClosed p → Within (match s p))
    → (t c : ℕ) (text p : Bytes) → IsClosed (c ∷ p)
    → Within (byte_case match t text c p)
unfolding byte_case literal_case quoted_case class_case Closes
byte_case-Within match h t c text p (byte a b q) =
    let not_quote : (c == b'\\') ≡ false = ground (arith, a) in
    let not_class : (c == b'[') ≡ false = ground (arith, b) in
    rw (not_quote, not_class)
      (both Within (c == b'?') (match text p) (literal_case match t text c p) (h text p q)
        (either (upper_eq t c) (match text p) (h text p q)))
byte_case-Within match h t c text _ (lone e) = rw ((==_iff c b'\\').1 e) (λ k. absurd (cc k))
byte_case-Within match h t c text _ (quotes {d = d} {p = p} e q) =
    rw ((==_iff c b'\\').1 e) (either (upper_eq t d) (match text p) (h text p q))
byte_case-Within match h t c text p (class r e s q) =
    let (hit, eq) = class_of-HasClass p r s t in
    let is_class : (c == b'[') ≡ true = (==_iff c b'[').1 e in
    let not_quote : (c == b'\\') ≡ false = ground (arith, e) in
    let not_any : (c == b'?') ≡ false = ground (arith, e) in
    rw (not_quote, not_any, is_class)
      (subst (λ k. Within (class_case match text k)) (sym eq)
        (either hit (match text r) (h text r q)))

-- If every class of the pattern is closed, DoMatch does not read past the end of the pattern, with any
-- fuel.
pub do_match-IsClosed :
    (fuel : ℕ) (text p : Bytes) → IsClosed p → do_match fuel text p ≢ some overrun
unfolding do_match
do_match-IsClosed zero text p q = λ e. absurd (cc e)
do_match-IsClosed (suc f) [] [] q = λ e. absurd (cc e)
do_match-IsClosed (suc f) (t ∷ text) [] q = λ e. absurd (cc e)
do_match-IsClosed (suc f) [] (c ∷ p) q = elim (Bool-cases (is_star c)) [
  | inl star ↦ rw star (
      star_case-Within (do_match f) (λ s r. do_match-IsClosed f s r) [] (skip is_star p)
        (behind_star c p star q))
  | inr other ↦ rw other (λ e. absurd (cc e))
]
do_match-IsClosed (suc f) (t ∷ text) (c ∷ p) q = elim (Bool-cases (is_star c)) [
  | inl star ↦ rw star (
      star_case-Within (do_match f) (λ s r. do_match-IsClosed f s r) (t ∷ text) (skip is_star p)
        (behind_star c p star q))
  | inr other ↦
      rw other (byte_case-Within (do_match f) (λ s r. do_match-IsClosed f s r) t c text p q)
]

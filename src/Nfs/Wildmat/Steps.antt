-- ===== src/Nfs/Wildmat/Steps.antt =====
-- What the outcome for the rest of a text and of a pattern says of the whole, for each kind of
-- pattern byte other than '*'.
use nfs_utils.Common.{
  ℕ, ◌≡◌, ◌≢◌, refl, ap, subst, true, Option, some, [], ◌∷◌, ◌++◌, arith, Bytes, append_assoc,
  to_upper,
}
use nfs_utils.Nfs.Wildmat.{Outcome, matched, mismatched, abort, overrun, closed, class_of}
use nfs_utils.Nfs.Wildmat.Spec.{Matches, literal, quoted, any, star, member, IsPlain}
use nfs_utils.Nfs.Wildmat.Classes.{behind, class_of-behind}

-- The claim of an outcome.
abbrev pub Verdict : Outcome → Bytes → Bytes → Type 0
Verdict matched text p = Matches text p
Verdict mismatched text p = ¬ Matches text p
Verdict abort text p = (u v : Bytes) → text ≡ u ++ v → ¬ Matches v p
Verdict overrun text p = (s : Bytes) → ¬ Matches s p

-- A result is there, and its claim holds.
abbrev pub Judges : Option Outcome → Bytes → Bytes → Type 0
Judges r text p = (o : Outcome) × (r ≡ some o) × Verdict o text p

-- A step that needs one byte and goes on with the rest of the text and of the pattern, `v`: what
-- is claimed of the rest is claimed of the whole.
pub record Steps (t c : ℕ) (p v : Bytes) : Type 0 where
  pub there : {s : Bytes} → Matches s v → Matches (t ∷ s) (c ∷ p)
  pub shape : (s : Bytes) → Matches s (c ∷ p) → (u : ℕ) × (r : Bytes) × (s ≡ u ∷ r) × Matches r v

abort-cons :
    {t c : ℕ} {p v : Bytes} (text : Bytes)
    → Steps t c p v
    → ((u w : Bytes) → text ≡ u ++ w → ¬ Matches w v)
    → (u w : Bytes) → t ∷ text ≡ u ++ w
    → ¬ Matches w (c ∷ p)
abort-cons text st h [] w e m =
    let (x, r, w_is, mr) = st.shape w m in h [] r (ground (arith, e, w_is)) mr
abort-cons text st h (y ∷ u) w e m =
    let (x, r, w_is, mr) = st.shape w m in
    h (u ++ x ∷ []) r (ground (arith, e, w_is, append_assoc u (x ∷ []) r)) mr

pub Steps-Judges :
    {t c : ℕ} {p v : Bytes} (text : Bytes) (r : Option Outcome)
    → Steps t c p v
    → Judges r text v
    → Judges r (t ∷ text) (c ∷ p)
Steps-Judges text r st (matched, e, h) = (matched, e, st.there h)
Steps-Judges {t} {c} {p} {v} text r st (mismatched, e, h) =
    (mismatched, e, λ m. let (u, x, is, mx) = st.shape (t ∷ text) m in h (rest_matches u x is mx))
  where
    rest_matches : (u : ℕ) (x : Bytes) → t ∷ text ≡ u ∷ x → Matches x v → Matches text v
    rest_matches u x is mx = let same : x ≡ text = ground arith in subst (λ z. Matches z v) same mx
Steps-Judges text r st (abort, e, h) = (abort, e, abort-cons text st h)
Steps-Judges text r st (overrun, e, h) =
    (overrun, e, λ s m. let (u, x, _, mx) = st.shape s m in h x mx)

-- What a match of a pattern that begins with a byte other than '*' tells of the text.
pub data Begins (c : ℕ) (p : Bytes) : Bytes → Type 0 where
  by_literal :
      {t : ℕ} {s : Bytes} → IsPlain c → to_upper t ≡ to_upper c → Matches s p → Begins c p (t ∷ s)
  by_quoted :
      {t : ℕ} {s : Bytes} (d : ℕ) (q : Bytes)
      → c ≡ b'\\'
      → p ≡ d ∷ q
      → to_upper t ≡ to_upper d
      → Matches s q
      → Begins c p (t ∷ s)
  by_any : {t : ℕ} {s : Bytes} → c ≡ b'?' → Matches s p → Begins c p (t ∷ s)
  by_member :
      {t : ℕ} {s : Bytes} (r : Bytes)
      → c ≡ b'['
      → class_of t p ≡ closed true r
      → Matches s r
      → Begins c p (t ∷ s)

pub begins : {c : ℕ} {s p : Bytes} → c ≢ b'*' → Matches s (c ∷ p) → Begins c p s
begins n (literal pl u m) = by_literal pl u m
begins n (quoted {c = d} {p = q} e u m) = by_quoted d q e refl u m
begins n (any e m) = by_any e m
begins n (star u v e split m) = absurd (n e)
begins n (member r e cl m) = by_member r e cl m

-- A byte other than the special ones: the first byte must equal it up to case.
pub literal-Steps : {t c : ℕ} {p : Bytes} → IsPlain c → to_upper t ≡ to_upper c → Steps t c p p
literal-Steps {t} {c} {p} pl up = record {
  there = literal pl up;
  shape = λ s m. shape_of s (begins pl.2 m);
}
  where
    shape_of : (s : Bytes) → Begins c p s → (u : ℕ) × (r : Bytes) × (s ≡ u ∷ r) × Matches r p
    shape_of _ (by_literal {t = u} {s = r} _ _ m) = (u, r, refl, m)
    shape_of _ (by_quoted d q e _ _ m) = absurd (pl.0 e)
    shape_of _ (by_any e m) = absurd (pl.1 e)
    shape_of _ (by_member r e _ m) = absurd (pl.3 e)

pub any-Steps : {t c : ℕ} {p : Bytes} → c ≡ b'?' → Steps t c p p
any-Steps {t} {c} {p} q = record {
  there = any q;
  shape = λ s m. shape_of s (begins (λ e. omega arith) m);
}
  where
    shape_of : (s : Bytes) → Begins c p s → (u : ℕ) × (r : Bytes) × (s ≡ u ∷ r) × Matches r p
    shape_of _ (by_literal pl _ m) = absurd (pl.1 q)
    shape_of _ (by_quoted d q' e _ _ m) = absurd (omega arith)
    shape_of _ (by_any {t = u} {s = r} e m) = (u, r, refl, m)
    shape_of _ (by_member r e _ m) = absurd (omega arith)

pub quoted-Steps :
    {t c d : ℕ} {p : Bytes} → c ≡ b'\\' → to_upper t ≡ to_upper d → Steps t c (d ∷ p) p
quoted-Steps {t} {c} {d} {p} q up = record {
  there = quoted q up;
  shape = λ s m. shape_of s (begins (λ e. omega arith) m);
}
  where
    shape_of : (s : Bytes) → Begins c (d ∷ p) s → (u : ℕ) × (r : Bytes) × (s ≡ u ∷ r) × Matches r p
    shape_of _ (by_literal pl _ m) = absurd (pl.0 q)
    shape_of _ (by_quoted {t = u} {s = r} d' q' e is _ m) =
        let same : q' ≡ p = ground arith in (u, r, refl, subst (λ z. Matches r z) same m)
    shape_of _ (by_any e m) = absurd (omega arith)
    shape_of _ (by_member r e _ m) = absurd (omega arith)

pub member-Steps :
    {t c : ℕ} {p : Bytes} (v : Bytes) → c ≡ b'[' → class_of t p ≡ closed true v → Steps t c p v
member-Steps {t} {c} {p} v q cl = record {
  there = member v q cl;
  shape = λ s m. shape_of s (begins (λ e. omega arith) m);
}
  where
    shape_of : (s : Bytes) → Begins c p s → (u : ℕ) × (r : Bytes) × (s ≡ u ∷ r) × Matches r v
    shape_of _ (by_literal pl _ m) = absurd (pl.3 q)
    shape_of _ (by_quoted d q' e _ _ m) = absurd (omega arith)
    shape_of _ (by_any e m) = absurd (omega arith)
    shape_of _ (by_member {t = u} {s = r} v' e cl' m) =
        let same : v' ≡ v = ground (arith, class_of-behind p u t, ap behind cl, ap behind cl') in
        (u, r, refl, subst (λ z. Matches r z) same m)

-- A literal, after a backslash or not, that the first byte does not equal.
pub not_literal :
    {t c : ℕ} {s p : Bytes} → IsPlain c → to_upper t ≢ to_upper c → ¬ Matches (t ∷ s) (c ∷ p)
not_literal {t} {c} {s} {p} pl ne m = go (begins pl.2 m)
  where
    go : Begins c p (t ∷ s) → ⊥
    go (by_literal _ up m) = ne up
    go (by_quoted d q e _ _ m) = pl.0 e
    go (by_any e m) = pl.1 e
    go (by_member r e _ m) = pl.3 e

pub not_quoted :
    {t c : ℕ} {s p : Bytes}
    → c ≡ b'\\'
    → ((d : ℕ) (q : Bytes) → p ≡ d ∷ q → to_upper t ≢ to_upper d)
    → ¬ Matches (t ∷ s) (c ∷ p)
not_quoted {t} {c} {s} {p} q ne m = go (begins (λ e. omega arith) m)
  where
    go : Begins c p (t ∷ s) → ⊥
    go (by_literal pl _ m) = pl.0 q
    go (by_quoted d q' e is up m) = ne d q' is up
    go (by_any e m) = omega arith
    go (by_member r e _ m) = omega arith

-- A class that does not accept the byte, or has no end.
pub not_member :
    {t c : ℕ} {s p : Bytes}
    → c ≡ b'['
    → ((r : Bytes) → class_of t p ≢ closed true r)
    → ¬ Matches (t ∷ s) (c ∷ p)
not_member {t} {c} {s} {p} q ne m = go (begins (λ e. omega arith) m)
  where
    go : Begins c p (t ∷ s) → ⊥
    go (by_literal pl _ m) = pl.3 q
    go (by_quoted d q' e is up m) = omega arith
    go (by_any e m) = omega arith
    go (by_member r e cl m) = ne r cl

pub never_member :
    {c : ℕ} {p : Bytes}
    → c ≡ b'['
    → ((t : ℕ) (r : Bytes) → class_of t p ≢ closed true r)
    → (s : Bytes) → ¬ Matches s (c ∷ p)
never_member {c} {p} q ne s m = go (begins (λ e. omega arith) m)
  where
    go : {s : Bytes} → Begins c p s → ⊥
    go (by_literal pl _ m) = pl.3 q
    go (by_quoted d q' e is up m) = omega arith
    go (by_any e m) = omega arith
    go (by_member {t = t} r e cl m) = ne t r cl

-- ===== src/Clients/Names/Sorted.antt =====
-- add_name of support/export/client.c as an insertion into a list of names.
use nfs_utils.Common.{
  ℕ, zero, suc, ◌<◌, ◌≡◌, ◌≢◌, refl, ap, sym, subst, ◌∙◌, Bool, true, false, ◌||◌, Option, none,
  some, List, [], ◌∷◌, ◌++◌, arith, Bytes, All, Lacks, cut, cut-Lacks, cut-Lacks-none, str_eq,
  length, length-append, append_assoc, inl, inr, ◌⊎◌,
}
use nfs_utils.Clients.Names.{Sign, below, same, above, name_cmp, place_loop, insert_at, add_name}
use nfs_utils.Clients.Names.Members.{IsName, join_names, any_eq}

-- The new name goes in front of the first that is not below it.
unfoldable pub insert_name : Bytes → List Bytes → List Bytes
unfolding name_cmp
insert_name add [] = add ∷ []
insert_name add (w ∷ l) = elim (name_cmp w add) [ below ↦ w ∷ insert_name add l | _ ↦ add ∷ w ∷ l ]

-- The comma ends the first name in a comparison.
name_cmp-comma : (w t add : Bytes) → Lacks b',' w → name_cmp (w ++ (b',' ∷ t)) add ≡ name_cmp w add
unfolding name_cmp
name_cmp-comma [] t [] h = refl
name_cmp-comma [] t (d ∷ add) h = refl
name_cmp-comma (c ∷ w) t [] h = refl
name_cmp-comma (c ∷ w) t (d ∷ add) h = ground (arith, name_cmp-comma w t add h.1)

-- Names with a comma behind each
abbrev closed : List Bytes → Bytes
closed [] = []
closed (w ∷ l) = w ++ b',' ∷ closed l

place_loop-below :
    (fuel c : ℕ) (s front add : Bytes) (r : Option (Bytes × Bytes))
    → name_cmp (c ∷ s) add ≡ below
    → cut b',' (c ∷ s) ≡ r
    → place_loop (suc fuel) front (c ∷ s) add ≡ elim r [
      | none ↦ (front ++ (c ∷ s), [])
      | some (name, rest) ↦ place_loop fuel (front ++ (name ++ b',' ∷ [])) rest add
    ]
unfolding place_loop
place_loop-below fuel c s front add r h k = rw (h, k, place_loop) refl

insert_at-rest :
    (front add rest : Bytes) (c : ℕ)
    → insert_at (front, c ∷ rest) add ≡ front ++ (add ++ (b',' ∷ c ∷ rest))
unfolding insert_at
insert_at-rest [] add rest c = refl
insert_at-rest (x ∷ front) add rest c = refl

insert_at-end :
    (front w add : Bytes) (c : ℕ)
    → insert_at (front ++ (c ∷ w), []) add ≡ front ++ ((c ∷ w) ++ (b',' ∷ add))
unfolding insert_at
insert_at-end [] w add c = refl
insert_at-end (x ∷ front) w add c = append_assoc (x ∷ front) (c ∷ w) (b',' ∷ add)

Sign-cases : (x : Sign) → (x ≡ below) ⊎ (x ≢ below)
Sign-cases below = inl refl
Sign-cases same = inr (λ e. cc e)
Sign-cases above = inr (λ e. cc e)

-- One round of the loop, from the sign on
abbrev placed : ℕ → ℕ → Bytes → Bytes → Bytes → Sign → Bytes × Bytes
placed fuel c s front add x = elim x [
  | below ↦ elim (cut b',' (c ∷ s)) [
    | none ↦ (front ++ (c ∷ s), [])
    | some (name, rest) ↦ place_loop fuel (front ++ (name ++ b',' ∷ [])) rest add
  ]
  | _ ↦ (front, c ∷ s)
]

placed-here :
    (fuel c : ℕ) (s front add : Bytes) (x : Sign)
    → x ≢ below
    → placed fuel c s front add x ≡ (front, c ∷ s)
placed-here fuel c s front add below k = absurd (k refl)
placed-here fuel c s front add same k = refl
placed-here fuel c s front add above k = refl

place_loop-here :
    (fuel c : ℕ) (s front add : Bytes)
    → name_cmp (c ∷ s) add ≢ below
    → place_loop (suc fuel) front (c ∷ s) add ≡ (front, c ∷ s)
unfolding place_loop
place_loop-here fuel c s front add h = placed-here fuel c s front add (name_cmp (c ∷ s) add) h

insert_name-here :
    (add w : Bytes) (l : List Bytes)
    → name_cmp w add ≢ below
    → insert_name add (w ∷ l) ≡ add ∷ w ∷ l
unfolding insert_name
insert_name-here add w l h = go (name_cmp w add) h
  where
    go :
        (x : Sign)
        → x ≢ below
        → elim x [ below ↦ w ∷ insert_name add l | _ ↦ add ∷ w ∷ l ] ≡ add ∷ w ∷ l
    go below k = absurd (k refl)
    go same k = refl
    go above k = refl

insert_name-below :
    (add w : Bytes) (l : List Bytes)
    → name_cmp w add ≡ below
    → insert_name add (w ∷ l) ≡ w ∷ insert_name add l
unfolding insert_name
insert_name-below add w l h = rw (h, insert_name) refl

-- In front of a list that is not empty, a name is followed by a comma.
join_names-cons :
    (w add : Bytes) (l : List Bytes)
    → join_names (w ∷ insert_name add l) ≡ w ++ (b',' ∷ join_names (insert_name add l))
unfolding join_names insert_name
join_names-cons w add [] = refl
join_names-cons w add (v ∷ l) = go (name_cmp v add)
  where
    go :
        (x : Sign)
        → join_names (w ∷ elim x [ below ↦ v ∷ insert_name add l | _ ↦ add ∷ v ∷ l ])
          ≡ w ++ (b',' ∷ join_names (elim x [ below ↦ v ∷ insert_name add l | _ ↦ add ∷ v ∷ l ]))
    go below = refl
    go same = refl
    go above = refl

place_loop-insert :
    (fuel : ℕ) (front add w : Bytes) (l : List Bytes)
    → All IsName (w ∷ l)
    → length (join_names (w ∷ l)) < fuel
    → insert_at (place_loop fuel front (join_names (w ∷ l)) add) add
      ≡ front ++ join_names (insert_name add (w ∷ l))
unfolding join_names insert_name
place_loop-insert zero front add w l h enough = elim enough [ ]
place_loop-insert (suc fuel) front add [] l h enough = elim h.0 [ ]
place_loop-insert (suc fuel) front add (c ∷ w) [] h enough =
    elim (Sign-cases (name_cmp (c ∷ w) add)) [
      | inl low ↦
          ap (λ (r : Bytes × Bytes). insert_at r add)
            (place_loop-below fuel c w front add none low (cut-Lacks-none b',' (c ∷ w) h.0.0))
          ∙ insert_at-end front w add c
          ∙ ap (λ (t : List Bytes). front ++ join_names t)
              (sym (insert_name-below add (c ∷ w) [] low))
      | inr high ↦
          ap (λ (r : Bytes × Bytes). insert_at r add) (place_loop-here fuel c w front add high)
          ∙ insert_at-rest front add w c
          ∙ ap (λ (t : List Bytes). front ++ join_names t)
              (sym (insert_name-here add (c ∷ w) [] high))
    ]
place_loop-insert (suc fuel) front add (c ∷ w) (v ∷ l) h enough =
    let t = join_names (v ∷ l) in
    let first = (c ∷ w) ++ b',' ∷ [] in
    let cmp : name_cmp ((c ∷ w) ++ (b',' ∷ t)) add ≡ name_cmp (c ∷ w) add =
      name_cmp-comma (c ∷ w) t add h.0.0 in
    elim (Sign-cases (name_cmp (c ∷ w) add)) [
      | inl low ↦
          ap (λ (r : Bytes × Bytes). insert_at r add)
            (place_loop-below fuel c (w ++ (b',' ∷ t)) front add (some (c ∷ w, t)) (cmp ∙ low)
              (cut-Lacks b',' (c ∷ w) t h.0.0))
          ∙ place_loop-insert fuel (front ++ first) add v l h.1
              (omega (arith, length-append (c ∷ w) (b',' ∷ t)))
          ∙ append_assoc front first (join_names (insert_name add (v ∷ l)))
          ∙ ap (λ (u : Bytes). front ++ u)
              (append_assoc (c ∷ w) (b',' ∷ []) (join_names (insert_name add (v ∷ l)))
                ∙ sym (join_names-cons (c ∷ w) add (v ∷ l))
                ∙ ap join_names (sym (insert_name-below add (c ∷ w) (v ∷ l) low)))
      | inr high ↦
          ap (λ (r : Bytes × Bytes). insert_at r add)
            (place_loop-here fuel c (w ++ (b',' ∷ t)) front add (λ e. high (sym cmp ∙ e)))
          ∙ insert_at-rest front add (w ++ (b',' ∷ t)) c
          ∙ ap (λ (u : List Bytes). front ++ join_names u)
              (sym (insert_name-here add (c ∷ w) (v ∷ l) high))
    ]

-- On the text of a list of names, add_name puts the new name in front of the first one that does not
-- compare below it, and at the end if there is none.
pub add_name-join_names :
    (add : Bytes) (l : List Bytes)
    → All IsName l
    → add_name (some (join_names l)) add ≡ join_names (insert_name add l)
unfolding add_name
add_name-join_names add [] h = unfold join_names insert_name insert_at place_loop in refl
add_name-join_names add (w ∷ l) h =
    place_loop-insert (suc (length (join_names (w ∷ l)))) [] add w l h (omega arith)

flip : Sign → Sign
flip below = above
flip same = same
flip above = below

-- A name of bytes
abbrev pub IsByteName : Bytes → Type 0
IsByteName s = Lacks b',' s × All (λ c. c < 256) s

name_cmp-flip : (a b : Bytes) → IsByteName a → IsByteName b → name_cmp a b ≡ flip (name_cmp b a)
unfolding name_cmp flip
name_cmp-flip [] [] h k = refl
name_cmp-flip [] (d ∷ b) h k = ground (arith, k.0.0)
name_cmp-flip (c ∷ a) [] h k = ground (arith, h.0.0)
name_cmp-flip (c ∷ a) (d ∷ b) (h, hb) (k, kb) =
    ground (arith, h.0, k.0, hb.0, kb.0, name_cmp-flip a b (h.1, hb.1) (k.1, kb.1))

-- No name compares above the next one.
abbrev pub IsSorted : List Bytes → Type 0
IsSorted [] = Unit
IsSorted (w ∷ l) = elim l [ [] ↦ Unit | v ∷ m ↦ (name_cmp w v ≢ above) × IsSorted l ]

-- What may stand behind `w`
abbrev Follows : Bytes → List Bytes → Type 0
Follows w [] = Unit
Follows w (v ∷ m) = name_cmp w v ≢ above

IsSorted-cons : (w : Bytes) (l : List Bytes) → Follows w l → IsSorted l → IsSorted (w ∷ l)
IsSorted-cons w [] f s = tt
IsSorted-cons w (v ∷ l) f s = (f, s)

head-Follows : (w : Bytes) (l : List Bytes) → IsSorted (w ∷ l) → Follows w l
head-Follows w [] s = tt
head-Follows w (v ∷ l) s = s.0

IsSorted-tail : (w : Bytes) (l : List Bytes) → IsSorted (w ∷ l) → IsSorted l
IsSorted-tail w [] s = tt
IsSorted-tail w (v ∷ l) s = s.1

not_below-flip :
    (add w : Bytes)
    → IsByteName add
    → IsByteName w
    → name_cmp w add ≢ below
    → name_cmp add w ≢ above
not_below-flip add w a b h e = h (name_cmp-flip w add b a ∙ ap flip e ∙ unfold flip in refl)

insert_name-Follows :
    (u add : Bytes) (l : List Bytes)
    → Follows u l
    → name_cmp u add ≡ below
    → Follows u (insert_name add l)
unfolding insert_name
insert_name-Follows u add [] f h = λ e. cc (h, e)
insert_name-Follows u add (w ∷ l) f h = elim (Sign-cases (name_cmp w add)) [
  | inl low ↦ subst (Follows u) (sym (insert_name-below add w l low)) f
  | inr high ↦ subst (Follows u) (sym (insert_name-here add w l high)) (λ e. cc (h, e))
]

-- The insertion keeps the order.
pub insert_name-IsSorted :
    (add : Bytes) (l : List Bytes)
    → IsByteName add
    → All IsByteName l
    → IsSorted l
    → IsSorted (insert_name add l)
insert_name-IsSorted add [] a b s = unfold insert_name in tt
insert_name-IsSorted add (w ∷ l) a b s = elim (Sign-cases (name_cmp w add)) [
  | inl low ↦ subst IsSorted (sym (insert_name-below add w l low)) (
      IsSorted-cons w (insert_name add l) (insert_name-Follows w add l (head-Follows w l s) low)
        (insert_name-IsSorted add l a b.1 (IsSorted-tail w l s)))
  | inr high ↦
      subst IsSorted (sym (insert_name-here add w l high)) (not_below-flip add w a b.0 high, s)
]

pub insert_name-All {κ} :
    (P : Bytes → Type κ) (add : Bytes) (l : List Bytes)
    → P add
    → All P l
    → All P (insert_name add l)
insert_name-All P add [] a b = unfold insert_name in (a, tt)
insert_name-All P add (w ∷ l) a b = elim (Sign-cases (name_cmp w add)) [
  | inl low ↦
      subst (All P) (sym (insert_name-below add w l low)) (b.0, insert_name-All P add l a b.1)
  | inr high ↦ subst (All P) (sym (insert_name-here add w l high)) (a, b)
]

or_swap : (a b c : Bool) → a || (b || c) ≡ b || (a || c)
or_swap true true c = refl
or_swap true false c = refl
or_swap false true c = refl
or_swap false false c = refl

pub any_eq-insert_name :
    (name add : Bytes) (l : List Bytes)
    → any_eq name (insert_name add l) ≡ str_eq name add || any_eq name l
any_eq-insert_name name add [] = unfold insert_name in refl
any_eq-insert_name name add (w ∷ l) = elim (Sign-cases (name_cmp w add)) [
  | inl low ↦
      ap (any_eq name) (insert_name-below add w l low)
      ∙ ap (λ (b : Bool). str_eq name w || b) (any_eq-insert_name name add l)
      ∙ or_swap (str_eq name w) (str_eq name add) (any_eq name l)
  | inr high ↦ ap (any_eq name) (insert_name-here add w l high)
]

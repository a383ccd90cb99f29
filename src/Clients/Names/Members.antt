-- ===== src/Clients/Names/Members.antt =====
-- client_member of support/export/client.c on a list of names.
use nfs_utils.Common.{
  ℕ, zero, suc, ◌<◌, ◌≡◌, refl, ap, ◌∙◌, Bool, true, false, ◌&&◌, ◌||◌, Option, none, some, List,
  [], ◌∷◌, ◌++◌, arith, ◌==◌, if◌then◌else◌, Bytes, All, Lacks, cut, cut-Lacks, cut-Lacks-none,
  starts, str_eq, length, length-append, drop, peek,
}
use nfs_utils.Clients.Names.{member_loop, client_member}

-- A name in such a list: not empty, without commas and without a NUL
abbrev pub IsName : Bytes → Type 0
IsName [] = ⊥
IsName (c ∷ s) = Lacks b',' (c ∷ s) × Lacks 0 (c ∷ s)

-- The list as text
unfoldable pub join_names : List Bytes → Bytes
join_names [] = []
join_names (w ∷ l) = elim l [ [] ↦ w | _ ↦ w ++ b',' ∷ join_names l ]

abbrev pub any_eq : Bytes → List Bytes → Bool
any_eq name [] = false
any_eq name (w ∷ l) = str_eq name w || any_eq name l

-- The test at the front of a list
abbrev pub at_front : Bytes → Bytes → Bool
at_front name s =
    let end = peek (drop (length name) s) in starts name s && (end == b',' || end == 0)

at_front-last : (name w : Bytes) → Lacks b',' w → Lacks 0 w → at_front name w ≡ str_eq name w
unfolding starts str_eq
at_front-last [] [] h k = refl
at_front-last [] (c ∷ w) h k = ground arith
at_front-last (x ∷ name) [] h k = refl
at_front-last (x ∷ name) (c ∷ w) h k = ground (arith, at_front-last name w h.1 k.1)

at_front-comma :
    (name w t : Bytes)
    → Lacks b',' name
    → Lacks b',' w
    → Lacks 0 w
    → at_front name (w ++ (b',' ∷ t)) ≡ str_eq name w
unfolding starts str_eq
at_front-comma [] [] t n h k = refl
at_front-comma [] (c ∷ w) t n h k = ground arith
at_front-comma (x ∷ name) [] t n h k = ground arith
at_front-comma (x ∷ name) (c ∷ w) t n h k = ground (arith, at_front-comma name w t n.1 h.1 k.1)

abbrev advance : ℕ → Bytes → Option (Bytes × Bytes) → Option Bool
advance fuel name r = elim r [ none ↦ some false | some (_, rest) ↦ member_loop fuel rest name ]

member_loop-step :
    (fuel c : ℕ) (s name : Bytes) (b : Bool) (r : Option (Bytes × Bytes))
    → at_front name (c ∷ s) ≡ b
    → cut b',' (c ∷ s) ≡ r
    → member_loop (suc fuel) (c ∷ s) name ≡ (if b then some true else advance fuel name r)
unfolding member_loop
member_loop-step fuel c s name true r h k =
    ap (λ (x : Bool). elim x [ true ↦ some true | false ↦ advance fuel name (cut b',' (c ∷ s)) ]) h
member_loop-step fuel c s name false r h k =
    ap (λ (x : Bool). elim x [ true ↦ some true | false ↦ advance fuel name (cut b',' (c ∷ s)) ]) h
    ∙ ap (advance fuel name) k

or_true : (a b : Bool) → (if a then some true else some b) ≡ some (a || b)
or_true true b = refl
or_true false b = refl

member_loop-join_names :
    (fuel : ℕ) (l : List Bytes) (name : Bytes)
    → All IsName l
    → Lacks b',' name
    → length (join_names l) < fuel
    → member_loop fuel (join_names l) name ≡ some (any_eq name l)
unfolding join_names
member_loop-join_names zero l name h n enough = elim enough [ ]
member_loop-join_names (suc fuel) [] name h n enough = unfold member_loop in refl
member_loop-join_names (suc fuel) ([] ∷ l) name h n enough = elim h.0 [ ]
member_loop-join_names (suc fuel) ((c ∷ w) ∷ []) name h n enough =
    member_loop-step fuel c w name (str_eq name (c ∷ w)) none
      (at_front-last name (c ∷ w) h.0.0 h.0.1) (cut-Lacks-none b',' (c ∷ w) h.0.0)
    ∙ or_true (str_eq name (c ∷ w)) false
member_loop-join_names (suc fuel) ((c ∷ w) ∷ v ∷ l) name h n enough =
    let t = join_names (v ∷ l) in
    member_loop-step fuel c (w ++ (b',' ∷ t)) name (str_eq name (c ∷ w)) (some (c ∷ w, t))
      (at_front-comma name (c ∷ w) t n h.0.0 h.0.1) (cut-Lacks b',' (c ∷ w) t h.0.0)
    ∙ ap (λ (r : Option Bool). if str_eq name (c ∷ w) then some true else r)
        (member_loop-join_names fuel (v ∷ l) name h.1 n
          (omega (arith, length-append (c ∷ w) (b',' ∷ t))))
    ∙ or_true (str_eq name (c ∷ w)) (any_eq name (v ∷ l))

-- On a comma-separated list of names, client_member finds exactly the names of the list, for a name
-- without commas.
pub client_member-join_names :
    (l : List Bytes) (name : Bytes)
    → All IsName l
    → Lacks b',' name
    → client_member (join_names l) name ≡ any_eq name l
unfolding client_member
client_member-join_names l name h n =
    ap (λ (r : Option Bool). elim r [ none ↦ false | some b ↦ b ])
      (member_loop-join_names (suc (length (join_names l))) l name h n (omega arith))

-- ===== src/Mount/Options/Lookup.antt =====
-- What po_get and po_rightmost of utils/mount/parse_opt.c find.
use mathlib.Core.List.{reverse, reverse-append}
use nfs_utils.Common.{
  ℕ, ◌+◌, ◌≡◌, ◌≢◌, ◌⊎◌, inl, inr, refl, ap, ◌∙◌, sym, none, some, List, [], ◌∷◌, ◌++◌, arith,
  Bytes, All, append_assoc, append-nil, All-append, str_eq, str_eq_iff, str_eq_refl, pos, negsuc,
  Bool-cases, length,
}
use nfs_utils.Mount.Options.{
  MountOption, MountOptions, get_first, po_get, key_index, rightmost, po_rightmost,
}

-- No option of the list has the keyword.
abbrev pub Without : Bytes → List MountOption → Type 0
Without k = All (λ o. o.keyword ≢ k)

get_first-append_ne :
    (k : Bytes) (xs ys : List MountOption) → Without k xs → get_first (xs ++ ys) k ≡ get_first ys k
unfolding get_first
get_first-append_ne k [] ys h = refl
get_first-append_ne k (x ∷ xs) ys h =
    ground (arith, str_eq_iff x.keyword k, get_first-append_ne k xs ys h.1)

module _ {ℓ} (P : MountOption → Type ℓ) where
  pub All-reverse : (xs : List MountOption) → All P xs → All P (reverse xs)
  All-reverse [] h = tt
  All-reverse (x ∷ xs) h =
      rw (reverse-append (x ∷ []) xs)
        (All-append P (reverse xs) (x ∷ []) (All-reverse xs h.1) (h.0, tt))

pub reverse_middle :
    (xs ys : List MountOption) (x : MountOption)
    → reverse (xs ++ x ∷ ys) ≡ reverse ys ++ x ∷ reverse xs
reverse_middle xs ys x =
    reverse-append xs (x ∷ ys)
    ∙ rw (reverse-append (x ∷ []) ys) (append_assoc (reverse ys) (x ∷ []) (reverse xs))

get_first-Without : (k : Bytes) (xs : List MountOption) → Without k xs → get_first xs k ≡ none
unfolding get_first
get_first-Without k [] h = refl
get_first-Without k (x ∷ xs) h = ground (arith, str_eq_iff x.keyword k, get_first-Without k xs h.1)

-- The rightmost option with the keyword, and what stands before and behind it.
pub record Rightmost (k : Bytes) (items : List MountOption) : Type 0 where
  pub before : List MountOption
  pub option : MountOption
  pub behind : List MountOption
  pub splits : items ≡ before ++ option ∷ behind
  pub is_keyword : option.keyword ≡ k
  pub last : Without k behind

pub find-Rightmost : (k : Bytes) (items : List MountOption) → Without k items ⊎ Rightmost k items
find-Rightmost k [] = inl tt
find-Rightmost k (x ∷ xs) = elim (find-Rightmost k xs) [
  | inr r ↦ inr (record {
    before = x ∷ r.before;
    option = r.option;
    behind = r.behind;
    splits = ap (λ t. x ∷ t) r.splits;
    is_keyword = r.is_keyword;
    last = r.last;
  })
  | inl w ↦ (elim (Bool-cases (str_eq x.keyword k)) [
    | inl same ↦ inr (record {
      before = [];
      option = x;
      behind = xs;
      splits = refl;
      is_keyword = (str_eq_iff x.keyword k).0 same;
      last = w;
    })
    | inr other ↦ inl (ground (arith, str_eq_iff x.keyword k), w)
  ])
]

-- po_get returns the value of the rightmost option with the keyword, and NULL exactly when there
-- is no such option or the rightmost one has no value.
pub po_get_lem :
    (o : MountOptions) (k : Bytes)
    → (Without k o.items × (po_get o k ≡ none))
      ⊎ ((r : Rightmost k o.items) × (po_get o k ≡ r.option.value))
unfolding po_get
po_get_lem o k = elim (find-Rightmost k o.items) [
  | inl w ↦
      inl (w, get_first-Without k (reverse o.items) (All-reverse (λ o. o.keyword ≢ k) o.items w))
  | inr r ↦ inr (
    r,
    rw (r.splits, reverse_middle r.before r.behind r.option)
        (get_first-append_ne k (reverse r.behind) (r.option ∷ reverse r.before)
            (All-reverse (λ o. o.keyword ≢ k) r.behind r.last)
          ∙ unfold get_first in ground (arith, str_eq_iff r.option.keyword k, r.is_keyword)),
  )
]

key_index-append :
    (before after : List Bytes) (kw : Bytes) (i : ℕ)
    → All (λ k. kw ≢ k) before
    → key_index (before ++ kw ∷ after) i kw ≡ some (i + length before)
unfolding key_index
key_index-append [] after kw i h = ground (arith, str_eq_refl kw)
key_index-append (k ∷ before) after kw i h =
    ground (arith, str_eq_iff kw k, key_index-append before after kw (i + 1) h.1)

key_index-none :
    (keys : List Bytes) (kw : Bytes) (i : ℕ) → All (λ k. kw ≢ k) keys → key_index keys i kw ≡ none
unfolding key_index
key_index-none [] kw i h = refl
key_index-none (k ∷ keys) kw i h =
    ground (arith, str_eq_iff kw k, key_index-none keys kw (i + 1) h.1)

abbrev pub Unlisted : List Bytes → MountOption → Type 0
Unlisted keys o = All (λ k. o.keyword ≢ k) keys

rightmost-append :
    (keys : List Bytes) (xs ys : List MountOption)
    → All (Unlisted keys) xs
    → rightmost (xs ++ ys) keys ≡ rightmost ys keys
unfolding rightmost
rightmost-append keys [] ys h = refl
rightmost-append keys (x ∷ xs) ys h =
    ground (arith, key_index-none keys x.keyword 0 h.0, rightmost-append keys xs ys h.1)

-- Where an option's keyword is listed and none of the options behind it has a listed keyword,
-- po_rightmost returns the first index at which it is listed.
pub po_rightmost_listed :
    (keys earlier later : List Bytes) (xs ys : List MountOption) (x : MountOption) (n : ℕ)
    → All (Unlisted keys) ys
    → keys ≡ earlier ++ x.keyword ∷ later
    → All (λ k. x.keyword ≢ k) earlier
    → po_rightmost (record { items = xs ++ x ∷ ys; count = n }) keys ≡ pos (length earlier)
unfolding po_rightmost
po_rightmost_listed keys earlier later xs ys x n hy e he = rw (reverse_middle xs ys x) (
    rightmost-append keys (reverse ys) (x ∷ reverse xs) (All-reverse (Unlisted keys) ys hy)
    ∙ unfold rightmost in rw e (ground (arith, key_index-append earlier later x.keyword 0 he)))

-- With no listed option po_rightmost returns -1.
pub po_rightmost-Unlisted :
    (keys : List Bytes) (o : MountOptions)
    → All (Unlisted keys) o.items
    → po_rightmost o keys ≡ negsuc 0
unfolding po_rightmost
po_rightmost-Unlisted keys o h =
    ap (λ t. rightmost t keys) (sym (append-nil (reverse o.items)))
    ∙ rightmost-append keys (reverse o.items) [] (All-reverse (Unlisted keys) o.items h)
    ∙ unfold rightmost in refl

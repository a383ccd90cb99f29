-- ===== src/Mount/Options/Removal.antt =====
-- po_remove_all of utils/mount/parse_opt.c.
use nfs_utils.Common.{
  ℕ, ◌+◌, ◌≡◌, refl, ap, inl, inr, Bool, true, false, ◌||◌, List, [], ◌∷◌, ◌++◌, arith,
  if◌then◌else◌, Bytes, length, length-append, append_assoc, str_eq, str_eq_iff, Bool-cases,
}
use nfs_utils.Mount.Options.{
  MountOption, MountOptions, options_delete, remove_at, remove_loop, po_remove_all, contains,
  po_contains,
}
use nfs_utils.Mount.Options.Counts.{IsValid, options_delete-IsValid}
use nfs_utils.Mount.Options.Lookup.{Without}

-- The options whose keyword is another.
pub others : Bytes → List MountOption → List MountOption
others k [] = []
others k (x ∷ xs) = if str_eq x.keyword k then others k xs else x ∷ others k xs

pub others-Without : (k : Bytes) (xs : List MountOption) → Without k (others k xs)
unfolding others
others-Without k [] = tt
others-Without k (x ∷ xs) = ground (arith, str_eq_iff x.keyword k, others-Without k xs)

remove_at-append :
    (xs ys : List MountOption) (y : MountOption) → remove_at (xs ++ y ∷ ys) (length xs) ≡ xs ++ ys
remove_at-append [] ys y = refl
remove_at-append (x ∷ xs) ys y = ap (λ t. x ∷ t) (remove_at-append xs ys y)

delete_middle :
    (xs ys : List MountOption) (y : MountOption) (o : MountOptions)
    → IsValid o
    → o.items ≡ xs ++ y ∷ ys
    → (options_delete o (length xs)).items ≡ xs ++ ys
unfolding options_delete
delete_middle xs ys y o v e =
    ground (arith, ap length e, length-append xs (y ∷ ys), remove_at-append xs ys y)

remove_loop_lem :
    (next kept : List MountOption) (k : Bytes) (seen : Bool) (o : MountOptions) (i : ℕ)
    → i ≡ length kept
    → IsValid o
    → o.items ≡ kept ++ next
    → ((remove_loop next i k seen o).0 ≡ (seen || contains next k))
      × ((remove_loop next i k seen o).1.items ≡ kept ++ others k next)
      × IsValid (remove_loop next i k seen o).1
unfolding remove_loop contains others
remove_loop_lem [] kept k seen o i l v e = (ground arith, e, v)
remove_loop_lem (x ∷ next) kept k seen o i l v e = elim (Bool-cases (str_eq x.keyword k)) [
  | inl same ↦
      let o' = options_delete o i in
      let gone : o'.items ≡ kept ++ next = rw l (delete_middle kept next x o v e) in
      let v' : IsValid o' =
        options_delete-IsValid o i v (omega (arith, ap length e, length-append kept (x ∷ next))) in
      let (a, b, c) = remove_loop_lem next kept k true o' i l v' gone in
      (ground (arith, a, same), ground (arith, b, same), ground (arith, c, same))
  | inr other ↦
      let e' : o.items ≡ (kept ++ x ∷ []) ++ next = rw append_assoc e in
      let l' : i + 1 ≡ length (kept ++ x ∷ []) = omega (arith, l, length-append kept (x ∷ [])) in
      let (a, b, c) = remove_loop_lem next (kept ++ x ∷ []) k seen o (i + 1) l' v e' in
      (
        ground (arith, a, other),
        ground (arith, b, other, append_assoc kept (x ∷ []) (others k next)),
        ground (arith, c, other),
      )
]

-- On a group with a right count, po_remove_all leaves, in order, exactly the options with another
-- keyword, reports whether there was one to remove, and keeps the count right.
pub po_remove_all_lem :
    (o : MountOptions) (k : Bytes)
    → IsValid o
    → ((po_remove_all o k).0 ≡ po_contains o k)
      × ((po_remove_all o k).1.items ≡ others k o.items)
      × IsValid (po_remove_all o k).1
unfolding po_remove_all po_contains
po_remove_all_lem o k v = remove_loop_lem o.items [] k false o 0 refl v refl

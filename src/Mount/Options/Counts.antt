-- ===== src/Mount/Options/Counts.antt =====
-- The count of utils/mount/parse_opt.c and the loops that rely on it.
use nfs_utils.Common.{
  ℕ, zero, suc, ◌+◌, ◌^◌, ◌<◌, ◌≡◌, refl, ap, ◌⊎◌, inl, inr, none, some, List, [], ◌∷◌, ◌++◌, arith,
  length, length-append, append-nil, append_assoc,
}
use nfs_utils.Mount.Options.{
  MountOption, MountOptions, options_create, options_tail_insert, options_head_insert,
  options_delete, remove_at, delete_all, po_destroy, po_replace, option_dup, dup_loop, po_dup,
}

-- `count` tells the number of options, which an unsigned int holds.
pub record IsValid (o : MountOptions) : Type 0 where
  pub counted : o.count ≡ length o.items
  pub fits : length o.items < 2 ^ 32

pub IsValid-create : IsValid options_create
IsValid-create = record { counted = refl; fits = omega arith }

pub options_tail_insert-IsValid :
    (o : MountOptions) (x : MountOption)
    → IsValid o
    → length o.items + 1 < 2 ^ 32
    → IsValid (options_tail_insert o x)
unfolding options_tail_insert
options_tail_insert-IsValid o x v h = record {
  counted = omega (arith, length-append o.items (x ∷ []));
  fits = omega (arith, length-append o.items (x ∷ []));
}

pub options_head_insert-IsValid :
    (o : MountOptions) (x : MountOption)
    → IsValid o
    → length o.items + 1 < 2 ^ 32
    → IsValid (options_head_insert o x)
unfolding options_head_insert
options_head_insert-IsValid o x v h = record { counted = omega arith; fits = omega arith }

pub length-remove_at :
    (xs : List MountOption) (i : ℕ) → i < length xs → length (remove_at xs i) + 1 ≡ length xs
length-remove_at [] i h = elim h [ ]
length-remove_at (x ∷ xs) zero h = omega arith
length-remove_at (x ∷ xs) (suc i) h = omega (arith, length-remove_at xs i)

pub options_delete-IsValid :
    (o : MountOptions) (i : ℕ) → IsValid o → i < length o.items → IsValid (options_delete o i)
unfolding options_delete
options_delete-IsValid o i v h = ground (arith, length-remove_at o.items i h)

delete_all-IsValid :
    (xs : List MountOption) (o : MountOptions)
    → o.items ≡ xs
    → IsValid o
    → delete_all o xs ≡ some options_create
unfolding delete_all
delete_all-IsValid [] o e v = ground (arith, ap length e)
delete_all-IsValid (x ∷ xs) o e v =
    let some_left : 0 < length o.items = rw e (omega arith) in
    ground (
      arith,
      some_left,
      delete_all-IsValid xs (options_delete o 0) (deleted o x xs e (omega arith))
          (options_delete-IsValid o 0 v some_left),
    )
  where
    deleted :
        (o : MountOptions) (x : MountOption) (xs : List MountOption)
        → o.items ≡ x ∷ xs
        → 0 < o.count
        → (options_delete o 0).items ≡ xs
    deleted o x xs e h = unfold options_delete in ground (arith, e, h)

-- On a group with a right count, po_destroy frees every option and follows no NULL pointer.
pub po_destroy-IsValid : (o : MountOptions) → IsValid o → po_destroy o ≡ some options_create
unfolding po_destroy
po_destroy-IsValid o v = delete_all-IsValid o.items o refl v

-- po_replace moves the source's options into the target and leaves the source empty; with no
-- source the target is emptied.
pub po_replace_lem :
    (target source : MountOptions)
    → IsValid target
    → (po_replace target (some source) ≡ some (source, some options_create))
      × (po_replace target none ≡ some (options_create, none))
unfolding po_replace
po_replace_lem target source v = ground (arith, delete_all-IsValid target.items target refl v)

option_dup_lem : (x : MountOption) → option_dup x ≡ x
unfolding option_dup
option_dup_lem x = refl

pub inserted :
    (o : MountOptions) (x : MountOption)
    → IsValid o
    → length o.items + 1 < 2 ^ 32
    → (((options_tail_insert o x).items ≡ o.items ++ x ∷ [])
        × ((options_tail_insert o x).count ≡ o.count + 1))
      × IsValid (options_tail_insert o x)
inserted o x v h = (
  (unfold options_tail_insert in refl, unfold options_tail_insert in omega arith),
  options_tail_insert-IsValid o x v h,
)

dup_loop-append :
    (next : List MountOption) (done : MountOptions) (n : ℕ)
    → IsValid done
    → n ≡ done.count + length next
    → n < 2 ^ 32
    → dup_loop n next done ≡ some (record { items = done.items ++ next; count = n })
unfolding dup_loop
dup_loop-append [] done n v e h = ground (arith, append-nil done.items)
dup_loop-append (x ∷ next) done n v e h =
    let room : length done.items + 1 < 2 ^ 32 = omega arith in
    let (done', v') = inserted done (option_dup x) v room in
    ground (
      arith,
      dup_loop-append next (options_tail_insert done (option_dup x)) n v' (omega (arith, done'.1))
          h,
      done',
      option_dup_lem x,
      append_assoc done.items (x ∷ []) next,
    )

-- The copy of a group with a right count equals the group.
pub po_dup-IsValid : (o : MountOptions) → IsValid o → po_dup o ≡ some o
unfolding po_dup
po_dup-IsValid o v = elim (cases o.items) [
  | inl empty ↦ ground (arith, ap length empty)
  | inr (x, xs, full) ↦ ground (
    arith,
    ap length full,
    dup_loop-append o.items options_create o.count IsValid-create (omega arith) (omega arith),
  )
]
  where
    cases :
        (l : List MountOption)
        → (l ≡ []) ⊎ ((x : MountOption) × (xs : List MountOption) × (l ≡ x ∷ xs))
    cases [] = inl refl
    cases (x ∷ xs) = inr (x, xs, refl)

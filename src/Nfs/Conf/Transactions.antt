-- ===== src/Nfs/Conf/Transactions.antt =====
-- What conf_end of support/nfs/conffile.c does to the queue and to the bindings.
use nfs_utils.Common.{
  ℕ, ◌≡◌, inl, inr, refl, ap, sym, ◌∙◌, Bool, true, false, Option, none, some, List, [], ◌∷◌, ◌++◌,
  append-nil, append_assoc, arith, ◌==◌, if◌then◌else◌, Bytes, Bool-cases, Option-cases,
}
use nfs_utils.Nfs.Conf.{
  Bindings, ConfOp, ConfTrans, Conf, run_op, end_node, keep_node, end_loop, conf_end,
}

-- The nodes of the other transactions, in their order.
unfoldable pub of_others : ℕ → List ConfTrans → List ConfTrans
of_others transaction [] = []
of_others transaction (node ∷ l) =
    if node.trans == transaction then of_others transaction l else node ∷ of_others transaction l

-- The operations of the transaction, in their order.
unfoldable pub own_ops : ℕ → List ConfTrans → List ConfOp
own_ops transaction [] = []
own_ops transaction (node ∷ l) =
    if node.trans == transaction then node.op ∷ own_ops transaction l else own_ops transaction l

unfoldable pub run_ops : (Bytes → Option Bytes) → ℕ → Bindings → List ConfOp → Option Bindings
run_ops getenv fuel b [] = some b
run_ops getenv fuel b (op ∷ l) = elim (run_op getenv fuel b op) [
  | none ↦ none
  | some b' ↦ run_ops getenv fuel b' l
]

abbrev pub with_queue : List ConfTrans → Option Bindings → Option (Bindings × List ConfTrans)
with_queue queue none = none
with_queue queue (some b) = some (b, queue)

-- The bindings that the transaction leaves.
abbrev pub outcome :
    (Bytes → Option Bytes) → ℕ → ℕ → Bool → List ConfTrans → Bindings → Option Bindings
outcome getenv fuel transaction commit queue b =
    if commit then run_ops getenv fuel b (own_ops transaction queue) else some b

module _ (getenv : Bytes → Option Bytes) (fuel transaction : ℕ) where
  end_loop-step :
      (commit : Bool) (node : ConfTrans) (next kept : List ConfTrans) (b : Bindings) (keep : Bool)
      (b' : Bindings)
      → end_node getenv fuel transaction commit node b ≡ some (keep, b')
      → end_loop getenv fuel transaction commit (node ∷ next) kept b
        ≡ end_loop getenv fuel transaction commit next (keep_node keep node kept) b'
  unfolding end_loop
  end_loop-step commit node next kept b keep b' e = rw (e, end_loop) refl

  end_loop-stuck :
      (commit : Bool) (node : ConfTrans) (next kept : List ConfTrans) (b : Bindings)
      → end_node getenv fuel transaction commit node b ≡ none
      → end_loop getenv fuel transaction commit (node ∷ next) kept b ≡ none
  unfolding end_loop
  end_loop-stuck commit node next kept b e = rw (e, end_loop) refl

  end_node-other :
      (commit : Bool) (node : ConfTrans) (b : Bindings)
      → (node.trans == transaction) ≡ false
      → end_node getenv fuel transaction commit node b ≡ some (true, b)
  unfolding end_node
  end_node-other commit node b e = ground (arith, e)

  end_node-own :
      (commit : Bool) (node : ConfTrans) (b : Bindings)
      → (node.trans == transaction) ≡ true
      → end_node getenv fuel transaction commit node b ≡ (
          if commit
          then (elim (run_op getenv fuel b node.op) [ none ↦ none | some b' ↦ some (false, b') ])
          else some (false, b))
  unfolding end_node
  end_node-own commit node b e = ground (arith, e)

  of_others-cons :
      (node : ConfTrans) (next : List ConfTrans) (own : Bool)
      → (node.trans == transaction) ≡ own
      → of_others transaction (node ∷ next)
        ≡ (if own then of_others transaction next else node ∷ of_others transaction next)
  unfolding of_others
  of_others-cons node next own e = ground (arith, e)

  outcome-other :
      (commit : Bool) (node : ConfTrans) (next : List ConfTrans) (b : Bindings)
      → (node.trans == transaction) ≡ false
      → outcome getenv fuel transaction commit (node ∷ next) b
        ≡ outcome getenv fuel transaction commit next b
  unfolding own_ops
  outcome-other commit node next b e = ground (arith, e)

  outcome-own :
      (node : ConfTrans) (next : List ConfTrans) (b : Bindings)
      → (node.trans == transaction) ≡ true
      → outcome getenv fuel transaction true (node ∷ next) b
        ≡ run_ops getenv fuel b (node.op ∷ own_ops transaction next)
  unfolding own_ops
  outcome-own node next b e = ground (arith, e)

  run_ops-cons :
      (b : Bindings) (op : ConfOp) (l : List ConfOp) (o : Option Bindings)
      → run_op getenv fuel b op ≡ o
      → run_ops getenv fuel b (op ∷ l)
        ≡ (elim o [ none ↦ none | some b' ↦ run_ops getenv fuel b' l ])
  unfolding run_ops
  run_ops-cons b op l o e = rw (e, run_ops) refl

  -- What the loop does with the rest of the queue.
  abbrev Ends : List ConfTrans → Type 0
  Ends queue =
      (commit : Bool) (kept : List ConfTrans) (b : Bindings)
      → end_loop getenv fuel transaction commit queue kept b
        ≡ with_queue (kept ++ of_others transaction queue)
            (outcome getenv fuel transaction commit queue b)

  own_node :
      (node : ConfTrans) (next : List ConfTrans)
      → Ends next
      → (node.trans == transaction) ≡ true
      → (commit : Bool) (kept : List ConfTrans) (b : Bindings)
      → end_loop getenv fuel transaction commit (node ∷ next) kept b
        ≡ with_queue
            (kept ++ of_others transaction next)
            (outcome getenv fuel transaction commit (node ∷ next) b)
  own_node node next rest own false kept b =
      end_loop-step false node next kept b false b (end_node-own false node b own)
      ∙ rest false kept b
  own_node node next rest own true kept b = elim (Option-cases (run_op getenv fuel b node.op)) [
    | inl stuck ↦
        rw
          (
            outcome-own node next b own,
            run_ops-cons b node.op (own_ops transaction next) none stuck,
          )
          (end_loop-stuck true node next kept b (end_node-own true node b own ∙ rw stuck refl))
    | inr (b', done) ↦
        rw
          (
            outcome-own node next b own,
            run_ops-cons b node.op (own_ops transaction next) (some b') done,
          )
          (end_loop-step true node next kept b false b'
              (end_node-own true node b own ∙ rw done refl)
            ∙ rest true kept b')
  ]

  end_loop_lem : (queue : List ConfTrans) → Ends queue
  end_loop_lem [] true kept b =
      unfold end_loop of_others own_ops run_ops in ap (λ q. some (b, q)) (sym (append-nil kept))
  end_loop_lem [] false kept b =
      unfold end_loop of_others in ap (λ q. some (b, q)) (sym (append-nil kept))
  end_loop_lem (node ∷ next) commit kept b = elim (Bool-cases (node.trans == transaction)) [
    | inl own ↦
        rw (of_others-cons node next true own)
          (own_node node next (end_loop_lem next) own commit kept b)
    | inr other ↦
        rw (of_others-cons node next false other, outcome-other commit node next b other)
          (end_loop-step commit node next kept b true b (end_node-other commit node b other)
            ∙ end_loop_lem next commit (kept ++ node ∷ []) b
            ∙ ap (λ q. with_queue q (outcome getenv fuel transaction commit next b))
                (append_assoc kept (node ∷ []) (of_others transaction next)))
  ]

abbrev pub with_bindings : Conf → List ConfTrans → Option Bindings → Option Conf
with_bindings c queue none = none
with_bindings c queue (some b) = some (record c { bindings = b; queue = queue })

-- conf_end runs the operations of its own transaction in the order they were queued if it is
-- committed, and none otherwise; the operations of the other transactions stay in the queue in
-- their order, and `seq` stays.
pub conf_end_lem :
    (getenv : Bytes → Option Bytes) (fuel : ℕ) (c : Conf) (transaction : ℕ) (commit : Bool)
    → conf_end getenv fuel c transaction commit
      ≡ with_bindings c (of_others transaction c.queue) (
          if commit
          then run_ops getenv fuel c.bindings (own_ops transaction c.queue)
          else some c.bindings)
unfolding conf_end
conf_end_lem getenv fuel c transaction commit =
    ap finish (end_loop_lem getenv fuel transaction c.queue commit [] c.bindings)
    ∙ finish_with (outcome getenv fuel transaction commit c.queue c.bindings)
  where
    finish : Option (Bindings × List ConfTrans) → Option Conf
    finish none = none
    finish (some (b, queue)) = some (record c { bindings = b; queue = queue })

    finish_with :
        (o : Option Bindings)
        → finish (with_queue (of_others transaction c.queue) o)
          ≡ with_bindings c (of_others transaction c.queue) o
    finish_with none = refl
    finish_with (some b) = refl

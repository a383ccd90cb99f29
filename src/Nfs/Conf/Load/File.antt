-- ===== src/Nfs/Conf/Load/File.antt =====
-- conf_load_file of support/nfs/conffile.c on a file that is written from sections and entries.
use nfs_utils.Common.{
  ℕ, suc, ◌+◌, ◌≡◌, refl, sym, ap, ◌∙◌, true, false, Option, none, some, List, [], ◌∷◌, ◌++◌,
  append-nil, append_assoc, arith, Bytes, to_lower, map, All,
}
use nfs_utils.Nfs.Conf.{
  Binding, Bindings, ConfOp, conf_set_op, ConfTrans, Conf, conf_begin, conf_set, conf_trans_node,
  conf_end, run_op, insert_head, conf_set_now, conf_remove_now,
}
use nfs_utils.Nfs.Conf.Transactions.{of_others, own_ops, run_ops, conf_end_lem}
use nfs_utils.Nfs.Conf.Parse.{Sections, conf_parse}
use nfs_utils.Nfs.Conf.Parse.RoundTrip.{
  Part, IsPart, print, set_entries, set_parts, last_sections, conf_parse-print,
}
use nfs_utils.Nfs.Conf.Load.{
  World, no_sections, no_bindings, conf_free_bindings, apply_file, conf_load_file,
}

-- The binding of an entry
abbrev pub binding : Bytes → Option Bytes → Bytes → Bytes → Binding
binding name arg tag value = record {
  section = map to_lower name;
  arg = arg;
  tag = tag;
  value = value;
  is_default = false;
}

-- What the entries of a file do to the bindings: each in turn replaces the one for its section and tag.
-- An entry without a value does nothing.
unfoldable pub store_entries : Bytes → Option Bytes → List (Bytes × Bytes) → Bindings → Bindings
store_entries name arg [] b = b
store_entries name arg ((tag, []) ∷ es) b = store_entries name arg es b
store_entries name arg ((tag, x ∷ value) ∷ es) b =
    store_entries name arg es
      (insert_head (conf_remove_now b (map to_lower name) tag).0 (binding name arg tag (x ∷ value)))

unfoldable pub store_parts : List Part → Bindings → Bindings
unfolding store_entries
store_parts [] b = b
store_parts (p ∷ ps) b = store_parts ps (store_entries p.name p.arg p.entries b)

-- The operations of a transaction, when nothing else is queued.
abbrev nodes : ℕ → List ConfOp → List ConfTrans
nodes trans [] = []
nodes trans (op ∷ l) = record { trans = trans; op = op } ∷ nodes trans l

unfoldable entry_ops : Bytes → Option Bytes → List (Bytes × Bytes) → List ConfOp
entry_ops name arg [] = []
entry_ops name arg ((tag, []) ∷ es) = entry_ops name arg es
entry_ops name arg ((tag, x ∷ value) ∷ es) =
    conf_set_op (binding name arg tag (x ∷ value)) true ∷ entry_ops name arg es

unfoldable part_ops : List Part → List ConfOp
part_ops [] = []
part_ops (p ∷ ps) = entry_ops p.name p.arg p.entries ++ part_ops ps

abbrev queued : Conf → List ConfTrans → Conf
queued c l = record c { queue = c.queue ++ l }

queued-append : (c : Conf) (l r : List ConfTrans) → queued (queued c l) r ≡ queued c (l ++ r)
queued-append c l r = ap (λ q. record c { queue = q }) (append_assoc c.queue l r)

nodes-append :
    (trans : ℕ) (l r : List ConfOp) → nodes trans (l ++ r) ≡ nodes trans l ++ nodes trans r
nodes-append trans [] r = refl
nodes-append trans (op ∷ l) r =
    ap (λ t. record { trans = trans; op = op } ∷ t) (nodes-append trans l r)

set_entries_lem :
    (trans : ℕ) (name : Bytes) (arg : Option Bytes) (es : List (Bytes × Bytes)) (c : Conf)
    → set_entries trans name arg es c ≡ queued c (nodes trans (entry_ops name arg es))
unfolding set_entries entry_ops conf_set conf_trans_node
set_entries_lem trans name arg [] c = ap (λ q. record c { queue = q }) (sym (append-nil c.queue))
set_entries_lem trans name arg ((tag, []) ∷ es) c = set_entries_lem trans name arg es c
set_entries_lem trans name arg ((tag, x ∷ value) ∷ es) c =
    let op = conf_set_op (binding name arg tag (x ∷ value)) true in
    set_entries_lem trans name arg es (conf_set c trans name arg tag (x ∷ value) true false)
    ∙ queued-append c (record { trans = trans; op = op } ∷ []) (nodes trans (entry_ops name arg es))

set_parts_lem :
    (trans : ℕ) (ps : List Part) (c : Conf)
    → set_parts trans ps c ≡ queued c (nodes trans (part_ops ps))
unfolding set_parts part_ops
set_parts_lem trans [] c = ap (λ q. record c { queue = q }) (sym (append-nil c.queue))
set_parts_lem trans (p ∷ ps) c =
    let l = nodes trans (entry_ops p.name p.arg p.entries) in
    let r = nodes trans (part_ops ps) in
    ap (set_parts trans ps) (set_entries_lem trans p.name p.arg p.entries c)
    ∙ set_parts_lem trans ps (queued c l)
    ∙ queued-append c l r
    ∙ ap (queued c) (sym (nodes-append trans (entry_ops p.name p.arg p.entries) (part_ops ps)))

own_ops-nodes : (trans : ℕ) (l : List ConfOp) → own_ops trans (nodes trans l) ≡ l
unfolding own_ops
own_ops-nodes trans [] = refl
own_ops-nodes trans (op ∷ l) = ground (arith, own_ops-nodes trans l)

of_others-nodes : (trans : ℕ) (l : List ConfOp) → of_others trans (nodes trans l) ≡ []
unfolding of_others
of_others-nodes trans [] = refl
of_others-nodes trans (op ∷ l) = ground (arith, of_others-nodes trans l)

run_ops-entries :
    (getenv : Bytes → Option Bytes) (fuel : ℕ) (name : Bytes) (arg : Option Bytes)
    (es : List (Bytes × Bytes)) (rest : List ConfOp) (b : Bindings)
    → run_ops getenv fuel b (entry_ops name arg es ++ rest)
      ≡ run_ops getenv fuel (store_entries name arg es b) rest
unfolding entry_ops store_entries run_ops run_op conf_set_now
run_ops-entries getenv fuel name arg [] rest b = refl
run_ops-entries getenv fuel name arg ((tag, []) ∷ es) rest b =
    run_ops-entries getenv fuel name arg es rest b
run_ops-entries getenv fuel name arg ((tag, x ∷ value) ∷ es) rest b =
    run_ops-entries getenv fuel name arg es rest
      (insert_head (conf_remove_now b (map to_lower name) tag).0 (binding name arg tag (x ∷ value)))

run_ops-parts :
    (getenv : Bytes → Option Bytes) (fuel : ℕ) (ps : List Part) (b : Bindings)
    → run_ops getenv fuel b (part_ops ps) ≡ some (store_parts ps b)
unfolding part_ops store_parts
run_ops-parts getenv fuel [] b = unfold run_ops in refl
run_ops-parts getenv fuel (p ∷ ps) b =
    run_ops-entries getenv fuel p.name p.arg p.entries (part_ops ps) b
    ∙ run_ops-parts getenv fuel ps (store_entries p.name p.arg p.entries b)

-- A database with an empty queue
abbrev pub idle : Bindings → ℕ → Conf
idle b seq = record { bindings = b; queue = []; seq = seq }

abbrev loaded : Option Conf → Option (Conf × ℕ)
loaded none = none
loaded (some c) = some (c, 0)

conf_end-parts :
    (getenv : Bytes → Option Bytes) (fuel trans : ℕ) (ps : List Part) (seq : ℕ)
    → conf_end getenv fuel
        (record { bindings = no_bindings; queue = nodes trans (part_ops ps); seq = seq })
        trans
        true
      ≡ some (idle (store_parts ps no_bindings) seq)
conf_end-parts getenv fuel trans ps seq =
    conf_end_lem getenv fuel
      (record { bindings = no_bindings; queue = nodes trans (part_ops ps); seq = seq }) trans true
    ∙ rw
        (
          own_ops-nodes trans (part_ops ps),
          of_others-nodes trans (part_ops ps),
          run_ops-parts getenv fuel ps no_bindings,
        )
        refl

apply_file-ended :
    (w : World) (trans : ℕ) (c c' : Conf)
    → conf_end w.getenv w.jumps (conf_free_bindings c) trans true ≡ some c'
    → apply_file w trans c ≡ some (c', 0)
unfolding apply_file
apply_file-ended w trans c c' e = rw (e, apply_file) refl

apply_file-parts :
    (w : World) (trans : ℕ) (ps : List Part) (b : Bindings) (seq : ℕ)
    → apply_file w trans (set_parts trans ps (idle b seq))
      ≡ some (idle (store_parts ps no_bindings) seq, 0)
unfolding conf_free_bindings
apply_file-parts w trans ps b seq =
    ap (λ c. apply_file w trans c) (set_parts_lem trans ps (idle b seq))
    ∙ apply_file-ended w trans (queued (idle b seq) (nodes trans (part_ops ps)))
        (idle (store_parts ps no_bindings) seq) (conf_end-parts w.getenv w.jumps trans ps seq)

conf_load_file-parsed :
    (w : World) (conf_file text : Bytes) (c c2 : Conf) (st : Sections)
    → w.conf_readfile conf_file ≡ some text
    → conf_parse w.conf_readfile
        (c.seq + 1)
        w.depth
        conf_file
        text
        no_sections
        (record c { seq = c.seq + 1 })
      ≡ some (c2, st)
    → conf_load_file w conf_file c ≡ apply_file w (c.seq + 1) c2
unfolding conf_load_file conf_begin
conf_load_file-parsed w conf_file text c c2 st read parsed =
    rw (read, parsed, conf_load_file, conf_begin) refl

-- A file that is printed from well-formed sections and entries, and is read where the queue is
-- empty and the depth is not zero: conf_load_file returns 0, the bindings are those of the file's
-- entries, stored in their order, with none of those before, and the queue is empty again. Storing an
-- entry drops an earlier one of the file with the same section and tag, also one of another argument.
pub conf_load_file-print :
    (w : World) (depth : ℕ) (conf_file : Bytes) (ps : List Part) (b : Bindings) (seq : ℕ)
    → w.depth ≡ suc depth
    → w.conf_readfile conf_file ≡ some (print ps)
    → All IsPart ps
    → conf_load_file w conf_file (idle b seq)
      ≡ some (idle (store_parts ps no_bindings) (seq + 1), 0)
conf_load_file-print w depth conf_file ps b seq deep read h =
    conf_load_file-parsed w conf_file (print ps) (idle b seq)
      (set_parts (seq + 1) ps (idle b (seq + 1))) (last_sections no_sections ps) read
      (ap
          (λ d.
            conf_parse w.conf_readfile (seq + 1) d conf_file (print ps) no_sections
              (idle b (seq + 1)))
          deep
        ∙ conf_parse-print w.conf_readfile (seq + 1) depth conf_file ps no_sections
            (idle b (seq + 1)) h)
    ∙ apply_file-parts w (seq + 1) ps b (seq + 1)

-- ===== src/Nfs/Conf.antt =====
-- support/nfs/conffile.c: the configuration database and its transactions.
-- Each of the 256 hash buckets is a list of bindings, newest first. Names are compared without
-- regard to case. Memory is there, so every call of strdup and calloc succeeds. The environment
-- that getenv reads is a parameter.
pub mod Reads
pub mod Buckets
pub mod Removal
pub mod Single
pub mod Transactions
pub mod Parse
pub mod Load
pub mod Tests
use nfs_utils.Common.{
  ℕ, zero, suc, ◌+◌, ◌*◌, ◌/◌, ◌%◌, bit_or, bit_xor, Bool, true, false, not, ◌&&◌, Option, none,
  some, List, [], ◌∷◌, ◌++◌, ◌==◌, if◌then◌else◌, Bytes, codes, case_eq, to_lower, map,
}

pub record Binding : Type 0 where
  pub section : Bytes
  pub arg : Option Bytes
  pub tag : Bytes
  pub value : Bytes
  pub is_default : Bool

-- conf_bindings
abbrev pub Bindings : Type 0
Bindings = ℕ → List Binding

-- hash = ((hash << 1) | (hash >> 7)) ^ tolower(*s), in a uint8_t
unfoldable pub hash_step : ℕ → ℕ → ℕ
hash_step hash c = bit_xor (bit_or (hash * 2) (hash / 128)) (to_lower c) % 256

unfoldable pub hash_loop : ℕ → Bytes → ℕ
hash_loop hash [] = hash
hash_loop hash (c ∷ s) = hash_loop (hash_step hash c) s

unfoldable pub conf_hash : Bytes → ℕ
unfolding hash_loop
conf_hash s = hash_loop 0 s

abbrev pub put_bucket : Bindings → ℕ → List Binding → Bindings
put_bucket b h l = λ n. if n == h then l else b n

-- The argument is not compared.
abbrev pub names : Bytes → Bytes → Binding → Bool
names section tag cb = case_eq cb.section section && case_eq cb.tag tag

-- The list without the first binding for the section and the tag, if there is one.
unfoldable pub remove_first : Bytes → Bytes → List Binding → Option (List Binding)
remove_first section tag [] = none
remove_first section tag (cb ∷ l) =
    if names section tag cb
    then some l
    else elim (remove_first section tag l) [ none ↦ none | some r ↦ some (cb ∷ r) ]

-- With the value returned: 0 after a removal, else 1.
unfoldable pub conf_remove_now : Bindings → Bytes → Bytes → Bindings × ℕ
conf_remove_now b section tag = elim (remove_first section tag (b (conf_hash section))) [
  | none ↦ (b, 1)
  | some l ↦ (put_bucket b (conf_hash section) l, 0)
]

unfoldable pub drop_section : Bytes → List Binding → List Binding
drop_section section [] = []
drop_section section (cb ∷ l) =
    if case_eq cb.section section then drop_section section l else cb ∷ drop_section section l

unfoldable pub has_section : Bytes → List Binding → Bool
has_section section [] = false
has_section section (cb ∷ l) = if case_eq cb.section section then true else has_section section l

unfoldable pub conf_remove_section_now : Bindings → Bytes → Bindings × ℕ
unfolding drop_section has_section
conf_remove_section_now b section =
    let l = b (conf_hash section) in
    (
      put_bucket b (conf_hash section) (drop_section section l),
      if has_section section l then 0 else 1,
    )

-- The tests on the argument: `arg && (cb->arg == NULL || strcasecmp(arg, cb->arg) != 0)` and
-- `!arg && cb->arg` go on to the next binding.
abbrev pub same_arg : Option Bytes → Option Bytes → Bool
same_arg none none = true
same_arg none (some _) = false
same_arg (some a) none = false
same_arg (some a) (some b) = case_eq a b

abbrev pub is_entry : Bytes → Option Bytes → Bytes → Binding → Bool
is_entry section arg tag cb =
    case_eq section cb.section && same_arg arg cb.arg && case_eq tag cb.tag

unfoldable pub find_entry : Bytes → Option Bytes → Bytes → List Binding → Option Bytes
find_entry section arg tag [] = none
find_entry section arg tag (cb ∷ l) =
    if is_entry section arg tag cb then some cb.value else find_entry section arg tag l

unfoldable pub conf_get_entry : Bindings → Bytes → Option Bytes → Bytes → Option Bytes
conf_get_entry b section arg tag = find_entry section arg tag (b (conf_hash section))

-- What conf_get_section ends with; `loops` means that it still jumps to `retry`.
pub data Lookup : Type 0 where
  found : Bytes → Lookup
  missing loops : Lookup

-- `env && *env`
abbrev pub nonempty : Option Bytes → Option Bytes
nonempty none = none
nonempty (some []) = none
nonempty (some (c ∷ s)) = some (c ∷ s)

-- A value "$name" that the environment does not give: look for `name` in the section
-- "environment", by `again`.
unfoldable pub expand : (Bytes → Option Bytes) → (Bytes → Lookup) → Bytes → Lookup
expand getenv again [] = found []
expand getenv again (c ∷ name) =
    if c == b'$'
    then elim (nonempty (getenv name)) [ some env ↦ found env | none ↦ again name ]
    else found (c ∷ name)

-- `fuel` bounds the jumps to `retry`. The argument stays that of the call.
unfoldable pub get_section :
    (Bytes → Option Bytes) → Bindings → Option Bytes → ℕ → Bytes → Bytes → Lookup
unfolding expand conf_get_entry find_entry
get_section getenv b arg zero section tag = loops
get_section getenv b arg (suc fuel) section tag = elim (conf_get_entry b section arg tag) [
  | none ↦ missing
  | some value ↦ expand getenv (get_section getenv b arg fuel (codes "environment")) value
]

unfoldable pub insert_head : Bindings → Binding → Bindings
insert_head b node = put_bucket b (conf_hash node.section) (node ∷ b (conf_hash node.section))

-- The bindings and the value returned. `none` is a conf_get_section that does not return within
-- `fuel` jumps.
unfoldable pub conf_set_now :
    (Bytes → Option Bytes) → ℕ → Bindings → Binding → Bool → Option (Bindings × ℕ)
unfolding conf_remove_now remove_first insert_head
conf_set_now getenv fuel b node override =
    if override
    then some (insert_head (conf_remove_now b node.section node.tag).0 node, 0)
    else elim (get_section getenv b node.arg fuel node.section node.tag) [
      | found v ↦ some (b, 1)
      | missing ↦ some (insert_head b node, 0)
      | loops ↦ none
    ]

-- enum conf_op with the operands of each
pub data ConfOp : Type 0 where
  conf_set_op : Binding → Bool → ConfOp
  conf_remove_op : Bytes → Bytes → ConfOp
  conf_remove_section_op : Bytes → ConfOp

pub record ConfTrans : Type 0 where
  pub trans : ℕ
  pub op : ConfOp

-- conf_bindings, conf_trans_queue, and `seq` of conf_begin
pub record Conf : Type 0 where
  pub bindings : Bindings
  pub queue : List ConfTrans
  pub seq : ℕ

unfoldable pub conf_begin : Conf → ℕ × Conf
conf_begin c = (c.seq + 1, record c { seq = c.seq + 1 })

unfoldable pub conf_trans_node : Conf → ℕ → ConfOp → Conf
conf_trans_node c transaction op = record c {
  queue = c.queue ++ record { trans = transaction; op = op } ∷ [];
}

-- upper2lower of the section; an empty value is not queued.
unfoldable pub conf_set : Conf → ℕ → Bytes → Option Bytes → Bytes → Bytes → Bool → Bool → Conf
unfolding conf_trans_node
conf_set c transaction section arg tag [] override is_default = c
conf_set c transaction section arg tag (x ∷ value) override is_default =
    conf_trans_node c transaction (
      conf_set_op
        (record {
          section = map to_lower section;
          arg = arg;
          tag = tag;
          value = x ∷ value;
          is_default = is_default;
        })
        override)

unfoldable pub conf_remove : Conf → ℕ → Bytes → Bytes → Conf
unfolding conf_trans_node
conf_remove c transaction section tag = conf_trans_node c transaction (conf_remove_op section tag)

unfoldable pub conf_remove_section : Conf → ℕ → Bytes → Conf
unfolding conf_trans_node
conf_remove_section c transaction section =
    conf_trans_node c transaction (conf_remove_section_op section)

-- the switch of conf_end
unfoldable pub run_op : (Bytes → Option Bytes) → ℕ → Bindings → ConfOp → Option Bindings
unfolding conf_set_now conf_remove_now conf_remove_section_now
run_op getenv fuel b (conf_set_op node override) = elim (conf_set_now getenv fuel b node override) [
  | none ↦ none
  | some (b', _) ↦ some b'
]
run_op getenv fuel b (conf_remove_op section tag) = some (conf_remove_now b section tag).0
run_op getenv fuel b (conf_remove_section_op section) = some (conf_remove_section_now b section).0

-- One node in the loop of conf_end: whether it is kept, and the bindings. A node of the
-- transaction is run if the transaction is committed, and taken out.
unfoldable pub end_node :
    (Bytes → Option Bytes) → ℕ → ℕ → Bool → ConfTrans → Bindings → Option (Bool × Bindings)
unfolding run_op
end_node getenv fuel transaction commit node b =
    if not (node.trans == transaction)
    then some (true, b)
    else if commit
    then (elim (run_op getenv fuel b node.op) [ none ↦ none | some b' ↦ some (false, b') ])
    else some (false, b)

abbrev pub keep_node : Bool → ConfTrans → List ConfTrans → List ConfTrans
keep_node true node kept = kept ++ node ∷ []
keep_node false node kept = kept

-- The loop of conf_end over the queue; `kept` are the nodes passed over.
unfoldable pub end_loop :
    (Bytes → Option Bytes)
    → ℕ
    → ℕ
    → Bool
    → List ConfTrans
    → List ConfTrans
    → Bindings
    → Option (Bindings × List ConfTrans)
unfolding end_node
end_loop getenv fuel transaction commit [] kept b = some (b, kept)
end_loop getenv fuel transaction commit (node ∷ next) kept b =
    elim (end_node getenv fuel transaction commit node b) [
      | none ↦ none
      | some (keep, b') ↦ end_loop getenv fuel transaction commit next (keep_node keep node kept) b'
    ]

unfoldable pub conf_end : (Bytes → Option Bytes) → ℕ → Conf → ℕ → Bool → Option Conf
unfolding end_loop
conf_end getenv fuel c transaction commit =
    elim (end_loop getenv fuel transaction commit c.queue [] c.bindings) [
      | none ↦ none
      | some (b, queue) ↦ some (record c { bindings = b; queue = queue })
    ]

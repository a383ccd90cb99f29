-- ===== src/Mount/Options.antt =====
-- utils/mount/parse_opt.c: a group of mount options as an object.
-- The doubly linked list is the list of its options from `head` to `tail`; a pointer to an option
-- is its position. `count` is an unsigned int and wraps. malloc and strdup succeed, and no string
-- is shared, so an option is its text.
pub mod Lookup
pub mod Removal
pub mod Counts
pub mod Spelling
pub mod RoundTrip
use mathlib.Core.List.{reverse}
use nfs_utils.Common.{
  ℕ, zero, suc, ◌+◌, ◌-◌, ◌%◌, ◌^◌, Bool, true, false, not, ◌&&◌, Option, none, some, List, [], ◌∷◌,
  ◌++◌, ltb, ◌==◌, if◌then◌else◌, Bytes, length, str_eq, starts, cut, ℤ, pos, negsuc, strtol,
  Parsed,
}
use nfs_utils.Mount.Token.{init_tokenizer, tokens, tokenizer_error}

pub record MountOption : Type 0 where
  pub keyword : Bytes
  pub value : Option Bytes

pub record MountOptions : Type 0 where
  pub items : List MountOption
  pub count : ℕ

-- split at the first '='
unfoldable pub option_create : Option Bytes → Option MountOption
option_create none = none
option_create (some str) = elim (cut b'=' str) [
  | none ↦ some (record { keyword = str; value = none })
  | some (k, v) ↦ some (record { keyword = k; value = some v })
]

unfoldable pub option_dup : MountOption → MountOption
option_dup option = record { keyword = option.keyword; value = option.value }

abbrev pub options_create : MountOptions
options_create = record { items = []; count = 0 }

abbrev pub options_empty : MountOptions → Bool
options_empty o = o.count == 0

unfoldable pub options_tail_insert : MountOptions → MountOption → MountOptions
options_tail_insert o option = record {
  items = o.items ++ option ∷ [];
  count = (o.count + 1) % 2 ^ 32;
}

unfoldable pub options_head_insert : MountOptions → MountOption → MountOptions
options_head_insert o option = record { items = option ∷ o.items; count = (o.count + 1) % 2 ^ 32 }

abbrev pub remove_at {ℓ} : {A : Type ℓ} → List A → ℕ → List A
remove_at [] i = []
remove_at (x ∷ xs) zero = xs
remove_at (x ∷ xs) (suc i) = x ∷ remove_at xs i

-- The option to delete is the one at position `i`.
unfoldable pub options_delete : MountOptions → ℕ → MountOptions
options_delete o i =
    if not (options_empty o) then record { items = remove_at o.items i; count = o.count - 1 } else o

-- `while (!options_empty(options)) options_delete(options, options->head)`; `none` is the NULL
-- head that such a loop would meet.
unfoldable pub delete_all : MountOptions → List MountOption → Option MountOptions
delete_all o [] = if options_empty o then some o else none
delete_all o (x ∷ xs) =
    let rest = delete_all (options_delete o 0) xs in if options_empty o then some o else rest

-- The loop of po_destroy, up to the last free.
unfoldable pub po_destroy : MountOptions → Option MountOptions
unfolding delete_all options_delete
po_destroy o = delete_all o o.items

unfoldable pub insert_all : List Bytes → MountOptions → Option MountOptions
insert_all [] o = some o
insert_all (opt ∷ opts) o = elim (option_create (some opt)) [
  | none ↦ none
  | some option ↦ insert_all opts (options_tail_insert o option)
]

unfoldable pub po_split : Option Bytes → Option MountOptions
po_split none = some options_create
po_split (some str) =
    let (opts, t) = tokens (suc (length str)) (init_tokenizer str b',') in
    let options = insert_all opts options_create in
    if not (tokenizer_error t == 0) then none else options

-- `current` runs along the source; `none` is a NULL `current` that is followed.
unfoldable pub dup_loop : ℕ → List MountOption → MountOptions → Option MountOptions
dup_loop wanted [] target = if ltb target.count wanted then none else some target
dup_loop wanted (current ∷ next) target =
    let rest = dup_loop wanted next (options_tail_insert target (option_dup current)) in
    if ltb target.count wanted then rest else some target

unfoldable pub po_dup : MountOptions → Option MountOptions
unfolding dup_loop options_tail_insert option_dup
po_dup source =
    if options_empty source
    then some options_create
    else dup_loop source.count source.items options_create

-- The target and the source after the call.
unfoldable pub po_replace :
    MountOptions → Option MountOptions → Option (MountOptions × Option MountOptions)
unfolding delete_all options_delete
po_replace target source = elim (delete_all target target.items) [
  | none ↦ none
  | some emptied ↦ (elim source [
    | none ↦ some (emptied, none)
    | some s ↦ some (record { items = s.items; count = s.count }, some options_create)
  ])
]

abbrev value_len : Option Bytes → ℕ
value_len none = 0
value_len (some v) = length v + 1

-- the first loop of po_join
unfoldable pub join_len : List MountOption → ℕ
join_len [] = 0
join_len (o ∷ []) = length o.keyword + value_len o.value
join_len (o ∷ next ∷ r) = length o.keyword + value_len o.value + 1 + join_len (next ∷ r)

abbrev cat_value : Bytes → Option Bytes → Bytes
cat_value str none = str
cat_value str (some v) = (str ++ b'=' ∷ []) ++ v

-- the second loop of po_join, on the text written so far
unfoldable pub join_cat : Bytes → List MountOption → Bytes
join_cat str [] = str
join_cat str (o ∷ []) = cat_value (str ++ o.keyword) o.value
join_cat str (o ∷ next ∷ r) =
    join_cat (cat_value (str ++ o.keyword) o.value ++ b',' ∷ []) (next ∷ r)

-- The string, and the size of the buffer that was allocated for it.
pub record Joined : Type 0 where
  pub str : Bytes
  pub size : ℕ

unfoldable pub po_join : MountOptions → Joined
po_join o =
    if options_empty o
    then record { str = []; size = 1 }
    else record { str = join_cat [] o.items; size = join_len o.items + 1 }

-- `true` is PO_SUCCEEDED.
unfoldable pub po_insert : MountOptions → Option Bytes → Bool × MountOptions
unfolding options_head_insert
po_insert o str = elim (option_create str) [
  | none ↦ (false, o)
  | some option ↦ (true, options_head_insert o option)
]

unfoldable pub po_append : MountOptions → Option Bytes → Bool × MountOptions
unfolding options_tail_insert
po_append o str = elim (option_create str) [
  | none ↦ (false, o)
  | some option ↦ (true, options_tail_insert o option)
]

-- `true` is PO_FOUND.
unfoldable pub contains : List MountOption → Bytes → Bool
contains [] k = false
contains (o ∷ r) k = if str_eq o.keyword k then true else contains r k

unfoldable pub po_contains : MountOptions → Bytes → Bool
unfolding contains
po_contains o k = contains o.items k

-- `n` instances are still to be skipped.
unfoldable pub contains_prefix : List MountOption → Bytes → ℕ → Option Bytes
contains_prefix [] prefix n = none
contains_prefix (o ∷ r) prefix n =
    let matches = starts prefix o.keyword in
    let rest = contains_prefix r prefix (if matches then n - 1 else n) in
    if matches && not (ltb 0 n) then some o.keyword else rest

-- PO_FOUND with the keyword that was found.
unfoldable pub po_contains_prefix : MountOptions → Bytes → ℕ → Option Bytes
unfolding contains_prefix
po_contains_prefix o prefix n = contains_prefix o.items prefix n

-- the loop over `prev`
unfoldable pub get_first : List MountOption → Bytes → Option Bytes
get_first [] k = none
get_first (o ∷ r) k = if str_eq o.keyword k then o.value else get_first r k

unfoldable pub po_get : MountOptions → Bytes → Option Bytes
unfolding get_first
po_get o k = get_first (reverse o.items) k

pub data Numeric : Type 0 where
  po_not_found po_bad_value : Numeric
  po_found : ℤ → Numeric

abbrev numeric_value : Bytes → Parsed → Numeric
numeric_value option p =
    if p.in_range && not (str_eq p.rest option) then po_found p.value else po_bad_value

-- with HAVE_STRTOL
unfoldable pub po_get_numeric : MountOptions → Bytes → Numeric
po_get_numeric o k = elim (po_get o k) [
  | none ↦ po_not_found
  | some option ↦ numeric_value option (strtol option)
]

unfoldable pub key_index : List Bytes → ℕ → Bytes → Option ℕ
key_index [] i kw = none
key_index (k ∷ ks) i kw = if str_eq kw k then some i else key_index ks (i + 1) kw

unfoldable pub rightmost : List MountOption → List Bytes → ℤ
rightmost [] keys = negsuc 0
rightmost (o ∷ r) keys = elim (key_index keys 0 o.keyword) [
  | none ↦ rightmost r keys
  | some i ↦ pos i
]

unfoldable pub po_rightmost : MountOptions → List Bytes → ℤ
unfolding rightmost key_index
po_rightmost o keys = rightmost (reverse o.items) keys

-- The loop of po_remove_all stands at position `i`; `next` holds the options from there on.
unfoldable pub remove_loop :
    List MountOption → ℕ → Bytes → Bool → MountOptions → Bool × MountOptions
remove_loop [] i k found o = (found, o)
remove_loop (option ∷ next) i k found o = elim (str_eq option.keyword k) [
  | true ↦ remove_loop next i k true (options_delete o i)
  | false ↦ remove_loop next (i + 1) k found o
]

unfoldable pub po_remove_all : MountOptions → Bytes → Bool × MountOptions
unfolding remove_loop options_delete
po_remove_all o k = remove_loop o.items 0 k false o

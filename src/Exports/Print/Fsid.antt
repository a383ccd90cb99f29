-- ===== src/Exports/Print/Fsid.antt =====
-- parseopts of support/nfs/exports.c on the words of putexportent for the flags and for the fsid of
-- an export.
use nfs_utils.Common.{
  and_false, fun_ext, ℕ, ◌%◌, ◌^◌, ◌<◌, ◌≡◌, refl, ap, ap₂, sym, subst, ◌∙◌, Bool, true, false, not,
  ◌&&◌, Option, none, some, List, [], ◌∷◌, ◌++◌, arith, ◌==◌, if◌then◌else◌, Bytes, codes, str_eq,
  str_eq_iff, Bool-cases, inl, inr, length, ℤ, pos, negsuc, print_nat, print_int, to_int,
  strtoul_any,
}
use nfs_utils.Exports.{
  Flag, bit, Flags, readonly, insecure_port, rootsquash, allsquash, async, gathered_writes,
  noreaddirplus, security_label, nohide, nosubtreecheck, noauthnlm, fsid, crossmount, noacl, v4root,
  pnfs, Exportent, initial_flags, export_default_flags,
}
use nfs_utils.Exports.Secinfo.{setflags, change_flags, change_active}
use nfs_utils.Exports.Options.{
  Options, accepted, fsid_is, apply_options, apply_keyword, fsid_option, valid_uuid, count_hex,
  keyword, find_word, find_prefix, behind,
}
use nfs_utils.Exports.Print.{flag_texts, flag_tail, fsid_text, word_if}
use nfs_utils.Exports.Print.FlagWords.{
  put, set_mask-put, with_flag, with_flags, with_tail, if_flag, text_pairs, Database,
  apply_options-accepted, apply_options-flag_texts, apply_options-flag_tail, FlagPair,
}
use nfs_utils.Exports.Print.Numbers.{strtoul_any-print_int, print_nat-StartsLike, IsInt}

-- The options before a flavor is named
abbrev pub opts : Exportent → Flags → Bool → Options
opts ep flags had = record {
  ep = record ep { e_flags = flags; e_secinfo = [] };
  squids = [];
  sqgids = [];
  act = [];
  had_subtree_opt = had;
  saw_reexport = false;
}

abbrev puts : Flags → List FlagPair → Flags → Flags
puts f [] g = g
puts f (p ∷ t) g = puts f t (put (f p.flag) p.flag g)

abbrev pub put_if : Bool → Flag → Flags → Flags
put_if b f g x = if (bit f == bit x) && b then true else g x

put_if-false : (f : Flag) (g : Flags) → g ≡ put_if false f g
put_if-false f g = fun_ext λ x. ground arith

put_if-true : (f : Flag) (g : Flags) → put true f g ≡ put_if true f g
put_if-true f g = fun_ext λ x. ground arith

with_flags-opts :
    (ep : Exportent) (f g : Flags) (had : Bool)
    → with_flags f text_pairs (opts ep g had) ≡ opts ep (puts f text_pairs g) true
unfolding change_flags change_active
with_flags-opts ep f g had = refl

if_security_label :
    (ep : Exportent) (g : Flags) (had b : Bool)
    → if_flag b security_label (opts ep g had) ≡ opts ep (put_if b security_label g) had
unfolding change_flags change_active
if_security_label ep g had true = ap (λ (k : Flags). opts ep k had) (put_if-true security_label g)
if_security_label ep g had false = ap (λ (k : Flags). opts ep k had) (put_if-false security_label g)

if_noreaddirplus :
    (ep : Exportent) (g : Flags) (had b : Bool)
    → if_flag b noreaddirplus (opts ep g had) ≡ opts ep (put_if b noreaddirplus g) had
unfolding change_flags change_active
if_noreaddirplus ep g had true = ap (λ (k : Flags). opts ep k had) (put_if-true noreaddirplus g)
if_noreaddirplus ep g had false = ap (λ (k : Flags). opts ep k had) (put_if-false noreaddirplus g)

abbrev tail_flags : Flags → Flags → Flags
tail_flags f g =
    put (f pnfs) pnfs
      (put_if (f security_label) security_label (put_if (f noreaddirplus) noreaddirplus g))

with_tail-opts :
    (ep : Exportent) (f g : Flags) (had : Bool)
    → with_tail f (opts ep g had) ≡ opts ep (tail_flags f g) had
unfolding change_flags change_active
with_tail-opts ep f g had =
    let g1 = put_if (f noreaddirplus) noreaddirplus g in
    ap (λ (o : Options). with_flag (f pnfs) pnfs (if_flag (f security_label) security_label o))
      (if_noreaddirplus ep g had (f noreaddirplus))
    ∙ ap (λ (o : Options). with_flag (f pnfs) pnfs o)
        (if_security_label ep g1 had (f security_label))

-- All flags but the one that comes with the fsid
abbrev pub all_flags : Flags → Flags → Flags
all_flags f g = tail_flags f (puts f text_pairs g)

pub apply_options-flags :
    (db : Database) (f g : Flags) (ep : Exportent) (l : List Bytes)
    → apply_options db (flag_texts f ++ (flag_tail f ++ l)) (opts ep g false)
      ≡ apply_options db l (opts ep (all_flags f g) true)
apply_options-flags db f g ep l =
    apply_options-flag_texts db f (flag_tail f ++ l) (opts ep g false)
    ∙ ap (apply_options db (flag_tail f ++ l)) (with_flags-opts ep f g false)
    ∙ apply_options-flag_tail db f l (opts ep (puts f text_pairs g) true)
    ∙ ap (apply_options db l) (with_tail-opts ep f (puts f text_pairs g) true)

if_self : (b : Bool) → (if b then true else false) ≡ b
if_self true = refl
if_self false = refl

flag_lem :
    (f : Flags)
    → f v4root ≡ false
    → (x : Flag) → put_if (f fsid) fsid (all_flags f (initial_flags false)) x ≡ f x
unfolding initial_flags export_default_flags
flag_lem f h readonly = refl
flag_lem f h insecure_port = refl
flag_lem f h rootsquash = refl
flag_lem f h allsquash = refl
flag_lem f h async = refl
flag_lem f h gathered_writes = refl
flag_lem f h noreaddirplus = if_self (f noreaddirplus)
flag_lem f h security_label = if_self (f security_label)
flag_lem f h nohide = refl
flag_lem f h nosubtreecheck = refl
flag_lem f h noauthnlm = refl
flag_lem f h fsid = if_self (f fsid)
flag_lem f h crossmount = refl
flag_lem f h noacl = refl
flag_lem f h v4root = sym h
flag_lem f h pnfs = refl

-- The flags that are read back, from the default flags on
pub all_flags_lem :
    (f : Flags) → f v4root ≡ false → put_if (f fsid) fsid (all_flags f (initial_flags false)) ≡ f
all_flags_lem f h = fun_ext (flag_lem f h)

print_nat-root : (n : ℕ) → n < 2 ^ 64 → str_eq (print_nat n) (codes "root") ≡ false
unfolding str_eq
print_nat-root n h = let (c, s, e, d, _) = print_nat-StartsLike n h in rw e (ground (arith, d))

print_nat-nonempty : (n : ℕ) → n < 2 ^ 64 → (length (print_nat n) == 0) ≡ false
print_nat-nonempty n h = let (c, s, e, d, _) = print_nat-StartsLike n h in rw e (ground arith)

-- A printed number is neither "root" nor empty.
abbrev pub IsText : Bytes → Type 0
IsText t = (str_eq t (codes "root") ≡ false) × ((length t == 0) ≡ false)

pub print_int-IsText : (z : ℤ) → IsInt z → IsText (print_int z)
unfolding print_int
print_int-IsText (pos n) h = (print_nat-root n (omega arith), print_nat-nonempty n (omega arith))
print_int-IsText (negsuc n) h = (unfold str_eq in refl, ground arith)

to_int-IsInt : (n : ℕ) → n < 2 ^ 32 → IsInt (to_int (pos n))
to_int-IsInt n h = ground arith

fsid_option-number :
    (n : ℕ) (ep : Exportent) (g : Flags) (had : Bool)
    → n < 2 ^ 32
    → fsid_option (print_int (to_int (pos n))) (opts ep g had)
      ≡ accepted (opts (record ep { e_fsid = n }) (put true fsid g) had)
unfolding fsid_option setflags change_flags change_active
fsid_option-number n ep g had h =
    let (v, e, m) = strtoul_any-print_int n h in
    let (not_root, nonempty) = print_int-IsText (to_int (pos n)) (to_int-IsInt n h) in
    rw (not_root, nonempty, e, m, set_mask-put fsid) refl

-- A uuid that parseopts takes for one and not for a number
pub record IsUuid (uuid : Bytes) : Type 0 where
  pub valid : valid_uuid uuid ≡ true
  pub no_number : (length (strtoul_any uuid).rest == 0) ≡ false

root_lem : (uuid : Bytes) → valid_uuid uuid ≡ true → str_eq uuid (codes "root") ≡ false
unfolding valid_uuid count_hex
root_lem uuid h = elim (Bool-cases (str_eq uuid (codes "root"))) [
  | inl root ↦ absurd (
      subst (λ u. (valid_uuid u ≡ true) → ⊥) (sym ((str_eq_iff uuid (codes "root")).0 root))
        (λ e. cc e) h)
  | inr other ↦ other
]

fsid_option-uuid :
    (uuid : Bytes) (ep : Exportent) (g : Flags) (had : Bool)
    → IsUuid uuid
    → fsid_option uuid (opts ep g had)
      ≡ accepted (
          opts (record ep { e_fsid = (strtoul_any uuid).value % 2 ^ 32; e_uuid = some uuid }) g had)
unfolding fsid_option
fsid_option-uuid uuid ep g had u =
    rw (root_lem uuid u.valid, u.valid, u.no_number, and_false (not (length uuid == 0))) refl

keyword-fsid : (v : Bytes) → keyword (codes "fsid=" ++ v) ≡ fsid_is v
unfolding keyword find_word find_prefix behind str_eq
keyword-fsid v = refl

-- The words for the fsid and the uuid
abbrev pub fsid_words : Bool → ℕ → Option Bytes → List Bytes
fsid_words b n uuid =
    word_if b (fsid_text n) ++ elim uuid [ none ↦ [] | some u ↦ (codes "fsid=" ++ u) ∷ [] ]

-- The number is that of the uuid, as far as it is one; with neither it is 0.
abbrev pub HasFsid : Bool → ℕ → Option Bytes → Type 0
HasFsid b n (some u) = IsUuid u × ((strtoul_any u).value % 2 ^ 32 ≡ n)
HasFsid true n none = Unit
HasFsid false n none = n ≡ 0

abbrev pub identified : Exportent → Bool → ℕ → Option Bytes → Flags → Options
identified ep had n uuid g = opts (record ep { e_fsid = n; e_uuid = uuid }) g had

module _ (db : Database) (l : List Bytes) (ep : Exportent) (had : Bool) where
  number_word :
      (n : ℕ) (g : Flags)
      → n < 2 ^ 32
      → apply_options db (fsid_text n ∷ l) (identified ep had 0 none g)
        ≡ apply_options db l (identified ep had n none (put true fsid g))
  unfolding apply_keyword
  number_word n g h =
      let v = print_int (to_int (pos n)) in
      apply_options-accepted db l (identified ep had 0 none g)
        (identified ep had n none (put true fsid g)) (fsid_text n) (fsid_is v) (keyword-fsid v)
        (fsid_option-number n (record ep { e_fsid = 0; e_uuid = none }) g had h)

  uuid_word :
      (m n : ℕ) (u : Bytes) (g : Flags)
      → IsUuid u
      → (strtoul_any u).value % 2 ^ 32 ≡ n
      → apply_options db ((codes "fsid=" ++ u) ∷ l) (identified ep had m none g)
        ≡ apply_options db l (identified ep had n (some u) g)
  unfolding apply_keyword
  uuid_word m n u g h e =
      apply_options-accepted db l (identified ep had m none g) (identified ep had n (some u) g)
        (codes "fsid=" ++ u) (fsid_is u) (keyword-fsid u)
        (fsid_option-uuid u (record ep { e_fsid = m; e_uuid = none }) g had h
          ∙ ap (λ (k : ℕ). accepted (identified ep had k (some u) g)) e)

pub apply_options-fsid :
    (db : Database) (l : List Bytes) (ep : Exportent) (had b : Bool) (n : ℕ) (uuid : Option Bytes)
    (g : Flags)
    → n < 2 ^ 32
    → HasFsid b n uuid
    → apply_options db (fsid_words b n uuid ++ l) (identified ep had 0 none g)
      ≡ apply_options db l (identified ep had n uuid (put_if b fsid g))
apply_options-fsid db l ep had true n none g h f =
    number_word db l ep had n g h
    ∙ ap (λ (k : Flags). apply_options db l (identified ep had n none k)) (put_if-true fsid g)
apply_options-fsid db l ep had false n none g h f =
    ap₂ (λ (m : ℕ) (k : Flags). apply_options db l (identified ep had m none k)) (sym f)
      (put_if-false fsid g)
apply_options-fsid db l ep had true n (some u) g h f =
    number_word db ((codes "fsid=" ++ u) ∷ l) ep had n g h
    ∙ uuid_word db l ep had n n u (put true fsid g) f.0 f.1
    ∙ ap (λ (k : Flags). apply_options db l (identified ep had n (some u) k)) (put_if-true fsid g)
apply_options-fsid db l ep had false n (some u) g h f =
    uuid_word db l ep had 0 n u g f.0 f.1
    ∙ ap (λ (k : Flags). apply_options db l (identified ep had n (some u) k)) (put_if-false fsid g)

-- ===== src/Exports/Print/FlagWords.antt =====
-- parseopts of support/nfs/exports.c on the words of putexportent that set or clear a flag.
use nfs_utils.Common.{
  fun_ext, ℕ, ◌≡◌, refl, ap, ◌∙◌, Bool, true, false, ◌||◌, Option, List, [], ◌∷◌, ◌++◌, arith, ◌==◌,
  append_assoc, if◌then◌else◌, All, map, Bytes, codes, str_eq,
}
use nfs_utils.Exports.{
  Flag, bit, Flags, only, set_mask, clear_mask, readonly, insecure_port, rootsquash, allsquash,
  async, gathered_writes, noreaddirplus, security_label, nohide, nosubtreecheck, noauthnlm,
  crossmount, noacl, pnfs,
}
use nfs_utils.Exports.Secinfo.{setflags, clearflags, change_flags}
use nfs_utils.Exports.Options.{
  FlagWord, flag_keyword, Options, Outcome, Keyword, accepted, refused, apply_options,
  apply_keyword, apply_flag_word, keyword, find_word,
}
use nfs_utils.Exports.Print.{flag_texts, flag_tail, either_word, word_if}

-- The flags with one of them given a value
abbrev pub put : Bool → Flag → Flags → Flags
put b f flags g = if bit f == bit g then b else flags g

pub set_mask-put : (f : Flag) → set_mask (only f) ≡ put true f
unfolding set_mask
set_mask-put f = fun_ext λ flags. fun_ext λ g. ground arith

clear_mask-put : (f : Flag) → clear_mask (only f) ≡ put false f
unfolding clear_mask
clear_mask-put f = fun_ext λ flags. fun_ext λ g. ground arith

-- What a word does to the options
abbrev pub with_flag : Bool → Flag → Options → Options
with_flag b f o = record o {
  ep = change_flags (put b f) o.act o.ep;
  had_subtree_opt = bit f == bit nosubtreecheck || o.had_subtree_opt;
}

pub apply_flag_word_lem :
    (word : Bytes) (b : Bool) (f : Flag) (o : Options)
    → apply_flag_word (record { word = word; sets = b; flag = f }) o ≡ with_flag b f o
unfolding apply_flag_word setflags clearflags
apply_flag_word_lem word true f o = rw (set_mask-put f) refl
apply_flag_word_lem word false f o = rw (clear_mask-put f) refl

abbrev pub Database : Type 0
Database = Bytes → Bool → Option ℕ

pub apply_options-accepted :
    (db : Database) (l : List Bytes) (o o' : Options) (opt : Bytes) (k : Keyword)
    → keyword opt ≡ k
    → apply_keyword db k o ≡ accepted o'
    → apply_options db (opt ∷ l) o ≡ apply_options db l o'
unfolding apply_options
apply_options-accepted db l o o' opt k e a =
    ap (λ (r : Outcome). elim r [ accepted p ↦ apply_options db l p | refused p ↦ refused p ])
      (ap (λ (q : Keyword). apply_keyword db q o) e ∙ a)

pub flag_step :
    (db : Database) (l : List Bytes) (o : Options) (opt : Bytes) (w : FlagWord)
    → keyword opt ≡ flag_keyword w
    → apply_options db (opt ∷ l) o ≡ apply_options db l (with_flag w.sets w.flag o)
unfolding apply_keyword
flag_step db l o opt w e =
    apply_options-accepted db l o (with_flag w.sets w.flag o) opt (flag_keyword w) e
      (ap accepted (apply_flag_word_lem w.word w.sets w.flag o))

-- A flag with the words that set and clear it
pub record FlagPair : Type 0 where
  pub flag : Flag
  pub on : Bytes
  pub off : Bytes

abbrev flag_pair : Flag → Bytes → Bytes → FlagPair
flag_pair flag on off = record { flag = flag; on = on; off = off }

abbrev pub IsPair : FlagPair → Type 0
IsPair p =
    (keyword p.on ≡ flag_keyword (record { word = p.on; sets = true; flag = p.flag }))
    × (keyword p.off ≡ flag_keyword (record { word = p.off; sets = false; flag = p.flag }))

abbrev pub pair_text : Flags → FlagPair → Bytes
pair_text f p = either_word (f p.flag) p.on p.off

abbrev pub with_flags : Flags → List FlagPair → Options → Options
with_flags f [] o = o
with_flags f (p ∷ t) o = with_flags f t (with_flag (f p.flag) p.flag o)

module _ (db : Database) (f : Flags) where
  pub pair_step :
      (p : FlagPair) (l : List Bytes) (o : Options) (b : Bool)
      → IsPair p
      → apply_options db (either_word b p.on p.off ∷ l) o
        ≡ apply_options db l (with_flag b p.flag o)
  pair_step p l o true h = flag_step db l o p.on _ h.0
  pair_step p l o false h = flag_step db l o p.off _ h.1

  pub apply_options-pairs :
      (t : List FlagPair) (l : List Bytes) (o : Options)
      → All IsPair t
      → apply_options db (map (pair_text f) t ++ l) o ≡ apply_options db l (with_flags f t o)
  apply_options-pairs [] l o h = refl
  apply_options-pairs (p ∷ t) l o h =
      pair_step p (map (pair_text f) t ++ l) o (f p.flag) h.0
      ∙ apply_options-pairs t l (with_flag (f p.flag) p.flag o) h.1

abbrev pub readonly_pair : FlagPair
readonly_pair = flag_pair readonly (codes "ro") (codes "rw")

abbrev pub insecure_pair : FlagPair
insecure_pair = flag_pair insecure_port (codes "insecure") (codes "secure")

abbrev pub rootsquash_pair : FlagPair
rootsquash_pair = flag_pair rootsquash (codes "root_squash") (codes "no_root_squash")

abbrev pub allsquash_pair : FlagPair
allsquash_pair = flag_pair allsquash (codes "all_squash") (codes "no_all_squash")

-- The words of flag_texts
abbrev pub text_pairs : List FlagPair
text_pairs =
    readonly_pair
    ∷ flag_pair async (codes "async") (codes "sync")
    ∷ flag_pair gathered_writes (codes "wdelay") (codes "no_wdelay")
    ∷ flag_pair nohide (codes "nohide") (codes "hide")
    ∷ flag_pair crossmount (codes "crossmnt") (codes "nocrossmnt")
    ∷ insecure_pair
    ∷ rootsquash_pair
    ∷ allsquash_pair
    ∷ flag_pair nosubtreecheck (codes "no_subtree_check") (codes "subtree_check")
    ∷ flag_pair noauthnlm (codes "insecure_locks") (codes "secure_locks")
    ∷ flag_pair noacl (codes "no_acl") (codes "acl")
    ∷ []

-- Those of secinfo_flags_show
abbrev pub secinfo_pairs : List FlagPair
secinfo_pairs = readonly_pair ∷ insecure_pair ∷ rootsquash_pair ∷ allsquash_pair ∷ []

text_pairs-IsPair : All IsPair text_pairs
unfolding keyword str_eq find_word
text_pairs-IsPair = (
  (refl, refl),
  (
    (refl, refl),
    (
      (refl, refl),
      (
        (refl, refl),
        (
          (refl, refl),
          (
            (refl, refl),
            ((refl, refl), ((refl, refl), ((refl, refl), ((refl, refl), ((refl, refl), tt))))),
          ),
        ),
      ),
    ),
  ),
)

pub apply_options-flag_texts :
    (db : Database) (f : Flags) (l : List Bytes) (o : Options)
    → apply_options db (flag_texts f ++ l) o ≡ apply_options db l (with_flags f text_pairs o)
unfolding flag_texts
apply_options-flag_texts db f l o = apply_options-pairs db f text_pairs l o text_pairs-IsPair

pub secinfo_pairs-IsPair : All IsPair secinfo_pairs
unfolding keyword str_eq find_word
secinfo_pairs-IsPair = ((refl, refl), ((refl, refl), ((refl, refl), ((refl, refl), tt))))

-- A word that is there only if the flag is set
abbrev pub if_flag : Bool → Flag → Options → Options
if_flag b f o = if b then with_flag true f o else o

if_step :
    (db : Database) (b : Bool) (w : Bytes) (f : Flag) (l : List Bytes) (o : Options)
    → keyword w ≡ flag_keyword (record { word = w; sets = true; flag = f })
    → apply_options db (word_if b w ++ l) o ≡ apply_options db l (if_flag b f o)
if_step db true w f l o h = flag_step db l o w _ h
if_step db false w f l o h = refl

abbrev pub with_tail : Flags → Options → Options
with_tail f o =
    with_flag (f pnfs) pnfs
      (if_flag (f security_label) security_label (if_flag (f noreaddirplus) noreaddirplus o))

pub apply_options-flag_tail :
    (db : Database) (f : Flags) (l : List Bytes) (o : Options)
    → apply_options db (flag_tail f ++ l) o ≡ apply_options db l (with_tail f o)
unfolding flag_tail keyword str_eq find_word
apply_options-flag_tail db f l o =
    let first = word_if (f noreaddirplus) (codes "nordirplus") in
    let second = word_if (f security_label) (codes "security_label") in
    let third : List Bytes = either_word (f pnfs) (codes "pnfs") (codes "no_pnfs") ∷ [] in
    let o1 = if_flag (f noreaddirplus) noreaddirplus o in
    let o2 = if_flag (f security_label) security_label o1 in
    ap (λ (t : List Bytes). apply_options db t o)
      (append_assoc first (second ++ third) l
        ∙ ap (λ (t : List Bytes). first ++ t) (append_assoc second third l))
    ∙ if_step db (f noreaddirplus) (codes "nordirplus") noreaddirplus (second ++ (third ++ l)) o
        refl
    ∙ if_step db (f security_label) (codes "security_label") security_label (third ++ l) o1 refl
    ∙ pair_step db f (flag_pair pnfs (codes "pnfs") (codes "no_pnfs")) l o2 (f pnfs) (refl, refl)

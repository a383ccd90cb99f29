-- ===== src/Exports/Print/Group.antt =====
-- parseopts of support/nfs/exports.c on the words of putexportent behind those for the flags and the
-- fsid: the mount point, the locations, the ids and the flavors.
use nfs_utils.Common.{
  fun_ext, ℕ, ◌+◌, ◌≤◌, ◌≡◌, refl, ap, ap₂, ◌∙◌, Bool, true, false, not, ◌&&◌, ◌||◌, Option, none,
  some, List, [], ◌∷◌, ◌++◌, ◌==◌, if◌then◌else◌, Bytes, codes, str_eq, All, map, length, ℤ,
  print_int, to_int, strtol, append_assoc,
}
use nfs_utils.Exports.{
  Flag, bit, Flags, readonly, insecure_port, rootsquash, allsquash, nosubtreecheck, FlavInfo,
  SecEntry, Exportent, set_mask,
}
use nfs_utils.Exports.Secinfo.{
  change_flags, change_active, is_member, Flavors, active, unparsed, fix_entry,
}
use nfs_utils.Exports.Options.{
  Options, accepted, refused, mountpoint, anonuid, anongid, sec, apply_options, apply_keyword,
  number_option, keyword, find_word, find_prefix, behind,
}
use nfs_utils.Exports.Print.{mountpoint_texts, anon_texts, secinfo_flags_show, word_if}
use nfs_utils.Exports.Print.FlagWords.{
  put, pair_text, with_flag, Database, apply_options-accepted, FlagPair, IsPair, readonly_pair,
  insecure_pair, rootsquash_pair, allsquash_pair, secinfo_pairs-IsPair, pair_step,
}
use nfs_utils.Exports.Print.Numbers.{IsInt, strtol-print_int, to_int_lem}
use nfs_utils.Exports.Print.Flavors.{
  IsKnown, IsDistinct, entry, entries, with_entries, colon_names, parse_flavors-known,
}
use nfs_utils.Exports.Print.Fsid.{opts, print_int-IsText}

module _ (db : Database) (l : List Bytes) (ep : Exportent) (g : Flags) (had : Bool) where
  abbrev at : Exportent → Options
  at e = opts e g had

  pub apply_options-mountpoint :
      (m : Option Bytes)
      → apply_options db (mountpoint_texts m ++ l) (at (record ep { e_mountpoint = none }))
        ≡ apply_options db l (at (record ep { e_mountpoint = m }))
  unfolding mountpoint_texts keyword find_word find_prefix behind str_eq apply_keyword
  apply_options-mountpoint none = refl
  apply_options-mountpoint (some []) =
      apply_options-accepted db l (at (record ep { e_mountpoint = none }))
        (at (record ep { e_mountpoint = some [] })) (codes "mountpoint") (mountpoint []) refl refl
  apply_options-mountpoint (some (c ∷ s)) =
      apply_options-accepted db l (at (record ep { e_mountpoint = none }))
        (at (record ep { e_mountpoint = some (c ∷ s) })) (codes "mountpoint=" ++ (c ∷ s))
        (mountpoint (c ∷ s)) refl refl

  anonuid_step :
      (uid : ℤ)
      → IsInt uid
      → number_option
          (print_int uid)
          (at (record ep { e_anonuid = to_int (strtol (print_int uid)).value }))
        ≡ accepted (at (record ep { e_anonuid = uid }))
  unfolding number_option
  anonuid_step uid h =
      rw ((print_int-IsText uid h).1, strtol-print_int uid h, to_int_lem uid h) refl

  anongid_step :
      (gid : ℤ)
      → IsInt gid
      → number_option
          (print_int gid)
          (at (record ep { e_anongid = to_int (strtol (print_int gid)).value }))
        ≡ accepted (at (record ep { e_anongid = gid }))
  unfolding number_option
  anongid_step gid h =
      rw ((print_int-IsText gid h).1, strtol-print_int gid h, to_int_lem gid h) refl

keyword-anonuid : (v : Bytes) → keyword (codes "anonuid=" ++ v) ≡ anonuid v
unfolding keyword find_word find_prefix behind str_eq
keyword-anonuid v = refl

keyword-anongid : (v : Bytes) → keyword (codes "anongid=" ++ v) ≡ anongid v
unfolding keyword find_word find_prefix behind str_eq
keyword-anongid v = refl

keyword-sec : (v : Bytes) → keyword (codes "sec=" ++ v) ≡ sec v
unfolding keyword find_word find_prefix behind str_eq
keyword-sec v = refl

module _ (db : Database) (l : List Bytes) (ep : Exportent) (g : Flags) (had : Bool) where
  pub apply_options-anon :
      (uid gid : ℤ)
      → IsInt uid
      → IsInt gid
      → apply_options db (anon_texts uid gid ++ l) (opts ep g had)
        ≡ apply_options db l (opts (record ep { e_anonuid = uid; e_anongid = gid }) g had)
  unfolding anon_texts apply_keyword
  apply_options-anon uid gid hu hg =
      apply_options-accepted db ((codes "anongid=" ++ print_int gid) ∷ l) (opts ep g had)
        (opts (record ep { e_anonuid = uid }) g had) (codes "anonuid=" ++ print_int uid)
        (anonuid (print_int uid)) (keyword-anonuid (print_int uid))
        (anonuid_step db l ep g had uid hu)
      ∙ apply_options-accepted db l (opts (record ep { e_anonuid = uid }) g had)
          (opts (record ep { e_anonuid = uid; e_anongid = gid }) g had)
          (codes "anongid=" ++ print_int gid) (anongid (print_int gid))
          (keyword-anongid (print_int gid))
          (anongid_step db l (record ep { e_anonuid = uid }) g had gid hg)

-- The options behind a group of flavors
abbrev pub grouped : Exportent → Flags → List FlavInfo → List ℕ → Options
grouped ep g fl act = record (opts ep g true) {
  ep = with_entries fl (record ep { e_flags = g });
  act = act;
}

-- A flag that is given the value it has
abbrev IsSettled : Flag → Type 0
IsSettled x = (g : Flags) (y : Flag) → put (g x) x g y ≡ g y

readonly-IsSettled : IsSettled readonly
readonly-IsSettled g readonly = refl
readonly-IsSettled g _ = refl

insecure_port-IsSettled : IsSettled insecure_port
insecure_port-IsSettled g insecure_port = refl
insecure_port-IsSettled g _ = refl

rootsquash-IsSettled : IsSettled rootsquash
rootsquash-IsSettled g rootsquash = refl
rootsquash-IsSettled g _ = refl

allsquash-IsSettled : IsSettled allsquash
allsquash-IsSettled g allsquash = refl
allsquash-IsSettled g _ = refl

change_active-settled :
    (x : Flag) (g : Flags) (act : List ℕ) (i : ℕ) (fl : List FlavInfo)
    → put (g x) x g ≡ g
    → change_active (put (g x) x) act i (entries g fl) ≡ entries g fl
unfolding change_active
change_active-settled x g act i [] h = refl
change_active-settled x g act i (f ∷ fl) h =
    ap₂ (λ (p : SecEntry) (l : List SecEntry). p ∷ l) (chosen (is_member i act))
      (change_active-settled x g act (i + 1) fl h)
  where
    chosen :
        (b : Bool)
        → (if b then record (entry g f) { flags = put (g x) x g } else entry g f) ≡ entry g f
    chosen true = rw h refl
    chosen false = refl

-- A flag that the group has already changes nothing.
with_flag-grouped :
    (ep : Exportent) (g : Flags) (fl : List FlavInfo) (act : List ℕ) (x : Flag)
    → put (g x) x g ≡ g
    → (bit x == bit nosubtreecheck) ≡ false
    → with_flag (g x) x (grouped ep g fl act) ≡ grouped ep g fl act
unfolding change_flags
with_flag-grouped ep g fl act x h n = rw (h, n, change_active-settled x g act 0 fl h) refl

module _ (db : Database) (ep : Exportent) (g : Flags) (fl : List FlavInfo) (act : List ℕ) where
  abbrev here : Options
  here = grouped ep g fl act

  abbrev IsIdle : FlagPair → Type 0
  IsIdle p = IsPair p × (put (g p.flag) p.flag g ≡ g) × ((bit p.flag == bit nosubtreecheck) ≡ false)

  shown_word :
      (p : FlagPair) (l : List Bytes) (shown : Bool)
      → IsIdle p
      → apply_options db (word_if shown (pair_text g p) ++ l) here ≡ apply_options db l here
  shown_word p l true (h, s, n) =
      pair_step db g p l here (g p.flag) h
      ∙ ap (apply_options db l) (with_flag-grouped ep g fl act p.flag s n)
  shown_word p l false h = refl

  apply_options-shown :
      (mask : Flags) (l : List Bytes)
      → apply_options db (secinfo_flags_show g mask ++ l) here ≡ apply_options db l here
  unfolding secinfo_flags_show
  apply_options-shown mask l =
      let (pr, (pi, (pq, (pa, _)))) = secinfo_pairs-IsPair in
      let a = word_if (mask readonly) (pair_text g readonly_pair) in
      let b = word_if (mask insecure_port) (pair_text g insecure_pair) in
      let c = word_if (mask rootsquash) (pair_text g rootsquash_pair) in
      let d = word_if (mask allsquash) (pair_text g allsquash_pair) in
      ap (λ (t : List Bytes). apply_options db t here)
        (append_assoc a (b ++ (c ++ d)) l
          ∙ ap (λ (t : List Bytes). a ++ t)
              (append_assoc b (c ++ d) l ∙ ap (λ (t : List Bytes). b ++ t) (append_assoc c d l)))
      ∙ shown_word readonly_pair (b ++ (c ++ (d ++ l))) (mask readonly)
          (pr, fun_ext (readonly-IsSettled g), refl)
      ∙ shown_word insecure_pair (c ++ (d ++ l)) (mask insecure_port)
          (pi, fun_ext (insecure_port-IsSettled g), refl)
      ∙ shown_word rootsquash_pair (d ++ l) (mask rootsquash)
          (pq, fun_ext (rootsquash-IsSettled g), refl)
      ∙ shown_word allsquash_pair l (mask allsquash) (pa, fun_ext (allsquash-IsSettled g), refl)

-- The words of a group of flavors that have the flags of the export
pub apply_options-group :
    (db : Database) (mask : Flags) (ep : Exportent) (g : Flags) (f : FlavInfo) (fl : List FlavInfo)
    (l : List Bytes)
    → All IsKnown (f ∷ fl)
    → IsDistinct (f ∷ fl)
    → length (f ∷ fl) ≤ 8
    → (act : List ℕ) × (apply_options db
          ((codes "sec=" ++ (f.flavour ++ colon_names fl)) ∷ secinfo_flags_show g mask ++ l)
          (opts ep g true)
        ≡ apply_options db l (grouped ep g (f ∷ fl) act))
unfolding apply_keyword
apply_options-group db mask ep g f fl l k d short =
    let v = f.flavour ++ colon_names fl in
    let base = record ep { e_flags = g; e_secinfo = [] } in
    let (act, e) = parse_flavors-known f fl base k d short in
    (
      act,
      apply_options-accepted db (secinfo_flags_show g mask ++ l) (opts ep g true)
            (grouped ep g (f ∷ fl) act) (codes "sec=" ++ v) (sec v) (keyword-sec v)
            (ap
              (λ (r : Flavors). elim r [
                | active a p ↦ accepted (record (opts ep g true) { ep = p; act = a })
                | unparsed p ↦ refused (record (opts ep g true) { ep = p; act = [] })
              ])
              e)
          ∙ apply_options-shown db ep g (f ∷ fl) act mask l,
    )

or_and : (a b : Bool) → (a && not b || a) ≡ a
or_and true true = refl
or_and true false = refl
or_and false b = refl

-- At the end the flags of the flavors stay as they are.
pub fix_entry-entries :
    (mask g : Flags) (fl : List FlavInfo) → map (fix_entry mask g) (entries g fl) ≡ entries g fl
unfolding fix_entry set_mask
fix_entry-entries mask g [] = refl
fix_entry-entries mask g (f ∷ fl) =
    ap₂ (λ (flags : Flags) (l : List SecEntry). record { flav = f; flags = flags } ∷ l)
      (fun_ext same) (fix_entry-entries mask g fl)
  where
    same : (y : Flag) → set_mask (λ x. g x && not (mask x)) g y ≡ g y
    same y = or_and (g y) (mask y)

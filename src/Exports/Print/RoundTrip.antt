-- ===== src/Exports/Print/RoundTrip.antt =====
-- putexportent of support/nfs/exports.c, and parseopts on the words that it writes.
use nfs_utils.Common.{
  ℕ, ◌≡◌, refl, ap, ◌∙◌, true, false, none, some, List, [], ◌∷◌, ◌++◌, Bytes, codes, map, ℤ, pos,
  append_assoc, str_eq,
}
use nfs_utils.Exports.{Flags, fsid, Exportent, fsloc_none, init_exportent, initial_flags}
use nfs_utils.Exports.Secinfo.{fix_pseudoflavor_flags}
use nfs_utils.Exports.Options.{
  Options, accepted, refer, replicas, apply_options, apply_keyword, keyword, find_word, find_prefix,
  behind, parseopts, parsed, start_options, Outcome, Parseopts, refused, bad_option, store_squash,
  cut_options,
}
use nfs_utils.Exports.Print.{
  Word, plain, word_text, flag_texts, flag_tail, fsid_texts, reexport_texts, mountpoint_texts,
  fsloc_words, squash_texts, range_texts, anon_texts, secinfo_flags_show, secinfo_words,
  xprtsecinfo_show, with_flavor, export_words, join_words,
}
use nfs_utils.Exports.Print.Words.{cut_options-join_words}
use nfs_utils.Exports.Print.Commas.{texts-IsOption}
use nfs_utils.Exports.Print.FlagWords.{Database, apply_options-accepted}
use nfs_utils.Exports.Print.Flavors.{colon_names, secinfo_group-entries}
use nfs_utils.Exports.Print.Fsid.{
  opts, fsid_words, all_flags, all_flags_lem, apply_options-flags, apply_options-fsid,
}
use nfs_utils.Exports.Print.Plain.{
  Locations, nowhere, referred, replicated, method_of, data_of, PlainExport, export, fsloc_texts,
  group_texts, texts, IsPlain, front, back,
}
use nfs_utils.Exports.Print.Group.{
  apply_options-mountpoint, apply_options-anon, apply_options-group, grouped, fix_entry-entries,
}

map-plain :
    (l : List Bytes) (r : List Word) → map word_text (map plain l ++ r) ≡ l ++ map word_text r
unfolding word_text
map-plain [] r = refl
map-plain (w ∷ l) r = ap (λ (t : List Bytes). w ∷ t) (map-plain l r)

plain_words : (l : List Bytes) → map word_text (map plain l) ≡ l
unfolding word_text
plain_words [] = refl
plain_words (w ∷ l) = ap (λ (t : List Bytes). w ∷ t) (plain_words l)

fsloc_lem :
    (p : Locations) (l : List Bytes)
    → map word_text (fsloc_words (method_of p) (data_of p) ++ map plain l) ≡ fsloc_texts p ++ l
unfolding word_text fsloc_words
fsloc_lem nowhere l = plain_words l
fsloc_lem (referred d) l = ap (λ (t : List Bytes). (codes "refer=" ++ d) ∷ t) (plain_words l)
fsloc_lem (replicated d) l = ap (λ (t : List Bytes). (codes "replicas=" ++ d) ∷ t) (plain_words l)

back_lem :
    (mask : Flags) (memory : ℕ → ℤ) (p : PlainExport)
    → squash_texts memory [] [] (
        anon_texts p.uid p.gid
        ++ (secinfo_words mask (with_flavor (export p)).e_secinfo ++ xprtsecinfo_show []))
      ≡ back mask p
unfolding squash_texts range_texts with_flavor secinfo_words xprtsecinfo_show
back_lem mask memory p =
    ap (λ (t : List Bytes). anon_texts p.uid p.gid ++ (t ++ []))
      (secinfo_group-entries mask p.flags (codes "sec=" ++ p.flavor.flavour) p.flavors
        ∙ ap (λ (w : Bytes). w ∷ secinfo_flags_show p.flags mask)
            (append_assoc (codes "sec=") p.flavor.flavour (colon_names p.flavors)))

front-append :
    (p : PlainExport) (l : List Bytes)
    → front p ++ l
      ≡ flag_texts p.flags
        ++ (flag_tail p.flags
            ++ (fsid_words (p.flags fsid) p.number p.uuid ++ (mountpoint_texts p.mount ++ l)))
front-append p l =
    let a = flag_texts p.flags in
    let b = flag_tail p.flags in
    let c = fsid_words (p.flags fsid) p.number p.uuid in
    let d = mountpoint_texts p.mount in
    append_assoc a (b ++ (c ++ d)) l
    ∙ ap (λ (t : List Bytes). a ++ t)
        (append_assoc b (c ++ d) l ∙ ap (λ (t : List Bytes). b ++ t) (append_assoc c d l))

pub export_words-parts :
    (mask : Flags) (memory : ℕ → ℤ) (p : PlainExport)
    → export_words mask memory (export p)
      ≡ map plain (front p)
        ++ (fsloc_words (method_of p.locations) (data_of p.locations) ++ map plain (back mask p))
unfolding export_words reexport_texts fsid_texts
export_words-parts mask memory p =
    ap
      (λ (t : List Bytes).
        map plain (front p)
        ++ (fsloc_words (method_of p.locations) (data_of p.locations) ++ map plain t))
      (back_lem mask memory p)

-- The words as they are read back
pub export_words-texts :
    (mask : Flags) (memory : ℕ → ℤ) (p : PlainExport)
    → map word_text (export_words mask memory (export p))
      ≡ front p ++ (fsloc_texts p.locations ++ back mask p)
export_words-texts mask memory p =
    ap (map word_text) (export_words-parts mask memory p)
    ∙ map-plain (front p)
        (fsloc_words (method_of p.locations) (data_of p.locations) ++ map plain (back mask p))
    ∙ ap (λ (t : List Bytes). front p ++ t) (fsloc_lem p.locations (back mask p))

-- The record that parseopts starts from
abbrev blank : PlainExport → Exportent
blank p = record (export p) {
  e_flags = initial_flags false;
  e_anonuid = pos 65534;
  e_anongid = pos 65534;
  e_fsid = 0;
  e_mountpoint = none;
  e_fslocmethod = fsloc_none;
  e_fslocdata = none;
  e_uuid = none;
  e_secinfo = [];
}

abbrev located : Exportent → Locations → Exportent
located ep p = record ep { e_fslocmethod = method_of p; e_fslocdata = data_of p }

apply_options-fsloc :
    (db : Database) (l : List Bytes) (ep : Exportent) (g : Flags) (p : Locations)
    → apply_options db (fsloc_texts p ++ l) (opts (located ep nowhere) g true)
      ≡ apply_options db l (opts (located ep p) g true)
unfolding keyword find_word find_prefix behind str_eq apply_keyword
apply_options-fsloc db l ep g nowhere = refl
apply_options-fsloc db l ep g (referred d) =
    apply_options-accepted db l (opts (located ep nowhere) g true)
      (opts (located ep (referred d)) g true) (codes "refer=" ++ d) (refer d) refl refl
apply_options-fsloc db l ep g (replicated d) =
    apply_options-accepted db l (opts (located ep nowhere) g true)
      (opts (located ep (replicated d)) g true) (codes "replicas=" ++ d) (replicas d) refl refl

done : (db : Database) (o : Options) → apply_options db [] o ≡ accepted o
unfolding apply_options
done db o = refl

-- The words are accepted, and give the export.
pub apply_options-texts :
    (db : Database) (mask : Flags) (p : PlainExport)
    → IsPlain p
    → (act : List ℕ) × (apply_options db (texts mask p) (opts (blank p) (initial_flags false) false)
        ≡ accepted (grouped (export p) p.flags (p.flavor ∷ p.flavors) act))
apply_options-texts db mask p h =
    let group = group_texts mask p.flags p.flavor p.flavors ++ [] in
    let anon = anon_texts p.uid p.gid ++ group in
    let fsloc = fsloc_texts p.locations ++ anon in
    let mount = mountpoint_texts p.mount ++ fsloc in
    let ids = fsid_words (p.flags fsid) p.number p.uuid ++ mount in
    let e1 = record (blank p) { e_fsid = p.number; e_uuid = p.uuid } in
    let e2 = record e1 { e_mountpoint = p.mount } in
    let e3 = located e2 p.locations in
    let (act, last) =
      apply_options-group db mask (export p) p.flags p.flavor p.flavors [] h.known h.distinct
        h.not_too_many in
    (
      act,
      apply_options-flags db p.flags (initial_flags false) (blank p) ids
          ∙ apply_options-fsid db mount (blank p) true (p.flags fsid) p.number p.uuid
              (all_flags p.flags (initial_flags false)) h.number_fits h.identity
          ∙ ap (λ (g : Flags). apply_options db mount (opts e1 g true))
              (all_flags_lem p.flags h.no_v4root)
          ∙ apply_options-mountpoint db fsloc e1 p.flags true p.mount
          ∙ apply_options-fsloc db anon e2 p.flags p.locations
          ∙ apply_options-anon db group e3 p.flags true p.uid p.gid h.uid_fits h.gid_fits
          ∙ last
          ∙ done db (grouped (export p) p.flags (p.flavor ∷ p.flavors) act),
    )

start_lem :
    (ee : Exportent) (p : PlainExport)
    → ee.e_fsid ≡ 0
    → start_options (record (init_exportent ee false) { e_hostname = some p.host; e_path = p.path })
      ≡ opts (blank p) (initial_flags false) false
unfolding start_options init_exportent
start_lem ee p h = rw h refl

-- parseopts on the words of a plain export, and a record of defaults without an fsid
pub parseopts-print :
    (mask : Flags) (db : Database) (memory : ℕ → ℤ) (ee : Exportent) (p : PlainExport)
    → ee.e_fsid ≡ 0
    → IsPlain p
    → parseopts mask db
        (some (join_words (map word_text (export_words mask memory (export p)))))
        (record (init_exportent ee false) { e_hostname = some p.host; e_path = p.path })
      ≡ parsed (export p) true
unfolding parseopts fix_pseudoflavor_flags
parseopts-print mask db memory ee p e h =
    let (act, ok) = apply_options-texts db mask p h in
    let words = front p ++ (fsloc_texts p.locations ++ back mask p) in
    let ep = record (init_exportent ee false) { e_hostname = some p.host; e_path = p.path } in
    let finish : Outcome → Parseopts = λ r. elim r [
      | accepted o ↦ parsed (store_squash o (fix_pseudoflavor_flags mask o.ep)) o.had_subtree_opt
      | refused o ↦ bad_option o.ep
    ] in
    ap
      (λ (l : List Bytes).
        finish (apply_options db (cut_options true (join_words l)) (start_options ep)))
      (export_words-texts mask memory p)
    ∙ ap (λ (l : List Bytes). finish (apply_options db l (start_options ep)))
        (cut_options-join_words words (texts-IsOption mask p h)
          ∙ front-append p (fsloc_texts p.locations ++ back mask p))
    ∙ ap (λ (o : Options). finish (apply_options db (texts mask p) o)) (start_lem ee p e)
    ∙ ap finish ok
    ∙ rw (fix_entry-entries mask p.flags (p.flavor ∷ p.flavors)) refl

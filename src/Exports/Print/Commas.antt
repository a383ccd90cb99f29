-- ===== src/Exports/Print/Commas.antt =====
-- The bytes of the words that putexportent of support/nfs/exports.c writes for a plain export.
use nfs_utils.Common.{
  ap, sym, ◌∙◌, ℕ, zero, suc, ◌+◌, ◌/◌, ◌%◌, ◌≡◌, ◌≢◌, refl, Bool, true, false, Option, none, some,
  List, [], ◌∷◌, ◌++◌, arith, ltb, Bytes, codes, All, All-append, map, Lacks, ℤ, pos, negsuc,
  digits_onto, print_nat, print_int, to_int, Bool-cases, inl, inr,
}
use nfs_utils.Exports.{
  Flags, readonly, insecure_port, rootsquash, allsquash, noreaddirplus, security_label, pnfs, fsid,
  FlavInfo,
}
use nfs_utils.Exports.Print.{
  flag_texts, flag_tail, mountpoint_texts, anon_texts, secinfo_flags_show, either_word, word_if,
}
use nfs_utils.Exports.Print.Words.{IsOption}
use nfs_utils.Exports.Print.FlagWords.{
  FlagPair, pair_text, text_pairs, readonly_pair, insecure_pair, rootsquash_pair, allsquash_pair,
}
use nfs_utils.Exports.Print.Flavors.{
  IsKnown, known-ArePrintable, colon_names, printable, all_printable, ArePrintable,
  all_printable-ArePrintable,
}
use nfs_utils.Exports.Print.Fsid.{fsid_words}
use nfs_utils.Exports.Print.Plain.{
  Locations, nowhere, referred, replicated, data_of, PlainExport, fsloc_texts, group_texts, NoComma,
  Prints, front, back, IsPlain,
}

-- A word of printable bytes
abbrev pub IsText : Bytes → Type 0
IsText [] = ⊥
IsText (c ∷ w) = ArePrintable (c ∷ w)

text_test : Bytes → Bool
text_test [] = false
text_test (c ∷ w) = all_printable (c ∷ w)

test-IsText : (w : Bytes) → text_test w ≡ true → IsText w
unfolding text_test
test-IsText [] h = absurd (ground arith)
test-IsText (c ∷ w) h = all_printable-ArePrintable (c ∷ w) h

-- A fixed name with a text behind it
named-IsText : (name s : Bytes) → text_test name ≡ true → ArePrintable s → IsText (name ++ s)
unfolding text_test
named-IsText [] s h l = absurd (ground arith)
named-IsText (c ∷ w) s h l =
    All-append (λ x. printable x ≡ true) (c ∷ w) s (all_printable-ArePrintable (c ∷ w) h) l

either-IsText :
    (b : Bool) (on off : Bytes)
    → text_test on ≡ true
    → text_test off ≡ true
    → IsText (either_word b on off)
either-IsText true on off h k = test-IsText on h
either-IsText false on off h k = test-IsText off k

if-IsText : (b : Bool) (w : Bytes) → IsText w → All IsText (word_if b w)
if-IsText true w h = (h, tt)
if-IsText false w h = tt

digits_onto-ArePrintable :
    (fuel n : ℕ) (acc : Bytes) → ArePrintable acc → ArePrintable (digits_onto fuel n acc)
unfolding digits_onto
digits_onto-ArePrintable zero n acc h = h
digits_onto-ArePrintable (suc fuel) n acc h = elim (Bool-cases (ltb n 10)) [
  | inl small ↦ rw small (ground arith, h)
  | inr large ↦
      rw large (digits_onto-ArePrintable fuel (n / 10) ((b'0' + n % 10) ∷ acc) (ground arith, h))
]

print_int-ArePrintable : (z : ℤ) → ArePrintable (print_int z)
unfolding print_int print_nat
print_int-ArePrintable (pos n) = digits_onto-ArePrintable 20 n [] tt
print_int-ArePrintable (negsuc n) = (ground arith, digits_onto-ArePrintable 20 (n + 1) [] tt)

colon_names-ArePrintable : (l : List FlavInfo) → All IsKnown l → ArePrintable (colon_names l)
colon_names-ArePrintable [] h = tt
colon_names-ArePrintable (f ∷ l) h = (
  ground arith,
  All-append (λ x. printable x ≡ true) f.flavour (colon_names l) (known-ArePrintable f h.0)
      (colon_names-ArePrintable l h.1),
)

abbrev AreOptions : FlagPair → Type 0
AreOptions p = (text_test p.on ≡ true) × (text_test p.off ≡ true)

pairs-IsText : (f : Flags) (t : List FlagPair) → All AreOptions t → All IsText (map (pair_text f) t)
pairs-IsText f [] h = tt
pairs-IsText f (p ∷ t) h = (either-IsText (f p.flag) p.on p.off h.0.0 h.0.1, pairs-IsText f t h.1)

flag_texts-IsText : (f : Flags) → All IsText (flag_texts f)
unfolding flag_texts text_test
flag_texts-IsText f = pairs-IsText f text_pairs (
  (refl, refl),
  (
    (refl, refl),
    (
      (refl, refl),
      (
        (refl, refl),
        (
          (refl, refl),
          (
            (refl, refl),
            ((refl, refl), ((refl, refl), ((refl, refl), ((refl, refl), ((refl, refl), tt))))),
          ),
        ),
      ),
    ),
  ),
)

flag_tail-IsText : (f : Flags) → All IsText (flag_tail f)
unfolding flag_tail text_test
flag_tail-IsText f =
    let nordirplus = codes "nordirplus" in
    let label = codes "security_label" in
    let first = word_if (f noreaddirplus) nordirplus in
    let second = word_if (f security_label) label in
    let third : List Bytes = either_word (f pnfs) (codes "pnfs") (codes "no_pnfs") ∷ [] in
    All-append IsText first (second ++ third)
      (if-IsText (f noreaddirplus) nordirplus (test-IsText nordirplus refl))
      (All-append IsText second third (if-IsText (f security_label) label (test-IsText label refl))
        (either-IsText (f pnfs) (codes "pnfs") (codes "no_pnfs") refl refl, tt))

fsid_words-IsText :
    (b : Bool) (n : ℕ) (uuid : Option Bytes) → Prints uuid → All IsText (fsid_words b n uuid)
unfolding text_test
fsid_words-IsText true n none h = (
  named-IsText (codes "fsid=") (print_int (to_int (pos n))) refl
      (print_int-ArePrintable (to_int (pos n))),
  tt,
)
fsid_words-IsText false n none h = tt
fsid_words-IsText true n (some u) h = (
  named-IsText (codes "fsid=") (print_int (to_int (pos n))) refl
      (print_int-ArePrintable (to_int (pos n))),
  (named-IsText (codes "fsid=") u refl h, tt),
)
fsid_words-IsText false n (some u) h = (named-IsText (codes "fsid=") u refl h, tt)

mountpoint_texts-IsText : (m : Option Bytes) → Prints m → All IsText (mountpoint_texts m)
unfolding mountpoint_texts text_test
mountpoint_texts-IsText none h = tt
mountpoint_texts-IsText (some []) h = (test-IsText (codes "mountpoint") refl, tt)
mountpoint_texts-IsText (some (c ∷ s)) h = (named-IsText (codes "mountpoint=") (c ∷ s) refl h, tt)

anon_texts-IsText : (uid gid : ℤ) → All IsText (anon_texts uid gid)
unfolding anon_texts text_test
anon_texts-IsText uid gid = (
  named-IsText (codes "anonuid=") (print_int uid) refl (print_int-ArePrintable uid),
  (named-IsText (codes "anongid=") (print_int gid) refl (print_int-ArePrintable gid), tt),
)

shown_pair :
    (b : Bool) (g : Flags) (p : FlagPair) → AreOptions p → All IsText (word_if b (pair_text g p))
shown_pair b g p h = if-IsText b (pair_text g p) (either-IsText (g p.flag) p.on p.off h.0 h.1)

shown-IsText : (g mask : Flags) → All IsText (secinfo_flags_show g mask)
unfolding secinfo_flags_show text_test
shown-IsText g mask =
    let a = word_if (mask readonly) (pair_text g readonly_pair) in
    let b = word_if (mask insecure_port) (pair_text g insecure_pair) in
    let c = word_if (mask rootsquash) (pair_text g rootsquash_pair) in
    let d = word_if (mask allsquash) (pair_text g allsquash_pair) in
    All-append IsText a (b ++ (c ++ d)) (shown_pair (mask readonly) g readonly_pair (refl, refl)) (
      All-append IsText b (c ++ d) (shown_pair (mask insecure_port) g insecure_pair (refl, refl)) (
        All-append IsText c d (shown_pair (mask rootsquash) g rootsquash_pair (refl, refl))
          (shown_pair (mask allsquash) g allsquash_pair (refl, refl))))

group_texts-IsText :
    (mask g : Flags) (f : FlavInfo) (fl : List FlavInfo)
    → All IsKnown (f ∷ fl)
    → All IsText (group_texts mask g f fl ++ [])
unfolding text_test
group_texts-IsText mask g f fl h =
    let names = f.flavour ++ colon_names fl in
    (
      named-IsText (codes "sec=") names refl (
          All-append (λ x. printable x ≡ true) f.flavour (colon_names fl) (known-ArePrintable f h.0)
            (colon_names-ArePrintable fl h.1)),
      All-append IsText (secinfo_flags_show g mask) [] (shown-IsText g mask) tt,
    )

pub front-IsText : (p : PlainExport) → IsPlain p → All IsText (front p)
front-IsText p h =
    let words = fsid_words (p.flags fsid) p.number p.uuid in
    let mount = mountpoint_texts p.mount in
    let join = All-append IsText in
    join (flag_texts p.flags) (flag_tail p.flags ++ (words ++ mount)) (flag_texts-IsText p.flags) (
      join (flag_tail p.flags) (words ++ mount) (flag_tail-IsText p.flags) (
        join words mount (fsid_words-IsText (p.flags fsid) p.number p.uuid h.uuid_prints)
          (mountpoint_texts-IsText p.mount h.mount_prints)))

pub back-IsText : (mask : Flags) (p : PlainExport) → IsPlain p → All IsText (back mask p)
back-IsText mask p h =
    All-append IsText (anon_texts p.uid p.gid) (group_texts mask p.flags p.flavor p.flavors ++ [])
      (anon_texts-IsText p.uid p.gid) (group_texts-IsText mask p.flags p.flavor p.flavors h.known)

-- A byte that is not printable is not among printable ones.
pub printable-Lacks : (x : ℕ) (w : Bytes) → printable x ≡ false → ArePrintable w → Lacks x w
printable-Lacks x [] h k = tt
printable-Lacks x (c ∷ w) h k =
    (λ e. differ (printable c) (printable x) k.0 h (ap printable e), printable-Lacks x w h k.1)
  where
    differ : (a b : Bool) → a ≡ true → b ≡ false → a ≡ b → ⊥
    differ a b p q r = cc (sym p ∙ r ∙ q)

IsText-IsOption : (l : List Bytes) → All IsText l → All IsOption l
IsText-IsOption [] h = tt
IsText-IsOption ([] ∷ l) h = elim h.0 [ ]
IsText-IsOption ((c ∷ w) ∷ l) h =
    ((ground (arith, h.0.0), printable-Lacks b',' (c ∷ w) refl h.0), IsText-IsOption l h.1)

named-IsOption : (name s : Bytes) → text_test name ≡ true → Lacks b',' s → IsOption (name ++ s)
unfolding text_test
named-IsOption [] s h l = absurd (ground arith)
named-IsOption (c ∷ w) s h l =
    let t = all_printable-ArePrintable (c ∷ w) h in
    (
      ground (arith, t.0),
      All-append (λ x. x ≢ b',') (c ∷ w) s (printable-Lacks b',' (c ∷ w) refl t) l,
    )

fsloc_texts-IsOption : (p : Locations) → NoComma (data_of p) → All IsOption (fsloc_texts p)
unfolding text_test
fsloc_texts-IsOption nowhere h = tt
fsloc_texts-IsOption (referred d) h = (named-IsOption (codes "refer=") d refl h, tt)
fsloc_texts-IsOption (replicated d) h = (named-IsOption (codes "replicas=") d refl h, tt)

pub texts-IsOption :
    (mask : Flags) (p : PlainExport)
    → IsPlain p
    → All IsOption (front p ++ (fsloc_texts p.locations ++ back mask p))
texts-IsOption mask p h =
    All-append IsOption (front p) (fsloc_texts p.locations ++ back mask p)
      (IsText-IsOption (front p) (front-IsText p h))
      (All-append IsOption (fsloc_texts p.locations) (back mask p)
        (fsloc_texts-IsOption p.locations h.locations_lack_comma)
        (IsText-IsOption (back mask p) (back-IsText mask p h)))

-- ===== src/Exports/Print/Line.antt =====
-- The line that putexportent of support/nfs/exports.c writes for a plain export, as one quoted text.
use nfs_utils.Common.{
  ℕ, ◌+◌, ◌<◌, ◌≡◌, ◌≢◌, refl, ap, sym, subst, ◌∙◌, false, Option, none, some, List, [], ◌∷◌, ◌++◌,
  arith, Bytes, codes, map, ℤ, All, All-append, Lacks, lacks-Lacks, length, append_assoc,
}
use nfs_utils.Exports.{Flags}
use nfs_utils.Exports.Print.{
  is_quoted, fprintpath, Word, plain, word_text, print_word, fsloc_words, export_words, join_words,
  putexportent,
}
use nfs_utils.Exports.Print.Flavors.{printable, ArePrintable}
use nfs_utils.Exports.Print.Plain.{
  Locations, nowhere, referred, replicated, method_of, data_of, PlainExport, export, fsloc_texts,
  IsPlain, front, back,
}
use nfs_utils.Exports.Print.Commas.{IsText, front-IsText, back-IsText, printable-Lacks}
use nfs_utils.Exports.Print.RoundTrip.{export_words-parts, export_words-texts}
use nfs_utils.Exports.Xio.Quoting.{Unescaped}

-- What stands between the parentheses, and the client with it, as they are read back
abbrev pub option_text : Flags → PlainExport → Bytes
option_text mask p = join_words (front p ++ (fsloc_texts p.locations ++ back mask p))

abbrev pub client_text : Flags → PlainExport → Bytes
client_text mask p = p.host ++ (b'(' ∷ (option_text mask p ++ codes ")"))

-- A byte of a host that is neither quoted nor the start of the options
abbrev pub HostByte : ℕ → Type 0
HostByte c = (is_quoted c ≡ false) × (c ≢ b'(')

abbrev pub IsHost : Bytes → Type 0
IsHost [] = ⊥
IsHost (c ∷ s) = (c ≢ b'-') × All HostByte (c ∷ s)

abbrev pub IsClear : Option Bytes → Type 0
IsClear none = Unit
IsClear (some d) = Lacks b'\\' d × Lacks b')' d

-- A plain export of which the line is read back: getexportent has 512 bytes for the client.
pub record IsLine (mask : Flags) (p : PlainExport) : Type 0 where
  pub has_path : p.path ≢ []
  pub path_unescaped : Unescaped [] p.path
  pub path_fits : length p.path + 2 < 1025
  pub has_host : IsHost p.host
  pub locations_clear : IsClear (data_of p.locations)
  pub client_fits : length (client_text mask p) + 2 < 512

fprintpath-append : (a b : Bytes) → fprintpath (a ++ b) ≡ fprintpath a ++ fprintpath b
unfolding fprintpath
fprintpath-append [] b = refl
fprintpath-append (c ∷ a) b = ground (arith, fprintpath-append a b)

IsBare : Bytes → Type 0
IsBare = All (λ c. is_quoted c ≡ false)

fprintpath-bare : (a : Bytes) → IsBare a → fprintpath a ≡ a
unfolding fprintpath IsBare
fprintpath-bare [] h = refl
fprintpath-bare (c ∷ a) h = rw (h.0) (ap (λ (t : Bytes). c ∷ t) (fprintpath-bare a h.1))

printable-IsBare : (a : Bytes) → ArePrintable a → IsBare a
unfolding IsBare
printable-IsBare [] h = tt
printable-IsBare (c ∷ a) h = (ground (arith, h.0), printable-IsBare a h.1)

host-IsBare : (a : Bytes) → All HostByte a → IsBare a
unfolding IsBare
host-IsBare [] h = tt
host-IsBare (c ∷ a) h = (h.0.0, host-IsBare a h.1)

fprintpath-join_words : (l : List Bytes) → join_words (map fprintpath l) ≡ fprintpath (join_words l)
unfolding join_words fprintpath
fprintpath-join_words [] = refl
fprintpath-join_words (w ∷ []) = refl
fprintpath-join_words (w ∷ v ∷ l) =
    ap (λ (t : Bytes). fprintpath w ++ (b',' ∷ t)) (fprintpath-join_words (v ∷ l))
    ∙ sym (fprintpath-append w (b',' ∷ join_words (v ∷ l)))

-- The word is printed as the quoted form of its text.
Shows : Word → Type 0
Shows w = print_word w ≡ fprintpath (word_text w)

map-Shows : (l : List Word) → All Shows l → map print_word l ≡ map fprintpath (map word_text l)
unfolding Shows
map-Shows [] h = refl
map-Shows (w ∷ l) h = rw (h.0, map-Shows l h.1) refl

text-Shows : (l : List Bytes) → All IsText l → All Shows (map plain l)
unfolding Shows print_word word_text
text-Shows [] h = tt
text-Shows ([] ∷ l) h = elim h.0 [ ]
text-Shows ((c ∷ w) ∷ l) h =
    (sym (fprintpath-bare (c ∷ w) (printable-IsBare (c ∷ w) h.0)), text-Shows l h.1)

fsloc-Shows : (p : Locations) → All Shows (fsloc_words (method_of p) (data_of p))
unfolding Shows print_word word_text fsloc_words fprintpath
fsloc-Shows nowhere = tt
fsloc-Shows (referred d) = (refl, tt)
fsloc-Shows (replicated d) = (refl, tt)

words-Shows :
    (mask : Flags) (p : PlainExport)
    → IsPlain p
    → All Shows (
        map plain (front p)
        ++ (fsloc_words (method_of p.locations) (data_of p.locations) ++ map plain (back mask p)))
words-Shows mask p h =
    let locations = fsloc_words (method_of p.locations) (data_of p.locations) in
    let behind = map plain (back mask p) in
    All-append Shows (map plain (front p)) (locations ++ behind)
      (text-Shows (front p) (front-IsText p h))
      (All-append Shows locations behind (fsloc-Shows p.locations)
        (text-Shows (back mask p) (back-IsText mask p h)))

printed_options :
    (mask : Flags) (memory : ℕ → ℤ) (p : PlainExport)
    → IsPlain p
    → join_words (map print_word (export_words mask memory (export p)))
      ≡ fprintpath (option_text mask p)
printed_options mask memory p h =
    ap join_words (
      map-Shows (export_words mask memory (export p))
        (subst (All Shows) (sym (export_words-parts mask memory p)) (words-Shows mask p h))
      ∙ ap (map fprintpath) (export_words-texts mask memory p))
    ∙ fprintpath-join_words (front p ++ (fsloc_texts p.locations ++ back mask p))

-- The line end is moved behind the closing parenthesis.
line_end :
    (host options rest : Bytes)
    → (host ++ (b'(' ∷ (options ++ codes ")\n"))) ++ rest
      ≡ (host ++ (b'(' ∷ (options ++ codes ")"))) ++ (b'\n' ∷ rest)
line_end [] [] rest = refl
line_end [] (c ∷ s) rest =
    ap (λ (t : Bytes). b'(' ∷ c ∷ t)
      (append_assoc s (codes ")\n") rest ∙ sym (append_assoc s (codes ")") (b'\n' ∷ rest)))
line_end (c ∷ s) options rest = ap (λ (t : Bytes). c ∷ t) (line_end s options rest)

IsBare-host : (host : Bytes) → IsHost host → IsBare host
IsBare-host [] h = elim h [ ]
IsBare-host (c ∷ s) h = host-IsBare (c ∷ s) h.1

printed_client :
    (mask : Flags) (p : PlainExport)
    → IsLine mask p
    → p.host ++ (b'(' ∷ (fprintpath (option_text mask p) ++ codes ")"))
      ≡ fprintpath (client_text mask p)
unfolding fprintpath
printed_client mask p h =
    let options = option_text mask p in
    sym (
      fprintpath-append p.host (b'(' ∷ (options ++ codes ")"))
      ∙ ap (λ (t : Bytes). t ++ (b'(' ∷ fprintpath (options ++ codes ")")))
          (fprintpath-bare p.host (IsBare-host p.host h.has_host))
      ∙ ap (λ (t : Bytes). p.host ++ (b'(' ∷ t)) (fprintpath-append options (codes ")")))

pub putexportent-parts :
    (mask : Flags) (memory : ℕ → ℤ) (p : PlainExport) (rest : Bytes)
    → IsPlain p
    → IsLine mask p
    → putexportent mask memory (export p) ++ rest
      ≡ fprintpath p.path ++ (b'\t' ∷ (fprintpath (client_text mask p) ++ (b'\n' ∷ rest)))
unfolding putexportent
putexportent-parts mask memory p rest plain_export line =
    let printed = join_words (map print_word (export_words mask memory (export p))) in
    append_assoc (fprintpath p.path) (b'\t' ∷ (p.host ++ (b'(' ∷ (printed ++ codes ")\n")))) rest
    ∙ ap (λ (t : Bytes). fprintpath p.path ++ (b'\t' ∷ t))
        (line_end p.host printed rest
          ∙ ap (λ (t : Bytes). (p.host ++ (b'(' ∷ (t ++ codes ")"))) ++ (b'\n' ∷ rest))
              (printed_options mask memory p plain_export)
          ∙ ap (λ (t : Bytes). t ++ (b'\n' ∷ rest)) (printed_client mask p line))

join-Lacks : (x : ℕ) (l : List Bytes) → b',' ≢ x → All (Lacks x) l → Lacks x (join_words l)
unfolding join_words
join-Lacks x [] ne h = tt
join-Lacks x (w ∷ []) ne h = h.0
join-Lacks x (w ∷ v ∷ l) ne h =
    All-append (λ c. c ≢ x) w (b',' ∷ join_words (v ∷ l)) h.0 (ne, join-Lacks x (v ∷ l) ne h.1)

text-Lacks : (x : ℕ) (l : List Bytes) → printable x ≡ false → All IsText l → All (Lacks x) l
text-Lacks x [] e h = tt
text-Lacks x ([] ∷ l) e h = elim h.0 [ ]
text-Lacks x ((c ∷ w) ∷ l) e h = (printable-Lacks x (c ∷ w) e h.0, text-Lacks x l e h.1)

fsloc-Lacks :
    (p : Locations)
    → IsClear (data_of p)
    → All (Lacks b'\\') (fsloc_texts p) × All (Lacks b')') (fsloc_texts p)
fsloc-Lacks nowhere h = (tt, tt)
fsloc-Lacks (referred d) h = (
  (
    All-append (λ c. c ≢ b'\\') (codes "refer=") d (lacks-Lacks b'\\' (codes "refer=") refl) h.0,
    tt,
  ),
  (All-append (λ c. c ≢ b')') (codes "refer=") d (lacks-Lacks b')' (codes "refer=") refl) h.1, tt),
)
fsloc-Lacks (replicated d) h =
    let name = codes "replicas=" in
    (
      (All-append (λ c. c ≢ b'\\') name d (lacks-Lacks b'\\' name refl) h.0, tt),
      (All-append (λ c. c ≢ b')') name d (lacks-Lacks b')' name refl) h.1, tt),
    )

-- The options hold no closing parenthesis and no backslash.
pub option_text-Lacks :
    (mask : Flags) (p : PlainExport)
    → IsPlain p
    → IsLine mask p
    → Lacks b'\\' (option_text mask p) × Lacks b')' (option_text mask p)
option_text-Lacks mask p h line =
    let (slash, paren) = fsloc-Lacks p.locations line.locations_clear in
    (
      joined b'\\' (λ e. ground (arith, e)) refl slash,
      joined b')' (λ e. ground (arith, e)) refl paren,
    )
  where
    joined :
        (x : ℕ)
        → b',' ≢ x
        → printable x ≡ false
        → All (Lacks x) (fsloc_texts p.locations)
        → Lacks x (option_text mask p)
    joined x comma e locations =
        join-Lacks x (front p ++ (fsloc_texts p.locations ++ back mask p)) comma (
          All-append (Lacks x) (front p) (fsloc_texts p.locations ++ back mask p)
            (text-Lacks x (front p) e (front-IsText p h))
            (All-append (Lacks x) (fsloc_texts p.locations) (back mask p) locations
              (text-Lacks x (back mask p) e (back-IsText mask p h))))

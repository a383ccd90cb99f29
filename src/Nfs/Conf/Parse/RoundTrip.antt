-- ===== src/Nfs/Conf/Parse/RoundTrip.antt =====
-- conf_parse of support/nfs/conffile.c on a file that is written from a list of sections.
use nfs_utils.Common.{
  ℕ, suc, ◌≡◌, ◌≢◌, refl, ap, subst, ◌∙◌, true, false, Option, none, some, List, [], ◌∷◌, ◌++◌,
  arith, Bytes, peek, Lacks, All, All-append, append_assoc,
}
use nfs_utils.Nfs.Conf.{Conf, conf_set}
use nfs_utils.Nfs.Conf.Parse.{
  Sections, Includes, rev_onto, lines, run_lines, conf_parse_line, conf_parse,
}
use nfs_utils.Nfs.Conf.Parse.Lines.{
  IsName, IsArg, IsTag, is_tag_start, name_and_arg, assignment, within, parse_header-name,
  parse_header-arg, name_and_arg-Lacks, conf_parse_line-assignment, conf_parse_line-header,
}

rev_onto-append : (s t r : Bytes) → rev_onto (s ++ t) r ≡ rev_onto t (rev_onto s r)
rev_onto-append [] t r = refl
rev_onto-append (c ∷ s) t r = rev_onto-append s t (c ∷ r)

rev_onto-twice : (s r t : Bytes) → rev_onto (rev_onto s r) t ≡ rev_onto r (s ++ t)
rev_onto-twice [] r t = refl
rev_onto-twice (c ∷ s) r t = rev_onto-twice s (c ∷ r) t

lines-Lacks :
    (line s rest : Bytes) → Lacks b'\n' s → lines line (s ++ rest) ≡ lines (rev_onto s line) rest
unfolding lines
lines-Lacks line [] rest h = refl
lines-Lacks line (c ∷ s) rest h = ground (arith, h.0, lines-Lacks (c ∷ line) s rest h.1)

lines-newline :
    (line rest : Bytes)
    → peek line ≢ b'\\'
    → lines line (b'\n' ∷ rest) ≡ rev_onto line [] ∷ lines [] rest
unfolding lines
lines-newline line rest h = ground (arith, h)

-- A line without a newline in it, whose last byte is no backslash, is split off.
lines-line :
    (s : Bytes) (c : ℕ) (rest : Bytes)
    → Lacks b'\n' (s ++ c ∷ [])
    → c ≢ b'\\'
    → lines [] ((s ++ c ∷ []) ++ b'\n' ∷ rest) ≡ (s ++ c ∷ []) ∷ lines [] rest
lines-line s c rest h k =
    lines-Lacks [] (s ++ c ∷ []) (b'\n' ∷ rest) h
    ∙ ap (λ r. lines r (b'\n' ∷ rest)) (rev_onto-append s (c ∷ []) [])
    ∙ lines-newline (c ∷ rev_onto s []) rest k
    ∙ ap (λ l. l ∷ lines [] rest) (rev_onto-twice s [] (c ∷ []))

-- A section of a file, with its entries in order
pub record Part : Type 0 where
  pub name : Bytes
  pub arg : Option Bytes
  pub entries : List (Bytes × Bytes)

abbrev pub header : Bytes → Option Bytes → Bytes
header name none = b'[' ∷ name
header name (some arg) = b'[' ∷ name_and_arg name arg

unfoldable pub print_entries : List (Bytes × Bytes) → Bytes → Bytes
print_entries [] rest = rest
print_entries ((tag, value) ∷ es) rest = assignment tag value ++ b'\n' ∷ print_entries es rest

-- The file: each section's header, and an assignment with quotes for each entry
unfoldable pub print : List Part → Bytes
unfolding print_entries
print [] = []
print (p ∷ ps) = (header p.name p.arg ++ b']' ∷ []) ++ b'\n' ∷ print_entries p.entries (print ps)

-- What is queued for it
unfoldable pub set_entries : ℕ → Bytes → Option Bytes → List (Bytes × Bytes) → Conf → Conf
set_entries trans name arg [] c = c
set_entries trans name arg ((tag, value) ∷ es) c =
    set_entries trans name arg es (conf_set c trans name arg tag value true false)

unfoldable pub set_parts : ℕ → List Part → Conf → Conf
unfolding set_entries
set_parts trans [] c = c
set_parts trans (p ∷ ps) c = set_parts trans ps (set_entries trans p.name p.arg p.entries c)

abbrev pub IsEntry : Bytes × Bytes → Type 0
IsEntry ([], value) = ⊥
IsEntry (t ∷ tag, value) =
    (is_tag_start t ≡ true) × IsTag (t ∷ tag) × Lacks b'"' value × Lacks b'\n' value

abbrev pub IsHeader : Bytes → Option Bytes → Type 0
IsHeader [] arg = ⊥
IsHeader (c ∷ name) none = IsName (c ∷ name)
IsHeader (c ∷ name) (some arg) = IsName (c ∷ name) × IsArg arg

abbrev pub IsPart : Part → Type 0
IsPart p = IsHeader p.name p.arg × All IsEntry p.entries

abbrev pub last_sections : Sections → List Part → Sections
last_sections st [] = st
last_sections st (p ∷ ps) = last_sections (within p.name p.arg) ps

header-Lacks :
    (name : Bytes) (arg : Option Bytes) → IsHeader name arg → Lacks b'\n' (header name arg)
header-Lacks [] arg h = elim h [ ]
header-Lacks (c ∷ name) none h = (λ e. ground (arith, e), h.no_newline)
header-Lacks (c ∷ name) (some arg) h = (
  λ e. ground (arith, e),
  name_and_arg-Lacks b'\n' (c ∷ name) arg (λ e. ground (arith, e)) (λ e. ground (arith, e))
      h.0.no_newline h.1.no_newline,
)

module _ (f : Includes) (trans : ℕ) (filename : Bytes) where
  pub run_lines-step :
      (line : Bytes) (ls : List Bytes) (st st' : Sections) (c c' : Conf)
      → conf_parse_line f trans filename line st c ≡ some (c', st')
      → run_lines (conf_parse_line f trans filename) (line ∷ ls) st c
        ≡ run_lines (conf_parse_line f trans filename) ls st' c'
  unfolding run_lines
  run_lines-step line ls st st' c c' e = rw (e, run_lines) refl

  pub lines-entry :
      (tag value rest : Bytes)
      → Lacks b'\n' tag
      → Lacks b'\n' value
      → lines [] (assignment tag value ++ b'\n' ∷ rest) ≡ assignment tag value ∷ lines [] rest
  lines-entry tag value rest h k =
      let body = tag ++ (b'=' ∷ (b'"' ∷ value)) in
      subst (λ l. lines [] (l ++ b'\n' ∷ rest) ≡ l ∷ lines [] rest)
        (append_assoc tag (b'=' ∷ (b'"' ∷ value)) (b'"' ∷ []))
        (lines-line body b'"' rest
          (All-append (λ y. y ≢ b'\n') body (b'"' ∷ [])
            (All-append (λ y. y ≢ b'\n') tag (b'=' ∷ (b'"' ∷ value)) h
              (λ e. ground (arith, e), (λ e. ground (arith, e), k)))
            (λ e. ground (arith, e), tt))
          (λ e. ground (arith, e)))

  run_entries :
      (name : Bytes) (arg : Option Bytes) (es : List (Bytes × Bytes)) (rest : Bytes) (c : Conf)
      → All IsEntry es
      → run_lines
          (conf_parse_line f trans filename)
          (lines [] (print_entries es rest))
          (within name arg)
          c
        ≡ run_lines
            (conf_parse_line f trans filename)
            (lines [] rest)
            (within name arg)
            (set_entries trans name arg es c)
  unfolding print_entries set_entries
  run_entries name arg [] rest c h = refl
  run_entries name arg (([], value) ∷ es) rest c h = elim h.0 [ ]
  run_entries name arg ((t ∷ tag, value) ∷ es) rest c h =
      let (start, is_tag, no_quote, no_newline) = h.0 in
      ap (λ ls. run_lines (conf_parse_line f trans filename) ls (within name arg) c)
        (lines-entry (t ∷ tag) value (print_entries es rest) is_tag.no_newline no_newline)
      ∙ run_lines-step (assignment (t ∷ tag) value) (lines [] (print_entries es rest))
          (within name arg) (within name arg) c
          (conf_set c trans name arg (t ∷ tag) value true false)
          (conf_parse_line-assignment f trans filename name arg c t tag value start is_tag no_quote)
      ∙ run_entries name arg es rest (conf_set c trans name arg (t ∷ tag) value true false) h.1

  pub lines-header :
      (name : Bytes) (arg : Option Bytes) (rest : Bytes)
      → IsHeader name arg
      → lines [] ((header name arg ++ b']' ∷ []) ++ b'\n' ∷ rest)
        ≡ (header name arg ++ b']' ∷ []) ∷ lines [] rest
  lines-header name arg rest h =
      lines-line (header name arg) b']' rest
        (All-append (λ y. y ≢ b'\n') (header name arg) (b']' ∷ []) (header-Lacks name arg h)
          (λ e. ground (arith, e), tt))
        (λ e. ground (arith, e))

  pub parse_line-header :
      (name : Bytes) (arg : Option Bytes) (st : Sections) (c : Conf)
      → IsHeader name arg
      → conf_parse_line f trans filename (header name arg ++ b']' ∷ []) st c
        ≡ some (c, within name arg)
  parse_line-header [] arg st c h = elim h [ ]
  parse_line-header (x ∷ name) none st c h =
      conf_parse_line-header f trans filename [] none c ((x ∷ name) ++ b']' ∷ []) st
      ∙ ap (λ s. some (c, s)) (parse_header-name (x ∷ name) h)
  parse_line-header (x ∷ name) (some arg) st c h =
      conf_parse_line-header f trans filename [] none c (name_and_arg (x ∷ name) arg ++ b']' ∷ [])
        st
      ∙ ap (λ s. some (c, s)) (parse_header-arg x name arg h.0 h.1)

  run_parts :
      (ps : List Part) (st : Sections) (c : Conf)
      → All IsPart ps
      → run_lines (conf_parse_line f trans filename) (lines [] (print ps)) st c
        ≡ some (set_parts trans ps c, last_sections st ps)
  unfolding print set_parts
  run_parts [] st c h = unfold lines run_lines in refl
  run_parts (p ∷ ps) st c h =
      ap (λ ls. run_lines (conf_parse_line f trans filename) ls st c)
        (lines-header p.name p.arg (print_entries p.entries (print ps)) h.0.0)
      ∙ run_lines-step (header p.name p.arg ++ b']' ∷ [])
          (lines [] (print_entries p.entries (print ps))) st (within p.name p.arg) c c
          (parse_line-header p.name p.arg st c h.0.0)
      ∙ run_entries p.name p.arg p.entries (print ps) c h.0.1
      ∙ run_parts ps (within p.name p.arg) (set_entries trans p.name p.arg p.entries c) h.1

-- A file that is printed from well-formed sections and entries is parsed, at any depth but zero,
-- into conf_set of each entry, in order, with its section and argument, overriding; the sections
-- are then those of the last header.
pub conf_parse-print :
    (conf_readfile : Bytes → Option Bytes) (trans depth : ℕ) (filename : Bytes) (ps : List Part)
    (st : Sections) (c : Conf)
    → All IsPart ps
    → conf_parse conf_readfile trans (suc depth) filename (print ps) st c
      ≡ some (set_parts trans ps c, last_sections st ps)
unfolding conf_parse
conf_parse-print conf_readfile trans depth filename ps st c h =
    run_parts
      (record { conf_readfile = conf_readfile; conf_parse = conf_parse conf_readfile trans depth })
      trans filename ps st c h

-- ===== src/Nfs/Conf/Parse/Include.antt =====
-- A file that includes itself, for conf_parse of support/nfs/conffile.c.
use nfs_utils.Common.{
  ℕ, zero, suc, ◌≡◌, refl, ap, ◌∙◌, Option, none, some, List, [], ◌∷◌, ◌++◌, arith, Bytes, codes,
  Lacks, lacks-Lacks, case_eq, str_eq, to_lower,
}
use nfs_utils.Nfs.Conf.{Conf}
use nfs_utils.Nfs.Conf.Parse.{
  Sections, Includes, trim_end, relative_path, include, assign, lines, run_lines, conf_parse_line,
  conf_parse,
}
use nfs_utils.Nfs.Conf.Parse.Lines.{
  assignment, within, parse_assignment-quoted, conf_parse_line-tag,
}
use nfs_utils.Nfs.Conf.Parse.RoundTrip.{
  header, IsHeader, run_lines-step, lines-entry, lines-header, parse_line-header,
}

run_lines-stuck :
    (parse_line : Bytes → Sections → Conf → Option (Conf × Sections)) (line : Bytes)
    (ls : List Bytes) (st : Sections) (c : Conf)
    → parse_line line st c ≡ none
    → run_lines parse_line (line ∷ ls) st c ≡ none
unfolding run_lines
run_lines-stuck parse_line line ls st c e = rw (e, run_lines) refl

include-stuck :
    (f : Includes) (filename name text : Bytes) (st : Sections) (c : Conf)
    → f.conf_readfile (b'/' ∷ name) ≡ some text
    → f.conf_parse (b'/' ∷ name) text st c ≡ none
    → include f filename (b'/' ∷ name) st c ≡ none
unfolding include relative_path
include-stuck f filename name text st c read stuck = rw (read, stuck, include, relative_path) refl

assign-include :
    (f : Includes) (trans : ℕ) (filename section value : Bytes) (st : Sections) (c : Conf)
    → assign f trans filename section (codes "include") value st c ≡ include f filename value st c
unfolding assign
assign-include f trans filename section value st c = unfold case_eq str_eq to_lower in refl

abbrev includes : (Bytes → Option Bytes) → ℕ → ℕ → Includes
includes conf_readfile trans depth = record {
  conf_readfile = conf_readfile;
  conf_parse = conf_parse conf_readfile trans depth;
}

-- The file's text: a header, and an include of the file itself
abbrev pub self_including : Bytes → Option Bytes → Bytes → Bytes
self_including section arg path =
    (header section arg ++ b']' ∷ []) ++ b'\n' ∷ (assignment (codes "include") path ++ b'\n' ∷ [])

-- Where the file of an absolute name, without a quote or newline in the name, holds a header and an
-- include of that same name, conf_parse of it does not return, however deep it may recurse.
pub conf_parse-self_including :
    (conf_readfile : Bytes → Option Bytes) (trans : ℕ) (section : Bytes) (arg : Option Bytes)
    (name : Bytes)
    → IsHeader section arg
    → Lacks b'"' name
    → Lacks b'\n' name
    → conf_readfile (b'/' ∷ name) ≡ some (self_including section arg (b'/' ∷ name))
    → (depth : ℕ) (filename : Bytes) (st : Sections) (c : Conf)
    → conf_parse conf_readfile trans depth filename (self_including section arg (b'/' ∷ name)) st c
      ≡ none
unfolding conf_parse
conf_parse-self_including conf_readfile trans section arg name h q n read zero filename st c = refl
conf_parse-self_including conf_readfile trans section arg name h q n read (suc depth) filename st
      c =
    let path = b'/' ∷ name in
    let line = assignment (codes "include") path in
    let f = includes conf_readfile trans depth in
    let inner =
      conf_parse-self_including conf_readfile trans section arg name h q n read depth path
        (within section arg) c in
    ap (λ ls. run_lines (conf_parse_line f trans filename) ls st c)
      (lines-header f trans filename section arg (line ++ b'\n' ∷ []) h)
    ∙ run_lines-step f trans filename (header section arg ++ b']' ∷ [])
        (lines [] (line ++ b'\n' ∷ [])) st (within section arg) c c
        (parse_line-header f trans filename section arg st c h)
    ∙ ap (λ ls. run_lines (conf_parse_line f trans filename) ls (within section arg) c)
        (lines-entry f trans filename (codes "include") path []
          (lacks-Lacks b'\n' (codes "include") refl) (λ e. ground (arith, e), n))
    ∙ run_lines-stuck (conf_parse_line f trans filename) line (lines [] []) (within section arg) c (
        conf_parse_line-tag f trans filename section arg c b'i'
          (codes "nclude=" ++ (b'"' ∷ (path ++ b'"' ∷ []))) (within section arg) refl
        ∙ parse_assignment-quoted f trans filename section arg c (codes "include") path
            (lacks-Lacks b'=' (codes "include") refl) (unfold trim_end in refl)
            (λ e. ground (arith, e), q)
        ∙ assign-include f trans filename section path (within section arg) c
        ∙ include-stuck f filename name (self_including section arg path) (within section arg) c
            read inner)

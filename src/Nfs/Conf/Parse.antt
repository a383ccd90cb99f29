-- ===== src/Nfs/Conf/Parse.antt =====
-- support/nfs/conffile.c: the parser of the configuration file. Lines are handed to conf_parse_line
-- as conf_parse ends them; messages are not modelled. Files are read by a parameter, which stands for
-- conf_readfile: the text of the file of that name, or none if it cannot be read.
pub mod Lines
pub mod RoundTrip
pub mod Include
use nfs_utils.Common.{
  ℕ, zero, suc, Bool, true, false, not, ◌||◌, Option, none, some, List, [], ◌∷◌, ◌++◌, ◌==◌,
  if◌then◌else◌, Bytes, codes, peek, drop, case_eq, cut, skip, is_blank, is_space,
}
use nfs_utils.Nfs.Conf.{Conf, conf_set}

-- `section` and `subsection` of the caller
pub record Sections : Type 0 where
  pub section : Option Bytes
  pub subsection : Option Bytes

-- Trailing bytes that pass the test are cut off, in trim_rest never the first byte.
unfoldable pub trim_end : (ℕ → Bool) → Bytes → Bytes
trim_end p [] = []
trim_end p (c ∷ s) = elim (trim_end p s) [ [] ↦ if p c then [] else c ∷ [] | x ∷ r ↦ c ∷ x ∷ r ]

abbrev pub trim_rest : (ℕ → Bool) → Bytes → Bytes
trim_rest p [] = []
trim_rest p (c ∷ s) = c ∷ trim_end p s

-- The first bytes of the first list come last.
abbrev pub rev_onto : Bytes → Bytes → Bytes
rev_onto [] r = r
rev_onto (c ∷ s) r = rev_onto s (c ∷ r)

abbrev pub before : ℕ → Bytes → Bytes
before c s = elim (cut c s) [ none ↦ s | some (a, _) ↦ a ]

-- dirname of <libgen.h>, on the reversed path: slashes at its end, its last component and the
-- slashes before that are left out.
abbrev pub slash : ℕ → Bool
slash c = c == b'/'

abbrev pub non_slash : ℕ → Bool
non_slash c = not (c == b'/')

-- What stands before the last component, with the slashes between
abbrev pub parent_rev : Bytes → Bytes
parent_rev [] = b'.' ∷ []
parent_rev (c ∷ s) = elim (skip slash (c ∷ s)) [ [] ↦ b'/' ∷ [] | x ∷ r ↦ rev_onto (x ∷ r) [] ]

abbrev pub dirname_rev : Bytes → Bytes → Bytes
dirname_rev [] [] = b'.' ∷ []
dirname_rev (c ∷ path) [] = b'/' ∷ []
dirname_rev path (c ∷ r) = parent_rev (skip non_slash (c ∷ r))

unfoldable pub dirname : Bytes → Bytes
unfolding skip
dirname path = dirname_rev path (skip slash (rev_onto path []))

unfoldable pub relative_path : Bytes → Bytes → Bytes
unfolding dirname
relative_path oldfile newfile =
    if peek newfile == b'/' then newfile else dirname oldfile ++ b'/' ∷ newfile

-- the section name, and the argument between quotes
unfoldable pub header_name : Bytes → Sections
unfolding cut trim_end
header_name line = elim (cut b'"' line) [
  | none ↦ record { section = some line; subsection = none }
  | some (name, val) ↦ record {
    section = some (trim_rest is_blank name);
    subsection = elim (cut b'"' val) [ none ↦ none | some (a, _) ↦ some a ];
  }
]

-- The line after '['. Both names are cleared first.
unfoldable pub parse_header : Bytes → Sections
unfolding header_name skip trim_end cut
parse_header line = elim (cut b']' (skip is_blank line)) [
  | none ↦ record { section = none; subsection = none }
  | some (name, _) ↦ header_name (trim_end is_blank name)
]

-- The value of an assignment: between quotes of one of the two kinds, or up to a comment.
unfoldable pub plain_value : Bytes → Bytes
unfolding cut trim_end
plain_value val = trim_rest is_space (before b';' (before b'#' val))

unfoldable pub quoted_value : ℕ → Bytes → Option Bytes
unfolding cut
quoted_value q val = elim (cut q val) [ none ↦ none | some (a, _) ↦ some a ]

unfoldable pub read_value : Bytes → Option Bytes
unfolding plain_value quoted_value
read_value [] = some (plain_value [])
read_value (c ∷ val) =
    if c == b'"' || c == 39 then quoted_value c val else some (plain_value (c ∷ val))

-- The functions that are called on an included file: conf_readfile, and conf_parse on the file's
-- name, its text and the sections it inherits. In the latter `none` is a call that does not return.
pub record Includes : Type 0 where
  pub conf_readfile : Bytes → Option Bytes
  pub conf_parse : Bytes → Bytes → Sections → Conf → Option (Conf × Sections)

-- `include`: a dash in front of the name only silences the messages.
unfoldable pub include : Includes → Bytes → Bytes → Sections → Conf → Option (Conf × Sections)
unfolding relative_path
include f filename val st c =
    let relpath = relative_path filename (if peek val == b'-' then drop 1 val else val) in
    elim (f.conf_readfile relpath) [
      | none ↦ some (c, st)
      | some subconf ↦ elim (f.conf_parse relpath subconf st c) [
        | none ↦ none
        | some (c', _) ↦ some (c', st)
      ]
    ]

-- An assignment with its tag and value trimmed, in a section
unfoldable pub assign :
    Includes → ℕ → Bytes → Bytes → Bytes → Bytes → Sections → Conf → Option (Conf × Sections)
unfolding include conf_set
assign f trans filename section [] val st c = some (c, st)
assign f trans filename section (t ∷ tag) val st c =
    if case_eq (t ∷ tag) (codes "include")
    then include f filename val st c
    else some (conf_set c trans section st.subsection (t ∷ tag) val true false, st)

unfoldable pub parse_assignment :
    Includes → ℕ → Bytes → Bytes → Sections → Conf → Option (Conf × Sections)
unfolding assign cut skip read_value trim_end
parse_assignment f trans filename line st c = elim (cut b'=' line) [
  | none ↦ some (c, st)
  | some (tag, val) ↦ elim st.section [
    | none ↦ some (c, st)
    | some section ↦ elim (read_value (skip is_blank val)) [
      | none ↦ some (c, st)
      | some v ↦ assign f trans filename section (trim_end is_blank tag) v st c
    ]
  ]
]

-- A line after its leading blanks
unfoldable pub parse_trimmed :
    Includes → ℕ → Bytes → Bytes → Sections → Conf → Option (Conf × Sections)
unfolding parse_header parse_assignment
parse_trimmed f trans filename [] st c = some (c, st)
parse_trimmed f trans filename (x ∷ line) st c =
    if x == b'#' || x == b';'
    then some (c, st)
    else if x == b'['
    then some (c, parse_header line)
    else parse_assignment f trans filename (x ∷ line) st c

unfoldable pub conf_parse_line :
    Includes → ℕ → Bytes → Bytes → Sections → Conf → Option (Conf × Sections)
unfolding parse_trimmed skip
conf_parse_line f trans filename line st c =
    parse_trimmed f trans filename (skip is_space line) st c

-- The loop of conf_parse: `line` holds the bytes of the line so far, the last first. A newline after
-- a backslash does not end the line, and both become spaces. A last line that does not end is dropped.
abbrev pub ended : Option Bytes → List Bytes → List Bytes
ended none l = l
ended (some line) l = line ∷ l

abbrev pub advance : Bytes → ℕ → Option Bytes × Bytes
advance line c =
    if c == b'\n'
    then (if peek line == b'\\'
        then (none, b' ' ∷ b' ' ∷ drop 1 line)
        else (some (rev_onto line []), []))
    else (none, c ∷ line)

unfoldable pub lines : Bytes → Bytes → List Bytes
lines line [] = []
lines line (c ∷ s) = ended (advance line c).0 (lines (advance line c).1 s)

unfoldable pub run_lines :
    (Bytes → Sections → Conf → Option (Conf × Sections))
    → List Bytes
    → Sections
    → Conf
    → Option (Conf × Sections)
run_lines parse_line [] st c = some (c, st)
run_lines parse_line (l ∷ ls) st c = elim (parse_line l st c) [
  | none ↦ none
  | some (c', st') ↦ run_lines parse_line ls st' c'
]

-- `depth` bounds how deep files include files.
unfoldable pub conf_parse :
    (Bytes → Option Bytes) → ℕ → ℕ → Bytes → Bytes → Sections → Conf → Option (Conf × Sections)
unfolding conf_parse_line run_lines lines
conf_parse conf_readfile trans zero filename buf st c = none
conf_parse conf_readfile trans (suc depth) filename buf st c =
    run_lines
      (conf_parse_line
        (record {
          conf_readfile = conf_readfile;
          conf_parse = conf_parse conf_readfile trans depth;
        })
        trans filename)
      (lines [] buf) st c

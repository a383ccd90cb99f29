-- ===== src/Nfs/Conf/Parse/Lines.antt =====
-- conf_parse_line of support/nfs/conffile.c on a single well-spelled line.
use nfs_utils.Common.{
  ℕ, ◌≡◌, ◌≢◌, refl, sym, ap, ◌∙◌, Bool, true, false, not, ◌||◌, Option, none, some, [], ◌∷◌, ◌++◌,
  arith, ◌==◌, Bytes, codes, case_eq, cut, cut-Lacks, cut-Lacks-none, Lacks, All-append,
  append_assoc, skip, is_blank, is_space,
}
use nfs_utils.Nfs.Conf.{Conf, conf_set}
use nfs_utils.Nfs.Conf.Parse.{
  Sections, Includes, trim_end, trim_rest, header_name, parse_header, quoted_value, read_value,
  assign, parse_assignment, parse_trimmed, conf_parse_line,
}

-- Nothing is trimmed in front of a byte that the test does not pass.
trim_end-last :
    (p : ℕ → Bool) (s : Bytes) (c : ℕ) → p c ≡ false → trim_end p (s ++ c ∷ []) ≡ s ++ c ∷ []
unfolding trim_end
trim_end-last p [] c h = rw (h, trim_end) refl
trim_end-last p (x ∷ []) c h = rw (trim_end-last p [] c h, trim_end) refl
trim_end-last p (x ∷ y ∷ s) c h = rw (trim_end-last p (y ∷ s) c h, trim_end) refl

-- The first byte, if there is one, does not pass the test.
abbrev pub NoLead : (ℕ → Bool) → Bytes → Type 0
NoLead p [] = Unit
NoLead p (c ∷ s) = p c ≡ false

skip-NoLead : (p : ℕ → Bool) (s : Bytes) → NoLead p s → skip p s ≡ s
unfolding skip
skip-NoLead p [] h = refl
skip-NoLead p (c ∷ s) h = rw (h, skip) refl

-- A name that a header can spell: no bracket, quote or newline, and no blank at either end.
pub record IsName (name : Bytes) : Type 0 where
  pub no_bracket : Lacks b']' name
  pub no_quote : Lacks b'"' name
  pub no_newline : Lacks b'\n' name
  pub begins : (r : Bytes) → NoLead is_blank r → NoLead is_blank (name ++ r)
  pub ends : trim_end is_blank name ≡ name

-- An argument between quotes
pub record IsArg (arg : Bytes) : Type 0 where
  pub no_bracket : Lacks b']' arg
  pub no_quote : Lacks b'"' arg
  pub no_newline : Lacks b'\n' arg

parse_header-cut :
    (line name rest : Bytes)
    → skip is_blank line ≡ name ++ b']' ∷ rest
    → Lacks b']' name
    → parse_header line ≡ header_name (trim_end is_blank name)
unfolding parse_header
parse_header-cut line name rest e h = rw (e, cut-Lacks b']' name rest h, parse_header) refl

header_name-plain :
    (name : Bytes)
    → Lacks b'"' name
    → header_name name ≡ record { section = some name; subsection = none }
unfolding header_name
header_name-plain name h = rw (cut-Lacks-none b'"' name h, header_name) refl

-- A header without an argument
pub parse_header-name :
    (name : Bytes)
    → IsName name
    → parse_header (name ++ b']' ∷ []) ≡ record { section = some name; subsection = none }
parse_header-name name n =
    parse_header-cut (name ++ b']' ∷ []) name []
      (skip-NoLead is_blank (name ++ b']' ∷ []) (n.begins (b']' ∷ []) refl)) n.no_bracket
    ∙ ap header_name n.ends
    ∙ header_name-plain name n.no_quote

-- A blank more at the end makes no difference.
trim_end-blank : (s : Bytes) → trim_end is_blank (s ++ b' ' ∷ []) ≡ trim_end is_blank s
unfolding trim_end
trim_end-blank [] = refl
trim_end-blank (x ∷ s) = rw (trim_end-blank s, trim_end) refl

trim_end-tail : (c : ℕ) (s : Bytes) → trim_end is_blank (c ∷ s) ≡ c ∷ s → trim_end is_blank s ≡ s
unfolding trim_end
trim_end-tail c s e = of_trimmed (trim_end is_blank s) refl
  where
    of_trimmed : (t : Bytes) → trim_end is_blank s ≡ t → t ≡ s
    of_trimmed [] h = ground (arith, h, e)
    of_trimmed (x ∷ r) h = ground (arith, h, e)

header_name-arg :
    (name arg : Bytes)
    → Lacks b'"' name
    → Lacks b'"' arg
    → header_name (name ++ (b'"' ∷ (arg ++ (b'"' ∷ []))))
      ≡ record { section = some (trim_rest is_blank name); subsection = some arg }
unfolding header_name
header_name-arg name arg h k =
    rw (cut-Lacks b'"' name (arg ++ (b'"' ∷ [])) h, cut-Lacks b'"' arg [] k, header_name) refl

-- The text between the brackets
abbrev pub name_and_arg : Bytes → Bytes → Bytes
name_and_arg name arg = (name ++ b' ' ∷ []) ++ (b'"' ∷ (arg ++ b'"' ∷ []))

pub name_and_arg-Lacks :
    (x : ℕ) (name arg : Bytes)
    → x ≢ b' '
    → x ≢ b'"'
    → Lacks x name
    → Lacks x arg
    → Lacks x (name_and_arg name arg)
name_and_arg-Lacks x name arg s q h k =
    All-append (λ y. y ≢ x) (name ++ b' ' ∷ []) (b'"' ∷ (arg ++ b'"' ∷ []))
      (All-append (λ y. y ≢ x) name (b' ' ∷ []) h (λ e. s (sym e), tt))
      (λ e. q (sym e), All-append (λ y. y ≢ x) arg (b'"' ∷ []) k (λ e. q (sym e), tt))

name_and_arg-trimmed :
    (name arg : Bytes) → trim_end is_blank (name_and_arg name arg) ≡ name_and_arg name arg
name_and_arg-trimmed name arg =
    ap (trim_end is_blank) (sym (append_assoc (name ++ b' ' ∷ []) (b'"' ∷ arg) (b'"' ∷ [])))
    ∙ trim_end-last is_blank ((name ++ b' ' ∷ []) ++ (b'"' ∷ arg)) b'"' refl
    ∙ append_assoc (name ++ b' ' ∷ []) (b'"' ∷ arg) (b'"' ∷ [])

trim_rest-blank :
    (c : ℕ) (s : Bytes)
    → trim_end is_blank (c ∷ s) ≡ c ∷ s
    → trim_rest is_blank ((c ∷ s) ++ b' ' ∷ []) ≡ c ∷ s
trim_rest-blank c s e = ap (λ (r : Bytes). c ∷ r) (trim_end-blank s ∙ trim_end-tail c s e)

-- A header with an argument
pub parse_header-arg :
    (c : ℕ) (name arg : Bytes)
    → IsName (c ∷ name)
    → IsArg arg
    → parse_header (name_and_arg (c ∷ name) arg ++ b']' ∷ [])
      ≡ record { section = some (c ∷ name); subsection = some arg }
parse_header-arg c name arg n a =
    parse_header-cut (name_and_arg (c ∷ name) arg ++ b']' ∷ []) (name_and_arg (c ∷ name) arg) []
      (skip-NoLead is_blank (name_and_arg (c ∷ name) arg ++ b']' ∷ []) (n.begins [] tt))
      (name_and_arg-Lacks b']' (c ∷ name) arg (λ e. ground (arith, e)) (λ e. ground (arith, e))
        n.no_bracket a.no_bracket)
    ∙ ap header_name (name_and_arg-trimmed (c ∷ name) arg)
    ∙ header_name-arg ((c ∷ name) ++ b' ' ∷ []) arg
        (All-append (λ y. y ≢ b'"') (c ∷ name) (b' ' ∷ []) n.no_quote (λ e. ground (arith, e), tt))
        a.no_quote
    ∙ ap (λ s. record { section = some s; subsection = some arg }) (trim_rest-blank c name n.ends)

-- A tag that an assignment can spell
pub record IsTag (tag : Bytes) : Type 0 where
  pub no_equals : Lacks b'=' tag
  pub no_newline : Lacks b'\n' tag
  pub ends : trim_end is_blank tag ≡ tag
  pub no_include : case_eq tag (codes "include") ≡ false

read_value-quoted :
    (value : Bytes)
    → Lacks b'"' value
    → read_value (skip is_blank (b'"' ∷ (value ++ b'"' ∷ []))) ≡ some value
unfolding read_value quoted_value skip
read_value-quoted value v = rw (cut-Lacks b'"' value [] v, quoted_value) refl

abbrev pub within : Bytes → Option Bytes → Sections
within section subsection = record { section = some section; subsection = subsection }

abbrev pub assignment : Bytes → Bytes → Bytes
assignment tag value = tag ++ (b'=' ∷ (b'"' ∷ (value ++ b'"' ∷ [])))

-- A line that begins with a byte of a tag
abbrev pub is_tag_start : ℕ → Bool
is_tag_start c = not (is_space c || c == b'#' || c == b';' || c == b'[')

module _ (f : Includes) (trans : ℕ) (filename section : Bytes) (subsection : Option Bytes)
    (c : Conf) where
  parse_assignment-cut :
      (line tag rest value : Bytes)
      → cut b'=' line ≡ some (tag, rest)
      → read_value (skip is_blank rest) ≡ some value
      → parse_assignment f trans filename line (within section subsection) c
        ≡ assign f trans filename section
            (trim_end is_blank tag)
            value
            (within section subsection)
            c
  unfolding parse_assignment
  parse_assignment-cut line tag rest value h v = rw (h, v, parse_assignment) refl

  pub parse_assignment-quoted :
      (tag value : Bytes)
      → Lacks b'=' tag
      → trim_end is_blank tag ≡ tag
      → Lacks b'"' value
      → parse_assignment f trans filename (assignment tag value) (within section subsection) c
        ≡ assign f trans filename section tag value (within section subsection) c
  parse_assignment-quoted tag value h t v =
      parse_assignment-cut (assignment tag value) tag (b'"' ∷ (value ++ b'"' ∷ [])) value
        (cut-Lacks b'=' tag (b'"' ∷ (value ++ b'"' ∷ [])) h) (read_value-quoted value v)
      ∙ ap (λ u. assign f trans filename section u value (within section subsection) c) t

  pub conf_parse_line-tag :
      (t : ℕ) (line : Bytes) (st : Sections)
      → is_tag_start t ≡ true
      → conf_parse_line f trans filename (t ∷ line) st c
        ≡ parse_assignment f trans filename (t ∷ line) st c
  unfolding conf_parse_line skip parse_trimmed
  conf_parse_line-tag t line st start = ground (arith, start)

  assign-set :
      (t : ℕ) (tag value : Bytes) (st : Sections)
      → case_eq (t ∷ tag) (codes "include") ≡ false
      → assign f trans filename section (t ∷ tag) value st c
        ≡ some (conf_set c trans section st.subsection (t ∷ tag) value true false, st)
  unfolding assign
  assign-set t tag value st h = rw (h, assign) refl

  -- An assignment in a section is queued, in this section and subsection.
  pub conf_parse_line-assignment :
      (t : ℕ) (tag value : Bytes)
      → is_tag_start t ≡ true
      → IsTag (t ∷ tag)
      → Lacks b'"' value
      → conf_parse_line f trans filename (assignment (t ∷ tag) value) (within section subsection) c
        ≡ some (
          conf_set c trans section subsection (t ∷ tag) value true false,
          within section subsection,
        )
  conf_parse_line-assignment t tag value start i v =
      conf_parse_line-tag t (tag ++ (b'=' ∷ (b'"' ∷ (value ++ b'"' ∷ []))))
        (within section subsection) start
      ∙ parse_assignment-quoted (t ∷ tag) value i.no_equals i.ends v
      ∙ assign-set t tag value (within section subsection) i.no_include

  -- A header line changes the sections only.
  pub conf_parse_line-header :
      (line : Bytes) (st : Sections)
      → conf_parse_line f trans filename (b'[' ∷ line) st c ≡ some (c, parse_header line)
  unfolding conf_parse_line skip parse_trimmed
  conf_parse_line-header line st = refl

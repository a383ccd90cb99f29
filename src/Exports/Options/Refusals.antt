-- ===== src/Exports/Options/Refusals.antt =====
-- What parseopts of support/nfs/exports.c refuses.
use nfs_utils.Common.{
  Lacks, ℕ, ◌≡◌, ◌≢◌, refl, ap, sym, subst, ◌∙◌, Bool, true, false, ◌&&◌, Option, none, some, List,
  [], ◌∷◌, ◌++◌, arith, ◌==◌, Bytes, codes, str_eq, is_digit, is_blank, All, Bool-cases, inl, inr,
  ◌⊎◌,
}
use nfs_utils.Exports.{Flags, Exportent, only, set_mask, allsquash, readonly}
use nfs_utils.Exports.Secinfo.{setflags, fix_pseudoflavor_flags}
use nfs_utils.Exports.Print.Words.{cut_options-comma, cut_options-start}
use nfs_utils.Exports.Options.{
  FlagWord, flag_words, Keyword, unknown, behind, find_prefix, value_words, find_word, keyword,
  Options, with_ep, Outcome, accepted, refused, apply_keyword, apply_options, cut_options,
  parseopts, Parseopts, parsed, bad_option, start_options, store_squash,
}

Outcome-cases :
    (r : Outcome) → ((p : Options) × (r ≡ accepted p)) ⊎ ((p : Options) × (r ≡ refused p))
Outcome-cases (accepted p) = inl (p, refl)
Outcome-cases (refused p) = inr (p, refl)

abbrev continue : (Bytes → Bool → Option ℕ) → List Bytes → Outcome → Outcome
continue db l r = elim r [ accepted p ↦ apply_options db l p | refused p ↦ refused p ]

apply_keyword-unknown :
    (db : Bytes → Bool → Option ℕ) (k : Keyword) (o : Options)
    → k ≡ unknown
    → (p : Options) × (apply_keyword db k o ≡ refused p)
unfolding apply_keyword
apply_keyword-unknown db k o e =
    subst (λ (q : Keyword). (p : Options) × (apply_keyword db q o ≡ refused p)) (sym e)
      (with_ep o (setflags (set_mask (only allsquash) (only readonly)) o.act o.ep), refl)

pub apply_options-known :
    (db : Bytes → Bool → Option ℕ) (l : List Bytes) (o o' : Options)
    → apply_options db l o ≡ accepted o'
    → All (λ w. keyword w ≢ unknown) l
unfolding apply_options
apply_options-known db [] o o' h = tt
apply_options-known db (w ∷ l) o o' h = elim (Outcome-cases (apply_keyword db (keyword w) o)) [
  | inl (p, e) ↦ (
    λ k. let (q, r) = apply_keyword-unknown db (keyword w) o k in cc (r, e),
    apply_options-known db l p o' (sym (ap (continue db l) e) ∙ h),
  )
  | inr (p, e) ↦ absurd (cc (ap (continue db l) e, h))
]

-- What a word of the tables starts with
abbrev NoDigit : Bytes → Type 0
NoDigit [] = ⊥
NoDigit (c ∷ w) = is_digit c ≡ false

digit_clash : (c d : ℕ) → is_digit c ≡ true → is_digit d ≡ false → (c == d) ≡ true → ⊥
digit_clash c d h k e = ground (arith, h, k, e)

str_eq-digit : (c : ℕ) (s w : Bytes) → is_digit c ≡ true → NoDigit w → str_eq (c ∷ s) w ≡ false
unfolding str_eq
str_eq-digit c s [] h k = elim k [ ]
str_eq-digit c s (d ∷ w) h k = elim (Bool-cases (c == d)) [
  | inl same ↦ absurd (digit_clash c d h k same)
  | inr other ↦ rw other refl
]

behind-digit : (c : ℕ) (s w : Bytes) → is_digit c ≡ true → NoDigit w → behind w (c ∷ s) ≡ none
unfolding behind
behind-digit c s [] h k = elim k [ ]
behind-digit c s (d ∷ w) h k = elim (Bool-cases (d == c)) [
  | inl same ↦ absurd (digit_clash c d h k (ground (arith, same)))
  | inr other ↦ rw other refl
]

find_word-digit :
    (c : ℕ) (s : Bytes) (l : List FlagWord)
    → is_digit c ≡ true
    → All (λ w. NoDigit w.word) l
    → find_word (c ∷ s) l ≡ none
unfolding find_word
find_word-digit c s [] h k = refl
find_word-digit c s (w ∷ l) h k =
    rw (str_eq-digit c s w.word h k.0, find_word) (find_word-digit c s l h k.1)

find_prefix-digit :
    (c : ℕ) (s : Bytes) (l : List (Bytes × (Bytes → Keyword)))
    → is_digit c ≡ true
    → All (λ w. NoDigit w.0) l
    → find_prefix l (c ∷ s) ≡ unknown
unfolding find_prefix
find_prefix-digit c s [] h k = refl
find_prefix-digit c s ((w, make) ∷ l) h k =
    rw (behind-digit c s w h k.0, find_prefix) (find_prefix-digit c s l h k.1)

-- No keyword starts with a digit.
keyword-digit : (c : ℕ) (s : Bytes) → is_digit c ≡ true → keyword (c ∷ s) ≡ unknown
unfolding keyword
keyword-digit c s h =
    rw
      (
        find_word-digit c s flag_words h (
          refl,
          (
            refl,
            (
              refl,
              (
                refl,
                (
                  refl,
                  (
                    refl,
                    (
                      refl,
                      (
                        refl,
                        (
                          refl,
                          (
                            refl,
                            (
                              refl,
                              (
                                refl,
                                (
                                  refl,
                                  (
                                    refl,
                                    (
                                      refl,
                                      (
                                        refl,
                                        (
                                          refl,
                                          (
                                            refl,
                                            (
                                              refl,
                                              (
                                                refl,
                                                (
                                                  refl,
                                                  (
                                                    refl,
                                                    (
                                                      refl,
                                                      (refl, (refl, (refl, (refl, (refl, tt))))),
                                                    ),
                                                  ),
                                                ),
                                              ),
                                            ),
                                          ),
                                        ),
                                      ),
                                    ),
                                  ),
                                ),
                              ),
                            ),
                          ),
                        ),
                      ),
                    ),
                  ),
                ),
              ),
            ),
          ),
        ),
        keyword,
      )
      (rw (str_eq-digit c s (codes "mountpoint") h refl, str_eq-digit c s (codes "mp") h refl)
        (find_prefix-digit c s value_words h (
          refl,
          (
            refl,
            (refl, (refl, (refl, (refl, (refl, (refl, (refl, (refl, (refl, (refl, tt)))))))))),
          ),
        )))

-- The first of the words behind a comma keeps its first byte.
digit_word : (c : ℕ) → is_digit c ≡ true → ((true && is_blank c) ≡ false) × ((c == b',') ≡ false)
digit_word c h = (ground (arith, h), ground (arith, h))

cut_options-first :
    (c : ℕ) (s : Bytes)
    → is_digit c ≡ true
    → (w : Bytes) × (l : List Bytes) × (cut_options true (c ∷ s) ≡ (c ∷ w) ∷ l)
unfolding cut_options
cut_options-first c s h =
    let (w, l, e) = prepended (cut_options false s) in
    (w, l, rw ((digit_word c h).0, (digit_word c h).1, cut_options) e)
  where
    prepended :
        (r : List Bytes)
        → (w : Bytes) × (l : List Bytes) × (elim r [ [] ↦ (c ∷ []) ∷ [] | v ∷ m ↦ (c ∷ v) ∷ m ]
            ≡ (c ∷ w) ∷ l)
    prepended [] = ([], [], refl)
    prepended (v ∷ m) = (v, m, refl)

Parseopts-cases :
    (r : Parseopts)
    → ((ep : Exportent) × (had : Bool) × (r ≡ parsed ep had))
      ⊎ ((ep : Exportent) × (r ≡ bad_option ep))
Parseopts-cases (parsed ep had) = inl (ep, had, refl)
Parseopts-cases (bad_option ep) = inr (ep, refl)

abbrev finish : Flags → Outcome → Parseopts
finish mask r = elim r [
  | accepted o ↦ parsed (store_squash o (fix_pseudoflavor_flags mask o.ep)) o.had_subtree_opt
  | refused o ↦ bad_option o.ep
]

-- parseopts accepts an option list only if each of its words is a keyword, or starts with the name of
-- one that takes a value.
pub parseopts-known :
    (mask : Flags) (db : Bytes → Bool → Option ℕ) (cp : Bytes) (ep ep' : Exportent) (had : Bool)
    → parseopts mask db (some cp) ep ≡ parsed ep' had
    → All (λ w. keyword w ≢ unknown) (cut_options true cp)
unfolding parseopts
parseopts-known mask db cp ep ep' had h =
    elim (Outcome-cases (apply_options db (cut_options true cp) (start_options ep))) [
      | inl (o, e) ↦ apply_options-known db (cut_options true cp) (start_options ep) o e
      | inr (o, e) ↦ absurd (cc (ap (finish mask) e, h))
    ]

-- The text up to the first comma is one word, less the blanks in front.
cut_options-words :
    (w t : Bytes)
    → Lacks b',' w
    → (v : Bytes) × (cut_options true (w ++ (b',' ∷ t)) ≡ v ∷ cut_options true t)
unfolding cut_options
cut_options-words [] t h = ([], refl)
cut_options-words (x ∷ w) t h = elim (Bool-cases (is_blank x)) [
  | inl blank ↦ let (v, e) = cut_options-words w t h.1 in (v, rw (blank, cut_options) e)
  | inr other ↦ (x ∷ w, cut_options-start x (w ++ (b',' ∷ t)) other ∙ cut_options-comma (x ∷ w) t h)
]

-- parseopts refuses every option list in which a digit follows the first comma. So it refuses a list
-- of two ranges of ids, which the parser of ranges and putexportent separate by a comma.
pub parseopts-digit :
    (mask : Flags) (db : Bytes → Bool → Option ℕ) (w s : Bytes) (c : ℕ) (ep : Exportent)
    → Lacks b',' w
    → is_digit c ≡ true
    → (ep' : Exportent) × (parseopts mask db (some (w ++ (b',' ∷ c ∷ s))) ep ≡ bad_option ep')
parseopts-digit mask db w s c ep h d =
    let cp = w ++ (b',' ∷ c ∷ s) in
    let (first, split) = cut_options-words w (c ∷ s) h in
    let (v, l, e) = cut_options-first c s d in
    let words : cut_options true cp ≡ first ∷ (c ∷ v) ∷ l =
      split ∙ ap (λ (t : List Bytes). first ∷ t) e in
    elim (Parseopts-cases (parseopts mask db (some cp) ep)) [
      | inl (ep', had, k) ↦
          let all =
            subst (All (λ w. keyword w ≢ unknown)) words
              (parseopts-known mask db cp ep ep' had k) in
          absurd (all.1.0 (keyword-digit c v d))
      | inr bad ↦ bad
    ]

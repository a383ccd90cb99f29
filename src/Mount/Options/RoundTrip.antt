-- ===== src/Mount/Options/RoundTrip.antt =====
-- po_split and po_join of utils/mount/parse_opt.c.
use nfs_utils.Common.{
  ℕ, suc, ◌+◌, ◌^◌, ◌<◌, ◌≤◌, ◌≡◌, ◌≢◌, ◌↔◌, refl, ap, sym, ◌∙◌, ◌⊎◌, inl, inr, true, false, Option,
  none, some, List, [], ◌∷◌, ◌++◌, arith, Bytes, length, length-append, All, map, Bool-cases,
  append_assoc, append-nil, subst,
}
use nfs_utils.Mount.Token.{tokens, init_tokenizer, tokenizer_error}
use nfs_utils.Mount.Token.Words.{IsWord, open_from}
use nfs_utils.Mount.Token.Tokens.{
  Splits, end, word, delimiter, Splits-tokens, tokens-Splits, tokens-error, state,
}
use nfs_utils.Mount.Options.{
  MountOption, MountOptions, insert_all, po_split, po_join, join_len, join_cat, cat_value,
  value_len, options_create, options_tail_insert,
}
use nfs_utils.Mount.Options.Counts.{IsValid, IsValid-create, inserted}
use nfs_utils.Mount.Options.Spelling.{spell, IsKeyed, option_create-spell, spell-option_create}

-- An option whose spelling po_split reads as one option.
abbrev pub IsPrintable : MountOption → Type 0
IsPrintable o = IsKeyed o × IsWord b',' (spell o)

-- The spellings with one comma between them.
abbrev pub joined : List MountOption → Bytes
joined [] = []
joined (o ∷ []) = spell o
joined (o ∷ next ∷ r) = spell o ++ (b',' ∷ joined (next ∷ r))

cat_value-append :
    (str kw : Bytes) (v : Option Bytes) → cat_value (str ++ kw) v ≡ str ++ cat_value kw v
cat_value-append str kw none = refl
cat_value-append str kw (some v) =
    rw (append_assoc str kw (b'=' ∷ [])) (append_assoc str (kw ++ b'=' ∷ []) v)

join_cat-joined : (str : Bytes) (os : List MountOption) → join_cat str os ≡ str ++ joined os
unfolding join_cat
join_cat-joined str [] = sym (append-nil str)
join_cat-joined str (o ∷ []) = cat_value-append str o.keyword o.value
join_cat-joined str (o ∷ next ∷ r) =
    join_cat-joined _ (next ∷ r)
    ∙ rw cat_value-append (rw append_assoc (append_assoc str (spell o) (b',' ∷ joined (next ∷ r))))

length-cat_value :
    (kw : Bytes) (v : Option Bytes) → length (cat_value kw v) ≡ length kw + value_len v
length-cat_value kw none = omega arith
length-cat_value kw (some v) =
    omega (arith, length-append (kw ++ b'=' ∷ []) v, length-append kw (b'=' ∷ []))

join_len-joined : (os : List MountOption) → join_len os ≡ length (joined os)
unfolding join_len
join_len-joined [] = refl
join_len-joined (o ∷ []) = sym (length-cat_value o.keyword o.value)
join_len-joined (o ∷ next ∷ r) = omega (
  arith,
  length-cat_value o.keyword o.value,
  join_len-joined (next ∷ r),
  length-append (spell o) (b',' ∷ joined (next ∷ r)),
)

-- For a group with a right count, po_join writes the spellings with one comma between them, and
-- they fill, with the closing NUL, exactly the buffer that was allocated.
pub po_join_lem :
    (o : MountOptions)
    → IsValid o
    → ((po_join o).str ≡ joined o.items) × ((po_join o).size ≡ length (po_join o).str + 1)
unfolding po_join
po_join_lem o v = elim (cases o.items) [
  | inl empty ↦ ground (arith, ap length empty)
  | inr (x, xs, full) ↦
      ground (arith, ap length full, join_cat-joined [] o.items, join_len-joined o.items)
]
  where
    cases :
        (l : List MountOption)
        → (l ≡ []) ⊎ ((x : MountOption) × (xs : List MountOption) × (l ≡ x ∷ xs))
    cases [] = inl refl
    cases (x ∷ xs) = inr (x, xs, refl)

joined-Splits :
    (os : List MountOption) → All IsPrintable os → Splits b',' (joined os) (map spell os)
joined-Splits [] h = end
joined-Splits (o ∷ []) h = word (spell o) [] h.0.1 tt (sym (append-nil (spell o))) end
joined-Splits (o ∷ next ∷ r) h =
    word (spell o) (b',' ∷ joined (next ∷ r)) h.0.1 refl refl
      (delimiter refl (joined-Splits (next ∷ r) h.1))

insert_all-spell :
    (os : List MountOption) (done : MountOptions)
    → All IsPrintable os
    → IsValid done
    → length done.items + length os < 2 ^ 32
    → insert_all (map spell os) done
      ≡ some (record { items = done.items ++ os; count = done.count + length os })
unfolding insert_all
insert_all-spell [] done h v l = ground (arith, append-nil done.items)
insert_all-spell (o ∷ os) done h v l =
    let room : length done.items + 1 < 2 ^ 32 = omega arith in
    let (done', v') = inserted done o v room in
    ground (
      arith,
      option_create-spell o h.0.0,
      insert_all-spell os (options_tail_insert done o) h.1 v'
          (omega (arith, done'.0, length-append done.items (o ∷ []), ap length done'.0)),
      done',
      append_assoc done.items (o ∷ []) os,
    )

Splits-po_split :
    {s : Bytes} {ws : List Bytes}
    → Splits b',' s ws
    → po_split (some s) ≡ insert_all ws options_create
unfolding po_split init_tokenizer tokenizer_error
Splits-po_split {s} {ws} sp =
    let run = Splits-tokens b',' sp (omega arith) (suc (length s)) (omega arith) in rw run refl

-- A group with a right count, whose options have no '=' in the keyword and are spelled as one
-- nonempty word between commas with its quotes closed, is read back by po_split from the string
-- that po_join makes of it.
pub po_split-po_join :
    (o : MountOptions)
    → IsValid o
    → All IsPrintable o.items
    → po_split (some (po_join o).str) ≡ some o
po_split-po_join o v h = rw (po_join_lem o v).0 (
    Splits-po_split (joined-Splits o.items h)
    ∙ insert_all-spell o.items options_create h IsValid-create (omega arith)
    ∙ ground arith)

insert_all-inv :
    (ws : List Bytes) (done : MountOptions)
    → IsValid done
    → length done.items + length ws < 2 ^ 32
    → (os : List MountOption) × (insert_all ws done
        ≡ some (record { items = done.items ++ os; count = done.count + length ws }))
      × (map spell os ≡ ws)
      × All IsKeyed os
      × (length os ≡ length ws)
unfolding insert_all
insert_all-inv [] done v l = ([], ground (arith, append-nil done.items), refl, tt, refl)
insert_all-inv (w ∷ ws) done v l =
    let (o, made, spelled, keyed) = spell-option_create w in
    let room : length done.items + 1 < 2 ^ 32 = omega arith in
    let (done', v') = inserted done o v room in
    let (os, all, spelled', keyed', len) =
      insert_all-inv ws (options_tail_insert done o) v'
        (omega (arith, length-append done.items (o ∷ []), ap length done'.0)) in
    (
      o ∷ os,
      ground (arith, made, all, done', append_assoc done.items (o ∷ []) os),
      ground (arith, spelled, spelled'),
      (keyed, keyed'),
      ap suc len,
    )

-- Where the options of a text are, as po_split takes them apart.
pub record ReadAs (s : Bytes) (o : MountOptions) : Type 0 where
  pub splits : Splits b',' s (map spell o.items)
  pub keyed : All IsKeyed o.items
  pub valid : IsValid o

length-Splits : {d : ℕ} {s : Bytes} {ws : List Bytes} → Splits d s ws → length ws ≤ length s
length-Splits end = omega arith
length-Splits (delimiter e sp) = omega (arith, length-Splits sp)
length-Splits (word w rest iw e eq sp) =
    omega (arith, length-Splits sp, ap length eq, length-append w rest, filled w iw.0)
  where
    filled : (v : Bytes) → v ≢ [] → 0 < length v
    filled [] ne = absurd (ne refl)
    filled (c ∷ v) ne = omega arith

no_error :
    (s : Bytes) (o : MountOptions)
    → po_split (some s) ≡ some o
    → ((tokens (suc (length s)) (state b',' s)).1.error ≡ 0)
      × (insert_all (tokens (suc (length s)) (state b',' s)).0 options_create ≡ some o)
unfolding po_split init_tokenizer tokenizer_error
no_error s o e = ground arith

-- For a text shorter than 2^32 bytes, what po_split returns are the words between the commas of the
-- text, each spelled by one option without '=' in its keyword, and the count is right.
pub po_split-ReadAs :
    (s : Bytes) (o : MountOptions) → length s < 2 ^ 32 → po_split (some s) ≡ some o → ReadAs s o
po_split-ReadAs s o l e =
    let (z, all) = no_error s o e in
    let sp = tokens-Splits b',' (suc (length s)) s (omega arith) (omega arith) z in
    let ws = (tokens (suc (length s)) (state b',' s)).0 in
    let short : length ws < 2 ^ 32 = omega (arith, length-Splits sp) in
    let (os, made, spelled, keyed, len) =
      insert_all-inv ws options_create IsValid-create (omega arith) in
    let is_o : record { items = os; count = length ws } ≡ o = ground (arith, made, all) in
    subst (ReadAs s) is_o (record {
      splits = rw spelled sp;
      keyed = keyed;
      valid = record { counted = sym len; fits = omega arith };
    })

words-IsPrintable :
    (os : List MountOption) {s : Bytes} {ws : List Bytes}
    → Splits b',' s ws
    → map spell os ≡ ws
    → All IsKeyed os
    → All IsPrintable os
words-IsPrintable [] sp e k = tt
words-IsPrintable (o ∷ os) end e k = absurd (ground arith)
words-IsPrintable (o ∷ os) (delimiter d sp) e k = words-IsPrintable (o ∷ os) sp e k
words-IsPrintable (o ∷ os) (word w rest iw d eq sp) e k =
    let same : spell o ≡ w = ground arith in
    ((k.0, rw same iw), words-IsPrintable os sp (ground arith) k.1)

-- For a text shorter than 2^32 bytes, what po_join makes of the options that po_split has read is
-- read back as the same options.
pub po_split-po_join-po_split :
    (s : Bytes) (o : MountOptions)
    → length s < 2 ^ 32
    → po_split (some s) ≡ some o
    → po_split (some (po_join o).str) ≡ some o
po_split-po_join-po_split s o l e =
    let r = po_split-ReadAs s o l e in
    po_split-po_join o r.valid (words-IsPrintable o.items r.splits refl r.keyed)

-- For a text shorter than 2^32 bytes, po_split fails exactly if the text leaves a quote open.
pub po_split-none :
    (s : Bytes) → length s < 2 ^ 32 → ((po_split (some s) ≡ none) ↔ (open_from false s ≡ true))
unfolding po_split init_tokenizer tokenizer_error
po_split-none s l =
    let err = tokens-error b',' (suc (length s)) s (omega arith) (omega arith) in
    elim (Bool-cases (open_from false s)) [
      | inl still_open ↦ ((λ _. still_open), λ _. ground (arith, err, still_open))
      | inr closed ↦
          let z : (tokens (suc (length s)) (state b',' s)).1.error ≡ 0 =
            ground (arith, err, closed) in
          let sp = tokens-Splits b',' (suc (length s)) s (omega arith) (omega arith) z in
          let (os, made, _, _, _) =
            insert_all-inv (tokens (suc (length s)) (state b',' s)).0 options_create IsValid-create
              (omega (arith, length-Splits sp)) in
          ((λ e. absurd (ground (arith, z, made, e))), λ o. absurd (cc (closed, o)))
    ]

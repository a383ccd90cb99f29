-- ===== src/Exports/Print/Words.antt =====
-- parseopts of support/nfs/exports.c cuts the words out that putexportent joins.
use nfs_utils.Common.{
  ◌≡◌, refl, ap, ◌∙◌, true, false, List, [], ◌∷◌, ◌++◌, arith, is_blank, Bytes, Lacks, All, ℕ,
}
use nfs_utils.Exports.Options.{cut_options}
use nfs_utils.Exports.Print.{join_words}

-- A word that stays whole: it has a first byte, which is no blank, and no comma.
abbrev pub IsOption : Bytes → Type 0
IsOption [] = ⊥
IsOption (c ∷ w) = (is_blank c ≡ false) × Lacks b',' (c ∷ w)

cut_options-last : (w : Bytes) → Lacks b',' w → cut_options false w ≡ w ∷ []
unfolding cut_options
cut_options-last [] h = refl
cut_options-last (c ∷ w) h = ground (arith, cut_options-last w h.1)

pub cut_options-comma :
    (w t : Bytes) → Lacks b',' w → cut_options false (w ++ (b',' ∷ t)) ≡ w ∷ cut_options true t
unfolding cut_options
cut_options-comma [] t h = refl
cut_options-comma (c ∷ w) t h = ground (arith, cut_options-comma w t h.1)

pub cut_options-start :
    (c : ℕ) (s : Bytes) → is_blank c ≡ false → cut_options true (c ∷ s) ≡ cut_options false (c ∷ s)
unfolding cut_options
cut_options-start c s h = rw (h, cut_options) refl

pub cut_options-join_words : (l : List Bytes) → All IsOption l → cut_options true (join_words l) ≡ l
unfolding join_words
cut_options-join_words [] h = unfold cut_options in refl
cut_options-join_words ([] ∷ l) h = elim h.0 [ ]
cut_options-join_words ((c ∷ w) ∷ []) h =
    cut_options-start c w h.0.0 ∙ cut_options-last (c ∷ w) h.0.1
cut_options-join_words ((c ∷ w) ∷ v ∷ l) h =
    cut_options-start c (w ++ (b',' ∷ join_words (v ∷ l))) h.0.0
    ∙ cut_options-comma (c ∷ w) (join_words (v ∷ l)) h.0.1
    ∙ ap (λ (t : List Bytes). (c ∷ w) ∷ t) (cut_options-join_words (v ∷ l) h.1)

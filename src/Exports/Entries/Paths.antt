-- ===== src/Exports/Entries/Paths.antt =====
-- getpath of support/nfs/exports.c on a path that fprintpath has written.
use nfs_utils.Common.{
  ℕ, ◌+◌, ◌<◌, ◌≡◌, ◌≢◌, refl, ap, ◌∙◌, false, Option, none, some, [], ◌∷◌, ◌++◌, arith, Bytes,
  codes, length, Bool-cases, inl, inr, ◌/◌, ◌%◌,
}
use nfs_utils.Exports.Xio.{
  Xfile, xgetc, read_char, escaped, skip_char, xungetc, occurs, skip_loop, xskip, token, xgettok,
}
use nfs_utils.Exports.Xio.Quoting.{at, Unescaped, xgettok-fprintpath}
use nfs_utils.Exports.Print.{is_quoted, fprintpath}
use nfs_utils.Exports.Entries.{getpath}

-- A byte at which xskip stops
abbrev pub Stops : Bytes → Bytes → ℕ → Type 0
Stops str s n = xskip (at s n) str ≡ some (at s n)

Stops-plain : (c : ℕ) (s : Bytes) (n : ℕ) → is_quoted c ≡ false → Stops (codes " \t\n") (c ∷ s) n
unfolding xskip skip_loop skip_char xgetc read_char occurs xungetc
Stops-plain c s n h = ground (arith, h)

Stops-backslash : (c : ℕ) (s : Bytes) (n : ℕ) → c ≢ b'\n' → Stops (codes " \t\n") (b'\\' ∷ c ∷ s) n
unfolding xskip skip_loop skip_char xgetc read_char escaped occurs xungetc
Stops-backslash c s n h = ground (arith, h)

Stops-fprintpath :
    (path rest : Bytes) (n : ℕ) → path ≢ [] → Stops (codes " \t\n") (fprintpath path ++ rest) n
unfolding fprintpath
Stops-fprintpath [] rest n ne = absurd (ne refl)
Stops-fprintpath (c ∷ s) rest n ne = elim (Bool-cases (is_quoted c)) [
  | inl q ↦ rw q (
      Stops-backslash (b'0' + c / 64) ((b'0' + c / 8 % 8) ∷ (b'0' + c % 8) ∷ (fprintpath s ++ rest))
        n (ground arith))
  | inr p ↦ rw p (Stops-plain c (fprintpath s ++ rest) n p)
]

-- getpath reads back a path that fprintpath has written in front of a tab, and stops behind the tab
-- on the same line, if the path is not empty, has no backslash with three octal digits behind it,
-- and leaves three bytes of the buffer free.
pub getpath-fprintpath :
    (path rest : Bytes) (n len : ℕ)
    → path ≢ []
    → Unescaped [] path
    → length path + 2 < len
    → getpath (at (fprintpath path ++ (b'\t' ∷ rest)) n) len ≡ some (token path, at rest n)
unfolding getpath
getpath-fprintpath path rest n len ne free room =
    ap (λ (r : Option Xfile). elim r [ none ↦ none | some f ↦ xgettok f 0 len ])
      (Stops-fprintpath path (b'\t' ∷ rest) n ne)
    ∙ xgettok-fprintpath path rest n len ne free room

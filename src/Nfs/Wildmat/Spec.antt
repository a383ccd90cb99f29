-- ===== src/Nfs/Wildmat/Spec.antt =====
-- What it means that a text matches a pattern, said without the matcher. (A character class is
-- taken as class_of reads it.)
use nfs_utils.Common.{ℕ, ◌≡◌, ◌≢◌, true, [], ◌∷◌, ◌++◌, Bytes, to_upper}
use nfs_utils.Nfs.Wildmat.{closed, class_of}

-- A byte that stands for itself.
abbrev pub IsPlain : ℕ → Type 0
IsPlain c = (c ≢ b'\\') × (c ≢ b'?') × (c ≢ b'*') × (c ≢ b'[')

pub data Matches : Bytes → Bytes → Type 0 where
  done : Matches [] []
  literal :
      {t c : ℕ} {s p : Bytes}
      → IsPlain c
      → to_upper t ≡ to_upper c
      → Matches s p
      → Matches (t ∷ s) (c ∷ p)
  quoted :
      {t e c : ℕ} {s p : Bytes}
      → e ≡ b'\\'
      → to_upper t ≡ to_upper c
      → Matches s p
      → Matches (t ∷ s) (e ∷ c ∷ p)
  any : {t e : ℕ} {s p : Bytes} → e ≡ b'?' → Matches s p → Matches (t ∷ s) (e ∷ p)
  star :
      {e : ℕ} {s p : Bytes} (u v : Bytes) → e ≡ b'*' → s ≡ u ++ v → Matches v p → Matches s (e ∷ p)
  member :
      {t e : ℕ} {s p : Bytes} (r : Bytes)
      → e ≡ b'['
      → class_of t p ≡ closed true r
      → Matches s r
      → Matches (t ∷ s) (e ∷ p)

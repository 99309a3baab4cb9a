-- ===== src/Patch/Tokens.antt =====
-- What the run-length wrapper of src/mpq-patch-writer.c may contain.
use libmpq.Base.{ℕ, ◌+◌, ◌-◌, ◌≤◌, List, [], ◌∷◌, ◌++◌, replicate, length}

-- `Tokens encoded raw`: `encoded` is tokens that stand for `raw`.
pub data Tokens : List ℕ → List ℕ → Type 0 where
  no_token : Tokens [] []
  zeros_token :
      {encoded raw : List ℕ} (count : ℕ)
      → 1 ≤ count
      → count ≤ 128
      → Tokens encoded raw
      → Tokens ((count - 1) ∷ encoded) (replicate count 0 ++ raw)
  literal_token :
      {encoded raw : List ℕ} (chunk : List ℕ)
      → 1 ≤ length chunk
      → length chunk ≤ 128
      → Tokens encoded raw
      → Tokens ((128 + (length chunk - 1)) ∷ (chunk ++ encoded)) (chunk ++ raw)

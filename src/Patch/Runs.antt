-- ===== src/Patch/Runs.antt =====
-- A concrete run of the run-length wrapper of patches.
use libmpq.Base.{
  ℕ, ◌+◌, ◌*◌, ◌≤◌, ◌≡◌, refl, arith, List, [], ◌∷◌, Outcome, ok, err, format_error, length,
  replicate,
}
use libmpq.Patch.{patch_bsd0_rle, rle_loop, run_count, patch_expand_rle, expand_loop}
use libmpq.Patch.RoundTrip.{patch_expand_rle-patch_bsd0_rle}

abbrev raw : List ℕ
raw = 0 ∷ 0 ∷ 5 ∷ 6 ∷ 0 ∷ []

patch_expand_rle-patch_bsd0_rle_example :
    (used : ℕ) × (out : List ℕ) × (patch_bsd0_rle raw 5 (replicate 14 9) ≡ ok (used, out))
    × (used ≤ 4 + 2 * 5)
    × (patch_expand_rle out used (replicate 5 7) 5 ≡ ok raw)
patch_expand_rle-patch_bsd0_rle_example =
    patch_expand_rle-patch_bsd0_rle raw (replicate 14 9) (replicate 5 7) (omega arith) refl

encoded_raw :
    patch_bsd0_rle raw 5 (replicate 14 9)
    ≡ ok (9, 0 ∷ 0 ∷ 0 ∷ 0 ∷ 1 ∷ 0x81 ∷ 5 ∷ 6 ∷ 0 ∷ 9 ∷ 9 ∷ 9 ∷ 9 ∷ 9 ∷ [])
unfolding patch_bsd0_rle rle_loop run_count libmpq.Base.Memory.read_range
    libmpq.Base.Memory.write_range
encoded_raw = refl

-- A token for more bytes than are left is refused.
too_long : patch_expand_rle (0 ∷ 0 ∷ 0 ∷ 0 ∷ 2 ∷ []) 5 (7 ∷ 7 ∷ []) 2 ≡ err format_error
unfolding patch_expand_rle expand_loop libmpq.Base.Memory.write_range
too_long = refl

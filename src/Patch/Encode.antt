-- ===== src/Patch/Encode.antt =====
-- The encoder of src/mpq-patch-writer.c writes tokens for its input.
use libmpq.Base.{
  ℕ, zero, suc, ◌+◌, ◌-◌, ◌≤◌, ◌<◌, ◌≡◌, refl, ap, ap₂, ◌∙◌, inl, inr, arith, min, bit_or, Bool,
  true, false, List, [], ◌∷◌, ◌++◌, some, ok, get_elem?, read_range, write_range, length, drop,
  replicate, ◌==◌, Bool-cases, u8,
}
use libmpq.Base.Bits.{or_shifted}
use libmpq.Patch.{continues, run_count, rle_loop}

-- The run at the front of the bytes.
abbrev pub Leads : ℕ → List ℕ → Bool → Type 0
Leads left raw zeros =
    (run rest : List ℕ) × (raw ≡ run ++ rest)
    × (run_count left raw zeros ≡ ok (length run))
    × (length run ≤ left)
    × (zeros ≡ true → run ≡ replicate (length run) 0)

pub run_count-Leads :
    (left : ℕ) (raw : List ℕ) (zeros : Bool) → left ≤ length raw → Leads left raw zeros
unfolding run_count
run_count-Leads zero raw zeros h = ([], raw, refl, refl, omega arith, λ z. refl)
run_count-Leads (suc left) [] zeros h = absurd (omega arith)
run_count-Leads (suc left) (byte ∷ raw) zeros h = elim (Bool-cases (continues zeros byte)) [
  | inl on ↦
      let (run, rest, q, e, l, z) = run_count-Leads left raw zeros (omega arith) in
      (
        byte ∷ run,
        rest,
        ap (λ t. byte ∷ t) q,
        rw (on, e) refl,
        omega arith,
        λ t. ap₂ (λ b r. b ∷ r) (let c : byte ≡ 0 = ground (arith, on, t) in c) (z t),
      )
  | inr off ↦ ([], byte ∷ raw, refl, rw off refl, omega arith, λ z. refl)
]

-- A run that begins is not empty.
pub run_count_pos :
    (left byte : ℕ) (raw : List ℕ) (zeros : Bool) (count : ℕ)
    → continues zeros byte ≡ true
    → run_count (suc left) (byte ∷ raw) zeros ≡ ok count
    → 1 ≤ count
unfolding run_count
run_count_pos left byte raw zeros count on run = ground (arith, on, run)

-- One round, on a run of zeros and on a run of other bytes.
pub round_zeros :
    (fuel : ℕ) (raw : List ℕ) (left : ℕ) (output output' : List ℕ) (used byte count : ℕ)
    → 0 < left
    → get_elem? raw 0 ≡ some byte
    → (byte == 0) ≡ true
    → run_count (min left 128) raw true ≡ ok count
    → write_range output used ((count - 1) ∷ []) ≡ ok output'
    → 1 ≤ count
    → count ≤ 128
    → rle_loop (suc fuel) raw left output used
      ≡ rle_loop fuel (drop count raw) (left - count) output' (used + 1)
unfolding rle_loop
round_zeros fuel raw left output output' used byte count h eb z ec ew l m =
    let token : bit_or (u8 (count - 1)) 0 ≡ count - 1 =
      or_shifted 8 (u8 (count - 1)) 0 (omega arith) ∙ omega arith in
    rw (let c : (left == 0) ≡ false = ground arith in c, eb, z, ec, token, ew) refl

pub round_literal :
    (fuel : ℕ) (raw : List ℕ) (left : ℕ) (output output1 output2 chunk : List ℕ)
    (used byte count : ℕ)
    → 0 < left
    → get_elem? raw 0 ≡ some byte
    → (byte == 0) ≡ false
    → run_count (min left 128) raw false ≡ ok count
    → write_range output used ((128 + (count - 1)) ∷ []) ≡ ok output1
    → read_range raw 0 count ≡ ok chunk
    → write_range output1 (used + 1) chunk ≡ ok output2
    → 1 ≤ count
    → count ≤ 128
    → rle_loop (suc fuel) raw left output used
      ≡ rle_loop fuel (drop count raw) (left - count) output2 (used + 1 + count)
unfolding rle_loop
round_literal fuel raw left output output1 output2 chunk used byte count h eb z ec ew er ew2 l m =
    let token : bit_or (u8 (count - 1)) 0x80 ≡ 128 + (count - 1) =
      or_shifted 7 (u8 (count - 1)) 1 (omega arith) ∙ omega arith in
    rw (let c : (left == 0) ≡ false = ground arith in c, eb, z, ec, token, ew, er, ew2) refl

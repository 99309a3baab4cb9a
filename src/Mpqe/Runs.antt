-- ===== src/Mpqe/Runs.antt =====
-- Concrete runs of src/mpq-mpqe.c.
use libmpq.Base.{
  ℕ, ◌/◌, ◌<◌, ◌≤◌, ◌≡◌, refl, arith, ◌⊎◌, true, List, [], ◌∷◌, ◌++◌, drop, some, ok, err,
  decrypt_error, length, replicate, all, ltb, ltb→lt, All, IsByte, IsU32,
}
use libmpq.Base.Lists.{all-All}
use libmpq.Endian.Words.{words_bytes}
use libmpq.Mpqe.{mpqe_key, mpqe_transform_chunk}
use libmpq.Mpqe.Key.{derived, mpqe_key_total}
use libmpq.Mpqe.Salsa.{
  Block, block, quad, quarter_round, row_round, column_round, salsa20, counted, masked,
}
use libmpq.Mpqe.Stream.{keyed, mpqe_transform_chunk-salsa20}

-- Examples of the specification of Salsa20.
quarter_round_one : quarter_round 1 0 0 0 ≡ quad 0x08008145 0x80 0x10200 0x20500000
quarter_round_one = refl

row_round_ones :
    row_round quarter_round (block 1 0 0 0 1 0 0 0 1 0 0 0 1 0 0 0)
    ≡ block 0x08008145 0x80 0x10200 0x20500000 0x20100001 0x48044 0x80 0x10000 1 0x2000 0x80040000 0
        1 0x200 0x402000 0x88000100
row_round_ones = refl

column_round_ones :
    column_round quarter_round (block 1 0 0 0 1 0 0 0 1 0 0 0 1 0 0 0)
    ≡ block 0x10090288 0 0 0 0x101 0 0 0 0x20401 0 0 0 0x40a04001 0 0 0
column_round_ones = refl

abbrev words : List ℕ
words = 1 ∷ 2 ∷ replicate 14 0xC8C8C8C8

abbrev start : Block
start = block 1 2 3 4 5 6 7 8 0 0 11 12 13 14 15 0xFFFFFFFF

All-IsU32 : (xs : List ℕ) → all (λ x. ltb x 0x100000000) xs ≡ true → All IsU32 xs
All-IsU32 xs e = all-All (λ x. ltb x 0x100000000) IsU32 (λ x h. ltb→lt x 0x100000000 h) xs e

start-IsU32 : All IsU32 (keyed start)
unfolding keyed
start-IsU32 = All-IsU32 (keyed start) refl

mpqe_transform_chunk-salsa20_example :
    mpqe_transform_chunk (words_bytes words) (words_bytes (keyed start) ++ (9 ∷ [])) 0x10000000080
    ≡ ok (words_bytes (masked words (salsa20 (counted (0x10000000080 / 64) start))))
mpqe_transform_chunk-salsa20_example =
    mpqe_transform_chunk-salsa20 words start (9 ∷ []) 0x10000000080 refl (All-IsU32 words refl)
      start-IsU32

code-IsByte : All IsByte (replicate 40 5)
code-IsByte = all-All (λ b. ltb b 256) IsByte (λ b h. ltb→lt b 256 h) (replicate 40 5) refl

mpqe_key_total_example :
    (32 < 32) × (mpqe_key (some (replicate 70 1)) (some (replicate 40 5)) 32 ≡ err decrypt_error)
    ⊎ (32 ≤ 32)
      × (length (derived (replicate 40 5)) ≡ 64)
      × (mpqe_key (some (replicate 70 1)) (some (replicate 40 5)) 32
          ≡ ok (derived (replicate 40 5) ++ drop 64 (replicate 70 1)))
mpqe_key_total_example =
    mpqe_key_total (replicate 70 1) (replicate 40 5) 32 code-IsByte (omega arith) (omega arith)

-- ===== src/Sparse/Runs.antt =====
-- Concrete runs of src/mpq-sparse.c.
use libmpq.Base.{
  ℕ, ◌+◌, ◌*◌, ◌≤◌, ◌≡◌, refl, arith, List, [], ◌∷◌, ◌++◌, some, ok, length, replicate, drop, take,
}
use libmpq.Endian.{load_be32, store_be32}
use libmpq.Sparse.{
  sparse_compress, sparse_decompress, compress_loop, zero_run, literal_end, three_zeros,
  decompress_loop, token_count,
}
use libmpq.Sparse.Codec.{sparse_decompress-sparse_compress, sparse_compress_total}

-- Two literal bytes, five zeros, one literal byte.
abbrev data_in : List ℕ
data_in = 1 ∷ 2 ∷ 0 ∷ 0 ∷ 0 ∷ 0 ∷ 0 ∷ 9 ∷ []

abbrev packed : List ℕ
packed = 0 ∷ 0 ∷ 0 ∷ 8 ∷ 0x81 ∷ 1 ∷ 2 ∷ 2 ∷ 0x80 ∷ 9 ∷ replicate 10 7

sparse_compress-data_in :
    sparse_compress (some data_in) 8 (some (replicate 20 7)) 20 ≡ ok (10, packed)
unfolding sparse_compress compress_loop zero_run literal_end three_zeros store_be32
    libmpq.Base.Memory.write_range libmpq.Base.Memory.read_range
sparse_compress-data_in = refl

-- A last literal that announces more bytes than the output has left is clipped.
clipped_literal :
    sparse_decompress (some (0 ∷ 0 ∷ 0 ∷ 2 ∷ 0x85 ∷ 1 ∷ 2 ∷ [])) 7 (some (7 ∷ 7 ∷ 7 ∷ [])) 3
    ≡ ok (2, 1 ∷ 2 ∷ 7 ∷ [])
unfolding sparse_decompress decompress_loop token_count load_be32 libmpq.Base.Memory.read_range
    libmpq.Base.Memory.write_range
clipped_literal = refl

sparse_decompress-sparse_compress_example :
    (10 ≤ 20)
    × (sparse_decompress (some packed) 10 (some (replicate 9 5)) 8 ≡ ok (8, data_in ++ (5 ∷ [])))
sparse_decompress-sparse_compress_example =
    sparse_decompress-sparse_compress data_in (replicate 20 7) (replicate 9 5) packed 20 8 10
      (omega arith) (omega arith) (omega arith) (omega arith) (omega arith) (omega arith)
      sparse_compress-data_in

sparse_compress_total_example :
    (n : ℕ) × (out : List ℕ) × (sparse_compress (some data_in) 8 (some (replicate 20 7)) 20
      ≡ ok (n, out))
sparse_compress_total_example =
    sparse_compress_total data_in (replicate 20 7) 20 (omega arith) (omega arith) (omega arith)
      (omega arith)

-- ===== src/Sparse/Codec.antt =====
-- `libmpq__sparse_compress` and `libmpq__sparse_decompress` together, src/mpq-sparse.c.
use mathlib.Core.Path.{subst}
use native.Mathlib.Nat.{zero-add}
use libmpq.Base.{
  ℕ, ◌+◌, ◌*◌, ◌≤◌, ◌<◌, ◌≡◌, refl, sym, ap, ap₂, ◌∙◌, inl, inr, arith, List, [], ◌∷◌, ◌++◌, some,
  ok, length, drop, ltb, u8, ◌>>>◌, if◌then◌else◌,
}
use libmpq.Base.Lists.{drop-append}
use libmpq.Base.Memory.{split_at}
use libmpq.Endian.{load_be32, store_be32}
use libmpq.Endian.RoundTrip.{split_be32}
use libmpq.Sparse.{compress_loop, decompress_loop, sparse_compress, sparse_decompress, int32_max}
use libmpq.Sparse.Tokens.{Encodes, done, zeros, literal, decompress_loop-Encodes}
use libmpq.Sparse.RoundTrip.{Compressed, compress_loop-Compressed}

abbrev pub be32_bytes : ℕ → List ℕ
be32_bytes v = u8 (v >>> 24) ∷ u8 (v >>> 16) ∷ u8 (v >>> 8) ∷ u8 v ∷ []

-- The output size that the compressor keeps to.
abbrev pub room_for : ℕ → ℕ
room_for out_size = if ltb int32_max out_size then int32_max else out_size

enter_compress :
    (in_buf : List ℕ) (in_size b0 b1 b2 b3 : ℕ) (rest : List ℕ) (out_size : ℕ)
    → 0 < in_size
    → in_size ≤ int32_max
    → 4 ≤ out_size
    → sparse_compress (some in_buf) in_size (some (b0 ∷ b1 ∷ b2 ∷ b3 ∷ rest)) out_size
      ≡ compress_loop
          (in_size + 1)
          in_buf
          in_size
          (be32_bytes in_size ++ rest)
          (room_for out_size)
          0
          4
unfolding sparse_compress store_be32
enter_compress in_buf in_size b0 b1 b2 b3 rest out_size h k r = ground arith

-- Four bytes of length, and then a token stream for the whole input.
abbrev pub Packed : List ℕ → List ℕ → ℕ → Type 0
Packed data_in out_buf out_size =
    Compressed (sparse_compress (some data_in) (length data_in) (some out_buf) out_size) data_in
      (be32_bytes (length data_in)) (drop 4 out_buf) (room_for out_size) 4

pub sparse_compress-Packed :
    (data_in out_buf : List ℕ) (out_size : ℕ)
    → 0 < length data_in
    → length data_in ≤ int32_max
    → 4 ≤ out_size
    → out_size ≤ length out_buf
    → Packed data_in out_buf out_size
sparse_compress-Packed data_in (b0 ∷ b1 ∷ b2 ∷ b3 ∷ rest) out_size some_data few room fits =
    subst (λ r. Compressed r data_in (be32_bytes (length data_in)) rest (room_for out_size) 4)
      (sym (enter_compress data_in (length data_in) b0 b1 b2 b3 rest out_size some_data few room))
      (compress_loop-Compressed data_in (length data_in) (room_for out_size) (length data_in + 1)
        (be32_bytes (length data_in) ++ rest) [] data_in (be32_bytes (length data_in)) rest 0 4
        (refl, refl, refl, refl, omega arith, ground arith, ground arith) (omega arith))
sparse_compress-Packed data_in _ out_size some_data few room fits = absurd (omega arith)

pub Encodes-nonempty :
    {tokens bytes : List ℕ} → Encodes tokens bytes → 0 < length bytes → 0 < length tokens
Encodes-nonempty done h = h
Encodes-nonempty (zeros n small rest) h = omega arith
Encodes-nonempty (literal n copied l small rest) h = omega arith

pub enter_decompress :
    (in_buf tokens : List ℕ) (len in_size : ℕ) (out_buf after : List ℕ) (out_size : ℕ)
    → in_buf ≡ be32_bytes len ++ tokens
    → 5 ≤ in_size
    → 0 < len
    → len ≤ int32_max
    → len ≤ out_size
    → decompress_loop (in_size + 1) in_buf in_size out_buf len 4 0 ≡ ok (in_size, len, after)
    → sparse_decompress (some in_buf) in_size (some out_buf) out_size ≡ ok (len, after)
enter_decompress in_buf tokens len in_size out_buf after out_size ei h n small fit loop =
    let e : load_be32 (some in_buf) ≡ ok len =
      rw ei (unfold load_be32 in ap ok (split_be32 len (omega arith))) in
    unfold sparse_decompress in ground (arith, e, loop)

-- Compressing a buffer of 1 to 2^31 - 1 bytes into an output of at least four, when it succeeds,
-- gives at most as many bytes as the output has, and decompressing exactly these into a large
-- enough buffer gives the data back, with the bytes behind it as they were.
pub sparse_decompress-sparse_compress :
    (data_in out_buf old packed : List ℕ) (out_size old_size n : ℕ)
    → 0 < length data_in
    → length data_in ≤ int32_max
    → 4 ≤ out_size
    → out_size ≤ length out_buf
    → length data_in ≤ old_size
    → old_size ≤ length old
    → sparse_compress (some data_in) (length data_in) (some out_buf) out_size ≡ ok (n, packed)
    → (n ≤ out_size)
      × (sparse_decompress (some packed) n (some old) old_size
          ≡ ok (length data_in, data_in ++ drop (length data_in) old))
sparse_decompress-sparse_compress data_in out_buf old packed out_size old_size n some_data few room
      fits large held h =
    elim (sparse_compress-Packed data_in out_buf out_size some_data few room fits) [
      | inl (e, full) ↦ cc
      | inr (tokens, room', e, en, fit, lr) ↦
          let (front, back, split, lf) = split_at (length data_in) old (omega arith) in
          let some_tokens : 0 < length tokens = Encodes-nonempty en some_data in
          let same : ok (n, packed)
              ≡ ok (4 + length tokens, be32_bytes (length data_in) ++ (tokens ++ room')) =
            sym h ∙ e in
          let en' : n ≡ 4 + length tokens = cc in
          let ep : packed ≡ be32_bytes (length data_in) ++ (tokens ++ room') = cc in
          (
            ground arith,
            enter_decompress packed (tokens ++ room') (length data_in) n old
                (data_in ++ drop (length data_in) old) old_size ep (omega arith) some_data few large
                (decompress_loop-Encodes en (n + 1) packed old (be32_bytes (length data_in)) room'
                    [] front back n (length data_in) 4 0 ep split refl refl (omega arith)
                    (omega arith) (sym (zero-add (length data_in))) lf
                  ∙ ap (λ b. ok (n, length data_in, data_in ++ b))
                      (sym (ap₂ drop (sym lf) split ∙ drop-append front back))),
          )
    ]

-- Compression of a buffer of 1 to 2^31 - 1 bytes succeeds when the output has room for four bytes
-- and twice the input, within 2^31 - 1 bytes.
pub sparse_compress_total :
    (data_in out_buf : List ℕ) (out_size : ℕ)
    → 0 < length data_in
    → 4 + 2 * length data_in ≤ out_size
    → 4 + 2 * length data_in ≤ int32_max
    → out_size ≤ length out_buf
    → (n : ℕ) × (packed : List ℕ) × (sparse_compress
          (some data_in)
          (length data_in)
          (some out_buf)
          out_size
        ≡ ok (n, packed))
sparse_compress_total data_in out_buf out_size some_data room small fits =
    elim (sparse_compress-Packed data_in out_buf out_size some_data (omega arith) (omega arith)
      fits) [
        | inl (e, full) ↦ absurd (ground arith)
        | inr (tokens, room', e, en, fit, lr) ↦ (_, _, e)
      ]

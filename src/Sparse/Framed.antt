-- ===== src/Sparse/Framed.antt =====
-- Streams of src/mpq-sparse.c that stand at the front of a longer buffer.
use mathlib.Core.List.{append_assoc}
use native.Mathlib.Nat.{zero-add}
use libmpq.Base.{
  ℕ, ◌+◌, ◌≤◌, ◌<◌, ◌≡◌, ◌⊎◌, refl, sym, ap, ap₂, ◌∙◌, inl, inr, arith, List, [], ◌++◌, some, ok,
  err, unpack_error, length, drop, length-append,
}
use libmpq.Base.Lists.{drop-append}
use libmpq.Base.Memory.{split_at}
use libmpq.Sparse.{sparse_compress, sparse_decompress, int32_max}
use libmpq.Sparse.Tokens.{Encodes, decompress_loop-Encodes}
use libmpq.Sparse.Codec.{be32_bytes, sparse_compress-Packed, Encodes-nonempty, enter_decompress}

-- A stream, whatever follows it, decodes into the front of a buffer with room.
abbrev pub Restores : List ℕ → List ℕ → Type 0
Restores stream data_in =
    (rest old : List ℕ) (out_size : ℕ)
    → length data_in ≤ out_size
    → out_size ≤ length old
    → (sparse_decompress (some (stream ++ rest)) (length stream) (some old) out_size
        ≡ ok (length data_in, data_in ++ drop (length data_in) old))

Encodes-Restores :
    (data_in tokens : List ℕ)
    → Encodes tokens data_in
    → 0 < length data_in
    → length data_in ≤ int32_max
    → Restores (be32_bytes (length data_in) ++ tokens) data_in
Encodes-Restores data_in tokens en some_data few rest old out_size large held =
    let (front, back, split, lf) = split_at (length data_in) old (omega arith) in
    let head : List ℕ = be32_bytes (length data_in) in
    let n : ℕ = length (head ++ tokens) in
    let some_tokens : 0 < length tokens = Encodes-nonempty en some_data in
    let en' : n ≡ 4 + length tokens = omega (arith, length-append head tokens) in
    let ep : (head ++ tokens) ++ rest ≡ head ++ (tokens ++ rest) = append_assoc head tokens rest in
    enter_decompress ((head ++ tokens) ++ rest) (tokens ++ rest) (length data_in) n old
      (data_in ++ drop (length data_in) old) out_size ep (omega arith) some_data few large
      (decompress_loop-Encodes en (n + 1) ((head ++ tokens) ++ rest) old head rest [] front back n
          (length data_in) 4 0 ep split refl refl (omega arith) (omega arith)
          (sym (zero-add (length data_in))) lf
        ∙ ap (λ b. ok (n, length data_in, data_in ++ b))
            (sym (ap₂ drop (sym lf) split ∙ drop-append front back)))

-- The compressor gives up, or leaves a stream of the returned length at the front of its output.
pub sparse_compress-Restores :
    (data_in out_buf : List ℕ) (out_size : ℕ)
    → 0 < length data_in
    → length data_in ≤ int32_max
    → 4 ≤ out_size
    → out_size ≤ length out_buf
    → (sparse_compress (some data_in) (length data_in) (some out_buf) out_size ≡ err unpack_error)
      ⊎ ((stream room : List ℕ) × (sparse_compress
              (some data_in)
              (length data_in)
              (some out_buf)
              out_size
            ≡ ok (length stream, stream ++ room))
          × Restores stream data_in)
sparse_compress-Restores data_in out_buf out_size some_data few room fits =
    elim (sparse_compress-Packed data_in out_buf out_size some_data few room fits) [
      | inl (e, full) ↦ inl e
      | inr (tokens, room', e, en, fit, lr) ↦
          let head : List ℕ = be32_bytes (length data_in) in
          let long : 4 + length tokens ≡ length (head ++ tokens) =
            omega (arith, length-append head tokens) in
          inr (
            head ++ tokens,
            room',
            e ∙ ap₂ (λ n o. ok (n, o)) long (sym (append_assoc head tokens room')),
            Encodes-Restores data_in tokens en some_data few,
          )
    ]

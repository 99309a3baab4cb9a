-- ===== src/Compression/Lzma/Frame.antt =====
-- The frame that `encode_lzma` of src/mpq-compression.c writes, as `decompress_lzma` reads it.
use mathlib.Core.List.{append_assoc, append-nil}
use libmpq.Base.{
  ℕ, suc, ◌+◌, ◌-◌, ◌^◌, ◌≤◌, ◌<◌, ◌≡◌, ◌⊎◌, refl, sym, ap, ◌∙◌, inl, inr, arith, true, false, ◌||◌,
  List, [], ◌∷◌, ◌++◌, some, ok, length, length-append, replicate, ltb, leb, ◌==◌, Bool-cases,
  read_range,
}
use libmpq.Base.Memory.{read_range_mid}
use libmpq.Endian.RoundTrip.{load_le64-store_le64}
use libmpq.Sparse.{int32_max}
use libmpq.Compression.Lzma.{
  LzmaCodec, LzmaRet, lzma_stream_end, lzma_buf_error, lzma_mem_error, lzma_other, lzma_method,
  lzma_overhead, memory_max, lzma_error, lzma_frame, encode_lzma, decoded_all, decompress_lzma,
}

-- What the code relies on of liblzma: the properties of its options take five bytes, and a decoder for
-- them at most 64 MiB; an encoded stream is not empty and has at most the bytes of its capacity, and
-- the decoder reads it to its end, into any output with room.
pub record LzmaLaws (lzma : LzmaCodec) : Type 0 where
  pub properties : List ℕ
  pub written : lzma.encoder_properties ≡ some properties
  pub five_bytes : length properties ≡ 5
  pub memory : ℕ
  pub accepted : lzma.decoder properties ≡ inr memory
  pub memory_small : memory ≤ memory_max
  pub bounded :
      (input encoded : List ℕ) (capacity : ℕ)
      → lzma.raw_encode input capacity ≡ inr encoded
      → (0 < length encoded) × (length encoded ≤ capacity)
  pub decodes :
      (input encoded old : List ℕ) (capacity : ℕ)
      → lzma.raw_encode input capacity ≡ inr encoded
      → length input ≤ length old
      → (after : List ℕ) × (lzma.raw_decode properties encoded old (length input) ≡ record {
        ret = lzma_stream_end;
        total_out = length input;
        avail_out = 0;
        avail_in = 0;
        contents = input ++ after;
      })

-- The sector is stored as it is, or as a frame that is shorter and decodes to it.
abbrev pub Framed : LzmaCodec → List ℕ → List ℕ → List ℕ × ℕ → Type 0
Framed lzma input old (out, mask) =
    ((out ≡ input) × (mask ≡ 0))
    ⊎ ((rest : List ℕ) × (out ≡ lzma_method ∷ rest)
        × (mask ≡ lzma_method)
        × (suc (length rest) < length input)
        × (after : List ℕ) × (decompress_lzma lzma (some rest) (length rest) (some old)
              (length input)
            ≡ ok (length input, input ++ after)))

-- The answers of liblzma to the encoder.
answers :
    (answer : LzmaRet ⊎ List ℕ)
    → (answer ≡ inl lzma_buf_error)
      ⊎ (answer ≡ inl lzma_stream_end)
      ⊎ (answer ≡ inl lzma_mem_error)
      ⊎ (answer ≡ inl lzma_other)
      ⊎ ((encoded : List ℕ) × (answer ≡ inr encoded))
answers (inl lzma_buf_error) = inl refl
answers (inl lzma_stream_end) = inr (inl refl)
answers (inl lzma_mem_error) = inr (inr (inl refl))
answers (inl lzma_other) = inr (inr (inr (inl refl)))
answers (inr encoded) = inr (inr (inr (inr (encoded, refl))))

module _ (lzma : LzmaCodec) (laws : LzmaLaws lzma) (input old : List ℕ)
    (small : length input ≤ int32_max) (room : length input ≤ length old) where
  decompress_lzma-frame :
      (size_bytes encoded : List ℕ)
      → length size_bytes ≡ 8
      → lzma.raw_encode input (length input - lzma_overhead - 1) ≡ inr encoded
      → (after : List ℕ) × (decompress_lzma lzma
            (some (0 ∷ laws.properties ++ (size_bytes ++ encoded)))
            (14 + length encoded)
            (some old)
            (length input)
          ≡ ok (length input, input ++ after))
  unfolding decompress_lzma decoded_all
  decompress_lzma-frame size_bytes encoded eight run =
      let properties : List ℕ = laws.properties in
      let in_buf : List ℕ = 0 ∷ properties ++ (size_bytes ++ encoded) in
      let (some_bytes, fits) = laws.bounded input encoded _ run in
      let (after, decoded) = laws.decodes input encoded old _ run room in
      let e : leb (14 + length encoded) 14 ≡ false = ground arith in
      let e' : ltb int32_max (length input) ≡ false = ground arith in
      let from_properties : read_range in_buf 1 5 ≡ ok properties =
        read_range_mid (0 ∷ []) properties (size_bytes ++ encoded) 1 5 refl (sym laws.five_bytes) in
      let head : List ℕ = 0 ∷ properties ++ size_bytes in
      let fourteen : 14 ≡ length head =
        omega (arith, length-append properties size_bytes, eight, laws.five_bytes) in
      let whole : in_buf ≡ head ++ (encoded ++ []) =
        ap (λ l. 0 ∷ l)
          (sym (append_assoc properties size_bytes encoded)
            ∙ ap (λ l. (properties ++ size_bytes) ++ l) (sym (append-nil encoded))) in
      let size : 14 + length encoded - 14 ≡ length encoded = omega arith in
      let from_stream : read_range in_buf 14 (length encoded) ≡ ok encoded =
        ap (λ l. read_range l 14 (length encoded)) whole
        ∙ read_range_mid head encoded [] 14 (length encoded) fourteen refl in
      let memory : (laws.memory == 2 ^ 64 - 1 || ltb memory_max laws.memory) ≡ false =
        ground (arith, laws.memory_small) in
      let full : (length input == length input) ≡ true = ground arith in
      (
        after,
        rw (e, e', from_properties, size, from_stream, laws.accepted, memory, decoded, full) refl,
      )

  -- A frame for a stream.
  lzma_frame-Framed :
      (encoded : List ℕ)
      → lzma_overhead < length input
      → lzma.raw_encode input (length input - lzma_overhead - 1) ≡ inr encoded
      → (out : List ℕ) × (mask : ℕ) × (lzma_frame laws.properties input encoded ≡ ok (out, mask))
        × Framed lzma input old (out, mask)
  unfolding lzma_frame
  lzma_frame-Framed encoded large run =
      let (size_bytes, stored, loaded, behind, eight) =
        load_le64-store_le64 (length input) (replicate 8 0) (omega arith) (omega arith) in
      let properties : List ℕ = laws.properties in
      let rest : List ℕ = 0 ∷ properties ++ (size_bytes ++ encoded) in
      let fits : (0 < length encoded) × (length encoded ≤ length input - lzma_overhead - 1) =
        laws.bounded input encoded _ run in
      let long : length rest ≡ 14 + length encoded = omega (
        arith,
        length-append properties (size_bytes ++ encoded),
        length-append size_bytes encoded,
        laws.five_bytes,
        eight,
      ) in
      let (after, decoded) = decompress_lzma-frame size_bytes encoded eight run in
      (
        lzma_method ∷ rest,
        lzma_method,
        rw stored refl,
        inr (
          rest,
          refl,
          refl,
          omega (arith, fits.1, long),
          after,
          ap (λ n. decompress_lzma lzma (some rest) n (some old) (length input)) long ∙ decoded,
        ),
      )

  -- The encoder fails with the code of a failed call, or stores the sector.
  pub encode_lzma-Framed :
      ((out : List ℕ) × (mask : ℕ) × (encode_lzma lzma input ≡ ok (out, mask))
        × Framed lzma input old (out, mask))
      ⊎ ((ret : LzmaRet) × (lzma.raw_encode input (length input - lzma_overhead - 1) ≡ inl ret)
          × (encode_lzma lzma input ≡ lzma_error ret))
  unfolding encode_lzma
  encode_lzma-Framed =
      let five : (length laws.properties == 5) ≡ true = ground (arith, laws.five_bytes) in
      elim (Bool-cases (leb (length input) lzma_overhead)) [
        | inl e ↦ inl (input, 0, rw e refl, inl (refl, refl))
        | inr e ↦ elim (answers (lzma.raw_encode input (length input - lzma_overhead - 1))) [
          | inl full ↦ inl (input, 0, rw (e, laws.written, five, full) refl, inl (refl, refl))
          | inr (inl failed) ↦
              inr (lzma_stream_end, failed, rw (e, laws.written, five, failed) refl)
          | inr (inr (inl failed)) ↦
              inr (lzma_mem_error, failed, rw (e, laws.written, five, failed) refl)
          | inr (inr (inr (inl failed))) ↦
              inr (lzma_other, failed, rw (e, laws.written, five, failed) refl)
          | inr (inr (inr (inr (encoded, run)))) ↦
              let (out, mask, framed, done) = lzma_frame-Framed encoded (ground arith) run in
              inl (out, mask, rw (e, laws.written, five, run) framed, done)
        ]
      ]

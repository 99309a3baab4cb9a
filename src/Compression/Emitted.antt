-- ===== src/Compression/Emitted.antt =====
-- What the loop of `libmpq__compression_encode_sector`, src/mpq-compression.c, emits: a chain of the
-- methods whose flags are in the mask.
use libmpq.Base.{
  ℕ, suc, ◌+◌, ◌-◌, ◌≤◌, ◌≡◌, ◌⊎◌, refl, sym, ap, ◌∙◌, inl, inr, arith, Bool, true, false, ◌||◌,
  bit_or, List, [], ◌∷◌, ◌++◌, Option, none, some, Outcome, ok, err, unpack_error, length, drop,
  replicate, take-append, length-append, length-replicate, ltb, leb, if◌then◌else◌, Bool-cases,
  length-drop,
}
use libmpq.Sparse.{sparse_decompress, int32_max}
use libmpq.Sparse.Framed.{sparse_compress-Restores}
use libmpq.Compression.{
  Method, sparse, wave_mono, wave_stereo, huffman, zlib, pkzip, bzip2, flag_of, has, Codecs,
  compress_sparse, or_unpack, compression_stage, keep_stage, encode_loop,
}
use libmpq.Compression.Decode.{decompress}
use libmpq.Compression.Decode.Selection.{mask_after, chosen}
use libmpq.Compression.Decode.Stages.{Unpacks, Chain, staged, Chain-length}

-- A codec whose streams, when it makes one of at most 2^31 - 1 bytes, its decoder takes back.
abbrev pub Lossless : Codecs → Method → Type 0
Lossless c m =
    (data_in packed : List ℕ)
    → length data_in ≤ int32_max
    → compression_stage c m data_in ≡ ok packed
    → Unpacks c m packed data_in

compress_sparse-stream :
    (data_in : List ℕ)
    → (compress_sparse data_in ≡ err unpack_error)
      ⊎ ((stream : List ℕ) × (compress_sparse data_in ≡ ok stream)
          × ((rest old : List ℕ) (out_size : ℕ)
              → length data_in ≤ out_size
              → out_size ≤ length old
              → (sparse_decompress (some (stream ++ rest)) (length stream) (some old) out_size
                  ≡ ok (length data_in, data_in ++ drop (length data_in) old))))
unfolding compress_sparse
compress_sparse-stream data_in =
    let size : ℕ = length data_in in
    elim (Bool-cases (ltb size 7 || ltb int32_max size)) [
      | inl e ↦ inl (rw e refl)
      | inr e ↦
          let few : size ≤ int32_max = ground arith in
          let seven : 7 ≤ size = ground arith in
          elim (sparse_compress-Restores data_in (replicate (size - 2) 0) (size - 2) (omega arith)
            few (omega arith) (omega (arith, length-replicate {A = ℕ} (size - 2) 0))) [
              | inl gave_up ↦ inl (rw (e, gave_up) refl)
              | inr (stream, room, run, restores) ↦
                  inr (stream, rw (e, run, take-append stream room) refl, restores)
            ]
    ]

-- A stage fails or succeeds, and does not fault.
abbrev Ends : Outcome (List ℕ) → Type 0
Ends run = (run ≡ err unpack_error) ⊎ ((packed : List ℕ) × (run ≡ ok packed))

or_unpack-Ends : (packed : Option (List ℕ)) → Ends (or_unpack packed)
or_unpack-Ends none = inl refl
or_unpack-Ends (some packed) = inr (packed, refl)

compression_stage-Ends :
    (c : Codecs) (m : Method) (data_in : List ℕ) → Ends (compression_stage c m data_in)
unfolding compression_stage
compression_stage-Ends c sparse data_in = elim (compress_sparse-stream data_in) [
  | inl e ↦ inl e
  | inr (stream, e, restores) ↦ inr (stream, e)
]
compression_stage-Ends c wave_mono data_in = or_unpack-Ends _
compression_stage-Ends c wave_stereo data_in = or_unpack-Ends _
compression_stage-Ends c huffman data_in = or_unpack-Ends _
compression_stage-Ends c zlib data_in = or_unpack-Ends _
compression_stage-Ends c pkzip data_in = or_unpack-Ends _
compression_stage-Ends c bzip2 data_in = or_unpack-Ends _

-- The SPARSE codec is lossless.
pub sparse-Lossless : (c : Codecs) → Lossless c sparse
unfolding compression_stage decompress
sparse-Lossless c data_in packed small run rest old out_size large held =
    elim (compress_sparse-stream data_in) [
      | inl e ↦ cc
      | inr (stream, e, restores) ↦
          let same : ok packed ≡ ok stream = sym run ∙ e in
          let es : packed ≡ stream = cc in
          (
            drop (length data_in) old,
            ap (λ s. sparse_decompress (some (s ++ rest)) (length s) (some old) out_size) es
                ∙ restores rest old out_size large held,
            omega (
              arith,
              length-append data_in (drop (length data_in) old),
              length-drop (length data_in) old,
            ),
          )
    ]

-- A chain that is empty or has saved two bytes.
abbrev pub Saves : Codecs → List ℕ → List Method → List ℕ → Type 0
Saves c input ms packed = Chain c input ms packed × ((ms ≡ []) ⊎ (length packed + 2 ≤ length input))

-- One round of the loop, and the whole of it.
abbrev Round : Codecs → List ℕ → Method → List Method → ℕ → Outcome (List ℕ × ℕ) → Type 0
Round c input m before mask run =
    (b : Bool) × (packed : List ℕ) × (run
      ≡ ok (packed, if b then bit_or mask (flag_of m) else mask))
    × Saves c input (if b then m ∷ before else before) packed

abbrev pub Emits : Codecs → List ℕ → List Method → List Method → ℕ → Outcome (List ℕ × ℕ) → Type 0
Emits c input ms before mask run =
    (kept : List Bool) × (packed : List ℕ) × (length kept ≡ length ms)
    × (run ≡ ok (packed, mask_after kept ms mask))
    × Saves c input (chosen kept ms before) packed

module _ (c : Codecs) (input : List ℕ) (large : 2 ≤ length input)
    (small : length input ≤ int32_max) where
  keep_stage-Round :
      (m : Method) (before : List Method) (saved packed : List ℕ) (mask : ℕ)
      → Unpacks c m packed saved
      → Saves c input before saved
      → Round c input m before mask (keep_stage m saved mask (ok packed))
  unfolding keep_stage
  keep_stage-Round m before saved packed mask unpacks saves =
      let test : Bool =
        leb (length packed) (length saved - (if leb 2 (length saved) then 2 else length saved)) in
      elim (Bool-cases test) [
        | inl e ↦
            let bound : length packed ≤ length saved = ground arith in
            let two : length packed + 2 ≤ length input = ground (arith, Chain-length saves.0) in
            (true, packed, rw e refl, (staged m unpacks bound saves.0, inr two))
        | inr e ↦ (false, saved, rw e refl, saves)
      ]

  stage-Round :
      (m : Method) (before : List Method) (saved : List ℕ) (mask : ℕ)
      → Lossless c m
      → Saves c input before saved
      → Round c input m before mask (keep_stage m saved mask (compression_stage c m saved))
  unfolding keep_stage
  stage-Round m before saved mask lossless saves = elim (compression_stage-Ends c m saved) [
    | inl e ↦ (false, saved, rw e refl, saves)
    | inr (packed, e) ↦
        let fits : length saved ≤ int32_max = omega (arith, Chain-length saves.0, small) in
        rw e (keep_stage-Round m before saved packed mask (lossless saved packed fits e) saves)
  ]

  pub encode_loop-Emits :
      (requested : ℕ) (lossless : (m : Method) → has requested m ≡ true → Lossless c m)
      (ms before : List Method) (saved : List ℕ) (mask : ℕ)
      → Saves c input before saved
      → Emits c input ms before mask (encode_loop c requested ms saved mask)
  unfolding encode_loop
  encode_loop-Emits requested lossless [] before saved mask saves = ([], saved, refl, refl, saves)
  encode_loop-Emits requested lossless (m ∷ ms) before saved mask saves =
      elim (Bool-cases (has requested m)) [
        | inl e ↦
            let (b, packed, run, saves') = stage-Round m before saved mask (lossless m e) saves in
            let (kept, last, long, rest, done) =
              encode_loop-Emits requested lossless ms (if b then m ∷ before else before) packed
                (if b then bit_or mask (flag_of m) else mask) saves' in
            (b ∷ kept, last, ap suc long, rw (e, run, rest) refl, done)
        | inr e ↦
            let (kept, last, long, rest, done) =
              encode_loop-Emits requested lossless ms before saved mask saves in
            (false ∷ kept, last, ap suc long, rw (e, rest) refl, done)
      ]

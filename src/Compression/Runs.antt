-- ===== src/Compression/Runs.antt =====
-- A sector through two stages of src/mpq-compression.c.
use libmpq.Base.{
  ℕ, ◌+◌, ◌<◌, ◌≤◌, ◌≡◌, ◌⊎◌, refl, sym, ap, ap₂, ◌∙◌, arith, true, ◌&&◌, List, [], ◌∷◌, ◌++◌,
  Option, none, some, ok, err, unpack_error, length, take, drop, u32, replicate, ◌==◌, ltb, all,
  if◌then◌else◌, length-append, length-drop, take-append, inl, inr, Bool-cases, Option-cases,
}
use mathlib.Core.List.{append-nil}
use libmpq.Sparse.{int32_max}
use libmpq.Compression.{
  Method, sparse, wave_mono, wave_stereo, huffman, zlib, pkzip, bzip2, flag_of, has, Codecs,
  Decompress, standard, extended, lzma_selector, compression_allowed, allowed_mask, encode_sector,
  compression_stage, encode_loop, or_unpack, narrowed, keep_stage, finish_sector, compress_sparse,
}
use libmpq.Compression.Lzma.{
  LzmaCodec, LzmaRet, lzma_other, lzma_buf_error, lzma_stream_end, lzma_error,
}
use libmpq.Compression.Lzma.Frame.{LzmaLaws}
use libmpq.Compression.Decode.{decompress}
use libmpq.Compression.Emitted.{Lossless, sparse-Lossless}
use libmpq.Compression.RoundTrip.{
  IsRestored, decompress_block-encode_sector, decompress_block-encode_lzma,
}

-- A codec in the place of zlib, which leaves two bytes 9 at the end of the data away.
abbrev strip_nines : List ℕ → Option (List ℕ)
strip_nines [] = none
strip_nines (x ∷ []) = none
strip_nines (x ∷ y ∷ []) = if (x == 9) && (y == 9) then some [] else none
strip_nines (x ∷ y ∷ z ∷ rest) = elim (strip_nines (y ∷ z ∷ rest)) [
  | none ↦ none
  | some front ↦ some (x ∷ front)
]

abbrev add_nines : Decompress
add_nines (some in_buf) in_size (some out_buf) out_size =
    ok (in_size + 2, take in_size in_buf ++ (9 ∷ 9 ∷ drop (in_size + 2) out_buf))
add_nines _ in_size _ out_size = err unpack_error

abbrev no_codec : Decompress
no_codec in_buf in_size out_buf out_size = err unpack_error

abbrev codecs : Codecs
codecs = record {
  pkzip_compress = λ data_in. none;
  huffman_encode = λ data_in capacity. none;
  wave_compress = λ data_in channels. none;
  deflate = λ data_in capacity. strip_nines data_in;
  bzip2_compress = λ data_in capacity. none;
  decompress_bzip2 = no_codec;
  decompress_pkzip = no_codec;
  decompress_zlib = add_nines;
  decompress_huffman = no_codec;
  decompress_wave = λ channels. no_codec;
  lzma = record {
    encoder_properties = none;
    raw_encode = λ input capacity. inl lzma_other;
    decoder = λ properties. inl lzma_other;
    raw_decode = λ properties stream out_buf out_size. record {
      ret = lzma_other;
      total_out = 0;
      avail_out = 0;
      avail_in = 0;
      contents = out_buf;
    };
  };
}

strip_nines_lem :
    (data_in packed : List ℕ) → strip_nines data_in ≡ some packed → data_in ≡ packed ++ (9 ∷ 9 ∷ [])
strip_nines_lem [] packed e = cc
strip_nines_lem (x ∷ []) packed e = cc
strip_nines_lem (x ∷ y ∷ []) packed e = elim (Bool-cases ((x == 9) && (y == 9))) [
  | inl t ↦
      let same : some [] ≡ some packed = sym (rw t refl) ∙ e in
      let ep : packed ≡ [] = cc in
      let ex : x ≡ 9 = ground arith in let ey : y ≡ 9 = ground arith in rw (ep, ex, ey) refl
  | inr t ↦ let none_left : none ≡ some packed = sym (rw t refl) ∙ e in cc
]
strip_nines_lem (x ∷ y ∷ z ∷ rest) packed e = elim (Option-cases (strip_nines (y ∷ z ∷ rest))) [
  | inl t ↦ let none_left : none ≡ some packed = sym (rw t refl) ∙ e in cc
  | inr (front, t) ↦
      let same : some (x ∷ front) ≡ some packed = sym (rw t refl) ∙ e in
      let ep : packed ≡ x ∷ front = cc in
      rw ep (ap (λ l. x ∷ l) (strip_nines_lem (y ∷ z ∷ rest) front t))
]

nines : (front back : List ℕ) → (front ++ (9 ∷ 9 ∷ [])) ++ back ≡ front ++ (9 ∷ 9 ∷ back)
nines [] back = refl
nines (x ∷ front) back = ap (λ l. x ∷ l) (nines front back)

narrowed_lem : (data_in : List ℕ) → length data_in ≤ int32_max → narrowed data_in ≡ data_in
narrowed_lem data_in small =
    let e : u32 (length data_in) ≡ length data_in = omega arith in
    rw e (ap (take (length data_in)) (sym (append-nil data_in)) ∙ take-append data_in [])

zlib-Lossless : Lossless codecs zlib
unfolding compression_stage decompress
zlib-Lossless data_in packed small run' rest old out_size large held =
    let run : or_unpack (strip_nines data_in) ≡ ok packed =
      sym (ap (λ l. or_unpack (strip_nines l)) (narrowed_lem data_in small)) ∙ run' in
    elim (Option-cases (strip_nines data_in)) [
      | inl t ↦ let failed : err unpack_error ≡ ok packed = sym (ap or_unpack t) ∙ run in cc
      | inr (front, t) ↦
          let same : ok front ≡ ok packed = sym (ap or_unpack t) ∙ run in
          let ep : front ≡ packed = cc in
          let whole : data_in ≡ packed ++ (9 ∷ 9 ∷ []) =
            strip_nines_lem data_in packed (t ∙ ap some ep) in
          let long : length data_in ≡ length packed + 2 =
            ap length whole ∙ length-append packed (9 ∷ 9 ∷ []) in
          (
            drop (length packed + 2) old,
            rw (long, whole, take-append packed rest)
                (ap (λ l. ok (length packed + 2, l)) (sym (nines packed _))),
            omega (
              arith,
              length-append data_in (drop (length packed + 2) old),
              length-drop (length packed + 2) old,
            ),
          )
    ]

-- SPARSE and the codec of zlib.
abbrev requested : ℕ
requested = 0x22

abbrev input : List ℕ
input = 1 ∷ 2 ∷ replicate 12 0 ++ (9 ∷ 9 ∷ [])

codecs-Lossless : (m : Method) → has requested m ≡ true → Lossless codecs m
unfolding flag_of
codecs-Lossless sparse e = sparse-Lossless codecs
codecs-Lossless zlib e = zlib-Lossless
codecs-Lossless wave_mono e = cc
codecs-Lossless wave_stereo e = cc
codecs-Lossless huffman e = cc
codecs-Lossless pkzip e = cc
codecs-Lossless bzip2 e = cc

allowed : compression_allowed 1 requested extended ≡ true
unfolding compression_allowed allowed_mask flag_of
allowed = refl

decompress_block-encode_sector_example :
    (out : List ℕ) × (mask : ℕ) × (encode_sector codecs input requested 1 extended ≡ ok (out, mask))
    × IsRestored codecs 1 input (replicate 20 7) (out, mask)
decompress_block-encode_sector_example =
    decompress_block-encode_sector codecs input (replicate 20 7) requested 1 extended
      codecs-Lossless allowed (omega arith) (omega arith) (omega arith) (omega arith)

-- Both stages are kept.
encode_sector-input :
    encode_sector codecs input requested 1 extended
    ≡ ok (0x22 ∷ 0 ∷ 0 ∷ 0 ∷ 16 ∷ 0x81 ∷ 1 ∷ 2 ∷ 9 ∷ 0x81 ∷ [], 0x22)
unfolding encode_sector encode_loop keep_stage finish_sector compression_stage compress_sparse
    compression_allowed allowed_mask flag_of libmpq.Sparse.sparse_compress
    libmpq.Sparse.compress_loop libmpq.Sparse.zero_run libmpq.Sparse.literal_end
    libmpq.Sparse.three_zeros libmpq.Endian.store_be32 libmpq.Base.Memory.write_range
    libmpq.Base.Memory.read_range
encode_sector-input = refl

-- A codec in the place of liblzma, which encodes zeros alone.
abbrev zeros_encode : List ℕ → ℕ → LzmaRet ⊎ List ℕ
zeros_encode input capacity =
    if ltb 0 capacity && all (λ b. b == 0) input then inr (7 ∷ []) else inl lzma_buf_error

abbrev zeros_codec : LzmaCodec
zeros_codec = record {
  encoder_properties = some (93 ∷ 0 ∷ 0 ∷ 16 ∷ 0 ∷ []);
  raw_encode = zeros_encode;
  decoder = λ properties. inr 2000000;
  raw_decode = λ properties stream out_buf out_size. record {
    ret = lzma_stream_end;
    total_out = out_size;
    avail_out = 0;
    avail_in = 0;
    contents = replicate out_size 0 ++ drop out_size out_buf;
  };
}

all_zeros : (input : List ℕ) → all (λ b. b == 0) input ≡ true → input ≡ replicate (length input) 0
all_zeros [] e = refl
all_zeros (x ∷ input) e =
    let first : x ≡ 0 = ground arith in
    let rest : input ≡ replicate (length input) 0 = all_zeros input (ground arith) in
    ap₂ (λ h t. h ∷ t) first rest

zeros_encode_inv :
    (input encoded : List ℕ) (capacity : ℕ)
    → zeros_encode input capacity ≡ inr encoded
    → (encoded ≡ 7 ∷ []) × (0 < capacity) × (all (λ b. b == 0) input ≡ true)
zeros_encode_inv input encoded capacity run =
    elim (Bool-cases (ltb 0 capacity && all (λ b. b == 0) input)) [
      | inl t ↦
          let same : inr (7 ∷ []) ≡ inr encoded = sym (rw t refl) ∙ run in
          (cc, ground arith, ground arith)
      | inr f ↦ let failed : inl lzma_buf_error ≡ inr encoded = sym (rw f refl) ∙ run in cc
    ]

zeros_laws : LzmaLaws zeros_codec
zeros_laws = record {
  properties = 93 ∷ 0 ∷ 0 ∷ 16 ∷ 0 ∷ [];
  written = refl;
  five_bytes = refl;
  memory = 2000000;
  accepted = refl;
  memory_small = omega arith;
  bounded = λ input encoded capacity run.
      let (e, some_room, zeros) = zeros_encode_inv input encoded capacity run in
      let one : length encoded ≡ 1 = ap length e in (omega arith, omega arith);
  decodes = λ input encoded old capacity run room.
      let (e, some_room, zeros) = zeros_encode_inv input encoded capacity run in
      let contents : replicate (length input) 0 ++ drop (length input) old
          ≡ input ++ drop (length input) old =
        ap (λ l. l ++ drop (length input) old) (sym (all_zeros input zeros)) in
      (
        drop (length input) old,
        ap
            (λ l. record {
              ret = lzma_stream_end;
              total_out = length input;
              avail_out = 0;
              avail_in = 0;
              contents = l;
            })
            contents,
      );
}

abbrev codecs_lzma : Codecs
codecs_lzma = record codecs { lzma = zeros_codec }

abbrev sector : List ℕ
sector = replicate 40 0

lzma_allowed : compression_allowed 1 lzma_selector standard ≡ true
unfolding compression_allowed
lzma_allowed = refl

decompress_block-encode_lzma_example :
    ((out : List ℕ) × (mask : ℕ) × (encode_sector codecs_lzma sector lzma_selector 1 standard
        ≡ ok (out, mask))
      × IsRestored codecs_lzma 1 sector (replicate 50 7) (out, mask))
    ⊎ ((ret : LzmaRet) × (zeros_encode sector 24 ≡ inl ret)
        × (encode_sector codecs_lzma sector lzma_selector 1 standard ≡ lzma_error ret))
decompress_block-encode_lzma_example =
    decompress_block-encode_lzma codecs_lzma sector (replicate 50 7) 1 standard zeros_laws
      lzma_allowed (omega arith) (omega arith)

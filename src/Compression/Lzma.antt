-- ===== src/Compression/Lzma.antt =====
-- The LZMA framing of src/mpq-compression.c; liblzma is a parameter.
pub mod Frame
use libmpq.Base.{
  ℕ, ◌-◌, ◌*◌, ◌^◌, Bool, true, false, ◌&&◌, ◌||◌, not, List, ◌∷◌, ◌++◌, Option, none, some,
  Pointer, Outcome, ok, err, unpack_error, malloc_error, size_error, or_fault, ◌>>=◌, length, ◌⊎◌,
  inl, inr, replicate, get_elem?, read_range, ◌==◌, ltb, leb, if◌then◌else◌,
}
use libmpq.Endian.{store_le64}
use libmpq.Sparse.{int32_max}

-- `lzma_ret`, as far as the code tells the values apart.
pub data LzmaRet : Type 0 where
  lzma_stream_end lzma_buf_error lzma_mem_error lzma_other : LzmaRet

-- What `lzma_code` leaves when it no longer returns LZMA_OK.
pub record LzmaDecoded : Type 0 where
  pub ret : LzmaRet
  pub total_out : ℕ
  pub avail_out : ℕ
  pub avail_in : ℕ
  pub contents : List ℕ

-- The calls into liblzma. `encoder_properties` is what `lzma_properties_encode` writes, with the
-- options set in the code; `raw_encode` takes the input and the capacity; `decoder` stands for
-- `lzma_properties_decode`, `lzma_raw_decoder_memusage` and `lzma_raw_decoder`, with the memory it
-- asks for; `raw_decode` takes the properties, the input, the output and its size.
pub record LzmaCodec : Type 0 where
  pub encoder_properties : Option (List ℕ)
  pub raw_encode : List ℕ → ℕ → LzmaRet ⊎ List ℕ
  pub decoder : List ℕ → LzmaRet ⊎ ℕ
  pub raw_decode : List ℕ → List ℕ → List ℕ → ℕ → LzmaDecoded

abbrev pub lzma_method : ℕ
lzma_method = 0x12

abbrev pub lzma_overhead : ℕ
lzma_overhead = 15

-- LIBMPQ_LZMA_DECODER_MEMORY_MAX.
abbrev memory_max : ℕ
memory_max = 64 * 1024 * 1024

pub lzma_error : LzmaRet → Outcome (List ℕ × ℕ)
lzma_error lzma_mem_error = err malloc_error
lzma_error _ = err unpack_error

-- The header in front of the stream: the method, the filter, the properties and the size.
pub lzma_frame : List ℕ → List ℕ → List ℕ → Outcome (List ℕ × ℕ)
lzma_frame properties input encoded = do
  size_bytes ← store_le64 (length input) (replicate 8 0)
  ok (lzma_method ∷ 0 ∷ properties ++ (size_bytes ++ encoded), lzma_method)

pub encode_lzma : LzmaCodec → List ℕ → Outcome (List ℕ × ℕ)
encode_lzma lzma input =
    if leb (length input) lzma_overhead then ok (input, 0) else elim lzma.encoder_properties [
      | none ↦ err unpack_error
      | some properties ↦
          if not (length properties == 5)
          then err unpack_error
          else elim (lzma.raw_encode input (length input - lzma_overhead - 1)) [
            | inl lzma_buf_error ↦ ok (input, 0)
            | inl e ↦ lzma_error e
            | inr encoded ↦ lzma_frame properties input encoded
          ]
    ]

-- Whether the stream ended with all its input read and all the output written.
pub decoded_all : LzmaDecoded → ℕ → Bool
decoded_all decoded out_size =
    elim decoded.ret [ lzma_stream_end ↦ true | lzma_buf_error ↦ true | _ ↦ false ]
    && decoded.total_out == out_size
    && decoded.avail_out == 0
    && decoded.avail_in == 0

pub decompress_lzma : LzmaCodec → Pointer → ℕ → Pointer → ℕ → Outcome (ℕ × List ℕ)
decompress_lzma lzma none in_size out_buf out_size = err unpack_error
decompress_lzma lzma (some in_buf) in_size none out_size = err unpack_error
decompress_lzma lzma (some in_buf) in_size (some out_buf) out_size =
    if leb in_size 14 then err unpack_error else (do
      filter ← or_fault (get_elem? in_buf 0)
      (if not (filter == 0)
          then err unpack_error
          else (if ltb int32_max out_size then err size_error else (do
            properties ← read_range in_buf 1 5
            stream ← read_range in_buf 14 (in_size - 14)
            elim (lzma.decoder properties) [
              | inl lzma_mem_error ↦ err malloc_error
              | inl _ ↦ err unpack_error
              | inr memusage ↦
                  if memusage == 2 ^ 64 - 1 || ltb memory_max memusage
                  then err unpack_error
                  else let decoded = lzma.raw_decode properties stream out_buf out_size in
                    if decoded_all decoded out_size
                    then ok (out_size, decoded.contents)
                    else err unpack_error
            ]))))

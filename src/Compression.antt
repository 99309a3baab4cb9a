-- ===== src/Compression.antt =====
-- The dispatch of codecs of src/mpq-compression.c: the writer's chain of stages. The sizes of a
-- buffer and of its contents are one here: a result is the list of its first `*size` bytes, and an
-- allocation succeeds.
pub mod Lzma
pub mod Decode
pub mod Emitted
pub mod RoundTrip
mod Runs
use libmpq.Base.{
  ℕ, zero, suc, ◌+◌, ◌-◌, ◌*◌, ◌/◌, bit_and, bit_or, Bool, true, false, ◌&&◌, ◌||◌, not, List, [],
  ◌∷◌, Option, none, some, Pointer, Outcome, ok, err, fault, unpack_error, format_error, ◌>>=◌,
  length, take, replicate, u32, ◌==◌, ltb, leb, if◌then◌else◌,
}
use libmpq.Sparse.{sparse_compress, sparse_decompress, int32_max}
use libmpq.Compression.Lzma.{LzmaCodec, encode_lzma}

-- The entries of the two tables.
pub data Method : Type 0 where
  sparse wave_mono wave_stereo huffman zlib pkzip bzip2 : Method

-- LIBMPQ_COMPRESSION_*.
pub flag_of : Method → ℕ
flag_of sparse = 0x20
flag_of wave_mono = 0x40
flag_of wave_stereo = 0x80
flag_of huffman = 0x01
flag_of zlib = 0x02
flag_of pkzip = 0x08
flag_of bzip2 = 0x10

abbrev pub lzma_selector : ℕ
lzma_selector = 0x100

abbrev pub version_two : ℕ
version_two = 1

-- `mask & flag`, as a test.
abbrev pub has : ℕ → Method → Bool
has mask m = not (bit_and mask (flag_of m) == 0)

-- The type of the decoders of the table.
abbrev pub Decompress : Type 0
Decompress = Pointer → ℕ → Pointer → ℕ → Outcome (ℕ × List ℕ)

-- The codecs behind the dispatch. An encoder gives the bytes of its stream, `none` where it fails;
-- those of zlib, bzip2 and Huffman take the size of the output, that of WAVE the channels.
pub record Codecs : Type 0 where
  pub pkzip_compress : List ℕ → Option (List ℕ)
  pub huffman_encode : List ℕ → ℕ → Option (List ℕ)
  pub wave_compress : List ℕ → ℕ → Option (List ℕ)
  pub deflate : List ℕ → ℕ → Option (List ℕ)
  pub bzip2_compress : List ℕ → ℕ → Option (List ℕ)
  pub decompress_bzip2 : Decompress
  pub decompress_pkzip : Decompress
  pub decompress_zlib : Decompress
  pub decompress_huffman : Decompress
  pub decompress_wave : ℕ → Decompress
  pub lzma : LzmaCodec

-- `libmpq_compression_policy_t`.
pub data Policy : Type 0 where
  standard extended : Policy

-- The fixed list of methods of the standard policy.
pub fixed_method : ℕ → Bool
fixed_method mask =
    mask == 0
    || mask == flag_of zlib
    || mask == flag_of pkzip
    || mask == flag_of bzip2
    || mask == flag_of sparse
    || mask == bit_or (flag_of sparse) (flag_of zlib)
    || mask == bit_or (flag_of sparse) (flag_of bzip2)
    || mask == bit_or (flag_of huffman) (flag_of wave_mono)
    || mask == bit_or (flag_of huffman) (flag_of wave_stereo)

abbrev wave_flags : ℕ
wave_flags = bit_or (flag_of wave_mono) (flag_of wave_stereo)

abbrev zlib_bzip2 : ℕ
zlib_bzip2 = bit_or (flag_of zlib) (flag_of bzip2)

-- 0xfb is the union of the seven flags; `mask & ~0xfb` is what the mask has beside them.
pub allowed_mask : ℕ → ℕ → Policy → Bool
allowed_mask format_version mask policy =
    if not (bit_and mask lzma_selector == 0)
    then false
    else if not (bit_and mask (flag_of sparse) == 0) && not (bit_and mask wave_flags == 0)
    then false
    else if bit_and mask wave_flags == wave_flags
    then false
    else if leb version_two format_version && (bit_and mask zlib_bzip2 == zlib_bzip2)
    then false
    else if leb version_two format_version && elim policy [ standard ↦ true | extended ↦ false ]
    then fixed_method mask
    else bit_and mask 0xfb == mask

pub compression_allowed : ℕ → ℕ → Policy → Bool
compression_allowed format_version mask policy =
    if ltb version_two format_version
    then false
    else if mask == lzma_selector
    then leb version_two format_version
    else allowed_mask format_version mask policy

-- A failure of an encoder; which one is not seen, since the caller goes on to the next stage.
abbrev pub or_unpack : Option (List ℕ) → Outcome (List ℕ)
or_unpack none = err unpack_error
or_unpack (some packed) = ok packed

-- The first `(uint32_t)*size` bytes of the data.
abbrev pub narrowed : List ℕ → List ℕ
narrowed data_in = take (u32 (length data_in)) data_in

-- `(uInt)out_size`, and that of Huffman.
abbrev stage_capacity : List ℕ → ℕ
stage_capacity data_in = u32 (length data_in + length data_in / 100 + 1024)

abbrev huffman_capacity : List ℕ → ℕ
huffman_capacity data_in = u32 (length data_in * 2 + 64)

-- The output of the SPARSE encoder is new memory, whose contents it overwrites.
pub compress_sparse : List ℕ → Outcome (List ℕ)
compress_sparse data_in =
    let size = length data_in in
    if ltb size 7 || ltb int32_max size then err unpack_error else (do
      (encoded, out) ←
          sparse_compress (some data_in) size (some (replicate (size - 2) 0)) (size - 2)
      ok (take encoded out))

pub compression_stage : Codecs → Method → List ℕ → Outcome (List ℕ)
compression_stage c sparse data_in = compress_sparse data_in
compression_stage c pkzip data_in = or_unpack (c.pkzip_compress (narrowed data_in))
compression_stage c huffman data_in =
    or_unpack (c.huffman_encode (narrowed data_in) (huffman_capacity data_in))
compression_stage c wave_mono data_in = or_unpack (c.wave_compress (narrowed data_in) 1)
compression_stage c wave_stereo data_in = or_unpack (c.wave_compress (narrowed data_in) 2)
compression_stage c zlib data_in = or_unpack (c.deflate (narrowed data_in) (stage_capacity data_in))
compression_stage c bzip2 data_in =
    or_unpack (c.bzip2_compress (narrowed data_in) (stage_capacity data_in))

-- The array `masks` of the encoder.
abbrev pub writer_order : List Method
writer_order = sparse ∷ wave_mono ∷ wave_stereo ∷ huffman ∷ zlib ∷ pkzip ∷ bzip2 ∷ []

-- What becomes of the data and of `*emitted_mask` after a stage.
pub keep_stage : Method → List ℕ → ℕ → Outcome (List ℕ) → Outcome (List ℕ × ℕ)
keep_stage m saved mask (ok data_out) =
    let before = length saved in
    if leb (length data_out) (before - (if leb 2 before then 2 else before))
    then ok (data_out, bit_or mask (flag_of m))
    else ok (saved, mask)
keep_stage m saved mask (err e) = ok (saved, mask)
keep_stage m saved mask fault = fault

pub encode_loop : Codecs → ℕ → List Method → List ℕ → ℕ → Outcome (List ℕ × ℕ)
encode_loop c requested [] data_in mask = ok (data_in, mask)
encode_loop c requested (m ∷ ms) data_in mask = do
  (data_out, mask') ←
      (if has requested m
        then keep_stage m data_in mask (compression_stage c m data_in)
        else ok (data_in, mask))
  encode_loop c requested ms data_out mask'

-- From the loop on: a mask that is not allowed restores the input, and a chain that does not win
-- a byte is dropped. The result is the output with `*emitted_mask`.
pub finish_sector : List ℕ → ℕ → Policy → List ℕ × ℕ → List ℕ × ℕ
finish_sector input format_version policy (encoded, mask) =
    let valid = compression_allowed format_version mask policy in
    let packed = if valid then encoded else input in
    let emitted = if valid then mask else 0 in
    if emitted == 0 || leb (length input) (length packed + 1)
    then (packed, 0)
    else (emitted ∷ packed, emitted)

pub encode_sector : Codecs → List ℕ → ℕ → ℕ → Policy → Outcome (List ℕ × ℕ)
encode_sector c input requested format_version policy =
    if not (compression_allowed format_version requested policy)
    then err format_error
    else if requested == lzma_selector
    then encode_lzma c.lzma input
    else (do
      encoded ← encode_loop c requested writer_order input 0
      ok (finish_sector input format_version policy encoded))

-- ===== src/Compression/Decode.antt =====
-- The reader's chain of stages: `libmpq__compression_decompress_multi` and
-- `libmpq__compression_decompress_block` of src/mpq-compression.c, over buffers that do not overlap.
pub mod Stages
pub mod Chains
pub mod Selection
pub mod Blocks
use libmpq.Base.{
  ℕ, zero, suc, ◌+◌, ◌-◌, ◌^◌, bit_and, Bool, true, false, ◌&&◌, ◌||◌, not, List, [], ◌∷◌, Option,
  none, some, Pointer, Outcome, ok, err, fault, unpack_error, size_error, or_fault, map_ok, ◌>>=◌,
  length, replicate, get_elem?, read_range, write_range, is_null, advance, ◌==◌, ltb, leb,
  if◌then◌else◌,
}
use libmpq.Base.Integers.{ℤ, pos, negsuc}
use libmpq.Sparse.{sparse_decompress, int32_max}
use libmpq.Compression.{
  Method, sparse, wave_mono, wave_stereo, huffman, zlib, pkzip, bzip2, flag_of, has, Codecs,
  Decompress, version_two,
}
use libmpq.Compression.Lzma.{decompress_lzma, lzma_method}

-- The methods of `dcmp_table`, and their decoders.
abbrev pub dcmp_table : List Method
dcmp_table = bzip2 ∷ pkzip ∷ zlib ∷ huffman ∷ wave_stereo ∷ wave_mono ∷ sparse ∷ []

unfoldable pub decompress : Codecs → Method → Decompress
decompress c sparse = sparse_decompress
decompress c wave_mono = c.decompress_wave 1
decompress c wave_stereo = c.decompress_wave 2
decompress c huffman = c.decompress_huffman
decompress c zlib = c.decompress_zlib
decompress c pkzip = c.decompress_pkzip
decompress c bzip2 = c.decompress_bzip2

-- The first loop: `count` and `decompress_unsupp`.
pub count_loop : ℕ → List Method → ℕ → ℕ → ℕ × ℕ
count_loop flag [] count unsupp = (count, unsupp)
count_loop flag (m ∷ ms) count unsupp =
    let test = has flag m in
    count_loop flag ms (if test then count + 1 else count)
      (if test then bit_and unsupp (0xff - flag_of m) else unsupp)

-- The buffer that `in_buf` or `work_buf` points to.
pub data Place : Type 0 where
  source output temporary : Place

-- The variables of the second loop; `place` is that of `in_buf`, which is that of `work_buf` after
-- a stage.
pub record Buffers : Type 0 where
  pub place : Place
  pub in_size : ℕ
  pub tb : ℕ
  pub count : ℕ
  pub out_buf : List ℕ
  pub temp_buf : Pointer

pub contents : Pointer → Buffers → Place → Pointer
contents in_buf bufs source = in_buf
contents in_buf bufs output = some bufs.out_buf
contents in_buf bufs temporary = bufs.temp_buf

pub same_place : Place → Place → Bool
same_place source source = true
same_place output output = true
same_place temporary temporary = true
same_place _ _ = false

-- The choice of `work_buf`.
pub work_place : Buffers → Place
work_place bufs =
    if bufs.count == 0
    then (if is_null bufs.temp_buf then output else temporary)
    else elim bufs.place [ output ↦ temporary | _ ↦ output ]

pub put_result : Buffers → Place → ℕ × List ℕ → Buffers
put_result bufs output (tb, new) = record {
  place = output;
  in_size = tb;
  tb = tb;
  count = bufs.count + 1;
  out_buf = new;
  temp_buf = bufs.temp_buf;
}
put_result bufs _ (tb, new) = record {
  place = temporary;
  in_size = tb;
  tb = tb;
  count = bufs.count + 1;
  out_buf = bufs.out_buf;
  temp_buf = some new;
}

-- A decoder whose input is its output has no specified result, which is a fault here.
pub multi_stage : Codecs → Method → Pointer → ℕ → Buffers → Outcome Buffers
multi_stage c m in_buf out_size bufs =
    let work = work_place bufs in
    if same_place work bufs.place then fault else (do
      result ←
          decompress c m (contents in_buf bufs bufs.place) bufs.in_size (contents in_buf bufs work)
            out_size
      ok (put_result bufs work result))

pub multi_loop : Codecs → ℕ → List Method → Pointer → ℕ → Buffers → Outcome Buffers
multi_loop c flag [] in_buf out_size bufs = ok bufs
multi_loop c flag (m ∷ ms) in_buf out_size bufs = do
  bufs' ← (if has flag m then multi_stage c m in_buf out_size bufs else ok bufs)
  multi_loop c flag ms in_buf out_size bufs'

-- The copy at the end. Without a stage it is of no bytes.
pub copy_back : Buffers → Outcome (ℕ × List ℕ)
copy_back bufs = elim bufs.place [
  | output ↦ ok (bufs.tb, bufs.out_buf)
  | source ↦ ok (bufs.tb, bufs.out_buf)
  | temporary ↦ (do
    temp ← or_fault bufs.temp_buf
    bytes ← read_range temp 0 bufs.tb
    out' ← write_range bufs.out_buf 0 bytes
    ok (bufs.tb, out'))
]

-- From the check of `decompress_unsupp` on.
pub multi_stages : Codecs → ℕ → ℕ × ℕ → Pointer → ℕ → List ℕ → ℕ → Outcome (ℕ × List ℕ)
multi_stages c flag (count, unsupp) in_buf in_size out_buf out_size =
    if not (unsupp == 0) then err unpack_error else (do
      bufs ← multi_loop c flag dcmp_table in_buf out_size (record {
        place = source;
        in_size = in_size;
        tb = 0;
        count = 0;
        out_buf = out_buf;
        temp_buf = if ltb 1 count then some (replicate out_size 0) else none;
      })
      copy_back bufs)

pub decompress_multi : Codecs → Pointer → ℕ → Pointer → ℕ → ℕ → Outcome (ℕ × List ℕ)
decompress_multi c none in_size out_buf out_size format_version = err unpack_error
decompress_multi c (some in_buf) in_size none out_size format_version = err unpack_error
decompress_multi c (some in_buf) in_size (some out_buf) out_size format_version =
    if in_size == 0 then err unpack_error else (do
      flag ← or_fault (get_elem? in_buf 0)
      let rest = advance (some in_buf) 1
      (if leb version_two format_version && (flag == lzma_method)
          then decompress_lzma c.lzma rest (in_size - 1) (some out_buf) out_size
          else multi_stages c flag (count_loop flag dcmp_table 0 flag) rest (in_size - 1) out_buf
              out_size))

-- `compression_type`: LIBMPQ_FLAG_COMPRESS_PKZIP, LIBMPQ_FLAG_COMPRESS_MULTI,
-- LIBMPQ_FLAG_COMPRESS_NONE or another value.
pub data BlockType : Type 0 where
  compress_pkzip compress_multi compress_none other_type : BlockType

-- A `uint32_t` as an `int32_t`.
abbrev pub to_int32 : ℕ → ℤ
to_int32 v = if ltb int32_max v then negsuc (2 ^ 32 - 1 - v) else pos v

-- `memcpy(out_buf, in_buf, out_size)` and `tb = out_size`.
pub copy_block : List ℕ → List ℕ → ℕ → Outcome (ℤ × List ℕ)
copy_block in_buf out_buf out_size = do
  bytes ← read_range in_buf 0 out_size
  out' ← write_range out_buf 0 bytes
  ok (to_int32 out_size, out')

-- The check of a block with a PKWARE stage.
pub check_pkzip : Bool → ℕ → ℤ × List ℕ → Outcome (ℤ × List ℕ)
check_pkzip test out_size (pos tb, out_buf) =
    if test && not (tb == out_size) then err unpack_error else ok (pos tb, out_buf)
check_pkzip test out_size (negsuc n, out_buf) = ok (negsuc n, out_buf)

-- The result of a decoder that has not failed.
pub decoded : ℕ × List ℕ → ℤ × List ℕ
decoded (tb, out_buf) = (pos tb, out_buf)

pub decompress_block : Codecs → List ℕ → ℕ → List ℕ → ℕ → BlockType → ℕ → Outcome (ℤ × List ℕ)
decompress_block c in_buf in_size out_buf out_size compress_none format_version =
    if ltb in_size out_size then err size_error else copy_block in_buf out_buf out_size
decompress_block c in_buf in_size out_buf out_size compress_pkzip format_version =
    (if leb out_size in_size
      then copy_block in_buf out_buf out_size
      else map_ok decoded (c.decompress_pkzip (some in_buf) in_size (some out_buf) out_size))
    >>= check_pkzip true out_size
decompress_block c in_buf in_size out_buf out_size compress_multi format_version =
    if ltb in_size out_size
    then (do
      test ←
          (if ltb 0 in_size
            then (do flag ← or_fault (get_elem? in_buf 0); ok (has flag pkzip))
            else ok false)
      result ← decompress_multi c (some in_buf) in_size (some out_buf) out_size format_version
      check_pkzip test out_size (decoded result))
    else copy_block in_buf out_buf out_size
decompress_block c in_buf in_size out_buf out_size other_type format_version = ok (pos 0, out_buf)

-- ===== src/Compression/Decode/Blocks.antt =====
-- Sectors through `libmpq__compression_decompress_block`, src/mpq-compression.c.
use mathlib.Core.List.{append-nil}
use libmpq.Base.{
  ℕ, suc, ◌+◌, ◌-◌, ◌≤◌, ◌<◌, ◌≡◌, refl, sym, ap, ◌∙◌, arith, Bool, true, false, ◌&&◌, List, [],
  ◌∷◌, ◌++◌, some, ok, length, ltb, ◌==◌, leb, read_range,
}
use libmpq.Base.Memory.{read_range_mid, write_range_mid, split_at}
use libmpq.Base.Integers.{pos}
use libmpq.Sparse.{int32_max}
use libmpq.Compression.{Method, has, Codecs, version_two}
use libmpq.Compression.Lzma.{lzma_method, decompress_lzma}
use libmpq.Compression.Decode.{
  dcmp_table, count_loop, multi_stages, decompress_multi, decompress_block, copy_block, check_pkzip,
  decoded, compress_multi,
}
use libmpq.Compression.Decode.Stages.{filter, Chain}
use libmpq.Compression.Decode.Chains.{multi_stages-Chain}

-- A sector of its unpacked size, of at most 2^31 - 1 bytes, is copied.
pub decompress_block-raw :
    (c : Codecs) (data_in old : List ℕ) (format_version : ℕ)
    → length data_in ≤ int32_max
    → length data_in ≤ length old
    → (after : List ℕ) × (decompress_block c data_in
          (length data_in)
          old
          (length data_in)
          compress_multi
          format_version
        ≡ ok (pos (length data_in), data_in ++ after))
unfolding decompress_block copy_block
decompress_block-raw c data_in old format_version small room =
    let (front, back, split, long) = split_at (length data_in) old room in
    let e : ltb (length data_in) (length data_in) ≡ false = ground arith in
    let read : read_range data_in 0 (length data_in) ≡ ok data_in =
      ap (λ l. read_range l 0 (length data_in)) (sym (append-nil data_in))
      ∙ read_range_mid [] data_in [] 0 (length data_in) refl refl in
    let fits : ltb int32_max (length data_in) ≡ false = ground arith in
    (back, rw (e, read, fits, split, write_range_mid [] front data_in back 0 refl (sym long)) refl)

check_pkzip_whole :
    (test : Bool) (n : ℕ) (out : List ℕ) → check_pkzip test n (pos n, out) ≡ ok (pos n, out)
unfolding check_pkzip
check_pkzip_whole test n out = ground arith

decompress_multi-Chain :
    {c : Codecs} (mask format_version : ℕ) {data_in packed : List ℕ} {ms : List Method}
    (old : List ℕ)
    → Chain c data_in ms packed
    → filter (has mask) dcmp_table ≡ ms
    → count_loop mask dcmp_table 0 mask ≡ (length ms, 0)
    → 0 < length ms
    → (leb version_two format_version && (mask == lzma_method)) ≡ false
    → length data_in ≤ length old
    → (after : List ℕ) × (decompress_multi c
          (some (mask ∷ packed))
          (suc (length packed))
          (some old)
          (length data_in)
          format_version
        ≡ ok (length data_in, data_in ++ after))
unfolding decompress_multi
decompress_multi-Chain {c} mask format_version {data_in} {packed} {ms} old chain same counted
      some_stage other room =
    let (after, run) =
      multi_stages-Chain mask [] old (length data_in) chain same some_stage (omega arith) room in
    let size : suc (length packed) - 1 ≡ length packed = omega arith in
    let e : (suc (length packed) == 0) ≡ false = ground arith in
    let run' : multi_stages c mask (length ms, 0) (some packed) (length packed) old (length data_in)
        ≡ ok (length data_in, data_in ++ after) =
      ap (λ l. multi_stages c mask (length ms, 0) (some l) (length packed) old (length data_in))
        (sym (append-nil packed))
      ∙ run in
    (after, rw (e, other, counted, size) run')

-- A sector that is shorter goes through the stages of its mask.
pub decompress_block-Chain :
    {c : Codecs} (mask format_version : ℕ) {data_in packed : List ℕ} {ms : List Method}
    (old : List ℕ)
    → Chain c data_in ms packed
    → filter (has mask) dcmp_table ≡ ms
    → count_loop mask dcmp_table 0 mask ≡ (length ms, 0)
    → 0 < length ms
    → (leb version_two format_version && (mask == lzma_method)) ≡ false
    → length packed + 1 < length data_in
    → length data_in ≤ length old
    → (after : List ℕ) × (decompress_block c
          (mask ∷ packed)
          (suc (length packed))
          old
          (length data_in)
          compress_multi
          format_version
        ≡ ok (pos (length data_in), data_in ++ after))
unfolding decompress_block decoded
decompress_block-Chain {c} mask format_version {data_in} {packed} {ms} old chain same counted
      some_stage other shorter room =
    let (after, run) =
      decompress_multi-Chain mask format_version old chain same counted some_stage other room in
    let e : ltb (suc (length packed)) (length data_in) ≡ true = ground arith in
    let e' : ltb 0 (suc (length packed)) ≡ true = ground arith in
    (after, rw (e, e', run) (check_pkzip_whole _ (length data_in) (data_in ++ after)))

-- A sector of the special method goes to its decoder.
pub decompress_block-lzma :
    (c : Codecs) (format_version n : ℕ) (rest old out : List ℕ) (out_size : ℕ)
    → leb version_two format_version ≡ true
    → suc n < out_size
    → decompress_lzma c.lzma (some rest) n (some old) out_size ≡ ok (out_size, out)
    → decompress_block c (lzma_method ∷ rest) (suc n) old out_size compress_multi format_version
      ≡ ok (pos out_size, out)
unfolding decompress_block decompress_multi decoded
decompress_block-lzma c format_version n rest old out out_size newer shorter run =
    let e : ltb (suc n) out_size ≡ true = ground arith in
    let e' : ltb 0 (suc n) ≡ true = ground arith in
    let e'' : (suc n == 0) ≡ false = ground arith in
    let size : suc n - 1 ≡ n = omega arith in
    rw (e, e', e'', size, newer, run) (check_pkzip_whole _ out_size out)

-- ===== src/Sparse.antt =====
-- The SPARSE codec, src/mpq-sparse.c. A result is the returned length with the output buffer.
pub mod Tokens
pub mod Compress
pub mod RoundTrip
pub mod Codec
pub mod Framed
mod Runs
use libmpq.Base.{
  ℕ, zero, suc, ◌+◌, ◌-◌, ◌^◌, bit_and, bit_or, Bool, true, false, ◌&&◌, ◌||◌, not, List, [], ◌∷◌,
  none, some, Pointer, Outcome, ok, err, fault, unpack_error, or_fault, ◌>>=◌, read_range,
  write_range, get_elem?, replicate, length, ◌==◌, ltb, leb, u8, if◌then◌else◌,
}
use libmpq.Endian.{load_be32, store_be32}

abbrev pub int32_max : ℕ
int32_max = 2 ^ 31 - 1

-- `while (count < 130 && count < in_size - input && in_buf[input + count] == 0) count++;`
unfoldable pub zero_run : ℕ → List ℕ → ℕ → ℕ → ℕ → Outcome ℕ
zero_run zero in_buf in_size input count = fault
zero_run (suc fuel) in_buf in_size input count =
    if ltb count 130 && ltb count (in_size - input)
    then (do
      byte ← or_fault (get_elem? in_buf (input + count))
      if byte == 0 then zero_run fuel in_buf in_size input (count + 1) else ok count)
    else ok count

-- Whether three zeros begin at `input`, read one after the other as `&&` does.
unfoldable pub three_zeros : List ℕ → ℕ → Outcome Bool
three_zeros in_buf input = do
  b0 ← or_fault (get_elem? in_buf input)
  if b0 == 0
      then (do
        b1 ← or_fault (get_elem? in_buf (input + 1))
        if b1 == 0
            then (do b2 ← or_fault (get_elem? in_buf (input + 2)); ok (b2 == 0))
            else ok false)
      else ok false

-- The `do … while` that ends a literal: its result is the new `input`.
unfoldable pub literal_end : ℕ → List ℕ → ℕ → ℕ → ℕ → Outcome ℕ
literal_end zero in_buf in_size start input = fault
literal_end (suc fuel) in_buf in_size start input = do
  let input' = input + 1
  stop ← (if leb 3 (in_size - input') then three_zeros in_buf input' else ok false)
  let more = literal_end fuel in_buf in_size start input'
  if stop
      then ok input'
      else (if ltb input' in_size && ltb (input' - start) 128 then more else ok input')

-- Unsigned subtractions here do not wrap: `input <= in_size` and `output <= out_size` throughout.
unfoldable pub compress_loop : ℕ → List ℕ → ℕ → List ℕ → ℕ → ℕ → ℕ → Outcome (ℕ × List ℕ)
compress_loop zero in_buf in_size out_buf out_size input output = fault
compress_loop (suc fuel) in_buf in_size out_buf out_size input output =
    if ltb input in_size
    then (do
      count ← zero_run 131 in_buf in_size input 0
      if leb 3 count
          then (if output == out_size then err unpack_error else (do
            out' ← write_range out_buf output (u8 (count - 3) ∷ [])
            compress_loop fuel in_buf in_size out' out_size (input + count) (output + 1)))
          else (do
            input' ← literal_end 128 in_buf in_size input input
            let count' = input' - input
            if output == out_size || ltb (out_size - output - 1) count'
                then err unpack_error
                else (do
                  out1 ← write_range out_buf output (u8 (bit_or 0x80 (count' - 1)) ∷ [])
                  bytes ← read_range in_buf input count'
                  out2 ← write_range out1 (output + 1) bytes
                  compress_loop fuel in_buf in_size out2 out_size input' (output + 1 + count'))))
    else ok (output, out_buf)

unfoldable pub sparse_compress : Pointer → ℕ → Pointer → ℕ → Outcome (ℕ × List ℕ)
sparse_compress none in_size out_buf out_size = err unpack_error
sparse_compress (some in_buf) in_size none out_size = err unpack_error
sparse_compress (some in_buf) in_size (some out_buf) out_size =
    if in_size == 0 || ltb int32_max in_size || ltb out_size 4 then err unpack_error else (do
      let out_size' = if ltb int32_max out_size then int32_max else out_size
      out' ← store_be32 in_size out_buf
      compress_loop (in_size + 1) in_buf in_size out' out_size' 0 4)

-- The length that a token stands for.
pub token_count : ℕ → ℕ
token_count token = bit_and token 0x7f + (if bit_and token 0x80 == 0 then 3 else 1)

pub decompress_loop : ℕ → List ℕ → ℕ → List ℕ → ℕ → ℕ → ℕ → Outcome (ℕ × ℕ × List ℕ)
decompress_loop zero in_buf in_size out_buf length input output = fault
decompress_loop (suc fuel) in_buf in_size out_buf length input output =
    if ltb input in_size && ltb output length
    then (do
      token ← or_fault (get_elem? in_buf input)
      let input' = input + 1
      let count =
          if ltb (length - output) (token_count token) then length - output else token_count token
      if bit_and token 0x80 == 0
          then (do
            out' ← write_range out_buf output (replicate count 0)
            decompress_loop fuel in_buf in_size out' length input' (output + count))
          else (if ltb (in_size - input') count then err unpack_error else (do
            bytes ← read_range in_buf input' count
            out' ← write_range out_buf output bytes
            decompress_loop fuel in_buf in_size out' length (input' + count) (output + count))))
    else ok (input, output, out_buf)

pub sparse_decompress : Pointer → ℕ → Pointer → ℕ → Outcome (ℕ × List ℕ)
sparse_decompress none in_size out_buf out_size = err unpack_error
sparse_decompress (some in_buf) in_size none out_size = err unpack_error
sparse_decompress (some in_buf) in_size (some out_buf) out_size =
    if ltb in_size 5 then err unpack_error else (do
      length ← load_be32 (some in_buf)
      if length == 0 || ltb out_size length || ltb int32_max length then err unpack_error else (do
        (input, output, out') ← decompress_loop (in_size + 1) in_buf in_size out_buf length 4 0
        if not (input == in_size) || not (output == length)
            then err unpack_error
            else ok (output, out')))

-- ===== src/Patch.antt =====
-- The run-length wrapper of patches: the encoder of src/mpq-patch-writer.c and the decoder of
-- src/mpq-patch-reader.c.
pub mod Tokens
pub mod Encode
pub mod Write
pub mod RoundTrip
mod Runs
use libmpq.Base.{
  ℕ, zero, suc, ◌+◌, ◌-◌, min, bit_and, bit_or, Bool, not, ◌&&◌, ◌||◌, List, [], ◌∷◌, Outcome, ok,
  err, fault, or_fault, map_ok, ◌>>=◌, get_elem?, read_range, write_range, drop, replicate, ltb,
  ◌==◌, u8, if◌then◌else◌, Error, format_error,
}

-- `(byte == 0) == zero`.
abbrev pub continues : Bool → ℕ → Bool
continues zeros byte = if zeros then byte == 0 else not (byte == 0)

-- The loop that counts; at most `left` bytes are taken.
pub run_count : ℕ → List ℕ → Bool → Outcome ℕ
run_count zero raw zeros = ok 0
run_count (suc left) raw zeros = do
  byte ← or_fault (get_elem? raw 0)
  let rest = run_count left (drop 1 raw) zeros
  if continues zeros byte then map_ok suc rest else ok 0

-- The loop of `patch_bsd0_rle` on the memory from `raw + input` on, of which `left` bytes are
-- encoded.
pub rle_loop : ℕ → List ℕ → ℕ → List ℕ → ℕ → Outcome (ℕ × List ℕ)
rle_loop zero raw left output used = fault
rle_loop (suc fuel) raw left output used = if left == 0 then ok (used, output) else (do
  byte ← or_fault (get_elem? raw 0)
  let zeros = byte == 0
  count ← run_count (min left 128) raw zeros
  output1 ← write_range output used (bit_or (u8 (count - 1)) (if zeros then 0 else 0x80) ∷ [])
  chunk ← (if zeros then ok [] else read_range raw 0 count)
  output2 ← (if zeros then ok output1 else write_range output1 (used + 1) chunk)
  rle_loop fuel (drop count raw) (left - count) output2
      (if zeros then used + 1 else used + 1 + count))

-- The number of bytes and the output.
pub patch_bsd0_rle : List ℕ → ℕ → List ℕ → Outcome (ℕ × List ℕ)
patch_bsd0_rle raw size output = do
  output' ← write_range output 0 (replicate 4 0)
  rle_loop (size + 1) raw size output' 4

-- The loop of `patch_expand_rle` and the test behind it.
pub expand_loop : ℕ → List ℕ → ℕ → ℕ → ℕ → List ℕ → ℕ → Outcome (List ℕ)
expand_loop zero encoded encoded_size input output decoded decoded_size = fault
expand_loop (suc fuel) encoded encoded_size input output decoded decoded_size =
    if ltb input encoded_size && ltb output decoded_size
    then (do
      command ← or_fault (get_elem? encoded input)
      let count = bit_and command 0x7f + 1
      let literal = not (bit_and command 0x80 == 0)
      (if ltb (decoded_size - output) count || (literal && ltb (encoded_size - (input + 1)) count)
          then err format_error
          else (do
            chunk ← (if literal then read_range encoded (input + 1) count else ok [])
            decoded' ← (if literal then write_range decoded output chunk else ok decoded)
            expand_loop fuel encoded encoded_size (if literal then input + 1 + count else input + 1)
                (output + count) decoded' decoded_size)))
    else if (input == encoded_size) && (output == decoded_size)
    then ok decoded
    else err format_error

pub patch_expand_rle : List ℕ → ℕ → List ℕ → ℕ → Outcome (List ℕ)
patch_expand_rle encoded encoded_size decoded decoded_size =
    if ltb encoded_size 4 then err format_error else (do
      decoded' ← write_range decoded 0 (replicate decoded_size 0)
      expand_loop (encoded_size + 1) encoded encoded_size 4 0 decoded' decoded_size)

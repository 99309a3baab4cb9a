-- ===== src/Crypto/Recovery.antt =====
-- Recovery of an unknown seed, `libmpq__crypto_detect_file_key` and
-- `libmpq__crypto_derive_block_table_seed` of src/mpq-crypto.c.
pub mod Sound
pub mod Complete
pub mod OffsetTable
mod Runs
use libmpq.Base.{
  ℕ, zero, suc, ◌+◌, ◌-◌, ◌*◌, ◌%◌, ◌^◌, bit_and, bit_xor, List, [], ◌∷◌, Bool, ◌||◌, Option, none,
  some, Pointer, Outcome, ok, err, decrypt_error, is_null, advance, ◌>>=◌, ◌==◌, ltb, leb, u32,
  if◌then◌else◌,
}
use libmpq.Endian.{load_le32}
use libmpq.Crypto.{crypt_word, next_seed, next_seed2}

-- The first and second words of the payloads whose beginning is known: RIFF, MZ, <?xml and MPQ.
pub known_words : ℕ → List (ℕ × ℕ)
known_words file_size =
    (0x46464952, u32 (file_size + 2 ^ 32 - 8))
    ∷ (0x00905A4D, 3)
    ∷ (0x6D783F3C, 0x6576206C)
    ∷ (0x1A51504D, 32)
    ∷ []

-- The second word as the cipher decrypts it, once the first is `first` under `seed`.
pub second_word : ℕ → ℕ → ℕ → ℕ → Outcome ℕ
second_word seed seed2 first encrypted_second = do
  let next = next_seed seed
  let seed2' = next_seed2 first seed2
  word ← crypt_word (0x400 + bit_and next 0xff)
  ok (bit_xor encrypted_second (u32 (next + u32 (seed2' + word))))

-- One round of the inner loop: `none` is its `continue`, or a second word that differs.
pub try_signature : ℕ → ℕ → ℕ → ℕ → ℕ → Outcome (Option ℕ)
try_signature i encrypted_first encrypted_second first second = do
  word ← crypt_word (0x400 + i)
  let seed = u32 (u32 (bit_xor encrypted_first first + 2 ^ 32 - 0xEEEEEEEE) + 2 ^ 32 - word)
  if bit_and seed 0xff == i
      then (do
        found ← second_word seed (u32 (0xEEEEEEEE + word)) first encrypted_second
        ok (if found == second then some seed else none))
      else ok none

pub try_signatures : ℕ → ℕ → ℕ → List (ℕ × ℕ) → Outcome (Option ℕ)
try_signatures i encrypted_first encrypted_second [] = ok none
try_signatures i encrypted_first encrypted_second ((first, second) ∷ known) = do
  found ← try_signature i encrypted_first encrypted_second first second
  elim found [
    | some key ↦ ok (some key)
    | none ↦ try_signatures i encrypted_first encrypted_second known
  ]

-- The outer loop, with the rounds left.
pub detect_loop : ℕ → ℕ → ℕ → ℕ → List (ℕ × ℕ) → Outcome ℕ
detect_loop zero i encrypted_first encrypted_second known = err decrypt_error
detect_loop (suc left) i encrypted_first encrypted_second known = do
  found ← try_signatures i encrypted_first encrypted_second known
  elim found [
    | some key ↦ ok key
    | none ↦ detect_loop left (i + 1) encrypted_first encrypted_second known
  ]

-- The result is what is written to `*key`; on an error nothing is written.
pub detect_file_key : Pointer → ℕ → ℕ → Option ℕ → Outcome ℕ
detect_file_key in_buf in_size file_size key =
    if is_null in_buf || is_null key || ltb in_size 8 then err decrypt_error else do
      encrypted_first ← load_le32 in_buf
      encrypted_second ← load_le32 (advance in_buf 4)
      detect_loop 0x100 0 encrypted_first encrypted_second (known_words file_size)

-- One round of the search for the seed of a sector-offset table.
pub try_low_byte : ℕ → ℕ → ℕ → ℕ → ℕ → Outcome (Option ℕ)
try_low_byte i encrypted_first encrypted_second in_size block_size = do
  let temp = u32 (bit_xor encrypted_first in_size + 2 ^ 32 - 0xEEEEEEEE)
  word ← crypt_word (0x400 + i)
  let seed1 = u32 (temp + 2 ^ 32 - word)
  word' ← crypt_word (0x400 + bit_and seed1 0xff)
  let seed2 = u32 (0xEEEEEEEE + word')
  let ch = bit_xor encrypted_first (u32 (seed1 + seed2))
  if ch == in_size
      then (do
        ch' ← second_word seed1 seed2 ch encrypted_second
        ok (if leb (u32 (ch' + 2 ^ 32 - ch)) block_size then some (u32 (seed1 + 1)) else none))
      else ok none

pub derive_loop : ℕ → ℕ → ℕ → ℕ → ℕ → ℕ → Outcome ℕ
derive_loop zero i encrypted_first encrypted_second in_size block_size = err decrypt_error
derive_loop (suc left) i encrypted_first encrypted_second in_size block_size = do
  found ← try_low_byte i encrypted_first encrypted_second in_size block_size
  elim found [
    | some key ↦ ok key
    | none ↦ derive_loop left (i + 1) encrypted_first encrypted_second in_size block_size
  ]

pub derive_block_table_seed : Pointer → ℕ → ℕ → Option ℕ → Outcome ℕ
derive_block_table_seed in_buf in_size block_size key =
    if is_null in_buf || is_null key || ltb in_size 8 then err decrypt_error else do
      encrypted_first ← load_le32 in_buf
      encrypted_second ← load_le32 (advance in_buf 4)
      derive_loop 0x100 0 encrypted_first encrypted_second in_size block_size

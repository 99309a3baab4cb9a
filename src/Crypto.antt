-- ===== src/Crypto.antt =====
-- The string hash and the block cipher, src/mpq-crypto.c.
pub mod Table
pub mod Words
pub mod Cipher
pub mod Recovery
pub mod StringHash
pub mod Known
mod Runs
use libmpq.Base.{
  ℕ, zero, suc, ◌+◌, ◌-◌, ◌*◌, ◌/◌, ◌%◌, ◌^◌, bit_and, bit_or, bit_xor, List, [], ◌∷◌, some,
  Outcome, ok, fault, or_fault, at_offset, ◌>>=◌, get_elem?, u32, ◌<<<◌, ◌>>>◌,
}
use libmpq.Endian.{load_le32, store_le32}
use Table.{crypt_buf}

-- `crypt_buf[i]`.
pub crypt_word : ℕ → Outcome ℕ
crypt_word i = or_fault (get_elem? crypt_buf i)

-- `((~seed << 0x15) + 0x11111111) | (seed >> 0x0B)` on `uint32_t`.
pub next_seed : ℕ → ℕ
next_seed seed = bit_or (u32 (u32 ((2 ^ 32 - 1 - seed) <<< 0x15) + 0x11111111)) (seed >>> 0x0b)

-- `value + seed2 + (seed2 << 5) + 3` on `uint32_t`.
pub next_seed2 : ℕ → ℕ → ℕ
next_seed2 value seed2 = u32 (value + seed2 + u32 (seed2 <<< 5) + 3)

-- The loops run on the bytes left, `in_size`, and on the memory from `in_buf` on.
pub encrypt_words : ℕ → ℕ → ℕ → List ℕ → Outcome (List ℕ)
encrypt_words (suc (suc (suc (suc n)))) seed seed2 in_buf = do
  word ← crypt_word (0x400 + bit_and seed 0xff)
  let seed2' = u32 (seed2 + word)
  value ← load_le32 (some in_buf)
  let ch = bit_xor value (u32 (seed + seed2'))
  out ← store_le32 ch in_buf
  at_offset 4 (encrypt_words n (next_seed seed) (next_seed2 value seed2')) out
encrypt_words _ seed seed2 in_buf = ok in_buf

pub decrypt_words : ℕ → ℕ → ℕ → List ℕ → Outcome (List ℕ)
decrypt_words (suc (suc (suc (suc n)))) seed seed2 in_buf = do
  word ← crypt_word (0x400 + bit_and seed 0xff)
  let seed2' = u32 (seed2 + word)
  value ← load_le32 (some in_buf)
  let ch = bit_xor value (u32 (seed + seed2'))
  out ← store_le32 ch in_buf
  at_offset 4 (decrypt_words n (next_seed seed) (next_seed2 ch seed2')) out
decrypt_words _ seed seed2 in_buf = ok in_buf

pub encrypt_block : List ℕ → ℕ → ℕ → Outcome (List ℕ)
encrypt_block in_buf in_size seed = encrypt_words in_size seed 0xEEEEEEEE in_buf

pub decrypt_block : List ℕ → ℕ → ℕ → Outcome (List ℕ)
decrypt_block in_buf in_size seed = decrypt_words in_size seed 0xEEEEEEEE in_buf

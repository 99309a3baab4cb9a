-- ===== src/Crypto/Cipher.antt =====
-- Decryption undoes encryption, src/mpq-crypto.c.
use libmpq.Base.{
  ℕ, zero, suc, ◌+◌, ◌-◌, ◌%◌, ◌≤◌, ◌≡◌, refl, arith, bit_or, bit_xor, List, ◌∷◌, ok, length, All,
  IsByte, IsU32, u8, u32, ◌>>>◌, ◌<<<◌, drop,
}
use libmpq.Base.Bits.{xor-lt, xor_cancel}
use libmpq.Endian.{load_le32, store_le32}
use libmpq.Endian.RoundTrip.{split_le32, join_le32}
use libmpq.Crypto.{
  next_seed, next_seed2, encrypt_words, decrypt_words, encrypt_block, decrypt_block,
}
use libmpq.Crypto.Words.{cipher_word}

-- What one word carries: the bytes of `v` are those that were joined.
bytes_of_join :
    (b0 b1 b2 b3 v : ℕ)
    → IsByte b0
    → IsByte b1
    → IsByte b2
    → IsByte b3
    → v ≡ bit_or (bit_or (bit_or b0 (b1 <<< 8)) (b2 <<< 16)) (b3 <<< 24)
    → IsU32 v × (u8 v ≡ b0) × (u8 (v >>> 8) ≡ b1) × (u8 (v >>> 16) ≡ b2) × (u8 (v >>> 24) ≡ b3)
bytes_of_join b0 b1 b2 b3 v h0 h1 h2 h3 e = ground (arith, join_le32 b0 b1 b2 b3)

pub decrypt_words-encrypt_words :
    (n seed seed2 : ℕ) (buf : List ℕ)
    → All IsByte buf
    → n ≤ length buf
    → (out : List ℕ) × (encrypt_words n seed seed2 buf ≡ ok out)
      × (decrypt_words n seed seed2 out ≡ ok buf)
      × (length out ≡ length buf)
      × (drop (n - n % 4) out ≡ drop (n - n % 4) buf)
      × All IsByte out
unfolding encrypt_words decrypt_words load_le32 store_le32
decrypt_words-encrypt_words (suc (suc (suc (suc n)))) seed seed2 (b0 ∷ b1 ∷ b2 ∷ b3 ∷ rest) h k =
    let (word, ew, hw) = cipher_word seed in
    let v : ℕ = bit_or (bit_or (bit_or b0 (b1 <<< 8)) (b2 <<< 16)) (b3 <<< 24) in
    let seed2' : ℕ = u32 (seed2 + word) in
    let key : ℕ = u32 (seed + seed2') in
    let ch : ℕ = bit_xor v key in
    let (hv, v0, v1, v2, v3) = bytes_of_join b0 b1 b2 b3 v h.0 h.1.0 h.1.1.0 h.1.1.1.0 refl in
    let (out, e, d, l, t, by) =
      decrypt_words-encrypt_words n (next_seed seed) (next_seed2 v seed2') rest h.1.1.1.1
        (omega arith) in
    let tail : suc (suc (suc (suc n))) - suc (suc (suc (suc n))) % 4
        ≡ suc (suc (suc (suc (n - n % 4)))) =
      omega arith in
    let hc : IsU32 ch = xor-lt 32 v key hv (omega arith) in
    (
      u8 ch ∷ u8 (ch >>> 8) ∷ u8 (ch >>> 16) ∷ u8 (ch >>> 24) ∷ out,
      rw (ew, e),
      rw (ew, split_le32 ch hc, xor_cancel v key, d, v0, v1, v2, v3),
      omega arith,
      rw tail t,
      (omega arith, (omega arith, (omega arith, (omega arith, by)))),
    )
decrypt_words-encrypt_words zero seed seed2 buf h k = (buf, refl, refl, refl, refl, h)
decrypt_words-encrypt_words (suc zero) seed seed2 buf h k = (buf, refl, refl, refl, refl, h)
decrypt_words-encrypt_words (suc (suc zero)) seed seed2 buf h k = (buf, refl, refl, refl, refl, h)
decrypt_words-encrypt_words (suc (suc (suc zero))) seed seed2 buf h k =
    (buf, refl, refl, refl, refl, h)
decrypt_words-encrypt_words _ seed seed2 _ h k = absurd (omega arith)

-- A block of bytes encrypts under every seed to a block of bytes of its length, whose bytes behind
-- the last whole word of `in_size` are unchanged, and which decrypts under that seed to the block.
pub decrypt_block-encrypt_block :
    (in_buf : List ℕ) (in_size seed : ℕ)
    → All IsByte in_buf
    → in_size ≤ length in_buf
    → (out : List ℕ) × (encrypt_block in_buf in_size seed ≡ ok out)
      × (decrypt_block out in_size seed ≡ ok in_buf)
      × (length out ≡ length in_buf)
      × (drop (in_size - in_size % 4) out ≡ drop (in_size - in_size % 4) in_buf)
      × All IsByte out
unfolding encrypt_block decrypt_block
decrypt_block-encrypt_block in_buf in_size seed h k =
    decrypt_words-encrypt_words in_size seed 0xEEEEEEEE in_buf h k

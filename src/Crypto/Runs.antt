-- ===== src/Crypto/Runs.antt =====
-- Concrete runs of the cipher and of the string hash, src/mpq-crypto.c.
use libmpq.Base.{
  ℕ, ◌-◌, ◌<◌, ◌≡◌, refl, arith, List, [], ◌∷◌, ◌++◌, ok, fault, ◌&&◌, leb, if◌then◌else◌, IsByte,
  IsU32, All, length, drop,
}
use libmpq.Crypto.{encrypt_block, decrypt_block}
use libmpq.Crypto.Cipher.{decrypt_block-encrypt_block}
use libmpq.Crypto.StringHash.{hash_string, hash_string_total}

abbrev seven : List ℕ
seven = 1 ∷ 2 ∷ 3 ∷ 4 ∷ 5 ∷ 6 ∷ 7 ∷ []

decrypt_block-encrypt_block_example :
    (out : List ℕ) × (encrypt_block seven 7 42 ≡ ok out)
    × (decrypt_block out 7 42 ≡ ok seven)
    × (length out ≡ 7)
    × (drop 4 out ≡ 5 ∷ 6 ∷ 7 ∷ [])
    × All IsByte out
decrypt_block-encrypt_block_example =
    decrypt_block-encrypt_block seven 7 42 (ground arith) (omega arith)

-- `toupper` of the C locale.
abbrev toupper : ℕ → ℕ
toupper c = if leb 0x61 c && leb c 0x7A then c - 32 else c

toupper_char : (c : ℕ) → c < 0x80 → toupper c < 0x100
toupper_char c h = ground arith

hash_string_total_example :
    ((hash : ℕ) × (hash_string toupper (0x61 ∷ 0x42 ∷ []) 0x300 ≡ ok hash) × IsU32 hash)
    × (hash_string toupper ((0x61 ∷ 0x42 ∷ []) ++ 0xFF ∷ 0x43 ∷ []) 0 ≡ fault)
hash_string_total_example =
    hash_string_total toupper toupper_char refl (0x61 ∷ 0x42 ∷ []) 0x300 (0x43 ∷ []) (ground arith)
      (omega arith)

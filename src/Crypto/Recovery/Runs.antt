-- ===== src/Crypto/Recovery/Runs.antt =====
-- Concrete searches for a seed, src/mpq-crypto.c.
use libmpq.Base.{ℕ, ◌≡◌, refl, arith, List, [], ◌∷◌, some, ok, IsByte, All}
use libmpq.Crypto.{crypt_word, next_seed, next_seed2}
use libmpq.Crypto.Recovery.{
  known_words, second_word, try_signature, try_signatures, detect_loop, detect_file_key,
  try_low_byte, derive_loop, derive_block_table_seed,
}
use libmpq.Crypto.Recovery.Sound.{Decrypts, AnyOf, detect_file_key-Decrypts}
use libmpq.Crypto.Recovery.Complete.{detect_file_key_finds}
use libmpq.Crypto.Recovery.OffsetTable.{SeedOf, derive_block_table_seed-SeedOf}
use libmpq.Endian.{load_le32}

-- `MZ`, encrypted.
abbrev program : List ℕ
program = 203 ∷ 177 ∷ 205 ∷ 26 ∷ 47 ∷ 146 ∷ 239 ∷ 102 ∷ []

program_key : detect_file_key (some program) 8 100 (some 0) ≡ ok 0x12345600
unfolding detect_file_key detect_loop try_signatures try_signature second_word known_words
    crypt_word next_seed next_seed2 load_le32 libmpq.Crypto.Table.crypt_buf
program_key = refl

program-IsByte : All IsByte program
program-IsByte = ground arith

detect_file_key-Decrypts_example : AnyOf (Decrypts program 0x12345600) (known_words 100)
detect_file_key-Decrypts_example =
    detect_file_key-Decrypts program 8 100 0x12345600 (some 0) program-IsByte (omega arith)
      program_key

detect_file_key_finds_example :
    (found : ℕ) × (detect_file_key (some program) 8 100 (some 0) ≡ ok found)
detect_file_key_finds_example =
    detect_file_key_finds program 8 100 0x12345600 0 program-IsByte (omega arith) (omega arith)
      (omega arith) detect_file_key-Decrypts_example

-- The offsets 16 and 100, encrypted.
abbrev offsets : List ℕ
offsets = 150 ∷ 235 ∷ 93 ∷ 26 ∷ 139 ∷ 55 ∷ 95 ∷ 102 ∷ 0 ∷ 0 ∷ 0 ∷ 0 ∷ 0 ∷ 0 ∷ 0 ∷ 0 ∷ []

offsets_key : derive_block_table_seed (some offsets) 16 4096 (some 0) ≡ ok 0x12345601
unfolding derive_block_table_seed derive_loop try_low_byte second_word crypt_word next_seed
    next_seed2 load_le32 libmpq.Crypto.Table.crypt_buf
offsets_key = refl

derive_block_table_seed-SeedOf_example : SeedOf (Decrypts offsets) 16 4096 0x12345601
derive_block_table_seed-SeedOf_example =
    derive_block_table_seed-SeedOf offsets 16 4096 0x12345601 (some 0) (ground arith) (omega arith)
      offsets_key

-- ===== src/Crypto/Recovery/OffsetTable.antt =====
-- The seed of an encrypted sector-offset table: what a returned key stands for.
use libmpq.Base.{
  ℕ, zero, suc, ◌+◌, ◌-◌, ◌^◌, ◌≤◌, ◌<◌, ◌≡◌, sym, inl, inr, arith, bit_xor, List, ◌∷◌, Option,
  some, ok, u32, length, IsByte, All,
}
use libmpq.Endian.{load_le32}
use libmpq.Crypto.Words.{cipher_word, crypt_word-ok}
use libmpq.Crypto.Recovery.{second_word, try_low_byte, derive_loop, derive_block_table_seed}
use libmpq.Crypto.Recovery.Sound.{
  Decrypts, Recovers, second_word-ok, word_of, found_or-eq-ok, decrypt_two,
}

-- `key` is one above a seed under which the table begins with its own size `in_size`, followed by
-- an offset at most `block_size` behind it.
abbrev pub SeedOf : (ℕ → ℕ → ℕ → Type 0) → ℕ → ℕ → ℕ → Type 0
SeedOf P in_size block_size key =
    (seed next : ℕ) × (key ≡ u32 (seed + 1))
    × P seed in_size next
    × (u32 (next + 2 ^ 32 - in_size) ≤ block_size)

try_low_byte-SeedOf :
    (i e1 e2 in_size block_size key : ℕ)
    → i < 0x100
    → try_low_byte i e1 e2 in_size block_size ≡ ok (some key)
    → SeedOf (λ seed. Recovers seed e1 e2) in_size block_size key
unfolding try_low_byte
try_low_byte-SeedOf i e1 e2 in_size block_size key k h =
    let (w, ew, hw) = crypt_word-ok (0x400 + i) (omega arith) in
    let seed : ℕ = u32 (u32 (bit_xor e1 in_size + 2 ^ 32 - 0xEEEEEEEE) + 2 ^ 32 - w) in
    let (w', ew', hw') = cipher_word seed in
    let ch : ℕ = bit_xor e1 (u32 (seed + u32 (0xEEEEEEEE + w'))) in
    let (v, ev) = second_word-ok seed (u32 (0xEEEEEEEE + w')) ch e2 in
    let facts : (u32 (seed + 1) ≡ key)
        × (ch ≡ in_size)
        × (second_word seed (u32 (0xEEEEEEEE + w')) in_size e2 ≡ ok v)
        × (u32 (v + 2 ^ 32 - in_size) ≤ block_size) =
      ground (arith, ew, ew', ev) in
    (seed, v, sym facts.0, (w', ew', facts.1, facts.2), facts.3)

derive_loop-SeedOf :
    (left i e1 e2 in_size block_size key : ℕ)
    → i + left ≤ 0x100
    → derive_loop left i e1 e2 in_size block_size ≡ ok key
    → SeedOf (λ seed. Recovers seed e1 e2) in_size block_size key
unfolding derive_loop
derive_loop-SeedOf zero i e1 e2 in_size block_size key k h = cc
derive_loop-SeedOf (suc left) i e1 e2 in_size block_size key k h =
    elim (found_or-eq-ok (try_low_byte i e1 e2 in_size block_size) (λ x. x)
      (derive_loop left (i + 1) e1 e2 in_size block_size) h) [
        | inl (k', e, ek) ↦ try_low_byte-SeedOf i e1 e2 in_size block_size key (omega arith) (cc)
        | inr (e, later) ↦
            derive_loop-SeedOf left (i + 1) e1 e2 in_size block_size key (omega arith) later
      ]

-- A key that `derive_block_table_seed` returns for a table of at least `in_size` bytes is one above
-- a seed, modulo 2 ^ 32, that decrypts the first word of the table to `in_size` and the second to an offset which, less `in_size`
-- modulo 2 ^ 32, is at most `block_size`.
pub derive_block_table_seed-SeedOf :
    (buf : List ℕ) (in_size block_size key : ℕ) (old : Option ℕ)
    → All IsByte buf
    → in_size ≤ length buf
    → derive_block_table_seed (some buf) in_size block_size old ≡ ok key
    → SeedOf (Decrypts buf) in_size block_size key
unfolding derive_block_table_seed load_le32
derive_block_table_seed-SeedOf (b0 ∷ b1 ∷ b2 ∷ b3 ∷ b4 ∷ b5 ∷ b6 ∷ b7 ∷ rest) in_size block_size key
      (some _) h k e =
    let (seed, next, ek, r, d) =
      derive_loop-SeedOf 0x100 0 (word_of b0 b1 b2 b3) (word_of b4 b5 b6 b7) in_size block_size key
        (omega arith) (ground arith) in
    (
      seed,
      next,
      ek,
      decrypt_two b0 b1 b2 b3 b4 b5 b6 b7 rest seed r.0 in_size next h r.1 r.2 r.3,
      d,
    )
derive_block_table_seed-SeedOf _ in_size block_size key _ h k e = absurd (ground arith)

-- ===== src/Crypto/StringHash.antt =====
-- `libmpq__crypto_hash_string` of src/mpq-crypto.c.
use libmpq.Base.{
  ℕ, ◌+◌, ◌-◌, ◌^◌, ◌≤◌, ◌<◌, ◌≡◌, refl, ◌∙◌, arith, bit_xor, List, [], ◌∷◌, ◌++◌, Outcome, ok,
  fault, ◌>>=◌, u32, ◌<<<◌, All, IsU32, ltb, if◌then◌else◌,
}
use libmpq.Base.Bits.{xor-lt}
use libmpq.Crypto.{crypt_word}
use libmpq.Crypto.Words.{crypt_word-ok, crypt_word-fault}

-- `*key++` as the `int` that `toupper` takes, by its two's complement pattern of 32 bits: `char` is
-- signed, so a byte from 0x80 on is a negative number.
abbrev pub char_int : ℕ → ℕ
char_int c = if ltb c 0x80 then c else c + (2 ^ 32 - 0x100)

-- `EOF`, which is -1, by its pattern.
abbrev pub eof : ℕ
eof = 0xFFFFFFFF

-- `toupper` is the C library's, from an `int` to an `int`, each by its pattern. A key is the list of
-- its bytes before the NUL.
module _ (toupper : ℕ → ℕ) where
  unfoldable pub hash_loop : List ℕ → ℕ → ℕ → ℕ → Outcome ℕ
  hash_loop [] offset seed1 seed2 = ok seed1
  hash_loop (c ∷ key) offset seed1 seed2 = do
    let ch = toupper (char_int c)
    word ← crypt_word (u32 (offset + ch))
    let seed1' = bit_xor word (u32 (seed1 + seed2))
    hash_loop key offset seed1' (u32 (ch + seed1' + seed2 + u32 (seed2 <<< 5) + 3))

  unfoldable pub hash_string : List ℕ → ℕ → Outcome ℕ
  hash_string key offset = hash_loop key offset 0x7FED7FED 0xEEEEEEEE

  -- One character below 0x80: the hash goes on with words.
  hash_loop_char :
      ((c : ℕ) → c < 0x80 → toupper c < 0x100)
      → (c : ℕ) (key : List ℕ) (offset seed1 seed2 : ℕ) → c < 0x80
      → offset ≤ 0x400
      → (next1 : ℕ) × (next2 : ℕ) × (hash_loop (c ∷ key) offset seed1 seed2
          ≡ hash_loop key offset next1 next2)
        × IsU32 next1
  unfolding hash_loop
  hash_loop_char up c key offset seed1 seed2 h k =
      let plain : char_int c ≡ c = ground arith in
      let (w, ew, hw) = crypt_word-ok (u32 (offset + toupper c)) (omega (arith, up c h)) in
      let mix : ℕ = u32 (seed1 + seed2) in
      let seed1' : ℕ = bit_xor w mix in
      (
        seed1',
        u32 (toupper c + seed1' + seed2 + u32 (seed2 <<< 5) + 3),
        rw (plain, ew) refl,
        xor-lt 32 w mix hw (omega arith),
      )

  hash_loop_total :
      ((c : ℕ) → c < 0x80 → toupper c < 0x100)
      → (key : List ℕ) (offset seed1 seed2 : ℕ) → All (λ c. c < 0x80) key
      → offset ≤ 0x400
      → IsU32 seed1
      → (hash : ℕ) × (hash_loop key offset seed1 seed2 ≡ ok hash) × IsU32 hash
  unfolding hash_loop
  hash_loop_total up [] offset seed1 seed2 h k s = (seed1, refl, s)
  hash_loop_total up (c ∷ key) offset seed1 seed2 h k s =
      let (next1, next2, e, s') = hash_loop_char up c key offset seed1 seed2 h.0 k in
      let (hash, eh, sh) = hash_loop_total up key offset next1 next2 h.1 k s' in (hash, e ∙ eh, sh)

  hash_loop-eof :
      ((c : ℕ) → c < 0x80 → toupper c < 0x100)
      → toupper eof ≡ eof
      → (key back : List ℕ) (seed1 seed2 : ℕ) → All (λ c. c < 0x80) key
      → hash_loop (key ++ 0xFF ∷ back) 0 seed1 seed2 ≡ fault
  unfolding hash_loop
  hash_loop-eof up same [] back seed1 seed2 h = rw (same, crypt_word-fault eof (omega arith)) refl
  hash_loop-eof up same (c ∷ key) back seed1 seed2 h =
      let (next1, next2, e, s) =
        hash_loop_char up c (key ++ 0xFF ∷ back) 0 seed1 seed2 h.0 (omega arith) in
      e ∙ hash_loop-eof up same key back next1 next2 h.1

  -- For a `toupper` that takes characters below 0x80 to bytes and EOF to itself, and a key of
  -- characters below 0x80: at every phase up to 0x400, its hash reads inside the table and is a
  -- `uint32_t`; and at phase 0, the hash of the key with a byte 0xFF and any others behind it reads
  -- outside the table, where `char` is signed.
  pub hash_string_total :
      ((c : ℕ) → c < 0x80 → toupper c < 0x100)
      → toupper eof ≡ eof
      → (key : List ℕ) (offset : ℕ) (back : List ℕ) → All (λ c. c < 0x80) key
      → offset ≤ 0x400
      → ((hash : ℕ) × (hash_string key offset ≡ ok hash) × IsU32 hash)
        × (hash_string (key ++ 0xFF ∷ back) 0 ≡ fault)
  unfolding hash_string
  hash_string_total up same key offset back h k = (
    hash_loop_total up key offset 0x7FED7FED 0xEEEEEEEE h k (omega arith),
    hash_loop-eof up same key back 0x7FED7FED 0xEEEEEEEE h,
  )

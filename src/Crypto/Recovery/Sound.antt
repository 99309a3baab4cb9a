-- ===== src/Crypto/Recovery/Sound.antt =====
-- A recovered seed decrypts the beginning of the payload to what the search looks for.
use libmpq.Base.{
  ℕ, zero, suc, ◌+◌, ◌-◌, ◌^◌, ◌≤◌, ◌≡◌, refl, ap, ◌∙◌, ◌⊎◌, inl, inr, arith, bit_and, bit_or,
  bit_xor, List, [], ◌∷◌, Option, none, some, Outcome, ok, err, fault, ◌>>=◌, u32, drop, length,
  IsByte, IsU32, All, ◌<<<◌,
}
use libmpq.Base.Bits.{xor-lt, xor_cancel_left}
use libmpq.Endian.{load_le32, store_le32}
use libmpq.Endian.RoundTrip.{split_le32, join_le32, le32_bytes}
use libmpq.Crypto.{crypt_word, next_seed, next_seed2, decrypt_words, decrypt_block}
use libmpq.Crypto.Words.{cipher_word, crypt_word-ok}
use libmpq.Crypto.Recovery.{
  known_words, second_word, try_signature, try_signatures, detect_loop, detect_file_key,
}

-- The first two words of `buf` decrypt under `key` to `first` and `second`.
abbrev pub Decrypts : List ℕ → ℕ → ℕ → ℕ → Type 0
Decrypts buf key first second =
    (out : List ℕ) × (decrypt_block buf 8 key ≡ ok out)
    × (load_le32 (some out) ≡ ok first)
    × (load_le32 (some (drop 4 out)) ≡ ok second)

-- One of the pairs satisfies `P`.
abbrev pub AnyOf : (ℕ → ℕ → Type 0) → List (ℕ × ℕ) → Type 0
AnyOf P [] = ⊥
AnyOf P ((a, b) ∷ rest) = P a b ⊎ AnyOf P rest

abbrev pub word_of : ℕ → ℕ → ℕ → ℕ → ℕ
word_of b0 b1 b2 b3 = bit_or (bit_or (bit_or b0 (b1 <<< 8)) (b2 <<< 16)) (b3 <<< 24)

pub word_of-IsU32 :
    (b0 b1 b2 b3 : ℕ) → IsByte b0 → IsByte b1 → IsByte b2 → IsByte b3 → IsU32 (word_of b0 b1 b2 b3)
word_of-IsU32 b0 b1 b2 b3 h0 h1 h2 h3 = omega (arith, join_le32 b0 b1 b2 b3 h0 h1 h2)

-- What `second_word` computes is what the cipher makes of the second word.
second_value :
    (key w first second e2 w' : ℕ)
    → crypt_word (0x400 + bit_and (next_seed key) 0xff) ≡ ok w'
    → second_word key (u32 (0xEEEEEEEE + w)) first e2 ≡ ok second
    → bit_xor e2 (u32 (next_seed key + u32 (next_seed2 first (u32 (0xEEEEEEEE + w)) + w'))) ≡ second
unfolding second_word
second_value key w first second e2 w' ew es = cc (rw ew at es)

pub decrypt_two :
    (b0 b1 b2 b3 b4 b5 b6 b7 : ℕ) (rest : List ℕ) (key w first second : ℕ)
    → All IsByte (b0 ∷ b1 ∷ b2 ∷ b3 ∷ b4 ∷ b5 ∷ b6 ∷ b7 ∷ rest)
    → crypt_word (0x400 + bit_and key 0xff) ≡ ok w
    → bit_xor (word_of b0 b1 b2 b3) (u32 (key + u32 (0xEEEEEEEE + w))) ≡ first
    → second_word key (u32 (0xEEEEEEEE + w)) first (word_of b4 b5 b6 b7) ≡ ok second
    → Decrypts (b0 ∷ b1 ∷ b2 ∷ b3 ∷ b4 ∷ b5 ∷ b6 ∷ b7 ∷ rest) key first second
unfolding second_word decrypt_block decrypt_words load_le32 store_le32
decrypt_two b0 b1 b2 b3 b4 b5 b6 b7 rest key w first second h ew ef es =
    let (w', ew', hw') = cipher_word (next_seed key) in
    let e1 : ℕ = word_of b0 b1 b2 b3 in
    let hf : IsU32 first = rw (← ef) (
      xor-lt 32 e1 (u32 (key + u32 (0xEEEEEEEE + w)))
        (word_of-IsU32 b0 b1 b2 b3 h.0 h.1.0 h.1.1.0 h.1.1.1.0) (omega arith)) in
    let mask : ℕ = u32 (next_seed key + u32 (next_seed2 first (u32 (0xEEEEEEEE + w)) + w')) in
    let es' : bit_xor (word_of b4 b5 b6 b7) mask ≡ second =
      second_value key w first second (word_of b4 b5 b6 b7) w' ew' es in
    let hs : IsU32 second = rw (← es') (
      xor-lt 32 (word_of b4 b5 b6 b7) mask
        (word_of-IsU32 b4 b5 b6 b7 h.1.1.1.1.0 h.1.1.1.1.1.0 h.1.1.1.1.1.1.0 h.1.1.1.1.1.1.1.0)
        (omega arith)) in
    (
      le32_bytes first (le32_bytes second rest),
      rw (ew, ef, ew', es') refl,
      ap ok (split_le32 first hf),
      ap ok (split_le32 second hs),
    )

pub second_word-ok : (seed seed2 first e2 : ℕ) → (v : ℕ) × (second_word seed seed2 first e2 ≡ ok v)
unfolding second_word
second_word-ok seed seed2 first e2 =
    let (w, ew, hw) = cipher_word (next_seed seed) in
    (bit_xor e2 (u32 (next_seed seed + u32 (next_seed2 first seed2 + w))), rw ew refl)

-- What the search has checked of a key that it returns.
abbrev pub Recovers : ℕ → ℕ → ℕ → ℕ → ℕ → Type 0
Recovers key e1 e2 first second =
    (w : ℕ) × (crypt_word (0x400 + bit_and key 0xff) ≡ ok w)
    × (bit_xor e1 (u32 (key + u32 (0xEEEEEEEE + w))) ≡ first)
    × (second_word key (u32 (0xEEEEEEEE + w)) first e2 ≡ ok second)

-- The seed that the search computes undoes the first word's key.
seed_undo :
    (x w : ℕ)
    → IsU32 x
    → IsU32 w
    → u32 (u32 (u32 (x + 2 ^ 32 - 0xEEEEEEEE) + 2 ^ 32 - w) + u32 (0xEEEEEEEE + w)) ≡ x
seed_undo x w hx hw = omega arith

try_signature-Recovers :
    (i e1 e2 first second w key : ℕ)
    → IsU32 e1
    → IsU32 first
    → crypt_word (0x400 + i) ≡ ok w
    → IsU32 w
    → try_signature i e1 e2 first second ≡ ok (some key)
    → Recovers key e1 e2 first second
unfolding try_signature
try_signature-Recovers i e1 e2 first second w key h1 hf ew hw h =
    let x : ℕ = bit_xor e1 first in
    let hx : IsU32 x = xor-lt 32 e1 first h1 hf in
    let seed : ℕ = u32 (u32 (x + 2 ^ 32 - 0xEEEEEEEE) + 2 ^ 32 - w) in
    let (v, ev) = second_word-ok seed (u32 (0xEEEEEEEE + w)) first e2 in
    let facts : (seed ≡ key) × (bit_and seed 0xff ≡ i) × (v ≡ second) = ground (arith, ew, ev) in
    let e : bit_xor e1 (u32 (seed + u32 (0xEEEEEEEE + w))) ≡ first =
      ap (bit_xor e1) (seed_undo x w hx hw) ∙ xor_cancel_left e1 first in
    (w, rw (← facts.0, facts.1) ew, rw (← facts.0) e, rw (← facts.0, ev, facts.2) refl)

abbrev pub FirstWords : List (ℕ × ℕ) → Type 0
FirstWords [] = Unit {0}
FirstWords ((first, second) ∷ rest) = IsU32 first × FirstWords rest

pub found_or-eq-ok {ℓ κ} :
    {A : Type ℓ} {B : Type κ} (m : Outcome (Option A)) (f : A → B) (rest : Outcome B) {b : B}
    → (m >>= λ o. elim o [ some k ↦ ok (f k) | none ↦ rest ]) ≡ ok b
    → ((k : A) × (m ≡ ok (some k)) × (f k ≡ b)) ⊎ ((m ≡ ok none) × (rest ≡ ok b))
found_or-eq-ok (ok (some k)) f rest h = inl (k, refl, cc)
found_or-eq-ok (ok none) f rest h = inr (refl, h)
found_or-eq-ok (err e) f rest h = cc
found_or-eq-ok fault f rest h = cc

try_signatures-Recovers :
    (i e1 e2 : ℕ) (known : List (ℕ × ℕ)) (w key : ℕ)
    → IsU32 e1
    → FirstWords known
    → crypt_word (0x400 + i) ≡ ok w
    → IsU32 w
    → try_signatures i e1 e2 known ≡ ok (some key)
    → AnyOf (Recovers key e1 e2) known
unfolding try_signatures
try_signatures-Recovers i e1 e2 [] w key h1 hf ew hw h = cc
try_signatures-Recovers i e1 e2 ((first, second) ∷ known) w key h1 hf ew hw h =
    elim (found_or-eq-ok (try_signature i e1 e2 first second) some (try_signatures i e1 e2 known)
      h) [
        | inl (k, e, ek) ↦
            inl (try_signature-Recovers i e1 e2 first second w key h1 hf.0 ew hw (cc))
        | inr (e, later) ↦ inr (try_signatures-Recovers i e1 e2 known w key h1 hf.1 ew hw later)
      ]

detect_loop-Recovers :
    (left i e1 e2 : ℕ) (known : List (ℕ × ℕ)) (key : ℕ)
    → i + left ≤ 0x100
    → IsU32 e1
    → FirstWords known
    → detect_loop left i e1 e2 known ≡ ok key
    → AnyOf (Recovers key e1 e2) known
unfolding detect_loop
detect_loop-Recovers zero i e1 e2 known key k h1 hf h = cc
detect_loop-Recovers (suc left) i e1 e2 known key k h1 hf h =
    let (w, ew, hw) = crypt_word-ok (0x400 + i) (omega arith) in
    elim (found_or-eq-ok (try_signatures i e1 e2 known) (λ x. x)
      (detect_loop left (i + 1) e1 e2 known) h) [
        | inl (k', e, ek) ↦ try_signatures-Recovers i e1 e2 known w key h1 hf ew hw (cc)
        | inr (e, later) ↦
            detect_loop-Recovers left (i + 1) e1 e2 known key (omega arith) h1 hf later
      ]

pub AnyOf-map :
    (P Q : ℕ → ℕ → Type 0)
    → ((a b : ℕ) → P a b → Q a b)
    → (pairs : List (ℕ × ℕ)) → AnyOf P pairs
    → AnyOf Q pairs
AnyOf-map P Q f [] h = h
AnyOf-map P Q f ((a, b) ∷ rest) (inl h) = inl (f a b h)
AnyOf-map P Q f ((a, b) ∷ rest) (inr h) = inr (AnyOf-map P Q f rest h)

pub known_words-FirstWords : (file_size : ℕ) → FirstWords (known_words file_size)
unfolding known_words
known_words-FirstWords file_size = (omega arith, (omega arith, (omega arith, (omega arith, tt))))

-- A key that `detect_file_key` returns for a payload of at least `in_size` bytes decrypts its first
-- two words to one of the four known beginnings.
pub detect_file_key-Decrypts :
    (buf : List ℕ) (in_size file_size key : ℕ) (old : Option ℕ)
    → All IsByte buf
    → in_size ≤ length buf
    → detect_file_key (some buf) in_size file_size old ≡ ok key
    → AnyOf (Decrypts buf key) (known_words file_size)
unfolding detect_file_key load_le32
detect_file_key-Decrypts (b0 ∷ b1 ∷ b2 ∷ b3 ∷ b4 ∷ b5 ∷ b6 ∷ b7 ∷ rest) in_size file_size key
      (some _) h k e =
    AnyOf-map (Recovers key (word_of b0 b1 b2 b3) (word_of b4 b5 b6 b7)) _
      (λ a b r. decrypt_two b0 b1 b2 b3 b4 b5 b6 b7 rest key r.0 a b h r.1 r.2 r.3)
      (known_words file_size)
      (detect_loop-Recovers 0x100 0 (word_of b0 b1 b2 b3) (word_of b4 b5 b6 b7)
        (known_words file_size) key (omega arith)
        (word_of-IsU32 b0 b1 b2 b3 h.0 h.1.0 h.1.1.0 h.1.1.1.0) (known_words-FirstWords file_size)
        (ground arith))
detect_file_key-Decrypts _ in_size file_size key _ h k e = absurd (ground arith)

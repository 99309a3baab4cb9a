-- ===== src/Crypto/Words.antt =====
-- The encryption table: how long it is, and that its entries are words.
use libmpq.Base.{
  ℕ, zero, suc, ◌+◌, ◌<◌, ◌≤◌, ◌≡◌, refl, arith, bit_and, Bool, true, List, [], ◌∷◌, none, some, ok,
  fault, get_elem?, length, ltb, ◌&&◌, All, IsU32, ◌^◌,
}
use libmpq.Base.Bits.{and-le}
use libmpq.Crypto.Table.{crypt_buf}
use libmpq.Crypto.{crypt_word}

module _ {κ} (P : ℕ → Type κ) where
  get_elem?-All :
      (xs : List ℕ) (i : ℕ) → All P xs → i < length xs → (x : ℕ) × (get_elem? xs i ≡ some x) × P x
  get_elem?-All [] i h k = elim k [ ]
  get_elem?-All (x ∷ xs) zero h k = (x, refl, h.0)
  get_elem?-All (x ∷ xs) (suc i) h k = get_elem?-All xs i h.1 (omega arith)

all_words : List ℕ → Bool
all_words [] = true
all_words (x ∷ xs) = ltb x (2 ^ 32) && all_words xs

all_words_sound : (xs : List ℕ) → all_words xs ≡ true → All IsU32 xs
unfolding all_words
all_words_sound [] h = tt
all_words_sound (x ∷ xs) h = (ground arith, all_words_sound xs (ground arith))

table_words : all_words crypt_buf ≡ true
unfolding all_words crypt_buf
table_words = refl

table_length : length crypt_buf ≡ 0x500
unfolding crypt_buf
table_length = refl

-- Below 0x500 the table has an entry, a `uint32_t`.
pub crypt_word-ok : (i : ℕ) → i < 0x500 → (w : ℕ) × (crypt_word i ≡ ok w) × IsU32 w
unfolding crypt_word
crypt_word-ok i h =
    let (w, e, u) =
      get_elem?-All IsU32 crypt_buf i (all_words_sound crypt_buf table_words)
        (omega (arith, table_length)) in
    (w, rw e, u)

get_elem?_beyond : (xs : List ℕ) (i : ℕ) → length xs ≤ i → get_elem? xs i ≡ none
get_elem?_beyond [] i h = refl
get_elem?_beyond (x ∷ xs) zero h = absurd (omega arith)
get_elem?_beyond (x ∷ xs) (suc i) h = get_elem?_beyond xs i (omega arith)

-- From 0x500 on there is nothing to read.
pub crypt_word-fault : (i : ℕ) → 0x500 ≤ i → crypt_word i ≡ fault
unfolding crypt_word
crypt_word-fault i h = rw (get_elem?_beyond crypt_buf i (omega (arith, table_length)))

-- The cipher's index lies in the last of the five runs.
pub cipher_word : (seed : ℕ) → (w : ℕ) × (crypt_word (0x400 + bit_and seed 0xff) ≡ ok w) × IsU32 w
cipher_word seed = crypt_word-ok (0x400 + bit_and seed 0xff) (omega (arith, and-le seed 0xff))

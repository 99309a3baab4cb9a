-- ===== src/Endian/Words.antt =====
-- Runs of little-endian words at the front of a buffer, as src/mpq-md5.c and src/mpq-mpqe.c load and
-- store them.
use libmpq.Base.{
  ℕ, zero, suc, ◌*◌, ◌≤◌, ◌≡◌, refl, ap, ◌∙◌, arith, List, [], ◌∷◌, ◌++◌, some, Outcome, ok,
  at_offset, ◌>>=◌, length, drop, All, IsByte, IsU32,
}
use libmpq.Base.Lists.{length-drop}
use libmpq.Endian.{load_le32, store_le32}
use libmpq.Endian.RoundTrip.{le32_bytes, split_le32, load_le32_total, store_le32-load_le32}

unfoldable pub load_words : ℕ → List ℕ → Outcome (List ℕ)
load_words zero block = ok []
load_words (suc left) block = do
  word ← load_le32 (some block)
  words ← load_words left (drop 4 block)
  ok (word ∷ words)

pub store_words : List ℕ → List ℕ → Outcome (List ℕ)
store_words [] block = ok block
store_words (word ∷ words) block = do
  block' ← store_le32 word block
  at_offset 4 (store_words words) block'

abbrev pub words_bytes : List ℕ → List ℕ
words_bytes [] = []
words_bytes (word ∷ words) = le32_bytes word (words_bytes words)

pub load_words_total :
    (left : ℕ) (block : List ℕ)
    → left * 4 ≤ length block
    → (words : List ℕ) × (load_words left block ≡ ok words) × (length words ≡ left)
unfolding load_words
load_words_total zero block h = ([], refl, refl)
load_words_total (suc left) block h =
    let (word, e) = load_le32_total block (omega arith) in
    let (words, es, l) =
      load_words_total left (drop 4 block) (omega (arith, length-drop 4 block)) in
    (word ∷ words, rw (e, es), ap suc l)

-- A store puts the bytes of the words at the front, whatever stood there.
pub store_words_lem :
    (words old rest : List ℕ)
    → length old ≡ length words * 4
    → store_words words (old ++ rest) ≡ ok (words_bytes words ++ rest)
unfolding store_words store_le32
store_words_lem [] [] rest h = refl
store_words_lem [] (x ∷ old) rest h = absurd (omega arith)
store_words_lem (word ∷ words) (b0 ∷ b1 ∷ b2 ∷ b3 ∷ old) rest h =
    rw (store_words_lem words old rest (omega arith))
store_words_lem (word ∷ words) _ rest h = absurd (omega arith)

-- Stored words are what a load reads.
pub load_words-words_bytes :
    (words rest : List ℕ)
    → All IsU32 words
    → load_words (length words) (words_bytes words ++ rest) ≡ ok words
unfolding load_words load_le32
load_words-words_bytes [] rest h = refl
load_words-words_bytes (word ∷ words) rest h =
    rw (split_le32 word h.0, load_words-words_bytes words rest h.1)

stored :
    (v b0 b1 b2 b3 : ℕ) (rest : List ℕ) {out : List ℕ}
    → store_le32 v (b0 ∷ b1 ∷ b2 ∷ b3 ∷ rest) ≡ ok out
    → out ≡ le32_bytes v rest
unfolding store_le32
stored v b0 b1 b2 b3 rest e = cc

-- Loaded bytes are those of the words.
pub load_words_inv :
    (n : ℕ) (block : List ℕ)
    → All IsByte block
    → length block ≡ n * 4
    → (words : List ℕ) × (load_words n block ≡ ok words)
      × (length words ≡ n)
      × All IsU32 words
      × (block ≡ words_bytes words)
unfolding load_words
load_words_inv zero [] h l = ([], refl, refl, tt, refl)
load_words_inv zero (x ∷ block) h l = absurd (omega arith)
load_words_inv (suc n) (b0 ∷ b1 ∷ b2 ∷ b3 ∷ block) h l =
    let (v, e) = load_le32_total (b0 ∷ b1 ∷ b2 ∷ b3 ∷ block) (omega arith) in
    let (u, s) =
      store_le32-load_le32 b0 b1 b2 b3 block (h.0, (h.1.0, (h.1.1.0, (h.1.1.1.0, tt)))) e in
    let (words, es, lw, us, eb) = load_words_inv n block h.1.1.1.1 (omega arith) in
    (v ∷ words, rw (e, es), ap suc lw, (u, us), stored v b0 b1 b2 b3 block s ∙ ap (le32_bytes v) eb)
load_words_inv (suc n) _ h l = absurd (omega arith)

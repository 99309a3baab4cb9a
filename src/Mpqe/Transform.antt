-- ===== src/Mpqe/Transform.antt =====
-- The chunks of an MPQE stream, `libmpq__mpqe_transform_chunk` of src/mpq-mpqe.c.
use mathlib.Core.List.{append-nil}
use libmpq.Base.{
  ℕ, zero, suc, ◌+◌, ◌*◌, ◌/◌, ◌≤◌, ◌<◌, ◌≡◌, refl, sym, ap, ◌∙◌, arith, bit_xor, ◌&&◌, List, [],
  ◌∷◌, ◌++◌, ok, set, length, replicate, ltb, ltb→lt, All, IsByte, IsU32, u32, ◌>>>◌,
}
use libmpq.Base.Lists.{all-All, get_elem?_lt, length-set}
use libmpq.Base.Bits.{xor_cancel, xor-lt}
use libmpq.Endian.Words.{
  load_words, store_words, words_bytes, load_words_total, store_words_lem, load_words-words_bytes,
  load_words_inv,
}
use libmpq.Mpqe.{
  Quarter, rol32, shuffle, copy_words, double_round, run_quarters, run_rounds, sums, mask_words,
  keystream, xor_words, mpqe_transform_chunk, mpqe_chunk_size,
}

copy_words_total :
    (pairs : List (ℕ × ℕ)) (key_mirror shuffled : List ℕ)
    → length key_mirror ≡ 16
    → All (λ p. p.1 < 16) pairs
    → (out : List ℕ) × (copy_words pairs key_mirror shuffled ≡ ok out)
      × (length out ≡ length shuffled)
unfolding copy_words
copy_words_total [] key_mirror shuffled l h = (shuffled, refl, refl)
copy_words_total ((target, source) ∷ more) key_mirror shuffled l h =
    let (word, e) = get_elem?_lt key_mirror source (omega arith) in
    let (out, eo, lo) = copy_words_total more key_mirror (set shuffled target word) l h.1 in
    (out, rw e eo, lo ∙ length-set shuffled target word)

shuffle_range : All (λ p. p.1 < 16) shuffle
unfolding shuffle
shuffle_range =
    all-All {A = ℕ × ℕ} (λ p. ltb p.1 16) (λ p. p.1 < 16) (λ p h. ltb→lt p.1 16 h) shuffle refl

sums_range : All (λ p. (p.0 < 16) × (p.1 < 16)) sums
unfolding sums
sums_range =
    all-All {A = ℕ × ℕ} (λ p. ltb p.0 16 && ltb p.1 16) (λ p. (p.0 < 16) × (p.1 < 16))
      (λ p h. (ground (arith, h), ground (arith, h))) sums refl

abbrev InRange : Quarter → Type 0
InRange q = (q.left < 16) × ((q.right < 16) × (q.target < 16))

double_round_range : All InRange double_round
unfolding double_round
double_round_range =
    all-All (λ q. ltb q.left 16 && (ltb q.right 16 && ltb q.target 16)) InRange
      (λ q h. (ground (arith, h), (ground (arith, h), ground (arith, h)))) double_round refl

run_quarters_total :
    (qs : List Quarter) (shuffled : List ℕ)
    → length shuffled ≡ 16
    → All InRange qs
    → (out : List ℕ) × (run_quarters qs shuffled ≡ ok out) × (length out ≡ 16)
unfolding run_quarters
run_quarters_total [] shuffled l h = (shuffled, refl, l)
run_quarters_total (q ∷ more) shuffled l h =
    let (left, el) = get_elem?_lt shuffled q.left (omega arith) in
    let (right, er) = get_elem?_lt shuffled q.right (omega arith) in
    let (old, eo) = get_elem?_lt shuffled q.target (omega arith) in
    let new : ℕ = bit_xor old (rol32 (u32 (left + right)) q.count) in
    let (out, e, lo) =
      run_quarters_total more (set shuffled q.target new) (length-set shuffled q.target new ∙ l)
        h.1 in
    (out, rw (el, er, eo) e, lo)

run_rounds_total :
    (left : ℕ) (shuffled : List ℕ)
    → length shuffled ≡ 16
    → (out : List ℕ) × (run_rounds left shuffled ≡ ok out) × (length out ≡ 16)
unfolding run_rounds
run_rounds_total zero shuffled l = (shuffled, refl, l)
run_rounds_total (suc left) shuffled l =
    let (next, e, ln) = run_quarters_total double_round shuffled l double_round_range in
    let (out, eo, lo) = run_rounds_total left next ln in (out, rw e eo, lo)

mask_words_total :
    (pairs : List (ℕ × ℕ)) (shuffled key_mirror : List ℕ)
    → length shuffled ≡ 16
    → length key_mirror ≡ 16
    → All (λ p. (p.0 < 16) × (p.1 < 16)) pairs
    → (masks : List ℕ) × (mask_words pairs shuffled key_mirror ≡ ok masks) × All IsU32 masks
unfolding mask_words
mask_words_total [] shuffled key_mirror ls lk h = ([], refl, tt)
mask_words_total ((left, right) ∷ more) shuffled key_mirror ls lk h =
    let (a, ea) = get_elem?_lt shuffled left (omega arith) in
    let (b, eb) = get_elem?_lt key_mirror right (omega arith) in
    let (masks, e, u) = mask_words_total more shuffled key_mirror ls lk h.1 in
    (u32 (a + b) ∷ masks, rw (ea, eb, e), (omega arith, u))

-- The masks are sixteen words, whatever the offset is.
pub keystream_total :
    (key : List ℕ) (offset : ℕ)
    → 64 ≤ length key
    → (masks : List ℕ) × (keystream key offset ≡ ok masks) × All IsU32 masks
unfolding keystream
keystream_total key offset h =
    let n : ℕ = offset / mpqe_chunk_size in
    let (words, e, l) = load_words_total 16 key (omega arith) in
    let lm : length (set (set words 5 (u32 (n >>> 32))) 8 (u32 n)) ≡ 16 =
      length-set (set words 5 (u32 (n >>> 32))) 8 (u32 n)
      ∙ length-set words 5 (u32 (n >>> 32))
      ∙ l in
    let (start, es, ls) =
      copy_words_total shuffle (set (set words 5 (u32 (n >>> 32))) 8 (u32 n)) (replicate 16 0) lm
        shuffle_range in
    let (shuffled, er, lr) = run_rounds_total 10 start ls in
    let (masks, em, u) =
      mask_words_total sums shuffled (set (set words 5 (u32 (n >>> 32))) 8 (u32 n)) lr lm
        sums_range in
    (masks, rw (e, es, er) em, u)

length-xor_words : (words masks : List ℕ) → length (xor_words words masks) ≡ length words
unfolding xor_words
length-xor_words [] masks = refl
length-xor_words (word ∷ words) [] = refl
length-xor_words (word ∷ words) (mask ∷ masks) = ap suc (length-xor_words words masks)

xor_words_twice : (words masks : List ℕ) → xor_words (xor_words words masks) masks ≡ words
unfolding xor_words
xor_words_twice [] masks = refl
xor_words_twice (word ∷ words) [] = refl
xor_words_twice (word ∷ words) (mask ∷ masks) =
    rw (xor_cancel word mask, xor_words_twice words masks)

xor_words-U32 :
    (words masks : List ℕ) → All IsU32 words → All IsU32 masks → All IsU32 (xor_words words masks)
unfolding xor_words
xor_words-U32 [] masks h k = tt
xor_words-U32 (word ∷ words) [] h k = h
xor_words-U32 (word ∷ words) (mask ∷ masks) h k =
    (xor-lt 32 word mask h.0 k.0, xor_words-U32 words masks h.1 k.1)

words_bytes-IsByte : (words : List ℕ) → All IsByte (words_bytes words)
words_bytes-IsByte [] = tt
words_bytes-IsByte (word ∷ words) =
    (omega arith, (omega arith, (omega arith, (omega arith, words_bytes-IsByte words))))

length-words_bytes : (words : List ℕ) → length (words_bytes words) ≡ length words * 4
length-words_bytes [] = refl
length-words_bytes (word ∷ words) = omega (arith, length-words_bytes words)

-- What a transformation of a chunk of sixteen words gives.
pub transform_words :
    (words masks : List ℕ) (key : List ℕ) (offset : ℕ)
    → keystream key offset ≡ ok masks
    → All IsU32 words
    → length words ≡ 16
    → mpqe_transform_chunk (words_bytes words) key offset ≡ ok (words_bytes (xor_words words masks))
unfolding mpqe_transform_chunk
transform_words words masks key offset e u l =
    let loaded : load_words 16 (words_bytes words) ≡ ok words =
      ap (λ b. load_words 16 b) (sym (append-nil (words_bytes words)))
      ∙ ap (λ n. load_words n (words_bytes words ++ [])) (sym l)
      ∙ load_words-words_bytes words [] u in
    let stored : store_words (xor_words words masks) (words_bytes words)
        ≡ ok (words_bytes (xor_words words masks)) =
      ap (store_words (xor_words words masks)) (sym (append-nil (words_bytes words)))
      ∙ store_words_lem (xor_words words masks) (words_bytes words) []
          (omega (arith, length-words_bytes words, length-xor_words words masks))
      ∙ ap ok (append-nil (words_bytes (xor_words words masks))) in
    rw (e, loaded) stored

-- A chunk of 64 bytes is transformed, under any key of at least 64 bytes and at any offset, to 64
-- bytes, and these are transformed back to the chunk.
pub mpqe_transform_chunk_twice :
    (chunk key : List ℕ) (offset : ℕ)
    → All IsByte chunk
    → length chunk ≡ 64
    → 64 ≤ length key
    → (out : List ℕ) × (mpqe_transform_chunk chunk key offset ≡ ok out)
      × (length out ≡ 64)
      × All IsByte out
      × (mpqe_transform_chunk out key offset ≡ ok chunk)
mpqe_transform_chunk_twice chunk key offset h l room =
    let (masks, e, u) = keystream_total key offset room in
    let (words, el, lw, us, eb) = load_words_inv 16 chunk h l in
    let us' : All IsU32 (xor_words words masks) = xor_words-U32 words masks us u in
    let lx : length (xor_words words masks) ≡ 16 = length-xor_words words masks ∙ lw in
    (
      words_bytes (xor_words words masks),
      ap (λ c. mpqe_transform_chunk c key offset) eb
          ∙ transform_words words masks key offset e us lw,
      length-words_bytes (xor_words words masks) ∙ ap (λ n. n * 4) lx,
      words_bytes-IsByte (xor_words words masks),
      transform_words (xor_words words masks) masks key offset e us' lx
          ∙ ap (λ w. ok (words_bytes w)) (xor_words_twice words masks)
          ∙ ap ok (sym eb),
    )

-- ===== src/Mpqe/Stream.antt =====
-- `libmpq__mpqe_transform_chunk` of src/mpq-mpqe.c computes Salsa20/20.
use libmpq.Base.{
  ℕ, zero, suc, ◌+◌, ◌*◌, ◌/◌, ◌%◌, ◌^◌, ◌≡◌, refl, sym, ap, ◌∙◌, arith, fun_ext, bit_xor, List, [],
  ◌∷◌, ◌++◌, ok, length, All, IsU32, u32,
}
use libmpq.Base.Bits.{shifted_or}
use libmpq.Endian.Words.{load_words, words_bytes, load_words-words_bytes}
use libmpq.Mpqe.{
  rol32, shuffle, copy_words, double_round, run_quarters, run_rounds, sums, mask_words, keystream,
  xor_words, mpqe_transform_chunk,
}
use libmpq.Mpqe.Salsa.{
  Block, block, rotl, quarter_by, quarter_round, double, doubles, words_of, add_each, salsa20,
  counted, masked,
}
use libmpq.Mpqe.Transform.{transform_words}

-- The order of the words in `key_mirror`, and that in `shuffled`.
unfoldable pub keyed : Block → List ℕ
keyed (block y0 y1 y2 y3 y4 y5 y6 y7 y8 y9 y10 y11 y12 y13 y14 y15) =
    y0 ∷ y5 ∷ y10 ∷ y15 ∷ y4 ∷ y9 ∷ y14 ∷ y3 ∷ y8 ∷ y13 ∷ y2 ∷ y7 ∷ y12 ∷ y1 ∷ y6 ∷ y11 ∷ []

arranged : Block → List ℕ
arranged (block y0 y1 y2 y3 y4 y5 y6 y7 y8 y9 y10 y11 y12 y13 y14 y15) =
    y11 ∷ y6 ∷ y12 ∷ y8 ∷ y1 ∷ y10 ∷ y13 ∷ y9 ∷ y2 ∷ y3 ∷ y4 ∷ y14 ∷ y5 ∷ y7 ∷ y0 ∷ y15 ∷ []

run_quarters-arranged :
    (y : Block)
    → run_quarters double_round (arranged y) ≡ ok (arranged (double (quarter_by rol32) y))
unfolding run_quarters double_round arranged
run_quarters-arranged (block y0 y1 y2 y3 y4 y5 y6 y7 y8 y9 y10 y11 y12 y13 y14 y15) = refl

run_rounds-arranged :
    (n : ℕ) (y : Block) → run_rounds n (arranged y) ≡ ok (arranged (doubles (quarter_by rol32) n y))
unfolding run_rounds doubles
run_rounds-arranged zero y = refl
run_rounds-arranged (suc n) y =
    rw (run_quarters-arranged y) (run_rounds-arranged n (double (quarter_by rol32) y))

-- The rotations of the code are those of the specification.
rol32_lem :
    (s : ℕ)
    → (rol32 (u32 s) 7 ≡ rotl (u32 s) 7)
      × (rol32 (u32 s) 9 ≡ rotl (u32 s) 9)
      × (rol32 (u32 s) 13 ≡ rotl (u32 s) 13)
      × (rol32 (u32 s) 18 ≡ rotl (u32 s) 18)
unfolding rol32
rol32_lem s =
    let x : ℕ = u32 s in
    let e7 : u32 (x * 2 ^ 7) ≡ (x % 2 ^ 25) * 2 ^ 7 = omega arith in
    let e9 : u32 (x * 2 ^ 9) ≡ (x % 2 ^ 23) * 2 ^ 9 = omega arith in
    let e13 : u32 (x * 2 ^ 13) ≡ (x % 2 ^ 19) * 2 ^ 13 = omega arith in
    let e18 : u32 (x * 2 ^ 18) ≡ (x % 2 ^ 14) * 2 ^ 18 = omega arith in
    (
      rw e7 (shifted_or 7 (x % 2 ^ 25) (x / 2 ^ 25) (omega arith)),
      rw e9 (shifted_or 9 (x % 2 ^ 23) (x / 2 ^ 23) (omega arith)),
      rw e13 (shifted_or 13 (x % 2 ^ 19) (x / 2 ^ 19) (omega arith)),
      rw e18 (shifted_or 18 (x % 2 ^ 14) (x / 2 ^ 14) (omega arith)),
    )

quarter_same : quarter_by rol32 ≡ quarter_round
quarter_same = fun_ext λ y0. fun_ext λ y1. fun_ext λ y2. fun_ext λ y3.
    let z1 : ℕ = bit_xor y1 (rotl (u32 (y0 + y3)) 7) in
    let z2 : ℕ = bit_xor y2 (rotl (u32 (z1 + y0)) 9) in
    let z3 : ℕ = bit_xor y3 (rotl (u32 (z2 + z1)) 13) in
    rw
      (
        (rol32_lem (y0 + y3)).0,
        (rol32_lem (z1 + y0)).1,
        (rol32_lem (z2 + z1)).2,
        (rol32_lem (z3 + z2)).3,
      )
      refl

-- The last sums, from the two orders of the words.
summed :
    (x y : Block) → mask_words sums (arranged x) (keyed y) ≡ ok (add_each (words_of x) (words_of y))
unfolding mask_words sums arranged keyed words_of add_each
summed (block x0 x1 x2 x3 x4 x5 x6 x7 x8 x9 x10 x11 x12 x13 x14 x15)
      (block y0 y1 y2 y3 y4 y5 y6 y7 y8 y9 y10 y11 y12 y13 y14 y15) =
    refl

-- The masks of a chunk are the words of the block function.
keystream-salsa20 :
    (y : Block) (rest : List ℕ) (offset : ℕ)
    → All IsU32 (keyed y)
    → keystream (words_bytes (keyed y) ++ rest) offset ≡ ok (salsa20 (counted (offset / 64) y))
unfolding keystream keyed arranged copy_words shuffle mask_words sums salsa20 words_of add_each
keystream-salsa20 (block y0 y1 y2 y3 y4 y5 y6 y7 y8 y9 y10 y11 y12 y13 y14 y15) rest offset u =
    let y : Block = block y0 y1 y2 y3 y4 y5 y6 y7 y8 y9 y10 y11 y12 y13 y14 y15 in
    let start : Block = counted (offset / 64) y in
    let loaded : load_words 16 (words_bytes (keyed y) ++ rest) ≡ ok (keyed y) =
      load_words-words_bytes (keyed y) rest u in
    let run : run_rounds 10 (arranged start) ≡ ok (arranged (doubles quarter_round 10 start)) =
      run_rounds-arranged 10 start ∙ ap (λ q. ok (arranged (doubles q 10 start))) quarter_same in
    rw (loaded, run) (summed (doubles quarter_round 10 start) start)

xor_words-masked :
    (words masks : List ℕ)
    → length masks ≡ length words
    → xor_words words masks ≡ masked words masks
unfolding xor_words masked
xor_words-masked [] masks l = refl
xor_words-masked (word ∷ words) [] l = absurd (omega arith)
xor_words-masked (word ∷ words) (mask ∷ masks) l =
    ap (λ rest. bit_xor word mask ∷ rest) (xor_words-masked words masks (omega arith))

length-added : (x y : Block) → length (add_each (words_of x) (words_of y)) ≡ 16
unfolding add_each words_of
length-added (block x0 x1 x2 x3 x4 x5 x6 x7 x8 x9 x10 x11 x12 x13 x14 x15)
      (block y0 y1 y2 y3 y4 y5 y6 y7 y8 y9 y10 y11 y12 y13 y14 y15) =
    refl

length-salsa20 : (y : Block) → length (salsa20 y) ≡ 16
unfolding salsa20
length-salsa20 y = length-added (doubles quarter_round 10 y) y

-- A chunk of sixteen words is transformed, under a key whose first sixteen words are those of a
-- Salsa20 block in the order of the key, to the exclusive or of its words with the words of
-- Salsa20/20 of that block, where the number of the chunk, `offset` / 64, stands in the words 8
-- (its low half) and 9 (its high half) of the block.
pub mpqe_transform_chunk-salsa20 :
    (words : List ℕ) (y : Block) (rest : List ℕ) (offset : ℕ)
    → length words ≡ 16
    → All IsU32 words
    → All IsU32 (keyed y)
    → mpqe_transform_chunk (words_bytes words) (words_bytes (keyed y) ++ rest) offset
      ≡ ok (words_bytes (masked words (salsa20 (counted (offset / 64) y))))
mpqe_transform_chunk-salsa20 words y rest offset l u k =
    let masks : List ℕ = salsa20 (counted (offset / 64) y) in
    let long : length masks ≡ length words = length-salsa20 (counted (offset / 64) y) ∙ sym l in
    transform_words words masks (words_bytes (keyed y) ++ rest) offset
      (keystream-salsa20 y rest offset k) u l
    ∙ ap (λ w. ok (words_bytes w)) (xor_words-masked words masks long)

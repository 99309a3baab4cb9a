-- ===== src/Mpqe/Salsa.antt =====
-- The block function of Salsa20/20, as its specification gives it, which src/mpq-mpqe.c computes on
-- words in another order.
use libmpq.Base.{ℕ, zero, suc, ◌+◌, ◌-◌, ◌*◌, ◌/◌, ◌^◌, bit_xor, List, [], ◌∷◌, u32}

-- Sixteen words.
pub data Block : Type 0 where
  block : (y0 y1 y2 y3 y4 y5 y6 y7 y8 y9 y10 y11 y12 y13 y14 y15 : ℕ) → Block

pub data Quad : Type 0 where
  quad : (z0 z1 z2 z3 : ℕ) → Quad

-- The rotation of a word of 32 bits.
abbrev pub rotl : ℕ → ℕ → ℕ
rotl x c = u32 (x * 2 ^ c) + x / 2 ^ (32 - c)

-- The quarter round, with a given rotation.
abbrev pub quarter_by : (ℕ → ℕ → ℕ) → ℕ → ℕ → ℕ → ℕ → Quad
quarter_by rotate y0 y1 y2 y3 =
    let z1 : ℕ = bit_xor y1 (rotate (u32 (y0 + y3)) 7) in
    let z2 : ℕ = bit_xor y2 (rotate (u32 (z1 + y0)) 9) in
    let z3 : ℕ = bit_xor y3 (rotate (u32 (z2 + z1)) 13) in
    let z0 : ℕ = bit_xor y0 (rotate (u32 (z3 + z2)) 18) in quad z0 z1 z2 z3

abbrev pub quarter_round : ℕ → ℕ → ℕ → ℕ → Quad
quarter_round = quarter_by rotl

abbrev pub from_rows : Quad → Quad → Quad → Quad → Block
from_rows (quad z0 z1 z2 z3) (quad z5 z6 z7 z4) (quad z10 z11 z8 z9) (quad z15 z12 z13 z14) =
    block z0 z1 z2 z3 z4 z5 z6 z7 z8 z9 z10 z11 z12 z13 z14 z15

abbrev pub from_columns : Quad → Quad → Quad → Quad → Block
from_columns (quad z0 z4 z8 z12) (quad z5 z9 z13 z1) (quad z10 z14 z2 z6) (quad z15 z3 z7 z11) =
    block z0 z1 z2 z3 z4 z5 z6 z7 z8 z9 z10 z11 z12 z13 z14 z15

module _ (quarter : ℕ → ℕ → ℕ → ℕ → Quad) where
  abbrev pub row_round : Block → Block
  row_round (block y0 y1 y2 y3 y4 y5 y6 y7 y8 y9 y10 y11 y12 y13 y14 y15) =
      from_rows (quarter y0 y1 y2 y3) (quarter y5 y6 y7 y4) (quarter y10 y11 y8 y9)
        (quarter y15 y12 y13 y14)

  abbrev pub column_round : Block → Block
  column_round (block y0 y1 y2 y3 y4 y5 y6 y7 y8 y9 y10 y11 y12 y13 y14 y15) =
      from_columns (quarter y0 y4 y8 y12) (quarter y5 y9 y13 y1) (quarter y10 y14 y2 y6)
        (quarter y15 y3 y7 y11)

  abbrev pub double : Block → Block
  double y = row_round (column_round y)

  unfoldable pub doubles : ℕ → Block → Block
  doubles zero y = y
  doubles (suc n) y = doubles n (double y)

unfoldable pub words_of : Block → List ℕ
words_of (block y0 y1 y2 y3 y4 y5 y6 y7 y8 y9 y10 y11 y12 y13 y14 y15) =
    y0 ∷ y1 ∷ y2 ∷ y3 ∷ y4 ∷ y5 ∷ y6 ∷ y7 ∷ y8 ∷ y9 ∷ y10 ∷ y11 ∷ y12 ∷ y13 ∷ y14 ∷ y15 ∷ []

-- Sums of words, one by one.
unfoldable pub add_each : List ℕ → List ℕ → List ℕ
add_each (x ∷ xs) (y ∷ ys) = u32 (x + y) ∷ add_each xs ys
add_each _ _ = []

-- The sixteen words of a block of the key stream.
unfoldable pub salsa20 : Block → List ℕ
salsa20 y = add_each (words_of (doubles quarter_round 10 y)) (words_of y)

-- The block with a number in its words 8 and 9.
abbrev pub counted : ℕ → Block → Block
counted n (block y0 y1 y2 y3 y4 y5 y6 y7 y8 y9 y10 y11 y12 y13 y14 y15) =
    block y0 y1 y2 y3 y4 y5 y6 y7 (u32 n) (u32 (n / 2 ^ 32)) y10 y11 y12 y13 y14 y15

-- A message under a key stream.
unfoldable pub masked : List ℕ → List ℕ → List ℕ
masked (x ∷ xs) (y ∷ ys) = bit_xor x y ∷ masked xs ys
masked _ _ = []

-- ===== src/Rsa/Limbs.antt =====
-- The numbers that lists of bytes stand for, and the loops of `add_mod`, src/mpq-rsa.c, on them.
use mathlib.Core.Path.{subst}
use native.Mathlib.Nat.{mod-eq_of_lt, mod-eq-sub-mod}
use libmpq.Base.{
  ℕ, zero, suc, ◌+◌, ◌-◌, ◌*◌, ◌%◌, ◌^◌, ◌≤◌, ◌<◌, ◌≡◌, ◌⊎◌, refl, sym, ap, ap₂, ◌∙◌, inl, inr,
  arith, bit_and, bit_or, bit_xor, List, [], ◌∷◌, IsByte, All, length, u8, u32, ◌>>>◌,
}
use libmpq.Base.Bits.{and_mask, and-le, or_shifted, shifted_or}
use libmpq.Rsa.{add_reduced, add_loop, subtract_loop, select_loop, negate}

-- The number of a list of bytes, the low one first.
abbrev pub value : List ℕ → ℕ
value [] = 0
value (x ∷ xs) = x + 256 * value xs

-- `c` as a digit above `k` bytes.
abbrev pub above : ℕ → ℕ → ℕ
above zero c = c
above (suc k) c = 256 * above k c

above_zero : (k : ℕ) → above k 0 ≡ 0
above_zero zero = refl
above_zero (suc k) = omega (arith, above_zero k)

pub value_lt : (xs : List ℕ) → All IsByte xs → value xs < above (length xs) 1
value_lt [] bytes = omega arith
value_lt (x ∷ xs) bytes = omega (arith, bytes.0, value_lt xs bytes.1)

-- An array of the size of the modulus.
abbrev pub IsLimbs : ℕ → List ℕ → Type 0
IsLimbs k xs = All IsByte xs × (length xs ≡ k)

abbrev Added : ℕ → List ℕ → List ℕ → ℕ → List ℕ × ℕ → Type 0
Added k a b carry (sum, out) =
    IsLimbs k sum × (value sum + above k out ≡ value a + value b + carry) × (out ≤ 1)

add_loop-Added :
    (k : ℕ) (a b : List ℕ) (carry : ℕ)
    → IsLimbs k a
    → IsLimbs k b
    → carry ≤ 1
    → Added k a b carry (add_loop a b carry)
unfolding add_loop
add_loop-Added zero [] [] carry ha hb small = ((tt, refl), omega arith, small)
add_loop-Added (suc k) (a ∷ a_rest) (b ∷ bs) carry ha hb small =
    let v : ℕ = u32 (a + b + carry) in
    let ev : v ≡ a + b + carry = omega (arith, ha.0.0, hb.0.0) in
    let out_le : v >>> 8 ≤ 1 = omega (arith, ha.0.0, hb.0.0) in
    let ih : Added k a_rest bs (v >>> 8) (add_loop a_rest bs (v >>> 8)) =
      add_loop-Added k a_rest bs (v >>> 8) (ha.0.1, omega (arith, ha.1))
        (hb.0.1, omega (arith, hb.1)) out_le in
    ((((omega arith), ih.0.0), ap suc ih.0.1), omega (arith, ih.1, ev), ih.2)
add_loop-Added zero (a ∷ a_rest) b carry ha hb small = absurd (omega (arith, ha.1))
add_loop-Added zero [] (b ∷ bs) carry ha hb small = absurd (omega (arith, hb.1))
add_loop-Added (suc k) [] b carry ha hb small = absurd (omega (arith, ha.1))
add_loop-Added (suc k) (a ∷ a_rest) [] carry ha hb small = absurd (omega (arith, hb.1))

abbrev Subtracted : ℕ → List ℕ → List ℕ → ℕ → List ℕ × ℕ → Type 0
Subtracted k s n borrow (reduced, out) =
    IsLimbs k reduced × (value reduced + value n + borrow ≡ value s + above k out) × (out ≤ 1)

subtract_loop-Subtracted :
    (k : ℕ) (s n : List ℕ) (borrow : ℕ)
    → IsLimbs k s
    → IsLimbs k n
    → borrow ≤ 1
    → Subtracted k s n borrow (subtract_loop s n borrow)
unfolding subtract_loop
subtract_loop-Subtracted zero [] [] borrow hs hn small = ((tt, refl), omega arith, small)
subtract_loop-Subtracted (suc k) (s ∷ ss) (n ∷ ns) borrow hs hn small =
    let v : ℕ = u32 (s + (2 ^ 32 - n) + (2 ^ 32 - borrow)) in
    let out_le : v >>> 31 ≤ 1 = omega (arith, hs.0.0, hn.0.0) in
    let digit : v % 2 ^ 8 + n + borrow ≡ s + 256 * (v >>> 31) = omega (arith, hs.0.0, hn.0.0) in
    let ih : Subtracted k ss ns (v >>> 31) (subtract_loop ss ns (v >>> 31)) =
      subtract_loop-Subtracted k ss ns (v >>> 31) (hs.0.1, omega (arith, hs.1))
        (hn.0.1, omega (arith, hn.1)) out_le in
    ((((omega arith), ih.0.0), ap suc ih.0.1), omega (arith, ih.1, digit), ih.2)
subtract_loop-Subtracted zero (s ∷ ss) n borrow hs hn small = absurd (omega (arith, hs.1))
subtract_loop-Subtracted zero [] (n ∷ ns) borrow hs hn small = absurd (omega (arith, hn.1))
subtract_loop-Subtracted (suc k) [] n borrow hs hn small = absurd (omega (arith, hs.1))
subtract_loop-Subtracted (suc k) (s ∷ ss) [] borrow hs hn small = absurd (omega (arith, hn.1))

-- A mask of ones or of zeros takes one of the two arrays.
pick_left : (x y : ℕ) → x < 256 → u8 (bit_or (bit_and x (2 ^ 32 - 1)) (bit_and y 0)) ≡ x
pick_left x y small =
    let ex : bit_and x (2 ^ 32 - 1) ≡ x = omega (arith, and_mask 32 x, small) in
    let ey : bit_and y 0 ≡ 0 = omega (arith, and-le y 0) in
    rw (ex, ey) (omega (arith, or_shifted 8 x 0 small, small))

pick_right : (x y : ℕ) → y < 256 → u8 (bit_or (bit_and x 0) (bit_and y (2 ^ 32 - 1))) ≡ y
pick_right x y small =
    let ey : bit_and y (2 ^ 32 - 1) ≡ y = omega (arith, and_mask 32 y, small) in
    let ex : bit_and x 0 ≡ 0 = omega (arith, and-le x 0) in
    rw (ex, ey) (omega (arith, shifted_or 8 0 y small, small))

pub select_ones :
    (k : ℕ) (xs ys : List ℕ) → IsLimbs k xs → IsLimbs k ys → select_loop (2 ^ 32 - 1) xs ys ≡ xs
unfolding select_loop
select_ones k [] ys hx hy = refl
select_ones k (x ∷ xs) [] hx hy = absurd (omega (arith, hx.1, hy.1))
select_ones zero (x ∷ xs) (y ∷ ys) hx hy = absurd (omega (arith, hx.1))
select_ones (suc k) (x ∷ xs) (y ∷ ys) hx hy =
    ap₂ (λ h t. h ∷ t) (pick_left x y hx.0.0)
      (select_ones k xs ys (hx.0.1, omega (arith, hx.1)) (hy.0.1, omega (arith, hy.1)))

pub select_zeros : (k : ℕ) (xs ys : List ℕ) → IsLimbs k xs → IsLimbs k ys → select_loop 0 xs ys ≡ ys
unfolding select_loop
select_zeros k [] [] hx hy = refl
select_zeros k [] (y ∷ ys) hx hy = absurd (omega (arith, hx.1, hy.1))
select_zeros k (x ∷ xs) [] hx hy = absurd (omega (arith, hx.1, hy.1))
select_zeros zero (x ∷ xs) (y ∷ ys) hx hy = absurd (omega (arith, hx.1))
select_zeros (suc k) (x ∷ xs) (y ∷ ys) hx hy =
    ap₂ (λ h t. h ∷ t) (pick_right x y hy.0.0)
      (select_zeros k xs ys (hx.0.1, omega (arith, hx.1)) (hy.0.1, omega (arith, hy.1)))

-- The mask of `add_mod`: whether the reduced number is taken.
mask_cases :
    (carry borrow : ℕ)
    → carry ≤ 1
    → borrow ≤ 1
    → ((carry ≡ 0) × (borrow ≡ 1) × (negate (bit_or carry (bit_xor borrow 1)) ≡ 0))
      ⊎ (((carry ≡ 1) ⊎ (borrow ≡ 0)) × (negate (bit_or carry (bit_xor borrow 1)) ≡ 2 ^ 32 - 1))
mask_cases zero zero hc hb = inr (inr refl, refl)
mask_cases zero (suc zero) hc hb = inl (refl, refl, refl)
mask_cases (suc zero) zero hc hb = inr (inl refl, refl)
mask_cases (suc zero) (suc zero) hc hb = inr (inl refl, refl)
mask_cases (suc (suc c)) b hc hb = absurd (omega arith)
mask_cases zero (suc (suc b)) hc hb = absurd (omega arith)
mask_cases (suc zero) (suc (suc b)) hc hb = absurd (omega arith)

-- The number of a sum that is reduced once.
reduced_once : (x n : ℕ) → n ≤ x → x < n + n → x - n ≡ x % n
reduced_once x n large small = sym (mod-eq-sub-mod large ∙ mod-eq_of_lt (omega arith))

bit_cases : (k c : ℕ) → c ≤ 1 → (above k c ≡ 0) ⊎ (above k c ≡ above k 1)
bit_cases k zero small = inl (above_zero k)
bit_cases k (suc zero) small = inr refl
bit_cases k (suc (suc c)) small = absurd (omega arith)

limbs_lt : (k : ℕ) (xs : List ℕ) → IsLimbs k xs → value xs < above k 1
limbs_lt k xs limbs = subst (λ m. value xs < above m 1) limbs.1 (value_lt xs limbs.0)

abbrev pub IsResult : ℕ → ℕ → List ℕ → Type 0
IsResult k v xs = IsLimbs k xs × (value xs ≡ v)

-- Where the reduced number is taken, it is the difference, whatever the last carry and borrow.
taken_difference :
    (k a b n sum reduced carry borrow : ℕ)
    → ((carry ≡ 1) ⊎ (borrow ≡ 0))
    → n < above k 1
    → a < n
    → b < n
    → sum + above k carry ≡ a + b + 0
    → reduced + n + 0 ≡ sum + above k borrow
    → carry ≤ 1
    → borrow ≤ 1
    → reduced + n ≡ a + b
taken_difference k a b n sum reduced carry borrow which bound la lb total less hc hb =
    let none : above k 0 ≡ 0 = above_zero k in
    elim (bit_cases k carry hc) [
      | inl ec ↦ elim (bit_cases k borrow hb) [
        | inl eb ↦ omega arith
        | inr eb ↦ elim which [
          | inl one ↦ absurd (let e : above k 1 ≡ 0 = ap (above k) (sym one) ∙ ec in omega arith)
          | inr kept ↦
              absurd (let e : above k 1 ≡ 0 = sym eb ∙ ap (above k) kept ∙ none in omega arith)
        ]
      ]
      | inr ec ↦ elim (bit_cases k borrow hb) [
        | inl eb ↦ absurd (omega arith)
        | inr eb ↦ omega arith
      ]
    ]

select-IsResult :
    (k : ℕ) (a b n sum reduced : List ℕ) (carry borrow : ℕ)
    → IsLimbs k n
    → value a < value n
    → value b < value n
    → Added k a b 0 (sum, carry)
    → Subtracted k sum n 0 (reduced, borrow)
    → IsResult k
        ((value a + value b) % value n)
        (select_loop (negate (bit_or carry (bit_xor borrow 1))) reduced sum)
select-IsResult k a b n sum reduced carry borrow hn la lb added subtracted =
    let bound : value n < above k 1 = limbs_lt k n hn in
    let bound' : value reduced < above k 1 = limbs_lt k reduced subtracted.0 in
    let none : above k 0 ≡ 0 = above_zero k in
    elim (mask_cases carry borrow added.2 subtracted.2) [
      | inl (ec, eb, mask) ↦
          let total : value sum + above k 0 ≡ value a + value b + 0 = rw ec at added.1 in
          let less : value reduced + value n + 0 ≡ value sum + above k 1 = rw eb at subtracted.1 in
          let low : value sum ≡ value a + value b = omega arith in
          rw (mask, select_zeros k reduced sum subtracted.0 added.0)
            (added.0, low ∙ sym (mod-eq_of_lt (omega arith)))
      | inr (which, mask) ↦
          let difference : value reduced + value n ≡ value a + value b =
            taken_difference k (value a) (value b) (value n) (value sum) (value reduced) carry
              borrow which bound la lb added.1 subtracted.1 added.2 subtracted.2 in
          let high : value reduced ≡ value a + value b - value n = omega arith in
          rw (mask, select_ones k reduced sum subtracted.0 added.0)
            (
              subtracted.0,
              high ∙ reduced_once (value a + value b) (value n) (omega arith) (omega arith),
            )
    ]

-- For arrays of bytes of one size, with both numbers below the modulus, the result of `add_reduced`,
-- of this size, is the sum modulo the modulus.
pub add_reduced-IsResult :
    (k : ℕ) (a b n : List ℕ)
    → IsLimbs k a
    → IsLimbs k b
    → IsLimbs k n
    → value a < value n
    → value b < value n
    → IsResult k ((value a + value b) % value n) (add_reduced a b n)
unfolding add_reduced
add_reduced-IsResult k a b n ha hb hn la lb =
    let added : Added k a b 0 (add_loop a b 0) = add_loop-Added k a b 0 ha hb (omega arith) in
    let sum : List ℕ = (add_loop a b 0).0 in
    let subtracted : Subtracted k sum n 0 (subtract_loop sum n 0) =
      subtract_loop-Subtracted k sum n 0 added.0 hn (omega arith) in
    select-IsResult k a b n sum (subtract_loop sum n 0).0 (add_loop a b 0).1
      (subtract_loop sum n 0).1 hn la lb added subtracted

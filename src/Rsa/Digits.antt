-- ===== src/Rsa/Digits.antt =====
-- The bits of a number that is a list of bytes, as the loops of src/mpq-rsa.c read them.
use native.Mathlib.Nat.{div-div-eq-div-mul, pow-succ'}
use libmpq.Base.{
  ℕ, zero, suc, ◌+◌, ◌*◌, ◌/◌, ◌%◌, ◌^◌, ◌<◌, ◌≡◌, refl, sym, ap, ◌∙◌, arith, List, [], ◌∷◌, some,
  IsByte, All, get_elem?,
}
use libmpq.Rsa.Limbs.{value, IsLimbs}

-- A number without its `k` low bits.
abbrev pub halve : ℕ → ℕ → ℕ
halve zero x = x
halve (suc k) x = halve k (x / 2)

pub halve_half : (k x : ℕ) → halve (suc k) x ≡ halve k x / 2
halve_half zero x = refl
halve_half (suc k) x = halve_half k (x / 2)

halve-pow : (k x : ℕ) → halve k x ≡ x / 2 ^ k
halve-pow zero x = omega arith
halve-pow (suc k) x =
    halve-pow k (x / 2) ∙ div-div-eq-div-mul x 2 (2 ^ k) ∙ ap (λ n. x / n) (sym (pow-succ' 2 k))

-- A byte has the low bits of the number.
low_bits : (r x v : ℕ) → r < 8 → halve r (x + 256 * v) % 2 ≡ halve r x % 2
low_bits zero x v small = omega arith
low_bits (suc zero) x v small = omega arith
low_bits (suc (suc zero)) x v small = omega arith
low_bits (suc (suc (suc zero))) x v small = omega arith
low_bits (suc (suc (suc (suc zero)))) x v small = omega arith
low_bits (suc (suc (suc (suc (suc zero))))) x v small = omega arith
low_bits (suc (suc (suc (suc (suc (suc zero)))))) x v small = omega arith
low_bits (suc (suc (suc (suc (suc (suc (suc zero))))))) x v small = omega arith
low_bits (suc (suc (suc (suc (suc (suc (suc (suc r)))))))) x v small = absurd (omega arith)

abbrev eight : ℕ → ℕ
eight k = suc (suc (suc (suc (suc (suc (suc (suc k)))))))

next_byte : (k x v : ℕ) → x < 256 → halve (eight k) (x + 256 * v) ≡ halve k v
next_byte k x v small =
    let e : (x + 256 * v) / 2 / 2 / 2 / 2 / 2 / 2 / 2 / 2 ≡ v = omega arith in ap (halve k) e

bit_at :
    (b : List ℕ) (q r : ℕ) {limb : ℕ}
    → All IsByte b
    → r < 8
    → get_elem? b q ≡ some limb
    → halve r limb % 2 ≡ halve (q * 8 + r) (value b) % 2
bit_at [] q r bytes small e = cc
bit_at (x ∷ b) zero r {limb} bytes small e =
    let ex : x ≡ limb = cc in
    let er : 0 * 8 + r ≡ r = omega arith in
    sym (
      ap (λ m. halve m (x + 256 * value b) % 2) er
      ∙ low_bits r x (value b) small
      ∙ ap (λ y. halve r y % 2) ex)
bit_at (x ∷ b) (suc q) r bytes small e =
    let er : suc q * 8 + r ≡ eight (q * 8 + r) = omega arith in
    bit_at b q r bytes.1 small e
    ∙ sym (
        ap (λ m. halve m (x + 256 * value b) % 2) er
        ∙ ap (λ y. y % 2) (next_byte (q * 8 + r) x (value b) bytes.0))

-- The bit that a round reads.
pub limb_bit :
    (b : List ℕ) (k : ℕ) {limb : ℕ}
    → All IsByte b
    → get_elem? b (k / 8) ≡ some limb
    → limb / 2 ^ (k % 8) % 2 ≡ halve k (value b) % 2
limb_bit b k {limb} bytes e =
    let ek : k / 8 * 8 + k % 8 ≡ k = omega arith in
    ap (λ y. y % 2) (sym (halve-pow (k % 8) limb))
    ∙ bit_at b (k / 8) (k % 8) bytes (omega arith) e
    ∙ ap (λ m. halve m (value b) % 2) ek

-- No bits are left above the bytes.
pub halve_all : (k : ℕ) (b : List ℕ) → IsLimbs k b → halve (k * 8) (value b) ≡ 0
halve_all zero [] limbs = refl
halve_all zero (x ∷ b) limbs = absurd (omega (arith, limbs.1))
halve_all (suc k) [] limbs = absurd (omega (arith, limbs.1))
halve_all (suc k) (x ∷ b) limbs =
    let ek : suc k * 8 ≡ eight (k * 8) = omega arith in
    ap (λ m. halve m (x + 256 * value b)) ek
    ∙ next_byte (k * 8) x (value b) limbs.0.0
    ∙ halve_all k b (limbs.0.1, omega (arith, limbs.1))

-- ===== src/Base/Bits.antt =====
-- Laws of `|`, `&` and `^` at every width, from the recursion on binary digits.
use Prim.Native.Nat.{
  ℕ, zero, suc, ◌+◌, ◌*◌, ◌/◌, ◌%◌, ◌^◌, ◌≤◌, ◌<◌, min, max, bit_and, bit_or, bit_xor,
}
use Prim.Native.Nat.{◌-◌}
use Prim.Native.Nat.{digits, differ, bitwise, bit_and-bitwise, bit_or-bitwise, bit_xor-bitwise}
use mathlib.Core.Path.{◌≡◌, refl, ap, ◌∙◌}
use mathlib.Core.Bool.{Bool, true, ◌&&◌}
use native.Mathlib.Nat.{
  zero-add, suc-add, mul_assoc, mod-mod_of_dvd, le_refl, pow-suc, mod-lt, mod-add-div',
  add-mul-mod_self_right, mod-eq_of_lt,
}
use native.Mathlib.Omega.{arith}
use libmpq.Base.Tests.{◌==◌}

module _ (z : ℕ → ℕ) (f : ℕ → ℕ → ℕ) where
  -- Any fuel that reaches the first operand gives the same digits.
  fuel_irrelevant : (n m a b : ℕ) → a ≤ n → a ≤ m → digits z f n a b ≡ digits z f m a b
  fuel_irrelevant zero zero a b p q = refl
  fuel_irrelevant zero (suc m) zero b p q = refl
  fuel_irrelevant zero (suc m) (suc a) b p q = elim p [ ]
  fuel_irrelevant (suc n) zero zero b p q = refl
  fuel_irrelevant (suc n) zero (suc a) b p q = elim q [ ]
  fuel_irrelevant (suc n) (suc m) zero b p q = refl
  fuel_irrelevant (suc n) (suc m) (suc a) b p q =
      let rest = fuel_irrelevant n m (suc a / 2) (b / 2) (omega arith) (omega arith) in
      ap (λ t. t * 2 + f (suc a % 2) (b % 2)) rest

  lowest_digit :
      (a b : ℕ)
      → bitwise z f (suc a) b ≡ bitwise z f (suc a / 2) (b / 2) * 2 + f (suc a % 2) (b % 2)
  lowest_digit a b =
      ap (λ t. t * 2 + f (suc a % 2) (b % 2))
        (fuel_irrelevant a (suc a / 2) (suc a / 2) (b / 2) (omega arith) (le_refl _))

pub or_digit : (a b : ℕ) → bit_or a b ≡ bit_or (a / 2) (b / 2) * 2 + max (a % 2) (b % 2)
or_digit zero b = simp bit_or-bitwise (omega arith)
or_digit (suc a) b = simp bit_or-bitwise (lowest_digit (λ y. y) max a b)

pub and_digit : (a b : ℕ) → bit_and a b ≡ bit_and (a / 2) (b / 2) * 2 + min (a % 2) (b % 2)
and_digit zero b = simp bit_and-bitwise (omega arith)
and_digit (suc a) b = simp bit_and-bitwise (lowest_digit (λ y. 0) min a b)

differ_zero : (b : ℕ) → b < 2 → differ 0 b ≡ b
differ_zero zero h = refl
differ_zero (suc zero) h = refl
differ_zero (suc (suc b)) h = absurd (omega arith)

pub xor_digit : (a b : ℕ) → bit_xor a b ≡ bit_xor (a / 2) (b / 2) * 2 + differ (a % 2) (b % 2)
xor_digit zero b = simp bit_xor-bitwise (omega (arith, differ_zero (b % 2) (omega arith)))
xor_digit (suc a) b = simp bit_xor-bitwise (lowest_digit (λ y. y) differ a b)

differ_lem : (a b : ℕ) → a < 2 → b < 2 → (differ a b < 2) × (differ (differ a b) b ≡ a)
differ_lem zero zero h k = (omega arith, refl)
differ_lem zero (suc zero) h k = (omega arith, refl)
differ_lem (suc zero) zero h k = (omega arith, refl)
differ_lem (suc zero) (suc zero) h k = (omega arith, refl)
differ_lem zero (suc (suc b)) h k = absurd (omega arith)
differ_lem (suc zero) (suc (suc b)) h k = absurd (omega arith)
differ_lem (suc (suc a)) b h k = absurd (omega arith)

twice_pow : (q k : ℕ) → q * 2 ^ suc k ≡ 2 * (q * 2 ^ k)
twice_pow q k = omega (arith, ap (λ (t : ℕ). q * t) (pow-suc 2 k))

or_zero_fuel : (n a : ℕ) → a ≤ n → bit_or a 0 ≡ a
or_zero_fuel n zero h = refl
or_zero_fuel zero (suc a) h = elim h [ ]
or_zero_fuel (suc n) (suc a) h =
    omega (arith, or_digit (suc a) 0, or_zero_fuel n (suc a / 2) (omega arith))

zero-or : (a : ℕ) → bit_or 0 a ≡ a
zero-or a = bit_or-bitwise 0 a

-- `low | (q << k)` is a sum when `low` fits `k` bits.
pub or_shifted : (k low q : ℕ) → low < 2 ^ k → bit_or low (q * 2 ^ k) ≡ low + q * 2 ^ k
or_shifted zero low q h = ground (arith, zero-or (q * 1))
or_shifted (suc k) low q h =
    ground
      (arith, or_digit low (q * 2 ^ suc k), twice_pow q k, pow-suc 2 k, or_shifted k (low / 2) q)

-- The same with the high part first.
pub shifted_or : (k q low : ℕ) → low < 2 ^ k → bit_or (q * 2 ^ k) low ≡ q * 2 ^ k + low
shifted_or zero q low h = ground (arith, or_zero_fuel (q * 1) (q * 1))
shifted_or (suc k) q low h =
    ground
      (arith, or_digit (q * 2 ^ suc k) low, twice_pow q k, pow-suc 2 k, shifted_or k q (low / 2))

xor_cancel_fuel : (n a b : ℕ) → a + b ≤ n → bit_xor (bit_xor a b) b ≡ a
xor_cancel_fuel zero zero zero h = refl
xor_cancel_fuel zero _ _ h = absurd (omega arith)
xor_cancel_fuel (suc n) a b h = ground (
  arith,
  xor_digit (bit_xor a b) b,
  xor_digit a b,
  differ_lem (a % 2) (b % 2),
  xor_cancel_fuel n (a / 2) (b / 2),
)

-- `a ^ b ^ b` is `a`.
pub xor_cancel : (a b : ℕ) → bit_xor (bit_xor a b) b ≡ a
xor_cancel a b = xor_cancel_fuel (a + b) a b (le_refl _)

differ_comm : (a b : ℕ) → a < 2 → b < 2 → differ a b ≡ differ b a
differ_comm zero zero h k = refl
differ_comm zero (suc zero) h k = refl
differ_comm (suc zero) zero h k = refl
differ_comm (suc zero) (suc zero) h k = refl
differ_comm (suc zero) (suc (suc b)) h k = absurd (omega arith)
differ_comm zero (suc (suc b)) h k = absurd (omega arith)
differ_comm (suc (suc a)) b h k = absurd (omega arith)

xor_comm_fuel : (n a b : ℕ) → a + b ≤ n → bit_xor a b ≡ bit_xor b a
xor_comm_fuel zero zero zero h = refl
xor_comm_fuel zero _ _ h = absurd (omega arith)
xor_comm_fuel (suc n) a b h = ground (
  arith,
  xor_digit a b,
  xor_digit b a,
  differ_comm (a % 2) (b % 2),
  xor_comm_fuel n (a / 2) (b / 2),
)

pub xor_comm : (a b : ℕ) → bit_xor a b ≡ bit_xor b a
xor_comm a b = xor_comm_fuel (a + b) a b (le_refl _)

-- `a ^ (a ^ b)` is `b`.
pub xor_cancel_left : (a b : ℕ) → bit_xor a (bit_xor a b) ≡ b
xor_cancel_left a b =
    xor_comm a (bit_xor a b) ∙ ap (λ t. bit_xor t a) (xor_comm a b) ∙ xor_cancel b a

pub or-lt : (k a b : ℕ) → a < 2 ^ k → b < 2 ^ k → bit_or a b < 2 ^ k
or-lt zero zero zero p q = omega arith
or-lt zero _ _ p q = absurd (omega arith)
or-lt (suc k) a b p q = ground (arith, or_digit a b, pow-suc 2 k, or-lt k (a / 2) (b / 2))

pub xor-lt : (k a b : ℕ) → a < 2 ^ k → b < 2 ^ k → bit_xor a b < 2 ^ k
xor-lt zero zero zero p q = omega arith
xor-lt zero _ _ p q = absurd (omega arith)
xor-lt (suc k) a b p q =
    ground (arith, xor_digit a b, pow-suc 2 k, xor-lt k (a / 2) (b / 2), differ_lem (a % 2) (b % 2))

and_le_fuel : (n a b : ℕ) → a ≤ n → bit_and a b ≤ b
and_le_fuel n zero b h = omega (arith, bit_and-bitwise 0 b)
and_le_fuel zero (suc a) b h = elim h [ ]
and_le_fuel (suc n) (suc a) b h =
    omega (arith, and_digit (suc a) b, and_le_fuel n (suc a / 2) (b / 2) (omega arith))

-- A mask bounds what it lets through.
pub and-le : (a b : ℕ) → bit_and a b ≤ b
and-le a b = and_le_fuel a a b (le_refl _)

-- Facts about bytes, by evaluation at every byte.
module _ (f g : ℕ → ℕ) where
  same_below : ℕ → Bool
  same_below zero = true
  same_below (suc n) = (f n == g n) && same_below n

  same_below_sound : (n : ℕ) → same_below n ≡ true → (i : ℕ) → i < n → f i ≡ g i
  unfolding same_below
  same_below_sound zero e i h = elim h [ ]
  same_below_sound (suc n) e i h = ground (arith, same_below_sound n (ground arith) i)

pub and_low7 : (b : ℕ) → b < 256 → bit_and b 0x7f ≡ b % 128
unfolding same_below
and_low7 = same_below_sound _ _ 256 refl

pub and_top : (b : ℕ) → b < 256 → bit_and b 0x80 ≡ b / 128 * 128
unfolding same_below
and_top = same_below_sound _ _ 256 refl

-- The last digit of a remainder.
mod_double : (x n : ℕ) → 0 < n → x % (2 * n) ≡ x / 2 % n * 2 + x % 2
mod_double x n h =
    let r : ℕ = x / 2 % n in
    let q : ℕ = x / 2 / n in
    let below : r < n = mod-lt (x / 2) h in
    let parts : r + q * n ≡ x / 2 = mod-add-div' (x / 2) n in
    let double : q * (2 * n) ≡ 2 * (q * n) = grind arith in
    let whole : x ≡ (r * 2 + x % 2) + q * (2 * n) = omega arith in
    ap (λ y. y % (2 * n)) whole
    ∙ add-mul-mod_self_right (r * 2 + x % 2) q (2 * n)
    ∙ mod-eq_of_lt (let c : r * 2 + x % 2 < 2 * n = omega arith in c)

pub pow_pos : (k : ℕ) → 0 < 2 ^ k
pow_pos zero = omega arith
pow_pos (suc k) = omega (arith, pow-suc 2 k, pow_pos k)

-- A mask of the lowest `k` bits.
pub and_mask : (k x : ℕ) → bit_and x (2 ^ k - 1) ≡ x % 2 ^ k
and_mask zero x = omega (arith, and-le x 0)
and_mask (suc k) x =
    let p : 2 ^ suc k ≡ 2 * 2 ^ k = omega (arith, pow-suc 2 k) in
    let pos : 0 < 2 ^ k = pow_pos k in
    let half : (2 ^ suc k - 1) / 2 ≡ 2 ^ k - 1 = omega arith in
    and_digit x (2 ^ suc k - 1)
    ∙ ap (λ h. bit_and (x / 2) h * 2 + min (x % 2) ((2 ^ suc k - 1) % 2)) half
    ∙ ap (λ m. m * 2 + min (x % 2) ((2 ^ suc k - 1) % 2)) (and_mask k (x / 2))
    ∙ omega (arith, mod_double x (2 ^ k) pos, ap (λ n. x % n) p)

-- A remainder by a larger power of two makes no difference.
pow_factor : (d k : ℕ) → (c : ℕ) × (2 ^ (d + k) ≡ 2 ^ k * c)
pow_factor zero k = (1, omega (arith, ap (λ n. 2 ^ n) (zero-add k)))
pow_factor (suc d) k =
    let (c, e) = pow_factor d k in
    (
      c * 2,
      ap (λ n. 2 ^ n) (suc-add d k) ∙ pow-suc 2 (d + k) ∙ ap (λ n. n * 2) e ∙ mul_assoc (2 ^ k) c 2,
    )

pub mod_pow : (x k n : ℕ) → k ≤ n → x % 2 ^ n % 2 ^ k ≡ x % 2 ^ k
mod_pow x k n h =
    ap (λ m. x % 2 ^ m % 2 ^ k) (let e : n ≡ n - k + k = omega arith in e)
    ∙ mod-mod_of_dvd (2 ^ k) x ∣ pow_factor (n - k) k ∣₁

-- The bits of one of two numbers are bits of their disjunction.
and_or_fuel : (n a b c : ℕ) → c ≤ n → bit_and (bit_or a b) c ≡ 0 → bit_and a c ≡ 0
and_or_fuel zero a b c h e = omega (arith, and-le a c)
and_or_fuel (suc n) a b c h e = ground (
  arith,
  and_digit (bit_or a b) c,
  or_digit a b,
  and_digit a c,
  and-le a c,
  and_or_fuel n (a / 2) (b / 2) (c / 2),
)

pub and_or : (a b c : ℕ) → bit_and (bit_or a b) c ≡ 0 → bit_and a c ≡ 0
and_or a b c e = and_or_fuel c a b c (le_refl _) e

-- The bits of a conjunction are bits of the first number.
and_and_fuel : (n a b c : ℕ) → c ≤ n → bit_and a c ≡ 0 → bit_and (bit_and a b) c ≡ 0
and_and_fuel zero a b c h e = omega (arith, and-le (bit_and a b) c)
and_and_fuel (suc n) a b c h e = ground (
  arith,
  and_digit (bit_and a b) c,
  and_digit a b,
  and_digit a c,
  and-le (bit_and a b) c,
  and_and_fuel n (a / 2) (b / 2) (c / 2),
)

pub and_and : (a b c : ℕ) → bit_and a c ≡ 0 → bit_and (bit_and a b) c ≡ 0
and_and a b c e = and_and_fuel c a b c (le_refl _) e

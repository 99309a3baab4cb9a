-- ===== src/Rsa/Runs.antt =====
-- Small numbers through src/mpq-rsa.c.
use libmpq.Base.{
  ℕ, ◌*◌, ◌%◌, ◌≤◌, ◌<◌, ◌≡◌, ◌⊎◌, refl, arith, List, [], ◌∷◌, ◌++◌, some, ok, err, format_error,
  IsByte, replicate,
}
use libmpq.Base.Lists.{All-append}
use libmpq.Rsa.{
  add_mod, add_reduced, add_loop, subtract_loop, select_loop, multiply, weak_operation,
  rsa_key_validate, strong_public_operation,
}
use libmpq.Rsa.Limbs.{IsLimbs, IsResult}
use libmpq.Rsa.Multiply.{multiply-IsResult, zero-IsLimbs}
use libmpq.Rsa.Key.{IsKey, Decides, rsa_key_validate-Decides}
use libmpq.Rsa.Strong
use libmpq.Rsa.Strong.{strong_public_operation-IsPower}
use libmpq.Rsa.Order.{big_endian}
use libmpq.Rsa.Weak.{IsPower, weak_operation-IsPower}

-- 1000, 900 and the modulus 1025, in two bytes.
abbrev a : List ℕ
a = 232 ∷ 3 ∷ []

abbrev b : List ℕ
b = 132 ∷ 3 ∷ []

abbrev n : List ℕ
n = 1 ∷ 4 ∷ []

-- 1900 - 1025 = 875.
add_mod-a : add_mod a b n ≡ ok (107 ∷ 3 ∷ [])
unfolding add_mod add_reduced add_loop subtract_loop select_loop
add_mod-a = refl

a-IsLimbs : IsLimbs 2 a
a-IsLimbs = ((omega arith, (omega arith, tt)), refl)

b-IsLimbs : IsLimbs 2 b
b-IsLimbs = ((omega arith, (omega arith, tt)), refl)

n-IsLimbs : IsLimbs 2 n
n-IsLimbs = ((omega arith, (omega arith, tt)), refl)

multiply-IsResult_example :
    (out : List ℕ) × (multiply a b n ≡ ok out) × IsResult 2 (1000 * 900 % 1025) out
multiply-IsResult_example =
    multiply-IsResult 2 a b n a-IsLimbs b-IsLimbs n-IsLimbs (omega arith) (omega arith)

-- A number of 64 bytes, the high one first.
abbrev small_number : ℕ → List ℕ
small_number x = replicate 63 0 ++ (x ∷ [])

small_number-IsLimbs : (x : ℕ) → x < 256 → IsLimbs 64 (small_number x)
small_number-IsLimbs x small =
    (All-append IsByte (replicate 63 0) (x ∷ []) (zero-IsLimbs 63).0.0 (small, tt), refl)

weak_operation-IsPower_example :
    ((7 < 33)
      × (out : List ℕ) × (weak_operation (small_number 33 ++ small_number 3) (small_number 7)
          ≡ ok out)
      × IsPower (small_number 33) (small_number 3) (small_number 7) out)
    ⊎ ((33 ≤ 7)
        × (weak_operation (small_number 33 ++ small_number 3) (small_number 7) ≡ err format_error))
weak_operation-IsPower_example =
    weak_operation-IsPower (small_number 33) (small_number 3) (small_number 7)
      (small_number-IsLimbs 33 (omega arith)) (small_number-IsLimbs 3 (omega arith))
      (small_number-IsLimbs 7 (omega arith)) (omega arith)

-- A modulus of 256 bytes, 2^2047 + 1, and numbers of this size.
abbrev rest : List ℕ
rest = replicate 254 0 ++ (1 ∷ [])

abbrev large_number : ℕ → List ℕ
large_number x = replicate 255 0 ++ (x ∷ [])

modulus-IsLimbs : IsLimbs 256 (128 ∷ rest)
modulus-IsLimbs = (
  (
    omega arith,
    All-append IsByte (replicate 254 0) (1 ∷ []) (zero-IsLimbs 254).0.0 (omega arith, tt),
  ),
  refl,
)

large_number-IsLimbs : (x : ℕ) → x < 256 → IsLimbs 256 (large_number x)
large_number-IsLimbs x small =
    (All-append IsByte (replicate 255 0) (x ∷ []) (zero-IsLimbs 255).0.0 (small, tt), refl)

rsa_key_validate-Decides_example :
    Decides
      (IsKey 128 rest (large_number 3))
      (rsa_key_validate (some ((128 ∷ rest) ++ large_number 3)) 512 256)
rsa_key_validate-Decides_example =
    rsa_key_validate-Decides 255 128 rest (large_number 3) (omega arith) modulus-IsLimbs
      (large_number-IsLimbs 3 (omega arith))

strong_public_operation-IsPower_example :
    (IsKey 128 rest (large_number 3)
      × (big_endian (large_number 7) 0 < big_endian (128 ∷ rest) 0)
      × (out : List ℕ) × (strong_public_operation
            (some ((128 ∷ rest) ++ large_number 3))
            (some (large_number 7))
          ≡ ok out)
      × Strong.IsPower (128 ∷ rest) (large_number 3) (large_number 7) out)
    ⊎ ((strong_public_operation (some ((128 ∷ rest) ++ large_number 3)) (some (large_number 7))
          ≡ err format_error)
        × ((¬ IsKey 128 rest (large_number 3))
            ⊎ (big_endian (128 ∷ rest) 0 ≤ big_endian (large_number 7) 0)))
strong_public_operation-IsPower_example =
    strong_public_operation-IsPower 128 rest (large_number 3) (large_number 7) modulus-IsLimbs
      (large_number-IsLimbs 3 (omega arith)) (large_number-IsLimbs 7 (omega arith))

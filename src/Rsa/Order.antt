-- ===== src/Rsa/Order.antt =====
-- The byte order of keys and messages in src/mpq-rsa.c, the high byte first.
use mathlib.Core.List.{append-nil}
use libmpq.Base.{
  ℕ, zero, suc, ◌+◌, ◌-◌, ◌*◌, ◌≤◌, ◌<◌, ◌≡◌, ◌⊎◌, refl, ap, ◌∙◌, inl, inr, arith, true, false,
  List, [], ◌∷◌, ◌++◌, length, get_elem?, ltb, ◌==◌, Bool-cases,
}
use libmpq.Rsa.{below, reverse_into}
use libmpq.Rsa.Limbs.{value, IsLimbs}

-- The number of a list of bytes, the high one first, behind the digits of `high`.
abbrev pub big_endian : List ℕ → ℕ → ℕ
big_endian [] high = high
big_endian (x ∷ xs) high = big_endian xs (high * 256 + x)

pub value-reverse_into : (xs acc : List ℕ) → value (reverse_into xs acc) ≡ big_endian xs (value acc)
unfolding reverse_into
value-reverse_into [] acc = refl
value-reverse_into (x ∷ xs) acc =
    let e : x + 256 * value acc ≡ value acc * 256 + x = omega arith in
    value-reverse_into xs (x ∷ acc) ∙ ap (big_endian xs) e

pub reverse_into-IsLimbs :
    (k m : ℕ) (xs acc : List ℕ)
    → IsLimbs k xs
    → IsLimbs m acc
    → IsLimbs (k + m) (reverse_into xs acc)
unfolding reverse_into
reverse_into-IsLimbs zero m [] acc hx ha = (ha.0, omega (arith, ha.1))
reverse_into-IsLimbs zero m (x ∷ xs) acc hx ha = absurd (omega (arith, hx.1))
reverse_into-IsLimbs (suc k) m [] acc hx ha = absurd (omega (arith, hx.1))
reverse_into-IsLimbs (suc k) m (x ∷ xs) acc hx ha =
    let ih : IsLimbs (k + suc m) (reverse_into xs (x ∷ acc)) =
      reverse_into-IsLimbs k (suc m) xs (x ∷ acc) (hx.0.1, omega (arith, hx.1))
        ((hx.0.0, ha.0), ap suc ha.1) in
    (ih.0, omega (arith, ih.1))

reverse_again :
    (xs acc ys : List ℕ) → reverse_into (reverse_into xs acc) ys ≡ reverse_into acc (xs ++ ys)
unfolding reverse_into
reverse_again [] acc ys = refl
reverse_again (x ∷ xs) acc ys = reverse_again xs (x ∷ acc) ys

pub reverse_into_twice : (xs : List ℕ) → reverse_into (reverse_into xs []) [] ≡ xs
unfolding reverse_into
reverse_into_twice xs = reverse_again xs [] [] ∙ append-nil xs

behind :
    (xs acc : List ℕ) (m : ℕ) → get_elem? (reverse_into xs acc) (length xs + m) ≡ get_elem? acc m
unfolding reverse_into
behind [] acc m = ap (get_elem? acc) (omega arith)
behind (x ∷ xs) acc m =
    let e : suc (length xs) + m ≡ length xs + suc m = omega arith in
    ap (get_elem? (reverse_into xs (x ∷ acc))) e ∙ behind xs (x ∷ acc) (suc m)

pub get_elem?-reverse_into :
    (xs acc : List ℕ) (i : ℕ)
    → i < length xs
    → get_elem? (reverse_into xs acc) (length xs - 1 - i) ≡ get_elem? xs i
unfolding reverse_into
get_elem?-reverse_into [] acc i small = absurd (omega arith)
get_elem?-reverse_into (x ∷ xs) acc zero small =
    let e : suc (length xs) - 1 - 0 ≡ length xs + 0 = omega arith in
    ap (get_elem? (reverse_into xs (x ∷ acc))) e ∙ behind xs (x ∷ acc) 0
get_elem?-reverse_into (x ∷ xs) acc (suc i) small =
    let e : suc (length xs) - 1 - suc i ≡ length xs - 1 - i = omega arith in
    ap (get_elem? (reverse_into xs (x ∷ acc))) e
    ∙ get_elem?-reverse_into xs (x ∷ acc) i (omega arith)

-- Behind different digits, the bytes do not matter.
higher :
    (k : ℕ) (a b : List ℕ) (u v : ℕ)
    → IsLimbs k a
    → IsLimbs k b
    → u < v
    → big_endian a u < big_endian b v
higher zero [] [] u v ha hb less = less
higher (suc k) (a ∷ a_rest) (b ∷ b_rest) u v ha hb less =
    higher k a_rest b_rest (u * 256 + a) (v * 256 + b) (ha.0.1, omega (arith, ha.1))
      (hb.0.1, omega (arith, hb.1)) (omega (arith, ha.0.0))
higher zero (a ∷ a_rest) b u v ha hb less = absurd (omega (arith, ha.1))
higher zero [] (b ∷ b_rest) u v ha hb less = absurd (omega (arith, hb.1))
higher (suc k) [] b u v ha hb less = absurd (omega (arith, ha.1))
higher (suc k) (a ∷ a_rest) [] u v ha hb less = absurd (omega (arith, hb.1))

-- `memcmp` compares the numbers.
pub below_lem :
    (k : ℕ) (a b : List ℕ) (u : ℕ)
    → IsLimbs k a
    → IsLimbs k b
    → ((below a b ≡ true) × (big_endian a u < big_endian b u))
      ⊎ ((below a b ≡ false) × (big_endian b u ≤ big_endian a u))
unfolding below
below_lem zero [] [] u ha hb = inr (refl, omega arith)
below_lem (suc k) (a ∷ a_rest) (b ∷ b_rest) u ha hb =
    let ha' : IsLimbs k a_rest = (ha.0.1, omega (arith, ha.1)) in
    let hb' : IsLimbs k b_rest = (hb.0.1, omega (arith, hb.1)) in
    elim (Bool-cases (a == b)) [
      | inl e ↦
          let eb : a ≡ b = ground arith in
          rw (e, eb) (below_lem k a_rest b_rest (u * 256 + b) ha' hb')
      | inr e ↦ elim (Bool-cases (ltb a b)) [
        | inl less ↦ inl (
          rw (e, less) refl,
          higher k a_rest b_rest (u * 256 + a) (u * 256 + b) ha' hb' (ground arith),
        )
        | inr less ↦
            let more : big_endian b_rest (u * 256 + b) < big_endian a_rest (u * 256 + a) =
              higher k b_rest a_rest (u * 256 + b) (u * 256 + a) hb' ha' (ground arith) in
            inr (rw (e, less) refl, omega arith)
      ]
    ]
below_lem zero (a ∷ a_rest) b u ha hb = absurd (omega (arith, ha.1))
below_lem zero [] (b ∷ b_rest) u ha hb = absurd (omega (arith, hb.1))
below_lem (suc k) [] b u ha hb = absurd (omega (arith, ha.1))
below_lem (suc k) (a ∷ a_rest) [] u ha hb = absurd (omega (arith, hb.1))

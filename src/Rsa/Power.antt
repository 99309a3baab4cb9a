-- ===== src/Rsa/Power.antt =====
-- `libmpq__rsa_weak_operation` of src/mpq-rsa.c: squaring and multiplying, from the highest bit of the
-- exponent on.
use native.Mathlib.Nat.{
  mul_comm, mul_assoc, add-mul, mul-one, mod-add-div', add-mul-mod_self_right, pow-suc, pow-zero,
  add-zero, mod-lt,
}
use libmpq.Base.{
  ℕ, zero, suc, ◌+◌, ◌-◌, ◌*◌, ◌/◌, ◌%◌, ◌^◌, ◌≤◌, ◌<◌, ◌≡◌, refl, sym, ap, ◌∙◌, inl, inr, arith,
  bit_and, List, [], ok, some, get_elem?, length, ◌>>>◌, get_elem?_lt,
}
use libmpq.Base.Bits.{and_mask}
use libmpq.Rsa.{rsa_max_size, select_loop, multiply, negate, power_loop, reverse_into}
use libmpq.Rsa.Limbs.{value, IsLimbs, IsResult}
use libmpq.Rsa.Digits.{halve, halve_half, limb_bit}
use libmpq.Rsa.Multiply.{multiply-IsResult, select_bit}
use libmpq.Rsa.Order.{reverse_into-IsLimbs, get_elem?-reverse_into}

mul-mod : (x y n : ℕ) → x % n * y % n ≡ x * y % n
mul-mod x y n =
    let product : x * y ≡ x % n * y + x / n * y * n =
      ap (λ z. z * y) (sym (mod-add-div' x n))
      ∙ add-mul (x % n) (x / n * n) y
      ∙ ap (λ z. x % n * y + z)
          (mul_assoc (x / n) n y
            ∙ ap (λ z. x / n * z) (mul_comm n y)
            ∙ sym (mul_assoc (x / n) y n)) in
    sym (ap (λ z. z % n) product ∙ add-mul-mod_self_right (x % n * y) (x / n * y) n)

pow_add : (m a b : ℕ) → m ^ (a + b) ≡ m ^ a * m ^ b
pow_add m a zero =
    ap (λ n. m ^ n) (add-zero a) ∙ sym (ap (λ z. m ^ a * z) (pow-zero m) ∙ mul-one (m ^ a))
pow_add m a (suc b) =
    let e : a + suc b ≡ suc (a + b) = omega arith in
    ap (λ n. m ^ n) e
    ∙ pow-suc m (a + b)
    ∙ ap (λ z. z * m) (pow_add m a b)
    ∙ mul_assoc (m ^ a) (m ^ b) m
    ∙ ap (λ z. m ^ a * z) (sym (pow-suc m b))

pub squared_power : (m q n : ℕ) → m ^ q % n * (m ^ q % n) % n ≡ m ^ (q + q) % n
squared_power m q n =
    mul-mod (m ^ q) (m ^ q % n) n
    ∙ ap (λ z. z % n) (mul_comm (m ^ q) (m ^ q % n))
    ∙ mul-mod (m ^ q) (m ^ q) n
    ∙ ap (λ z. z % n) (sym (pow_add m q q))

pub next_power : (m q n : ℕ) → m ^ (q + q) % n * m % n ≡ m ^ (q + q + 1) % n
next_power m q n =
    let e : q + q + 1 ≡ suc (q + q) = omega arith in
    mul-mod (m ^ (q + q)) m n ∙ ap (λ z. z % n) (sym (ap (λ z. m ^ z) e ∙ pow-suc m (q + q)))

abbrev pub Round : ℕ → ℕ → ℕ → ℕ → List ℕ → Type 0
Round k m q n result = IsResult k (m ^ q % n) result

-- One round, whichever bit it reads.
Round-squared :
    (k : ℕ) (base n result : List ℕ) (q bit : ℕ)
    → IsLimbs k base
    → IsLimbs k n
    → 0 < value n
    → k ≤ rsa_max_size
    → bit < 2
    → Round k (value base) q (value n) result
    → (squared product : List ℕ) × (multiply result result n ≡ ok squared)
      × (multiply squared base n ≡ ok product)
      × Round k (value base) (q + q + bit) (value n) (select_loop (negate bit) product squared)
Round-squared k base n result q bit hb hn some_n fits small round =
    let m : ℕ = value base in
    let below_n : value result < value n =
      omega (arith, round.1, mod-lt (m ^ q) {m = value n} some_n) in
    let (squared, run, hs) = multiply-IsResult k result result n round.0 round.0 hn below_n fits in
    let es : value squared ≡ m ^ (q + q) % value n =
      hs.1 ∙ ap (λ x. x * x % value n) round.1 ∙ squared_power m q (value n) in
    let below_n' : value squared < value n =
      omega (arith, es, mod-lt (m ^ (q + q)) {m = value n} some_n) in
    let (product, run', hp) = multiply-IsResult k squared base n hs.0 hb hn below_n' fits in
    let ep : value product ≡ m ^ (q + q + 1) % value n =
      hp.1 ∙ ap (λ x. x * m % value n) es ∙ next_power m q (value n) in
    (
      squared,
      product,
      run,
      run',
      elim (select_bit k bit _ _ product squared (hp.0, ep) (hs.0, es)) [
        | inl (one, taken) ↦ (taken.0, taken.1 ∙ ap (λ b. m ^ (q + q + b) % value n) (sym one))
        | inr (inl (none, taken)) ↦
            let e : q + q ≡ q + q + bit = omega arith in
            (taken.0, taken.1 ∙ ap (λ x. m ^ x % value n) e)
        | inr (inr large) ↦ absurd (omega arith)
      ],
    )

-- The bit of the exponent that a round reads, counted from the low end.
pub exponent_bit :
    (k : ℕ) (exponent : List ℕ) (left bit : ℕ) {limb : ℕ}
    → IsLimbs k exponent
    → suc left + bit ≡ k * 8
    → get_elem? exponent (bit / 8) ≡ some limb
    → limb / 2 ^ (7 - bit % 8) % 2 ≡ halve left (value (reverse_into exponent [])) % 2
exponent_bit k exponent left bit {limb} limbs e at =
    let reversed : IsLimbs (k + 0) (reverse_into exponent []) =
      reverse_into-IsLimbs k 0 exponent [] limbs (tt, refl) in
    let index : length exponent - 1 - bit / 8 ≡ left / 8 = omega (arith, limbs.1) in
    let shift : 7 - bit % 8 ≡ left % 8 = omega arith in
    let at' : get_elem? (reverse_into exponent []) (left / 8) ≡ some limb =
      ap (get_elem? (reverse_into exponent [])) (sym index)
      ∙ get_elem?-reverse_into exponent [] (bit / 8) (omega (arith, limbs.1))
      ∙ at in
    ap (λ r. limb / 2 ^ r % 2) shift ∙ limb_bit (reverse_into exponent []) left reversed.0 at'

pub power_loop-Round :
    (k left bit : ℕ) (exponent base n result : List ℕ)
    → IsLimbs k exponent
    → IsLimbs k base
    → IsLimbs k n
    → 0 < value n
    → k ≤ rsa_max_size
    → left + bit ≡ k * 8
    → Round k (value base) (halve left (value (reverse_into exponent []))) (value n) result
    → (out : List ℕ) × (power_loop left bit exponent base n result ≡ ok out)
      × Round k (value base) (value (reverse_into exponent [])) (value n) out
unfolding power_loop
power_loop-Round k zero bit exponent base n result he hb hn some_n fits total round =
    (result, refl, round)
power_loop-Round k (suc left) bit exponent base n result he hb hn some_n fits total round =
    let e : ℕ = value (reverse_into exponent []) in
    let (limb, at) = get_elem?_lt exponent (bit / 8) (omega (arith, he.1)) in
    let x : ℕ = bit_and (limb >>> (7 - bit % 8)) 1 in
    let ex : x ≡ halve left e % 2 =
      and_mask 1 (limb >>> (7 - bit % 8)) ∙ exponent_bit k exponent left bit he total at in
    let q : ℕ = halve (suc left) e in
    let eq : q + q + x ≡ halve left e = omega (arith, halve_half left e, ex) in
    let (squared, product, run, run', next) =
      Round-squared k base n result q x hb hn some_n fits (omega (arith, ex)) round in
    let (out, rest, done) =
      power_loop-Round k left (bit + 1) exponent base n (select_loop (negate x) product squared) he
        hb hn some_n fits (omega arith) (next.0, next.1 ∙ ap (λ y. value base ^ y % value n) eq) in
    (out, rw (at, run, run', rest) refl, done)

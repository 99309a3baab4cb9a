-- ===== src/Rsa/Public.antt =====
-- The whole of `libmpq__rsa_strong_public_operation`, src/mpq-rsa.c.
use native.Mathlib.Nat.{mod-lt}
use libmpq.Base.{
  ℕ, zero, suc, ◌+◌, ◌-◌, ◌*◌, ◌/◌, ◌%◌, ◌^◌, ◌≤◌, ◌<◌, ◌≡◌, refl, sym, ap, ◌∙◌, inl, inr, arith,
  Bool, true, false, bit_and, List, [], ok, Bool-cases, ◌==◌, ◌>>>◌, get_elem?_lt,
}
use libmpq.Base.Bits.{and_mask}
use libmpq.Rsa.{rsa_max_size, reverse_into, public_round, public_loop}
use libmpq.Rsa.Limbs.{value, IsLimbs, IsResult}
use libmpq.Rsa.Digits.{halve, halve_half}
use libmpq.Rsa.Multiply.{multiply-IsResult}
use libmpq.Rsa.Power.{squared_power, next_power, exponent_bit}

-- The number after the bits `q` of the exponent; before the first set bit it is one.
abbrev pub Reached : ℕ → ℕ → ℕ → ℕ → List ℕ → Bool → Type 0
Reached k m q n result started = IsResult k (m ^ q % n) result × (started ≡ false → (q ≡ 0))

module _ (k : ℕ) (base n : List ℕ) (hb : IsLimbs k base) (hn : IsLimbs k n) (large : 1 < value n)
    (fits : k ≤ rsa_max_size) where
  abbrev Next : ℕ → ℕ → List ℕ → Bool → Type 0
  Next q set result started =
      (after : List ℕ) × (started' : Bool) × (public_round set base n result started
        ≡ ok (after, started'))
      × Reached k (value base) (q + q + set) (value n) after started'

  result_lt :
      (q : ℕ) (result : List ℕ)
      → IsResult k (value base ^ q % value n) result
      → value result < value n
  result_lt q result is = omega (arith, is.1, mod-lt (value base ^ q) {m = value n} (omega arith))

  waiting :
      (q set : ℕ) (result : List ℕ)
      → set < 2
      → Reached k (value base) q (value n) result false
      → Next q set result false
  unfolding public_round
  waiting q zero result small reached =
      let none : q ≡ 0 = reached.1 refl in
      let e : q ≡ q + q + 0 = omega arith in
      (
        result,
        false,
        refl,
        ((reached.0.0, reached.0.1 ∙ ap (λ x. value base ^ x % value n) e), λ _. omega arith),
      )
  waiting q (suc zero) result small reached =
      let none : q ≡ 0 = reached.1 refl in
      let (first, run, done) =
        multiply-IsResult k result base n reached.0.0 hb hn (result_lt q result reached.0) fits in
      let e : q ≡ q + q = omega arith in
      (
        first,
        true,
        rw run refl,
        (
          (
            done.0,
            done.1
                ∙ ap (λ x. x * value base % value n) reached.0.1
                ∙ ap (λ x. value base ^ x % value n * value base % value n) e
                ∙ next_power (value base) q (value n),
          ),
          λ e. cc,
        ),
      )
  waiting q (suc (suc set)) result small reached = absurd (omega arith)

  running :
      (q set : ℕ) (result : List ℕ)
      → set < 2
      → Reached k (value base) q (value n) result true
      → Next q set result true
  unfolding public_round
  running q set result small reached =
      let (squared, run, hs) =
        multiply-IsResult k result result n reached.0.0 reached.0.0 hn
          (result_lt q result reached.0) fits in
      let es : value squared ≡ value base ^ (q + q) % value n =
        hs.1 ∙ ap (λ x. x * x % value n) reached.0.1 ∙ squared_power (value base) q (value n) in
      elim (Bool-cases (set == 0)) [
        | inl t ↦
            let e : q + q ≡ q + q + set = ground arith in
            (
              squared,
              true,
              rw (run, t) refl,
              ((hs.0, es ∙ ap (λ x. value base ^ x % value n) e), λ e. cc),
            )
        | inr f ↦
            let one : 1 ≡ set = ground arith in
            let (product, run', hp) =
              multiply-IsResult k squared base n hs.0 hb hn (result_lt (q + q) squared (hs.0, es))
                fits in
            (
              product,
              true,
              rw (run, f, run') refl,
              (
                (
                  hp.0,
                  hp.1
                      ∙ ap (λ x. x * value base % value n) es
                      ∙ next_power (value base) q (value n)
                      ∙ ap (λ b. value base ^ (q + q + b) % value n) one,
                ),
                λ e. cc,
              ),
            )
      ]

  Next-round :
      (q set : ℕ) (result : List ℕ) (started : Bool)
      → set < 2
      → Reached k (value base) q (value n) result started
      → Next q set result started
  Next-round q set result false small reached = waiting q set result small reached
  Next-round q set result true small reached = running q set result small reached

  pub public_loop-Reached :
      (left bit : ℕ) (exponent result : List ℕ) (started : Bool)
      → IsLimbs k exponent
      → left + bit ≡ k * 8
      → Reached k
          (value base)
          (halve left (value (reverse_into exponent [])))
          (value n)
          result
          started
      → (out : List ℕ) × (started' : Bool) × (public_loop left bit exponent base n result started
          ≡ ok (out, started'))
        × Reached k (value base) (value (reverse_into exponent [])) (value n) out started'
  unfolding public_loop
  public_loop-Reached zero bit exponent result started he total reached =
      (result, started, refl, reached)
  public_loop-Reached (suc left) bit exponent result started he total reached =
      let e : ℕ = value (reverse_into exponent []) in
      let (limb, at) = get_elem?_lt exponent (bit / 8) (omega (arith, he.1)) in
      let x : ℕ = bit_and (limb >>> (7 - bit % 8)) 1 in
      let ex : x ≡ halve left e % 2 =
        and_mask 1 (limb >>> (7 - bit % 8)) ∙ exponent_bit k exponent left bit he total at in
      let q : ℕ = halve (suc left) e in
      let eq : q + q + x ≡ halve left e = omega (arith, halve_half left e, ex) in
      let (after, started', run, next) =
        Next-round q x result started (omega (arith, ex)) reached in
      let (out, last, rest, done) =
        public_loop-Reached left (bit + 1) exponent after started' he (omega arith) (
          (next.0.0, next.0.1 ∙ ap (λ y. value base ^ y % value n) eq),
          λ waits. sym eq ∙ next.1 waits,
        ) in
      (out, last, rw (at, run, rest) refl, done)

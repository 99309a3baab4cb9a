-- ===== src/Rsa/Multiply.antt =====
-- `multiply` of src/mpq-rsa.c: doubling and adding, from the highest bit on.
use native.Mathlib.Nat.{add-mod, mod-add-mod, mul-add, mul-zero, mul-one, mod-lt, mod-eq_of_lt}
use libmpq.Base.{
  ℕ, zero, suc, ◌+◌, ◌*◌, ◌/◌, ◌%◌, ◌≤◌, ◌<◌, ◌≡◌, ◌⊎◌, refl, sym, ap, ◌∙◌, inl, inr, arith,
  bit_and, List, ok, ltb, false, length, replicate, ◌>>>◌, get_elem?_lt,
}
use libmpq.Base.Bits.{and_mask}
use libmpq.Rsa.{add_mod, add_reduced, rsa_max_size, select_loop, multiply_loop, multiply, negate}
use libmpq.Rsa.Limbs.{value, IsLimbs, IsResult, add_reduced-IsResult, select_ones, select_zeros}
use libmpq.Rsa.Digits.{halve, halve_half, halve_all, limb_bit}

-- The choice between two results by a bit.
pub select_bit :
    (k bit w v : ℕ) (xs ys : List ℕ)
    → IsResult k w xs
    → IsResult k v ys
    → ((bit ≡ 1) × IsResult k w (select_loop (negate bit) xs ys))
      ⊎ ((bit ≡ 0) × IsResult k v (select_loop (negate bit) xs ys))
      ⊎ (2 ≤ bit)
select_bit k zero w v xs ys hx hy = inr (inl (refl, rw (select_zeros k xs ys hx.0 hy.0) hy))
select_bit k (suc zero) w v xs ys hx hy = inl (refl, rw (select_ones k xs ys hx.0 hy.0) hx)
select_bit k (suc (suc bit)) w v xs ys hx hy = inr (inr (omega arith))

twice : (a q n : ℕ) → (a * q % n + a * q % n) % n ≡ a * (q + q) % n
twice a q n = sym (add-mod (a * q) (a * q) n) ∙ ap (λ x. x % n) (sym (mul-add a q q))

twice_more : (a q n : ℕ) → (a * (q + q) % n + a) % n ≡ a * (q + q + 1) % n
twice_more a q n =
    let e : a * (q + q) + a ≡ a * (q + q + 1) =
      sym (mul-add a (q + q) 1 ∙ ap (λ x. a * (q + q) + x) (mul-one a)) in
    mod-add-mod (a * (q + q)) n a ∙ ap (λ x. x % n) e

abbrev Round : ℕ → ℕ → ℕ → ℕ → List ℕ → Type 0
Round k a q n result = IsResult k (a * q % n) result

Round-next :
    (k : ℕ) (a n result : List ℕ) (q bit : ℕ)
    → IsLimbs k a
    → IsLimbs k n
    → value a < value n
    → bit < 2
    → Round k (value a) q (value n) result
    → Round k (value a) (q + q + bit) (value n) (
        select_loop
          (negate bit)
          (add_reduced (add_reduced result result n) a n)
          (add_reduced result result n))
Round-next k a n result q bit ha hn less small round =
    let below : value result < value n =
      omega (arith, round.1, mod-lt (value a * q) {m = value n} (omega arith)) in
    let doubled : List ℕ = add_reduced result result n in
    let hd : IsResult k ((value result + value result) % value n) doubled =
      add_reduced-IsResult k result result n round.0 round.0 hn below below in
    let below' : value doubled < value n =
      omega (arith, hd.1, mod-lt (value result + value result) {m = value n} (omega arith)) in
    let hs : IsResult k ((value doubled + value a) % value n) (add_reduced doubled a n) =
      add_reduced-IsResult k doubled a n hd.0 ha hn below' less in
    let ed : (value result + value result) % value n ≡ value a * (q + q) % value n =
      ap (λ x. (x + x) % value n) round.1 ∙ twice (value a) q (value n) in
    let es : (value doubled + value a) % value n ≡ value a * (q + q + 1) % value n =
      ap (λ x. (x + value a) % value n) (hd.1 ∙ ed) ∙ twice_more (value a) q (value n) in
    elim (select_bit k bit _ _ (add_reduced doubled a n) doubled hs hd) [
      | inl (one, taken) ↦
          (taken.0, taken.1 ∙ es ∙ ap (λ b. value a * (q + q + b) % value n) (sym one))
      | inr (inl (none, taken)) ↦
          let e : q + q ≡ q + q + bit = omega arith in
          (taken.0, taken.1 ∙ ed ∙ ap (λ x. value a * x % value n) e)
      | inr (inr large) ↦ absurd (omega arith)
    ]

add_mod_lem : (a b n : List ℕ) → length n ≤ rsa_max_size → add_mod a b n ≡ ok (add_reduced a b n)
unfolding add_mod
add_mod_lem a b n fits = ground arith

multiply_loop-Round :
    (k bit : ℕ) (a b n result : List ℕ)
    → IsLimbs k a
    → IsLimbs k b
    → IsLimbs k n
    → value a < value n
    → k ≤ rsa_max_size
    → bit ≤ k * 8
    → Round k (value a) (halve bit (value b)) (value n) result
    → (out : List ℕ) × (multiply_loop bit a b n result ≡ ok out)
      × Round k (value a) (value b) (value n) out
unfolding multiply_loop
multiply_loop-Round k zero a b n result ha hb hn less fits small round = (result, refl, round)
multiply_loop-Round k (suc bit) a b n result ha hb hn less fits small round =
    let (limb, at) = get_elem?_lt b (bit / 8) (omega (arith, hb.1)) in
    let x : ℕ = bit_and (limb >>> (bit % 8)) 1 in
    let ex : x ≡ halve bit (value b) % 2 =
      and_mask 1 (limb >>> (bit % 8)) ∙ limb_bit b bit hb.0 at in
    let q : ℕ = halve (suc bit) (value b) in
    let eq : q + q + x ≡ halve bit (value b) = omega (arith, halve_half bit (value b), ex) in
    let next : Round k (value a) (q + q + x) (value n) (
        select_loop (negate x) (add_reduced (add_reduced result result n) a n)
          (add_reduced result result n)) =
      Round-next k a n result q x ha hn less (omega (arith, ex)) round in
    let (out, run, done) =
      multiply_loop-Round k bit a b n
        (select_loop (negate x) (add_reduced (add_reduced result result n) a n)
          (add_reduced result result n))
        ha hb hn less fits (omega arith) (next.0, next.1 ∙ ap (λ y. value a * y % value n) eq) in
    let doubled : List ℕ = add_reduced result result n in
    let e1 : add_mod result result n ≡ ok doubled =
      add_mod_lem result result n (omega (arith, hn.1)) in
    let e2 : add_mod doubled a n ≡ ok (add_reduced doubled a n) =
      add_mod_lem doubled a n (omega (arith, hn.1)) in
    (out, rw (at, e1, e2, run) refl, done)

pub zero-IsLimbs : (k : ℕ) → IsResult k 0 (replicate k 0)
zero-IsLimbs zero = ((tt, refl), refl)
zero-IsLimbs (suc k) =
    let ih : IsResult k 0 (replicate k 0) = zero-IsLimbs k in
    (((omega arith, ih.0.0), ap suc ih.0.1), omega (arith, ih.1))

-- For arrays of bytes of one size of at most 256, with the first number below the modulus,
-- `multiply` reads and writes inside its arrays, those of LIBMPQ_RSA_MAX_SIZE bytes included, and
-- its result, of this size, is the product modulo the modulus.
pub multiply-IsResult :
    (k : ℕ) (a b n : List ℕ)
    → IsLimbs k a
    → IsLimbs k b
    → IsLimbs k n
    → value a < value n
    → k ≤ rsa_max_size
    → (out : List ℕ) × (multiply a b n ≡ ok out) × IsResult k (value a * value b % value n) out
unfolding multiply
multiply-IsResult k a b n ha hb hn less fits =
    let room : ltb rsa_max_size k ≡ false = ground arith in
    let start : IsResult k 0 (replicate k 0) = zero-IsLimbs k in
    let e : value a * halve (k * 8) (value b) % value n ≡ 0 =
      ap (λ x. value a * x % value n) (halve_all k b hb)
      ∙ ap (λ x. x % value n) (mul-zero (value a))
      ∙ mod-eq_of_lt (omega arith) in
    rw (hn.1, room)
      (multiply_loop-Round k (k * 8) a b n (replicate k 0) ha hb hn less fits (omega arith)
        (start.0, start.1 ∙ sym e))

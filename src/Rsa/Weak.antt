-- ===== src/Rsa/Weak.antt =====
-- The whole of `libmpq__rsa_weak_operation`, src/mpq-rsa.c.
use mathlib.Core.List.{append-nil}
use native.Mathlib.Nat.{mod-eq_of_lt, pow-zero}
use libmpq.Base.{
  ℕ, suc, ◌+◌, ◌*◌, ◌%◌, ◌^◌, ◌≤◌, ◌<◌, ◌≡◌, ◌⊎◌, refl, sym, ap, ◌∙◌, inl, inr, arith, List, [],
  ◌∷◌, ◌++◌, ok, err, format_error, length, replicate, read_range,
}
use libmpq.Base.Memory.{read_range_mid}
use libmpq.Rsa.{power_loop, weak_operation, reverse_into, rsa_size, rsa_max_size}
use libmpq.Rsa.Limbs.{value, IsLimbs, IsResult}
use libmpq.Rsa.Digits.{halve, halve_all}
use libmpq.Rsa.Multiply.{zero-IsLimbs}
use libmpq.Rsa.Order.{
  big_endian, value-reverse_into, reverse_into-IsLimbs, reverse_into_twice, below_lem,
}
use libmpq.Rsa.Power.{power_loop-Round}

pub read_all : (xs back : List ℕ) (n : ℕ) → n ≡ length xs → read_range (xs ++ back) 0 n ≡ ok xs
read_all xs back n e = read_range_mid [] xs back 0 n refl e

pub one-IsResult : (k : ℕ) → IsResult (suc k) 1 (1 ∷ replicate k 0)
one-IsResult k =
    let rest : IsResult k 0 (replicate k 0) = zero-IsLimbs k in
    (((omega arith, rest.0.0), ap suc rest.0.1), omega (arith, rest.1))

-- The number that a reversed array stands for, and its size.
pub reversed :
    (k : ℕ) (xs : List ℕ)
    → IsLimbs k xs
    → IsLimbs k (reverse_into xs []) × (value (reverse_into xs []) ≡ big_endian xs 0)
reversed k xs limbs =
    let whole : IsLimbs (k + 0) (reverse_into xs []) =
      reverse_into-IsLimbs k 0 xs [] limbs (tt, refl) in
    ((whole.0, omega (arith, whole.1)), value-reverse_into xs [])

-- The loop from the number one on.
powers :
    (k : ℕ) (modulus exponent input : List ℕ)
    → IsLimbs (suc k) modulus
    → IsLimbs (suc k) exponent
    → IsLimbs (suc k) input
    → 1 < big_endian modulus 0
    → suc k ≤ rsa_max_size
    → (out : List ℕ) × (power_loop
          (suc k * 8)
          0
          exponent
          (reverse_into input [])
          (reverse_into modulus [])
          (1 ∷ replicate k 0)
        ≡ ok out)
      × IsResult (suc k) (big_endian input 0 ^ big_endian exponent 0 % big_endian modulus 0) out
powers k modulus exponent input hn he hb large fits =
    let n : List ℕ = reverse_into modulus [] in
    let base : List ℕ = reverse_into input [] in
    let rn = reversed (suc k) modulus hn in
    let rb = reversed (suc k) input hb in
    let re = reversed (suc k) exponent he in
    let start : IsResult (suc k) 1 (1 ∷ replicate k 0) = one-IsResult k in
    let none : halve (suc k * 8) (value (reverse_into exponent [])) ≡ 0 =
      halve_all (suc k) (reverse_into exponent []) re.0 in
    let one : value base ^ halve (suc k * 8) (value (reverse_into exponent [])) % value n ≡ 1 =
      ap (λ x. value base ^ x % value n) none
      ∙ ap (λ x. x % value n) (pow-zero (value base))
      ∙ mod-eq_of_lt (omega (arith, rn.1)) in
    let (out, run, done) =
      power_loop-Round (suc k) (suc k * 8) 0 exponent base n (1 ∷ replicate k 0) he rb.0 rn.0
        (omega (arith, rn.1)) fits (omega arith) (start.0, start.1 ∙ sym one) in
    (out, run, (done.0, done.1 ∙ rw (rb.1, re.1, rn.1) refl))

abbrev pub IsPower : List ℕ → List ℕ → List ℕ → List ℕ → Type 0
IsPower modulus exponent input out =
    IsLimbs rsa_size out
    × (big_endian out 0 ≡ big_endian input 0 ^ big_endian exponent 0 % big_endian modulus 0)

-- For a key of 64 bytes of modulus, above one, and 64 bytes of exponent, and an input of 64 bytes,
-- all with the high byte first, the operation fails with a format error exactly where the input is
-- not below the modulus, and otherwise ends with 64 bytes that are the input to the power of the
-- exponent, modulo the modulus.
pub weak_operation-IsPower :
    (modulus exponent input : List ℕ)
    → IsLimbs rsa_size modulus
    → IsLimbs rsa_size exponent
    → IsLimbs rsa_size input
    → 1 < big_endian modulus 0
    → ((big_endian input 0 < big_endian modulus 0)
        × (out : List ℕ) × (weak_operation (modulus ++ exponent) input ≡ ok out)
        × IsPower modulus exponent input out)
      ⊎ ((big_endian modulus 0 ≤ big_endian input 0)
          × (weak_operation (modulus ++ exponent) input ≡ err format_error))
unfolding weak_operation
weak_operation-IsPower modulus exponent input hn he hb large =
    let from_modulus : read_range (modulus ++ exponent) 0 64 ≡ ok modulus =
      read_all modulus exponent 64 (sym hn.1) in
    let from_exponent : read_range (modulus ++ exponent) 64 64 ≡ ok exponent =
      ap (λ l. read_range (modulus ++ l) 64 64) (sym (append-nil exponent))
      ∙ read_range_mid modulus exponent [] 64 64 (sym hn.1) (sym he.1) in
    let from_input : read_range input 0 64 ≡ ok input =
      ap (λ l. read_range l 0 64) (sym (append-nil input)) ∙ read_all input [] 64 (sym hb.1) in
    elim (below_lem 64 input modulus 0 hb hn) [
      | inl (e, less) ↦
          let (out, run, done) = powers 63 modulus exponent input hn he hb large (omega arith) in
          let ro = reversed 64 out done.0 in
          inl (
            less,
            reverse_into out [],
            rw (from_modulus, from_input, e, from_exponent, run) refl,
            (
              ro.0,
              sym (value-reverse_into (reverse_into out []) [])
                  ∙ ap value (reverse_into_twice out)
                  ∙ done.1,
            ),
          )
      | inr (e, more) ↦ inr (more, rw (from_modulus, from_input, e) refl)
    ]

-- ===== src/Rsa/Strong.antt =====
-- The whole of `libmpq__rsa_strong_public_operation`, src/mpq-rsa.c.
use mathlib.Core.List.{append-nil}
use native.Mathlib.Nat.{mod-eq_of_lt, pow-zero}
use libmpq.Base.{
  ℕ, suc, ◌+◌, ◌*◌, ◌%◌, ◌^◌, ◌≤◌, ◌<◌, ◌≡◌, ◌⊎◌, refl, sym, ap, ◌∙◌, inl, inr, arith, true, false,
  List, [], ◌∷◌, ◌++◌, some, ok, err, format_error, replicate, read_range, Bool-cases,
}
use libmpq.Base.Memory.{read_range_mid}
use libmpq.Rsa.{public_loop, strong_public_operation, reverse_into, strong_size, rsa_max_size}
use libmpq.Rsa.Limbs.{value, IsLimbs, IsResult}
use libmpq.Rsa.Digits.{halve, halve_all}
use libmpq.Rsa.Order.{big_endian, value-reverse_into, reverse_into_twice, below_lem}
use libmpq.Rsa.Public.{public_loop-Reached}
use libmpq.Rsa.Key.{IsKey, rsa_key_validate-Decides, big_endian_le}
use libmpq.Rsa.Weak.{read_all, one-IsResult, reversed}

-- The loop from the number one on, for an exponent that is not zero.
powers :
    (k : ℕ) (modulus exponent input : List ℕ)
    → IsLimbs (suc k) modulus
    → IsLimbs (suc k) exponent
    → IsLimbs (suc k) input
    → 1 < big_endian modulus 0
    → 0 < big_endian exponent 0
    → suc k ≤ rsa_max_size
    → (out : List ℕ) × (public_loop
          (suc k * 8)
          0
          exponent
          (reverse_into input [])
          (reverse_into modulus [])
          (1 ∷ replicate k 0)
          false
        ≡ ok (out, true))
      × IsResult (suc k) (big_endian input 0 ^ big_endian exponent 0 % big_endian modulus 0) out
powers k modulus exponent input hn he hb large some_bit fits =
    let n : List ℕ = reverse_into modulus [] in
    let base : List ℕ = reverse_into input [] in
    let rn = reversed (suc k) modulus hn in
    let rb = reversed (suc k) input hb in
    let re = reversed (suc k) exponent he in
    let start : IsResult (suc k) 1 (1 ∷ replicate k 0) = one-IsResult k in
    let none : halve (suc k * 8) (value (reverse_into exponent [])) ≡ 0 =
      halve_all (suc k) (reverse_into exponent []) re.0 in
    let one : value base ^ halve (suc k * 8) (value (reverse_into exponent [])) % value n ≡ 1 =
      ap (λ x. value base ^ x % value n) none
      ∙ ap (λ x. x % value n) (pow-zero (value base))
      ∙ mod-eq_of_lt (omega (arith, rn.1)) in
    let (out, started, run, done) =
      public_loop-Reached (suc k) base n rb.0 rn.0 (omega (arith, rn.1)) fits (suc k * 8) 0 exponent
        (1 ∷ replicate k 0) false he (omega arith) ((start.0, start.1 ∙ sym one), λ _. none) in
    let set : started ≡ true = elim (Bool-cases started) [
      | inl e ↦ e
      | inr e ↦ absurd (omega (arith, done.1 e, re.1))
    ] in
    (out, run ∙ ap (λ s. ok (out, s)) set, (done.0.0, done.0.1 ∙ rw (rb.1, re.1, rn.1) refl))

abbrev pub IsPower : List ℕ → List ℕ → List ℕ → List ℕ → Type 0
IsPower modulus exponent input out =
    IsLimbs strong_size out
    × (big_endian out 0 ≡ big_endian input 0 ^ big_endian exponent 0 % big_endian modulus 0)

-- For 256 bytes of modulus, 256 bytes of exponent and an input of 256 bytes, all with the high
-- byte first, the operation ends with 256 bytes that are the input to the power of the exponent,
-- modulo the modulus, where modulus and exponent are a key (the highest bit of the modulus is set,
-- both numbers are odd, and the exponent is at least three and below the modulus) and the input is
-- below the modulus; otherwise it fails with a format error.
pub strong_public_operation-IsPower :
    (first : ℕ) (rest exponent input : List ℕ)
    → IsLimbs strong_size (first ∷ rest)
    → IsLimbs strong_size exponent
    → IsLimbs strong_size input
    → (IsKey first rest exponent
        × (big_endian input 0 < big_endian (first ∷ rest) 0)
        × (out : List ℕ) × (strong_public_operation (some ((first ∷ rest) ++ exponent)) (some input)
            ≡ ok out)
        × IsPower (first ∷ rest) exponent input out)
      ⊎ ((strong_public_operation (some ((first ∷ rest) ++ exponent)) (some input)
            ≡ err format_error)
          × ((¬ IsKey first rest exponent) ⊎ (big_endian (first ∷ rest) 0 ≤ big_endian input 0)))
unfolding strong_public_operation
strong_public_operation-IsPower first rest exponent input hn he hb =
    let modulus : List ℕ = first ∷ rest in
    let from_modulus : read_range (modulus ++ exponent) 0 256 ≡ ok modulus =
      read_all modulus exponent 256 (sym hn.1) in
    let from_exponent : read_range (modulus ++ exponent) 256 256 ≡ ok exponent =
      ap (λ l. read_range (modulus ++ l) 256 256) (sym (append-nil exponent))
      ∙ read_range_mid modulus exponent [] 256 256 (sym hn.1) (sym he.1) in
    let from_input : read_range input 0 256 ≡ ok input =
      ap (λ l. read_range l 0 256) (sym (append-nil input)) ∙ read_all input [] 256 (sym hb.1) in
    elim (rsa_key_validate-Decides 255 first rest exponent (omega arith) hn he) [
      | inr (refused, no_key) ↦ inr (rw refused refl, inl no_key)
      | inl (valid, key) ↦ elim (below_lem 256 input modulus 0 hb hn) [
        | inr (e, more) ↦ inr (rw (valid, from_modulus, from_input, e) refl, inr more)
        | inl (e, less) ↦
            let large : 1 < big_endian modulus 0 =
              omega (arith, big_endian_le rest (0 * 256 + first), key.0) in
            let (out, run, done) =
              powers 255 modulus exponent input hn he hb large (omega (arith, key.3))
                (omega arith) in
            let ro = reversed 256 out done.0 in
            inl (
              key,
              less,
              reverse_into out [],
              rw (valid, from_modulus, from_input, e, from_exponent, run) refl,
              (
                ro.0,
                sym (value-reverse_into (reverse_into out []) [])
                    ∙ ap value (reverse_into_twice out)
                    ∙ done.1,
              ),
            )
      ]
    ]

-- ===== src/Rsa/Key.antt =====
-- Which keys `rsa_key_validate` of src/mpq-rsa.c accepts.
use mathlib.Core.List.{append-nil, append_assoc}
use Prim.Native.Nat.{max}
use libmpq.Base.{
  ℕ, zero, suc, ◌+◌, ◌-◌, ◌*◌, ◌/◌, ◌%◌, ◌≤◌, ◌<◌, ◌≡◌, ◌⊎◌, refl, sym, ap, ap₂, ◌∙◌, inl, inr,
  arith, true, false, ◌&&◌, ◌||◌, not, bit_and, bit_or, List, [], ◌∷◌, ◌++◌, some, ok, err,
  format_error, Outcome, get_elem?, length, length-append, read_range, IsByte, Bool-cases, ◌==◌,
  ltb, get_elem?-append,
}
use libmpq.Base.Bits.{and_mask, and_top, or_digit}
use libmpq.Base.Memory.{read_range_mid}
use libmpq.Rsa.{any_bits, validate_exponent, rsa_key_validate}
use libmpq.Rsa.Limbs.{IsLimbs}
use libmpq.Rsa.Order.{big_endian, below_lem}

or_zero_fuel : (n a b : ℕ) → a ≤ n → b ≤ n → bit_or a b ≡ 0 → (a ≡ 0) × (b ≡ 0)
or_zero_fuel zero a b ha hb e = (omega arith, omega arith)
or_zero_fuel (suc n) a b ha hb e =
    let digits : bit_or a b ≡ bit_or (a / 2) (b / 2) * 2 + max (a % 2) (b % 2) = or_digit a b in
    let ih : (a / 2 ≡ 0) × (b / 2 ≡ 0) =
      or_zero_fuel n (a / 2) (b / 2) (omega arith) (omega arith) (omega arith) in
    (omega (arith, ih.0), omega (arith, ih.1))

or_zero : (a b : ℕ) → bit_or a b ≡ 0 → (a ≡ 0) × (b ≡ 0)
or_zero a b e = or_zero_fuel (a + b) a b (omega arith) (omega arith) e

pub big_endian_le : (xs : List ℕ) (u : ℕ) → u ≤ big_endian xs u
big_endian_le [] u = omega arith
big_endian_le (x ∷ xs) u = omega (arith, big_endian_le xs (u * 256 + x))

-- Bytes whose disjunction is zero do not count.
any_bits_zero : (xs : List ℕ) (s : ℕ) → any_bits xs s ≡ 0 → (s ≡ 0) × (big_endian xs 0 ≡ 0)
unfolding any_bits
any_bits_zero [] s e = (e, refl)
any_bits_zero (x ∷ xs) s e =
    let (both, rest) = any_bits_zero xs (bit_or s x) e in
    let (none, byte) = or_zero s x both in (none, rw byte rest)

any_bits_none : (xs : List ℕ) → big_endian xs 0 ≡ 0 → any_bits xs 0 ≡ 0
unfolding any_bits
any_bits_none [] e = refl
any_bits_none (x ∷ xs) e =
    let none : x ≡ 0 = omega (arith, big_endian_le xs (0 * 256 + x)) in
    let e' : big_endian xs 0 ≡ 0 = rw none at e in rw none (any_bits_none xs e')

big_endian-append :
    (xs : List ℕ) (y u : ℕ) → big_endian (xs ++ (y ∷ [])) u ≡ big_endian xs u * 256 + y
big_endian-append [] y u = refl
big_endian-append (x ∷ xs) y u = big_endian-append xs y (u * 256 + x)

last_of :
    (k : ℕ) (xs : List ℕ)
    → IsLimbs (suc k) xs
    → (front : List ℕ) × (x : ℕ) × (xs ≡ front ++ (x ∷ [])) × (length front ≡ k) × IsByte x
last_of zero (x ∷ []) limbs = ([], x, refl, refl, limbs.0.0)
last_of (suc k) (x ∷ xs) limbs =
    let (front, y, e, long, byte) = last_of k xs (limbs.0.1, omega (arith, limbs.1)) in
    (x ∷ front, y, ap (λ l. x ∷ l) e, ap suc long, byte)
last_of zero (x ∷ y ∷ xs) limbs = absurd (omega (arith, limbs.1))
last_of k [] limbs = absurd (omega (arith, limbs.1))

-- A modulus of the full size, which is odd, and an odd exponent from three on below it.
abbrev pub IsKey : ℕ → List ℕ → List ℕ → Type 0
IsKey first rest exponent =
    (128 ≤ first)
    × (big_endian (first ∷ rest) 0 % 2 ≡ 1)
    × (big_endian exponent 0 % 2 ≡ 1)
    × (3 ≤ big_endian exponent 0)
    × (big_endian exponent 0 < big_endian (first ∷ rest) 0)

-- The answer to whether a proposition holds, as a code.
abbrev pub Decides : Type 0 → Outcome (Unit {0}) → Type 0
Decides Holds run = ((run ≡ ok tt) × Holds) ⊎ ((run ≡ err format_error) × ¬ Holds)

at_least_three :
    (front : List ℕ) (low : ℕ) (exponent : List ℕ)
    → big_endian exponent 0 ≡ big_endian front 0 * 256 + low
    → ((any_bits front 0 == 0) && ltb low 3) ≡ false
    → 3 ≤ big_endian exponent 0
at_least_three front low exponent number e = elim (Bool-cases (big_endian front 0 == 0)) [
  | inl t ↦
      let none : any_bits front 0 ≡ 0 = any_bits_none front (ground arith) in
      let large : 3 ≤ low = ground (arith, none, e) in omega arith
  | inr f ↦ ground (arith, number)
]

validate_exponent-Decides :
    (k : ℕ) (modulus front exponent : List ℕ) (low : ℕ)
    → IsLimbs (suc k) modulus
    → IsLimbs (suc k) exponent
    → exponent ≡ front ++ (low ∷ [])
    → length front ≡ k
    → Decides
        ((3 ≤ big_endian exponent 0) × (big_endian exponent 0 < big_endian modulus 0))
        (validate_exponent (modulus ++ exponent) (2 * suc k) (suc k) low)
unfolding validate_exponent
validate_exponent-Decides k modulus front exponent low hn he split long =
    let size : 2 * suc k - 1 - suc k ≡ k = omega arith in
    let middle : read_range (modulus ++ exponent) (suc k) k ≡ ok front =
      ap (λ l. read_range (modulus ++ l) (suc k) k) split
      ∙ read_range_mid modulus front (low ∷ []) (suc k) k (sym hn.1) (sym long) in
    let from_modulus : read_range (modulus ++ exponent) 0 (suc k) ≡ ok modulus =
      read_range_mid [] modulus exponent 0 (suc k) refl (sym hn.1) in
    let from_exponent : read_range (modulus ++ exponent) (suc k) (suc k) ≡ ok exponent =
      ap (λ l. read_range (modulus ++ l) (suc k) (suc k)) (sym (append-nil exponent))
      ∙ read_range_mid modulus exponent [] (suc k) (suc k) (sym hn.1) (sym he.1) in
    let number : big_endian exponent 0 ≡ big_endian front 0 * 256 + low =
      ap (λ l. big_endian l 0) split ∙ big_endian-append front low 0 in
    elim (Bool-cases ((any_bits front 0 == 0) && ltb low 3)) [
      | inl e ↦
          let none : big_endian front 0 ≡ 0 = (any_bits_zero front 0 (ground arith)).1 in
          let little : low < 3 = ground arith in
          inr (rw (size, middle, from_modulus, from_exponent, e) refl, λ key. omega (arith, key.0))
      | inr e ↦
          let three : 3 ≤ big_endian exponent 0 = at_least_three front low exponent number e in
          elim (below_lem (suc k) exponent modulus 0 he hn) [
            | inl (less, holds) ↦
                inl (rw (size, middle, from_modulus, from_exponent, e, less) refl, (three, holds))
            | inr (more, fails) ↦ inr (
              rw (size, middle, from_modulus, from_exponent, e, more) refl,
              λ key. omega (arith, key.1),
            )
          ]
    ]

-- The bits that the first test reads: the highest of the modulus, the lowest of both numbers.
odd_low : (xs front : List ℕ) (x : ℕ) → xs ≡ front ++ (x ∷ []) → big_endian xs 0 % 2 ≡ x % 2
odd_low xs front x split =
    let number : big_endian xs 0 ≡ big_endian front 0 * 256 + x =
      ap (λ l. big_endian l 0) split ∙ big_endian-append front x 0 in
    omega arith

-- The last byte of the first and of the second half.
last_bytes :
    (k : ℕ) (modulus front front' exponent : List ℕ) (last low : ℕ)
    → modulus ≡ front ++ (last ∷ [])
    → exponent ≡ front' ++ (low ∷ [])
    → length front ≡ k
    → length front' ≡ k
    → (get_elem? (modulus ++ exponent) (suc k - 1) ≡ some last)
      × (get_elem? (modulus ++ exponent) (2 * suc k - 1) ≡ some low)
last_bytes k modulus front front' exponent last low em ee lf lf' =
    let plus : k + 1 ≡ suc k = omega arith in
    let lm : length modulus ≡ suc k =
      ap length em ∙ length-append front (last ∷ []) ∙ ap (λ n. n + 1) lf ∙ plus in
    let i : suc k - 1 ≡ length front = omega (arith, lf) in
    let j : 2 * suc k - 1 ≡ length (modulus ++ front') =
      omega (arith, length-append modulus front', lm, lf') in
    let key1 : modulus ++ exponent ≡ front ++ (last ∷ exponent) =
      ap (λ l. l ++ exponent) em ∙ append_assoc front (last ∷ []) exponent in
    let key2 : modulus ++ exponent ≡ (modulus ++ front') ++ (low ∷ []) =
      ap (λ l. modulus ++ l) ee ∙ sym (append_assoc modulus front' (low ∷ [])) in
    (
      ap₂ get_elem? key1 i ∙ get_elem?-append front last exponent,
      ap₂ get_elem? key2 j ∙ get_elem?-append (modulus ++ front') low [],
    )

bad_bits :
    (first last low n e : ℕ)
    → bit_and first 0x80 ≡ first / 128 * 128
    → bit_and last 1 ≡ n % 2
    → bit_and low 1 ≡ e % 2
    → ((bit_and first 0x80 == 0) || (bit_and last 1 == 0) || (bit_and low 1 == 0)) ≡ true
    → 128 ≤ first
    → n % 2 ≡ 1
    → e % 2 ≡ 1
    → ⊥
bad_bits first last low n e top odd odd' bad high is_odd is_odd' = ground arith

-- For two numbers of one size up to 256 bytes, the high byte first, the validation reads inside
-- the key and accepts it where the highest bit of the modulus is set, both numbers are odd, and
-- the exponent is at least three and below the modulus; otherwise it gives a format error.
pub rsa_key_validate-Decides :
    (k first : ℕ) (rest exponent : List ℕ)
    → suc k ≤ 256
    → IsLimbs (suc k) (first ∷ rest)
    → IsLimbs (suc k) exponent
    → Decides
        (IsKey first rest exponent)
        (rsa_key_validate (some ((first ∷ rest) ++ exponent)) (2 * suc k) (suc k))
unfolding rsa_key_validate
rsa_key_validate-Decides k first rest exponent fits hn he =
    let modulus : List ℕ = first ∷ rest in
    let (front, last, em, lf, bl) = last_of k modulus hn in
    let (front', low, ee, lf', bw) = last_of k exponent he in
    let (at_last, at_low) = last_bytes k modulus front front' exponent last low em ee lf lf' in
    let top : bit_and first 0x80 ≡ first / 128 * 128 = and_top first hn.0.0 in
    let odd : bit_and last 1 ≡ big_endian modulus 0 % 2 =
      and_mask 1 last ∙ sym (odd_low modulus front last em) in
    let odd' : bit_and low 1 ≡ big_endian exponent 0 % 2 =
      and_mask 1 low ∙ sym (odd_low exponent front' low ee) in
    let sizes : ((suc k == 0) || ltb 256 (suc k) || not (2 * suc k == 2 * suc k)) ≡ false =
      ground arith in
    elim (Bool-cases ((bit_and first 0x80 == 0) || (bit_and last 1 == 0) || (bit_and low 1 == 0))) [
      | inl e ↦ inr (
        rw (sizes, at_last, at_low, e) refl,
        λ key. bad_bits first last low _ _ top odd odd' e key.0 key.1 key.2,
      )
      | inr e ↦
          let high : 128 ≤ first = ground (arith, top) in
          let is_odd : big_endian modulus 0 % 2 ≡ 1 = ground (arith, odd) in
          let is_odd' : big_endian exponent 0 % 2 ≡ 1 = ground (arith, odd') in
          elim (validate_exponent-Decides k modulus front' exponent low hn he ee lf') [
            | inl (run, holds) ↦
                inl (rw (sizes, at_last, at_low, e) run, (high, is_odd, is_odd', holds.0, holds.1))
            | inr (run, fails) ↦
                inr (rw (sizes, at_last, at_low, e) run, λ key. fails (key.3, key.4))
          ]
    ]

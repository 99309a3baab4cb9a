-- ===== src/Names/Slots.antt =====
-- The slots of a hash table in the order of a probe.
use native.Mathlib.Nat.{add-mod_right, mod-eq_of_lt, mod-eq-sub-mod, mod-add-mod, mod-lt}
use libmpq.Base.{
  ℕ, ◌+◌, ◌-◌, ◌%◌, ◌^◌, ◌≤◌, ◌<◌, ◌≡◌, ◌≢◌, ap, ◌∙◌, ◌⊎◌, inl, inr, arith, u32, ltb, Bool-cases,
  ltb→lt,
}

abbrev pub slot : ℕ → ℕ → ℕ → ℕ
slot start count k = (start + k) % count

-- Without a remainder.
pub slot_cases :
    (start count k : ℕ)
    → start < count
    → k < count
    → (start + k < count) × (slot start count k ≡ start + k)
      ⊎ (count ≤ start + k) × (slot start count k ≡ start + k - count)
slot_cases start count k h l = elim (Bool-cases (ltb (start + k) count)) [
  | inl low ↦ let b : start + k < count = ltb→lt _ _ low in inl (b, mod-eq_of_lt b)
  | inr high ↦
      let b : count ≤ start + k = ground arith in
      inr
        (b, mod-eq-sub-mod b ∙ mod-eq_of_lt (let c : start + k - count < count = omega arith in c))
]

pub slot-lt : (start count k : ℕ) → start < count → slot start count k < count
slot-lt start count k h = mod-lt (start + k) (let c : 0 < count = omega arith in c)

pub slot_zero : (start count : ℕ) → start < count → slot start count 0 ≡ start
slot_zero start count h = mod-eq_of_lt (let c : start + 0 < count = omega arith in c) ∙ omega arith

-- The next slot of a probe.
pub slot_next :
    (start count k : ℕ)
    → start < count
    → k < count
    → count < 2 ^ 32
    → u32 (slot start count k + 1) % count ≡ slot start count (k + 1)
slot_next start count k h l w =
    ap (λ n. n % count)
      (let e : u32 (slot start count k + 1) ≡ slot start count k + 1 =
          omega (arith, slot-lt start count k h) in
        e)
    ∙ mod-add-mod (start + k) count 1
    ∙ ap (λ n. n % count) (omega arith)

-- Different steps of a probe meet different slots.
pub slot_distinct :
    (start count j k : ℕ)
    → start < count
    → j < k
    → k < count
    → slot start count j ≢ slot start count k
slot_distinct start count j k h l m e =
    ground (arith, slot_cases start count j h (omega arith), slot_cases start count k h m, e)

-- Only the round after the last comes back to the start.
pub slot_last : (start count : ℕ) → start < count → slot start count count ≡ start
slot_last start count h = add-mod_right start count ∙ mod-eq_of_lt h

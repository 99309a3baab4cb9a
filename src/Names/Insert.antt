-- ===== src/Names/Insert.antt =====
-- The slot that `update_insert_hash` of src/mpq-update.c takes.
use mathlib.Core.Path.{subst}
use libmpq.Base.{
  ℕ, zero, suc, ◌+◌, ◌%◌, ◌^◌, ◌≤◌, ◌<◌, ◌≡◌, refl, sym, ap, ◌∙◌, ◌⊎◌, inl, inr, arith, Bool, true,
  false, List, none, some, Option, Outcome, ok, length, ltb, ◌==◌, Bool-cases, u32, if◌then◌else◌,
}
use libmpq.Base.Lists.{get_elem?_lt}
use libmpq.HashTable.{MpqHash, hash_free, hash_deleted}
use libmpq.Names.{first_of, find_candidate}
use libmpq.Names.Slots.{slot, slot-lt}
use libmpq.Names.Probe.{Holds}

-- The slot of step `k` is in use.
abbrev pub Used : List MpqHash → ℕ → ℕ → ℕ → Type 0
Used entries start count k =
    (entry : MpqHash) × Holds entries start count k entry
    × ((entry.block_table_index == hash_free) ≡ false)
    × ((entry.block_table_index == hash_deleted) ≡ false)

-- Step `k` meets the first slot that is free or deleted.
abbrev pub IsFirst : List MpqHash → ℕ → ℕ → ℕ → Type 0
IsFirst entries start count k =
    (k < count)
    × ((entry : MpqHash) × Holds entries start count k entry
        × (((entry.block_table_index == hash_free) ≡ true)
            ⊎ ((entry.block_table_index == hash_deleted) ≡ true)))
    × ((j : ℕ) → j < k → Used entries start count j)

module _ (entries : List MpqHash) (start count : ℕ) (s : start < count) (w : count ≤ 2 ^ 31)
    (l : length entries ≡ count) where
  slot_of : (i : ℕ) → i < count → u32 (start + i) % count ≡ slot start count i
  slot_of i h = ap (λ n. n % count) (let e : u32 (start + i) ≡ start + i = omega arith in e)

  held : (i : ℕ) → (entry : MpqHash) × Holds entries start count i entry
  held i = get_elem?_lt entries (slot start count i) (omega (arith, slot-lt start count i s))

  step :
      (left i : ℕ) (candidate taken : Option ℕ) (entry : MpqHash)
      → i < count
      → Holds entries start count i entry
      → first_of candidate (entry.block_table_index == hash_deleted) (slot start count i) ≡ taken
      → find_candidate (suc left) i count entries start candidate ≡ (
          if entry.block_table_index == hash_free
          then ok (first_of taken true (slot start count i))
          else find_candidate left (i + 1) count entries start taken)
  unfolding find_candidate
  step left i candidate taken entry h e t = rw (slot_of i h, e, t)

  -- A candidate is kept.
  kept :
      (left i c : ℕ)
      → i + left ≡ count
      → find_candidate left i count entries start (some c) ≡ ok (some c)
  unfolding first_of
  kept zero i c q = unfold find_candidate in refl
  kept (suc left) i c q =
      let (entry, e) = held i in
      step left i (some c) (some c) entry (omega arith) e refl
      ∙ (elim (Bool-cases (entry.block_table_index == hash_free)) [
        | inl free ↦ rw free
        | inr used ↦ rw used (kept left (i + 1) c (omega arith))
      ])

  abbrev pub Searched : ℕ → Outcome (Option ℕ) → Type 0
  Searched i run =
      (run ≡ ok none) × ((j : ℕ) → j < count → Used entries start count j)
      ⊎ ((k : ℕ) × (run ≡ ok (some (slot start count k))) × IsFirst entries start count k)

  Used-up_to :
      (i : ℕ)
      → ((j : ℕ) → j < i → Used entries start count j)
      → Used entries start count i
      → (j : ℕ) → j < i + 1
      → Used entries start count j
  Used-up_to i before here j h = elim (Bool-cases (ltb j i)) [
    | inl earlier ↦ before j (ground arith)
    | inr last ↦ subst (Used entries start count) (let e : i ≡ j = ground arith in e) here
  ]

  pub search :
      (left i : ℕ)
      → i + left ≡ count
      → ((j : ℕ) → j < i → Used entries start count j)
      → Searched i (find_candidate left i count entries start none)
  unfolding first_of
  search zero i q before = inl (unfold find_candidate in refl, λ j h. before j (omega arith))
  search (suc left) i q before =
      let (entry, e) = held i in
      let here : i < count = omega arith in
      elim (Bool-cases (entry.block_table_index == hash_free)) [
        | inl free ↦ inr (
          i,
          step left i none
                (first_of none (entry.block_table_index == hash_deleted) (slot start count i)) entry
                here e refl
              ∙ rw free
                  (taken_either (entry.block_table_index == hash_deleted) (slot start count i)),
          (here, (entry, e, inl free), before),
        )
        | inr used ↦ elim (Bool-cases (entry.block_table_index == hash_deleted)) [
          | inl deleted ↦ inr (
            i,
            step left i none (some (slot start count i)) entry here e (rw deleted refl)
                ∙ rw used (kept left (i + 1) (slot start count i) (omega arith)),
            (here, (entry, e, inr deleted), before),
          )
          | inr live ↦
              subst (Searched i)
                (sym (step left i none none entry here e (rw live refl) ∙ rw used refl))
                (search left (i + 1) (omega arith) (Used-up_to i before (entry, e, used, live)))
        ]
      ]
    where
      taken_either :
          (test : Bool) (c : ℕ) → ok (first_of (first_of none test c) true c) ≡ ok (some c)
      taken_either true c = refl
      taken_either false c = refl

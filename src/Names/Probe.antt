-- ===== src/Names/Probe.antt =====
-- What the probe of `libmpq__file_number_from_hash` in src/mpq-api.c finds.
use mathlib.Core.Path.{subst}
use native.Mathlib.Nat.{mod-lt}
use libmpq.Base.{
  length, leb, Bool-cases, bit_and, format_error, ℕ, zero, suc, ◌+◌, ◌-◌, ◌%◌, ◌^◌, ◌≤◌, ◌<◌, ◌≡◌,
  ◌≢◌, sym, ap, ◌∙◌, ◌⊎◌, inl, inr, arith, Bool, true, false, ◌&&◌, List, some, Outcome, ok, err,
  get_elem?, ◌==◌, u32, exist_error,
}
use libmpq.Base.Lists.{get_elem?_lt}
use libmpq.HashTable.{MpqHash, hash_free}
use libmpq.Names.{flag_exists, Archive, file_number, probe, file_number_from_hash}
use libmpq.Names.Slots.{slot, slot_zero, slot_next, slot_distinct, slot_last, slot-lt}

-- The entry of a step of the probe.
abbrev pub Holds : List MpqHash → ℕ → ℕ → ℕ → MpqHash → Type 0
Holds entries start count k entry = get_elem? entries (slot start count k) ≡ some entry

abbrev pub matches : MpqHash → ℕ → ℕ → Bool
matches entry hash2 hash3 = (entry.hash_a == hash2) && (entry.hash_b == hash3)

-- The probe goes on behind step `k`.
abbrev pub Passes : List MpqHash → ℕ → ℕ → ℕ → ℕ → ℕ → Type 0
Passes entries start count hash2 hash3 k =
    (entry : MpqHash) × Holds entries start count k entry
    × ((entry.block_table_index == hash_free) ≡ false)
    × (matches entry hash2 hash3 ≡ false)

-- The probe ends at step `k`, at a free slot or at a match.
abbrev pub Stops : Archive → ℕ → ℕ → ℕ → ℕ → Outcome ℕ → Type 0
Stops archive start hash2 hash3 k result =
    (entry : MpqHash) × Holds archive.mpq_hash start archive.hash_table_count k entry
    × (((entry.block_table_index == hash_free) ≡ true) × (result ≡ err exist_error)
        ⊎ ((entry.block_table_index == hash_free) ≡ false)
          × ((matches entry hash2 hash3 ≡ true)
              × (result ≡ file_number archive entry.block_table_index)))

step_on :
    (fuel : ℕ) (archive : Archive) (start i next hash2 hash3 : ℕ) (entry : MpqHash)
    → get_elem? archive.mpq_hash i ≡ some entry
    → (entry.block_table_index == hash_free) ≡ false
    → matches entry hash2 hash3 ≡ false
    → u32 (i + 1) % archive.hash_table_count ≡ next
    → next ≢ start
    → probe (suc fuel) archive start i hash2 hash3 ≡ probe fuel archive start next hash2 hash3
unfolding probe
step_on fuel archive start i next hash2 hash3 entry e f m n d =
    rw (e, f, m, n, let t : (next == start) ≡ false = ground arith in t)

stop :
    (fuel : ℕ) (archive : Archive) (start hash2 hash3 k : ℕ) (result : Outcome ℕ)
    → Stops archive start hash2 hash3 k result
    → probe (suc fuel) archive start (slot start archive.hash_table_count k) hash2 hash3 ≡ result
unfolding probe
stop fuel archive start hash2 hash3 k result (entry, e, inl (f, r)) = rw (e, f) (sym r)
stop fuel archive start hash2 hash3 k result (entry, e, inr (f, (m, r))) = rw (e, f, m) (sym r)

-- The probe from step `k`, where it ends at step `last`.
probe_from :
    (n k last fuel : ℕ) (archive : Archive) (start hash2 hash3 : ℕ) (result : Outcome ℕ)
    → start < archive.hash_table_count
    → archive.hash_table_count < 2 ^ 32
    → k + n ≡ last
    → last < archive.hash_table_count
    → n < fuel
    → ((j : ℕ) → j < last → Passes archive.mpq_hash start archive.hash_table_count hash2 hash3 j)
    → Stops archive start hash2 hash3 last result
    → probe fuel archive start (slot start archive.hash_table_count k) hash2 hash3 ≡ result
probe_from n k last zero archive start hash2 hash3 result s w q l f p r = elim f [ ]
probe_from zero k last (suc fuel) archive start hash2 hash3 result s w q l f p r =
    stop fuel archive start hash2 hash3 k result (
      subst (λ m. Stops archive start hash2 hash3 m result) (let e : last ≡ k = omega arith in e) r)
probe_from (suc n) k last (suc fuel) archive start hash2 hash3 result s w q l f p r =
    let (entry, e, g, m) = p k (omega arith) in
    let count : ℕ = archive.hash_table_count in
    step_on fuel archive start (slot start count k) (slot start count (k + 1)) hash2 hash3 entry e g
      m (slot_next start count k s (omega arith) w)
      (λ c.
        slot_distinct start count 0 (k + 1) s (omega arith) (omega arith)
          (slot_zero start count s ∙ sym c))
    ∙ probe_from n (k + 1) last fuel archive start hash2 hash3 result s w (omega arith) l
        (omega arith) p r

-- The lookup gives what the first step says at which the probe ends.
pub file_number_from_hash-Stops :
    (archive : Archive) (hash1 hash2 hash3 k : ℕ) (result : Outcome ℕ)
    → archive.hash_table_count < 2 ^ 32
    → k < archive.hash_table_count
    → ((j : ℕ)
        → j < k
        → Passes archive.mpq_hash
            (hash1 % archive.hash_table_count)
            archive.hash_table_count
            hash2
            hash3
            j)
    → Stops archive (hash1 % archive.hash_table_count) hash2 hash3 k result
    → file_number_from_hash archive hash1 hash2 hash3 ≡ result
unfolding file_number_from_hash
file_number_from_hash-Stops archive hash1 hash2 hash3 k result w l p r =
    let count : ℕ = archive.hash_table_count in
    let start : ℕ = hash1 % count in
    let s : start < count = mod-lt hash1 (let c : 0 < count = omega arith in c) in
    rw (let c : (count == 0) ≡ false = ground arith in c) (
      ap (λ i. probe count archive start i hash2 hash3) (sym (slot_zero start count s))
      ∙ probe_from k 0 k count archive start hash2 hash3 result s w (omega arith) l l p r)

-- A lookup that is neither a fault nor another error than these two.
abbrev pub Answered : Archive → Outcome ℕ → Type 0
Answered archive result =
    ((number : ℕ) × (result ≡ ok number) × (number < archive.files))
    ⊎ ((result ≡ err exist_error) ⊎ (result ≡ err format_error))

file_number-Answered :
    (archive : Archive) (index : ℕ)
    → archive.block_table_count ≤ length archive.mpq_block
    → archive.block_table_count ≤ length archive.mpq_map
    → Answered archive (file_number archive index)
unfolding file_number
file_number-Answered archive index hb hm = elim (Bool-cases (leb archive.block_table_count index)) [
  | inl out ↦ inr (inr (rw out))
  | inr inside ↦
      let (block, eb) = get_elem?_lt archive.mpq_block index (ground arith) in
      let (entry, em) = get_elem?_lt archive.mpq_map index (ground arith) in
      elim (Bool-cases (bit_and block.flags flag_exists == 0)) [
        | inl gone ↦ inr (inr (rw (inside, eb, gone)))
        | inr exists ↦
            let number : ℕ = u32 (index + (2 ^ 32 - u32 entry.block_table_diff)) in
            elim (Bool-cases (leb archive.files number)) [
              | inl over ↦ inr (inr (rw (inside, eb, exists, em, over)))
              | inr good ↦ inl (number, rw (inside, eb, exists, em, good), ground arith)
            ]
      ]
]

rounds_left :
    (fuel k start count : ℕ)
    → start < count
    → k + suc fuel ≡ count
    → slot start count (k + 1) ≢ start
    → 0 < fuel
rounds_left zero k start count s q d =
    absurd (
      d (
        ap (slot start count) (let e : k + 1 ≡ count = omega arith in e) ∙ slot_last start count s))
rounds_left (suc fuel) k start count s q d = omega arith

probe-Answered :
    (fuel k : ℕ) (archive : Archive) (start hash2 hash3 : ℕ)
    → start < archive.hash_table_count
    → archive.hash_table_count < 2 ^ 32
    → k + fuel ≡ archive.hash_table_count
    → 0 < fuel
    → length archive.mpq_hash ≡ archive.hash_table_count
    → archive.block_table_count ≤ length archive.mpq_block
    → archive.block_table_count ≤ length archive.mpq_map
    → Answered archive
        (probe fuel archive start (slot start archive.hash_table_count k) hash2 hash3)
unfolding probe
probe-Answered zero k archive start hash2 hash3 s w q f l hb hm = elim f [ ]
probe-Answered (suc fuel) k archive start hash2 hash3 s w q f l hb hm =
    let count : ℕ = archive.hash_table_count in
    let (entry, e) =
      get_elem?_lt archive.mpq_hash (slot start count k) (omega (arith, slot-lt start count k s)) in
    let next : u32 (slot start count k + 1) % count ≡ slot start count (k + 1) =
      slot_next start count k s (omega arith) w in
    elim (Bool-cases (entry.block_table_index == hash_free)) [
      | inl free ↦ inr (inl (rw (e, free)))
      | inr used ↦ elim (Bool-cases (matches entry hash2 hash3)) [
        | inl found ↦
            rw (e, used, found) (file_number-Answered archive entry.block_table_index hb hm)
        | inr other ↦ elim (Bool-cases (u32 (slot start count k + 1) % count == start)) [
          | inl back ↦ inr (inl (rw (e, used, other, back)))
          | inr on ↦
              rw (e, used, other, on, next)
                (probe-Answered fuel (k + 1) archive start hash2 hash3 s w (omega arith)
                  (rounds_left fuel k start count s q (λ c. ground (arith, on, next ∙ c))) l hb hm)
        ]
      ]
    ]

-- Where the hash table has as many entries as the header says, less than 2^32, and the blocks and
-- the map at least as many as the header says, the lookup of any three hashes ends within as many
-- rounds as there are entries and reads inside the tables: it gives a number below the count of
-- files, or one of the errors EXIST and FORMAT.
pub file_number_from_hash-Answered :
    (archive : Archive) (hash1 hash2 hash3 : ℕ)
    → archive.hash_table_count < 2 ^ 32
    → length archive.mpq_hash ≡ archive.hash_table_count
    → archive.block_table_count ≤ length archive.mpq_block
    → archive.block_table_count ≤ length archive.mpq_map
    → Answered archive (file_number_from_hash archive hash1 hash2 hash3)
unfolding file_number_from_hash
file_number_from_hash-Answered archive hash1 hash2 hash3 w l hb hm =
    let count : ℕ = archive.hash_table_count in
    let start : ℕ = hash1 % count in
    elim (Bool-cases (count == 0)) [
      | inl none_at_all ↦ inr (inl (rw none_at_all))
      | inr some_slots ↦
          let c : 0 < count = ground arith in
          let s : start < count = mod-lt hash1 c in
          subst (λ result. Answered archive result)
            (sym (
              rw some_slots (
                ap (λ i. probe count archive start i hash2 hash3) (sym (slot_zero start count s)))))
            (probe-Answered count 0 archive start hash2 hash3 s w (omega arith) c l hb hm)
    ]

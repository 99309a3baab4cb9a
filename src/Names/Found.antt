-- ===== src/Names/Found.antt =====
-- Where a lookup of src/mpq-api.c found the file that it gives.
use mathlib.Core.Path.{subst}
use native.Mathlib.Nat.{mod-lt}
use libmpq.Base.{
  ℕ, zero, suc, ◌+◌, ◌%◌, ◌^◌, ◌≤◌, ◌<◌, ◌≡◌, refl, sym, ap, ◌∙◌, ◌⊎◌, inl, inr, arith, true, false,
  List, some, ok, get_elem?, set, length, ◌==◌, Bool-cases, u32,
}
use libmpq.Base.Lists.{get_elem?-set_same, get_elem?-set_other, get_elem?_lt}
use libmpq.HashTable.{MpqHash, hash_free}
use libmpq.Names.{Archive, file_number, probe, file_number_from_hash}
use libmpq.Names.Slots.{slot, slot_zero, slot_next, slot-lt}
use libmpq.Names.Probe.{Holds, matches, Passes}

-- The probe passes the steps from `first` on to the step `k`, whose entry matches.
abbrev pub FoundAt : Archive → ℕ → ℕ → ℕ → ℕ → ℕ → ℕ → Type 0
FoundAt archive start hash2 hash3 number first k =
    (entry : MpqHash) × (first ≤ k)
    × (k < archive.hash_table_count)
    × Holds archive.mpq_hash start archive.hash_table_count k entry
    × ((entry.block_table_index == hash_free) ≡ false)
    × (matches entry hash2 hash3 ≡ true)
    × (file_number archive entry.block_table_index ≡ ok number)
    × ((j : ℕ)
        → first ≤ j
        → j < k
        → Passes archive.mpq_hash start archive.hash_table_count hash2 hash3 j)

earlier :
    (archive : Archive) (start hash2 hash3 number first k : ℕ)
    → Passes archive.mpq_hash start archive.hash_table_count hash2 hash3 first
    → FoundAt archive start hash2 hash3 number (first + 1) k
    → FoundAt archive start hash2 hash3 number first k
earlier archive start hash2 hash3 number first k here (entry, le, lt, e, u, m, f, before) = (
  entry,
  omega arith,
  lt,
  e,
  u,
  m,
  f,
  λ j h q. elim (Bool-cases (j == first)) [
    | inl same ↦
        subst (Passes archive.mpq_hash start archive.hash_table_count hash2 hash3)
          (let c : first ≡ j = ground arith in c) here
    | inr later ↦ before j (ground arith) q
  ],
)

-- A round that ends in a file number: its entry matches, or the rounds after it end so.
round_found :
    (fuel : ℕ) (archive : Archive) (start i hash2 hash3 number : ℕ) (entry : MpqHash)
    → get_elem? archive.mpq_hash i ≡ some entry
    → probe (suc fuel) archive start i hash2 hash3 ≡ ok number
    → ((entry.block_table_index == hash_free) ≡ false)
      × ((matches entry hash2 hash3 ≡ true)
            × (file_number archive entry.block_table_index ≡ ok number)
          ⊎ (matches entry hash2 hash3 ≡ false)
            × (probe fuel archive start (u32 (i + 1) % archive.hash_table_count) hash2 hash3
                ≡ ok number))
unfolding probe
round_found fuel archive start i hash2 hash3 number entry e run =
    elim (Bool-cases (entry.block_table_index == hash_free)) [
      | inl free ↦ let bad = rw (e, free) at run in cc
      | inr used ↦ elim (Bool-cases (matches entry hash2 hash3)) [
        | inl found ↦ (used, inl (found, rw (e, used, found) at run))
        | inr other ↦ elim (Bool-cases (u32 (i + 1) % archive.hash_table_count == start)) [
          | inl back ↦ let bad = rw (e, used, other, back) at run in cc
          | inr on ↦ (used, inr (other, rw (e, used, other, on) at run))
        ]
      ]
    ]

after_round :
    (fuel k : ℕ) (archive : Archive) (start hash2 hash3 number : ℕ) (entry : MpqHash)
    → start < archive.hash_table_count
    → archive.hash_table_count < 2 ^ 32
    → k + suc fuel ≡ archive.hash_table_count
    → Holds archive.mpq_hash start archive.hash_table_count k entry
    → (probe fuel archive start (slot start archive.hash_table_count (k + 1)) hash2 hash3
          ≡ ok number
        → (last : ℕ) × FoundAt archive start hash2 hash3 number (k + 1) last)
    → probe (suc fuel) archive start (slot start archive.hash_table_count k) hash2 hash3 ≡ ok number
    → (last : ℕ) × FoundAt archive start hash2 hash3 number k last
after_round fuel k archive start hash2 hash3 number entry s w q e later run =
    let (used, how) =
      round_found fuel archive start (slot start archive.hash_table_count k) hash2 hash3 number
        entry e run in
    elim how [
      | inl (found, f) ↦
          (k, (entry, omega arith, omega arith, e, used, found, f, λ j h c. absurd (omega arith)))
      | inr (other, on) ↦
          let (last, there) = later (
            ap (λ i. probe fuel archive start i hash2 hash3)
              (sym (slot_next start archive.hash_table_count k s (omega arith) w))
            ∙ on) in
          (last, earlier archive start hash2 hash3 number k last (entry, e, used, other) there)
    ]

probe_found :
    (fuel k : ℕ) (archive : Archive) (start hash2 hash3 number : ℕ)
    → start < archive.hash_table_count
    → archive.hash_table_count < 2 ^ 32
    → k + fuel ≡ archive.hash_table_count
    → length archive.mpq_hash ≡ archive.hash_table_count
    → probe fuel archive start (slot start archive.hash_table_count k) hash2 hash3 ≡ ok number
    → (last : ℕ) × FoundAt archive start hash2 hash3 number k last
unfolding probe
probe_found zero k archive start hash2 hash3 number s w q l run = cc
probe_found (suc fuel) k archive start hash2 hash3 number s w q l run =
    let (entry, e) =
      get_elem?_lt archive.mpq_hash (slot start archive.hash_table_count k)
        (omega (arith, slot-lt start archive.hash_table_count k s)) in
    after_round fuel k archive start hash2 hash3 number entry s w q e
      (probe_found fuel (k + 1) archive start hash2 hash3 number s w (omega arith) l) run

pub file_number_from_hash-FoundAt :
    (archive : Archive) (hash1 hash2 hash3 number : ℕ)
    → archive.hash_table_count < 2 ^ 32
    → length archive.mpq_hash ≡ archive.hash_table_count
    → file_number_from_hash archive hash1 hash2 hash3 ≡ ok number
    → (0 < archive.hash_table_count)
      × ((k : ℕ) × FoundAt archive (hash1 % archive.hash_table_count) hash2 hash3 number 0 k)
unfolding file_number_from_hash
file_number_from_hash-FoundAt archive hash1 hash2 hash3 number w l run =
    let count : ℕ = archive.hash_table_count in
    let start : ℕ = hash1 % count in
    elim (Bool-cases (count == 0)) [
      | inl none_at_all ↦ let bad = rw none_at_all at run in cc
      | inr some_slots ↦
          let c : 0 < count = ground arith in
          let s : start < count = mod-lt hash1 c in
          (
            c,
            probe_found count 0 archive start hash2 hash3 number s w (omega arith) l (
                ap (λ i. probe count archive start i hash2 hash3) (slot_zero start count s)
                ∙ rw some_slots at run),
          )
    ]

-- The archive with another hash table.
abbrev pub with_hashes : Archive → List MpqHash → Archive
with_hashes archive entries = record archive { mpq_hash = entries }

pub file_number_same :
    (archive : Archive) (entries : List MpqHash) (index : ℕ)
    → file_number (with_hashes archive entries) index ≡ file_number archive index
unfolding file_number
file_number_same archive entries index = refl

-- Where an entry is overwritten by one that is neither free nor a match, a passing probe passes.
pub Passes-set :
    (archive : Archive) (c start hash2 hash3 j : ℕ) (new : MpqHash)
    → c < length archive.mpq_hash
    → ((new.block_table_index == hash_free) ≡ false)
    → (matches new hash2 hash3 ≡ false)
    → Passes archive.mpq_hash start archive.hash_table_count hash2 hash3 j
    → Passes (set archive.mpq_hash c new) start archive.hash_table_count hash2 hash3 j
Passes-set archive c start hash2 hash3 j new inside live other (entry, e, used, m) =
    elim (Bool-cases (c == slot start archive.hash_table_count j)) [
      | inl here ↦ (
        new,
        ap (get_elem? (set archive.mpq_hash c new))
              (let q : slot start archive.hash_table_count j ≡ c = ground (arith, here) in q)
            ∙ get_elem?-set_same archive.mpq_hash c new inside,
        live,
        other,
      )
      | inr there ↦ (
        entry,
        get_elem?-set_other archive.mpq_hash c (slot start archive.hash_table_count j) new
              (λ q. ground (arith, there, q))
            ∙ e,
        used,
        m,
      )
    ]

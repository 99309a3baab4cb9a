-- ===== src/Names/Inserted.antt =====
-- Lookups after `update_insert_hash` of src/mpq-update.c.
use mathlib.Core.Path.{subst}
use mathlib.Core.Option.{some-injective}
use native.Mathlib.Nat.{mod-lt}
use libmpq.Base.{
  ℕ, ◌%◌, ◌^◌, ◌≤◌, ◌<◌, ◌≡◌, ◌≢◌, refl, sym, ap, ◌∙◌, ◌⊎◌, inl, inr, arith, true, false, List,
  some, ok, err, get_elem?, set, length, leb, ◌==◌, Bool-cases, All, size_error,
}
use libmpq.Base.Lists.{length-set, get_elem?-set_same, get_elem?-set_other, All-get_elem?}
use libmpq.Crypto.StringHash.{hash_string}
use libmpq.HashTable.{MpqHash, hash_free, hash_deleted}
use libmpq.Names.{Archive, file_number, file_number_from_hash, put_entry, update_insert_hash}
use libmpq.Names.Slots.{slot, slot-lt, slot_distinct}
use libmpq.Names.Probe.{matches, file_number_from_hash-Stops}
use libmpq.Names.Found.{with_hashes, file_number_same, Passes-set, file_number_from_hash-FoundAt}
use libmpq.Names.Insert.{Used, IsFirst, search}

-- The entry that an insertion writes.
abbrev pub renamed : MpqHash → ℕ → ℕ → MpqHash
renamed original hash_a hash_b = record original { hash_a = hash_a; hash_b = hash_b }

module _ (toupper : ℕ → ℕ) (archive : Archive) (name : List ℕ) (original : MpqHash)
    (hash1 hash2 hash3 : ℕ) (some_slots : 0 < archive.hash_table_count)
    (few : archive.hash_table_count ≤ 2 ^ 31)
    (l : length archive.mpq_hash ≡ archive.hash_table_count)
    (e1 : hash_string toupper name 0 ≡ ok hash1) (e2 : hash_string toupper name 0x100 ≡ ok hash2)
    (e3 : hash_string toupper name 0x200 ≡ ok hash3) where
  abbrev start : ℕ
  start = hash1 % archive.hash_table_count

  abbrev Inserts : Type 0
  Inserts =
      (update_insert_hash toupper archive name original ≡ err size_error)
        × ((j : ℕ)
            → j < archive.hash_table_count
            → Used archive.mpq_hash start archive.hash_table_count j)
      ⊎ ((k : ℕ) × (update_insert_hash toupper archive name original
            ≡ ok (
                set archive.mpq_hash (slot start archive.hash_table_count k)
                  (renamed original hash2 hash3)))
          × IsFirst archive.mpq_hash start archive.hash_table_count k)

  inserts : Inserts
  unfolding update_insert_hash put_entry
  inserts =
      let count : ℕ = archive.hash_table_count in
      let s : start < count = mod-lt hash1 some_slots in
      let c : (count == 0) ≡ false = ground arith in
      elim (search archive.mpq_hash start count s few l count 0 (omega arith) (λ j h. elim h [ ])) [
        | inl (run, used) ↦ inl (rw (c, e1, run, e2, e3) refl, used)
        | inr (k, run, first) ↦ inr (k, rw (c, e1, run, e2, e3) refl, first)
      ]

  -- In a hash table of 1 to 2^31 entries, as many as the header says, inserting an entry that is not
  -- free under a name whose pair of hashes no entry has either fails with a size error, when every
  -- slot that the probe meets is neither free nor deleted, or gives a table of the same length in
  -- which looking up the hashes of the name gives the file number of the block of the entry.
  pub update_insert_hash-lookup :
      ((original.block_table_index == hash_free) ≡ false)
      → All (λ entry. matches entry hash2 hash3 ≡ false) archive.mpq_hash
      → (update_insert_hash toupper archive name original ≡ err size_error)
          × ((j : ℕ)
              → j < archive.hash_table_count
              → Used archive.mpq_hash (hash1 % archive.hash_table_count) archive.hash_table_count j)
        ⊎ ((entries : List MpqHash) × (update_insert_hash toupper archive name original
              ≡ ok entries)
            × (length entries ≡ archive.hash_table_count)
            × (file_number_from_hash (with_hashes archive entries) hash1 hash2 hash3
                ≡ file_number archive original.block_table_index))
  update_insert_hash-lookup live absent =
      let count : ℕ = archive.hash_table_count in
      let s : start < count = mod-lt hash1 some_slots in
      let new : MpqHash = renamed original hash2 hash3 in
      elim inserts [
        | inl refused ↦ inl refused
        | inr (k, run, (lt, first, before)) ↦
            let entries : List MpqHash = set archive.mpq_hash (slot start count k) new in
            inr (
              entries,
              run,
              length-set archive.mpq_hash (slot start count k) new ∙ l,
              file_number_from_hash-Stops (with_hashes archive entries) hash1 hash2 hash3 k
                  (file_number archive original.block_table_index) (omega arith) lt
                  (λ j h.
                    let (entry, e, used, kept) = before j h in
                    (
                      entry,
                      get_elem?-set_other archive.mpq_hash (slot start count k) (slot start count j)
                            new (λ c. slot_distinct start count j k s h lt (sym c))
                          ∙ e,
                      used,
                      All-get_elem? (λ x. matches x hash2 hash3 ≡ false) archive.mpq_hash
                          (slot start count j) absent e,
                    ))
                  (
                    new,
                    get_elem?-set_same archive.mpq_hash (slot start count k) new
                        (omega (arith, slot-lt start count k s)),
                    inr (
                      live,
                      (
                        ground arith,
                        sym (file_number_same archive entries original.block_table_index),
                      ),
                    ),
                  ),
            )
      ]

  found_below :
      (index number : ℕ) → file_number archive index ≡ ok number → index < archive.block_table_count
  unfolding file_number
  found_below index number e = elim (Bool-cases (leb archive.block_table_count index)) [
    | inl out ↦ let bad = rw out at e in cc
    | inr inside ↦ ground arith
  ]

  -- The slot of a found file is not the one that an insertion takes.
  not_taken :
      (i c number : ℕ) (entry old : MpqHash)
      → archive.block_table_count ≤ hash_deleted
      → get_elem? archive.mpq_hash i ≡ some entry
      → ((entry.block_table_index == hash_free) ≡ false)
      → (file_number archive entry.block_table_index ≡ ok number)
      → get_elem? archive.mpq_hash c ≡ some old
      → (((old.block_table_index == hash_free) ≡ true)
          ⊎ ((old.block_table_index == hash_deleted) ≡ true))
      → c ≢ i
  not_taken i c number entry old small e used f eo free same =
      let one : old ≡ entry =
        some-injective old entry (sym eo ∙ ap (get_elem? archive.mpq_hash) same ∙ e) in
      let index : old.block_table_index ≡ entry.block_table_index =
        ap (λ x. x.block_table_index) one in
      let below : entry.block_table_index < archive.block_table_count =
        found_below entry.block_table_index number f in
      ground (arith, free, index, below, used, small)

  -- In a hash table of 1 to 2^31 entries, as many as the header says, of an archive with at most
  -- 2^32 - 2 blocks, inserting an entry that is not free under a name keeps every lookup that found
  -- a file under another pair of hashes: it gives the same number.
  pub update_insert_hash-others :
      (entries : List MpqHash) (other1 other2 other3 number : ℕ)
      → archive.block_table_count ≤ hash_deleted
      → ((original.block_table_index == hash_free) ≡ false)
      → matches (renamed original hash2 hash3) other2 other3 ≡ false
      → update_insert_hash toupper archive name original ≡ ok entries
      → file_number_from_hash archive other1 other2 other3 ≡ ok number
      → file_number_from_hash (with_hashes archive entries) other1 other2 other3 ≡ ok number
  update_insert_hash-others entries other1 other2 other3 number small live other run found =
      let count : ℕ = archive.hash_table_count in
      let new : MpqHash = renamed original hash2 hash3 in
      let (pos, (k, (entry, le, lt, e, used, m, f, before))) =
        file_number_from_hash-FoundAt archive other1 other2 other3 number (omega arith) l found in
      elim inserts [
        | inl (refused, full) ↦ let bad : ok entries ≡ err size_error = sym run ∙ refused in cc
        | inr (c, run', (ltc, (old, eo, free), beforec)) ↦
            let same : set archive.mpq_hash (slot start count c) new ≡ entries =
              let q = sym run' ∙ run in cc in
            let inside : slot start count c < length archive.mpq_hash =
              omega (arith, slot-lt start count c (mod-lt hash1 some_slots)) in
            subst
              (λ t. file_number_from_hash (with_hashes archive t) other1 other2 other3 ≡ ok number)
              same
              (file_number_from_hash-Stops
                (with_hashes archive (set archive.mpq_hash (slot start count c) new)) other1 other2
                other3 k (ok number) (omega arith) lt
                (λ j h.
                  Passes-set archive (slot start count c) (other1 % count) other2 other3 j new
                    inside live other (before j (omega arith) h))
                (
                  entry,
                  get_elem?-set_other archive.mpq_hash (slot start count c)
                        (slot (other1 % count) count k) new
                        (not_taken (slot (other1 % count) count k) (slot start count c) number entry
                          old small e used f eo free)
                      ∙ e,
                  inr (
                    used,
                    (
                      m,
                      sym (
                          file_number_same archive (set archive.mpq_hash (slot start count c) new)
                            entry.block_table_index
                          ∙ f),
                    ),
                  ),
                ))
      ]

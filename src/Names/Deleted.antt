-- ===== src/Names/Deleted.antt =====
-- The slot that `update_hash_slot` of src/mpq-update.c finds, and lookups after it is deleted.
use mathlib.Core.Option.{some-injective}
use libmpq.Base.{
  ℕ, zero, suc, ◌+◌, ◌%◌, ◌^◌, ◌<◌, ◌≡◌, ◌≢◌, refl, sym, ap, ◌∙◌, inl, inr, arith, true, false,
  ◌&&◌, List, some, Option, Outcome, ok, get_elem?, set, length, ◌==◌, Bool-cases,
}
use libmpq.Base.Lists.{get_elem?_lt, get_elem?-some_lt, get_elem?-set_other}
use libmpq.Crypto.StringHash.{hash_string}
use libmpq.HashTable.{MpqHash}
use libmpq.Names.{Archive, file_number_from_hash, update_delete_hash, slot_loop, update_hash_slot}
use libmpq.Names.Slots.{slot}
use libmpq.Names.Probe.{matches, file_number_from_hash-Stops}
use libmpq.Names.Found.{with_hashes, file_number_same, Passes-set, file_number_from_hash-FoundAt}

slot_loop-get_elem? :
    (left i : ℕ) (entries : List MpqHash) (hash_a hash_b block found : ℕ)
    → i + left ≡ length entries
    → slot_loop left i entries hash_a hash_b block ≡ ok (some found)
    → (entry : MpqHash) × (get_elem? entries found ≡ some entry)
      × (entry.block_table_index ≡ block)
      × (matches entry hash_a hash_b ≡ true)
unfolding slot_loop
slot_loop-get_elem? zero i entries hash_a hash_b block found q run = cc
slot_loop-get_elem? (suc left) i entries hash_a hash_b block found q run =
    let (entry, e) = get_elem?_lt entries i (omega arith) in
    one_entry left i entries hash_a hash_b block found entry e
      (slot_loop-get_elem? left (i + 1) entries hash_a hash_b block found (omega arith)) run
  where
    one_entry :
        (left i : ℕ) (entries : List MpqHash) (hash_a hash_b block found : ℕ) (entry : MpqHash)
        → get_elem? entries i ≡ some entry
        → (slot_loop left (i + 1) entries hash_a hash_b block ≡ ok (some found)
            → (entry : MpqHash) × (get_elem? entries found ≡ some entry)
              × (entry.block_table_index ≡ block)
              × (matches entry hash_a hash_b ≡ true))
        → slot_loop (suc left) i entries hash_a hash_b block ≡ ok (some found)
        → (entry : MpqHash) × (get_elem? entries found ≡ some entry)
          × (entry.block_table_index ≡ block)
          × (matches entry hash_a hash_b ≡ true)
    one_entry left i entries hash_a hash_b block found entry e later run =
        elim (Bool-cases ((entry.block_table_index == block) && matches entry hash_a hash_b)) [
          | inl here ↦
              let same : i ≡ found =
                let r : ◌≡◌ {A = Outcome (Option ℕ)} (ok (some i)) (ok (some found)) =
                  rw (e, here) at run in
                cc in
              (
                entry,
                ap (get_elem? entries) (sym same) ∙ e,
                ground (arith, here),
                ground (arith, here),
              )
          | inr on ↦ later (rw (e, on) at run)
        ]

module _ (toupper : ℕ → ℕ) (archive : Archive) (name : List ℕ) (block found hash_a hash_b : ℕ)
    (few : archive.hash_table_count < 2 ^ 32)
    (l : length archive.mpq_hash ≡ archive.hash_table_count)
    (ea : hash_string toupper name 0x100 ≡ ok hash_a)
    (eb : hash_string toupper name 0x200 ≡ ok hash_b)
    (run : update_hash_slot toupper archive name block ≡ ok (some found)) where
  -- The entry of the slot is one of the name, for the block.
  pub update_hash_slot-get_elem? :
      (entry : MpqHash) × (get_elem? archive.mpq_hash found ≡ some entry)
      × (entry.block_table_index ≡ block)
      × (matches entry hash_a hash_b ≡ true)
  unfolding update_hash_slot
  update_hash_slot-get_elem? =
      slot_loop-get_elem? archive.hash_table_count 0 archive.mpq_hash hash_a hash_b block found
        (omega (arith, l)) (rw (ea, eb) at run)

  -- In a hash table of less than 2^32 entries, as many as the header says, deleting the entry that
  -- `update_hash_slot` found for a name keeps every lookup that found a file under another pair of
  -- hashes than the pair of the name and the pair of zeros: it gives the same number.
  pub update_delete_hash-others :
      (other1 other2 other3 number : ℕ)
      → ((hash_a == other2) && (hash_b == other3)) ≡ false
      → ((0 == other2) && (0 == other3)) ≡ false
      → file_number_from_hash archive other1 other2 other3 ≡ ok number
      → file_number_from_hash
          (with_hashes archive (set archive.mpq_hash found update_delete_hash))
          other1
          other2
          other3
        ≡ ok number
  unfolding update_delete_hash
  update_delete_hash-others other1 other2 other3 number different empty there =
      let count : ℕ = archive.hash_table_count in
      let (old, eo, index, pair) = update_hash_slot-get_elem? in
      let (pos, (k, (entry, le, lt, e, used, m, f, before))) =
        file_number_from_hash-FoundAt archive other1 other2 other3 number few l there in
      let inside : found < length archive.mpq_hash = get_elem?-some_lt archive.mpq_hash found eo in
      let apart : found ≢ slot (other1 % count) count k = λ same.
        let one : old ≡ entry =
          some-injective old entry (sym eo ∙ ap (get_elem? archive.mpq_hash) same ∙ e) in
        let ma : old.hash_a ≡ entry.hash_a = ap (λ x. x.hash_a) one in
        let mb : old.hash_b ≡ entry.hash_b = ap (λ x. x.hash_b) one in
        ground (arith, different, pair, m, ma, mb) in
      file_number_from_hash-Stops
        (with_hashes archive (set archive.mpq_hash found update_delete_hash)) other1 other2 other3 k
        (ok number) few lt
        (λ j h.
          Passes-set archive found (other1 % count) other2 other3 j update_delete_hash inside refl
            empty (before j (omega arith) h))
        (
          entry,
          get_elem?-set_other archive.mpq_hash found (slot (other1 % count) count k)
                update_delete_hash apart
              ∙ e,
          inr (
            used,
            (
              m,
              sym (
                  file_number_same archive (set archive.mpq_hash found update_delete_hash)
                    entry.block_table_index
                  ∙ f),
            ),
          ),
        )

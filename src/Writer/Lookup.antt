-- ===== src/Writer/Lookup.antt =====
-- What src/mpq-writer.c publishes, the reader's map and the lookup of src/mpq-api.c find.
use mathlib.Core.Path.{subst}
use native.Mathlib.Nat.{mod-lt, pow-le-pow_right, mod-add-mod}
use libmpq.Base.{
  ℕ, zero, suc, ◌+◌, ◌-◌, ◌%◌, ◌^◌, ◌≤◌, ◌<◌, ◌≡◌, ◌≢◌, refl, sym, ap, ◌∙◌, ◌⊎◌, inl, inr, arith,
  true, false, List, none, some, Option, Outcome, ok, get_elem?, set, length, ◌==◌, Bool-cases,
  bit_and, bit_or, if◌then◌else◌, u32, All,
}
use libmpq.Base.Lists.{
  get_elem?_lt, get_elem?-set_same, get_elem?-set_other, All-get_elem?, length-set,
}
use libmpq.Base.Bits.{and_or, and_mask, mod_pow, pow_pos}
use libmpq.Crypto.StringHash.{hash_string}
use libmpq.HashTable.{MpqHash, hash_free}
use libmpq.BlockTable.{MpqBlock}
use libmpq.Names.{file_number, MpqMap, file_number_from_hash, build_map}
use libmpq.Names.Slots.{slot, slot-lt, slot_distinct}
use libmpq.Names.Probe.{Holds, matches, file_number_from_hash-Stops}
use libmpq.Names.Map.{exists}
use libmpq.Names.Map.Build.{opened, build_map-file_number}
use libmpq.Writer.{
  flag_exists, flag_compress, flag_patch_file, OutputArchive, Member, free_position, publish,
  member_block,
}
use libmpq.Writer.Publish.{HasRoom, entered, entry_of, publish-entered}

-- The position of a slot, where the capacity is a power of two.
masked :
    (bits hash1 k : ℕ)
    → bits ≤ 31
    → bit_and (u32 (hash1 + k)) (2 ^ bits - 1) ≡ slot (hash1 % 2 ^ bits) (2 ^ bits) k
masked bits hash1 k h =
    and_mask bits (u32 (hash1 + k))
    ∙ mod_pow (hash1 + k) bits 32 (omega arith)
    ∙ sym (mod-add-mod hash1 (2 ^ bits) k)

-- The search takes the first slot that is free.
abbrev FirstFree : List MpqHash → ℕ → ℕ → ℕ → ℕ → Type 0
FirstFree entries start count first pos =
    (k : ℕ) × (first ≤ k)
    × (k < count)
    × (pos ≡ slot start count k)
    × ((j : ℕ)
        → first ≤ j
        → j < k
        → (entry : MpqHash) × Holds entries start count j entry
          × ((entry.block_table_index == hash_free) ≡ false))

module _ (bits hash1 : ℕ) (small : bits ≤ 31) (entries : List MpqHash)
    (l : length entries ≡ 2 ^ bits) where
  abbrev start : ℕ
  start = hash1 % 2 ^ bits

  after_slot :
      (at_slot pos : ℕ) (entry : MpqHash)
      → Holds entries start (2 ^ bits) at_slot entry
      → (entry.block_table_index == hash_free) ≡ false
      → FirstFree entries start (2 ^ bits) (at_slot + 1) pos
      → FirstFree entries start (2 ^ bits) at_slot pos
  after_slot at_slot pos entry e used (k, le, lt, q, before) = (
    k,
    omega arith,
    lt,
    q,
    λ j h i. elim (Bool-cases (j == at_slot)) [
      | inl here ↦
          subst
            (λ m.
              (entry : MpqHash) × Holds entries start (2 ^ bits) m entry
              × ((entry.block_table_index == hash_free) ≡ false))
            (let c : at_slot ≡ j = ground (arith, here) in c) (entry, e, used)
      | inr later ↦ before j (ground (arith, later)) i
    ],
  )

  one_slot :
      (left at_slot pos : ℕ) (entry : MpqHash)
      → get_elem? entries (bit_and (u32 (hash1 + at_slot)) (2 ^ bits - 1)) ≡ some entry
      → free_position (suc left) at_slot (2 ^ bits) hash1 entries ≡ ok (some pos)
      → ((entry.block_table_index == hash_free) ≡ true)
          × (bit_and (u32 (hash1 + at_slot)) (2 ^ bits - 1) ≡ pos)
        ⊎ ((entry.block_table_index == hash_free) ≡ false)
          × (free_position left (at_slot + 1) (2 ^ bits) hash1 entries ≡ ok (some pos))
  unfolding free_position
  one_slot left at_slot pos entry e run = elim (Bool-cases (entry.block_table_index == hash_free)) [
    | inl free ↦
        let here : ◌≡◌ {A = Outcome (Option ℕ)}
            (ok (some (bit_and (u32 (hash1 + at_slot)) (2 ^ bits - 1)))) (ok (some pos)) =
          rw (e, free) at run in
        inl (free, cc)
    | inr used ↦ inr (used, rw (e, used) at run)
  ]

  free_position-FirstFree :
      (left at_slot pos : ℕ)
      → at_slot + left ≡ 2 ^ bits
      → free_position left at_slot (2 ^ bits) hash1 entries ≡ ok (some pos)
      → FirstFree entries start (2 ^ bits) at_slot pos
  unfolding free_position
  free_position-FirstFree zero at_slot pos q run = cc
  free_position-FirstFree (suc left) at_slot pos q run =
      let s : start < 2 ^ bits = mod-lt hash1 (pow_pos bits) in
      let place : bit_and (u32 (hash1 + at_slot)) (2 ^ bits - 1) ≡ slot start (2 ^ bits) at_slot =
        masked bits hash1 at_slot small in
      let (entry, e) =
        get_elem?_lt entries (slot start (2 ^ bits) at_slot)
          (omega (arith, slot-lt start (2 ^ bits) at_slot s)) in
      elim (one_slot left at_slot pos entry (ap (get_elem? entries) place ∙ e) run) [
        | inl (free, here) ↦
            (at_slot, omega arith, omega arith, sym here ∙ place, λ j h i. absurd (omega arith))
        | inr (used, on) ↦
            after_slot at_slot pos entry e used
              (free_position-FirstFree left (at_slot + 1) pos (omega arith) on)
      ]

has_flag : (flags f : ℕ) → bit_and (bit_or (bit_or flag_exists flags) f) flag_exists ≢ 0
has_flag flags f e =
    let bad : bit_and flag_exists flag_exists ≡ 0 =
      and_or flag_exists flags flag_exists (and_or (bit_or flag_exists flags) f flag_exists e) in
    absurd (omega arith)

not_zero : (n : ℕ) → n ≢ 0 → (n == 0) ≡ false
not_zero n h = ground arith

member_block-exists : (member : Member) (total : ℕ) → exists (member_block member total) ≡ true
unfolding member_block
member_block-exists member total =
    let patch : ℕ = if member.patch_file then flag_patch_file else 0 in
    elim (Bool-cases (bit_and member.flags flag_compress == 0)) [
      | inl plain ↦ rw (plain, not_zero _ (has_flag member.flags patch)) refl
      | inr packed ↦
          rw
            (
              packed,
              not_zero _ (λ e. has_flag member.flags patch (
                  and_or (bit_or (bit_or flag_exists member.flags) patch) flag_compress flag_exists
                    e)),
            )
            refl
    ]

-- The lookup after an entry was written to the first free slot.
looked_up :
    (bits hash1 hash2 hash3 : ℕ) (entries : List MpqHash) (index : ℕ) (member : Member) (pos : ℕ)
    → bits ≤ 31
    → length entries ≡ 2 ^ bits
    → FirstFree entries (hash1 % 2 ^ bits) (2 ^ bits) 0 pos
    → index + 1 < 2 ^ 32
    → All (λ entry. matches entry hash2 hash3 ≡ false) entries
    → (blocks : List MpqBlock) (maps : List MpqMap) (files number : ℕ)
    → file_number
        (opened (2 ^ bits) (set entries pos (entry_of index member hash2 hash3)) blocks maps files)
        index
      ≡ ok number
    → file_number_from_hash
        (opened (2 ^ bits) (set entries pos (entry_of index member hash2 hash3)) blocks maps files)
        hash1
        hash2
        hash3
      ≡ ok number
looked_up bits hash1 hash2 hash3 entries index member pos small lh (k, le, lt, at_k, before) w
      absent blocks maps files number numbered =
    let s : hash1 % 2 ^ bits < 2 ^ bits = mod-lt hash1 (pow_pos bits) in
    let new : MpqHash = entry_of index member hash2 hash3 in
    let few : 2 ^ bits ≤ 2 ^ 31 = pow-le-pow_right (let c : 0 < 2 = omega arith in c) small in
    file_number_from_hash-Stops (opened (2 ^ bits) (set entries pos new) blocks maps files) hash1
      hash2 hash3 k (ok number) (omega arith) lt
      (λ j h.
        let (entry, e, used) = before j (omega arith) h in
        (
          entry,
          get_elem?-set_other entries pos (slot (hash1 % 2 ^ bits) (2 ^ bits) j) new
                (λ c. slot_distinct (hash1 % 2 ^ bits) (2 ^ bits) j k s h lt (sym (sym at_k ∙ c)))
              ∙ e,
          used,
          All-get_elem? (λ x. matches x hash2 hash3 ≡ false) entries
              (slot (hash1 % 2 ^ bits) (2 ^ bits) j) absent e,
        ))
      (
        new,
        ap (get_elem? (set entries pos new)) (sym at_k)
            ∙ get_elem?-set_same entries pos new
                (omega (arith, at_k, slot-lt (hash1 % 2 ^ bits) (2 ^ bits) k s)),
        inr (ground arith, (ground arith, sym numbered)),
      )

-- A member whose payload offset, expected size, and total with its prefix are below 2^32 is
-- published in an archive without attributes, with less than 2^32 block entries, room for one
-- block more in its tables, and a hash table of 2^bits entries, bits at most 31, that has a free
-- position for the first hash of the name and no entry with its other two; from the tables so
-- written the reader builds its map without a fault, and the lookup of the hashes of the name
-- gives the number whose entry in the map leads to the block of the member.
pub publish-file_number :
    (toupper : ℕ → ℕ) (archive : OutputArchive) (member : Member)
    (total bits pos hash1 hash2 hash3 : ℕ)
    → bits ≤ 31
    → archive.write_hash_capacity ≡ 2 ^ bits
    → length archive.mpq_hash ≡ 2 ^ bits
    → length archive.mpq_block < 2 ^ 32
    → HasRoom archive
    → archive.write_attributes ≡ none
    → hash_string toupper member.name 0 ≡ ok hash1
    → hash_string toupper member.name 0x100 ≡ ok hash2
    → hash_string toupper member.name 0x200 ≡ ok hash3
    → All (λ entry. matches entry hash2 hash3 ≡ false) archive.mpq_hash
    → free_position archive.write_hash_capacity 0 archive.write_hash_capacity hash1 archive.mpq_hash
      ≡ ok (some pos)
    → member.payload_offset < 2 ^ 32
    → member.prefix_size ≤ member.payload_offset
    → total + member.prefix_size < 2 ^ 32
    → member.expected < 2 ^ 32
    → (after : OutputArchive) × (maps : List MpqMap) × (files : ℕ) × (number : ℕ) × (entry : MpqMap)
      × (publish toupper true archive member total ≡ ok (none, after))
      × (build_map after.mpq_block ≡ ok (maps, files))
      × (file_number_from_hash
            (opened (2 ^ bits) after.mpq_hash after.mpq_block maps files)
            hash1
            hash2
            hash3
          ≡ ok number)
      × (get_elem? maps number ≡ some entry)
      × (entry.block_table_indices ≡ archive.write_next_block)
publish-file_number toupper archive member total bits pos hash1 hash2 hash3 small cap lh lb room
      none_kept e1 e2 e3 absent run po pp pt pe =
    let index : ℕ = archive.write_next_block in
    let after : OutputArchive = entered archive member total pos hash2 hash3 in
    let lblocks : length after.mpq_block ≡ length archive.mpq_block =
      length-set archive.mpq_block index (member_block member total) in
    let run' : free_position (2 ^ bits) 0 (2 ^ bits) hash1 archive.mpq_hash ≡ ok (some pos) =
      ap (λ c. free_position c 0 c hash1 archive.mpq_hash) (sym cap) ∙ run in
    let first =
      free_position-FirstFree bits hash1 small archive.mpq_hash lh (2 ^ bits) 0 pos (omega arith)
        run' in
    let w : index + 1 < 2 ^ 32 = omega (arith, room.0, lb) in
    let (maps, files, number, entry, built, numbered, below, em, back) =
      build_map-file_number after.mpq_block index (member_block member total) (2 ^ bits)
        after.mpq_hash (omega (arith, lblocks))
        (get_elem?-set_same archive.mpq_block index (member_block member total) room.0)
        (member_block-exists member total) in
    (
      after,
      maps,
      files,
      number,
      entry,
      publish-entered toupper archive member total pos hash1 hash2 hash3 room w none_kept e1 e2 e3
          run po pp pt pe,
      built,
      looked_up bits hash1 hash2 hash3 archive.mpq_hash index member pos small lh first w absent
          after.mpq_block maps files number numbered,
      em,
      back,
    )

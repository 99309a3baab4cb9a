-- ===== src/Writer/Publish.antt =====
-- Which members the end of `stream_finish` in src/mpq-writer.c enters in the tables.
use libmpq.Base.{
  ℕ, ◌+◌, ◌-◌, ◌^◌, ◌≤◌, ◌<◌, ◌≡◌, refl, ap, ◌∙◌, arith, true, false, ◌&&◌, not, List, none, some,
  Option, Outcome, ok, ltb, lt→ltb, Bool-cases, Option-cases, inl, inr, sym, bit_and, u16, u32,
  zero, suc, get_elem?, set, length, ◌==◌, ◌>>>◌,
}
use libmpq.Base.Lists.{get_elem?-some_lt}
use libmpq.Crypto.StringHash.{hash_string}
use libmpq.HashTable.{MpqHash, hash_free}
use libmpq.BlockTable.{MpqBlock}
use libmpq.Writer.{
  put, put_slot, put_attributes, member_block, free_position, enter, OutputArchive, Member, publish,
  u32_max,
}

put_inside :
    {A : Type 0} (xs : List A) (i : ℕ) (x : A) → i < length xs → put xs i x ≡ ok (set xs i x)
unfolding put
put_inside xs i x h = rw (lt→ltb i (length xs) h) refl

-- A position that the search gives is inside the table, and free.
free_position-get_elem? :
    (left at_slot capacity hash1 : ℕ) (entries : List MpqHash) (pos : ℕ)
    → free_position left at_slot capacity hash1 entries ≡ ok (some pos)
    → (entry : MpqHash) × (get_elem? entries pos ≡ some entry)
      × (entry.block_table_index ≡ hash_free)
unfolding free_position
free_position-get_elem? zero at_slot capacity hash1 entries pos run = cc
free_position-get_elem? (suc left) at_slot capacity hash1 entries pos run =
    elim (Option-cases (get_elem? entries (bit_and (u32 (hash1 + at_slot)) (capacity - 1)))) [
      | inl out ↦ let bad = rw out at run in cc
      | inr (entry, e) ↦ elim (Bool-cases (entry.block_table_index == hash_free)) [
        | inl free ↦
            let here : ◌≡◌ {A = Outcome (Option ℕ)}
                (ok (some (bit_and (u32 (hash1 + at_slot)) (capacity - 1)))) (ok (some pos)) =
              rw (e, free) at run in
            let same : bit_and (u32 (hash1 + at_slot)) (capacity - 1) ≡ pos = cc in
            (entry, ap (get_elem? entries) (sym same) ∙ e, ground (arith, free))
        | inr used ↦
            free_position-get_elem? left (at_slot + 1) capacity hash1 entries pos
              (rw (e, used) at run)
      ]
    ]

-- The archive has room for one block more in every table.
abbrev pub HasRoom : OutputArchive → Type 0
HasRoom archive =
    (archive.write_next_block < length archive.mpq_block)
    × (archive.write_next_block < length archive.mpq_block_ex)
    × (archive.write_next_block < length archive.write_names)
    × (archive.write_next_block < length archive.write_locales)
    × (archive.write_next_block < length archive.write_platforms)

-- `before` with the member as block `write_next_block`, at `pos` in the hash table.
abbrev pub IsEntered : OutputArchive → OutputArchive → Member → ℕ → ℕ → ℕ → ℕ → Type 0
IsEntered before after member total pos hash2 hash3 =
    (block : MpqBlock) × (entry : MpqHash) × (get_elem? after.mpq_block before.write_next_block
      ≡ some block)
    × (block.offset + member.prefix_size ≡ member.payload_offset)
    × (block.packed_size ≡ total + member.prefix_size)
    × (get_elem? after.mpq_hash pos ≡ some entry)
    × (entry.block_table_index ≡ before.write_next_block)
    × (entry.hash_a ≡ hash2)
    × (entry.hash_b ≡ hash3)
    × (get_elem? after.write_names before.write_next_block ≡ some (some member.name))
    × (after.write_next_block ≡ before.write_next_block + 1)
    × (after.files ≡ before.write_next_block + 1)

abbrev pub entry_of : ℕ → Member → ℕ → ℕ → MpqHash
entry_of index member hash2 hash3 = record {
  hash_a = hash2;
  hash_b = hash3;
  locale = member.locale;
  platform = member.platform;
  block_table_index = index;
}

abbrev pub entered : OutputArchive → Member → ℕ → ℕ → ℕ → ℕ → OutputArchive
entered archive member total pos hash2 hash3 =
    let index = archive.write_next_block in
    record archive {
      mpq_hash = set archive.mpq_hash pos (entry_of index member hash2 hash3);
      mpq_block = set archive.mpq_block index (member_block member total);
      mpq_block_ex =
          set archive.mpq_block_ex index
            (record { offset_high = u16 ((member.payload_offset - member.prefix_size) >>> 32) });
      write_names = set archive.write_names index (some member.name);
      write_locales = set archive.write_locales index member.locale;
      write_platforms = set archive.write_platforms index member.platform;
      write_next_block = u32 (index + 1);
      files = u32 (index + 1);
      write_attributes = none;
    }

pub publish-entered :
    (toupper : ℕ → ℕ) (archive : OutputArchive) (member : Member) (total pos hash1 hash2 hash3 : ℕ)
    → HasRoom archive
    → archive.write_next_block + 1 < 2 ^ 32
    → archive.write_attributes ≡ none
    → hash_string toupper member.name 0 ≡ ok hash1
    → hash_string toupper member.name 0x100 ≡ ok hash2
    → hash_string toupper member.name 0x200 ≡ ok hash3
    → free_position archive.write_hash_capacity 0 archive.write_hash_capacity hash1 archive.mpq_hash
      ≡ ok (some pos)
    → member.payload_offset < 2 ^ 32
    → member.prefix_size ≤ member.payload_offset
    → total + member.prefix_size < 2 ^ 32
    → member.expected < 2 ^ 32
    → publish toupper true archive member total
      ≡ ok (none, entered archive member total pos hash2 hash3)
unfolding publish enter put_slot put_attributes
publish-entered toupper archive member total pos hash1 hash2 hash3 (r1, r2, r3, r4, r5) w none_kept
      e1 e2 e3 run po pp pt pe =
    let (old, eo, free) =
      free_position-get_elem? archive.write_hash_capacity 0 archive.write_hash_capacity hash1
        archive.mpq_hash pos run in
    let inside : pos < length archive.mpq_hash = get_elem?-some_lt archive.mpq_hash pos eo in
    let index : ℕ = archive.write_next_block in
    let a : ltb member.payload_offset member.prefix_size ≡ false = ground arith in
    let f : (not (member.prefix_size == 0) && ltb (u32_max - member.prefix_size) total) ≡ false =
      ground arith in
    let c : ltb u32_max member.payload_offset ≡ false = ground arith in
    let d : ltb u32_max total ≡ false = ground arith in
    let e : ltb u32_max member.expected ≡ false = ground arith in
    rw
      (
        a,
        f,
        c,
        d,
        e,
        e1,
        e2,
        e3,
        put_inside archive.mpq_block index _ r1,
        put_inside archive.mpq_block_ex index _ r2,
        put_inside archive.write_names index _ r3,
        put_inside archive.write_locales index _ r4,
        put_inside archive.write_platforms index _ r5,
        run,
        put_inside archive.mpq_hash pos _ inside,
        none_kept,
      )
      refl

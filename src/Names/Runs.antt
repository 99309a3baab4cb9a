-- ===== src/Names/Runs.antt =====
-- Concrete runs of the hash table of src/mpq-api.c and src/mpq-update.c.
use libmpq.Base.{
  ℕ, ◌%◌, ◌<◌, ◌≡◌, refl, arith, ◌⊎◌, List, [], ◌∷◌, some, ok, err, size_error, set, get_elem?,
  length,
}
use libmpq.Crypto.Known.{upper, listfile, listfile_hash, listfile_hash_a, listfile_hash_b}
use libmpq.HashTable.{MpqHash}
use libmpq.BlockTable.{MpqBlock}
use libmpq.Names.{
  MpqMap, Archive, file_number, probe, file_number_from_hash, update_insert_hash, update_hash_slot,
  update_delete_hash, slot_loop, find_candidate, first_of, put_entry, build_map,
}
use libmpq.Names.Probe.{Answered, file_number_from_hash-Answered}
use libmpq.Names.Found.{with_hashes}
use libmpq.Names.Insert.{Used}
use libmpq.Names.Inserted.{update_insert_hash-lookup, update_insert_hash-others}
use libmpq.Names.Deleted.{update_delete_hash-others}
use libmpq.Names.Map.Build.{opened, build_map-file_number}

abbrev entry : ℕ → ℕ → ℕ → MpqHash
entry a b index = record {
  hash_a = a;
  hash_b = b;
  locale = 0;
  platform = 0;
  block_table_index = index;
}

abbrev file : MpqBlock
file = record { offset = 32; packed_size = 4; unpacked_size = 4; flags = 0x80000000 }

-- Two files, whose entries follow one another, a deleted slot and a free one.
abbrev archive : Archive
archive = record {
  hash_table_count = 4;
  mpq_hash = entry 11 12 0 ∷ entry 0 0 0xFFFFFFFE ∷ entry 21 22 1 ∷ entry 0 0 0xFFFFFFFF ∷ [];
  block_table_count = 2;
  mpq_block = file ∷ file ∷ [];
  mpq_map =
      record { block_table_indices = 0; block_table_diff = 0 }
      ∷ record { block_table_indices = 1; block_table_diff = 0 }
      ∷ [];
  files = 2;
}

file_number_from_hash-Answered_example : Answered archive (file_number_from_hash archive 4 21 22)
file_number_from_hash-Answered_example =
    file_number_from_hash-Answered archive 4 21 22 (omega arith) refl (omega arith) (omega arith)

found : file_number_from_hash archive 4 21 22 ≡ ok 1
unfolding file_number_from_hash probe file_number
found = refl

abbrev listfile_entry : MpqHash
listfile_entry = entry 0xFD657910 0x4E9B98A7 1

update_insert_hash-lookup_example :
    (update_insert_hash upper archive listfile (entry 5 6 1) ≡ err size_error)
      × ((j : ℕ) → j < 4 → Used archive.mpq_hash (0x5F3DE859 % 4) 4 j)
    ⊎ ((entries : List MpqHash) × (update_insert_hash upper archive listfile (entry 5 6 1)
          ≡ ok entries)
        × (length entries ≡ 4)
        × (file_number_from_hash (with_hashes archive entries) 0x5F3DE859 0xFD657910 0x4E9B98A7
            ≡ file_number archive 1))
update_insert_hash-lookup_example =
    update_insert_hash-lookup upper archive listfile (entry 5 6 1) 0x5F3DE859 0xFD657910 0x4E9B98A7
      (omega arith) (omega arith) refl listfile_hash listfile_hash_a listfile_hash_b refl
      (refl, (refl, (refl, (refl, tt))))

abbrev inserted : List MpqHash
inserted = entry 11 12 0 ∷ listfile_entry ∷ entry 21 22 1 ∷ entry 0 0 0xFFFFFFFF ∷ []

insertion : update_insert_hash upper archive listfile (entry 5 6 1) ≡ ok inserted
unfolding update_insert_hash find_candidate first_of put_entry
insertion = rw (listfile_hash, listfile_hash_a, listfile_hash_b) refl

update_insert_hash-others_example :
    file_number_from_hash (with_hashes archive inserted) 4 21 22 ≡ ok 1
update_insert_hash-others_example =
    update_insert_hash-others upper archive listfile (entry 5 6 1) 0x5F3DE859 0xFD657910 0x4E9B98A7
      (omega arith) (omega arith) refl listfile_hash listfile_hash_a listfile_hash_b inserted 4 21
      22 1 (omega arith) refl refl insertion found

-- The archive with the list file in it.
abbrev archive_inserted : Archive
archive_inserted = with_hashes archive inserted

found_inserted : file_number_from_hash archive_inserted 4 21 22 ≡ ok 1
unfolding file_number_from_hash probe file_number
found_inserted = refl

slot_of_listfile : update_hash_slot upper archive_inserted listfile 1 ≡ ok (some 1)
unfolding update_hash_slot slot_loop
slot_of_listfile = rw (listfile_hash_a, listfile_hash_b) refl

update_delete_hash-others_example :
    file_number_from_hash (with_hashes archive_inserted (set inserted 1 update_delete_hash)) 4 21 22
    ≡ ok 1
update_delete_hash-others_example =
    update_delete_hash-others upper archive_inserted listfile 1 1 0xFD657910 0x4E9B98A7
      (omega arith) refl listfile_hash_a listfile_hash_b slot_of_listfile 4 21 22 1 refl refl
      found_inserted

-- The second of three blocks does not exist.
abbrev blocks : List MpqBlock
blocks = file ∷ record { offset = 0; packed_size = 0; unpacked_size = 0; flags = 0 } ∷ file ∷ []

build_map-file_number_example :
    (maps : List MpqMap) × (files : ℕ) × (number : ℕ) × (map_entry : MpqMap) × (build_map blocks
      ≡ ok (maps, files))
    × (file_number (opened 0 [] blocks maps files) 2 ≡ ok number)
    × (number < files)
    × (get_elem? maps number ≡ some map_entry)
    × (map_entry.block_table_indices ≡ 2)
build_map-file_number_example = build_map-file_number blocks 2 file 0 [] (omega arith) refl refl

-- ===== src/Writer/Runs.antt =====
-- Members at the end of src/mpq-writer.c.
use libmpq.Base.{
  ℕ, ◌≡◌, refl, arith, false, true, List, [], ◌∷◌, none, some, ok, get_elem?, replicate,
}
use libmpq.Crypto.Known.{upper, listfile, listfile_hash, listfile_hash_a, listfile_hash_b}
use libmpq.Digest.Md5.{md5_init}
use libmpq.HashTable.{MpqHash}
use libmpq.BlockTable.{MpqBlock}
use libmpq.Writer.{OutputArchive, Member, publish, free_position}
use libmpq.Names.{MpqMap, build_map, file_number_from_hash}
use libmpq.Names.Map.Build.{opened}
use libmpq.Writer.Lookup.{publish-file_number}

abbrev no_entry : MpqHash
no_entry = record {
  hash_a = 0;
  hash_b = 0;
  locale = 0;
  platform = 0;
  block_table_index = 0xFFFFFFFF;
}

abbrev no_block : MpqBlock
no_block = record { offset = 0; packed_size = 0; unpacked_size = 0; flags = 0 }

-- A fresh archive with room for two members.
abbrev fresh : OutputArchive
fresh = record {
  version = 1;
  write_hash_capacity = 4;
  mpq_hash = replicate 4 no_entry;
  mpq_block = replicate 2 no_block;
  mpq_block_ex = replicate 2 (record { offset_high = 0 });
  write_names = none ∷ none ∷ [];
  write_locales = 0 ∷ 0 ∷ [];
  write_platforms = 0 ∷ 0 ∷ [];
  write_next_block = 0;
  files = 0;
  write_attributes = none;
}

abbrev member_at : ℕ → Member
member_at offset = record {
  name = listfile;
  payload_offset = offset;
  prefix_size = 0;
  patch_result_size = 0;
  patch_file = false;
  expected = 10;
  flags = 0;
  locale = 0;
  platform = 0;
  attributes = record {
    flags = 0;
    crc32 = 0;
    filetime = 0;
    md5 = replicate 16 0;
    patch_bit = 0;
    reserved = replicate 4 0;
  };
  md5 = md5_init;
}

-- 0x5F3DE859 is 1 modulo 4.
position : free_position 4 0 4 0x5F3DE859 (replicate 4 no_entry) ≡ ok (some 1)
unfolding free_position
position = refl

publish-file_number_example :
    (after : OutputArchive) × (maps : List MpqMap) × (files : ℕ) × (number : ℕ)
    × (map_entry : MpqMap) × (publish upper true fresh (member_at 44) 10 ≡ ok (none, after))
    × (build_map after.mpq_block ≡ ok (maps, files))
    × (file_number_from_hash
          (opened 4 after.mpq_hash after.mpq_block maps files)
          0x5F3DE859
          0xFD657910
          0x4E9B98A7
        ≡ ok number)
    × (get_elem? maps number ≡ some map_entry)
    × (map_entry.block_table_indices ≡ 0)
publish-file_number_example =
    publish-file_number upper fresh (member_at 44) 10 2 1 0x5F3DE859 0xFD657910 0x4E9B98A7
      (omega arith) refl refl (omega arith)
      (omega arith, omega arith, omega arith, omega arith, omega arith) refl listfile_hash
      listfile_hash_a listfile_hash_b (refl, (refl, (refl, (refl, tt)))) position (omega arith)
      (omega arith) (omega arith) (omega arith)

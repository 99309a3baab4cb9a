-- ===== src/Runs.antt =====
-- Concrete runs of the byte order, the headers and the tables.
use libmpq.Base.{
  ℕ, ◌*◌, ◌/◌, ◌<◌, ◌≤◌, ◌≡◌, refl, ◌⊎◌, arith, List, [], ◌∷◌, some, ok, err, size_error, length,
  drop, replicate,
}
use libmpq.EntryTable.{size_max}
use libmpq.HashTable.{MpqHash, hash_table_decode, hash_table_encode}
use libmpq.HashTable.Wire.{IsHash, hash_table_decode-hash_table_encode, hash_table_decode_total}
use libmpq.BlockTable.{MpqBlock, block_table_decode, block_table_encode}
use libmpq.BlockTable.Wire.{IsBlock, block_table_decode-block_table_encode}
use libmpq.Header.{MpqHeader, header_decode, header_encode}
use libmpq.Header.Wire.{IsHeader, header_decode-header_encode}

abbrev hash : MpqHash
hash = record {
  hash_a = 0x12345678;
  hash_b = 0xFFFFFFFF;
  locale = 0x409;
  platform = 0;
  block_table_index = 3;
}

hash-IsHash : IsHash hash
hash-IsHash = record {
  hash_a_fits = omega arith;
  hash_b_fits = omega arith;
  locale_fits = omega arith;
  platform_fits = omega arith;
  index_fits = omega arith;
}

abbrev empty_hash : MpqHash
empty_hash = record {
  hash_a = 0;
  hash_b = 0;
  locale = 0;
  platform = 0;
  block_table_index = 0xFFFFFFFF;
}

hash_table_decode-hash_table_encode_example :
    (out : List ℕ) × (hash_table_encode (some (hash ∷ hash ∷ [])) 2 (some (replicate 40 0)) 33
      ≡ ok out)
    × (hash_table_decode (some out) 33 (some (empty_hash ∷ empty_hash ∷ [])) 2
        ≡ ok (hash ∷ hash ∷ []))
    × (length out ≡ 40)
hash_table_decode-hash_table_encode_example =
    hash_table_decode-hash_table_encode (hash ∷ hash ∷ []) (empty_hash ∷ empty_hash ∷ [])
      (replicate 40 0) 33 (hash-IsHash, (hash-IsHash, tt)) refl (omega arith) (omega arith)
      (omega arith)

hash_table_decode_total_example :
    (hash_table_decode (some (replicate 20 1)) 20 (some (empty_hash ∷ [])) 1 ≡ err size_error)
      × ((size_max / 16 < 1) ⊎ (20 < 1 * 16))
    ⊎ (1 ≤ size_max / 16)
      × (1 * 16 ≤ 20)
      × ((entries : List MpqHash) × (hash_table_decode
              (some (replicate 20 1))
              20
              (some (empty_hash ∷ []))
              1
            ≡ ok entries)
          × (length entries ≡ 1))
hash_table_decode_total_example =
    hash_table_decode_total (replicate 20 1) 20 (empty_hash ∷ []) 1 (omega arith) (omega arith)

abbrev block : MpqBlock
block = record { offset = 0x2C; packed_size = 100; unpacked_size = 4096; flags = 0x80000200 }

block-IsBlock : IsBlock block
block-IsBlock = record {
  offset_fits = omega arith;
  packed_fits = omega arith;
  unpacked_fits = omega arith;
  flags_fit = omega arith;
}

block_table_decode-block_table_encode_example :
    (out : List ℕ) × (block_table_encode (some (block ∷ [])) 1 (some (replicate 16 0)) 16 ≡ ok out)
    × (block_table_decode (some out) 16 (some (block ∷ [])) 1 ≡ ok (block ∷ []))
    × (length out ≡ 16)
block_table_decode-block_table_encode_example =
    block_table_decode-block_table_encode (block ∷ []) (block ∷ []) (replicate 16 0) 16
      (block-IsBlock, tt) refl (omega arith) (omega arith) (omega arith)

abbrev header : MpqHeader
header = record {
  mpq_magic = 0x1A51504D;
  header_size = 44;
  archive_size = 70000;
  version = 1;
  block_size = 3;
  hash_table_offset = 1000;
  block_table_offset = 2000;
  hash_table_count = 16;
  block_table_count = 5;
}

header-IsHeader : IsHeader header
header-IsHeader = record {
  magic_fits = omega arith;
  header_size_fits = omega arith;
  archive_size_fits = omega arith;
  version_fits = omega arith;
  block_size_fits = omega arith;
  hash_offset_fits = omega arith;
  block_offset_fits = omega arith;
  hash_count_fits = omega arith;
  block_count_fits = omega arith;
}

header_decode-header_encode_example :
    (out : List ℕ) × (header_encode (some header) (some (replicate 33 9)) 33 ≡ ok out)
    × (header_decode (some header) (some out) 33 ≡ ok header)
    × (drop 32 out ≡ 9 ∷ [])
    × (length out ≡ 33)
header_decode-header_encode_example =
    header_decode-header_encode header header (replicate 33 9) 33 header-IsHeader (omega arith)
      (omega arith)

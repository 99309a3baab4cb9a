-- ===== src/HashTable.antt =====
-- Hash-table entries and their wire form, src/mpq-hash.c and src/mpq-hash.h.
pub mod Wire
use libmpq.Base.{ℕ, List, [], ◌∷◌, Option, some, Pointer, Outcome, ok, at_offset, ◌>>=◌, drop}
use libmpq.Endian.{load_le16, load_le32, store_le16, store_le32}
use libmpq.EntryTable.{table_decode, table_encode}

pub record MpqHash : Type 0 where
  pub hash_a : ℕ
  pub hash_b : ℕ
  pub locale : ℕ
  pub platform : ℕ
  pub block_table_index : ℕ

-- LIBMPQ_HASH_FREE, LIBMPQ_HASH_DELETED and LIBMPQ_HASH_ENTRY_WIRE_SIZE.
abbrev pub hash_free : ℕ
hash_free = 0xFFFFFFFF

abbrev pub hash_deleted : ℕ
hash_deleted = 0xFFFFFFFE

abbrev pub hash_entry_wire_size : ℕ
hash_entry_wire_size = 16

-- The body of the loop of `libmpq__hash_table_decode`.
pub load_hash : List ℕ → Outcome MpqHash
load_hash wire = do
  hash_a ← load_le32 (some wire)
  hash_b ← load_le32 (some (drop 4 wire))
  locale ← load_le16 (some (drop 8 wire))
  platform ← load_le16 (some (drop 10 wire))
  block_table_index ← load_le32 (some (drop 12 wire))
  ok (record {
    hash_a = hash_a;
    hash_b = hash_b;
    locale = locale;
    platform = platform;
    block_table_index = block_table_index;
  })

-- The body of the loop of `libmpq__hash_table_encode`.
pub store_hash : MpqHash → List ℕ → Outcome (List ℕ)
store_hash entry wire0 = do
  wire1 ← store_le32 entry.hash_a wire0
  wire2 ← at_offset 4 (store_le32 entry.hash_b) wire1
  wire3 ← at_offset 8 (store_le16 entry.locale) wire2
  wire4 ← at_offset 10 (store_le16 entry.platform) wire3
  at_offset 12 (store_le32 entry.block_table_index) wire4

pub hash_table_decode : Pointer → ℕ → Option (List MpqHash) → ℕ → Outcome (List MpqHash)
hash_table_decode = table_decode hash_entry_wire_size load_hash

pub hash_table_encode : Option (List MpqHash) → ℕ → Pointer → ℕ → Outcome (List ℕ)
hash_table_encode = table_encode hash_entry_wire_size store_hash

-- ===== src/BlockTable.antt =====
-- Block-table entries and their wire form, src/mpq-block.c and src/mpq-block.h.
pub mod Wire
use libmpq.Base.{ℕ, List, Option, some, Pointer, Outcome, ok, at_offset, ◌>>=◌, drop}
use libmpq.Endian.{load_le16, load_le32, store_le16, store_le32}
use libmpq.EntryTable.{table_decode, table_encode}

pub record MpqBlock : Type 0 where
  pub offset : ℕ
  pub packed_size : ℕ
  pub unpacked_size : ℕ
  pub flags : ℕ

-- The high words of the offsets, in archives of version two.
pub record MpqBlockEx : Type 0 where
  pub offset_high : ℕ

abbrev pub block_entry_wire_size : ℕ
block_entry_wire_size = 16

abbrev pub block_ex_entry_wire_size : ℕ
block_ex_entry_wire_size = 2

-- The body of the loop of `libmpq__block_table_decode`.
pub load_block : List ℕ → Outcome MpqBlock
load_block wire = do
  offset ← load_le32 (some wire)
  packed_size ← load_le32 (some (drop 4 wire))
  unpacked_size ← load_le32 (some (drop 8 wire))
  flags ← load_le32 (some (drop 12 wire))
  ok (record {
    offset = offset;
    packed_size = packed_size;
    unpacked_size = unpacked_size;
    flags = flags;
  })

-- The body of the loop of `libmpq__block_table_encode`.
pub store_block : MpqBlock → List ℕ → Outcome (List ℕ)
store_block entry wire0 = do
  wire1 ← store_le32 entry.offset wire0
  wire2 ← at_offset 4 (store_le32 entry.packed_size) wire1
  wire3 ← at_offset 8 (store_le32 entry.unpacked_size) wire2
  at_offset 12 (store_le32 entry.flags) wire3

pub load_block_ex : List ℕ → Outcome MpqBlockEx
load_block_ex wire = do
  offset_high ← load_le16 (some wire)
  ok (record { offset_high = offset_high })

pub store_block_ex : MpqBlockEx → List ℕ → Outcome (List ℕ)
store_block_ex entry wire = store_le16 entry.offset_high wire

pub block_table_decode : Pointer → ℕ → Option (List MpqBlock) → ℕ → Outcome (List MpqBlock)
block_table_decode = table_decode block_entry_wire_size load_block

pub block_table_encode : Option (List MpqBlock) → ℕ → Pointer → ℕ → Outcome (List ℕ)
block_table_encode = table_encode block_entry_wire_size store_block

pub block_ex_table_decode : Pointer → ℕ → Option (List MpqBlockEx) → ℕ → Outcome (List MpqBlockEx)
block_ex_table_decode = table_decode block_ex_entry_wire_size load_block_ex

pub block_ex_table_encode : Option (List MpqBlockEx) → ℕ → Pointer → ℕ → Outcome (List ℕ)
block_ex_table_encode = table_encode block_ex_entry_wire_size store_block_ex

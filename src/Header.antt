-- ===== src/Header.antt =====
-- Archive headers and their wire form, src/mpq-header.c and src/mpq-header.h.
pub mod Wire
use libmpq.Base.{
  ℕ, List, Option, none, some, Pointer, Outcome, ok, err, size_error, at_offset, ◌>>=◌, ◌||◌, ltb,
  is_null, advance, if◌then◌else◌,
}
use libmpq.Endian.{load_le16, load_le32, load_le64, store_le16, store_le32, store_le64}

pub record MpqHeader : Type 0 where
  pub mpq_magic : ℕ
  pub header_size : ℕ
  pub archive_size : ℕ
  pub version : ℕ
  pub block_size : ℕ
  pub hash_table_offset : ℕ
  pub block_table_offset : ℕ
  pub hash_table_count : ℕ
  pub block_table_count : ℕ

pub record MpqHeaderEx : Type 0 where
  pub extended_offset : ℕ
  pub hash_table_offset_high : ℕ
  pub block_table_offset_high : ℕ

abbrev pub header_wire_size : ℕ
header_wire_size = 32

abbrev pub header_ex_wire_size : ℕ
header_ex_wire_size = 12

-- `header` is the structure to be written, or NULL; the result is its new value.
pub header_decode : Option MpqHeader → Pointer → ℕ → Outcome MpqHeader
header_decode header wire size =
    if is_null header || is_null wire || ltb size header_wire_size then err size_error else do
      mpq_magic ← load_le32 wire
      header_size ← load_le32 (advance wire 4)
      archive_size ← load_le32 (advance wire 8)
      version ← load_le16 (advance wire 12)
      block_size ← load_le16 (advance wire 14)
      hash_table_offset ← load_le32 (advance wire 16)
      block_table_offset ← load_le32 (advance wire 20)
      hash_table_count ← load_le32 (advance wire 24)
      block_table_count ← load_le32 (advance wire 28)
      ok (record {
        mpq_magic = mpq_magic;
        header_size = header_size;
        archive_size = archive_size;
        version = version;
        block_size = block_size;
        hash_table_offset = hash_table_offset;
        block_table_offset = block_table_offset;
        hash_table_count = hash_table_count;
        block_table_count = block_table_count;
      })

pub header_ex_decode : Option MpqHeaderEx → Pointer → ℕ → Outcome MpqHeaderEx
header_ex_decode header wire size =
    if is_null header || is_null wire || ltb size header_ex_wire_size then err size_error else do
      extended_offset ← load_le64 wire
      hash_table_offset_high ← load_le16 (advance wire 8)
      block_table_offset_high ← load_le16 (advance wire 10)
      ok (record {
        extended_offset = extended_offset;
        hash_table_offset_high = hash_table_offset_high;
        block_table_offset_high = block_table_offset_high;
      })

pub header_encode : Option MpqHeader → Pointer → ℕ → Outcome (List ℕ)
header_encode none wire size = err size_error
header_encode (some header) none size = err size_error
header_encode (some header) (some wire0) size =
    if ltb size header_wire_size then err size_error else do
      wire1 ← store_le32 header.mpq_magic wire0
      wire2 ← at_offset 4 (store_le32 header.header_size) wire1
      wire3 ← at_offset 8 (store_le32 header.archive_size) wire2
      wire4 ← at_offset 12 (store_le16 header.version) wire3
      wire5 ← at_offset 14 (store_le16 header.block_size) wire4
      wire6 ← at_offset 16 (store_le32 header.hash_table_offset) wire5
      wire7 ← at_offset 20 (store_le32 header.block_table_offset) wire6
      wire8 ← at_offset 24 (store_le32 header.hash_table_count) wire7
      at_offset 28 (store_le32 header.block_table_count) wire8

pub header_ex_encode : Option MpqHeaderEx → Pointer → ℕ → Outcome (List ℕ)
header_ex_encode none wire size = err size_error
header_ex_encode (some header) none size = err size_error
header_ex_encode (some header) (some wire0) size =
    if ltb size header_ex_wire_size then err size_error else do
      wire1 ← store_le64 header.extended_offset wire0
      wire2 ← at_offset 8 (store_le16 header.hash_table_offset_high) wire1
      at_offset 10 (store_le16 header.block_table_offset_high) wire2

-- ===== src/Payload.antt =====
-- The bounds of a payload, `libmpq__reader_validate_payload_range` of src/mpq-reader.c.
pub mod Bounds
mod Runs
use libmpq.Base.{
  ℕ, ◌+◌, ◌-◌, bit_or, ◌||◌, List, Outcome, ok, err, or_fault, ◌>>=◌, get_elem?, ltb, u64, ◌<<<◌,
  if◌then◌else◌, Error, format_error, read_error,
}
use libmpq.Base.Integers.{ℤ, pos, negsuc}
use libmpq.BlockTable.{MpqBlock, MpqBlockEx}

abbrev pub u64_max : ℕ
u64_max = 0xFFFFFFFFFFFFFFFF

-- What the validation uses of `struct mpq_archive`.
pub record Backing : Type 0 where
  pub archive_offset : ℤ
  pub file_size : ℕ
  pub mpq_block : List MpqBlock
  pub mpq_block_ex : List MpqBlockEx

-- The tests behind the sign of the archive's offset.
pub validate_range : ℕ → ℕ → ℕ → ℕ → ℕ → Outcome (Unit {0})
validate_range archive_offset payload_offset relative_offset size file_size =
    if ltb (u64_max - archive_offset) payload_offset
    then err format_error
    else (let absolute_offset = u64 (archive_offset + payload_offset) in
        if ltb (u64_max - absolute_offset) relative_offset
        then err format_error
        else (let absolute_offset' = u64 (absolute_offset + relative_offset) in
            if ltb file_size absolute_offset' || ltb (file_size - absolute_offset') size
            then err read_error
            else ok tt))

pub validate_payload_range : Backing → ℕ → ℕ → ℕ → Outcome (Unit {0})
validate_payload_range archive block_table_index relative_offset size =
    elim archive.archive_offset [
      | negsuc _ ↦ err format_error
      | pos archive_offset ↦ (do
        block_ex ← or_fault (get_elem? archive.mpq_block_ex block_table_index)
        block ← or_fault (get_elem? archive.mpq_block block_table_index)
        validate_range archive_offset (bit_or (block_ex.offset_high <<< 32) block.offset)
            relative_offset size archive.file_size)
    ]

-- ===== src/Payload/Bounds.antt =====
-- Which payloads `libmpq__reader_validate_payload_range` of src/mpq-reader.c lets pass.
use libmpq.Base.{
  ℕ, ◌+◌, ◌-◌, ◌*◌, ◌^◌, ◌≤◌, ◌<◌, ◌≡◌, refl, ◌⊎◌, inl, inr, arith, some, Outcome, ok, err,
  get_elem?, ltb, u64, ◌||◌, Bool-cases, format_error, read_error, IsU64, IsU32,
}
use libmpq.Base.Integers.{pos}
use libmpq.Base.Bits.{shifted_or}
use libmpq.BlockTable.{MpqBlock, MpqBlockEx}
use libmpq.Payload.{u64_max, Backing, validate_range, validate_payload_range}

-- The answer for bytes from `begin` to `end`.
abbrev pub Answer : ℕ → ℕ → Outcome (Unit {0}) → Type 0
Answer end file_size result =
    (end ≤ file_size) × (result ≡ ok tt)
    ⊎ (file_size < end) × ((result ≡ err format_error) ⊎ (result ≡ err read_error))

validate_range-Answer :
    (archive_offset payload_offset relative_offset size file_size : ℕ)
    → IsU64 archive_offset
    → IsU64 file_size
    → Answer
        (archive_offset + payload_offset + relative_offset + size)
        file_size
        (validate_range archive_offset payload_offset relative_offset size file_size)
unfolding validate_range
validate_range-Answer a p r s f ha hf = elim (Bool-cases (ltb (u64_max - a) p)) [
  | inl over ↦ inr (ground arith, inl (rw over refl))
  | inr in_range ↦
      let one : u64 (a + p) ≡ a + p = ground arith in
      elim (Bool-cases (ltb (u64_max - (a + p)) r)) [
        | inl over ↦ inr (ground arith, inl (rw (in_range, one, over) refl))
        | inr in_range' ↦
            let two : u64 (a + p + r) ≡ a + p + r = ground arith in
            elim (Bool-cases (ltb f (a + p + r) || ltb (f - (a + p + r)) s)) [
              | inl out ↦ inr (ground arith, inr (rw (in_range, one, in_range', two, out) refl))
              | inr inside ↦ inl (ground arith, rw (in_range, one, in_range', two, inside) refl)
            ]
      ]
]

-- For an archive offset and a file size of 64 bits and a block of the table with a 32-bit offset,
-- the validation passes exactly where the end of the range, the sum of the archive offset, the
-- offset of the block with its high word, the relative offset and the size, none of it modulo
-- 2^64, is at most the file size, and otherwise fails with a format or a read error.
pub validate_payload_range-Answer :
    (archive : Backing) (block_table_index relative_offset size archive_offset : ℕ)
    (block : MpqBlock) (block_ex : MpqBlockEx)
    → archive.archive_offset ≡ pos archive_offset
    → IsU64 archive_offset
    → IsU64 archive.file_size
    → get_elem? archive.mpq_block block_table_index ≡ some block
    → get_elem? archive.mpq_block_ex block_table_index ≡ some block_ex
    → IsU32 block.offset
    → Answer
        (archive_offset + (block_ex.offset_high * 2 ^ 32 + block.offset) + relative_offset + size)
        archive.file_size
        (validate_payload_range archive block_table_index relative_offset size)
unfolding validate_payload_range
validate_payload_range-Answer archive block_table_index relative_offset size archive_offset block
      block_ex sign ha hf eb ex hb =
    rw (sign, ex, eb, shifted_or 32 block_ex.offset_high block.offset hb)
      (validate_range-Answer archive_offset (block_ex.offset_high * 2 ^ 32 + block.offset)
        relative_offset size archive.file_size ha hf)

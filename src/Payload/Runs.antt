-- ===== src/Payload/Runs.antt =====
-- Payloads inside and outside of their file.
use libmpq.Base.{◌+◌, ◌*◌, ◌^◌, ◌≡◌, refl, arith, [], ◌∷◌, ok, err, read_error, format_error}
use libmpq.Base.Integers.{pos, negsuc}
use libmpq.BlockTable.{MpqBlock, MpqBlockEx}
use libmpq.Payload.{Backing, validate_payload_range, validate_range}
use libmpq.Payload.Bounds.{Answer, validate_payload_range-Answer}

abbrev block : MpqBlock
block = record { offset = 32; packed_size = 10; unpacked_size = 10; flags = 0x80000000 }

abbrev block_ex : MpqBlockEx
block_ex = record { offset_high = 0 }

abbrev backing : Backing
backing = record {
  archive_offset = pos 512;
  file_size = 560;
  mpq_block = block ∷ [];
  mpq_block_ex = block_ex ∷ [];
}

validate_payload_range-Answer_example :
    Answer (512 + (0 * 2 ^ 32 + 32) + 6 + 10) 560 (validate_payload_range backing 0 6 10)
validate_payload_range-Answer_example =
    validate_payload_range-Answer backing 0 6 10 512 block block_ex refl (omega arith) (omega arith)
      refl refl (omega arith)

to_the_end : validate_payload_range backing 0 6 10 ≡ ok tt
unfolding validate_payload_range validate_range
to_the_end = refl

behind_the_end : validate_payload_range backing 0 7 10 ≡ err read_error
unfolding validate_payload_range validate_range
behind_the_end = refl

before_the_file :
    validate_payload_range (record backing { archive_offset = negsuc 0 }) 0 6 10 ≡ err format_error
unfolding validate_payload_range
before_the_file = refl

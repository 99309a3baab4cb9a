-- ===== src/Stream.antt =====
-- Logical streams, src/mpq-stream.c, over the sectors that src/mpq-reader.c decodes.
pub mod Member
pub mod Load
pub mod Round
pub mod Slice
pub mod Stale
pub mod Seek
mod Runs
use libmpq.Base.{
  ℕ, zero, suc, ◌+◌, ◌-◌, ◌*◌, ◌/◌, ◌^◌, min, Bool, true, false, ◌&&◌, ◌||◌, not, List, [], Option,
  none, some, Pointer, Outcome, ok, err, fault, Error, size_error, malloc_error, read_error,
  exist_error, seek_error, is_null, ◌>>=◌, read_range, write_range, ◌==◌, ltb, leb, u32,
  if◌then◌else◌, length,
}
use libmpq.Base.Integers.{ℤ, pos, negsuc}
use libmpq.EntryTable.{size_max}

-- `struct mpq_stream`; the archive and the file number are those of the reader below, and
-- `archive_block_size` is `archive->block_size`.
pub record Stream : Type 0 where
  pub archive_block_size : ℕ
  pub blocks : ℕ
  pub cached_block : ℕ
  pub buffer : List ℕ
  pub block_valid : Bool
  pub size : ℕ
  pub position : ℕ
  pub buffer_size : ℕ
  pub block_size : ℕ

-- What a call of `libmpq__reader_block_read_acquired` leaves: the result, the buffer, the number of
-- bytes, and whether the checksum of the sector differs.
pub record BlockRead : Type 0 where
  pub result : Option Error
  pub contents : List ℕ
  pub transferred : ℕ
  pub mismatch : Bool

-- The calls into the reader for one member, and `realloc`.
pub record Reader : Type 0 where
  pub block_size_unpacked : ℕ → Outcome ℤ
  pub block_read : ℕ → List ℕ → ℕ → BlockRead
  pub resize : List ℕ → ℕ → Option (List ℕ)

-- `none` is the result 0.
abbrev pub Status : Type 0
Status = Option Error

abbrev pub int64_max : ℕ
int64_max = 2 ^ 63 - 1

module _ (reader : Reader) where
  -- From the call of the block reader on.
  pub read_block : Stream → ℕ → Status × Stream
  read_block stream block =
      let read = reader.block_read block stream.buffer stream.buffer_size in
      let after = record stream { buffer = read.contents } in
      if read.mismatch then (some read_error, after) else elim read.result [
        | some e ↦ (some e, after)
        | none ↦ (
          none,
          record after { cached_block = block; block_size = read.transferred; block_valid = true },
        )
      ]

  pub stream_load_block : Stream → ℕ → Outcome (Status × Stream)
  stream_load_block stream block =
      if stream.block_valid && (stream.cached_block == block)
      then ok (none, stream)
      else elim (reader.block_size_unpacked block) [
        | fault ↦ fault
        | err e ↦ ok (some e, stream)
        | ok (negsuc _) ↦ ok (some size_error, stream)
        | ok (pos size) ↦
            if ltb size_max size
            then ok (some size_error, stream)
            else if ltb stream.buffer_size size
            then elim (reader.resize stream.buffer size) [
              | none ↦ ok (some malloc_error, stream)
              | some buffer ↦
                  ok (read_block (record stream { buffer = buffer; buffer_size = size }) block)
            ]
            else ok (read_block stream block)
      ]

  -- `block` and `base` of one round of the read loop. A division by zero is a fault.
  pub sector_of : Stream → Outcome ℕ
  sector_of stream =
      if stream.blocks == 1
      then ok 0
      else if stream.archive_block_size == 0
      then fault
      else ok (u32 (stream.position / stream.archive_block_size))

  pub sector_base : Stream → ℕ → ℕ
  sector_base stream block = if stream.blocks == 1 then 0 else block * stream.archive_block_size

  -- The bytes to copy: the three bounds of `count`.
  pub copy_count : Stream → ℕ → ℕ → ℕ → ℕ
  copy_count stream size total available =
      min (min (size - total) available) (stream.size - stream.position)

  -- The result is the status, the stream, the caller's buffer and `total`.
  pub read_loop : ℕ → Stream → List ℕ → ℕ → ℕ → Outcome (Status × Stream × List ℕ × ℕ)
  read_loop zero stream buffer size total = fault
  read_loop (suc fuel) stream buffer size total =
      if ltb total size && ltb stream.position stream.size
      then (do
        block ← sector_of stream
        (status, loaded) ← stream_load_block stream block
        let base = sector_base stream block
        let offset = loaded.position - base
        let available = loaded.block_size - offset
        let count = copy_count loaded size total available
        if not (is_null status)
            then ok (status, loaded, buffer, total)
            else (if ltb loaded.position base || ltb loaded.block_size offset || (available == 0)
                then ok (some read_error, loaded, buffer, total)
                else (do
                  bytes ← read_range loaded.buffer offset count
                  buffer' ← write_range buffer total bytes
                  read_loop fuel (record loaded { position = loaded.position + count }) buffer' size
                      (total + count))))
      else ok (none, stream, buffer, total)

  -- `transferred` is the last component. A NULL `stream` or `buffer` is `none`.
  pub stream_read : Option Stream → Pointer → ℤ → Outcome (Status × Option Stream × Pointer × ℕ)
  stream_read stream buffer (negsuc _) = ok (some size_error, stream, buffer, 0)
  stream_read none buffer (pos size) =
      ok (some (if ltb size_max size then size_error else exist_error), none, buffer, 0)
  stream_read (some stream) none (pos size) =
      if ltb size_max size
      then ok (some size_error, some stream, none, 0)
      else if not (size == 0)
      then ok (some exist_error, some stream, none, 0)
      else ok (none, some stream, none, 0)
  stream_read (some stream) (some buffer) (pos size) =
      if ltb size_max size then ok (some size_error, some stream, some buffer, 0) else do
        (status, stream', buffer', total) ← read_loop (size + 1) stream buffer size 0
        ok (status, some stream', some buffer', total)

-- LIBMPQ_SEEK_SET, LIBMPQ_SEEK_CUR, LIBMPQ_SEEK_END, and any other origin.
pub data Origin : Type 0 where
  seek_set seek_cur seek_end seek_other : Origin

pub seek_base : Stream → Origin → Option ℕ
seek_base stream seek_set = some 0
seek_base stream seek_cur = some stream.position
seek_base stream seek_end = some stream.size
seek_base stream seek_other = none

-- `base + offset`, behind the guard against overflow; `none` where the sum is negative.
pub seek_target : ℕ → ℤ → Outcome (Option ℕ)
seek_target base (pos n) =
    if not (n == 0) && ltb (int64_max - n) base then err seek_error else ok (some (base + n))
seek_target base (negsuc n) =
    if ltb (base + 2 ^ 63) (n + 1)
    then err seek_error
    else if ltb base (n + 1)
    then ok none
    else ok (some (base - (n + 1)))

pub stream_seek : Option Stream → ℤ → Origin → Outcome Stream
stream_seek none offset origin = err exist_error
stream_seek (some stream) offset origin = elim (seek_base stream origin) [
  | none ↦ err seek_error
  | some base ↦ do
    target ← seek_target base offset
    elim target [
      | none ↦ err seek_error
      | some position ↦
          if ltb stream.size position
          then err seek_error
          else ok (record stream { position = position })
    ]
]

-- The last argument says whether the output pointer is given.
pub stream_tell : Option Stream → Bool → Outcome ℕ
stream_tell (some stream) true = ok stream.position
stream_tell _ _ = err exist_error

pub stream_size : Option Stream → Bool → Outcome ℕ
stream_size (some stream) true = ok stream.size
stream_size _ _ = err exist_error

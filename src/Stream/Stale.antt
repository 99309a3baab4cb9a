-- ===== src/Stream/Stale.antt =====
-- A load that fails, `stream_load_block` of src/mpq-stream.c.
use libmpq.Base.{ℕ, ◌≤◌, ◌≡◌, ◌≢◌, refl, ap, ◌∙◌, arith, true, none, some, ok, read_error}
use libmpq.Base.Integers.{pos}
use libmpq.EntryTable.{size_max}
use libmpq.Stream.{Stream, Reader, read_block, stream_load_block}

module _ (reader : Reader) where
  read_block-mismatch :
      (s : Stream) (block : ℕ)
      → (reader.block_read block s.buffer s.buffer_size).mismatch ≡ true
      → read_block reader s block ≡ (
        some read_error,
        record s { buffer = (reader.block_read block s.buffer s.buffer_size).contents },
      )
  unfolding read_block
  read_block-mismatch s block e = rw e

  -- When a sector other than the cached one has a known size that fits the buffer, and a checksum that
  -- differs, the load fails, and the
  -- stream still says that its buffer holds the cached sector, while the buffer is what the decoder
  -- of the other sector left: the next load of the cached sector succeeds with these bytes.
  pub stream_load_block-stale :
      (s : Stream) (block size : ℕ)
      → s.block_valid ≡ true
      → s.cached_block ≢ block
      → reader.block_size_unpacked block ≡ ok (pos size)
      → size ≤ size_max
      → size ≤ s.buffer_size
      → (reader.block_read block s.buffer s.buffer_size).mismatch ≡ true
      → (s' : Stream) × (stream_load_block reader s block ≡ ok (some read_error, s'))
        × (stream_load_block reader s' s.cached_block ≡ ok (none, s'))
        × (s'.buffer ≡ (reader.block_read block s.buffer s.buffer_size).contents)
        × (s'.block_size ≡ s.block_size)
  unfolding stream_load_block
  stream_load_block-stale s block size valid other e small fits bad = (
    record s { buffer = (reader.block_read block s.buffer s.buffer_size).contents },
    ground (arith, valid, e) ∙ ap ok (read_block-mismatch s block bad),
    ground (arith, valid),
    refl,
    refl,
  )

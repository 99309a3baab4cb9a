-- ===== src/Wave/Stuck.antt =====
-- A chunk at which the walk of `libmpq__wave_probe_pcm16`, src/mpq-wave.c, stays.
use libmpq.Base.{
  ℕ, zero, suc, ◌+◌, ◌^◌, ◌≤◌, ◌<◌, ◌≡◌, refl, arith, true, false, List, none, some, advance, ok,
}
use libmpq.Endian.{load_le32}
use libmpq.Wave.{
  Chunks, has_tag, fmt_tag, data_tag, probe_chunk, probe_loop, probe_pcm16, is_wave, no_chunks,
}

module _ (data_in : List ℕ) (size pos : ℕ) where
  probe_chunk-stays :
      (found : Chunks)
      → pos + 8 ≤ size
      → size < 2 ^ 32
      → load_le32 (advance (some data_in) (pos + 4)) ≡ ok 0xFFFFFFF8
      → has_tag data_in pos fmt_tag ≡ ok false
      → has_tag data_in pos data_tag ≡ ok false
      → probe_chunk data_in size pos found ≡ ok (pos, found)
  unfolding probe_chunk
  probe_chunk-stays found h k e f d = ground (arith, e, f, d)

  probe_loop-stuck :
      (found : Chunks) (fuel : ℕ)
      → pos + 8 ≤ size
      → size < 2 ^ 32
      → load_le32 (advance (some data_in) (pos + 4)) ≡ ok 0xFFFFFFF8
      → has_tag data_in pos fmt_tag ≡ ok false
      → has_tag data_in pos data_tag ≡ ok false
      → probe_loop fuel data_in size pos found ≡ none
  unfolding probe_loop
  probe_loop-stuck found zero h k e f d = refl
  probe_loop-stuck found (suc fuel) h k e f d =
      let rest : probe_loop fuel data_in size pos found ≡ none =
        probe_loop-stuck found fuel h k e f d in
      ground (arith, probe_chunk-stays found h k e f d, rest)

-- In a RIFF/WAVE buffer below 4 GiB whose first chunk is neither a format nor a data chunk and has
-- 0xFFFFFFF8 in its size field, the walk stays at that chunk: no number of rounds ends it.
pub probe_pcm16-stuck :
    (data_in : List ℕ) (size fuel : ℕ)
    → 20 ≤ size
    → size < 2 ^ 32
    → is_wave data_in size ≡ ok true
    → has_tag data_in 12 fmt_tag ≡ ok false
    → has_tag data_in 12 data_tag ≡ ok false
    → load_le32 (advance (some data_in) 16) ≡ ok 0xFFFFFFF8
    → probe_pcm16 fuel (some data_in) size true ≡ none
unfolding probe_pcm16
probe_pcm16-stuck data_in size fuel h k w f d e =
    ground (arith, w, probe_loop-stuck data_in size 12 no_chunks fuel h k e f d)

-- ===== src/Wave/Prefix.antt =====
-- `libmpq__wave_probe_pcm16_prefix` of src/mpq-wave.c. The sums in `uint64_t` of a position and
-- `uint32_t` sizes do not wrap.
pub mod Bounds
mod Runs
use libmpq.Base.{
  ℕ, zero, suc, ◌+◌, bit_and, Bool, true, false, ◌&&◌, ◌||◌, List, Option, none, some, Pointer,
  Outcome, ok, err, fault, format_error, advance, ◌>>=◌, ltb, leb, u32, if◌then◌else◌,
}
use libmpq.Endian.{load_le32}
use libmpq.Wave.{
  WaveInfo, Chunks, no_chunks, has_tag, fmt_tag, data_tag, load_format, accept, is_wave,
}

-- `if (next > prefix_size) break; pos = (uint32_t)next;`: the next position, or `none` to leave.
pub step_to : ℕ → ℕ → Chunks → Option ℕ × Chunks
step_to prefix_size next found = ((if ltb prefix_size next then none else some (u32 next)), found)

pub data_chunk : ℕ → ℕ → ℕ → Chunks → Outcome (Option ℕ × Chunks)
data_chunk file_size pos chunk_size found =
    let data_offset = u32 (pos + 8) in
    if ltb file_size (data_offset + chunk_size)
    then err format_error
    else ok (none, record found { data_offset = data_offset; data_size = chunk_size })

-- One round of the walk.
pub prefix_chunk : List ℕ → ℕ → ℕ → ℕ → Chunks → Outcome (Option ℕ × Chunks)
prefix_chunk data_in prefix_size file_size pos found = do
  chunk_size ← load_le32 (advance (some data_in) (pos + 4))
  let next = pos + 8 + chunk_size + bit_and chunk_size 1
  if ltb next pos || ltb file_size next then err format_error else (do
    is_fmt ← has_tag data_in pos fmt_tag
    if is_fmt && leb 16 chunk_size
        then (if ltb prefix_size (pos + 24)
            then err format_error
            else (do found' ← load_format data_in pos found; ok (step_to prefix_size next found')))
        else (do
          is_data ← has_tag data_in pos data_tag
          if is_data
              then data_chunk file_size pos chunk_size found
              else ok (step_to prefix_size next found)))

pub prefix_loop : ℕ → List ℕ → ℕ → ℕ → ℕ → Chunks → Option (Outcome Chunks)
prefix_loop zero data_in prefix_size file_size pos found = none
prefix_loop (suc fuel) data_in prefix_size file_size pos found =
    if leb (u32 (pos + 8)) prefix_size
    then elim (prefix_chunk data_in prefix_size file_size pos found) [
      | ok (some next, found') ↦ prefix_loop fuel data_in prefix_size file_size next found'
      | ok (none, found') ↦ some (ok found')
      | err e ↦ some (err e)
      | fault ↦ some fault
    ]
    else some (ok found)

pub probe_pcm16_prefix : ℕ → Pointer → ℕ → ℕ → Bool → Option (Outcome WaveInfo)
probe_pcm16_prefix fuel none prefix_size file_size info = some (err format_error)
probe_pcm16_prefix fuel (some data_in) prefix_size file_size false = some (err format_error)
probe_pcm16_prefix fuel (some data_in) prefix_size file_size true =
    elim (if ltb file_size prefix_size then ok false else is_wave data_in prefix_size) [
      | fault ↦ some fault
      | err e ↦ some (err e)
      | ok false ↦ some (err format_error)
      | ok true ↦ elim (prefix_loop fuel data_in prefix_size file_size 12 no_chunks) [
        | none ↦ none
        | some run ↦ some (run >>= accept prefix_size)
      ]
    ]

-- ===== src/Wave.antt =====
-- The RIFF/WAVE probes of src/mpq-wave.c. A loop that is not done on its fuel is `none`.
pub mod Stuck
pub mod Prefix
mod Runs
use libmpq.Base.{
  ℕ, zero, suc, ◌+◌, ◌*◌, ◌%◌, bit_and, Bool, true, false, ◌&&◌, ◌||◌, not, List, [], ◌∷◌, Option,
  none, some, Pointer, Outcome, ok, err, fault, format_error, is_null, advance, ◌>>=◌, read_range,
  ◌==◌, ltb, leb, u32, if◌then◌else◌,
}
use libmpq.Endian.{load_le16, load_le32}

-- `libmpq_wave_info_s`.
pub record WaveInfo : Type 0 where
  pub channels : ℕ
  pub data_offset : ℕ
  pub data_size : ℕ

-- The variables that the walk over the chunks sets.
pub record Chunks : Type 0 where
  pub channels : ℕ
  pub format : ℕ
  pub bits : ℕ
  pub data_offset : ℕ
  pub data_size : ℕ

pub no_chunks : Chunks
no_chunks = record { channels = 0; format = 0; bits = 0; data_offset = 0; data_size = 0 }

bytes_equal : List ℕ → List ℕ → Bool
bytes_equal [] [] = true
bytes_equal (a ∷ rest) (b ∷ tag) = (a == b) && bytes_equal rest tag
bytes_equal _ _ = false

-- `memcmp(data + pos, tag, 4) == 0`.
pub has_tag : List ℕ → ℕ → List ℕ → Outcome Bool
has_tag data_in pos tag = do bytes ← read_range data_in pos 4; ok (bytes_equal bytes tag)

abbrev pub riff_tag : List ℕ
riff_tag = 0x52 ∷ 0x49 ∷ 0x46 ∷ 0x46 ∷ []

abbrev pub wave_tag : List ℕ
wave_tag = 0x57 ∷ 0x41 ∷ 0x56 ∷ 0x45 ∷ []

abbrev pub fmt_tag : List ℕ
fmt_tag = 0x66 ∷ 0x6D ∷ 0x74 ∷ 0x20 ∷ []

abbrev pub data_tag : List ℕ
data_tag = 0x64 ∷ 0x61 ∷ 0x74 ∷ 0x61 ∷ []

pub load_format : List ℕ → ℕ → Chunks → Outcome Chunks
load_format data_in pos found = do
  format ← load_le16 (advance (some data_in) (pos + 8))
  channels ← load_le16 (advance (some data_in) (pos + 10))
  bits ← load_le16 (advance (some data_in) (pos + 22))
  ok (record found { format = format; channels = channels; bits = bits })

-- One round of the walk: the next position, and what is found.
pub probe_chunk : List ℕ → ℕ → ℕ → Chunks → Outcome (ℕ × Chunks)
probe_chunk data_in size pos found = do
  chunk_size ← load_le32 (advance (some data_in) (pos + 4))
  let next = u32 (pos + 8 + chunk_size + bit_and chunk_size 1)
  if ltb next pos || ltb size next then err format_error else (do
    is_fmt ← has_tag data_in pos fmt_tag
    if is_fmt && leb 16 chunk_size
        then (do found' ← load_format data_in pos found; ok (next, found'))
        else (do
          is_data ← has_tag data_in pos data_tag
          ok (
            next,
            (if is_data
                then record found { data_offset = u32 (pos + 8); data_size = chunk_size }
                else found),
          )))

pub probe_loop : ℕ → List ℕ → ℕ → ℕ → Chunks → Option (Outcome Chunks)
probe_loop zero data_in size pos found = none
probe_loop (suc fuel) data_in size pos found =
    if leb (u32 (pos + 8)) size
    then elim (probe_chunk data_in size pos found) [
      | ok (next, found') ↦ probe_loop fuel data_in size next found'
      | err e ↦ some (err e)
      | fault ↦ some fault
    ]
    else some (ok found)

-- The tests behind the walk, with the number of bytes that the data must begin within.
pub accept : ℕ → Chunks → Outcome WaveInfo
accept size found =
    if not (found.format == 1)
      || not (found.channels == 1) && not (found.channels == 2)
      || not (found.bits == 16)
      || (found.data_offset == 0)
      || ltb size found.data_offset
      || not (found.data_size % (found.channels * 2) == 0)
    then err format_error
    else ok (record {
      channels = found.channels;
      data_offset = found.data_offset;
      data_size = found.data_size;
    })

-- The guards in front of the walk, read from left to right.
pub is_wave : List ℕ → ℕ → Outcome Bool
is_wave data_in size = if ltb size 12 then ok false else (do
  riff ← has_tag data_in 0 riff_tag
  if not riff then ok false else has_tag data_in 8 wave_tag)

pub probe_pcm16 : ℕ → Pointer → ℕ → Bool → Option (Outcome WaveInfo)
probe_pcm16 fuel none size info = some (err format_error)
probe_pcm16 fuel (some data_in) size false = some (err format_error)
probe_pcm16 fuel (some data_in) size true = elim (is_wave data_in size) [
  | fault ↦ some fault
  | err e ↦ some (err e)
  | ok false ↦ some (err format_error)
  | ok true ↦ elim (probe_loop fuel data_in size 12 no_chunks) [
    | none ↦ none
    | some run ↦ some (run >>= accept size)
  ]
]

-- ===== src/Wave/Prefix/Bounds.antt =====
-- The probe of a prefix ends and stays inside the buffer, src/mpq-wave.c.
use libmpq.Base.{
  ℕ, zero, suc, ◌+◌, ◌-◌, ◌*◌, ◌%◌, ◌^◌, ◌≤◌, ◌<◌, ◌≡◌, refl, ap, ◌∙◌, ◌⊎◌, inl, inr, arith,
  bit_and, Bool, true, false, ◌&&◌, ◌||◌, not, ◌==◌, List, [], ◌∷◌, Option, none, some, Outcome, ok,
  err, format_error, advance, ltb, leb, u32, if◌then◌else◌, length, take, drop, le→leb, Bool-cases,
}
use libmpq.Base.Lists.{length-drop}
use libmpq.Endian.{load_le16, load_le32}
use libmpq.Endian.RoundTrip.{load_le16_total, load_le32_total}
use libmpq.Wave.{
  WaveInfo, Chunks, no_chunks, has_tag, fmt_tag, data_tag, riff_tag, wave_tag, load_format, accept,
  is_wave, bytes_equal,
}
use libmpq.Wave.Prefix.{step_to, data_chunk, prefix_chunk, prefix_loop, probe_pcm16_prefix}

load_le32_at :
    (data_in : List ℕ) (k : ℕ)
    → k + 4 ≤ length data_in
    → (v : ℕ) × (load_le32 (advance (some data_in) k) ≡ ok v)
load_le32_at data_in k h = load_le32_total (drop k data_in) (omega (arith, length-drop k data_in))

load_le16_at :
    (data_in : List ℕ) (k : ℕ)
    → k + 2 ≤ length data_in
    → (v : ℕ) × (load_le16 (advance (some data_in) k) ≡ ok v)
load_le16_at data_in k h = load_le16_total (drop k data_in) (omega (arith, length-drop k data_in))

has_tag_at :
    (data_in : List ℕ) (pos : ℕ) (tag : List ℕ)
    → pos + 4 ≤ length data_in
    → (b : Bool) × (has_tag data_in pos tag ≡ ok b)
unfolding has_tag libmpq.Base.Memory.read_range
has_tag_at data_in pos tag h =
    (bytes_equal (take 4 (drop pos data_in)) tag, rw (le→leb (pos + 4) (length data_in) h))

load_format_at :
    (data_in : List ℕ) (pos : ℕ) (found : Chunks)
    → pos + 24 ≤ length data_in
    → (found' : Chunks) × (load_format data_in pos found ≡ ok found')
      × (found'.data_offset ≡ found.data_offset)
      × (found'.data_size ≡ found.data_size)
unfolding load_format
load_format_at data_in pos found h =
    let (f, ef) = load_le16_at data_in (pos + 8) (omega arith) in
    let (c, ec) = load_le16_at data_in (pos + 10) (omega arith) in
    let (b, eb) = load_le16_at data_in (pos + 22) (omega arith) in
    (record found { format = f; channels = c; bits = b }, rw (ef, ec, eb), refl, refl)

abbrev Fits : ℕ → Chunks → Type 0
Fits file_size found = found.data_offset + found.data_size ≤ file_size

-- The outcomes of a round at `pos`: refusal, the end of the walk, or a later position.
abbrev Rounds : Outcome (Option ℕ × Chunks) → (prefix_size file_size pos : ℕ) → Type 0
Rounds run prefix_size file_size pos =
    (run ≡ err format_error)
    ⊎ (((found : Chunks) × (run ≡ ok (none, found)) × Fits file_size found)
        ⊎ ((next : ℕ) × (found : Chunks) × (run ≡ ok (some next, found))
            × (pos + 8 ≤ next)
            × (next ≤ prefix_size)
            × Fits file_size found))

step_to-Rounds :
    (run : Outcome (Option ℕ × Chunks)) (prefix_size file_size pos next : ℕ) (found : Chunks)
    → prefix_size < 2 ^ 32
    → run ≡ ok (step_to prefix_size next found)
    → pos + 8 ≤ next
    → Fits file_size found
    → Rounds run prefix_size file_size pos
unfolding step_to
step_to-Rounds run prefix_size file_size pos next found k e h fits =
    elim (Bool-cases (ltb prefix_size next)) [
      | inl out ↦ inr (inl (found, e ∙ rw out, fits))
      | inr within ↦ inr (inr (u32 next, found, e ∙ rw within, ground arith, ground arith, fits))
    ]

data_chunk-Rounds :
    (run : Outcome (Option ℕ × Chunks)) (prefix_size file_size pos chunk_size : ℕ) (found : Chunks)
    → run ≡ data_chunk file_size pos chunk_size found
    → Rounds run prefix_size file_size pos
unfolding data_chunk
data_chunk-Rounds run prefix_size file_size pos chunk_size found e =
    elim (Bool-cases (ltb file_size (u32 (pos + 8) + chunk_size))) [
      | inl large ↦ inl (e ∙ rw large)
      | inr fits ↦ inr (
          inl (
            record found { data_offset = u32 (pos + 8); data_size = chunk_size },
            e ∙ rw fits,
            ground arith,
          ))
    ]

prefix_chunk-Rounds :
    (data_in : List ℕ) (prefix_size file_size pos : ℕ) (found : Chunks)
    → prefix_size ≤ length data_in
    → prefix_size < 2 ^ 32
    → pos + 8 ≤ prefix_size
    → Fits file_size found
    → Rounds (prefix_chunk data_in prefix_size file_size pos found) prefix_size file_size pos
unfolding prefix_chunk
prefix_chunk-Rounds data_in prefix_size file_size pos found held small h fits =
    let (cs, e) = load_le32_at data_in (pos + 4) (omega arith) in
    let (is_fmt, ef) = has_tag_at data_in pos fmt_tag (omega arith) in
    let (is_data, ed) = has_tag_at data_in pos data_tag (omega arith) in
    let next : ℕ = pos + 8 + cs + bit_and cs 1 in
    let run : Outcome (Option ℕ × Chunks) = prefix_chunk data_in prefix_size file_size pos found in
    elim (Bool-cases (ltb next pos || ltb file_size next)) [
      | inl bad ↦ inl (ground (arith, e))
      | inr good ↦ elim (Bool-cases (is_fmt && leb 16 cs)) [
        | inl fmt ↦ elim (Bool-cases (ltb prefix_size (pos + 24))) [
          | inl short ↦ inl (ground (arith, e, ef))
          | inr room ↦
              let (found', el, eo, es) = load_format_at data_in pos found (ground arith) in
              step_to-Rounds run prefix_size file_size pos next found' small
                (ground (arith, e, ef, el)) (omega arith) (omega arith)
        ]
        | inr other ↦ elim (Bool-cases is_data) [
          | inl chunk ↦
              data_chunk-Rounds run prefix_size file_size pos cs found (ground (arith, e, ef, ed))
          | inr skip ↦
              step_to-Rounds run prefix_size file_size pos next found small
                (ground (arith, e, ef, ed)) (omega arith) fits
        ]
      ]
    ]

prefix_loop-Fits :
    (fuel : ℕ) (data_in : List ℕ) (prefix_size file_size pos : ℕ) (found : Chunks)
    → prefix_size ≤ length data_in
    → prefix_size + 8 < 2 ^ 32
    → pos ≤ prefix_size
    → prefix_size < fuel + pos
    → Fits file_size found
    → (prefix_loop fuel data_in prefix_size file_size pos found ≡ some (err format_error))
      ⊎ ((found' : Chunks) × (prefix_loop fuel data_in prefix_size file_size pos found
            ≡ some (ok found'))
          × Fits file_size found')
unfolding prefix_loop
prefix_loop-Fits zero data_in prefix_size file_size pos found held small at f fits =
    absurd (omega arith)
prefix_loop-Fits (suc fuel) data_in prefix_size file_size pos found held small at f fits =
    elim (Bool-cases (leb (u32 (pos + 8)) prefix_size)) [
      | inr done ↦ inr (found, rw done, fits)
      | inl more ↦
          elim (prefix_chunk-Rounds data_in prefix_size file_size pos found held (omega arith)
            (ground arith) fits) [
              | inl bad ↦ inl (rw (more, bad))
              | inr (inl (found', e, fits')) ↦ inr (found', rw (more, e), fits')
              | inr (inr (next, found', e, lo, hi, fits')) ↦
                  elim (prefix_loop-Fits fuel data_in prefix_size file_size next found' held small
                    hi (omega arith) fits') [
                      | inl bad ↦ inl (ground (arith, more, e, bad))
                      | inr (last, el, fits'') ↦ inr (last, ground (arith, more, e, el), fits'')
                    ]
            ]
    ]

is_wave_total :
    (data_in : List ℕ) (size : ℕ)
    → size ≤ length data_in
    → (b : Bool) × (is_wave data_in size ≡ ok b)
      × ((b ≡ true) ⊎ (b ≡ false))
      × ((b ≡ false) ⊎ (12 ≤ size))
unfolding is_wave
is_wave_total data_in size held = elim (Bool-cases (ltb size 12)) [
  | inl short ↦ (false, rw short, inr refl, inl refl)
  | inr long ↦
      let (riff, er) = has_tag_at data_in 0 riff_tag (ground arith) in
      let (wave, ew) = has_tag_at data_in 8 wave_tag (ground arith) in
      (riff && wave, ground (arith, er, ew), Bool-cases (riff && wave), inr (ground arith))
]

-- What the probe promises of the data chunk.
abbrev pub IsPcm16 : ℕ → ℕ → WaveInfo → Type 0
IsPcm16 prefix_size file_size info =
    ((info.channels ≡ 1) ⊎ (info.channels ≡ 2))
    × (0 < info.data_offset)
    × (info.data_offset ≤ prefix_size)
    × (info.data_offset + info.data_size ≤ file_size)
    × (info.data_size % (info.channels * 2) ≡ 0)

accept-IsPcm16 :
    (prefix_size file_size : ℕ) (found : Chunks)
    → Fits file_size found
    → (accept prefix_size found ≡ err format_error)
      ⊎ ((info : WaveInfo) × (accept prefix_size found ≡ ok info)
          × IsPcm16 prefix_size file_size info)
unfolding accept
accept-IsPcm16 prefix_size file_size found fits =
    elim (Bool-cases (
      not (found.format == 1)
      || not (found.channels == 1) && not (found.channels == 2)
      || not (found.bits == 16)
      || (found.data_offset == 0)
      || ltb prefix_size found.data_offset
      || not (found.data_size % (found.channels * 2) == 0))) [
        | inl bad ↦ inl (rw bad)
        | inr good ↦ inr (
          record {
            channels = found.channels;
            data_offset = found.data_offset;
            data_size = found.data_size;
          },
          rw good,
          (ground arith, ground arith, ground arith, fits, ground arith),
        )
      ]

-- On any buffer of at least `prefix_size` bytes, less than 2^32 - 8, the probe of the prefix ends in
-- `prefix_size` rounds without an access outside the buffer: it refuses the file, or returns one or
-- two channels and a data chunk of complete frames that begins in the prefix and ends in the file.
pub probe_pcm16_prefix-IsPcm16 :
    (data_in : List ℕ) (prefix_size file_size fuel : ℕ)
    → prefix_size ≤ length data_in
    → prefix_size + 8 < 2 ^ 32
    → prefix_size ≤ fuel
    → (probe_pcm16_prefix fuel (some data_in) prefix_size file_size true ≡ some (err format_error))
      ⊎ ((info : WaveInfo) × (probe_pcm16_prefix fuel (some data_in) prefix_size file_size true
            ≡ some (ok info))
          × IsPcm16 prefix_size file_size info)
unfolding probe_pcm16_prefix no_chunks
probe_pcm16_prefix-IsPcm16 data_in prefix_size file_size fuel held small f =
    let (b, e, split, long) = is_wave_total data_in prefix_size held in
    elim (Bool-cases (ltb file_size prefix_size || not b)) [
      | inl bad ↦ inl (ground (arith, e))
      | inr good ↦
          elim (prefix_loop-Fits fuel data_in prefix_size file_size 12 no_chunks held small
            (ground arith) (omega arith) (omega arith)) [
              | inl refused ↦ inl (ground (arith, e, refused))
              | inr (found, el, fits) ↦ elim (accept-IsPcm16 prefix_size file_size found fits) [
                | inl refused ↦ inl (ground (arith, e, el, refused))
                | inr (info, ea, ok_info) ↦ inr (info, ground (arith, e, el, ea), ok_info)
              ]
            ]
    ]

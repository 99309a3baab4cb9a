-- ===== src/Wave/Prefix/Runs.antt =====
-- A concrete run of the probe of a prefix, src/mpq-wave.c.
use libmpq.Base.{
  ℕ, ◌+◌, ◌≡◌, ◌⊎◌, refl, arith, List, [], ◌∷◌, ◌++◌, Option, some, ok, err, format_error, true,
}
use libmpq.Endian.{load_le16, load_le32}
use libmpq.Wave.{
  WaveInfo, no_chunks, has_tag, is_wave, riff_tag, wave_tag, fmt_tag, data_tag, load_format, accept,
}
use libmpq.Wave.Prefix.{step_to, data_chunk, prefix_chunk, prefix_loop, probe_pcm16_prefix}
use libmpq.Wave.Prefix.Bounds.{IsPcm16, probe_pcm16_prefix-IsPcm16}

-- The beginning of a mono file whose data chunk is not in the buffer yet.
abbrev mono : List ℕ
mono =
    riff_tag
    ++ (40 ∷ 0 ∷ 0 ∷ 0 ∷ [])
    ++ wave_tag
    ++ fmt_tag
    ++ (16 ∷ 0 ∷ 0 ∷ 0 ∷ 1 ∷ 0 ∷ 1 ∷ 0 ∷ 0 ∷ 0 ∷ 0 ∷ 0 ∷ 0 ∷ 0 ∷ 0 ∷ 0 ∷ 2 ∷ 0 ∷ 16 ∷ 0 ∷ [])
    ++ data_tag
    ++ (4 ∷ 1 ∷ 0 ∷ 0 ∷ [])

mono_prefix :
    probe_pcm16_prefix 44 (some mono) 44 304 true
    ≡ some (ok (record { channels = 1; data_offset = 44; data_size = 260 }))
unfolding probe_pcm16_prefix is_wave prefix_loop prefix_chunk data_chunk step_to load_format accept
    no_chunks has_tag libmpq.Wave.bytes_equal libmpq.Base.Memory.read_range load_le16 load_le32
mono_prefix = refl

probe_pcm16_prefix-IsPcm16_example :
    (probe_pcm16_prefix 44 (some mono) 44 304 true ≡ some (err format_error))
    ⊎ ((info : WaveInfo) × (probe_pcm16_prefix 44 (some mono) 44 304 true ≡ some (ok info))
        × IsPcm16 44 304 info)
probe_pcm16_prefix-IsPcm16_example =
    probe_pcm16_prefix-IsPcm16 mono 44 304 44 (omega arith) (omega arith) (omega arith)

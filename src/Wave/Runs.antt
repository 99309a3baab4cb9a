-- ===== src/Wave/Runs.antt =====
-- Concrete runs of the probe of src/mpq-wave.c.
use libmpq.Base.{ℕ, ◌≡◌, refl, arith, List, [], ◌∷◌, ◌++◌, none, some, true, ok}
use libmpq.Endian.{load_le16, load_le32}
use libmpq.Wave.{
  Chunks, no_chunks, has_tag, is_wave, riff_tag, wave_tag, fmt_tag, data_tag, load_format, accept,
  probe_chunk, probe_loop, probe_pcm16,
}
use libmpq.Wave.Stuck.{probe_pcm16-stuck}

abbrev looping : List ℕ
looping =
    riff_tag
    ++ (12 ∷ 0 ∷ 0 ∷ 0 ∷ [])
    ++ wave_tag
    ++ (1 ∷ 1 ∷ 1 ∷ 1 ∷ 0xF8 ∷ 0xFF ∷ 0xFF ∷ 0xFF ∷ [])

probe_pcm16-stuck_example : probe_pcm16 1000 (some looping) 20 true ≡ none
probe_pcm16-stuck_example =
    probe_pcm16-stuck looping 20 1000 (omega arith) (omega arith)
      (unfold is_wave has_tag libmpq.Wave.bytes_equal libmpq.Base.Memory.read_range in refl)
      (unfold has_tag libmpq.Wave.bytes_equal libmpq.Base.Memory.read_range in refl)
      (unfold has_tag libmpq.Wave.bytes_equal libmpq.Base.Memory.read_range in refl)
      (unfold load_le32 in refl)

-- A mono file of two samples.
abbrev mono : List ℕ
mono =
    riff_tag
    ++ (40 ∷ 0 ∷ 0 ∷ 0 ∷ [])
    ++ wave_tag
    ++ fmt_tag
    ++ (16 ∷ 0 ∷ 0 ∷ 0 ∷ 1 ∷ 0 ∷ 1 ∷ 0 ∷ 0 ∷ 0 ∷ 0 ∷ 0 ∷ 0 ∷ 0 ∷ 0 ∷ 0 ∷ 2 ∷ 0 ∷ 16 ∷ 0 ∷ [])
    ++ data_tag
    ++ (4 ∷ 0 ∷ 0 ∷ 0 ∷ 1 ∷ 2 ∷ 3 ∷ 4 ∷ [])

mono_info :
    probe_pcm16 3 (some mono) 48 true
    ≡ some (ok (record { channels = 1; data_offset = 44; data_size = 4 }))
unfolding probe_pcm16 is_wave probe_loop probe_chunk load_format accept no_chunks has_tag
    libmpq.Wave.bytes_equal libmpq.Base.Memory.read_range load_le16 load_le32
mono_info = refl

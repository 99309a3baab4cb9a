-- ===== src/Stream/Round.antt =====
-- One round of the loop of `libmpq__reader_stream_read`, src/mpq-stream.c.
use mathlib.Core.List.{append_assoc}
use libmpq.Base.{
  ℕ, suc, ◌+◌, ◌-◌, ◌≤◌, ◌<◌, ◌≡◌, sym, ap, ap₂, ◌∙◌, arith, List, ◌++◌, none, ok, read_range,
  write_range, length, drop,
}
use libmpq.Base.Lists.{length-append, drop-append}
use libmpq.Base.Memory.{read_range_mid, split_at}
use libmpq.Stream.{Stream, Reader, stream_load_block, sector_of, sector_base, copy_count, read_loop}
use libmpq.Stream.Member.{sector_at, begins_at, Serves, IsSized}

module _ (reader : Reader) (file : List ℕ) (content : ℕ → List ℕ) (blocks sector : ℕ)
    (serves : Serves reader file content blocks sector) where
  open serves use {some_sector, placed, sizes, small, resizes, decodes}

  -- One round that copies.
  pub read_step :
      (fuel : ℕ) (s loaded : Stream) (buffer buffer' bytes : List ℕ)
      (block base size total count : ℕ)
      → total < size
      → s.position < s.size
      → sector_of reader s ≡ ok block
      → stream_load_block reader s block ≡ ok (none, loaded)
      → base ≡ sector_base reader s block
      → base ≤ loaded.position
      → loaded.position < base + loaded.block_size
      → count ≡ copy_count reader loaded size total (loaded.block_size - (loaded.position - base))
      → read_range loaded.buffer (loaded.position - base) count ≡ ok bytes
      → write_range buffer total bytes ≡ ok buffer'
      → read_loop reader (suc fuel) s buffer size total
        ≡ read_loop reader fuel
            (record loaded { position = loaded.position + count })
            buffer'
            size
            (total + count)
  unfolding read_loop
  read_step fuel s loaded buffer buffer' bytes block base size total count h k es el eb lo hi ec er
        ew =
      ground (arith, es, el, er, ew)

  pub sector_of-sector_at :
      (s : Stream)
      → IsSized file blocks sector s
      → sector_of reader s ≡ ok (sector_at blocks sector s.position)
  unfolding sector_of
  sector_of-sector_at s (es, ea, eb, el) = rw (ea, eb) (ground (arith, some_sector))

  pub sector_base-begins_at :
      (s : Stream) (block : ℕ)
      → IsSized file blocks sector s
      → sector_base reader s block ≡ begins_at blocks sector block
  unfolding sector_base
  sector_base-begins_at s block (es, ea, eb, el) = rw (ea, eb)

  -- Where two splits of a list have equally long fronts, the backs agree.
  same_back : (xs ys xs' ys' : List ℕ) → xs ++ ys ≡ xs' ++ ys' → length xs ≡ length xs' → ys ≡ ys'
  same_back xs ys xs' ys' e l = sym (drop-append xs ys) ∙ ap₂ drop l e ∙ drop-append xs' ys'

  -- A piece of the sector `whole`, which lies in the member behind `front`, is a piece of the member.
  pub piece :
      (passed todo front whole back behind buf : List ℕ) (position base count : ℕ)
      → file ≡ passed ++ todo
      → file ≡ front ++ (whole ++ back)
      → position ≡ length passed
      → base ≡ length front
      → base ≤ position
      → position < base + length whole
      → count ≤ length whole - (position - base)
      → buf ≡ whole ++ behind
      → (bytes rest : List ℕ) × (todo ≡ bytes ++ rest)
        × (length bytes ≡ count)
        × (read_range buf (position - base) count ≡ ok bytes)
  piece passed todo front whole back behind buf position base count ef ew ep eb lo hi few e =
      let (c1, c2, s1, l1) = split_at (position - base) whole (omega arith) in
      let total : length whole ≡ length c1 + length c2 = ap length s1 ∙ length-append c1 c2 in
      let (bytes, c3, s2, l2) = split_at count c2 (omega arith) in
      let cut : whole ≡ c1 ++ (bytes ++ c3) = s1 ∙ ap (λ c. c1 ++ c) s2 in
      let again : passed ++ todo ≡ (front ++ c1) ++ (bytes ++ (c3 ++ back)) =
        sym ef ∙ ew ∙ ap (λ w. front ++ (w ++ back)) cut ∙ simp append_assoc in
      let held : buf ≡ c1 ++ (bytes ++ (c3 ++ behind)) =
        e ∙ ap (λ w. w ++ behind) cut ∙ simp append_assoc in
      (
        bytes,
        c3 ++ back,
        same_back passed todo (front ++ c1) (bytes ++ (c3 ++ back)) again
            (omega (arith, length-append front c1)),
        l2,
        ap (λ b. read_range b (position - base) count) held
            ∙ read_range_mid c1 bytes (c3 ++ behind) (position - base) count (sym l1) (sym l2),
      )

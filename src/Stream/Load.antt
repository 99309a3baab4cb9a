-- ===== src/Stream/Load.antt =====
-- `stream_load_block` of src/mpq-stream.c over a reader that decodes every sector.
use libmpq.Base.{
  ℕ, ◌≤◌, ◌<◌, ◌≡◌, refl, sym, ap, ◌∙◌, inl, inr, arith, true, false, ◌&&◌, List, ◌++◌, none, some,
  ok, ◌==◌, ltb, length, Bool-cases,
}
use libmpq.Stream.{Stream, BlockRead, Reader, read_block, stream_load_block}
use libmpq.Stream.Member.{IsSector, Serves, Holds, IsSized, IsStream}

module _ (reader : Reader) (file : List ℕ) (content : ℕ → List ℕ) (blocks sector : ℕ)
    (serves : Serves reader file content blocks sector) where
  open serves use {some_sector, placed, sizes, small, resizes, decodes}

  after_read : Stream → ℕ → BlockRead → Stream
  after_read s block read = record s {
    buffer = read.contents;
    cached_block = block;
    block_size = read.transferred;
    block_valid = true;
  }

  read_block-ok :
      (s : Stream) (block : ℕ) (read : BlockRead)
      → reader.block_read block s.buffer s.buffer_size ≡ read
      → read.mismatch ≡ false
      → read.result ≡ none
      → read_block reader s block ≡ (none, after_read s block read)
  unfolding read_block after_read
  read_block-ok s block read e m r =
      let m' : (reader.block_read block s.buffer s.buffer_size).mismatch ≡ false =
        ap (λ b. b.mismatch) e ∙ m in
      let r' : (reader.block_read block s.buffer s.buffer_size).result ≡ none =
        ap (λ b. b.result) e ∙ r in
      rw (m', r') (ap (λ b. (none, after_read s block b)) e)

  read_block-Holds :
      (s : Stream) (block : ℕ)
      → IsSector file blocks sector block
      → IsSized file blocks sector s
      → length (content block) ≤ length s.buffer
      → (s' : Stream) × (read_block reader s block ≡ (none, s'))
        × IsStream file content blocks sector s'
        × Holds content s'
        × (s'.cached_block ≡ block)
        × (s'.position ≡ s.position)
  unfolding after_read
  read_block-Holds s block here (es, ea, eb, el) fits =
      let (rest, e, l) = decodes block s.buffer here fits in
      let e' : reader.block_read block s.buffer s.buffer_size ≡ record {
        result = none;
        contents = content block ++ rest;
        transferred = length (content block);
        mismatch = false;
      } =
        ap (reader.block_read block s.buffer) (sym el) ∙ e in
      (
        _,
        read_block-ok s block _ e' refl refl,
        ((es, ea, eb, l ∙ el), inr (rest, refl, refl)),
        (rest, refl, refl),
        refl,
        refl,
      )

  -- The three ways through a load that succeeds.
  load_cached :
      (s : Stream) (block : ℕ)
      → s.block_valid ≡ true
      → s.cached_block ≡ block
      → stream_load_block reader s block ≡ ok (none, s)
  unfolding stream_load_block
  load_cached s block v c = ground (arith, v)

  load_in_place :
      (s : Stream) (block : ℕ)
      → IsSector file blocks sector block
      → (s.block_valid && (s.cached_block == block)) ≡ false
      → length (content block) ≤ s.buffer_size
      → stream_load_block reader s block ≡ ok (read_block reader s block)
  unfolding stream_load_block
  load_in_place s block here miss fits =
      rw (miss, sizes block here) (ground (arith, small block here))

  load_resized :
      (s : Stream) (block : ℕ) (new : List ℕ)
      → IsSector file blocks sector block
      → (s.block_valid && (s.cached_block == block)) ≡ false
      → s.buffer_size < length (content block)
      → reader.resize s.buffer (length (content block)) ≡ some new
      → stream_load_block reader s block
        ≡ ok (
            read_block reader
              (record s { buffer = new; buffer_size = length (content block) })
              block)
  unfolding stream_load_block
  load_resized s block new here miss large e =
      rw (miss, sizes block here) (ground (arith, small block here, e))

  load_missed :
      (s : Stream) (block : ℕ)
      → IsSector file blocks sector block
      → IsStream file content blocks sector s
      → (s.block_valid && (s.cached_block == block)) ≡ false
      → (s' : Stream) × (stream_load_block reader s block ≡ ok (none, s'))
        × IsStream file content blocks sector s'
        × Holds content s'
        × (s'.cached_block ≡ block)
        × (s'.position ≡ s.position)
  load_missed s block here ((es, ea, eb, el), held) miss =
      elim (Bool-cases (ltb s.buffer_size (length (content block)))) [
        | inl large ↦
            let (new, e, l) = resizes s.buffer (length (content block)) in
            let s1 : Stream = record s { buffer = new; buffer_size = length (content block) } in
            let (s', r, good, held', cached, at) =
              read_block-Holds s1 block here (es, ea, eb, l) (omega arith) in
            (
              s',
              load_resized s block new here miss (ground arith) e ∙ ap ok r,
              good,
              held',
              cached,
              at,
            )
        | inr enough ↦
            let (s', r, good, held', cached, at) =
              read_block-Holds s block here (es, ea, eb, el) (ground arith) in
            (s', load_in_place s block here miss (ground arith) ∙ ap ok r, good, held', cached, at)
      ]

  pub load_block-Holds :
      (s : Stream) (block : ℕ)
      → IsSector file blocks sector block
      → IsStream file content blocks sector s
      → (s' : Stream) × (stream_load_block reader s block ≡ ok (none, s'))
        × IsStream file content blocks sector s'
        × Holds content s'
        × (s'.cached_block ≡ block)
        × (s'.position ≡ s.position)
  load_block-Holds s block here good =
      elim (Bool-cases (s.block_valid && (s.cached_block == block))) [
        | inl hit ↦
            let cached : s.cached_block ≡ block = ground arith in
            let valid : s.block_valid ≡ true = ground arith in
            elim good.1 [
              | inl invalid ↦ absurd (ground arith)
              | inr held ↦ (s, load_cached s block valid cached, good, held, cached, refl)
            ]
        | inr miss ↦ load_missed s block here good miss
      ]

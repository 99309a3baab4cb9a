-- ===== src/Stream/Seek.antt =====
-- Positions of a stream, `libmpq__reader_stream_seek` of src/mpq-stream.c.
use libmpq.Base.{ℕ, ◌+◌, ◌≤◌, ◌≡◌, refl, arith, some, ok, true}
use libmpq.Base.Integers.{ℤ, pos, negsuc}
use libmpq.Stream.{
  Stream, Origin, seek_set, seek_cur, seek_end, seek_other, seek_base, seek_target, stream_seek,
  stream_tell, int64_max,
}

-- The position that an origin stands for: the start, the position, or the end of the member.
pub data IsBase (s : Stream) : Origin → ℕ → Type 0 where
  from_start : IsBase s seek_set 0
  from_position : IsBase s seek_cur s.position
  from_end : IsBase s seek_end s.size

-- `base + offset` is `target`, in numbers without bounds.
abbrev pub IsMoved : ℕ → ℤ → ℕ → Type 0
IsMoved base (pos n) target = target ≡ base + n
IsMoved base (negsuc n) target = base ≡ target + (n + 1)

seek_base-IsBase :
    (s : Stream) (origin : Origin) (base : ℕ)
    → IsBase s origin base
    → seek_base s origin ≡ some base
unfolding seek_base
seek_base-IsBase s _ _ from_start = refl
seek_base-IsBase s _ _ from_position = refl
seek_base-IsBase s _ _ from_end = refl

seek_lands :
    (s s' : Stream) (offset : ℤ) (origin : Origin) (base : ℕ)
    → seek_base s origin ≡ some base
    → stream_seek (some s) offset origin ≡ ok s'
    → IsMoved base offset s'.position
      × (s'.position ≤ s.size)
      × (s' ≡ record s { position = s'.position })
      × (stream_tell (some s') true ≡ ok s'.position)
unfolding stream_seek seek_target stream_tell
seek_lands s s' (pos n) origin base eb h = ground (arith, eb, h)
seek_lands s s' (negsuc n) origin base eb h = ground (arith, eb, h)

-- A seek that succeeds moves the position, and nothing else, by the offset from the base of the
-- origin (the start of the member for SEEK_SET, the position for SEEK_CUR, the end for SEEK_END;
-- with any other origin no seek succeeds), to a place within the member, which `stream_tell` then
-- gives.
pub stream_seek-IsMoved :
    (s s' : Stream) (offset : ℤ) (origin : Origin)
    → stream_seek (some s) offset origin ≡ ok s'
    → (base : ℕ) × IsBase s origin base
      × IsMoved base offset s'.position
      × (s'.position ≤ s.size)
      × (s' ≡ record s { position = s'.position })
      × (stream_tell (some s') true ≡ ok s'.position)
unfolding stream_seek seek_base
stream_seek-IsMoved s s' offset seek_set h =
    let (m, within, frame, told) = seek_lands s s' offset seek_set 0 refl h in
    (0, from_start, m, within, frame, told)
stream_seek-IsMoved s s' offset seek_cur h =
    let (m, within, frame, told) = seek_lands s s' offset seek_cur s.position refl h in
    (s.position, from_position, m, within, frame, told)
stream_seek-IsMoved s s' offset seek_end h =
    let (m, within, frame, told) = seek_lands s s' offset seek_end s.size refl h in
    (s.size, from_end, m, within, frame, told)
stream_seek-IsMoved s s' offset seek_other h = cc

-- In a member of at most 2^63 - 1 bytes, a seek from a base within it (the start, the position or
-- the end, by the origin) to a place within it succeeds, and moves the position there and changes
-- nothing else.
pub stream_seek_total :
    (s : Stream) (offset : ℤ) (origin : Origin) (base target : ℕ)
    → IsBase s origin base
    → IsMoved base offset target
    → target ≤ s.size
    → base ≤ s.size
    → s.size ≤ int64_max
    → stream_seek (some s) offset origin ≡ ok (record s { position = target })
unfolding stream_seek seek_target
stream_seek_total s (pos n) origin base target is m within from large =
    ground (arith, seek_base-IsBase s origin base is, m)
stream_seek_total s (negsuc n) origin base target is m within from large =
    ground (arith, seek_base-IsBase s origin base is, m)

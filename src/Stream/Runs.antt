-- ===== src/Stream/Runs.antt =====
-- Concrete runs of src/mpq-stream.c.
use libmpq.Base.{
  ℕ, ◌≤◌, ◌≡◌, refl, inl, arith, true, false, List, [], ◌∷◌, ◌++◌, none, some, ok, read_error, drop,
  replicate, leb,
}
use libmpq.Base.Lists.{length-replicate, length-append, length-drop}
use libmpq.Base.Integers.{pos, negsuc}
use libmpq.Stream.{
  Stream, Reader, stream_load_block, stream_read, stream_seek, stream_tell, seek_cur, seek_end,
}
use libmpq.Stream.Member.{Serves, IsStream}
use libmpq.Stream.Slice.{stream_read-take}
use libmpq.Stream.Stale.{stream_load_block-stale}
use libmpq.Stream.Seek.{
  IsMoved, IsBase, from_position, from_end, stream_seek-IsMoved, stream_seek_total,
}

-- A member of one sector.
abbrev member : List ℕ
member = 10 ∷ 11 ∷ 12 ∷ 13 ∷ 14 ∷ []

-- It is read as it is, at whichever sector.
abbrev reader : Reader
reader = record {
  block_size_unpacked = λ block. ok (pos 5);
  block_read = λ block buffer size. record {
    result = none;
    contents = member ++ drop 5 buffer;
    transferred = 5;
    mismatch = false;
  };
  resize = λ buffer n. some (replicate n 0);
}

serves : Serves reader member (λ block. member) 1 512
serves = record {
  some_sector = omega arith;
  placed = λ position h. ([], [], refl, refl, omega arith, h);
  sizes = λ block h. refl;
  small = λ block h. omega arith;
  resizes = λ buffer n. (replicate n 0, refl, length-replicate n 0);
  decodes = λ block buffer here h. (
    drop 5 buffer,
    refl,
    omega (arith, length-append member (drop 5 buffer), length-drop 5 buffer),
  );
}

abbrev fresh : Stream
fresh = record {
  archive_block_size = 512;
  blocks = 1;
  cached_block = 0xFFFFFFFF;
  buffer = [];
  block_valid = false;
  size = 5;
  position = 2;
  buffer_size = 0;
  block_size = 0;
}

stream_read-take_example :
    (s' : Stream) × (stream_read reader (some fresh) (some (replicate 6 7)) (pos 4)
      ≡ ok (none, some s', some (12 ∷ 13 ∷ 14 ∷ 7 ∷ 7 ∷ 7 ∷ []), 3))
    × IsStream member (λ block. member) 1 512 s'
    × (s'.position ≡ 5)
stream_read-take_example =
    stream_read-take reader member (λ block. member) 1 512 serves fresh (replicate 6 7) 4
      ((refl, refl, refl, refl), inl refl) (omega arith) (omega arith) (omega arith)

-- The checksum of every sector but the first differs.
abbrev broken : Reader
broken = record {
  block_size_unpacked = λ block. ok (pos 2);
  block_read = λ block buffer size. record {
    result = none;
    contents = 8 ∷ 9 ∷ [];
    transferred = 2;
    mismatch = leb 1 block;
  };
  resize = λ buffer n. some (replicate n 0);
}

abbrev cached : Stream
cached = record {
  archive_block_size = 2;
  blocks = 2;
  cached_block = 0;
  buffer = 1 ∷ 2 ∷ [];
  block_valid = true;
  size = 4;
  position = 2;
  buffer_size = 2;
  block_size = 2;
}

stream_load_block-stale_example :
    (s' : Stream) × (stream_load_block broken cached 1 ≡ ok (some read_error, s'))
    × (stream_load_block broken s' 0 ≡ ok (none, s'))
    × (s'.buffer ≡ 8 ∷ 9 ∷ [])
    × (s'.block_size ≡ 2)
stream_load_block-stale_example =
    stream_load_block-stale broken cached 1 2 refl (omega arith) refl (omega arith) (omega arith)
      refl

seek_back : stream_seek (some cached) (negsuc 0) seek_cur ≡ ok (record cached { position = 1 })
seek_back =
    stream_seek_total cached (negsuc 0) seek_cur 2 1 from_position refl (omega arith) (omega arith)
      (omega arith)

stream_seek_total_example :
    stream_seek (some cached) (negsuc 3) seek_end ≡ ok (record cached { position = 0 })
stream_seek_total_example =
    stream_seek_total cached (negsuc 3) seek_end 4 0 from_end refl (omega arith) (omega arith)
      (omega arith)

stream_seek-IsMoved_example :
    (base : ℕ) × IsBase cached seek_cur base
    × IsMoved base (negsuc 0) 1
    × (1 ≤ 4)
    × (record cached { position = 1 } ≡ record cached { position = 1 })
    × (stream_tell (some (record cached { position = 1 })) true ≡ ok 1)
stream_seek-IsMoved_example =
    stream_seek-IsMoved cached (record cached { position = 1 }) (negsuc 0) seek_cur seek_back

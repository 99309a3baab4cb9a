-- ===== src/Stream/Slice.antt =====
-- What `libmpq__reader_stream_read` of src/mpq-stream.c reads, over a reader that decodes every
-- sector of the member.
use mathlib.Core.Path.{subst}
use mathlib.Core.List.{append_assoc}
use native.Mathlib.Nat.{zero-add}
use libmpq.Base.{
  ℕ, zero, suc, ◌+◌, ◌-◌, ◌≤◌, ◌<◌, min, ◌≡◌, refl, sym, ap, ap₂, ◌∙◌, inl, inr, arith, false, ◌&&◌,
  List, [], ◌++◌, none, some, Outcome, ok, read_range, write_range, ltb, le→ltb, length, take, drop,
  Bool-cases,
}
use libmpq.Base.Lists.{length-append, take-append, drop-append}
use libmpq.Base.Memory.{write_range_mid, split_at}
use libmpq.Base.Integers.{pos}
use libmpq.EntryTable.{size_max}
use libmpq.Stream.{
  Stream, Reader, Status, stream_load_block, sector_of, sector_base, copy_count, read_loop,
  stream_read,
}
use libmpq.Stream.Member.{sector_at, begins_at, Serves, IsStream}
use libmpq.Stream.Load.{load_block-Holds}
use libmpq.Stream.Round.{read_step, sector_of-sector_at, sector_base-begins_at, piece}

module _ (reader : Reader) (file : List ℕ) (content : ℕ → List ℕ) (blocks sector : ℕ)
    (serves : Serves reader file content blocks sector) where
  open serves use {some_sector, placed, sizes, small, resizes, decodes}

  -- What the loop does on `fuel` rounds with `todo` of the member and `room` of the buffer left.
  abbrev Reads : ℕ → Stream → (buffer written room passed todo : List ℕ) → (size total : ℕ) → Type 0
  Reads fuel s buffer written room passed todo size total =
      (bytes rest gone room' : List ℕ) × (s' : Stream) × (todo ≡ bytes ++ rest)
      × (room ≡ gone ++ room')
      × (length gone ≡ length bytes)
      × (length bytes ≡ min (size - total) (length todo))
      × (read_loop reader fuel s buffer size total
          ≡ ok (none, s', written ++ (bytes ++ room'), total + length bytes))
      × IsStream file content blocks sector s'
      × (s'.position ≡ length passed + length bytes)

  read_stop :
      (fuel : ℕ) (s : Stream) (buffer : List ℕ) (size total : ℕ)
      → (ltb total size && ltb s.position s.size) ≡ false
      → read_loop reader (suc fuel) s buffer size total ≡ ok (none, s, buffer, total)
  unfolding read_loop
  read_stop fuel s buffer size total h = rw h

  -- One round in front of the rounds after it.
  prepend :
      (run after : Outcome (Status × Stream × List ℕ × ℕ))
      (written room gone room1 passed todo bytes rest : List ℕ) (size total total' : ℕ)
      → run ≡ after
      → total' ≡ total + length bytes
      → todo ≡ bytes ++ rest
      → room ≡ gone ++ room1
      → length gone ≡ length bytes
      → 0 < length bytes
      → length bytes ≤ size - total
      → (bytes2 rest2 gone2 room2 : List ℕ) × (s' : Stream) × (rest ≡ bytes2 ++ rest2)
        × (room1 ≡ gone2 ++ room2)
        × (length gone2 ≡ length bytes2)
        × (length bytes2 ≡ min (size - total') (length rest))
        × (after ≡ ok (none, s', (written ++ bytes) ++ (bytes2 ++ room2), total' + length bytes2))
        × IsStream file content blocks sector s'
        × (s'.position ≡ length (passed ++ bytes) + length bytes2)
      → (bytes' rest' gone' room' : List ℕ) × (s' : Stream) × (todo ≡ bytes' ++ rest')
        × (room ≡ gone' ++ room')
        × (length gone' ≡ length bytes')
        × (length bytes' ≡ min (size - total) (length todo))
        × (run ≡ ok (none, s', written ++ (bytes' ++ room'), total + length bytes'))
        × IsStream file content blocks sector s'
        × (s'.position ≡ length passed + length bytes')
  prepend run after written room gone room1 passed todo bytes rest size total total' step et split
        cut lg some_bytes few (bytes2, rest2, gone2, room2, s', er, eg, l2, n2, e, good, at) =
      let lb : length (bytes ++ bytes2) ≡ length bytes + length bytes2 =
        length-append bytes bytes2 in
      (
        bytes ++ bytes2,
        rest2,
        gone ++ gone2,
        room2,
        s',
        split ∙ ap (λ r. bytes ++ r) er ∙ sym (append_assoc bytes bytes2 rest2),
        cut ∙ ap (λ r. gone ++ r) eg ∙ sym (append_assoc gone gone2 room2),
        omega (arith, length-append gone gone2),
        omega (arith, ap length split, length-append bytes rest),
        step ∙ e ∙ ap₂ (λ b n. ok (none, s', b, n)) (simp append_assoc) (omega arith),
        good,
        omega (arith, length-append passed bytes),
      )

  -- What the loop does on `fuel` rounds from every state.
  abbrev Loops : ℕ → Type 0
  Loops fuel =
      (s : Stream) (buffer written room passed todo : List ℕ) (size total : ℕ)
      → IsStream file content blocks sector s
      → buffer ≡ written ++ room
      → file ≡ passed ++ todo
      → s.position ≡ length passed
      → total ≡ length written
      → total ≤ size
      → size < fuel + total
      → size ≤ length written + length room
      → Reads fuel s buffer written room passed todo size total

  -- A round that copies `bytes`, in front of the rounds after it.
  copy_round :
      (fuel : ℕ)
      → Loops fuel
      → (s loaded : Stream) (written room gone room1 passed todo bytes rest : List ℕ)
        (block base size total count : ℕ)
      → s.position < s.size
      → sector_of reader s ≡ ok block
      → stream_load_block reader s block ≡ ok (none, loaded)
      → base ≡ sector_base reader s block
      → base ≤ loaded.position
      → loaded.position < base + loaded.block_size
      → count ≡ copy_count reader loaded size total (loaded.block_size - (loaded.position - base))
      → read_range loaded.buffer (loaded.position - base) count ≡ ok bytes
      → todo ≡ bytes ++ rest
      → room ≡ gone ++ room1
      → length bytes ≡ count
      → length gone ≡ count
      → IsStream file content blocks sector loaded
      → file ≡ passed ++ todo
      → loaded.position ≡ length passed
      → total ≡ length written
      → 0 < count
      → count ≤ size - total
      → size < suc fuel + total
      → size ≤ length written + length room
      → Reads (suc fuel) s (written ++ room) written room passed todo size total
  copy_round fuel later s loaded written room gone room1 passed todo bytes rest block base size
        total count inside es el eb lo hi ec rd split cut lb lg good ef ep et some_bytes few f
        fits =
      let lroom : length room ≡ length gone + length room1 =
        ap length cut ∙ length-append gone room1 in
      let lwritten : length (written ++ bytes) ≡ length written + length bytes =
        length-append written bytes in
      let lpassed : length (passed ++ bytes) ≡ length passed + length bytes =
        length-append passed bytes in
      let wr : write_range (written ++ room) total bytes ≡ ok (written ++ (bytes ++ room1)) =
        ap (λ r. write_range (written ++ r) total bytes) cut
        ∙ write_range_mid written gone bytes room1 total et (lb ∙ sym lg) in
      prepend (read_loop reader (suc fuel) s (written ++ room) size total)
        (read_loop reader fuel (record loaded { position = loaded.position + count })
          (written ++ (bytes ++ room1)) size (total + count))
        written room gone room1 passed todo bytes rest size total (total + count)
        (read_step reader file content blocks sector serves fuel s loaded (written ++ room)
          (written ++ (bytes ++ room1)) bytes block base size total count (omega arith) inside es el
          eb lo hi ec rd wr)
        (omega arith) split cut (lg ∙ sym lb) (omega arith) (omega arith)
        (later (record loaded { position = loaded.position + count }) (written ++ (bytes ++ room1))
          (written ++ bytes) room1 (passed ++ bytes) rest size (total + count) good
          (sym (append_assoc written bytes room1))
          (ef ∙ ap (λ t. passed ++ t) split ∙ sym (append_assoc passed bytes rest)) (omega arith)
          (omega arith) (omega arith) (omega arith) (omega arith))

  round :
      (fuel : ℕ)
      → Loops fuel
      → (s : Stream) (written room passed todo : List ℕ) (size total : ℕ)
      → IsStream file content blocks sector s
      → file ≡ passed ++ todo
      → s.position ≡ length passed
      → total ≡ length written
      → total < size
      → 0 < length todo
      → size < suc fuel + total
      → size ≤ length written + length room
      → Reads (suc fuel) s (written ++ room) written room passed todo size total
  round fuel later s written room passed todo size total good ef ep et lo some_left f fits =
      let block : ℕ = sector_at blocks sector s.position in
      let base : ℕ = begins_at blocks sector block in
      let lf : length file ≡ length passed + length todo =
        ap length ef ∙ length-append passed todo in
      let inside : s.position < length file = omega arith in
      let (front, back, ew, eb, below, above) = placed s.position inside in
      let (loaded, el, good', (behind, held, es), ec, at) =
        load_block-Holds reader file content blocks sector serves s block (s.position, inside, refl)
          good in
      let held' : loaded.buffer ≡ content block ++ behind =
        held ∙ ap (λ b. content b ++ behind) ec in
      let es' : loaded.block_size ≡ length (content block) = es ∙ ap (λ b. length (content b)) ec in
      let count : ℕ =
        copy_count reader loaded size total (loaded.block_size - (loaded.position - base)) in
      let bound : count
          ≡ min (min (size - total) (loaded.block_size - (loaded.position - base)))
              (loaded.size - loaded.position) =
        unfold copy_count in refl in
      let (bytes, rest, split, lb, rd) =
        piece reader file content blocks sector serves passed todo front (content block) back behind
          loaded.buffer loaded.position base count ef ew (at ∙ ep) (sym eb) (omega arith)
          (omega arith) (omega arith) held' in
      let (gone, room1, cut, lg) = split_at count room (omega arith) in
      copy_round fuel later s loaded written room gone room1 passed todo bytes rest block base size
        total count (omega arith)
        (sector_of-sector_at reader file content blocks sector serves s good.0) el
        (sym (sector_base-begins_at reader file content blocks sector serves s block good.0))
        (omega arith) (omega arith) refl rd split cut lb lg good' ef (at ∙ ep) et (omega arith)
        (omega arith) f fits

  pub read_loop-Reads : (fuel : ℕ) → Loops fuel
  read_loop-Reads zero s buffer written room passed todo size total good eb ef ep et lo f fits =
      absurd (omega arith)
  read_loop-Reads (suc fuel) s buffer written room passed todo size total good eb ef ep et lo f
        fits =
      elim (Bool-cases (ltb total size && ltb 0 (length todo))) [
        | inl more ↦
            subst (λ b. Reads (suc fuel) s b written room passed todo size total) (sym eb)
              (round fuel (read_loop-Reads fuel) s written room passed todo size total good ef ep et
                (ground arith) (ground arith) f fits)
        | inr stop ↦ (
          [],
          todo,
          [],
          room,
          s,
          refl,
          refl,
          refl,
          ground arith,
          read_stop fuel s buffer size total
                (ground (arith, good.0.0, ap length ef, length-append passed todo))
              ∙ ap₂ (λ b n. ok (none, s, b, n)) eb (omega arith),
          good,
          omega arith,
        )
      ]

  -- Over a reader that decodes every sector of the member, a read of at most as many bytes as the
  -- buffer has and `SIZE_MAX` allows, from a position within the member, succeeds: it puts the bytes
  -- of the member from the position on at the front of the buffer, `size` of them or all that are
  -- left, leaves the rest of the buffer, and moves the position behind them.
  pub stream_read-take :
      (s : Stream) (buffer : List ℕ) (size : ℕ)
      → IsStream file content blocks sector s
      → s.position ≤ length file
      → size ≤ length buffer
      → size ≤ size_max
      → (s' : Stream) × (stream_read reader (some s) (some buffer) (pos size)
          ≡ ok (
            none,
            some s',
            some (
                take (min size (length file - s.position)) (drop s.position file)
                ++ drop (min size (length file - s.position)) buffer),
            min size (length file - s.position),
          ))
        × IsStream file content blocks sector s'
        × (s'.position ≡ s.position + min size (length file - s.position))
  unfolding stream_read
  stream_read-take s buffer size good within fits small_size =
      let (passed, todo, ef, lp) = split_at s.position file within in
      let lf : length file ≡ length passed + length todo =
        ap length ef ∙ length-append passed todo in
      let (bytes, rest, gone, room', s', split, cut, lg, lb, e, good', at) =
        read_loop-Reads (size + 1) s buffer [] buffer passed todo size 0 good refl ef (sym lp) refl
          (omega arith) (omega arith) (omega arith) in
      let n : min size (length file - s.position) ≡ length bytes = omega arith in
      let tail : todo ≡ drop s.position file =
        sym (drop-append passed todo) ∙ ap₂ drop lp (sym ef) in
      let front : take (min size (length file - s.position)) (drop s.position file) ≡ bytes =
        ap₂ take n (sym tail ∙ split) ∙ take-append bytes rest in
      let behind : drop (min size (length file - s.position)) buffer ≡ room' =
        ap₂ drop (n ∙ sym lg) cut ∙ drop-append gone room' in
      let run : stream_read reader (some s) (some buffer) (pos size)
          ≡ ok (none, some s', some (bytes ++ room'), 0 + length bytes) =
        rw (le→ltb size_max size small_size, e) in
      (
        s',
        run
            ∙ ap₂ (λ b m. ok (none, some s', some b, m))
                (ap₂ (λ x y. x ++ y) (sym front) (sym behind)) (zero-add (length bytes) ∙ sym n),
        good',
        omega arith,
      )

-- ===== src/Digest/Md5/Update.antt =====
-- Taking a message in, in pieces, `libmpq__md5_update` of src/mpq-md5.c.
use mathlib.Core.Path.{subst}
use mathlib.Core.List.{append_assoc, append-nil}
use libmpq.Base.{
  ℕ, zero, suc, ◌+◌, ◌-◌, ◌%◌, ◌<◌, ◌≡◌, refl, sym, ap, ◌∙◌, inl, inr, arith, List, [], ◌∷◌, ◌++◌,
  Outcome, ok, ◌==◌, ltb, Bool-cases, u64, if◌then◌else◌, read_range, write_range, length, drop,
}
use libmpq.Base.Lists.{length-append, drop-append, split_length}
use libmpq.Base.Memory.{read_range_mid}
use libmpq.Digest.Blocks.{Absorbed, Filled, fill}
use libmpq.Digest.Md5.{Md5State, Md5Context, md5_transform, initial, md5_loop, md5_update}
use libmpq.Digest.Md5.Transform.{md5_transform_total}

-- `context` has taken `message` in.
abbrev pub IsDigesting : Md5Context → List ℕ → Type 0
IsDigesting context message =
    Absorbed md5_transform initial message context.state context.buffer (context.size % 64)
    × (context.size ≡ u64 (length message))

abbrev count_of : ℕ → ℕ → ℕ
count_of used size = if ltb size (64 - used) then size else 64 - used

-- One round of the loop, where the block is completed and where it is not.
step_kept :
    (fuel : ℕ) (context : Md5Context) (bytes chunk buffer : List ℕ) (size count : ℕ)
    → 0 < size
    → count ≡ count_of (context.size % 64) size
    → read_range bytes 0 count ≡ ok chunk
    → write_range context.buffer (context.size % 64) chunk ≡ ok buffer
    → context.size % 64 + count < 64
    → md5_loop (suc fuel) context bytes size
      ≡ md5_loop fuel
          (record { state = context.state; size = u64 (context.size + count); buffer = buffer })
          (drop count bytes)
          (size - count)
unfolding md5_loop
step_kept fuel context bytes chunk buffer size count h k e w short = ground (arith, e, w)

step_full :
    (fuel : ℕ) (context : Md5Context) (bytes chunk buffer : List ℕ) (size count : ℕ)
    (next : Md5State)
    → 0 < size
    → count ≡ count_of (context.size % 64) size
    → read_range bytes 0 count ≡ ok chunk
    → write_range context.buffer (context.size % 64) chunk ≡ ok buffer
    → context.size % 64 + count ≡ 64
    → md5_transform context.state buffer ≡ ok next
    → md5_loop (suc fuel) context bytes size
      ≡ md5_loop fuel
          (record { state = next; size = u64 (context.size + count); buffer = buffer })
          (drop count bytes)
          (size - count)
unfolding md5_loop
step_full fuel context bytes chunk buffer size count next h k e w full t = ground (arith, e, w, t)

abbrev Loops : ℕ → Type 0
Loops fuel =
    (context : Md5Context) (message bytes behind : List ℕ) (size : ℕ)
    → IsDigesting context message
    → length bytes ≡ size
    → size < fuel
    → (context' : Md5Context) × (md5_loop fuel context (bytes ++ behind) size ≡ ok context')
      × IsDigesting context' (message ++ bytes)

-- The rounds after the first.
rounds_after :
    (fuel : ℕ)
    → Loops fuel
    → (run : Outcome Md5Context) (context : Md5Context) (message chunk rest behind : List ℕ)
      (count size : ℕ)
    → run ≡ md5_loop fuel context (drop count ((chunk ++ rest) ++ behind)) size
    → IsDigesting context (message ++ chunk)
    → length chunk ≡ count
    → length rest ≡ size
    → size < fuel
    → (context' : Md5Context) × (run ≡ ok context')
      × IsDigesting context' (message ++ (chunk ++ rest))
rounds_after fuel later run context message chunk rest behind count size e good lc lr f =
    let (context', e', good') = later context (message ++ chunk) rest behind size good lr f in
    let rest_of : drop count ((chunk ++ rest) ++ behind) ≡ rest ++ behind =
      ap (drop count) (append_assoc chunk rest behind)
      ∙ ap (λ n. drop n (chunk ++ (rest ++ behind))) (sym lc)
      ∙ drop-append chunk (rest ++ behind) in
    (
      context',
      e ∙ ap (λ b. md5_loop fuel context b size) rest_of ∙ e',
      subst (IsDigesting context') (append_assoc message chunk rest) good',
    )

-- A round, split by whether its bytes complete the block.
one_round :
    (fuel : ℕ)
    → Loops fuel
    → (context : Md5Context) (message chunk rest behind : List ℕ) (count size : ℕ)
    → IsDigesting context message
    → 0 < size
    → count ≡ count_of (context.size % 64) size
    → length chunk ≡ count
    → length rest ≡ size - count
    → size < suc fuel
    → Filled md5_transform initial message context.state context.buffer (context.size % 64) chunk
    → (context' : Md5Context) × (md5_loop (suc fuel) context ((chunk ++ rest) ++ behind) size
        ≡ ok context')
      × IsDigesting context' (message ++ (chunk ++ rest))
one_round fuel later context message chunk rest behind count size good some_bytes k lc lr f
      (buffer, w, lb, inl (short, held)) =
    let read : read_range ((chunk ++ rest) ++ behind) 0 count ≡ ok chunk =
      ap (λ b. read_range b 0 count) (append_assoc chunk rest behind)
      ∙ read_range_mid [] chunk (rest ++ behind) 0 count refl (sym lc) in
    rounds_after fuel later (md5_loop (suc fuel) context ((chunk ++ rest) ++ behind) size)
      (record { state = context.state; size = u64 (context.size + count); buffer = buffer }) message
      chunk rest behind count (size - count)
      (step_kept fuel context ((chunk ++ rest) ++ behind) chunk buffer size count some_bytes k read
        w (omega arith))
      (
        subst (Absorbed md5_transform initial (message ++ chunk) context.state buffer) (omega arith)
            held,
        omega (arith, length-append message chunk, good.1),
      )
      lc lr (ground arith)
one_round fuel later context message chunk rest behind count size good some_bytes k lc lr f
      (buffer, w, lb, inr (full, held)) =
    let read : read_range ((chunk ++ rest) ++ behind) 0 count ≡ ok chunk =
      ap (λ b. read_range b 0 count) (append_assoc chunk rest behind)
      ∙ read_range_mid [] chunk (rest ++ behind) 0 count refl (sym lc) in
    let (next, t) = md5_transform_total context.state buffer lb in
    rounds_after fuel later (md5_loop (suc fuel) context ((chunk ++ rest) ++ behind) size)
      (record { state = next; size = u64 (context.size + count); buffer = buffer }) message chunk
      rest behind count (size - count)
      (step_full fuel context ((chunk ++ rest) ++ behind) chunk buffer size count next some_bytes k
        read w (omega arith) t)
      (
        subst (Absorbed md5_transform initial (message ++ chunk) next buffer) (omega arith)
            (held next t),
        omega (arith, length-append message chunk, good.1),
      )
      lc lr (ground arith)

stopped :
    (fuel : ℕ) (context : Md5Context) (message bytes behind : List ℕ) (size : ℕ)
    → IsDigesting context message
    → length bytes ≡ size
    → size ≡ 0
    → (context' : Md5Context) × (md5_loop (suc fuel) context (bytes ++ behind) size ≡ ok context')
      × IsDigesting context' (message ++ bytes)
unfolding md5_loop
stopped fuel context message [] behind size good l e =
    (context, ground arith, subst (IsDigesting context) (sym (append-nil message)) good)
stopped fuel context message (x ∷ bytes) behind size good l e = absurd (omega arith)

md5_loop-IsDigesting : (fuel : ℕ) → Loops fuel
md5_loop-IsDigesting zero context message bytes behind size good l f = elim f [ ]
md5_loop-IsDigesting (suc fuel) context message bytes behind size good l f =
    elim (Bool-cases (size == 0)) [
      | inl done ↦ stopped fuel context message bytes behind size good l (ground arith)
      | inr more ↦
          let used : ℕ = context.size % 64 in
          let (chunk, rest, split, lc, lr) =
            split_length (count_of used size) (size - count_of used size) bytes (ground arith) in
          subst
            (λ b.
              (context' : Md5Context) × (md5_loop (suc fuel) context (b ++ behind) size
                ≡ ok context')
              × IsDigesting context' (message ++ b))
            (sym split)
            (one_round fuel (md5_loop-IsDigesting fuel) context message chunk rest behind
              (count_of used size) size good (ground arith) refl lc lr f
              (fill md5_transform initial message context.state context.buffer used chunk good.0
                (ground (arith, lc))))
    ]

-- A context that has taken a message in, its whole blocks in the state, the rest at the front of
-- the buffer, its length modulo 2^64 in the size, has taken in the message followed by the bytes
-- of an update after it, which ends without a fault and reads no byte behind the given size.
pub md5_update-IsDigesting :
    (context : Md5Context) (message bytes behind : List ℕ) (size : ℕ)
    → IsDigesting context message
    → length bytes ≡ size
    → (context' : Md5Context) × (md5_update context (bytes ++ behind) size ≡ ok context')
      × IsDigesting context' (message ++ bytes)
unfolding md5_update
md5_update-IsDigesting context message bytes behind size good l =
    md5_loop-IsDigesting (size + 1) context message bytes behind size good l (omega arith)

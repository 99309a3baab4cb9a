-- ===== src/Digest/Sha1/Update.antt =====
-- Taking a message in, in pieces, `libmpq__sha1_update` of src/mpq-sha1.c.
use mathlib.Core.Path.{subst}
use mathlib.Core.List.{append_assoc, append-nil}
use libmpq.Base.{
  ℕ, zero, suc, ◌+◌, ◌-◌, ◌*◌, ◌<◌, ◌≡◌, refl, sym, ap, ◌∙◌, inl, inr, arith, List, [], ◌∷◌, ◌++◌,
  Outcome, ok, ◌==◌, ltb, Bool-cases, u64, if◌then◌else◌, read_range, write_range, length, drop,
}
use libmpq.Base.Lists.{length-append, drop-append, split_length}
use libmpq.Base.Memory.{read_range_mid}
use libmpq.Digest.Blocks.{Absorbed, Filled, fill}
use libmpq.Digest.Sha1.{Sha1State, Sha1Context, sha1_transform, initial, sha1_loop, sha1_update}
use libmpq.Digest.Sha1.Transform.{sha1_transform_total}

-- `context` has taken `message` into its blocks and its buffer.
abbrev pub Holds : Sha1Context → List ℕ → Type 0
Holds context message =
    Absorbed sha1_transform initial message context.state context.buffer context.used

-- `context` has taken `message` in and counted its bits.
abbrev pub IsDigesting : Sha1Context → List ℕ → Type 0
IsDigesting context message = Holds context message × (context.bits ≡ u64 (length message * 8))

abbrev count_of : ℕ → ℕ → ℕ
count_of used size = if ltb size (64 - used) then size else 64 - used

-- One round of the loop, where the block is completed and where it is not.
step_kept :
    (fuel : ℕ) (context : Sha1Context) (bytes chunk buffer : List ℕ) (size count : ℕ)
    → 0 < size
    → count ≡ count_of context.used size
    → read_range bytes 0 count ≡ ok chunk
    → write_range context.buffer context.used chunk ≡ ok buffer
    → context.used + count < 64
    → sha1_loop (suc fuel) context bytes size
      ≡ sha1_loop fuel
          (record {
            state = context.state;
            bits = context.bits;
            buffer = buffer;
            used = context.used + count;
          })
          (drop count bytes)
          (size - count)
unfolding sha1_loop
step_kept fuel context bytes chunk buffer size count h k e w short = ground (arith, e, w)

step_full :
    (fuel : ℕ) (context : Sha1Context) (bytes chunk buffer : List ℕ) (size count : ℕ)
    (next : Sha1State)
    → 0 < size
    → count ≡ count_of context.used size
    → read_range bytes 0 count ≡ ok chunk
    → write_range context.buffer context.used chunk ≡ ok buffer
    → context.used + count ≡ 64
    → sha1_transform context.state buffer ≡ ok next
    → sha1_loop (suc fuel) context bytes size
      ≡ sha1_loop fuel
          (record { state = next; bits = context.bits; buffer = buffer; used = 0 })
          (drop count bytes)
          (size - count)
unfolding sha1_loop
step_full fuel context bytes chunk buffer size count next h k e w full t = ground (arith, e, w, t)

abbrev Loops : ℕ → Type 0
Loops fuel =
    (context : Sha1Context) (message bytes behind : List ℕ) (size : ℕ)
    → Holds context message
    → length bytes ≡ size
    → size < fuel
    → (context' : Sha1Context) × (sha1_loop fuel context (bytes ++ behind) size ≡ ok context')
      × Holds context' (message ++ bytes)
      × (context'.bits ≡ context.bits)

-- The rounds after the first.
rounds_after :
    (fuel : ℕ)
    → Loops fuel
    → (run : Outcome Sha1Context) (context : Sha1Context) (message chunk rest behind : List ℕ)
      (count size : ℕ)
    → run ≡ sha1_loop fuel context (drop count ((chunk ++ rest) ++ behind)) size
    → Holds context (message ++ chunk)
    → length chunk ≡ count
    → length rest ≡ size
    → size < fuel
    → (context' : Sha1Context) × (run ≡ ok context')
      × Holds context' (message ++ (chunk ++ rest))
      × (context'.bits ≡ context.bits)
rounds_after fuel later run context message chunk rest behind count size e good lc lr f =
    let (context', e', good', same) = later context (message ++ chunk) rest behind size good lr f in
    let rest_of : drop count ((chunk ++ rest) ++ behind) ≡ rest ++ behind =
      ap (drop count) (append_assoc chunk rest behind)
      ∙ ap (λ n. drop n (chunk ++ (rest ++ behind))) (sym lc)
      ∙ drop-append chunk (rest ++ behind) in
    (
      context',
      e ∙ ap (λ b. sha1_loop fuel context b size) rest_of ∙ e',
      subst (Holds context') (append_assoc message chunk rest) good',
      same,
    )

-- A round, split by whether its bytes complete the block.
one_round :
    (fuel : ℕ)
    → Loops fuel
    → (context : Sha1Context) (message chunk rest behind : List ℕ) (count size : ℕ) → 0 < size
    → count ≡ count_of context.used size
    → length chunk ≡ count
    → length rest ≡ size - count
    → context.used < 64
    → size < suc fuel
    → Filled sha1_transform initial message context.state context.buffer context.used chunk
    → (context' : Sha1Context) × (sha1_loop (suc fuel) context ((chunk ++ rest) ++ behind) size
        ≡ ok context')
      × Holds context' (message ++ (chunk ++ rest))
      × (context'.bits ≡ context.bits)
one_round fuel later context message chunk rest behind count size some_bytes k lc lr room f
      (buffer, w, lb, inl (short, held)) =
    let read : read_range ((chunk ++ rest) ++ behind) 0 count ≡ ok chunk =
      ap (λ b. read_range b 0 count) (append_assoc chunk rest behind)
      ∙ read_range_mid [] chunk (rest ++ behind) 0 count refl (sym lc) in
    rounds_after fuel later (sha1_loop (suc fuel) context ((chunk ++ rest) ++ behind) size)
      (record {
        state = context.state;
        bits = context.bits;
        buffer = buffer;
        used = context.used + count;
      })
      message chunk rest behind count (size - count)
      (step_kept fuel context ((chunk ++ rest) ++ behind) chunk buffer size count some_bytes k read
        w (omega arith))
      (subst (Absorbed sha1_transform initial (message ++ chunk) context.state buffer) (omega arith)
        held)
      lc lr (ground arith)
one_round fuel later context message chunk rest behind count size some_bytes k lc lr room f
      (buffer, w, lb, inr (full, held)) =
    let read : read_range ((chunk ++ rest) ++ behind) 0 count ≡ ok chunk =
      ap (λ b. read_range b 0 count) (append_assoc chunk rest behind)
      ∙ read_range_mid [] chunk (rest ++ behind) 0 count refl (sym lc) in
    let (next, t) = sha1_transform_total context.state buffer lb in
    rounds_after fuel later (sha1_loop (suc fuel) context ((chunk ++ rest) ++ behind) size)
      (record { state = next; bits = context.bits; buffer = buffer; used = 0 }) message chunk rest
      behind count (size - count)
      (step_full fuel context ((chunk ++ rest) ++ behind) chunk buffer size count next some_bytes k
        read w (omega arith) t)
      (held next t) lc lr (ground arith)

stopped :
    (fuel : ℕ) (context : Sha1Context) (message bytes behind : List ℕ) (size : ℕ)
    → Holds context message
    → length bytes ≡ size
    → size ≡ 0
    → (context' : Sha1Context) × (sha1_loop (suc fuel) context (bytes ++ behind) size ≡ ok context')
      × Holds context' (message ++ bytes)
      × (context'.bits ≡ context.bits)
unfolding sha1_loop
stopped fuel context message [] behind size good l e =
    (context, ground arith, subst (Holds context) (sym (append-nil message)) good, refl)
stopped fuel context message (x ∷ bytes) behind size good l e = absurd (omega arith)

pub used_fits :
    (context : Sha1Context) (message : List ℕ) → Holds context message → context.used < 64
used_fits context message good = omega (arith, good.filled, good.short)

sha1_loop-Holds : (fuel : ℕ) → Loops fuel
sha1_loop-Holds zero context message bytes behind size good l f = elim f [ ]
sha1_loop-Holds (suc fuel) context message bytes behind size good l f =
    elim (Bool-cases (size == 0)) [
      | inl done ↦ stopped fuel context message bytes behind size good l (ground arith)
      | inr more ↦
          let used : ℕ = context.used in
          let room : used < 64 = used_fits context message good in
          let (chunk, rest, split, lc, lr) =
            split_length (count_of used size) (size - count_of used size) bytes (ground arith) in
          subst
            (λ b.
              (context' : Sha1Context) × (sha1_loop (suc fuel) context (b ++ behind) size
                ≡ ok context')
              × Holds context' (message ++ b)
              × (context'.bits ≡ context.bits))
            (sym split)
            (one_round fuel (sha1_loop-Holds fuel) context message chunk rest behind
              (count_of used size) size (ground arith) refl lc lr room f
              (fill sha1_transform initial message context.state context.buffer used chunk good
                (ground (arith, lc))))
    ]

-- A context that has taken a message in, its whole blocks in the state, the rest at the front of
-- the buffer, its length in bits modulo 2^64 in the bit count, has taken in the message followed
-- by the bytes of an update after it, which ends without a fault and reads no byte behind the
-- given size.
pub sha1_update-IsDigesting :
    (context : Sha1Context) (message bytes behind : List ℕ) (size : ℕ)
    → IsDigesting context message
    → length bytes ≡ size
    → (context' : Sha1Context) × (sha1_update context (bytes ++ behind) size ≡ ok context')
      × IsDigesting context' (message ++ bytes)
unfolding sha1_update
sha1_update-IsDigesting context message bytes behind size good l =
    let (context', e, held, same) =
      sha1_loop-Holds (size + 1) (record context { bits = u64 (context.bits + u64 (size * 8)) })
        message bytes behind size good.0 l (omega arith) in
    (context', e, (held, same ∙ omega (arith, good.1, length-append message bytes)))

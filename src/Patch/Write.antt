-- ===== src/Patch/Write.antt =====
-- The whole encoder of src/mpq-patch-writer.c.
use mathlib.Core.Path.{subst}
use mathlib.Core.List.{append_assoc}
use libmpq.Base.{
  ℕ, zero, suc, ◌+◌, ◌-◌, ◌*◌, ◌≤◌, ◌<◌, ◌≡◌, refl, sym, ap, ap₂, ◌∙◌, inl, inr, arith, min, Bool,
  true, false, List, [], ◌∷◌, ◌++◌, Outcome, ok, read_range, write_range, length, drop, replicate,
  ◌==◌, Bool-cases,
}
use libmpq.Base.Lists.{length-append, drop-append, split_length}
use libmpq.Base.Memory.{read_range_mid, write_range_mid}
use libmpq.Patch.{continues, run_count, rle_loop, patch_bsd0_rle}
use libmpq.Patch.Tokens.{Tokens, no_token, zeros_token, literal_token}
use libmpq.Patch.Encode.{run_count-Leads, run_count_pos, round_zeros, round_literal}

-- A run of the encoder has written tokens for `raw` over the front of `room`.
abbrev pub Written : Outcome (ℕ × List ℕ) → List ℕ → List ℕ → List ℕ → Type 0
Written run front room raw =
    (encoded back : List ℕ) × (run ≡ ok (length front + length encoded, front ++ (encoded ++ back)))
    × (length encoded + length back ≡ length room)
    × (length encoded ≤ 2 * length raw)
    × Tokens encoded raw

abbrev Later : ℕ → Type 0
Later fuel =
    (raw front room : List ℕ)
    → length raw < fuel
    → 2 * length raw ≤ length room
    → Written (rle_loop fuel raw (length raw) (front ++ room) (length front)) front room raw

-- A round that wrote `token` for `chunk`, and the rounds after it.
extend :
    (fuel : ℕ)
    → Later fuel
    → (run : Outcome (ℕ × List ℕ)) (front token room chunk rest : List ℕ) (size : ℕ)
    → run
      ≡ rle_loop fuel rest (length rest) (front ++ (token ++ room)) (length front + length token)
    → ((encoded : List ℕ) → Tokens encoded rest → Tokens (token ++ encoded) (chunk ++ rest))
    → length token ≤ 2 * length chunk
    → length rest < fuel
    → 2 * length rest ≤ length room
    → size ≡ length token + length room
    → (encoded back : List ℕ) × (run
        ≡ ok (length front + length encoded, front ++ (encoded ++ back)))
      × (length encoded + length back ≡ size)
      × (length encoded ≤ 2 * length (chunk ++ rest))
      × Tokens encoded (chunk ++ rest)
extend fuel later run front token room chunk rest size e tokens lt f lr ls =
    let (encoded, back, e', l, m, t) = later rest (front ++ token) room f lr in
    (
      token ++ encoded,
      back,
      e
          ∙ ap₂ (λ o n. rle_loop fuel rest (length rest) o n) (sym (append_assoc front token room))
              (sym (length-append front token))
          ∙ e'
          ∙ ap₂ (λ n o. ok (n, o))
              (omega (arith, length-append front token, length-append token encoded))
              (append_assoc front token (encoded ++ back)
                ∙ ap (λ x. front ++ x) (sym (append_assoc token encoded back))),
      omega (arith, length-append token encoded),
      omega (arith, length-append token encoded, length-append chunk rest),
      tokens encoded t,
    )

module _ (fuel byte : ℕ) (raw front room run rest : List ℕ) (q : byte ∷ raw ≡ run ++ rest)
    (l : 1 ≤ length run) (few : length run ≤ 128) (f : length raw < fuel)
    (fits : 2 * suc (length raw) ≤ length room) where
  sizes : suc (length raw) ≡ length run + length rest
  sizes = ap length q ∙ length-append run rest

  next_raw : drop (length run) (byte ∷ raw) ≡ rest
  next_raw = ap (drop (length run)) q ∙ drop-append run rest

  go_zeros :
      Later fuel
      → (byte == 0) ≡ true
      → run_count (min (suc (length raw)) 128) (byte ∷ raw) true ≡ ok (length run)
      → run ≡ replicate (length run) 0
      → Written
          (rle_loop (suc fuel) (byte ∷ raw) (suc (length raw)) (front ++ room) (length front))
          front
          room
          (run ++ rest)
  go_zeros later z ec same =
      let (old, room', qr, lo, lr) = split_length 1 (length room - 1) room (omega arith) in
      let token : List ℕ = (length run - 1) ∷ [] in
      let output : write_range (front ++ room) (length front) token
          ≡ ok (front ++ (token ++ room')) =
        ap (λ r. write_range (front ++ r) (length front) token) qr
        ∙ write_range_mid front old token room' (length front) refl (sym lo) in
      extend fuel later
        (rle_loop (suc fuel) (byte ∷ raw) (suc (length raw)) (front ++ room) (length front)) front
        token room' run rest (length room)
        (round_zeros fuel (byte ∷ raw) (suc (length raw)) (front ++ room)
            (front ++ (token ++ room')) (length front) byte (length run) (omega arith) refl z ec
            output l few
          ∙ ap₂ (λ r n. rle_loop fuel r n (front ++ (token ++ room')) (length front + 1)) next_raw
              (omega (arith, sizes)))
        (λ encoded t.
          subst (λ zeros. Tokens (token ++ encoded) (zeros ++ rest)) (sym same)
            (zeros_token (length run) l few t))
        (omega arith) (omega (arith, sizes)) (omega (arith, sizes, lr)) (omega (arith, lr))

  go_literal :
      Later fuel
      → (byte == 0) ≡ false
      → run_count (min (suc (length raw)) 128) (byte ∷ raw) false ≡ ok (length run)
      → Written
          (rle_loop (suc fuel) (byte ∷ raw) (suc (length raw)) (front ++ room) (length front))
          front
          room
          (run ++ rest)
  go_literal later z ec =
      let (old, room', qr, lo, lr) =
        split_length (1 + length run) (length room - (1 + length run)) room
          (omega (arith, sizes)) in
      let (old1, old2, qo, lo1, lo2) = split_length 1 (length run) old lo in
      let mark : List ℕ = (128 + (length run - 1)) ∷ [] in
      let output1 : write_range (front ++ room) (length front) mark
          ≡ ok (front ++ (mark ++ (old2 ++ room'))) =
        ap (λ r. write_range (front ++ r) (length front) mark)
          (qr ∙ ap (λ o. o ++ room') qo ∙ append_assoc old1 old2 room')
        ∙ write_range_mid front old1 mark (old2 ++ room') (length front) refl (sym lo1) in
      let output2 : write_range (front ++ (mark ++ (old2 ++ room'))) (length front + 1) run
          ≡ ok (front ++ ((mark ++ run) ++ room')) =
        ap (λ o. write_range o (length front + 1) run)
          (sym (append_assoc front mark (old2 ++ room')))
        ∙ write_range_mid (front ++ mark) old2 run room' (length front + 1)
            (sym (length-append front mark)) (sym lo2)
        ∙ ap ok (
            append_assoc front mark (run ++ room')
            ∙ ap (λ x. front ++ x) (sym (append_assoc mark run room'))) in
      let read : read_range (byte ∷ raw) 0 (length run) ≡ ok run =
        ap (λ r. read_range r 0 (length run)) q
        ∙ read_range_mid [] run rest 0 (length run) refl refl in
      extend fuel later
        (rle_loop (suc fuel) (byte ∷ raw) (suc (length raw)) (front ++ room) (length front)) front
        (mark ++ run) room' run rest (length room)
        (round_literal fuel (byte ∷ raw) (suc (length raw)) (front ++ room)
            (front ++ (mark ++ (old2 ++ room'))) (front ++ ((mark ++ run) ++ room')) run
            (length front) byte (length run) (omega arith) refl z ec output1 read output2 l few
          ∙ (let n : length front + 1 + length run ≡ length front + length (mark ++ run) =
                omega arith in
              ap₂
                (λ r m.
                  rle_loop fuel r m (front ++ ((mark ++ run) ++ room'))
                    (length front + 1 + length run))
                next_raw (omega (arith, sizes))
              ∙ ap (rle_loop fuel rest (length rest) (front ++ ((mark ++ run) ++ room'))) n))
        (λ encoded t. literal_token run l few t) (omega arith) (omega (arith, sizes))
        (omega (arith, sizes, lr)) (omega (arith, sizes, lr))

rle_loop-Written : (fuel : ℕ) → Later fuel
rle_loop-Written zero raw front room f fits = elim f [ ]
rle_loop-Written (suc fuel) [] front room f fits = (
  [],
  room,
  unfold rle_loop in ap (λ n. ok (n, front ++ room)) (omega arith),
  omega arith,
  omega arith,
  no_token,
)
rle_loop-Written (suc fuel) (byte ∷ raw) front room f fits = elim (Bool-cases (byte == 0)) [
  | inl z ↦
      let (run, rest, q, e, l, same) =
        run_count-Leads (min (suc (length raw)) 128) (byte ∷ raw) true (omega arith) in
      let some_run : 1 ≤ length run = begun byte raw true (length run) z e in
      subst
        (Written
          (rle_loop (suc fuel) (byte ∷ raw) (suc (length raw)) (front ++ room) (length front)) front
          room)
        (sym q)
        (go_zeros fuel byte raw front room run rest q some_run (omega arith) (omega arith) fits
          (rle_loop-Written fuel) z e (same refl))
  | inr z ↦
      let (run, rest, q, e, l, same) =
        run_count-Leads (min (suc (length raw)) 128) (byte ∷ raw) false (omega arith) in
      let some_run : 1 ≤ length run = begun byte raw false (length run) (rw z refl) e in
      subst
        (Written
          (rle_loop (suc fuel) (byte ∷ raw) (suc (length raw)) (front ++ room) (length front)) front
          room)
        (sym q)
        (go_literal fuel byte raw front room run rest q some_run (omega arith) (omega arith) fits
          (rle_loop-Written fuel) z e)
]
  where
    begun :
        (byte : ℕ) (raw : List ℕ) (zeros : Bool) (count : ℕ)
        → continues zeros byte ≡ true
        → run_count (min (suc (length raw)) 128) (byte ∷ raw) zeros ≡ ok count
        → 1 ≤ count
    begun byte raw zeros count on e = run_count_pos (min (length raw) 127) byte raw zeros count on (
        ap (λ n. run_count n (byte ∷ raw) zeros)
          (let c : suc (min (length raw) 127) ≡ min (suc (length raw)) 128 = omega arith in c)
        ∙ e)

-- Into enough room, the encoder writes four zeros and tokens for its input.
pub patch_bsd0_rle-Tokens :
    (raw output : List ℕ)
    → 4 + 2 * length raw ≤ length output
    → (encoded back : List ℕ) × (patch_bsd0_rle raw (length raw) output
        ≡ ok (4 + length encoded, replicate 4 0 ++ (encoded ++ back)))
      × (4 + length encoded + length back ≡ length output)
      × (length encoded ≤ 2 * length raw)
      × Tokens encoded raw
unfolding patch_bsd0_rle
patch_bsd0_rle-Tokens raw output fits =
    let (old, room, q, lo, lr) = split_length 4 (length output - 4) output (omega arith) in
    let cleared : write_range output 0 (replicate 4 0) ≡ ok (replicate 4 0 ++ room) =
      ap (λ o. write_range o 0 (replicate 4 0)) q
      ∙ write_range_mid [] old (replicate 4 0) room 0 refl (sym lo) in
    let (encoded, back, e, l, m, t) =
      rle_loop-Written (length raw + 1) raw (replicate 4 0) room (omega arith) (omega arith) in
    (encoded, back, rw cleared e, omega arith, m, t)

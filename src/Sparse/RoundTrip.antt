-- ===== src/Sparse/RoundTrip.antt =====
-- Decompression undoes compression, src/mpq-sparse.c.
use mathlib.Core.Path.{subst}
use mathlib.Core.List.{append_assoc}
use native.Mathlib.Nat.{zero-add}
use libmpq.Base.{
  ℕ, zero, suc, ◌+◌, ◌-◌, ◌*◌, ◌≤◌, ◌<◌, ◌≡◌, refl, sym, ap, ◌∙◌, ◌⊎◌, inl, inr, arith, bit_or,
  Outcome, List, [], ◌∷◌, ◌++◌, ok, err, unpack_error, read_range, write_range, replicate, length,
  leb, ltb, ap₂, Bool-cases, u8, ltb→lt, leb→le,
}
use libmpq.Base.Bits.{shifted_or}
use libmpq.Base.Lists.{length-append, length-replicate, split_length}
use libmpq.Base.Memory.{read_range_mid, write_range_mid, split_at}
use libmpq.Sparse.{zero_run, compress_loop}
use libmpq.Sparse.Tokens.{Encodes, done, zeros, literal, regroup}
use libmpq.Sparse.Compress.{
  zero_run-replicate, literal_end_bounds, compress_zeros, compress_literal, compress_zeros_full,
  compress_literal_full,
}

write_fits :
    (written room bytes out_buf : List ℕ) (output : ℕ)
    → out_buf ≡ written ++ room
    → output ≡ length written
    → length bytes ≤ length room
    → (room' : List ℕ) × (write_range out_buf output bytes ≡ ok ((written ++ bytes) ++ room'))
      × (length bytes + length room' ≡ length room)
write_fits written room bytes out_buf output eo ew fits =
    let (old, room', split, l) = split_at (length bytes) room fits in
    let e : out_buf ≡ written ++ (old ++ room') = eo ∙ ap (λ r. written ++ r) split in
    let total : length room ≡ length old + length room' =
      ap length split ∙ length-append old room' in
    (
      room',
      rw e (
          write_range_mid written old bytes room' output ew (sym l)
          ∙ ap ok (sym (append_assoc written bytes room'))),
      omega arith,
    )

-- What the compressor makes of the bytes `todo` from a state where `output` bytes are written.
abbrev pub Compressed : Outcome (ℕ × List ℕ) → List ℕ → List ℕ → List ℕ → ℕ → ℕ → Type 0
Compressed result todo written room out_size output =
    (result ≡ err unpack_error) × (out_size < output + 2 * length todo)
    ⊎ ((tokens room' : List ℕ) × (result
          ≡ ok (output + length tokens, written ++ (tokens ++ room')))
        × Encodes tokens todo
        × (output + length tokens ≤ out_size)
        × (length tokens + length room' ≡ length room))

-- One token in front of a stream.
prepend :
    (result after : Outcome (ℕ × List ℕ)) (token bytes todo rest written room room1 : List ℕ)
    (out_size output output' : ℕ)
    → result ≡ after
    → todo ≡ bytes ++ rest
    → output' ≡ output + length token
    → length token ≤ 2 * length bytes
    → length token + length room1 ≡ length room
    → ((tokens : List ℕ) → Encodes tokens rest → Encodes (token ++ tokens) (bytes ++ rest))
    → Compressed after rest (written ++ token) room1 out_size output'
    → Compressed result todo written room out_size output
prepend result after token bytes todo rest written room room1 out_size output output' step et eo
      small lr enc (inl (e, full)) =
    inl (step ∙ e, omega (arith, ap length et, length-append bytes rest))
prepend result after token bytes todo rest written room room1 out_size output output' step et eo
      small lr enc (inr (tokens, room', e, en, fit, lr')) =
    let l : length (token ++ tokens) ≡ length token + length tokens = length-append token tokens in
    let total : output' + length tokens ≡ output + length (token ++ tokens) = omega arith in
    inr (
      token ++ tokens,
      room',
      step ∙ e ∙ ap₂ (λ n o. ok (n, o)) total (regroup written token tokens room'),
      subst (Encodes (token ++ tokens)) (sym et) (enc tokens en),
      omega arith,
      omega arith,
    )

literal_token : (n : ℕ) → n < 128 → u8 (bit_or 0x80 n) ≡ 128 + n
literal_token n h = omega (arith, shifted_or 7 1 n h)

back_to : (k : ℕ) → 3 ≤ k → k ≤ 130 → u8 (k - 3) + 3 ≡ k
back_to k lo hi = omega arith

module _ (in_buf : List ℕ) (in_size out_size : ℕ) where
  -- A state of the loop: `before` is consumed and `written` is written.
  abbrev pub State : (out_buf before todo written room : List ℕ) → (input output : ℕ) → Type 0
  State out_buf before todo written room input output =
      (in_buf ≡ before ++ todo)
      × (out_buf ≡ written ++ room)
      × (input ≡ length before)
      × (output ≡ length written)
      × (in_size ≡ length before + length todo)
      × (output ≤ out_size)
      × (out_size ≤ length written + length room)

  -- What the loop does from every state, on `fuel` rounds.
  abbrev pub Loops : ℕ → Type 0
  Loops fuel =
      (out_buf before todo written room : List ℕ) (input output : ℕ)
      → State out_buf before todo written room input output
      → length todo < fuel
      → Compressed (compress_loop fuel in_buf in_size out_buf out_size input output) todo written
          room out_size output

  zeros_branch :
      (fuel : ℕ) (out_buf before todo rest written room : List ℕ) (input output k : ℕ)
      → Loops fuel
      → State out_buf before todo written room input output
      → length todo < suc fuel
      → zero_run 131 in_buf in_size input 0 ≡ ok k
      → todo ≡ replicate k 0 ++ rest
      → k ≤ 130
      → 3 ≤ k
      → Compressed
          (compress_loop (suc fuel) in_buf in_size out_buf out_size input output)
          todo
          written
          room
          out_size
          output
  zeros_branch fuel out_buf before todo rest written room input output k later
        (ei, eo, hi, ho, hs, fit, space) f ez split le three =
      let zeros_k : List ℕ = replicate k 0 in
      let lk : length zeros_k ≡ k = length-replicate k 0 in
      let ls : length todo ≡ length zeros_k + length rest =
        ap length split ∙ length-append zeros_k rest in
      let token : List ℕ = u8 (k - 3) ∷ [] in
      let lb : length (before ++ zeros_k) ≡ length before + length zeros_k =
        length-append before zeros_k in
      let lw : length (written ++ token) ≡ length written + 1 = length-append written token in
      elim (Bool-cases (ltb output out_size)) [
        | inl free ↦
            let open_room : output < out_size = ltb→lt output out_size free in
            let (room1, w, lr) = write_fits written room token out_buf output eo ho (omega arith) in
            let out' : List ℕ = (written ++ token) ++ room1 in
            prepend (compress_loop (suc fuel) in_buf in_size out_buf out_size input output)
              (compress_loop fuel in_buf in_size out' out_size (input + k) (output + 1)) token
              zeros_k todo rest written room room1 out_size output (output + 1)
              (compress_zeros in_buf in_size out_size fuel out_buf out' input output k (omega arith)
                ez three open_room w)
              split refl (omega arith) lr
              (λ tokens en.
                subst (λ j. Encodes (token ++ tokens) (replicate j 0 ++ rest)) (back_to k three le)
                  (zeros (u8 (k - 3)) (omega arith) en))
              (later out' (before ++ zeros_k) rest (written ++ token) room1 (input + k) (output + 1)
                (
                  ei ∙ ap (λ t. before ++ t) split ∙ sym (append_assoc before zeros_k rest),
                  refl,
                  omega arith,
                  omega arith,
                  omega arith,
                  omega arith,
                  omega arith,
                )
                (omega arith))
        | inr full ↦ inl (
          compress_zeros_full in_buf in_size out_size fuel out_buf input output k (omega arith) ez
              three (ground arith),
          ground arith,
        )
      ]

  literal_branch :
      (fuel : ℕ) (out_buf before todo written room : List ℕ) (input output k : ℕ)
      → Loops fuel
      → State out_buf before todo written room input output
      → length todo < suc fuel
      → 0 < length todo
      → zero_run 131 in_buf in_size input 0 ≡ ok k
      → k < 3
      → Compressed
          (compress_loop (suc fuel) in_buf in_size out_buf out_size input output)
          todo
          written
          room
          out_size
          output
  literal_branch fuel out_buf before todo written room input output k later
        (ei, eo, hi, ho, hs, fit, space) f some_left ez short =
      let whole : in_size ≡ length in_buf =
        hs ∙ sym (length-append before todo) ∙ sym (ap length ei) in
      let (stop, el, lo, hi', top) =
        literal_end_bounds 128 in_buf in_size input input whole (omega arith) (omega arith)
          (omega arith) (omega arith) in
      let n : ℕ = stop - input - 1 in
      let (copied, rest, split, lc, lrest) =
        split_length (stop - input) (in_size - stop) todo (omega arith) in
      let ls : length todo ≡ length copied + length rest =
        ap length split ∙ length-append copied rest in
      let token : List ℕ = u8 (bit_or 0x80 n) ∷ [] in
      let both : List ℕ = token ++ copied in
      let lb : length (before ++ copied) ≡ length before + length copied =
        length-append before copied in
      let lw : length (written ++ both) ≡ length written + (1 + length copied) =
        length-append written both ∙ omega arith in
      elim (Bool-cases (leb (output + 1 + (stop - input)) out_size)) [
        | inl free ↦
            let space_left : output + 1 + (stop - input) ≤ out_size = leb→le _ _ free in
            let (room1, w1, lr1) =
              write_fits written room token out_buf output eo ho (omega arith) in
            let (room2, w2, lr2) =
              write_fits (written ++ token) room1 copied ((written ++ token) ++ room1) (output + 1)
                refl (omega (arith, length-append written token)) (omega arith) in
            let out2 : List ℕ = ((written ++ token) ++ copied) ++ room2 in
            prepend (compress_loop (suc fuel) in_buf in_size out_buf out_size input output)
              (compress_loop fuel in_buf in_size out2 out_size stop (output + 1 + (stop - input)))
              both copied todo rest written room room2 out_size output (output + 1 + (stop - input))
              (compress_literal in_buf in_size out_size fuel out_buf ((written ++ token) ++ room1)
                out2 copied input output k stop (omega arith) ez short el space_left w1
                (ap (λ b. read_range b input (stop - input)) (ei ∙ ap (λ t. before ++ t) split)
                  ∙ read_range_mid before copied rest input (stop - input) hi (sym lc))
                w2)
              split (omega arith) (omega arith) (omega arith)
              (λ tokens en.
                subst (λ t. Encodes (t ∷ (copied ++ tokens)) (copied ++ rest))
                  (sym (literal_token n (omega arith)))
                  (literal n copied (omega arith) (omega arith) en))
              (later out2 (before ++ copied) rest (written ++ both) room2 stop
                (output + 1 + (stop - input))
                (
                  ei ∙ ap (λ t. before ++ t) split ∙ sym (append_assoc before copied rest),
                  ap (λ t. t ++ room2) (append_assoc written token copied),
                  omega arith,
                  omega arith,
                  omega arith,
                  space_left,
                  omega arith,
                )
                (omega arith))
        | inr full ↦ inl (
          compress_literal_full in_buf in_size out_size fuel out_buf input output k stop
              (omega arith) ez short el fit (ground arith),
          ground arith,
        )
      ]

  pub compress_loop-Compressed : (fuel : ℕ) → Loops fuel
  compress_loop-Compressed zero out_buf before todo written room input output st f = elim f [ ]
  compress_loop-Compressed (suc fuel) out_buf before [] written room input output st f =
      inr ([], room, unfold compress_loop in ground arith, done, omega arith, omega arith)
  compress_loop-Compressed (suc fuel) out_buf before (b ∷ todo) written room input output st f =
      let (k, rest, ez', split, le) =
        zero_run-replicate 131 in_buf before (b ∷ todo) in_size input 0 st.0 (omega arith)
          (omega arith) (omega arith) (omega arith) in
      let ez : zero_run 131 in_buf in_size input 0 ≡ ok k = ez' ∙ ap ok (zero-add k) in
      let later : Loops fuel = compress_loop-Compressed fuel in
      elim (Bool-cases (leb 3 k)) [
        | inl run ↦
            zeros_branch fuel out_buf before (b ∷ todo) rest written room input output k later st f
              ez split (omega arith) (leb→le 3 k run)
        | inr short ↦
            literal_branch fuel out_buf before (b ∷ todo) written room input output k later st f
              (omega arith) ez (ground arith)
      ]

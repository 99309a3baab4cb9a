-- ===== src/Patch/RoundTrip.antt =====
-- The decoder of src/mpq-patch-reader.c on what the encoder of src/mpq-patch-writer.c writes.
use mathlib.Core.List.{append_assoc, append-nil}
use libmpq.Base.{
  ℕ, zero, suc, ◌+◌, ◌-◌, ◌*◌, ◌≤◌, ◌<◌, ◌≡◌, refl, sym, ap, ap₂, ◌∙◌, arith, bit_and, true, false,
  List, [], ◌∷◌, ◌++◌, some, ok, get_elem?, read_range, write_range, length, replicate, ltb, ◌==◌,
}
use libmpq.Base.Lists.{replicate-add, length-append, length-replicate, get_elem?-append}
use libmpq.Base.Memory.{read_range_mid, write_range_mid}
use libmpq.Base.Bits.{and_low7, and_top}
use libmpq.Patch.{expand_loop, patch_bsd0_rle, patch_expand_rle}
use libmpq.Patch.Tokens.{Tokens, no_token, zeros_token, literal_token}
use libmpq.Patch.Write.{patch_bsd0_rle-Tokens}

-- One round, on a token of zeros and on one of other bytes.
expand_zeros :
    (fuel : ℕ) (encoded decoded : List ℕ) (encoded_size input output decoded_size count : ℕ)
    → 1 ≤ count
    → count ≤ 128
    → input < encoded_size
    → output + count ≤ decoded_size
    → get_elem? encoded input ≡ some (count - 1)
    → expand_loop (suc fuel) encoded encoded_size input output decoded decoded_size
      ≡ expand_loop fuel encoded encoded_size (input + 1) (output + count) decoded decoded_size
unfolding expand_loop
expand_zeros fuel encoded decoded encoded_size input output decoded_size count l m i o e =
    let low : bit_and (count - 1) 0x7f + 1 ≡ count =
      omega (arith, and_low7 (count - 1) (omega arith)) in
    let top : bit_and (count - 1) 0x80 ≡ 0 = omega (arith, and_top (count - 1) (omega arith)) in
    let a : ltb input encoded_size ≡ true = ground arith in
    let b : ltb output decoded_size ≡ true = ground arith in
    let c : ltb (decoded_size - output) count ≡ false = ground arith in
    rw (a, b, e, low, top, c) refl

expand_literal :
    (fuel : ℕ) (encoded decoded decoded' chunk : List ℕ)
    (encoded_size input output decoded_size count : ℕ)
    → 1 ≤ count
    → count ≤ 128
    → input + 1 + count ≤ encoded_size
    → output + count ≤ decoded_size
    → get_elem? encoded input ≡ some (128 + (count - 1))
    → read_range encoded (input + 1) count ≡ ok chunk
    → write_range decoded output chunk ≡ ok decoded'
    → expand_loop (suc fuel) encoded encoded_size input output decoded decoded_size
      ≡ expand_loop fuel encoded encoded_size
          (input + 1 + count)
          (output + count)
          decoded'
          decoded_size
unfolding expand_loop
expand_literal fuel encoded decoded decoded' chunk encoded_size input output decoded_size count l m
      i o e er ew =
    let low : bit_and (128 + (count - 1)) 0x7f + 1 ≡ count =
      omega (arith, and_low7 (128 + (count - 1)) (omega arith)) in
    let top : bit_and (128 + (count - 1)) 0x80 ≡ 128 =
      omega (arith, and_top (128 + (count - 1)) (omega arith)) in
    let a : ltb input encoded_size ≡ true = ground arith in
    let b : ltb output decoded_size ≡ true = ground arith in
    let c : ltb (decoded_size - output) count ≡ false = ground arith in
    let d : ltb (encoded_size - (input + 1)) count ≡ false = ground arith in
    rw (a, b, e, low, top, c, d, er, ew) refl

-- The tokens behind `front` expand to what they stand for, behind `before`.
expand-Tokens :
    (encoded raw : List ℕ)
    → Tokens encoded raw
    → (fuel : ℕ) (front behind before memory decoded : List ℕ) (size input output target : ℕ)
    → memory ≡ front ++ (encoded ++ behind)
    → size ≡ length front + length encoded
    → input ≡ length front
    → output ≡ length before
    → decoded ≡ before ++ replicate (length raw) 0
    → target ≡ length before + length raw
    → length encoded < fuel
    → expand_loop fuel memory size input output decoded target ≡ ok (before ++ raw)
expand-Tokens _ _ t zero front behind before memory decoded size input output target m s i o d g f =
    elim f [ ]
expand-Tokens _ _ no_token (suc fuel) front behind before memory decoded size input output target m
      s i o d g f =
    unfold expand_loop in
    let a : ltb input size ≡ false = ground arith in
    let b : (input == size) ≡ true = ground arith in
    let c : (output == target) ≡ true = ground arith in rw (a, b, c) (ap ok d)
expand-Tokens _ _ (zeros_token {encoded = encoded} {raw = raw} count l k t) (suc fuel) front behind
      before memory decoded size input output target m s i o d g f =
    let lr : length (replicate count 0 ++ raw) ≡ count + length raw =
      length-append (replicate count 0) raw ∙ omega (arith, length-replicate {A = ℕ} count 0) in
    let mark : List ℕ = (count - 1) ∷ [] in
    expand_zeros fuel memory decoded size input output target count l k (omega arith) (omega arith)
      (ap₂ get_elem? m i ∙ get_elem?-append front (count - 1) (encoded ++ behind))
    ∙ expand-Tokens encoded raw t fuel (front ++ mark) behind (before ++ replicate count 0) memory
        decoded size (input + 1) (output + count) target
        (m ∙ sym (append_assoc front mark (encoded ++ behind)))
        (omega (arith, length-append front mark)) (omega (arith, length-append front mark))
        (omega (arith, length-append before (replicate count 0), length-replicate {A = ℕ} count 0))
        (d
          ∙ ap (λ n. before ++ replicate n 0) lr
          ∙ ap (λ z. before ++ z) (replicate-add count (length raw) 0)
          ∙ sym (append_assoc before (replicate count 0) (replicate (length raw) 0)))
        (omega (arith, length-append before (replicate count 0), length-replicate {A = ℕ} count 0))
        (omega arith)
    ∙ ap ok (append_assoc before (replicate count 0) raw)
expand-Tokens _ _ (literal_token {encoded = encoded} {raw = raw} chunk l k t) (suc fuel) front
      behind before memory decoded size input output target m s i o d g f =
    let count : ℕ = length chunk in
    let lr : length (chunk ++ raw) ≡ count + length raw = length-append chunk raw in
    let le : length (chunk ++ encoded) ≡ count + length encoded = length-append chunk encoded in
    let mark : List ℕ = (128 + (count - 1)) ∷ [] in
    let moved : memory ≡ (front ++ mark) ++ (chunk ++ (encoded ++ behind)) =
      m
      ∙ ap (λ x. front ++ (mark ++ x)) (append_assoc chunk encoded behind)
      ∙ sym (append_assoc front mark (chunk ++ (encoded ++ behind))) in
    let room : decoded ≡ before ++ (replicate count 0 ++ replicate (length raw) 0) =
      d
      ∙ ap (λ n. before ++ replicate n 0) lr
      ∙ ap (λ z. before ++ z) (replicate-add count (length raw) 0) in
    let wrote : write_range decoded output chunk
        ≡ ok (before ++ (chunk ++ replicate (length raw) 0)) =
      ap (λ b. write_range b output chunk) room
      ∙ write_range_mid before (replicate count 0) chunk (replicate (length raw) 0) output o
          (sym (length-replicate {A = ℕ} count 0)) in
    expand_literal fuel memory decoded (before ++ (chunk ++ replicate (length raw) 0)) chunk size
      input output target count l k (omega arith) (omega arith)
      (ap₂ get_elem? m i
        ∙ get_elem?-append front (128 + (count - 1)) ((chunk ++ encoded) ++ behind))
      (ap (λ b. read_range b (input + 1) count) moved
        ∙ read_range_mid (front ++ mark) chunk (encoded ++ behind) (input + 1) count
            (omega (arith, length-append front mark)) refl)
      wrote
    ∙ expand-Tokens encoded raw t fuel ((front ++ mark) ++ chunk) behind (before ++ chunk) memory
        (before ++ (chunk ++ replicate (length raw) 0)) size (input + 1 + count) (output + count)
        target (moved ∙ sym (append_assoc (front ++ mark) chunk (encoded ++ behind)))
        (omega (arith, length-append front mark, length-append (front ++ mark) chunk))
        (omega (arith, length-append front mark, length-append (front ++ mark) chunk))
        (omega (arith, length-append before chunk))
        (sym (append_assoc before chunk (replicate (length raw) 0)))
        (omega (arith, length-append before chunk)) (omega arith)
    ∙ ap ok (append_assoc before chunk raw)

-- Into an output of at least four bytes and twice the input, the run-length encoder writes at most
-- that many bytes, and expanding exactly these into a buffer of the size of the input gives the
-- input back.
pub patch_expand_rle-patch_bsd0_rle :
    (raw output decoded : List ℕ)
    → 4 + 2 * length raw ≤ length output
    → length decoded ≡ length raw
    → (used : ℕ) × (out : List ℕ) × (patch_bsd0_rle raw (length raw) output ≡ ok (used, out))
      × (used ≤ 4 + 2 * length raw)
      × (patch_expand_rle out used decoded (length raw) ≡ ok raw)
unfolding patch_expand_rle
patch_expand_rle-patch_bsd0_rle raw output decoded fits l =
    let (encoded, back, e, sizes, m, t) = patch_bsd0_rle-Tokens raw output fits in
    let used : ℕ = 4 + length encoded in
    let cleared : write_range decoded 0 (replicate (length raw) 0) ≡ ok (replicate (length raw) 0) =
      ap (λ b. write_range b 0 (replicate (length raw) 0)) (sym (append-nil decoded))
      ∙ write_range_mid [] decoded (replicate (length raw) 0) [] 0 refl
          (length-replicate {A = ℕ} (length raw) 0 ∙ sym l)
      ∙ ap ok (append-nil (replicate (length raw) 0)) in
    let small : ltb used 4 ≡ false = ground arith in
    (
      used,
      replicate 4 0 ++ (encoded ++ back),
      e,
      omega arith,
      rw (small, cleared)
          (expand-Tokens encoded raw t (used + 1) (replicate 4 0) back []
            (replicate 4 0 ++ (encoded ++ back)) (replicate (length raw) 0) used 4 0 (length raw)
            refl refl refl refl refl (omega arith) (omega arith)),
    )

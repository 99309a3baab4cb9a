-- ===== src/Sparse/Tokens.antt =====
-- The token streams of the SPARSE codec, and what the decompressor makes of one.
use mathlib.Core.List.{append_assoc}
use libmpq.Base.{
  ℕ, zero, suc, ◌+◌, ◌≤◌, ◌<◌, ◌≡◌, sym, ap, ◌∙◌, arith, List, [], ◌∷◌, ◌++◌, some, ok, read_range,
  write_range, get_elem?, replicate, length,
}
use libmpq.Base.Bits.{and_low7, and_top}
use libmpq.Base.Lists.{length-append, length-replicate, get_elem?-append, split_length}
use libmpq.Base.Memory.{read_range_mid, write_range_mid}
use libmpq.Sparse.{token_count, decompress_loop}

-- `Encodes tokens bytes`: a token below 128 stands for a run of zeros, and a larger one comes
-- before the bytes that it announces.
pub data Encodes : List ℕ → List ℕ → Type 0 where
  done : Encodes [] []
  zeros :
      (n : ℕ) {tokens bytes : List ℕ}
      → n < 128
      → Encodes tokens bytes
      → Encodes (n ∷ tokens) (replicate (n + 3) 0 ++ bytes)
  literal :
      (n : ℕ) (copied : List ℕ) {tokens bytes : List ℕ}
      → length copied ≡ n + 1
      → n < 128
      → Encodes tokens bytes
      → Encodes ((128 + n) ∷ (copied ++ tokens)) (copied ++ bytes)

module _ (in_buf : List ℕ) (in_size len : ℕ) where
  decompress_zeros :
      (fuel : ℕ) (out_buf out' : List ℕ) (input output n : ℕ)
      → input < in_size
      → output + (n + 3) ≤ len
      → n < 128
      → get_elem? in_buf input ≡ some n
      → write_range out_buf output (replicate (n + 3) 0) ≡ ok out'
      → decompress_loop (suc fuel) in_buf in_size out_buf len input output
        ≡ decompress_loop fuel in_buf in_size out' len (input + 1) (output + (n + 3))
  unfolding decompress_loop token_count
  decompress_zeros fuel out_buf out' input output n h k small e w =
      ground (arith, and_low7 n, and_top n)

  decompress_literal :
      (fuel : ℕ) (out_buf out' copied : List ℕ) (input output n : ℕ)
      → input + 1 + (n + 1) ≤ in_size
      → output + (n + 1) ≤ len
      → n < 128
      → get_elem? in_buf input ≡ some (128 + n)
      → read_range in_buf (input + 1) (n + 1) ≡ ok copied
      → write_range out_buf output copied ≡ ok out'
      → decompress_loop (suc fuel) in_buf in_size out_buf len input output
        ≡ decompress_loop fuel in_buf in_size out' len (input + 1 + (n + 1)) (output + (n + 1))
  unfolding decompress_loop token_count
  decompress_literal fuel out_buf out' copied input output n h k small e r w =
      ground (arith, and_low7 (128 + n), and_top (128 + n))

pub regroup : (a b c d : List ℕ) → (a ++ b) ++ (c ++ d) ≡ a ++ ((b ++ c) ++ d)
regroup a b c d = simp append_assoc

-- The old bytes that a write of `bytes` behind `written` replaces.
overwritten :
    (written old back bytes rest out_buf : List ℕ) (output : ℕ)
    → out_buf ≡ written ++ (old ++ back)
    → output ≡ length written
    → length old ≡ length (bytes ++ rest)
    → (old' : List ℕ) × (write_range out_buf output bytes
        ≡ ok (written ++ (bytes ++ (old' ++ back))))
      × (length old' ≡ length rest)
overwritten written old back bytes rest out_buf output eo ew l =
    let (old1, old2, split, l1, l2) =
      split_length (length bytes) (length rest) old (l ∙ length-append bytes rest) in
    let e : out_buf ≡ written ++ (old1 ++ (old2 ++ back)) =
      eo
      ∙ ap (λ o. written ++ (o ++ back)) split
      ∙ ap (λ o. written ++ o) (append_assoc old1 old2 back) in
    (old2, rw e (write_range_mid written old1 bytes (old2 ++ back) output ew (sym l1)), l2)

-- From the front of a token stream that ends at `in_size`, the loop writes the bytes that the stream
-- stands for, and stops at the ends of the input and of the output.
pub decompress_loop-Encodes :
    {tokens bytes : List ℕ}
    → Encodes tokens bytes
    → (fuel : ℕ) (in_buf out_buf before tail written old back : List ℕ)
      (in_size len input output : ℕ)
    → in_buf ≡ before ++ (tokens ++ tail)
    → out_buf ≡ written ++ (old ++ back)
    → input ≡ length before
    → output ≡ length written
    → length tokens < fuel
    → in_size ≡ length before + length tokens
    → len ≡ length written + length bytes
    → length old ≡ length bytes
    → decompress_loop fuel in_buf in_size out_buf len input output
      ≡ ok (in_size, len, written ++ (bytes ++ back))
decompress_loop-Encodes done zero in_buf out_buf before tail written old back in_size len input
      output ei eo hi ho f hs hl h =
    absurd (omega arith)
decompress_loop-Encodes done (suc fuel) in_buf out_buf before tail written [] back in_size len input
      output ei eo hi ho f hs hl h =
    unfold decompress_loop in ground arith
decompress_loop-Encodes done (suc fuel) in_buf out_buf before tail written (x ∷ old) back in_size
      len input output ei eo hi ho f hs hl h =
    absurd (omega arith)
decompress_loop-Encodes (zeros n small rest) zero in_buf out_buf before tail written old back
      in_size len input output ei eo hi ho f hs hl h =
    absurd (omega arith)
decompress_loop-Encodes (zeros n {tokens} {bytes} small rest) (suc fuel) in_buf out_buf before tail
      written old back in_size len input output ei eo hi ho f hs hl h =
    let run : List ℕ = replicate (n + 3) 0 in
    let lr : length run ≡ n + 3 = length-replicate (n + 3) 0 in
    let lb : length (run ++ bytes) ≡ length run + length bytes = length-append run bytes in
    let (old', w, lo) = overwritten written old back run bytes out_buf output eo ho h in
    decompress_zeros in_buf in_size len fuel out_buf (written ++ (run ++ (old' ++ back))) input
      output n (omega arith) (omega arith) small
      (rw (ei, hi) (get_elem?-append before n (tokens ++ tail))) w
    ∙ decompress_loop-Encodes rest fuel in_buf (written ++ (run ++ (old' ++ back)))
        (before ++ (n ∷ [])) tail (written ++ run) old' back in_size len (input + 1)
        (output + (n + 3)) (ei ∙ sym (append_assoc before (n ∷ []) (tokens ++ tail)))
        (sym (append_assoc written run (old' ++ back)))
        (omega (arith, length-append before (n ∷ []))) (omega (arith, length-append written run))
        (omega arith) (omega (arith, length-append before (n ∷ [])))
        (omega (arith, length-append written run)) lo
    ∙ ap (λ o. ok (in_size, len, o)) (regroup written run bytes back)
decompress_loop-Encodes (literal n copied ln small rest) zero in_buf out_buf before tail written old
      back in_size len input output ei eo hi ho f hs hl h =
    absurd (omega arith)
decompress_loop-Encodes (literal n copied {tokens} {bytes} ln small rest) (suc fuel) in_buf out_buf
      before tail written old back in_size len input output ei eo hi ho f hs hl h =
    let token : List ℕ = (128 + n) ∷ copied in
    let lt : length (copied ++ tokens) ≡ length copied + length tokens =
      length-append copied tokens in
    let lb : length (copied ++ bytes) ≡ length copied + length bytes = length-append copied bytes in
    let (old', w, lo) = overwritten written old back copied bytes out_buf output eo ho h in
    let ei' : in_buf ≡ (before ++ ((128 + n) ∷ [])) ++ (copied ++ (tokens ++ tail)) =
      ei ∙ simp append_assoc in
    decompress_literal in_buf in_size len fuel out_buf (written ++ (copied ++ (old' ++ back)))
      copied input output n (omega arith) (omega arith) small
      (rw (ei, hi) (get_elem?-append before (128 + n) ((copied ++ tokens) ++ tail)))
      (rw ei' (
        read_range_mid (before ++ ((128 + n) ∷ [])) copied (tokens ++ tail) (input + 1) (n + 1)
          (omega (arith, length-append before ((128 + n) ∷ []))) (sym ln)))
      w
    ∙ decompress_loop-Encodes rest fuel in_buf (written ++ (copied ++ (old' ++ back)))
        (before ++ token) tail (written ++ copied) old' back in_size len (input + 1 + (n + 1))
        (output + (n + 1)) (ei ∙ simp append_assoc)
        (sym (append_assoc written copied (old' ++ back)))
        (omega (arith, length-append before token)) (omega (arith, length-append written copied))
        (omega arith) (omega (arith, length-append before token))
        (omega (arith, length-append written copied)) lo
    ∙ ap (λ o. ok (in_size, len, o)) (regroup written copied bytes back)

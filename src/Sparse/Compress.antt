-- ===== src/Sparse/Compress.antt =====
-- The compressor of src/mpq-sparse.c writes a token stream for its input.
use mathlib.Core.List.{append_assoc}
use libmpq.Base.{
  ℕ, zero, suc, ◌+◌, ◌-◌, ◌≤◌, ◌<◌, ◌≡◌, refl, sym, ◌∙◌, inl, inr, arith, bit_or, Bool, false, ◌&&◌,
  List, [], ◌∷◌, ◌++◌, some, ok, err, unpack_error, read_range, write_range, get_elem?, replicate,
  length, leb, ltb, ◌==◌, Bool-cases, u8, not, ap₂, if◌then◌else◌,
}
use libmpq.Base.Lists.{length-append, get_elem?-append, get_elem?_lt}
use libmpq.Sparse.{zero_run, three_zeros, literal_end, compress_loop}

-- The run counter counts zeros, 130 at most.
pub zero_run-replicate :
    (fuel : ℕ) (in_buf before todo : List ℕ) (in_size input count : ℕ)
    → in_buf ≡ before ++ todo
    → length before ≡ input + count
    → in_size ≡ length before + length todo
    → count ≤ 130
    → 131 ≤ fuel + count
    → (k : ℕ) × (rest : List ℕ) × (zero_run fuel in_buf in_size input count ≡ ok (count + k))
      × (todo ≡ replicate k 0 ++ rest)
      × (count + k ≤ 130)
unfolding zero_run
zero_run-replicate zero in_buf before todo in_size input count ei hb hs h f = absurd (omega arith)
zero_run-replicate (suc fuel) in_buf before [] in_size input count ei hb hs h f =
    (0, [], ground arith, refl, omega arith)
zero_run-replicate (suc fuel) in_buf before (b ∷ todo) in_size input count ei hb hs h f =
    let here : get_elem? in_buf (input + count) ≡ some b =
      rw (ei, ← hb) (get_elem?-append before b todo) in
    elim (Bool-cases (ltb count 130 && (b == 0))) [
      | inl more ↦
          let (k, rest, e, split, le) =
            zero_run-replicate fuel in_buf (before ++ (b ∷ [])) todo in_size input (count + 1)
              (ei ∙ sym (append_assoc before (b ∷ []) todo))
              (omega (arith, length-append before (b ∷ [])))
              (omega (arith, length-append before (b ∷ []))) (ground arith) (omega arith) in
          (suc k, rest, ground (arith, here, e), ap₂ ◌∷◌ (ground arith) split, omega arith)
      | inr stop ↦ (0, b ∷ todo, ground (arith, here), refl, omega arith)
    ]

three_zeros_total :
    (in_buf : List ℕ) (input : ℕ)
    → input + 3 ≤ length in_buf
    → (b : Bool) × (three_zeros in_buf input ≡ ok b)
unfolding three_zeros
three_zeros_total in_buf input h =
    let (b0, e0) = get_elem?_lt in_buf input (omega arith) in
    let (b1, e1) = get_elem?_lt in_buf (input + 1) (omega arith) in
    let (b2, e2) = get_elem?_lt in_buf (input + 2) (omega arith) in
    ((b0 == 0) && ((b1 == 0) && (b2 == 0)), ground (arith, e0, e1, e2))

stop_total :
    (in_buf : List ℕ) (in_size input : ℕ)
    → in_size ≡ length in_buf
    → (b : Bool) × ((if leb 3 (in_size - input) then three_zeros in_buf input else ok false) ≡ ok b)
stop_total in_buf in_size input h = elim (Bool-cases (leb 3 (in_size - input))) [
  | inl room ↦ let (b, e) = three_zeros_total in_buf input (ground arith) in (b, rw room e)
  | inr tight ↦ (false, rw tight)
]

-- A literal takes 1 to 128 bytes of the input.
pub literal_end_bounds :
    (fuel : ℕ) (in_buf : List ℕ) (in_size start input : ℕ)
    → in_size ≡ length in_buf
    → start ≤ input
    → input < in_size
    → input < start + 128
    → start + 128 ≤ fuel + input
    → (e : ℕ) × (literal_end fuel in_buf in_size start input ≡ ok e)
      × (input < e)
      × (e ≤ in_size)
      × (e ≤ start + 128)
unfolding literal_end
literal_end_bounds zero in_buf in_size start input hs hi hl h f = absurd (omega arith)
literal_end_bounds (suc fuel) in_buf in_size start input hs hi hl h f =
    let input' : ℕ = input + 1 in
    let (stop, e) = stop_total in_buf in_size input' hs in
    elim (Bool-cases (not stop && (ltb input' in_size && ltb (input' - start) 128))) [
      | inl more ↦
          let (r, er, lo, hi', top) =
            literal_end_bounds fuel in_buf in_size start input' hs (omega arith) (ground arith)
              (ground arith) (omega arith) in
          (r, ground (arith, e, er), omega arith, hi', top)
      | inr last ↦ (input', ground (arith, e), omega arith, omega arith, omega arith)
    ]

module _ (in_buf : List ℕ) (in_size out_size : ℕ) where
  pub compress_zeros :
      (fuel : ℕ) (out_buf out' : List ℕ) (input output count : ℕ)
      → input < in_size
      → zero_run 131 in_buf in_size input 0 ≡ ok count
      → 3 ≤ count
      → output < out_size
      → write_range out_buf output (u8 (count - 3) ∷ []) ≡ ok out'
      → compress_loop (suc fuel) in_buf in_size out_buf out_size input output
        ≡ compress_loop fuel in_buf in_size out' out_size (input + count) (output + 1)
  unfolding compress_loop
  compress_zeros fuel out_buf out' input output count h e k r w = ground (arith, e, w)

  pub compress_literal :
      (fuel : ℕ) (out_buf out1 out2 bytes : List ℕ) (input output count input' : ℕ)
      → input < in_size
      → zero_run 131 in_buf in_size input 0 ≡ ok count
      → count < 3
      → literal_end 128 in_buf in_size input input ≡ ok input'
      → output + 1 + (input' - input) ≤ out_size
      → write_range out_buf output (u8 (bit_or 0x80 (input' - input - 1)) ∷ []) ≡ ok out1
      → read_range in_buf input (input' - input) ≡ ok bytes
      → write_range out1 (output + 1) bytes ≡ ok out2
      → compress_loop (suc fuel) in_buf in_size out_buf out_size input output
        ≡ compress_loop fuel in_buf in_size out2 out_size input' (output + 1 + (input' - input))
  unfolding compress_loop
  compress_literal fuel out_buf out1 out2 bytes input output count input' h e k l r w1 rd w2 =
      ground (arith, e, l, w1, rd, w2)

  -- The two refusals for want of room.
  pub compress_zeros_full :
      (fuel : ℕ) (out_buf : List ℕ) (input output count : ℕ)
      → input < in_size
      → zero_run 131 in_buf in_size input 0 ≡ ok count
      → 3 ≤ count
      → output ≡ out_size
      → compress_loop (suc fuel) in_buf in_size out_buf out_size input output ≡ err unpack_error
  unfolding compress_loop
  compress_zeros_full fuel out_buf input output count h e k r = ground (arith, e)

  pub compress_literal_full :
      (fuel : ℕ) (out_buf : List ℕ) (input output count input' : ℕ)
      → input < in_size
      → zero_run 131 in_buf in_size input 0 ≡ ok count
      → count < 3
      → literal_end 128 in_buf in_size input input ≡ ok input'
      → output ≤ out_size
      → out_size < output + 1 + (input' - input)
      → compress_loop (suc fuel) in_buf in_size out_buf out_size input output ≡ err unpack_error
  unfolding compress_loop
  compress_literal_full fuel out_buf input output count input' h e k l r s = ground (arith, e, l)

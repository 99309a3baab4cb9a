-- ===== src/EntryTable.antt =====
-- The loops that src/mpq-hash.c and src/mpq-block.c run over tables of fixed-size entries. `load`
-- and `store` are the accesses to one entry, of `wire_size` bytes.
use libmpq.Base.{
  ℕ, zero, suc, ◌+◌, ◌-◌, ◌*◌, ◌/◌, ◌^◌, ◌≤◌, ◌≡◌, refl, sym, ap, ◌∙◌, arith, Bool, ◌&&◌, ◌||◌, not,
  List, [], ◌∷◌, ◌++◌, Option, none, some, Pointer, Outcome, ok, err, fault, size_error, is_null,
  at_offset, ◌>>=◌, ◌==◌, ltb, if◌then◌else◌, drop, length, All, ◌<◌, ◌⊎◌, inl, inr, true, false,
}
use mathlib.Core.List.{append_assoc}
use libmpq.Base.Lists.{drop-append, length-append, length-drop}
use libmpq.Base.Memory.{at_offset-append, split_at}

-- `SIZE_MAX` of a 64-bit host.
abbrev pub size_max : ℕ
size_max = 2 ^ 64 - 1

abbrev pub bytes_of {ℓ} : {A : Type ℓ} → Option (List A) → List A
bytes_of none = []
bytes_of (some buf) = buf

-- `entry_count > SIZE_MAX / wire_size || size < entry_count * wire_size ||
-- (entry_count != 0 && (input == NULL || entries == NULL))`
abbrev pub refused {ℓ κ} : {A : Type ℓ} {B : Type κ} → ℕ → ℕ → ℕ → Option A → Option B → Bool
refused wire_size entry_count size from to =
    ltb (size_max / wire_size) entry_count
    || ltb size (entry_count * wire_size)
    || (not (entry_count == 0) && (is_null from || is_null to))

module _ {A : Type 0} (wire_size : ℕ) where
  -- `entries[i]` is assigned from the wire bytes at `input + i * wire_size`.
  unfoldable pub decode_loop : (List ℕ → Outcome A) → ℕ → List ℕ → List A → Outcome (List A)
  decode_loop load zero input entries = ok entries
  decode_loop load (suc left) input [] = fault
  decode_loop load (suc left) input (_ ∷ entries) = do
    entry ← load input
    rest ← decode_loop load left (drop wire_size input) entries
    ok (entry ∷ rest)

  unfoldable pub encode_loop :
      (A → List ℕ → Outcome (List ℕ)) → ℕ → List A → List ℕ → Outcome (List ℕ)
  encode_loop store zero entries output = ok output
  encode_loop store (suc left) [] output = fault
  encode_loop store (suc left) (entry ∷ entries) output = do
    output' ← store entry output
    at_offset wire_size (encode_loop store left entries) output'

  unfoldable pub table_decode :
      (List ℕ → Outcome A) → Pointer → ℕ → Option (List A) → ℕ → Outcome (List A)
  unfolding decode_loop
  table_decode load input input_size entries entry_count =
      if refused wire_size entry_count input_size input entries
      then err size_error
      else decode_loop load entry_count (bytes_of input) (bytes_of entries)

  unfoldable pub table_encode :
      (A → List ℕ → Outcome (List ℕ)) → Option (List A) → ℕ → Pointer → ℕ → Outcome (List ℕ)
  unfolding encode_loop
  table_encode store entries entry_count output output_size =
      if refused wire_size entry_count output_size entries output
      then err size_error
      else encode_loop store entry_count (bytes_of entries) (bytes_of output)

-- The guards with both pointers given.
accepted_iff :
    {A : Type 0} {B : Type 0} (wire_size entry_count size : ℕ) (a : A) (b : B)
    → (entry_count ≤ size_max / wire_size)
        × (entry_count * wire_size ≤ size)
        × (refused wire_size entry_count size (some a) (some b) ≡ false)
      ⊎ ((size_max / wire_size < entry_count) ⊎ (size < entry_count * wire_size))
        × (refused wire_size entry_count size (some a) (some b) ≡ true)
accepted_iff wire_size entry_count size a b = ground arith

accepted :
    {A : Type 0} {B : Type 0} (wire_size entry_count size : ℕ) (a : A) (b : B)
    → entry_count ≤ size_max / wire_size
    → entry_count * wire_size ≤ size
    → refused wire_size entry_count size (some a) (some b) ≡ false
accepted wire_size entry_count size a b few fits = ground arith

-- What makes the accesses to one entry undo one another: the entry has a wire form, which the store
-- writes over any `wire_size` bytes, and which the load reads before any others.
pub record EntryCodec {A : Type 0} (wire_size : ℕ) (load : List ℕ → Outcome A)
    (store : A → List ℕ → Outcome (List ℕ)) (Good : A → Type 0) : Type 0 where
  pub wire : A → List ℕ
  pub wire_length : (a : A) → length (wire a) ≡ wire_size
  pub stores :
      (a : A) (front back : List ℕ)
      → length front ≡ wire_size
      → store a (front ++ back) ≡ ok (wire a ++ back)
  pub loads : (a : A) (back : List ℕ) → Good a → load (wire a ++ back) ≡ ok a
  pub load_total : (buf : List ℕ) → wire_size ≤ length buf → (a : A) × (load buf ≡ ok a)

module _ {A : Type 0} (wire_size : ℕ) (load : List ℕ → Outcome A)
    (store : A → List ℕ → Outcome (List ℕ)) (Good : A → Type 0)
    (codec : EntryCodec wire_size load store Good) where
  open codec use {wire, wire_length, stores, loads, load_total}

  wires : List A → List ℕ
  wires [] = []
  wires (a ∷ es) = wire a ++ wires es

  encode_one :
      (a : A) (es : List A) (front back : List ℕ) {rest : List ℕ}
      → length front ≡ wire_size
      → encode_loop wire_size store (length es) es back ≡ ok rest
      → encode_loop wire_size store (suc (length es)) (a ∷ es) (front ++ back) ≡ ok (wire a ++ rest)
  unfolding encode_loop
  encode_one a es front back len e =
      rw (stores a front back len)
        (at_offset-append (wire a) back wire_size _ (sym (wire_length a)) e)

  encode_loop-wires :
      (entries : List A) (output : List ℕ)
      → length entries * wire_size ≤ length output
      → (back : List ℕ) × (encode_loop wire_size store (length entries) entries output
          ≡ ok (wires entries ++ back))
        × (length (wires entries ++ back) ≡ length output)
  unfolding encode_loop wires
  encode_loop-wires [] output h = (output, refl, refl)
  encode_loop-wires (a ∷ es) output h =
      let (front, back, split, len) = split_at wire_size output (omega arith) in
      let total : length output ≡ wire_size + length back =
        ap length split ∙ length-append front back ∙ ap (λ n. n + length back) len in
      let (back', e, l) = encode_loop-wires es back (omega arith) in
      (
        back',
        ap (encode_loop wire_size store (suc (length es)) (a ∷ es)) split
            ∙ encode_one a es front back len e
            ∙ ap ok (sym (append_assoc (wire a) (wires es) back')),
        rw (append_assoc (wire a) (wires es) back')
            (omega (arith, length-append (wire a) (wires es ++ back'), wire_length a, total, l)),
      )

  decode_loop-wires :
      (entries old : List A) (back : List ℕ)
      → All Good entries
      → length old ≡ length entries
      → decode_loop wire_size load (length entries) (wires entries ++ back) old ≡ ok entries
  unfolding decode_loop wires
  decode_loop-wires [] [] back g h = refl
  decode_loop-wires [] (x ∷ old) back g h = absurd (omega arith)
  decode_loop-wires (a ∷ es) [] back g h = absurd (omega arith)
  decode_loop-wires (a ∷ es) (x ∷ old) back g h =
      let after : List ℕ = wires es ++ back in
      let later : decode_loop wire_size load (length es) (drop wire_size (wire a ++ after)) old
          ≡ ok es =
        ap (λ k. decode_loop wire_size load (length es) (drop k (wire a ++ after)) old)
          (sym (wire_length a))
        ∙ ap (λ buf. decode_loop wire_size load (length es) buf old) (drop-append (wire a) after)
        ∙ decode_loop-wires es old back g.1 (omega arith) in
      rw (append_assoc (wire a) (wires es) back, loads a after g.0, later)

  -- A table of entries encodes into any buffer that holds it, and decodes from there to itself.
  pub table_decode-table_encode :
      (entries old : List A) (output : List ℕ) (output_size : ℕ)
      → All Good entries
      → length old ≡ length entries
      → length entries ≤ size_max / wire_size
      → length entries * wire_size ≤ output_size
      → output_size ≤ length output
      → (out : List ℕ) × (table_encode wire_size store
            (some entries)
            (length entries)
            (some output)
            output_size
          ≡ ok out)
        × (table_decode wire_size load (some out) output_size (some old) (length entries)
            ≡ ok entries)
        × (length out ≡ length output)
  unfolding table_encode table_decode
  table_decode-table_encode entries old output output_size g same few fits room =
      let (back, e, l) = encode_loop-wires entries output (omega arith) in
      (
        wires entries ++ back,
        rw (accepted wire_size (length entries) output_size entries output few fits) e,
        rw (accepted wire_size (length entries) output_size (wires entries ++ back) old few fits)
            (decode_loop-wires entries old back g same),
        l,
      )

  -- Decoding never reads outside the input nor writes outside the array of entries.
  decode_loop_total :
      (left : ℕ) (input : List ℕ) (old : List A)
      → left * wire_size ≤ length input
      → left ≤ length old
      → (entries : List A) × (decode_loop wire_size load left input old ≡ ok entries)
        × (length entries ≡ length old)
  unfolding decode_loop
  decode_loop_total zero input old h k = (old, refl, refl)
  decode_loop_total (suc left) input [] h k = absurd (omega arith)
  decode_loop_total (suc left) input (_ ∷ old) h k =
      let (a, ea) = load_total input (omega arith) in
      let (es, e, l) =
        decode_loop_total left (drop wire_size input) old
          (omega (arith, length-drop wire_size input)) (omega arith) in
      (a ∷ es, rw (ea, e), ap suc l)

  pub table_decode_total :
      (input : List ℕ) (input_size : ℕ) (old : List A) (entry_count : ℕ)
      → input_size ≤ length input
      → entry_count ≤ length old
      → (table_decode wire_size load (some input) input_size (some old) entry_count
            ≡ err size_error)
          × ((size_max / wire_size < entry_count) ⊎ (input_size < entry_count * wire_size))
        ⊎ (entry_count ≤ size_max / wire_size)
          × (entry_count * wire_size ≤ input_size)
          × ((entries : List A) × (table_decode wire_size load
                  (some input)
                  input_size
                  (some old)
                  entry_count
                ≡ ok entries)
              × (length entries ≡ length old))
  unfolding table_decode
  table_decode_total input input_size old entry_count h k =
      elim (accepted_iff wire_size entry_count input_size input old) [
        | inl (few, fits, good) ↦
            let (es, e, l) = decode_loop_total entry_count input old (omega arith) k in
            inr (few, fits, (es, rw good e, l))
        | inr (why, bad) ↦ inl (rw bad, why)
      ]

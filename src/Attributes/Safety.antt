-- ===== src/Attributes/Safety.antt =====
-- The parser of src/mpq-attributes.c on any bytes, and its decoder on any view that it accepts.
use libmpq.Base.{
  ℕ, ◌+◌, ◌-◌, ◌*◌, ◌/◌, ◌%◌, ◌^◌, ◌≤◌, ◌<◌, ◌≡◌, ◌⊎◌, refl, sym, ap, ◌∙◌, inl, inr, arith, bit_and,
  true, false, ◌&&◌, ◌||◌, not, List, some, Outcome, ok, err, format_error, length, ◌==◌, ltb, leb,
  Bool-cases, if◌then◌else◌, get_elem?_lt, drop, take, length-drop, ◌>>>◌, ◌<<<◌, bit_or,
}
use libmpq.Base.Memory.{read_range}
use libmpq.Base.Bits.{and_and}
use libmpq.Endian.{load_le64}
use libmpq.Endian.RoundTrip.{load_le32_total}
use libmpq.Writer.{FileAttributes}
use libmpq.Attributes.{
  View, is_set, without, get_crc32, get_filetime, get_md5, get_patch_bit, attributes_get,
  attributes_parse, no_attributes, candidate_of, attributes_version, any_nonzero,
}
use libmpq.Attributes.Layout.{Fits, match_layouts-Attempt}

-- A flag that is left after another is taken away was there.
set-without :
    (flags bit other : ℕ) → is_set (without flags other) bit ≡ true → is_set flags bit ≡ true
set-without flags bit other e = elim (Bool-cases (bit_and flags bit == 0)) [
  | inr f ↦ rw f refl
  | inl t ↦
      let none : bit_and flags bit ≡ 0 = ground arith in
      let none' : bit_and (without flags other) bit ≡ 0 =
        and_and flags (2 ^ 32 - 1 - other) bit none in
      absurd (ground (arith, none'))
]

load_le64_total : (buf : List ℕ) → 8 ≤ length buf → (v : ℕ) × (load_le64 (some buf) ≡ ok v)
unfolding load_le64
load_le64_total buf room =
    let (low, el) = load_le32_total buf (omega arith) in
    let (high, eh) = load_le32_total (drop 4 buf) (omega (arith, length-drop 4 buf)) in
    (bit_or low (high <<< 32), rw (el, eh) refl)

read_range_total :
    (buf : List ℕ) (i n : ℕ)
    → i + n ≤ length buf
    → (bytes : List ℕ) × (read_range buf i n ≡ ok bytes)
unfolding read_range
read_range_total buf i n room =
    let e : leb (i + n) (length buf) ≡ true = ground arith in (take n (drop i buf), rw e refl)

-- A step that ends and keeps the flags.
Ends : FileAttributes → Outcome FileAttributes → Type 0
Ends result run = (after : FileAttributes) × (run ≡ ok after) × (after.flags ≡ result.flags)

module _ (data_in : List ℕ) (flags : ℕ) (view : View) (fits : Fits data_in flags view) (index : ℕ)
    (small : index < view.entries) where
  get_crc32-Ends :
      (result : FileAttributes)
      → (is_set result.flags 1 ≡ true → is_set flags 1 ≡ true)
      → Ends result (get_crc32 view index result)
  unfolding get_crc32 Ends
  get_crc32-Ends result had = elim (Bool-cases (is_set result.flags 1)) [
    | inr f ↦ (result, rw f refl, refl)
    | inl t ↦
        let (same, ef, base, arrays, room) = fits in
        let at : ℕ = view.offset0 + index * 4 in
        let inside : at + 4 ≤ length data_in = omega (arith, arrays.0 (had t)) in
        let (v, run) = load_le32_total (drop at data_in) (omega (arith, length-drop at data_in)) in
        (record result { crc32 = v }, rw (t, same, run) refl, refl)
  ]

  get_filetime-Ends :
      (result : FileAttributes)
      → (is_set result.flags 2 ≡ true → is_set flags 2 ≡ true)
      → Ends result (get_filetime view index result)
  unfolding get_filetime Ends
  get_filetime-Ends result had = elim (Bool-cases (is_set result.flags 2)) [
    | inr f ↦ (result, rw f refl, refl)
    | inl t ↦
        let (same, ef, base, arrays, room) = fits in
        let at : ℕ = view.offset1 + index * 8 in
        let inside : at + 8 ≤ length data_in = omega (arith, arrays.1 (had t)) in
        let (v, run) = load_le64_total (drop at data_in) (omega (arith, length-drop at data_in)) in
        (record result { filetime = v }, rw (t, same, run) refl, refl)
  ]

  get_md5_ends :
      (result : FileAttributes)
      → (is_set result.flags 4 ≡ true → is_set flags 4 ≡ true)
      → (after : FileAttributes) × (get_md5 view index result ≡ ok after)
  unfolding get_md5
  get_md5_ends result had = elim (Bool-cases (is_set result.flags 4)) [
    | inr f ↦ (result, rw f refl)
    | inl t ↦
        let (same, ef, base, arrays, room) = fits in
        let at : ℕ = view.offset2 + index * 16 in
        let inside : at + 16 ≤ length data_in = omega (arith, arrays.2 (had t)) in
        let (bytes, run) = read_range_total data_in at 16 inside in
        (
          record result {
            md5 = bytes;
            flags = if any_nonzero bytes 0 == 0 then without result.flags 4 else result.flags;
          },
          rw (t, same, run) refl,
        )
  ]

  get_patch_bit_ends :
      (result : FileAttributes)
      → (after : FileAttributes) × (get_patch_bit view index result ≡ ok after)
  unfolding get_patch_bit
  get_patch_bit_ends result =
      let (same, ef, base, arrays, room) = fits in
      elim (Bool-cases (is_set view.flags 8)) [
        | inr f ↦ (result, rw f refl)
        | inl t ↦ elim (Bool-cases (ltb index view.patch_bits)) [
          | inl less ↦
              let inside : view.offset3 + index / 8 < length data_in =
                ground (arith, arrays.3, room) in
              let (byte, at) = get_elem?_lt data_in (view.offset3 + index / 8) inside in
              (
                record result {
                  flags = bit_or result.flags 8;
                  patch_bit = if bit_and byte (0x80 >>> (index % 8)) == 0 then 0 else 1;
                },
                rw (t, less, same, at) refl,
              )
          | inr more ↦
              elim (Bool-cases ((index == view.self) && not (view.patch_self_omitted == 0))) [
                | inl own ↦
                    (record result { flags = bit_or result.flags 8 }, rw (t, more, own) refl)
                | inr other ↦ (result, rw (t, more, other) refl)
              ]
        ]
      ]

  known_entry : (after : FileAttributes) × (attributes_get view index ≡ ok after)
  unfolding attributes_get Ends
  known_entry =
      let start : FileAttributes = record no_attributes { flags = without view.flags 8 } in
      let had : (bit : ℕ) → is_set (without view.flags 8) bit ≡ true → is_set flags bit ≡ true =
        λ bit e. ap (λ f. is_set f bit) (sym fits.1) ∙ set-without view.flags bit 8 e in
      let (crc32, run1, same1) = get_crc32-Ends start (had 1) in
      let (filetime, run2, same2) =
        get_filetime-Ends crc32 (λ e. had 2 (ap (λ f. is_set f 2) (sym same1) ∙ e)) in
      let (md5, run3) =
        get_md5_ends filetime
          (λ e. had 4 (ap (λ f. is_set f 4) (sym same1) ∙ ap (λ f. is_set f 4) (sym same2) ∙ e)) in
      let (result, run4) = get_patch_bit_ends md5 in
      let e : leb view.entries index ≡ false = ground arith in
      (result, rw (e, run1, run2, run3, run4) refl)

attributes_get_total :
    (data_in : List ℕ) (flags : ℕ) (view : View)
    → Fits data_in flags view
    → (index : ℕ) → (after : FileAttributes) × (attributes_get view index ≡ ok after)
unfolding attributes_get
attributes_get_total data_in flags view fits index = elim (Bool-cases (leb view.entries index)) [
  | inl e ↦ (no_attributes, rw e refl)
  | inr e ↦ known_entry data_in flags view fits index (ground arith)
]

-- For any bytes, the parser of `(attributes)`, for less than 2^32 blocks, reads inside the payload
-- and either fails with a format error or gives a view, from which the decoder gives the
-- attributes of every index without a read outside the payload.
pub attributes_parse_safe :
    (data_in : List ℕ) (count self : ℕ)
    → count < 2 ^ 32
    → (attributes_parse (some data_in) (length data_in) count self ≡ err format_error)
      ⊎ ((view : View) × (attributes_parse (some data_in) (length data_in) count self ≡ ok view)
          × ((index : ℕ) → (result : FileAttributes) × (attributes_get view index ≡ ok result)))
unfolding attributes_parse
attributes_parse_safe data_in count self small =
    elim (Bool-cases (ltb (length data_in) 8 || (count == 0) || leb count self)) [
      | inl e ↦ inl (rw e refl)
      | inr e ↦
          let room : 8 ≤ length data_in = ground arith in
          let (version, ev) = load_le32_total data_in (omega arith) in
          let (flags, ef) =
            load_le32_total (drop 4 data_in) (omega (arith, length-drop 4 data_in)) in
          elim (Bool-cases (version == attributes_version)) [
            | inr e1 ↦ inl (rw (e, ev, e1) refl)
            | inl e1 ↦ elim (Bool-cases (is_set flags (2 ^ 32 - 1 - 0x0f))) [
              | inl e2 ↦ inl (rw (e, ev, e1, ef, e2) refl)
              | inr e2 ↦
                  elim (match_layouts-Attempt data_in flags count (candidate_of data_in flags self)
                    small (refl, refl, refl)) [
                      | inl (v, run, none) ↦ inl (rw (e, ev, e1, ef, e2, run) refl)
                      | inr (v, run, fits) ↦ inr (
                        v,
                        rw (e, ev, e1, ef, e2, run) refl,
                        attributes_get_total data_in flags v fits,
                      )
                    ]
            ]
          ]
    ]

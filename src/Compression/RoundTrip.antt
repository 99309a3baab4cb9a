-- ===== src/Compression/RoundTrip.antt =====
-- Sectors through `libmpq__compression_encode_sector` and back, src/mpq-compression.c.
use mathlib.Core.Path.{subst}
use libmpq.Base.{
  ℕ, ◌+◌, ◌-◌, ◌≤◌, ◌<◌, ◌≡◌, ◌≢◌, ◌⊎◌, refl, sym, ap, ◌∙◌, inl, inr, arith, true, false, ◌&&◌,
  List, [], ◌∷◌, ◌++◌, ok, length, ltb, leb, ◌==◌, ==_iff, Bool-cases,
}
use libmpq.Base.Integers.{pos}
use libmpq.Compression.{
  Method, flag_of, has, Codecs, Policy, lzma_selector, version_two, compression_allowed,
  allowed_mask, encode_sector, finish_sector, writer_order,
}
use libmpq.Sparse.{int32_max}
use libmpq.Compression.Lzma.{lzma_method, LzmaRet, lzma_error, lzma_overhead}
use libmpq.Compression.Lzma.Frame.{LzmaLaws, encode_lzma-Framed}
use libmpq.Compression.Decode.{decompress_block, compress_multi}
use libmpq.Compression.Decode.Stages.{Chain, raw, staged}
use libmpq.Compression.Decode.Selection.{mask_after, chosen, Selects, mask_after-Selects}
use libmpq.Compression.Decode.Blocks.{
  decompress_block-raw, decompress_block-Chain, decompress_block-lzma,
}
use libmpq.Compression.Emitted.{Lossless, Saves, encode_loop-Emits}

Chain-raw :
    {c : Codecs} {input packed : List ℕ} {ms : List Method}
    → Chain c input ms packed
    → ms ≡ []
    → packed ≡ input
Chain-raw raw e = refl
Chain-raw (staged m unpacks shorter chain) e = cc

-- The special method is never an allowed chain of version two.
allowed-lzma_method :
    (format_version mask : ℕ) (policy : Policy)
    → compression_allowed format_version mask policy ≡ true
    → (leb version_two format_version && (mask == lzma_method)) ≡ false
unfolding compression_allowed allowed_mask flag_of
allowed-lzma_method format_version mask policy allowed =
    elim (Bool-cases (leb version_two format_version)) [
      | inr e ↦ rw e refl
      | inl e ↦ elim (Bool-cases (mask == lzma_method)) [
        | inr e' ↦ rw (e, e') refl
        | inl e' ↦
            let em : mask ≡ lzma_method = (==_iff mask lzma_method).0 e' in
            let refused : compression_allowed format_version lzma_method policy ≡ false =
              elim (Bool-cases (ltb version_two format_version)) [
                | inl newer ↦ rw newer refl
                | inr newer ↦ rw (newer, e) refl
              ] in
            absurd (cc)
      ]
    ]

no_methods : (ms : List Method) → (length ms == 0) ≡ true → ms ≡ []
no_methods [] e = refl
no_methods (m ∷ ms) e = absurd (ground arith)

saved_two :
    {ms : List Method} (n k : ℕ) → ((ms ≡ []) ⊎ (n + 2 ≤ k)) → (length ms == 0) ≡ false → n + 2 ≤ k
saved_two n k (inl e) some_stage = absurd (ground (arith, ap length e))
saved_two n k (inr shorter) some_stage = shorter

-- The result of the encoder decodes to the input.
abbrev pub IsRestored : Codecs → ℕ → List ℕ → List ℕ → List ℕ × ℕ → Type 0
IsRestored c format_version input old (out, mask) =
    (length out ≤ length input)
    × ((after : List ℕ) × (decompress_block c out (length out) old (length input) compress_multi
            format_version
          ≡ ok (pos (length input), input ++ after)))

raw-IsRestored :
    (c : Codecs) (format_version : ℕ) (input old : List ℕ)
    → length input ≤ int32_max
    → length input ≤ length old
    → IsRestored c format_version input old (input, 0)
raw-IsRestored c format_version input old small room =
    (omega arith, decompress_block-raw c input old format_version small room)

-- A chain that is kept behind its mask.
kept-IsRestored :
    {c : Codecs} (format_version mask : ℕ) (policy : Policy) {input packed : List ℕ}
    {ms : List Method} (old : List ℕ)
    → Chain c input ms packed
    → Selects mask ms
    → compression_allowed format_version mask policy ≡ true
    → 0 < length ms
    → length packed + 2 ≤ length input
    → length input ≤ length old
    → IsRestored c format_version input old (mask ∷ packed, mask)
kept-IsRestored {c} format_version mask policy {input} {packed} {ms} old chain selects allowed
      some_stage shorter room =
    (
      omega arith,
      decompress_block-Chain mask format_version old chain selects.0 selects.1 some_stage
          (allowed-lzma_method format_version mask policy allowed) (omega arith) room,
    )

finish_sector-IsRestored :
    (c : Codecs) (input packed old : List ℕ) (mask format_version : ℕ) (policy : Policy)
    (ms : List Method)
    → Selects mask ms
    → Saves c input ms packed
    → length input ≤ int32_max
    → length input ≤ length old
    → IsRestored c format_version input old
        (finish_sector input format_version policy (packed, mask))
unfolding finish_sector
finish_sector-IsRestored c input packed old mask format_version policy ms selects saves small room =
    let restored : List ℕ × ℕ → Type 0 = IsRestored c format_version input old in
    elim (Bool-cases (compression_allowed format_version mask policy)) [
      | inr e ↦
          let same : finish_sector input format_version policy (packed, mask) ≡ (input, 0) =
            rw e refl in
          subst restored (sym same) (raw-IsRestored c format_version input old small room)
      | inl e ↦ elim (Bool-cases (length ms == 0)) [
        | inl none ↦
            let empty : ms ≡ [] = no_methods ms none in
            let zero_mask : (mask == 0) ≡ true = rw none at selects.2 in
            let same : finish_sector input format_version policy (packed, mask) ≡ (input, 0) =
              rw (e, zero_mask, Chain-raw saves.0 empty) refl in
            subst restored (sym same) (raw-IsRestored c format_version input old small room)
        | inr some_stage ↦
            let shorter : length packed + 2 ≤ length input =
              saved_two (length packed) (length input) saves.1 some_stage in
            let other : (mask == 0) ≡ false = ground (arith, selects.2) in
            let wins : leb (length input) (length packed + 1) ≡ false = ground arith in
            let same : finish_sector input format_version policy (packed, mask)
                ≡ (mask ∷ packed, mask) =
              rw (e, other, wins) refl in
            subst restored (sym same) (
              kept-IsRestored format_version mask policy old saves.0 selects e (ground arith)
                shorter room)
      ]
    ]

-- A sector of at least two and at most 2^31 - 1 bytes, with an allowed request other than that of
-- LZMA, whose requested codecs each decode the streams that they make of at most 2^31 - 1 bytes,
-- is encoded, into at most as many bytes, and decoding exactly these as a multi-compressed block,
-- into a buffer with room for the sector, gives its size and its bytes.
pub decompress_block-encode_sector :
    (c : Codecs) (input old : List ℕ) (requested format_version : ℕ) (policy : Policy)
    → ((m : Method) → has requested m ≡ true → Lossless c m)
    → compression_allowed format_version requested policy ≡ true
    → requested ≢ lzma_selector
    → 2 ≤ length input
    → length input ≤ int32_max
    → length input ≤ length old
    → (out : List ℕ) × (mask : ℕ) × (encode_sector c input requested format_version policy
        ≡ ok (out, mask))
      × IsRestored c format_version input old (out, mask)
unfolding encode_sector
decompress_block-encode_sector c input old requested format_version policy lossless allowed chain
      large small room =
    let (kept, packed, long, run, saves) =
      encode_loop-Emits c input large small requested lossless writer_order [] input 0
        (raw, inl refl) in
    let e : (requested == lzma_selector) ≡ false = ground (arith, chain) in
    let result : List ℕ × ℕ =
      finish_sector input format_version policy (packed, mask_after kept writer_order 0) in
    (
      result.0,
      result.1,
      rw (allowed, e, run) refl,
      finish_sector-IsRestored c input packed old (mask_after kept writer_order 0) format_version
          policy (chosen kept writer_order []) (mask_after-Selects kept long) saves small room,
    )

-- The selector of LZMA is allowed from version two on.
lzma_version :
    (format_version : ℕ) (policy : Policy)
    → compression_allowed format_version lzma_selector policy ≡ true
    → leb version_two format_version ≡ true
unfolding compression_allowed
lzma_version format_version policy allowed = elim (Bool-cases (ltb version_two format_version)) [
  | inl e ↦ ground (arith, e)
  | inr e ↦
      let same : compression_allowed format_version lzma_selector policy
          ≡ leb version_two format_version =
        rw e refl in
      sym same ∙ allowed
]

-- Under the laws of liblzma that the code relies on, a sector of at most 2^31 - 1 bytes is, where
-- the selector of LZMA is allowed, encoded into at most as many bytes, and decoding exactly these
-- as a multi-compressed block, into a buffer with room for the sector, gives its size and its
-- bytes; or the encoder of liblzma has failed, and the result is the error for its code.
pub decompress_block-encode_lzma :
    (c : Codecs) (input old : List ℕ) (format_version : ℕ) (policy : Policy)
    → LzmaLaws c.lzma
    → compression_allowed format_version lzma_selector policy ≡ true
    → length input ≤ int32_max
    → length input ≤ length old
    → ((out : List ℕ) × (mask : ℕ) × (encode_sector c input lzma_selector format_version policy
          ≡ ok (out, mask))
        × IsRestored c format_version input old (out, mask))
      ⊎ ((ret : LzmaRet) × (c.lzma.raw_encode input (length input - lzma_overhead - 1) ≡ inl ret)
          × (encode_sector c input lzma_selector format_version policy ≡ lzma_error ret))
unfolding encode_sector
decompress_block-encode_lzma c input old format_version policy laws allowed small room =
    let newer : leb version_two format_version ≡ true =
      lzma_version format_version policy allowed in
    elim (encode_lzma-Framed c.lzma laws input old small room) [
      | inr (ret, failed, run) ↦ inr (ret, failed, rw allowed run)
      | inl (out, mask, run, inl (same, none)) ↦ inl (
        out,
        mask,
        rw allowed run,
        rw same (raw-IsRestored c format_version input old small room),
      )
      | inl (out, mask, run, inr (rest, eo, em, shorter, after, decoded)) ↦ inl (
        out,
        mask,
        rw allowed run,
        rw eo (
          omega arith,
          (
            after,
            decompress_block-lzma c format_version (length rest) rest old (input ++ after)
                (length input) newer shorter decoded,
          ),
        ),
      )
    ]

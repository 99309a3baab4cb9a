-- ===== src/BlockTable/Wire.antt =====
-- The wire form of block-table entries: round trip.
use libmpq.Base.{
  ℕ, ◌*◌, ◌/◌, ◌≤◌, ◌≡◌, refl, arith, List, [], ◌∷◌, ◌++◌, some, ok, length, All, IsU16, IsU32,
}
use libmpq.Endian.{load_le16, load_le32, store_le16, store_le32}
use libmpq.Endian.RoundTrip.{split_le16, split_le32, le16_bytes, le32_bytes}
use libmpq.EntryTable.{EntryCodec, size_max, table_decode-table_encode}
use libmpq.BlockTable.{
  MpqBlock, MpqBlockEx, block_entry_wire_size, block_ex_entry_wire_size, load_block, store_block,
  load_block_ex, store_block_ex, block_table_decode, block_table_encode, block_ex_table_decode,
  block_ex_table_encode,
}

-- The fields fit their C types.
pub record IsBlock (e : MpqBlock) : Type 0 where
  pub offset_fits : IsU32 e.offset
  pub packed_fits : IsU32 e.packed_size
  pub unpacked_fits : IsU32 e.unpacked_size
  pub flags_fit : IsU32 e.flags

pub record IsBlockEx (e : MpqBlockEx) : Type 0 where
  pub high_fits : IsU16 e.offset_high

block_wire : MpqBlock → List ℕ
block_wire e =
    le32_bytes e.offset
      (le32_bytes e.packed_size (le32_bytes e.unpacked_size (le32_bytes e.flags [])))

store_block-wire :
    (e : MpqBlock) (front back : List ℕ)
    → length front ≡ 16
    → store_block e (front ++ back) ≡ ok (block_wire e ++ back)
unfolding store_block block_wire store_le32
store_block-wire e (_ ∷ _ ∷ _ ∷ _ ∷ _ ∷ _ ∷ _ ∷ _ ∷ _ ∷ _ ∷ _ ∷ _ ∷ _ ∷ _ ∷ _ ∷ _ ∷ []) back h =
    refl
store_block-wire e _ back h = absurd (omega arith)

load_block-wire :
    (e : MpqBlock) (back : List ℕ) → IsBlock e → load_block (block_wire e ++ back) ≡ ok e
unfolding load_block block_wire load_le32
load_block-wire e back v = rw (
  split_le32 e.offset v.offset_fits,
  split_le32 e.packed_size v.packed_fits,
  split_le32 e.unpacked_size v.unpacked_fits,
  split_le32 e.flags v.flags_fit,
)

load_block_total : (buf : List ℕ) → 16 ≤ length buf → (e : MpqBlock) × (load_block buf ≡ ok e)
unfolding load_block load_le32
load_block_total (_ ∷ _ ∷ _ ∷ _ ∷ _ ∷ _ ∷ _ ∷ _ ∷ _ ∷ _ ∷ _ ∷ _ ∷ _ ∷ _ ∷ _ ∷ _ ∷ rest) h =
    (_, refl)
load_block_total _ h = absurd (omega arith)

abbrev block_codec : EntryCodec block_entry_wire_size load_block store_block IsBlock
block_codec = record {
  wire = block_wire;
  wire_length = λ e. unfold block_wire in refl;
  stores = store_block-wire;
  loads = load_block-wire;
  load_total = load_block_total;
}

store_block_ex-wire :
    (e : MpqBlockEx) (front back : List ℕ)
    → length front ≡ 2
    → store_block_ex e (front ++ back) ≡ ok (le16_bytes e.offset_high [] ++ back)
unfolding store_block_ex store_le16
store_block_ex-wire e (_ ∷ _ ∷ []) back h = refl
store_block_ex-wire e _ back h = absurd (omega arith)

load_block_ex_total :
    (buf : List ℕ) → 2 ≤ length buf → (e : MpqBlockEx) × (load_block_ex buf ≡ ok e)
unfolding load_block_ex load_le16
load_block_ex_total (_ ∷ _ ∷ rest) h = (_, refl)
load_block_ex_total _ h = absurd (omega arith)

abbrev block_ex_codec : EntryCodec block_ex_entry_wire_size load_block_ex store_block_ex IsBlockEx
block_ex_codec = record {
  wire = λ e. le16_bytes e.offset_high [];
  wire_length = λ e. refl;
  stores = store_block_ex-wire;
  loads = λ e back v. unfold load_block_ex load_le16 in rw (split_le16 e.offset_high v.high_fits);
  load_total = load_block_ex_total;
}

-- Entries whose fields fit their C types encode into any buffer that holds them, and decode from
-- there, into an array of as many entries, to themselves.
pub block_table_decode-block_table_encode :
    (entries old : List MpqBlock) (output : List ℕ) (output_size : ℕ)
    → All IsBlock entries
    → length old ≡ length entries
    → length entries ≤ size_max / 16
    → length entries * 16 ≤ output_size
    → output_size ≤ length output
    → (out : List ℕ) × (block_table_encode (some entries) (length entries) (some output) output_size
        ≡ ok out)
      × (block_table_decode (some out) output_size (some old) (length entries) ≡ ok entries)
      × (length out ≡ length output)
unfolding block_table_encode block_table_decode
block_table_decode-block_table_encode =
    table_decode-table_encode block_entry_wire_size load_block store_block IsBlock block_codec

-- High words of offsets that fit their C type encode into any buffer that holds them, and decode
-- from there, into an array of as many entries, to themselves.
pub block_ex_table_decode-block_ex_table_encode :
    (entries old : List MpqBlockEx) (output : List ℕ) (output_size : ℕ)
    → All IsBlockEx entries
    → length old ≡ length entries
    → length entries ≤ size_max / 2
    → length entries * 2 ≤ output_size
    → output_size ≤ length output
    → (out : List ℕ) × (block_ex_table_encode
          (some entries)
          (length entries)
          (some output)
          output_size
        ≡ ok out)
      × (block_ex_table_decode (some out) output_size (some old) (length entries) ≡ ok entries)
      × (length out ≡ length output)
unfolding block_ex_table_encode block_ex_table_decode
block_ex_table_decode-block_ex_table_encode =
    table_decode-table_encode block_ex_entry_wire_size load_block_ex store_block_ex IsBlockEx
      block_ex_codec

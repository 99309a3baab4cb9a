-- ===== src/Header/Wire.antt =====
-- The wire form of the archive headers: round trip and memory safety.
use libmpq.Base.{
  ℕ, ◌≤◌, ◌≡◌, refl, arith, List, ◌∷◌, some, ok, length, drop, IsU16, IsU32, IsU64, le→ltb, u32,
  ◌>>>◌,
}
use libmpq.Endian.{load_le16, load_le32, load_le64, store_le16, store_le32, store_le64}
use libmpq.Endian.RoundTrip.{split_le16, split_le32, split_le64, le16_bytes, le32_bytes}
use libmpq.Header.{
  MpqHeader, MpqHeaderEx, header_decode, header_encode, header_ex_decode, header_ex_encode,
}

-- The fields fit their C types.
pub record IsHeader (h : MpqHeader) : Type 0 where
  pub magic_fits : IsU32 h.mpq_magic
  pub header_size_fits : IsU32 h.header_size
  pub archive_size_fits : IsU32 h.archive_size
  pub version_fits : IsU16 h.version
  pub block_size_fits : IsU16 h.block_size
  pub hash_offset_fits : IsU32 h.hash_table_offset
  pub block_offset_fits : IsU32 h.block_table_offset
  pub hash_count_fits : IsU32 h.hash_table_count
  pub block_count_fits : IsU32 h.block_table_count

pub record IsHeaderEx (h : MpqHeaderEx) : Type 0 where
  pub extended_fits : IsU64 h.extended_offset
  pub hash_high_fits : IsU16 h.hash_table_offset_high
  pub block_high_fits : IsU16 h.block_table_offset_high

header_bytes : MpqHeader → List ℕ → List ℕ
header_bytes h rest = le32_bytes h.mpq_magic (
    le32_bytes h.header_size (
      le32_bytes h.archive_size (
        le16_bytes h.version (
          le16_bytes h.block_size (
            le32_bytes h.hash_table_offset (
              le32_bytes h.block_table_offset
                (le32_bytes h.hash_table_count (le32_bytes h.block_table_count rest))))))))

header_decode-bytes :
    (h old : MpqHeader) (rest : List ℕ) (size : ℕ)
    → IsHeader h
    → 32 ≤ size
    → header_decode (some old) (some (header_bytes h rest)) size ≡ ok h
unfolding header_decode header_bytes load_le16 load_le32
header_decode-bytes h old rest size v k = rw (
  le→ltb size 32 k,
  split_le32 h.mpq_magic v.magic_fits,
  split_le32 h.header_size v.header_size_fits,
  split_le32 h.archive_size v.archive_size_fits,
  split_le16 h.version v.version_fits,
  split_le16 h.block_size v.block_size_fits,
  split_le32 h.hash_table_offset v.hash_offset_fits,
  split_le32 h.block_table_offset v.block_offset_fits,
  split_le32 h.hash_table_count v.hash_count_fits,
  split_le32 h.block_table_count v.block_count_fits,
)

-- A header whose fields fit their C types encodes into any buffer of at least 32 bytes, whose later
-- bytes stay, and decodes from there to itself.
pub header_decode-header_encode :
    (h old : MpqHeader) (wire : List ℕ) (size : ℕ)
    → IsHeader h
    → 32 ≤ size
    → size ≤ length wire
    → (out : List ℕ) × (header_encode (some h) (some wire) size ≡ ok out)
      × (header_decode (some old) (some out) size ≡ ok h)
      × (drop 32 out ≡ drop 32 wire)
      × (length out ≡ length wire)
unfolding header_encode header_bytes store_le16 store_le32
header_decode-header_encode h old
      (_ ∷ _ ∷ _ ∷ _ ∷ _ ∷ _ ∷ _ ∷ _ ∷ _ ∷ _ ∷ _ ∷ _ ∷ _ ∷ _ ∷ _ ∷ _ ∷ _ ∷ _ ∷ _ ∷ _ ∷ _ ∷ _ ∷ _ ∷ _
        ∷ _ ∷ _ ∷ _ ∷ _ ∷ _ ∷ _ ∷ _ ∷ _ ∷ rest)
      size v k fits =
    (
      header_bytes h rest,
      rw (le→ltb size 32 k),
      header_decode-bytes h old rest size v k,
      refl,
      refl,
    )
header_decode-header_encode h old _ size v k fits = absurd (omega arith)

header_ex_bytes : MpqHeaderEx → List ℕ → List ℕ
header_ex_bytes h rest = le32_bytes (u32 h.extended_offset) (
    le32_bytes (u32 (h.extended_offset >>> 32))
      (le16_bytes h.hash_table_offset_high (le16_bytes h.block_table_offset_high rest)))

header_ex_decode-bytes :
    (h old : MpqHeaderEx) (rest : List ℕ) (size : ℕ)
    → IsHeaderEx h
    → 12 ≤ size
    → header_ex_decode (some old) (some (header_ex_bytes h rest)) size ≡ ok h
unfolding header_ex_decode header_ex_bytes load_le16 load_le64
header_ex_decode-bytes h old rest size v k = rw (
  le→ltb size 12 k,
  split_le64 h.extended_offset v.extended_fits,
  split_le16 h.hash_table_offset_high v.hash_high_fits,
  split_le16 h.block_table_offset_high v.block_high_fits,
)

-- A version 2 extension whose fields fit their C types encodes into any buffer of at least 12 bytes,
-- whose later bytes stay, and decodes from there to itself.
pub header_ex_decode-header_ex_encode :
    (h old : MpqHeaderEx) (wire : List ℕ) (size : ℕ)
    → IsHeaderEx h
    → 12 ≤ size
    → size ≤ length wire
    → (out : List ℕ) × (header_ex_encode (some h) (some wire) size ≡ ok out)
      × (header_ex_decode (some old) (some out) size ≡ ok h)
      × (drop 12 out ≡ drop 12 wire)
      × (length out ≡ length wire)
unfolding header_ex_encode header_ex_bytes store_le16 store_le64
header_ex_decode-header_ex_encode h old (_ ∷ _ ∷ _ ∷ _ ∷ _ ∷ _ ∷ _ ∷ _ ∷ _ ∷ _ ∷ _ ∷ _ ∷ rest) size
      v k fits =
    (
      header_ex_bytes h rest,
      rw (le→ltb size 12 k),
      header_ex_decode-bytes h old rest size v k,
      refl,
      refl,
    )
header_ex_decode-header_ex_encode h old _ size v k fits = absurd (omega arith)

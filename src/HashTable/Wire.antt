-- ===== src/HashTable/Wire.antt =====
-- The wire form of hash-table entries: round trip and memory safety.
use libmpq.Base.{
  ℕ, ◌*◌, ◌/◌, ◌≤◌, ◌<◌, ◌≡◌, refl, arith, ◌⊎◌, List, [], ◌∷◌, ◌++◌, some, ok, err, size_error,
  length, All, IsU16, IsU32,
}
use libmpq.Endian.{load_le16, load_le32, store_le16, store_le32}
use libmpq.Endian.RoundTrip.{split_le16, split_le32, le16_bytes, le32_bytes}
use libmpq.EntryTable.{EntryCodec, size_max, table_decode-table_encode, table_decode_total}
use libmpq.HashTable.{
  MpqHash, hash_entry_wire_size, load_hash, store_hash, hash_table_decode, hash_table_encode,
}

-- The fields fit their C types.
pub record IsHash (e : MpqHash) : Type 0 where
  pub hash_a_fits : IsU32 e.hash_a
  pub hash_b_fits : IsU32 e.hash_b
  pub locale_fits : IsU16 e.locale
  pub platform_fits : IsU16 e.platform
  pub index_fits : IsU32 e.block_table_index

hash_wire : MpqHash → List ℕ
hash_wire e = le32_bytes e.hash_a (
    le32_bytes e.hash_b
      (le16_bytes e.locale (le16_bytes e.platform (le32_bytes e.block_table_index []))))

store_hash-wire :
    (e : MpqHash) (front back : List ℕ)
    → length front ≡ 16
    → store_hash e (front ++ back) ≡ ok (hash_wire e ++ back)
unfolding store_hash hash_wire store_le16 store_le32
store_hash-wire e (_ ∷ _ ∷ _ ∷ _ ∷ _ ∷ _ ∷ _ ∷ _ ∷ _ ∷ _ ∷ _ ∷ _ ∷ _ ∷ _ ∷ _ ∷ _ ∷ []) back h = refl
store_hash-wire e _ back h = absurd (omega arith)

load_hash-wire : (e : MpqHash) (back : List ℕ) → IsHash e → load_hash (hash_wire e ++ back) ≡ ok e
unfolding load_hash hash_wire load_le16 load_le32
load_hash-wire e back v = rw (
  split_le32 e.hash_a v.hash_a_fits,
  split_le32 e.hash_b v.hash_b_fits,
  split_le16 e.locale v.locale_fits,
  split_le16 e.platform v.platform_fits,
  split_le32 e.block_table_index v.index_fits,
)

load_hash_total : (buf : List ℕ) → 16 ≤ length buf → (e : MpqHash) × (load_hash buf ≡ ok e)
unfolding load_hash load_le16 load_le32
load_hash_total (_ ∷ _ ∷ _ ∷ _ ∷ _ ∷ _ ∷ _ ∷ _ ∷ _ ∷ _ ∷ _ ∷ _ ∷ _ ∷ _ ∷ _ ∷ _ ∷ rest) h = (_, refl)
load_hash_total _ h = absurd (omega arith)

abbrev hash_codec : EntryCodec hash_entry_wire_size load_hash store_hash IsHash
hash_codec = record {
  wire = hash_wire;
  wire_length = λ e. unfold hash_wire in refl;
  stores = store_hash-wire;
  loads = load_hash-wire;
  load_total = load_hash_total;
}

-- Entries whose fields fit their C types encode into any buffer that holds them, and decode from
-- there, into an array of as many entries, to themselves.
pub hash_table_decode-hash_table_encode :
    (entries old : List MpqHash) (output : List ℕ) (output_size : ℕ)
    → All IsHash entries
    → length old ≡ length entries
    → length entries ≤ size_max / 16
    → length entries * 16 ≤ output_size
    → output_size ≤ length output
    → (out : List ℕ) × (hash_table_encode (some entries) (length entries) (some output) output_size
        ≡ ok out)
      × (hash_table_decode (some out) output_size (some old) (length entries) ≡ ok entries)
      × (length out ≡ length output)
unfolding hash_table_encode hash_table_decode
hash_table_decode-hash_table_encode =
    table_decode-table_encode hash_entry_wire_size load_hash store_hash IsHash hash_codec

-- On any bytes, where the buffers are as long as the sizes say, decoding a hash table fails with a
-- size error exactly where the count is above SIZE_MAX / 16 or the input is shorter than 16 bytes
-- for each entry, and otherwise stays inside both buffers and gives as many entries as the array
-- has.
pub hash_table_decode_total :
    (input : List ℕ) (input_size : ℕ) (old : List MpqHash) (entry_count : ℕ)
    → input_size ≤ length input
    → entry_count ≤ length old
    → (hash_table_decode (some input) input_size (some old) entry_count ≡ err size_error)
        × ((size_max / 16 < entry_count) ⊎ (input_size < entry_count * 16))
      ⊎ (entry_count ≤ size_max / 16)
        × (entry_count * 16 ≤ input_size)
        × ((entries : List MpqHash) × (hash_table_decode
                (some input)
                input_size
                (some old)
                entry_count
              ≡ ok entries)
            × (length entries ≡ length old))
unfolding hash_table_decode
hash_table_decode_total =
    table_decode_total hash_entry_wire_size load_hash store_hash IsHash hash_codec

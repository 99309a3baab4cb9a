-- ===== src/Endian.antt =====
-- Byte order, src/mpq-endian.c. A buffer is the list of its bytes from the pointer on.
pub mod RoundTrip
pub mod Words
use libmpq.Base.{
  ℕ, ◌+◌, ◌*◌, ◌/◌, ◌%◌, ◌^◌, bit_or, List, [], ◌∷◌, none, some, Pointer, Outcome, ok, fault,
  advance, at_offset, ◌>>=◌, u8, u32, ◌<<<◌, ◌>>>◌,
}

unfoldable pub load_le16 : Pointer → Outcome ℕ
load_le16 none = ok 0
load_le16 (some (b0 ∷ b1 ∷ rest)) = ok (bit_or b0 (b1 <<< 8))
load_le16 (some _) = fault

unfoldable pub load_le32 : Pointer → Outcome ℕ
load_le32 none = ok 0
load_le32 (some (b0 ∷ b1 ∷ b2 ∷ b3 ∷ rest)) =
    ok (bit_or (bit_or (bit_or b0 (b1 <<< 8)) (b2 <<< 16)) (b3 <<< 24))
load_le32 (some _) = fault

unfoldable pub load_le64 : Pointer → Outcome ℕ
unfolding load_le32
load_le64 none = ok 0
load_le64 (some buf) = do
  low ← load_le32 (some buf)
  high ← load_le32 (advance (some buf) 4)
  ok (bit_or low (high <<< 32))

unfoldable pub store_le16 : ℕ → List ℕ → Outcome (List ℕ)
store_le16 value (b0 ∷ b1 ∷ rest) = ok (u8 value ∷ u8 (value >>> 8) ∷ rest)
store_le16 value _ = fault

unfoldable pub store_le32 : ℕ → List ℕ → Outcome (List ℕ)
store_le32 value (b0 ∷ b1 ∷ b2 ∷ b3 ∷ rest) =
    ok (u8 value ∷ u8 (value >>> 8) ∷ u8 (value >>> 16) ∷ u8 (value >>> 24) ∷ rest)
store_le32 value _ = fault

unfoldable pub store_le64 : ℕ → List ℕ → Outcome (List ℕ)
unfolding store_le32
store_le64 value buf = do
  buf' ← store_le32 (u32 value) buf
  at_offset 4 (store_le32 (u32 (value >>> 32))) buf'

unfoldable pub load_be32 : Pointer → Outcome ℕ
load_be32 none = ok 0
load_be32 (some (b0 ∷ b1 ∷ b2 ∷ b3 ∷ rest)) =
    ok (bit_or (bit_or (bit_or (b0 <<< 24) (b1 <<< 16)) (b2 <<< 8)) b3)
load_be32 (some _) = fault

unfoldable pub store_be32 : ℕ → List ℕ → Outcome (List ℕ)
store_be32 value (b0 ∷ b1 ∷ b2 ∷ b3 ∷ rest) =
    ok (u8 (value >>> 24) ∷ u8 (value >>> 16) ∷ u8 (value >>> 8) ∷ u8 value ∷ rest)
store_be32 value _ = fault

-- ===== src/Endian/RoundTrip.antt =====
-- Loads and stores of src/mpq-endian.c undo one another.
use libmpq.Base.{
  ℕ, ◌+◌, ◌*◌, ◌^◌, ◌≤◌, ◌<◌, ◌≡◌, refl, ap, arith, bit_or, List, [], ◌∷◌, some, ok, length, drop,
  ◌<<<◌, ◌>>>◌, u8, u32, IsByte, IsU16, IsU32, IsU64, All,
}
use libmpq.Base.Bits.{or_shifted, shifted_or}
use libmpq.Endian.{
  load_le16, load_le32, load_le64, store_le16, store_le32, store_le64, load_be32, store_be32,
}

pub join_le16 : (b0 b1 : ℕ) → b0 < 256 → bit_or b0 (b1 <<< 8) ≡ b0 + b1 * 2 ^ 8
join_le16 b0 b1 h = or_shifted 8 b0 b1 h

pub join_le32 :
    (b0 b1 b2 b3 : ℕ)
    → IsByte b0
    → IsByte b1
    → IsByte b2
    → bit_or (bit_or (bit_or b0 (b1 <<< 8)) (b2 <<< 16)) (b3 <<< 24)
      ≡ b0 + b1 * 2 ^ 8 + b2 * 2 ^ 16 + b3 * 2 ^ 24
join_le32 b0 b1 b2 b3 h0 h1 h2 = rw (
  or_shifted 8 b0 b1 h0,
  or_shifted 16 (b0 + b1 * 2 ^ 8) b2 (omega arith),
  or_shifted 24 (b0 + b1 * 2 ^ 8 + b2 * 2 ^ 16) b3 (omega arith),
)

pub join_be32 :
    (b0 b1 b2 b3 : ℕ)
    → IsByte b1
    → IsByte b2
    → IsByte b3
    → bit_or (bit_or (bit_or (b0 <<< 24) (b1 <<< 16)) (b2 <<< 8)) b3
      ≡ b0 * 2 ^ 24 + b1 * 2 ^ 16 + b2 * 2 ^ 8 + b3
join_be32 b0 b1 b2 b3 h1 h2 h3 =
    rw
      (
        shifted_or 24 b0 (b1 <<< 16) (omega arith),
        first,
        shifted_or 16 (b0 * 256 + b1) (b2 <<< 8) (omega arith),
        second,
        shifted_or 8 (b0 * 65536 + b1 * 256 + b2) b3 h3,
      )
      (omega arith)
  where
    first : b0 * 2 ^ 24 + b1 * 2 ^ 16 ≡ (b0 * 256 + b1) * 2 ^ 16
    first = omega arith

    second : (b0 * 256 + b1) * 2 ^ 16 + b2 * 2 ^ 8 ≡ (b0 * 65536 + b1 * 256 + b2) * 2 ^ 8
    second = omega arith

-- The bytes that the little-endian stores write.
abbrev pub le16_bytes : ℕ → List ℕ → List ℕ
le16_bytes v rest = u8 v ∷ u8 (v >>> 8) ∷ rest

abbrev pub le32_bytes : ℕ → List ℕ → List ℕ
le32_bytes v rest = u8 v ∷ u8 (v >>> 8) ∷ u8 (v >>> 16) ∷ u8 (v >>> 24) ∷ rest

-- The bytes that a store writes join to the stored value.
pub split_le16 : (v : ℕ) → IsU16 v → bit_or (u8 v) (u8 (v >>> 8) <<< 8) ≡ v
split_le16 v h = rw (join_le16 (u8 v) (u8 (v >>> 8)) (omega arith)) (omega arith)

pub split_le32 :
    (v : ℕ)
    → IsU32 v
    → bit_or
        (bit_or (bit_or (u8 v) (u8 (v >>> 8) <<< 8)) (u8 (v >>> 16) <<< 16))
        (u8 (v >>> 24) <<< 24)
      ≡ v
split_le32 v h =
    rw
      (join_le32 (u8 v) (u8 (v >>> 8)) (u8 (v >>> 16)) (u8 (v >>> 24)) (omega arith) (omega arith)
        (omega arith))
      (omega arith)

pub split_be32 :
    (v : ℕ)
    → IsU32 v
    → bit_or
        (bit_or (bit_or (u8 (v >>> 24) <<< 24) (u8 (v >>> 16) <<< 16)) (u8 (v >>> 8) <<< 8))
        (u8 v)
      ≡ v
split_be32 v h =
    rw
      (join_be32 (u8 (v >>> 24)) (u8 (v >>> 16)) (u8 (v >>> 8)) (u8 v) (omega arith) (omega arith)
        (omega arith))
      (omega arith)

pub split_le64 :
    (v : ℕ)
    → IsU64 v
    → bit_or
        (bit_or
          (bit_or (bit_or (u8 (u32 v)) (u8 (u32 v >>> 8) <<< 8)) (u8 (u32 v >>> 16) <<< 16))
          (u8 (u32 v >>> 24) <<< 24))
        (bit_or
            (bit_or
              (bit_or (u8 (u32 (v >>> 32))) (u8 (u32 (v >>> 32) >>> 8) <<< 8))
              (u8 (u32 (v >>> 32) >>> 16) <<< 16))
            (u8 (u32 (v >>> 32) >>> 24) <<< 24)
          <<< 32)
      ≡ v
split_le64 v h =
    rw
      (
        split_le32 (u32 v) (omega arith),
        split_le32 (u32 (v >>> 32)) (omega arith),
        or_shifted 32 (u32 v) (u32 (v >>> 32)) (omega arith),
      )
      (omega arith)

-- A `uint16_t` stored into at least 2 bytes is what the load reads; later bytes stay.
pub load_le16-store_le16 :
    (v : ℕ) (buf : List ℕ)
    → IsU16 v
    → 2 ≤ length buf
    → (out : List ℕ) × (store_le16 v buf ≡ ok out)
      × (load_le16 (some out) ≡ ok v)
      × (drop 2 out ≡ drop 2 buf)
      × (length out ≡ length buf)
unfolding load_le16 store_le16
load_le16-store_le16 v (b0 ∷ b1 ∷ rest) h n = (_, refl, ap ok (split_le16 v h), refl, refl)
load_le16-store_le16 v _ h n = absurd (omega arith)

-- A `uint32_t` stored into at least 4 bytes is what the load reads; later bytes stay.
pub load_le32-store_le32 :
    (v : ℕ) (buf : List ℕ)
    → IsU32 v
    → 4 ≤ length buf
    → (out : List ℕ) × (store_le32 v buf ≡ ok out)
      × (load_le32 (some out) ≡ ok v)
      × (drop 4 out ≡ drop 4 buf)
      × (length out ≡ length buf)
unfolding load_le32 store_le32
load_le32-store_le32 v (b0 ∷ b1 ∷ b2 ∷ b3 ∷ rest) h n =
    (_, refl, ap ok (split_le32 v h), refl, refl)
load_le32-store_le32 v _ h n = absurd (omega arith)

-- A `uint32_t` stored most significant byte first into at least 4 bytes is what the load reads; the
-- length of the buffer and its later bytes stay.
pub load_be32-store_be32 :
    (v : ℕ) (buf : List ℕ)
    → IsU32 v
    → 4 ≤ length buf
    → (out : List ℕ) × (store_be32 v buf ≡ ok out)
      × (load_be32 (some out) ≡ ok v)
      × (drop 4 out ≡ drop 4 buf)
      × (length out ≡ length buf)
unfolding load_be32 store_be32
load_be32-store_be32 v (b0 ∷ b1 ∷ b2 ∷ b3 ∷ rest) h n =
    (_, refl, ap ok (split_be32 v h), refl, refl)
load_be32-store_be32 v _ h n = absurd (omega arith)

-- A `uint64_t` stored into at least 8 bytes, as two words, is what the load reads; the length of the
-- buffer and its later bytes stay.
pub load_le64-store_le64 :
    (v : ℕ) (buf : List ℕ)
    → IsU64 v
    → 8 ≤ length buf
    → (out : List ℕ) × (store_le64 v buf ≡ ok out)
      × (load_le64 (some out) ≡ ok v)
      × (drop 8 out ≡ drop 8 buf)
      × (length out ≡ length buf)
unfolding load_le64 store_le64
load_le64-store_le64 v (b0 ∷ b1 ∷ b2 ∷ b3 ∷ b4 ∷ b5 ∷ b6 ∷ b7 ∷ rest) h n =
    (_, refl, ap ok (split_le64 v h), refl, refl)
load_le64-store_le64 v _ h n = absurd (omega arith)

-- What `load_le32` reads from four bytes is a `uint32_t`, and storing it back leaves the buffer as it
-- was.
pub store_le32-load_le32 :
    (b0 b1 b2 b3 : ℕ) (rest : List ℕ) {v : ℕ}
    → All IsByte (b0 ∷ b1 ∷ b2 ∷ b3 ∷ [])
    → load_le32 (some (b0 ∷ b1 ∷ b2 ∷ b3 ∷ rest)) ≡ ok v
    → IsU32 v × (store_le32 v (b0 ∷ b1 ∷ b2 ∷ b3 ∷ rest) ≡ ok (b0 ∷ b1 ∷ b2 ∷ b3 ∷ rest))
unfolding load_le32 store_le32
store_le32-load_le32 b0 b1 b2 b3 rest h e = ground (arith, join_le32 b0 b1 b2 b3)

-- A load of enough bytes reads a value.
pub load_le16_total : (buf : List ℕ) → 2 ≤ length buf → (v : ℕ) × (load_le16 (some buf) ≡ ok v)
unfolding load_le16
load_le16_total (b0 ∷ b1 ∷ rest) h = (_, refl)
load_le16_total _ h = absurd (omega arith)

pub load_le32_total : (buf : List ℕ) → 4 ≤ length buf → (v : ℕ) × (load_le32 (some buf) ≡ ok v)
unfolding load_le32
load_le32_total (b0 ∷ b1 ∷ b2 ∷ b3 ∷ rest) h = (_, refl)
load_le32_total _ h = absurd (omega arith)

pub load_be32_total : (buf : List ℕ) → 4 ≤ length buf → (v : ℕ) × (load_be32 (some buf) ≡ ok v)
unfolding load_be32
load_be32_total (b0 ∷ b1 ∷ b2 ∷ b3 ∷ rest) h = (_, refl)
load_be32_total _ h = absurd (omega arith)

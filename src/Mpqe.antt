-- ===== src/Mpqe.antt =====
-- The MPQE stream cipher, src/mpq-mpqe.c. Where the source clears its own arrays before it returns,
-- their contents are dropped here.
pub mod Key
pub mod Transform
pub mod Salsa
pub mod Stream
mod Runs
use libmpq.Base.{
  ℕ, zero, suc, ◌+◌, ◌*◌, ◌-◌, ◌/◌, bit_or, bit_xor, List, [], ◌∷◌, ◌++◌, none, some, Pointer,
  Outcome, ok, err, fault, map_ok, or_fault, at_offset, write_range, ◌>>=◌, get_elem?, set,
  replicate, drop, ltb, u32, ◌<<<◌, ◌>>>◌, if◌then◌else◌, Error, decrypt_error,
}
use libmpq.Endian.{load_le32, store_le32}
use libmpq.Endian.Words.{load_words, store_words}

-- LIBMPQ_MPQE_CHUNK_SIZE and LIBMPQ_MPQE_AUTH_CODE_MINIMUM.
abbrev pub mpqe_chunk_size : ℕ
mpqe_chunk_size = 64

abbrev pub mpqe_auth_code_minimum : ℕ
mpqe_auth_code_minimum = 32

-- `size` bytes of the buffer become zeros.
pub mpqe_clear : List ℕ → ℕ → Outcome (List ℕ)
mpqe_clear buffer zero = ok buffer
mpqe_clear [] (suc size) = fault
mpqe_clear (byte ∷ buffer) (suc size) = map_ok (λ rest. 0 ∷ rest) (mpqe_clear buffer size)

pub rol32 : ℕ → ℕ → ℕ
rol32 value count = bit_or (u32 (value <<< count)) (value >>> (32 - count))

-- "expand 32-byte k000000000000000000000000000000000000000000000000", 64 characters.
pub template_key : List ℕ
template_key =
    0x65
    ∷ 0x78
    ∷ 0x70
    ∷ 0x61
    ∷ 0x6e
    ∷ 0x64
    ∷ 0x20
    ∷ 0x33
    ∷ 0x32
    ∷ 0x2d
    ∷ 0x62
    ∷ 0x79
    ∷ 0x74
    ∷ 0x65
    ∷ 0x20
    ∷ 0x6b
    ∷ replicate 48 0x30

-- `source_words` with `target_words`.
abbrev pub KeyWord : Type 0
KeyWord = ℕ × ℕ

pub key_words : List KeyWord
key_words = (3, 0) ∷ (7, 2) ∷ (2, 3) ∷ (6, 5) ∷ (1, 6) ∷ (5, 8) ∷ (0, 9) ∷ (4, 11) ∷ []

pub place_words : List KeyWord → List ℕ → List ℕ → Outcome (List ℕ)
place_words [] auth_code derived_key = ok derived_key
place_words ((source, target) ∷ more) auth_code derived_key = do
  value ← load_le32 (some (drop (source * 4) auth_code))
  derived_key' ← at_offset ((4 + target) * 4) (store_le32 value) derived_key
  place_words more auth_code derived_key'

-- The result is the buffer `key`, whose first 64 bytes the last copy writes.
pub mpqe_key : Pointer → Pointer → ℕ → Outcome (List ℕ)
mpqe_key (some key) (some auth_code) auth_code_size =
    if ltb auth_code_size mpqe_auth_code_minimum then err decrypt_error else (do
      derived_key ← place_words key_words auth_code template_key
      write_range key 0 derived_key)
mpqe_key _ _ auth_code_size = err decrypt_error

-- `shuffled[target] = key_mirror[source]`.
pub shuffle : List (ℕ × ℕ)
shuffle =
    (14, 0)
    ∷ (12, 1)
    ∷ (5, 2)
    ∷ (15, 3)
    ∷ (10, 4)
    ∷ (7, 5)
    ∷ (11, 6)
    ∷ (9, 7)
    ∷ (3, 8)
    ∷ (6, 9)
    ∷ (8, 10)
    ∷ (13, 11)
    ∷ (2, 12)
    ∷ (4, 13)
    ∷ (1, 14)
    ∷ (0, 15)
    ∷ []

pub copy_words : List (ℕ × ℕ) → List ℕ → List ℕ → Outcome (List ℕ)
copy_words [] key_mirror shuffled = ok shuffled
copy_words ((target, source) ∷ more) key_mirror shuffled = do
  word ← or_fault (get_elem? key_mirror source)
  copy_words more key_mirror (set shuffled target word)

-- `shuffled[target] ^= rol32(shuffled[left] + shuffled[right], count)`.
pub record Quarter : Type 0 where
  pub target : ℕ
  pub left : ℕ
  pub right : ℕ
  pub count : ℕ

abbrev quarter : ℕ → ℕ → ℕ → ℕ → Quarter
quarter target left right count = record {
  target = target;
  left = left;
  right = right;
  count = count;
}

pub double_round : List Quarter
double_round =
    quarter 10 14 2 7
    ∷ quarter 3 10 14 9
    ∷ quarter 2 3 10 13
    ∷ quarter 14 2 3 18
    ∷ quarter 7 12 4 7
    ∷ quarter 6 7 12 9
    ∷ quarter 4 6 7 13
    ∷ quarter 12 4 6 18
    ∷ quarter 11 5 1 7
    ∷ quarter 8 11 5 9
    ∷ quarter 1 8 11 13
    ∷ quarter 5 1 8 18
    ∷ quarter 9 15 0 7
    ∷ quarter 13 9 15 9
    ∷ quarter 0 13 9 13
    ∷ quarter 15 0 13 18
    ∷ quarter 4 14 9 7
    ∷ quarter 8 4 14 9
    ∷ quarter 9 8 4 13
    ∷ quarter 14 9 8 18
    ∷ quarter 1 12 10 7
    ∷ quarter 13 1 12 9
    ∷ quarter 10 13 1 13
    ∷ quarter 12 10 13 18
    ∷ quarter 0 5 7 7
    ∷ quarter 3 0 5 9
    ∷ quarter 7 3 0 13
    ∷ quarter 5 7 3 18
    ∷ quarter 2 15 11 7
    ∷ quarter 6 2 15 9
    ∷ quarter 11 6 2 13
    ∷ quarter 15 11 6 18
    ∷ []

pub run_quarters : List Quarter → List ℕ → Outcome (List ℕ)
run_quarters [] shuffled = ok shuffled
run_quarters (q ∷ more) shuffled = do
  left ← or_fault (get_elem? shuffled q.left)
  right ← or_fault (get_elem? shuffled q.right)
  old ← or_fault (get_elem? shuffled q.target)
  run_quarters more (set shuffled q.target (bit_xor old (rol32 (u32 (left + right)) q.count)))

pub run_rounds : ℕ → List ℕ → Outcome (List ℕ)
run_rounds zero shuffled = ok shuffled
run_rounds (suc left) shuffled = do
  shuffled' ← run_quarters double_round shuffled
  run_rounds left shuffled'

-- `shuffled[left] + key_mirror[right]`, for the words of the chunk in order.
pub sums : List (ℕ × ℕ)
sums =
    (14, 0)
    ∷ (4, 13)
    ∷ (8, 10)
    ∷ (9, 7)
    ∷ (10, 4)
    ∷ (12, 1)
    ∷ (1, 14)
    ∷ (13, 11)
    ∷ (3, 8)
    ∷ (7, 5)
    ∷ (5, 2)
    ∷ (0, 15)
    ∷ (2, 12)
    ∷ (6, 9)
    ∷ (11, 6)
    ∷ (15, 3)
    ∷ []

pub mask_words : List (ℕ × ℕ) → List ℕ → List ℕ → Outcome (List ℕ)
mask_words [] shuffled key_mirror = ok []
mask_words ((left, right) ∷ more) shuffled key_mirror = do
  a ← or_fault (get_elem? shuffled left)
  b ← or_fault (get_elem? key_mirror right)
  masks ← mask_words more shuffled key_mirror
  ok (u32 (a + b) ∷ masks)

-- What the chunk at `offset` is masked with.
pub keystream : List ℕ → ℕ → Outcome (List ℕ)
keystream key offset = do
  let chunk_number = offset / mpqe_chunk_size
  key_words16 ← load_words 16 key
  let key_mirror = set (set key_words16 5 (u32 (chunk_number >>> 32))) 8 (u32 chunk_number)
  start ← copy_words shuffle key_mirror (replicate 16 0)
  shuffled ← run_rounds 10 start
  mask_words sums shuffled key_mirror

-- `mirror[i] ^= mask`.
pub xor_words : List ℕ → List ℕ → List ℕ
xor_words [] masks = []
xor_words (word ∷ words) [] = word ∷ words
xor_words (word ∷ words) (mask ∷ masks) = bit_xor word mask ∷ xor_words words masks

pub mpqe_transform_chunk : List ℕ → List ℕ → ℕ → Outcome (List ℕ)
mpqe_transform_chunk chunk key offset = do
  masks ← keystream key offset
  mirror ← load_words 16 chunk
  store_words (xor_words mirror masks) chunk

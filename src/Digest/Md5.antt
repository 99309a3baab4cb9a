-- ===== src/Digest/Md5.antt =====
-- The MD5 digest, src/mpq-md5.c.
pub mod Transform
pub mod Update
pub mod Final
mod Runs
use libmpq.Base.{
  ℕ, zero, suc, ◌+◌, ◌-◌, ◌*◌, ◌/◌, ◌%◌, ◌^◌, bit_and, bit_or, bit_xor, List, [], ◌∷◌, some,
  Outcome, ok, fault, or_fault, at_offset, ◌>>=◌, get_elem?, read_range, write_range, drop,
  replicate, ltb, ◌==◌, u32, u64, ◌<<<◌, ◌>>>◌, if◌then◌else◌,
}
use libmpq.Endian.Words.{load_words}
use libmpq.Endian.{load_le32, store_le32, store_le64}

-- `state[4]`.
pub record Md5State : Type 0 where
  pub s0 : ℕ
  pub s1 : ℕ
  pub s2 : ℕ
  pub s3 : ℕ

-- `mpq_md5_s`.
pub record Md5Context : Type 0 where
  pub state : Md5State
  pub size : ℕ
  pub buffer : List ℕ

pub constants : List ℕ
constants =
    0xd76aa478 ∷ 0xe8c7b756 ∷ 0x242070db ∷ 0xc1bdceee ∷ 0xf57c0faf ∷ 0x4787c62a ∷ 0xa8304613
    ∷ 0xfd469501 ∷ 0x698098d8 ∷ 0x8b44f7af ∷ 0xffff5bb1 ∷ 0x895cd7be ∷ 0x6b901122 ∷ 0xfd987193
    ∷ 0xa679438e ∷ 0x49b40821 ∷ 0xf61e2562 ∷ 0xc040b340 ∷ 0x265e5a51 ∷ 0xe9b6c7aa ∷ 0xd62f105d
    ∷ 0x02441453 ∷ 0xd8a1e681 ∷ 0xe7d3fbc8 ∷ 0x21e1cde6 ∷ 0xc33707d6 ∷ 0xf4d50d87 ∷ 0x455a14ed
    ∷ 0xa9e3e905 ∷ 0xfcefa3f8 ∷ 0x676f02d9 ∷ 0x8d2a4c8a ∷ 0xfffa3942 ∷ 0x8771f681 ∷ 0x6d9d6122
    ∷ 0xfde5380c ∷ 0xa4beea44 ∷ 0x4bdecfa9 ∷ 0xf6bb4b60 ∷ 0xbebfbc70 ∷ 0x289b7ec6 ∷ 0xeaa127fa
    ∷ 0xd4ef3085 ∷ 0x04881d05 ∷ 0xd9d4d039 ∷ 0xe6db99e5 ∷ 0x1fa27cf8 ∷ 0xc4ac5665 ∷ 0xf4292244
    ∷ 0x432aff97 ∷ 0xab9423a7 ∷ 0xfc93a039 ∷ 0x655b59c3 ∷ 0x8f0ccc92 ∷ 0xffeff47d ∷ 0x85845dd1
    ∷ 0x6fa87e4f ∷ 0xfe2ce6e0 ∷ 0xa3014314 ∷ 0x4e0811a1 ∷ 0xf7537e82 ∷ 0xbd3af235 ∷ 0x2ad7d2bb
    ∷ 0xeb86d391 ∷ []

pub shifts : List ℕ
shifts = 7 ∷ 12 ∷ 17 ∷ 22 ∷ 5 ∷ 9 ∷ 14 ∷ 20 ∷ 4 ∷ 11 ∷ 16 ∷ 23 ∷ 6 ∷ 10 ∷ 15 ∷ 21 ∷ []

-- `~x` on `uint32_t`.
abbrev complement : ℕ → ℕ
complement x = 2 ^ 32 - 1 - x

-- `f` and `index` of round `i`.
pub mix : ℕ → ℕ → ℕ → ℕ → ℕ
mix i b c d =
    if ltb i 16
    then bit_or (bit_and b c) (bit_and (complement b) d)
    else if ltb i 32
    then bit_or (bit_and d b) (bit_and (complement d) c)
    else if ltb i 48
    then bit_xor (bit_xor b c) d
    else bit_xor c (bit_or b (complement d))

pub word_index : ℕ → ℕ
word_index i =
    if ltb i 16
    then i
    else if ltb i 32
    then (5 * i + 1) % 16
    else if ltb i 48
    then (3 * i + 5) % 16
    else (7 * i) % 16

-- The rounds from `i` on.
pub md5_rounds : ℕ → ℕ → List ℕ → Md5State → Outcome Md5State
md5_rounds zero i words s = ok s
md5_rounds (suc left) i words s = do
  shift ← or_fault (get_elem? shifts (i / 16 * 4 + i % 4))
  constant ← or_fault (get_elem? constants i)
  word ← or_fault (get_elem? words (word_index i))
  let value = u32 (s.s0 + mix i s.s1 s.s2 s.s3 + constant + word)
  let b = u32 (s.s1 + bit_or (u32 (value <<< shift)) (value >>> (32 - shift)))
  md5_rounds left (i + 1) words (record { s0 = s.s3; s1 = b; s2 = s.s1; s3 = s.s2 })

pub md5_transform : Md5State → List ℕ → Outcome Md5State
md5_transform s block = do
  words ← load_words 16 block
  t ← md5_rounds 64 0 words s
  ok (record {
    s0 = u32 (s.s0 + t.s0);
    s1 = u32 (s.s1 + t.s1);
    s2 = u32 (s.s2 + t.s2);
    s3 = u32 (s.s3 + t.s3);
  })

pub initial : Md5State
initial = record { s0 = 0x67452301; s1 = 0xefcdab89; s2 = 0x98badcfe; s3 = 0x10325476 }

pub md5_init : Md5Context
md5_init = record { state = initial; size = 0; buffer = replicate 64 0 }

-- The loop of `libmpq__md5_update`.
pub md5_loop : ℕ → Md5Context → List ℕ → ℕ → Outcome Md5Context
md5_loop zero context bytes size = fault
md5_loop (suc fuel) context bytes size = if size == 0 then ok context else (do
  let used = context.size % 64
  let count = if ltb size (64 - used) then size else 64 - used
  chunk ← read_range bytes 0 count
  buffer ← write_range context.buffer used chunk
  let total = u64 (context.size + count)
  state ← (if total % 64 == 0 then md5_transform context.state buffer else ok context.state)
  md5_loop fuel (record { state = state; size = total; buffer = buffer }) (drop count bytes)
      (size - count))

pub md5_update : Md5Context → List ℕ → ℕ → Outcome Md5Context
md5_update context bytes size = md5_loop (size + 1) context bytes size

-- `padding[64] = { 0x80 }`.
pub padding : List ℕ
padding = 0x80 ∷ replicate 63 0

pub store_state : Md5State → List ℕ → Outcome (List ℕ)
store_state s digest0 = do
  digest1 ← store_le32 s.s0 digest0
  digest2 ← at_offset 4 (store_le32 s.s1) digest1
  digest3 ← at_offset 8 (store_le32 s.s2) digest2
  at_offset 12 (store_le32 s.s3) digest3

-- The context is cleared; the result is the digest.
pub md5_final : Md5Context → List ℕ → Outcome (List ℕ)
md5_final context digest = do
  let used = context.size % 64
  bits ← store_le64 (u64 (context.size * 8)) (replicate 8 0)
  context1 ← md5_update context padding (if ltb used 56 then 56 - used else 120 - used)
  context2 ← md5_update context1 bits 8
  store_state context2.state digest

-- ===== src/Digest/Sha1.antt =====
-- The SHA-1 digest, src/mpq-sha1.c.
pub mod Transform
pub mod Update
pub mod Final
mod Runs
use libmpq.Base.{
  ℕ, zero, suc, ◌+◌, ◌-◌, ◌*◌, ◌^◌, bit_and, bit_or, bit_xor, List, [], ◌∷◌, ◌++◌, some, Outcome,
  ok, fault, or_fault, at_offset, ◌>>=◌, get_elem?, set, read_range, write_range, drop, replicate,
  ltb, ◌==◌, u8, u32, u64, ◌<<<◌, ◌>>>◌, if◌then◌else◌, length,
}
use libmpq.Endian.{load_be32, store_be32}

-- `state[5]`.
pub record Sha1State : Type 0 where
  pub s0 : ℕ
  pub s1 : ℕ
  pub s2 : ℕ
  pub s3 : ℕ
  pub s4 : ℕ

-- `mpq_sha1_s`.
pub record Sha1Context : Type 0 where
  pub state : Sha1State
  pub bits : ℕ
  pub buffer : List ℕ
  pub used : ℕ

pub rotate_left : ℕ → ℕ → ℕ
rotate_left value count = bit_or (u32 (value <<< count)) (value >>> (32 - count))

-- The big-endian words at the front of the block.
pub load_words : ℕ → List ℕ → Outcome (List ℕ)
load_words zero block = ok []
load_words (suc left) block = do
  word ← load_be32 (some block)
  words ← load_words left (drop 4 block)
  ok (word ∷ words)

-- `words[i]` for the `left` indices from the length of `words` on.
pub expand : ℕ → List ℕ → Outcome (List ℕ)
expand zero words = ok words
expand (suc left) words = do
  let i = length words
  a ← or_fault (get_elem? words (i - 3))
  b ← or_fault (get_elem? words (i - 8))
  c ← or_fault (get_elem? words (i - 14))
  d ← or_fault (get_elem? words (i - 16))
  expand left (words ++ (rotate_left (bit_xor (bit_xor (bit_xor a b) c) d) 1 ∷ []))

-- `f` and `k` of round `i`.
pub mix : ℕ → ℕ → ℕ → ℕ → ℕ
mix i b c d =
    if ltb i 20
    then bit_or (bit_and b c) (bit_and (2 ^ 32 - 1 - b) d)
    else if ltb i 40
    then bit_xor (bit_xor b c) d
    else if ltb i 60
    then bit_or (bit_or (bit_and b c) (bit_and b d)) (bit_and c d)
    else bit_xor (bit_xor b c) d

pub round_constant : ℕ → ℕ
round_constant i =
    if ltb i 20
    then 0x5a827999
    else if ltb i 40
    then 0x6ed9eba1
    else if ltb i 60
    then 0x8f1bbcdc
    else 0xca62c1d6

-- The rounds from `i` on.
pub sha1_rounds : ℕ → ℕ → List ℕ → Sha1State → Outcome Sha1State
sha1_rounds zero i words s = ok s
sha1_rounds (suc left) i words s = do
  word ← or_fault (get_elem? words i)
  let next = u32 (rotate_left s.s0 5 + mix i s.s1 s.s2 s.s3 + s.s4 + round_constant i + word)
  sha1_rounds left (i + 1) words
      (record { s0 = next; s1 = s.s0; s2 = rotate_left s.s1 30; s3 = s.s2; s4 = s.s3 })

pub sha1_transform : Sha1State → List ℕ → Outcome Sha1State
sha1_transform s block = do
  words16 ← load_words 16 block
  words ← expand 64 words16
  t ← sha1_rounds 80 0 words s
  ok (record {
    s0 = u32 (s.s0 + t.s0);
    s1 = u32 (s.s1 + t.s1);
    s2 = u32 (s.s2 + t.s2);
    s3 = u32 (s.s3 + t.s3);
    s4 = u32 (s.s4 + t.s4);
  })

pub initial : Sha1State
initial = record {
  s0 = 0x67452301;
  s1 = 0xefcdab89;
  s2 = 0x98badcfe;
  s3 = 0x10325476;
  s4 = 0xc3d2e1f0;
}

-- The buffer is not set; its contents are the argument.
pub sha1_init : List ℕ → Sha1Context
sha1_init buffer = record { state = initial; bits = 0; buffer = buffer; used = 0 }

-- The loop of `libmpq__sha1_update`.
pub sha1_loop : ℕ → Sha1Context → List ℕ → ℕ → Outcome Sha1Context
sha1_loop zero context bytes size = fault
sha1_loop (suc fuel) context bytes size = if size == 0 then ok context else (do
  let count = if ltb size (64 - context.used) then size else 64 - context.used
  chunk ← read_range bytes 0 count
  buffer ← write_range context.buffer context.used chunk
  let used = context.used + count
  state ← (if used == 64 then sha1_transform context.state buffer else ok context.state)
  sha1_loop fuel
      (record {
        state = state;
        bits = context.bits;
        buffer = buffer;
        used = (if used == 64 then 0 else used);
      })
      (drop count bytes) (size - count))

pub sha1_update : Sha1Context → List ℕ → ℕ → Outcome Sha1Context
sha1_update context bytes size =
    sha1_loop (size + 1) (record context { bits = u64 (context.bits + u64 (size * 8)) }) bytes size

-- `padding[64] = { 0x80 }`.
pub padding : List ℕ
padding = 0x80 ∷ replicate 63 0

-- `length[7 - i] = (uint8_t)(bits >> (i * 8))` for `left` values of `i`.
pub store_bits : ℕ → ℕ → ℕ → List ℕ → List ℕ
store_bits zero i bits buffer = buffer
store_bits (suc left) i bits buffer =
    store_bits left (i + 1) bits (set buffer (7 - i) (u8 (bits >>> (i * 8))))

pub store_state : Sha1State → List ℕ → Outcome (List ℕ)
store_state s digest0 = do
  digest1 ← store_be32 s.s0 digest0
  digest2 ← at_offset 4 (store_be32 s.s1) digest1
  digest3 ← at_offset 8 (store_be32 s.s2) digest2
  digest4 ← at_offset 12 (store_be32 s.s3) digest3
  at_offset 16 (store_be32 s.s4) digest4

-- The context is cleared; the result is the digest.
pub sha1_final : Sha1Context → List ℕ → Outcome (List ℕ)
sha1_final context digest = do
  let bits = store_bits 8 0 context.bits (replicate 8 0)
  context1 ←
      sha1_update context padding
        (if ltb context.used 56 then 56 - context.used else 120 - context.used)
  context2 ← sha1_update context1 bits 8
  store_state context2.state digest

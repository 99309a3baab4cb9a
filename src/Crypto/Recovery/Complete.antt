-- ===== src/Crypto/Recovery/Complete.antt =====
-- The search finds a seed whenever one explains the beginning of the payload.
use libmpq.Base.{
  ℕ, zero, suc, ◌+◌, ◌-◌, ◌^◌, ◌≤◌, ◌<◌, ◌≡◌, refl, ap, ◌∙◌, inl, inr, arith, bit_and, bit_xor,
  List, [], ◌∷◌, Option, none, some, ok, ◌==◌, u32, if◌then◌else◌, length, IsByte, IsU32, All,
  ==_iff, le→ltb, Option-cases,
}
use libmpq.Base.Bits.{xor-lt, xor_cancel_left, and-le}
use libmpq.Endian.{load_le32, store_le32}
use libmpq.Endian.RoundTrip.{split_le32, le32_bytes}
use libmpq.Crypto.{next_seed, next_seed2, decrypt_words, decrypt_block}
use libmpq.Crypto.Words.{cipher_word, crypt_word-ok}
use libmpq.Crypto.Recovery.{
  known_words, second_word, try_signature, try_signatures, detect_loop, detect_file_key,
}
use libmpq.Crypto.Recovery.Sound.{
  Decrypts, AnyOf, AnyOf-map, Recovers, second_word-ok, word_of, word_of-IsU32,
}

-- A decryption of two words is what the search looks for.
Recovers-Decrypts :
    (b0 b1 b2 b3 b4 b5 b6 b7 : ℕ) (rest : List ℕ) (key first second : ℕ)
    → All IsByte (b0 ∷ b1 ∷ b2 ∷ b3 ∷ b4 ∷ b5 ∷ b6 ∷ b7 ∷ rest)
    → Decrypts (b0 ∷ b1 ∷ b2 ∷ b3 ∷ b4 ∷ b5 ∷ b6 ∷ b7 ∷ rest) key first second
    → Recovers key (word_of b0 b1 b2 b3) (word_of b4 b5 b6 b7) first second
unfolding second_word decrypt_block decrypt_words load_le32 store_le32
Recovers-Decrypts b0 b1 b2 b3 b4 b5 b6 b7 rest key first second h (out, e, ef, es) =
    let e1 : ℕ = word_of b0 b1 b2 b3 in
    let e2 : ℕ = word_of b4 b5 b6 b7 in
    let (w, ew, hw) = cipher_word key in
    let (w', ew', hw') = cipher_word (next_seed key) in
    let first' : ℕ = bit_xor e1 (u32 (key + u32 (0xEEEEEEEE + w))) in
    let second' : ℕ =
      bit_xor e2 (u32 (next_seed key + u32 (next_seed2 first' (u32 (0xEEEEEEEE + w)) + w'))) in
    let hf : IsU32 first' =
      xor-lt 32 e1 (u32 (key + u32 (0xEEEEEEEE + w)))
        (word_of-IsU32 b0 b1 b2 b3 h.0 h.1.0 h.1.1.0 h.1.1.1.0) (omega arith) in
    let hs : IsU32 second' =
      xor-lt 32 e2 (u32 (next_seed key + u32 (next_seed2 first' (u32 (0xEEEEEEEE + w)) + w')))
        (word_of-IsU32 b4 b5 b6 b7 h.1.1.1.1.0 h.1.1.1.1.1.0 h.1.1.1.1.1.1.0 h.1.1.1.1.1.1.1.0)
        (omega arith) in
    let eo : out ≡ le32_bytes first' (le32_bytes second' rest) = cc (rw (ew, ew') at e) in
    let ef' : first' ≡ first = cc (rw (eo, split_le32 first' hf) at ef) in
    let es' : second' ≡ second = cc (rw (eo, split_le32 second' hs) at es) in
    (w, ew, ef', rw (← ef', ew') (ap ok es'))

try_signature_total :
    (i e1 e2 first second : ℕ)
    → i < 0x100
    → (o : Option ℕ) × (try_signature i e1 e2 first second ≡ ok o)
unfolding try_signature
try_signature_total i e1 e2 first second h =
    let (w, ew, hw) = crypt_word-ok (0x400 + i) (omega arith) in
    let seed : ℕ = u32 (u32 (bit_xor e1 first + 2 ^ 32 - 0xEEEEEEEE) + 2 ^ 32 - w) in
    let (v, ev) = second_word-ok seed (u32 (0xEEEEEEEE + w)) first e2 in
    (
      if bit_and seed 0xff == i then (if v == second then some seed else none) else none,
      ground (arith, ew, ev),
    )

try_signature_finds :
    (key e1 e2 first second : ℕ)
    → IsU32 key
    → Recovers key e1 e2 first second
    → try_signature (bit_and key 0xff) e1 e2 first second ≡ ok (some key)
unfolding try_signature
try_signature_finds key e1 e2 first second hk (w, ew, ef, es) = rw (
  ew,
  mask,
  undo,
  es,
  (==_iff (bit_and key 0xff) (bit_and key 0xff)).1 refl,
  (==_iff second second).1 refl,
)
  where
    mask : bit_xor e1 first ≡ u32 (key + u32 (0xEEEEEEEE + w))
    mask = rw (← ef) (xor_cancel_left e1 (u32 (key + u32 (0xEEEEEEEE + w))))

    word : IsU32 w
    word = let (v, ev, hv) = cipher_word key in let e : v ≡ w = cc (ew, ev) in rw (← e) hv

    undo : u32 (u32 (u32 (key + u32 (0xEEEEEEEE + w)) + 2 ^ 32 - 0xEEEEEEEE) + 2 ^ 32 - w) ≡ key
    undo = omega (arith, word)

try_signatures_total :
    (i e1 e2 : ℕ) (known : List (ℕ × ℕ))
    → i < 0x100
    → (o : Option ℕ) × (try_signatures i e1 e2 known ≡ ok o)
unfolding try_signatures
try_signatures_total i e1 e2 [] h = (none, refl)
try_signatures_total i e1 e2 ((first, second) ∷ known) h =
    let (o, e) = try_signature_total i e1 e2 first second h in
    elim (Option-cases o) [
      | inl n ↦ rw (e, n) (try_signatures_total i e1 e2 known h)
      | inr (k, s) ↦ (some k, rw (e, s))
    ]

try_signatures_finds :
    (key e1 e2 : ℕ) (known : List (ℕ × ℕ))
    → IsU32 key
    → AnyOf (Recovers key e1 e2) known
    → (k : ℕ) × (try_signatures (bit_and key 0xff) e1 e2 known ≡ ok (some k))
unfolding try_signatures
try_signatures_finds key e1 e2 [] hk r = absurd r
try_signatures_finds key e1 e2 ((first, second) ∷ known) hk (inl r) =
    (key, rw (try_signature_finds key e1 e2 first second hk r))
try_signatures_finds key e1 e2 ((first, second) ∷ known) hk (inr r) =
    let i : ℕ = bit_and key 0xff in
    let (o, e) = try_signature_total i e1 e2 first second (omega (arith, and-le key 0xff)) in
    elim (Option-cases o) [
      | inl n ↦ rw (e, n) (try_signatures_finds key e1 e2 known hk r)
      | inr (k, s) ↦ (k, rw (e, s))
    ]

detect_loop_finds :
    (left i target k e1 e2 : ℕ) (known : List (ℕ × ℕ))
    → i ≤ target
    → target < i + left
    → i + left ≤ 0x100
    → try_signatures target e1 e2 known ≡ ok (some k)
    → (key : ℕ) × (detect_loop left i e1 e2 known ≡ ok key)
unfolding detect_loop
detect_loop_finds zero i target k e1 e2 known lo hi fits h = absurd (omega arith)
detect_loop_finds (suc left) i target k e1 e2 known lo hi fits h =
    let (o, e) = try_signatures_total i e1 e2 known (omega arith) in
    elim (Option-cases o) [
      | inl n ↦
          rw (e, n)
            (detect_loop_finds left (i + 1) target k e1 e2 known (later (e ∙ ap ok n)) (omega arith)
              (omega arith) h)
      | inr (k', s) ↦ (k', rw (e, s))
    ]
  where
    later : try_signatures i e1 e2 known ≡ ok none → i + 1 ≤ target
    later e = ground (arith, e, h)

-- Where some key decrypts the first two words of a payload of at least eight bytes to one of the
-- four known beginnings, `detect_file_key` returns a key.
pub detect_file_key_finds :
    (buf : List ℕ) (in_size file_size key old : ℕ)
    → All IsByte buf
    → 8 ≤ in_size
    → in_size ≤ length buf
    → IsU32 key
    → AnyOf (Decrypts buf key) (known_words file_size)
    → (found : ℕ) × (detect_file_key (some buf) in_size file_size (some old) ≡ ok found)
unfolding detect_file_key load_le32
detect_file_key_finds (b0 ∷ b1 ∷ b2 ∷ b3 ∷ b4 ∷ b5 ∷ b6 ∷ b7 ∷ rest) in_size file_size key old h n k
      hk d =
    let e1 : ℕ = word_of b0 b1 b2 b3 in
    let e2 : ℕ = word_of b4 b5 b6 b7 in
    let (found, ef) = try_signatures_finds key e1 e2 (known_words file_size) hk (
      AnyOf-map _ (Recovers key e1 e2)
        (λ a b r. Recovers-Decrypts b0 b1 b2 b3 b4 b5 b6 b7 rest key a b h r)
        (known_words file_size) d) in
    let (key', ek) =
      detect_loop_finds 0x100 0 (bit_and key 0xff) found e1 e2 (known_words file_size) (omega arith)
        (omega (arith, and-le key 0xff)) (omega arith) ef in
    (key', rw (le→ltb in_size 8 n) ek)
detect_file_key_finds _ in_size file_size key old h n k hk d = absurd (omega arith)

-- ===== src/Digest/Sha1/Transform.antt =====
-- The transformation of one block, `transform` of src/mpq-md5.c, reads inside its tables.
use libmpq.Base.{
  ℕ, zero, suc, ◌+◌, ◌-◌, ◌*◌, ◌≤◌, ◌≡◌, refl, ap, arith, List, [], ◌∷◌, ◌++◌, ok, length, drop,
  u32, bit_xor,
}
use libmpq.Base.Lists.{get_elem?_lt, length-append, length-drop}
use libmpq.Endian.RoundTrip.{load_be32_total}
use libmpq.Digest.Sha1.{Sha1State, load_words, expand, rotate_left, sha1_rounds, sha1_transform}

load_words_total :
    (left : ℕ) (block : List ℕ)
    → left * 4 ≤ length block
    → (words : List ℕ) × (load_words left block ≡ ok words) × (length words ≡ left)
unfolding load_words
load_words_total zero block h = ([], refl, refl)
load_words_total (suc left) block h =
    let (word, e) = load_be32_total block (omega arith) in
    let (words, es, l) =
      load_words_total left (drop 4 block) (omega (arith, length-drop 4 block)) in
    (word ∷ words, rw (e, es), ap suc l)

expand_total :
    (left : ℕ) (words : List ℕ)
    → 16 ≤ length words
    → (all : List ℕ) × (expand left words ≡ ok all) × (length all ≡ length words + left)
unfolding expand
expand_total zero words h = (words, refl, omega arith)
expand_total (suc left) words h =
    let (a, ea) = get_elem?_lt words (length words - 3) (omega arith) in
    let (b, eb) = get_elem?_lt words (length words - 8) (omega arith) in
    let (c, ec) = get_elem?_lt words (length words - 14) (omega arith) in
    let (d, ed) = get_elem?_lt words (length words - 16) (omega arith) in
    let longer = words ++ (rotate_left (bit_xor (bit_xor (bit_xor a b) c) d) 1 ∷ []) in
    let l : length longer ≡ length words + 1 =
      length-append words (rotate_left (bit_xor (bit_xor (bit_xor a b) c) d) 1 ∷ []) in
    let (all, e, la) = expand_total left longer (omega arith) in
    (all, rw (ea, eb, ec, ed) e, omega arith)

sha1_rounds_total :
    (left i : ℕ) (words : List ℕ) (s : Sha1State)
    → length words ≡ 80
    → i + left ≤ 80
    → (t : Sha1State) × (sha1_rounds left i words s ≡ ok t)
unfolding sha1_rounds
sha1_rounds_total zero i words s l h = (s, refl)
sha1_rounds_total (suc left) i words s l h =
    let (word, e) = get_elem?_lt words i (omega arith) in
    rw e (sha1_rounds_total left (i + 1) words _ l (omega arith))

pub sha1_transform_total :
    (s : Sha1State) (block : List ℕ)
    → length block ≡ 64
    → (t : Sha1State) × (sha1_transform s block ≡ ok t)
unfolding sha1_transform
sha1_transform_total s block l =
    let (words16, e16, l16) = load_words_total 16 block (omega arith) in
    let (words, e, lw) = expand_total 64 words16 (omega arith) in
    let (t, et) = sha1_rounds_total 80 0 words s (omega arith) (omega arith) in
    (
      record {
        s0 = u32 (s.s0 + t.s0);
        s1 = u32 (s.s1 + t.s1);
        s2 = u32 (s.s2 + t.s2);
        s3 = u32 (s.s3 + t.s3);
        s4 = u32 (s.s4 + t.s4);
      },
      rw (e16, e, et),
    )

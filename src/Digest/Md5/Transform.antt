-- ===== src/Digest/Md5/Transform.antt =====
-- The transformation of one block, `transform` of src/mpq-md5.c, reads inside its tables.
use libmpq.Base.{
  ℕ, zero, suc, ◌+◌, ◌*◌, ◌/◌, ◌%◌, ◌≤◌, ◌<◌, ◌≡◌, refl, arith, List, ok, length, u32,
}
use libmpq.Base.Lists.{get_elem?_lt}
use libmpq.Endian.Words.{load_words_total}
use libmpq.Digest.Md5.{Md5State, constants, shifts, word_index, md5_rounds, md5_transform}

word_index-lt : (i : ℕ) → i < 64 → word_index i < 16
unfolding word_index
word_index-lt i h = ground arith

md5_rounds_total :
    (left i : ℕ) (words : List ℕ) (s : Md5State)
    → length words ≡ 16
    → i + left ≤ 64
    → (t : Md5State) × (md5_rounds left i words s ≡ ok t)
unfolding md5_rounds
md5_rounds_total zero i words s l h = (s, refl)
md5_rounds_total (suc left) i words s l h =
    let (shift, e1) = get_elem?_lt shifts (i / 16 * 4 + i % 4) (unfold shifts in omega arith) in
    let (constant, e2) = get_elem?_lt constants i (unfold constants in omega arith) in
    let (word, e3) =
      get_elem?_lt words (word_index i) (omega (arith, word_index-lt i (omega arith))) in
    rw (e1, e2, e3) (md5_rounds_total left (i + 1) words _ l (omega arith))

pub md5_transform_total :
    (s : Md5State) (block : List ℕ)
    → length block ≡ 64
    → (t : Md5State) × (md5_transform s block ≡ ok t)
unfolding md5_transform
md5_transform_total s block l =
    let (words, e, lw) = load_words_total 16 block (omega arith) in
    let (t, et) = md5_rounds_total 64 0 words s lw (omega arith) in
    (
      record {
        s0 = u32 (s.s0 + t.s0);
        s1 = u32 (s.s1 + t.s1);
        s2 = u32 (s.s2 + t.s2);
        s3 = u32 (s.s3 + t.s3);
      },
      rw (e, et),
    )

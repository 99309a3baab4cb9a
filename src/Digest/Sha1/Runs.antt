-- ===== src/Digest/Sha1/Runs.antt =====
-- Concrete digests of src/mpq-sha1.c.
use libmpq.Base.{
  ℕ, ◌*◌, ◌≤◌, ◌≡◌, refl, arith, List, [], ◌∷◌, ◌++◌, some, Outcome, ok, u64, length, replicate,
}
use libmpq.Endian.{load_be32, store_be32}
use libmpq.Digest.Blocks.{Chain, Absorbed-init, padded, joined}
use libmpq.Digest.Sha1.{
  Sha1State, Sha1Context, rotate_left, expand, round_constant, initial, padding, load_words, mix,
  sha1_rounds, sha1_loop, store_bits, store_state, sha1_transform, sha1_init, sha1_update,
  sha1_final,
}
use libmpq.Digest.Sha1.Update.{IsDigesting, sha1_update-IsDigesting}
use libmpq.Digest.Sha1.Final.{big_endian, feed, sha1_digest-Chain}

-- "abc", in two pieces.
abbrev abc : List (List ℕ)
abc = (0x61 ∷ []) ∷ (0x62 ∷ 0x63 ∷ []) ∷ []

sha1_digest-Chain_example :
    (state : Sha1State) × (context : Sha1Context) × (out : List ℕ) × Chain sha1_transform initial
      (padded (joined abc) (big_endian (u64 (length (joined abc) * 8))))
      state
    × (store_state state (replicate 20 0) ≡ ok out)
    × (feed (sha1_init (replicate 64 9)) abc ≡ ok context)
    × (sha1_final context (replicate 20 0) ≡ ok out)
sha1_digest-Chain_example =
    sha1_digest-Chain abc (replicate 64 9) (replicate 20 0) refl (omega arith)

sha1_update-IsDigesting_example :
    (context : Sha1Context) × (sha1_update (sha1_init (replicate 64 9)) ((1 ∷ 2 ∷ []) ++ (7 ∷ [])) 2
      ≡ ok context)
    × IsDigesting context ([] ++ (1 ∷ 2 ∷ []))
unfolding sha1_init
sha1_update-IsDigesting_example =
    sha1_update-IsDigesting (sha1_init (replicate 64 9)) [] (1 ∷ 2 ∷ []) (7 ∷ []) 2
      (Absorbed-init sha1_transform initial (replicate 64 9) refl, refl) refl

sha1_final_of_empty :
    sha1_final (sha1_init (replicate 64 9)) (replicate 20 0)
    ≡ ok (
        0xda ∷ 0x39 ∷ 0xa3 ∷ 0xee ∷ 0x5e ∷ 0x6b ∷ 0x4b ∷ 0x0d ∷ 0x32 ∷ 0x55 ∷ 0xbf ∷ 0xef ∷ 0x95
        ∷ 0x60 ∷ 0x18 ∷ 0x90 ∷ 0xaf ∷ 0xd8 ∷ 0x07 ∷ 0x09 ∷ [])
unfolding sha1_final sha1_init sha1_update sha1_loop sha1_transform sha1_rounds load_words mix
    expand rotate_left round_constant initial padding store_bits store_state load_be32 store_be32
    libmpq.Base.Memory.read_range libmpq.Base.Memory.write_range
sha1_final_of_empty = refl

-- ===== src/Digest/Md5/Runs.antt =====
-- Concrete digests of src/mpq-md5.c.
use libmpq.Base.{
  ℕ, ◌*◌, ◌≤◌, ◌≡◌, refl, arith, List, [], ◌∷◌, ◌++◌, some, Outcome, ok, u64, length, replicate,
}
use libmpq.Endian.{load_le32, store_le32, store_le64, load_le64}
use libmpq.Endian.Words.{load_words}
use libmpq.Digest.Blocks.{Chain, Absorbed-init, padded, joined}
use libmpq.Digest.Md5.{
  Md5State, Md5Context, constants, shifts, initial, padding, mix, word_index, md5_rounds, md5_loop,
  store_state, md5_transform, md5_init, md5_update, md5_final,
}
use libmpq.Digest.Md5.Update.{IsDigesting, md5_update-IsDigesting}
use libmpq.Digest.Md5.Final.{feed, md5_digest-Chain}

-- "abc", in two pieces.
abbrev abc : List (List ℕ)
abc = (0x61 ∷ []) ∷ (0x62 ∷ 0x63 ∷ []) ∷ []

md5_digest-Chain_example :
    (bits : List ℕ) × (state : Md5State) × (context : Md5Context) × (out : List ℕ) × (load_le64
        (some bits)
      ≡ ok (u64 (length (joined abc) * 8)))
    × (length bits ≡ 8)
    × Chain md5_transform initial (padded (joined abc) bits) state
    × (store_state state (replicate 16 0) ≡ ok out)
    × (feed md5_init abc ≡ ok context)
    × (md5_final context (replicate 16 0) ≡ ok out)
md5_digest-Chain_example = md5_digest-Chain abc (replicate 16 0) (omega arith)

md5_update-IsDigesting_example :
    (context : Md5Context) × (md5_update md5_init ((1 ∷ 2 ∷ []) ++ (7 ∷ [])) 2 ≡ ok context)
    × IsDigesting context ([] ++ (1 ∷ 2 ∷ []))
unfolding md5_init
md5_update-IsDigesting_example =
    md5_update-IsDigesting md5_init [] (1 ∷ 2 ∷ []) (7 ∷ []) 2
      (Absorbed-init md5_transform initial (replicate 64 0) refl, refl) refl

-- The digest of the empty message.
md5_final_of_empty :
    md5_final md5_init (replicate 16 0)
    ≡ ok (
        0xd4 ∷ 0x1d ∷ 0x8c ∷ 0xd9 ∷ 0x8f ∷ 0x00 ∷ 0xb2 ∷ 0x04 ∷ 0xe9 ∷ 0x80 ∷ 0x09 ∷ 0x98 ∷ 0xec
        ∷ 0xf8 ∷ 0x42 ∷ 0x7e ∷ [])
unfolding md5_final md5_init md5_update md5_loop md5_transform md5_rounds load_words mix word_index
    constants shifts initial padding store_state load_le32 store_le32 store_le64
    libmpq.Base.Memory.read_range libmpq.Base.Memory.write_range
md5_final_of_empty = refl

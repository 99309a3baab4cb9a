-- ===== src/Crypto/Known.antt =====
-- The hashes of "(listfile)", as src/mpq-crypto.c computes them.
use libmpq.Base.{ℕ, ◌-◌, ◌≡◌, refl, ◌&&◌, List, [], ◌∷◌, ok, ltb, if◌then◌else◌}
use libmpq.Crypto.{crypt_word}
use libmpq.Crypto.Table.{crypt_buf, phase0, phase1, phase2, phase3, phase4}
use libmpq.Crypto.StringHash.{hash_string, hash_loop}

-- `toupper` of the C locale.
abbrev pub upper : ℕ → ℕ
upper c = if ltb 96 c && ltb c 123 then c - 32 else c

abbrev pub listfile : List ℕ
listfile = 0x28 ∷ 0x6c ∷ 0x69 ∷ 0x73 ∷ 0x74 ∷ 0x66 ∷ 0x69 ∷ 0x6c ∷ 0x65 ∷ 0x29 ∷ []

pub listfile_hash : hash_string upper listfile 0 ≡ ok 0x5F3DE859
unfolding hash_string hash_loop crypt_word crypt_buf phase0 phase1 phase2 phase3 phase4
listfile_hash = refl

pub listfile_hash_a : hash_string upper listfile 0x100 ≡ ok 0xFD657910
unfolding hash_string hash_loop crypt_word crypt_buf phase0 phase1 phase2 phase3 phase4
listfile_hash_a = refl

pub listfile_hash_b : hash_string upper listfile 0x200 ≡ ok 0x4E9B98A7
unfolding hash_string hash_loop crypt_word crypt_buf phase0 phase1 phase2 phase3 phase4
listfile_hash_b = refl

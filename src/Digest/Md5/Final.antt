-- ===== src/Digest/Md5/Final.antt =====
-- The digest of a message, `libmpq__md5_final` of src/mpq-md5.c.
use mathlib.Core.Path.{subst}
use mathlib.Core.List.{append_assoc, append-nil}
use libmpq.Base.{
  ℕ, ◌+◌, ◌-◌, ◌*◌, ◌%◌, ◌≤◌, ◌≡◌, refl, sym, ap, ◌∙◌, arith, List, [], ◌∷◌, ◌++◌, Outcome, some,
  ok, ltb, ◌>>=◌, u64, if◌then◌else◌, length, replicate,
}
use libmpq.Base.Lists.{length-append, length-replicate}
use libmpq.Endian.{load_le64, store_le64, store_le32}
use libmpq.Endian.RoundTrip.{load_le64-store_le64}
use libmpq.Digest.Blocks.{
  Chain, Absorbed-init, Absorbed-whole, zeros_for, padded, padding_split, joined,
}
use libmpq.Digest.Md5.{
  Md5State, Md5Context, md5_transform, initial, md5_init, md5_update, md5_final, padding,
  store_state,
}
use libmpq.Digest.Md5.Update.{IsDigesting, md5_update-IsDigesting}

store_state_total :
    (s : Md5State) (digest : List ℕ)
    → 16 ≤ length digest
    → (out : List ℕ) × (store_state s digest ≡ ok out)
unfolding store_state store_le32
store_state_total s
      (b0 ∷ b1 ∷ b2 ∷ b3 ∷ b4 ∷ b5 ∷ b6 ∷ b7 ∷ b8 ∷ b9 ∷ b10 ∷ b11 ∷ b12 ∷ b13 ∷ b14 ∷ b15 ∷ rest)
      h =
    (_, refl)
store_state_total s _ h = absurd (omega arith)

final_steps :
    (context context1 context2 : Md5Context) (digest bits : List ℕ) (z : ℕ)
    → z ≡ zeros_for context.size
    → store_le64 (u64 (context.size * 8)) (replicate 8 0) ≡ ok bits
    → md5_update context padding (z + 1) ≡ ok context1
    → md5_update context1 bits 8 ≡ ok context2
    → md5_final context digest ≡ store_state context2.state digest
unfolding md5_final
final_steps context context1 context2 digest bits z ez eb e1 e2 =
    let count : (if ltb (context.size % 64) 56
          then 56 - context.size % 64
          else 120 - context.size % 64)
        ≡ z + 1 =
      ground arith in
    rw (count, eb, e1, e2)

-- `libmpq__md5_final` returns the state that the blocks of the padded message lead to.
pub md5_final-Chain :
    (context : Md5Context) (message digest : List ℕ)
    → IsDigesting context message
    → 16 ≤ length digest
    → (bits : List ℕ) × (state : Md5State) × (out : List ℕ) × (load_le64 (some bits)
        ≡ ok (u64 (length message * 8)))
      × (length bits ≡ 8)
      × Chain md5_transform initial (padded message bits) state
      × (store_state state digest ≡ ok out)
      × (md5_final context digest ≡ ok out)
unfolding padding
md5_final-Chain context message digest good room =
    let z : ℕ = zeros_for (length message) in
    let (bits, eb, el, skip, lb) =
      load_le64-store_le64 (u64 (context.size * 8)) (replicate 8 0) (omega arith) (omega arith) in
    let total : u64 (context.size * 8) ≡ u64 (length message * 8) = omega (arith, good.1) in
    let pad : List ℕ = 0x80 ∷ replicate z 0 in
    let l1 : length pad ≡ z + 1 = omega (arith, length-replicate {A = ℕ} z 0) in
    let (context1, e1, good1) =
      md5_update-IsDigesting context message pad (replicate (63 - z) 0) (z + 1) good l1 in
    let (context2, e2, good2) =
      md5_update-IsDigesting context1 (message ++ pad) bits [] 8 good1 lb in
    let (out, eo) = store_state_total context2.state digest room in
    let long : length (padded message bits) ≡ length message + (z + 1) + 8 =
      length-append (message ++ pad) bits ∙ omega (arith, length-append message pad, l1, lb) in
    (
      bits,
      context2.state,
      out,
      el ∙ ap ok total,
      lb,
      Absorbed-whole md5_transform initial (padded message bits) context2.state context2.buffer
          (context2.size % 64) good2.0 (omega (arith, good2.1)),
      eo,
      final_steps context context1 context2 digest bits z (omega (arith, good.1)) eb
            (ap (λ b. md5_update context b (z + 1)) (padding_split z (omega arith)) ∙ e1)
            (ap (λ b. md5_update context1 b 8) (sym (append-nil bits)) ∙ e2)
          ∙ eo,
    )

-- The pieces of a message, taken in one after the other.
pub feed : Md5Context → List (List ℕ) → Outcome Md5Context
feed context [] = ok context
feed context (piece ∷ pieces) = do
  context' ← md5_update context piece (length piece)
  feed context' pieces

feed-IsDigesting :
    (pieces : List (List ℕ)) (context : Md5Context) (message : List ℕ)
    → IsDigesting context message
    → (context' : Md5Context) × (feed context pieces ≡ ok context')
      × IsDigesting context' (message ++ joined pieces)
unfolding feed
feed-IsDigesting [] context message good =
    (context, refl, subst (IsDigesting context) (sym (append-nil message)) good)
feed-IsDigesting (piece ∷ pieces) context message good =
    let (context1, e1, good1) =
      md5_update-IsDigesting context message piece [] (length piece) good refl in
    let (context2, e2, good2) = feed-IsDigesting pieces context1 (message ++ piece) good1 in
    (
      context2,
      rw (ap (λ b. md5_update context b (length piece)) (sym (append-nil piece)) ∙ e1) e2,
      subst (IsDigesting context2) (append_assoc message piece (joined pieces)) good2,
    )

-- A message given to MD5 in any pieces, with a digest buffer of at least 16 bytes, ends without a
-- fault, and the digest is the state to which the 64-byte blocks of the message followed by a byte
-- 0x80, as few zeros as complete the last block, and its length in bits modulo 2^64 as eight
-- little-endian bytes take the initial state.
pub md5_digest-Chain :
    (pieces : List (List ℕ)) (digest : List ℕ)
    → 16 ≤ length digest
    → (bits : List ℕ) × (state : Md5State) × (context : Md5Context) × (out : List ℕ) × (load_le64
          (some bits)
        ≡ ok (u64 (length (joined pieces) * 8)))
      × (length bits ≡ 8)
      × Chain md5_transform initial (padded (joined pieces) bits) state
      × (store_state state digest ≡ ok out)
      × (feed md5_init pieces ≡ ok context)
      × (md5_final context digest ≡ ok out)
unfolding md5_init
md5_digest-Chain pieces digest room =
    let (context, e, good) =
      feed-IsDigesting pieces md5_init []
        (Absorbed-init md5_transform initial (replicate 64 0) refl, refl) in
    let (bits, state, out, el, lb, chain, eo, ef) =
      md5_final-Chain context (joined pieces) digest good room in
    (bits, state, context, out, el, lb, chain, eo, e, ef)

-- ===== src/Digest/Sha1/Final.antt =====
-- The digest of a message, `libmpq__sha1_final` of src/mpq-sha1.c.
use mathlib.Core.Path.{subst}
use mathlib.Core.List.{append_assoc, append-nil}
use libmpq.Base.{
  ℕ, ◌+◌, ◌-◌, ◌*◌, ◌%◌, ◌≤◌, ◌<◌, ◌≡◌, refl, sym, ap, ◌∙◌, arith, List, [], ◌∷◌, ◌++◌, Outcome, ok,
  ltb, ◌>>=◌, u8, u64, ◌>>>◌, if◌then◌else◌, length, replicate,
}
use libmpq.Base.Lists.{length-append, length-replicate}
use libmpq.Endian.{store_be32}
use libmpq.Digest.Blocks.{
  Chain, Chain-length, Absorbed-init, Absorbed-whole, zeros_for, padded, padding_split, joined,
}
use libmpq.Digest.Sha1.{
  Sha1State, Sha1Context, sha1_transform, initial, sha1_init, sha1_update, sha1_final, padding,
  store_bits, store_state,
}
use libmpq.Digest.Sha1.Update.{Holds, IsDigesting, used_fits, sha1_update-IsDigesting}

store_state_total :
    (s : Sha1State) (digest : List ℕ)
    → 20 ≤ length digest
    → (out : List ℕ) × (store_state s digest ≡ ok out)
unfolding store_state store_be32
store_state_total s
      (b0 ∷ b1 ∷ b2 ∷ b3 ∷ b4 ∷ b5 ∷ b6 ∷ b7 ∷ b8 ∷ b9 ∷ b10 ∷ b11 ∷ b12 ∷ b13 ∷ b14 ∷ b15 ∷ b16
        ∷ b17 ∷ b18 ∷ b19 ∷ rest)
      h =
    (_, refl)
store_state_total s _ h = absurd (omega arith)

-- The big-endian bytes of a 64-bit number.
abbrev pub big_endian : ℕ → List ℕ
big_endian n =
    u8 (n >>> 56)
    ∷ u8 (n >>> 48)
    ∷ u8 (n >>> 40)
    ∷ u8 (n >>> 32)
    ∷ u8 (n >>> 24)
    ∷ u8 (n >>> 16)
    ∷ u8 (n >>> 8)
    ∷ u8 (n >>> 0)
    ∷ []

store_bits_lem : (n : ℕ) → store_bits 8 0 n (replicate 8 0) ≡ big_endian n
unfolding store_bits
store_bits_lem n = refl

final_steps :
    (context context1 context2 : Sha1Context) (digest bits : List ℕ) (z : ℕ)
    → context.used < 64
    → z ≡ zeros_for context.used
    → store_bits 8 0 context.bits (replicate 8 0) ≡ bits
    → sha1_update context padding (z + 1) ≡ ok context1
    → sha1_update context1 bits 8 ≡ ok context2
    → sha1_final context digest ≡ store_state context2.state digest
unfolding sha1_final
final_steps context context1 context2 digest bits z room ez eb e1 e2 =
    let count : (if ltb context.used 56 then 56 - context.used else 120 - context.used) ≡ z + 1 =
      ground arith in
    rw (count, eb, e1, e2)

-- What `used` says of the length of the message.
used_of :
    (context : Sha1Context) (message : List ℕ)
    → IsDigesting context message
    → context.used ≡ length message % 64
used_of context message good =
    let held : Holds context message = good.0 in
    omega (
      arith,
      held.filled,
      held.short,
      ap length held.splits,
      length-append held.whole held.tail,
      Chain-length sha1_transform initial held.whole context.state held.chained,
    )

-- `libmpq__sha1_final` returns the state that the blocks of the padded message lead to.
pub sha1_final-Chain :
    (context : Sha1Context) (message digest : List ℕ)
    → IsDigesting context message
    → 20 ≤ length digest
    → (state : Sha1State) × (out : List ℕ) × Chain sha1_transform initial
        (padded message (big_endian (u64 (length message * 8))))
        state
      × (store_state state digest ≡ ok out)
      × (sha1_final context digest ≡ ok out)
unfolding padding
sha1_final-Chain context message digest good room =
    let z : ℕ = zeros_for (length message) in
    let bits : List ℕ = big_endian (u64 (length message * 8)) in
    let pad : List ℕ = 0x80 ∷ replicate z 0 in
    let l1 : length pad ≡ z + 1 = omega (arith, length-replicate {A = ℕ} z 0) in
    let (context1, e1, good1) =
      sha1_update-IsDigesting context message pad (replicate (63 - z) 0) (z + 1) good l1 in
    let (context2, e2, good2) =
      sha1_update-IsDigesting context1 (message ++ pad) bits [] 8 good1 refl in
    let (out, eo) = store_state_total context2.state digest room in
    let long : length (padded message bits) ≡ length message + (z + 1) + 8 =
      length-append (message ++ pad) bits ∙ omega (arith, length-append message pad, l1) in
    (
      context2.state,
      out,
      Absorbed-whole sha1_transform initial (padded message bits) context2.state context2.buffer
          context2.used good2.0 (omega (arith, used_of context2 (padded message bits) good2)),
      eo,
      final_steps context context1 context2 digest bits z (used_fits context message good.0)
            (omega (arith, used_of context message good))
            (store_bits_lem context.bits ∙ ap big_endian good.1)
            (ap (λ b. sha1_update context b (z + 1)) (padding_split z (omega arith)) ∙ e1)
            (ap (λ b. sha1_update context1 b 8) (sym (append-nil bits)) ∙ e2)
          ∙ eo,
    )

-- The pieces of a message, taken in one after the other.
pub feed : Sha1Context → List (List ℕ) → Outcome Sha1Context
feed context [] = ok context
feed context (piece ∷ pieces) = do
  context' ← sha1_update context piece (length piece)
  feed context' pieces

feed-IsDigesting :
    (pieces : List (List ℕ)) (context : Sha1Context) (message : List ℕ)
    → IsDigesting context message
    → (context' : Sha1Context) × (feed context pieces ≡ ok context')
      × IsDigesting context' (message ++ joined pieces)
unfolding feed
feed-IsDigesting [] context message good =
    (context, refl, subst (IsDigesting context) (sym (append-nil message)) good)
feed-IsDigesting (piece ∷ pieces) context message good =
    let (context1, e1, good1) =
      sha1_update-IsDigesting context message piece [] (length piece) good refl in
    let (context2, e2, good2) = feed-IsDigesting pieces context1 (message ++ piece) good1 in
    (
      context2,
      rw (ap (λ b. sha1_update context b (length piece)) (sym (append-nil piece)) ∙ e1) e2,
      subst (IsDigesting context2) (append_assoc message piece (joined pieces)) good2,
    )

-- A message given to SHA-1 in any pieces, with a context buffer of 64 bytes and a digest buffer of
-- at least 20, ends without a fault, and the digest is the state to which the 64-byte blocks of
-- the message followed by a byte 0x80, as few zeros as complete the last block, and its length in
-- bits modulo 2^64 as eight big-endian bytes take the initial state.
pub sha1_digest-Chain :
    (pieces : List (List ℕ)) (buffer digest : List ℕ)
    → length buffer ≡ 64
    → 20 ≤ length digest
    → (state : Sha1State) × (context : Sha1Context) × (out : List ℕ) × Chain sha1_transform initial
        (padded (joined pieces) (big_endian (u64 (length (joined pieces) * 8))))
        state
      × (store_state state digest ≡ ok out)
      × (feed (sha1_init buffer) pieces ≡ ok context)
      × (sha1_final context digest ≡ ok out)
unfolding sha1_init
sha1_digest-Chain pieces buffer digest l room =
    let (context, e, good) =
      feed-IsDigesting pieces (sha1_init buffer) []
        (Absorbed-init sha1_transform initial buffer l, refl) in
    let (state, out, chain, eo, ef) = sha1_final-Chain context (joined pieces) digest good room in
    (state, context, out, chain, eo, e, ef)

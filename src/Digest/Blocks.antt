-- ===== src/Digest/Blocks.antt =====
-- Messages in blocks of 64 bytes: what src/mpq-md5.c and src/mpq-sha1.c compute, and the buffer that
-- they keep of an incomplete block.
use mathlib.Core.Path.{subst}
use mathlib.Core.List.{append_assoc, append-nil}
use libmpq.Base.{
  ℕ, ◌+◌, ◌-◌, ◌%◌, ◌≤◌, ◌<◌, ◌≡◌, refl, sym, ap, ◌∙◌, ◌⊎◌, inl, inr, arith, ltb, ltb→lt,
  Bool-cases, List, [], ◌∷◌, ◌++◌, Outcome, ok, write_range, length, replicate,
}
use libmpq.Base.Lists.{replicate-add, length-append}
use libmpq.Base.Memory.{write_range_mid, split_at}

module _ {S : Type 0} (transform : S → List ℕ → Outcome S) where
  -- `Chain s bytes t`: the blocks of `bytes`, one after the other, take the state `s` to `t`.
  pub data Chain (s : S) : List ℕ → S → Type 0 where
    start : Chain s [] s
    block :
        {bytes : List ℕ} {t u : S} (chunk : List ℕ)
        → Chain s bytes t
        → length chunk ≡ 64
        → transform t chunk ≡ ok u
        → Chain s (bytes ++ chunk) u

  pub Chain-length : (s : S) (bytes : List ℕ) (t : S) → Chain s bytes t → length bytes % 64 ≡ 0
  Chain-length s _ _ start = refl
  Chain-length s _ _ (block {bytes = bytes} {t = t} chunk before l e) =
      omega (arith, length-append bytes chunk, Chain-length s bytes t before)

  -- `message` is taken in from the state `s`: its whole blocks are in `state`, and the bytes behind
  -- them at the front of `buffer`.
  pub record Absorbed (s : S) (message : List ℕ) (state : S) (buffer : List ℕ) (used : ℕ)
      : Type 0 where
    pub whole : List ℕ
    pub tail : List ℕ
    pub room : List ℕ
    pub splits : message ≡ whole ++ tail
    pub chained : Chain s whole state
    pub holds : buffer ≡ tail ++ room
    pub sized : length buffer ≡ 64
    pub filled : used ≡ length tail
    pub short : length tail < 64

  pub Absorbed-init : (s : S) (buffer : List ℕ) → length buffer ≡ 64 → Absorbed s [] s buffer 0
  Absorbed-init s buffer l = record {
    whole = [];
    tail = [];
    room = buffer;
    splits = refl;
    chained = start;
    holds = refl;
    sized = l;
    filled = refl;
    short = omega arith;
  }

  -- What a copy of `chunk` behind the buffered bytes leaves.
  abbrev pub Filled : S → List ℕ → S → List ℕ → ℕ → List ℕ → Type 0
  Filled s message state buffer used chunk =
      (buffer' : List ℕ) × (write_range buffer used chunk ≡ ok buffer')
      × (length buffer' ≡ 64)
      × ((used + length chunk < 64)
            × Absorbed s (message ++ chunk) state buffer' (used + length chunk)
          ⊎ (used + length chunk ≡ 64)
            × ((next : S)
                → transform state buffer' ≡ ok next
                → Absorbed s (message ++ chunk) next buffer' 0))

  -- The block is still short.
  kept :
      (s : S) (message : List ℕ) (state : S) {buffer : List ℕ} (used : ℕ) (chunk rest : List ℕ)
      → (a : Absorbed s message state buffer used) → length (a.tail ++ (chunk ++ rest)) ≡ 64
      → used + length chunk < 64
      → Absorbed s (message ++ chunk) state (a.tail ++ (chunk ++ rest)) (used + length chunk)
  kept s message state used chunk rest a total partial = record {
    whole = a.whole;
    tail = a.tail ++ chunk;
    room = rest;
    splits = ap (λ m. m ++ chunk) a.splits ∙ append_assoc a.whole a.tail chunk;
    chained = a.chained;
    holds = sym (append_assoc a.tail chunk rest);
    sized = total;
    filled = omega (arith, length-append a.tail chunk, a.filled);
    short = omega (arith, length-append a.tail chunk, a.filled);
  }

  -- The block is complete.
  completed :
      (s : S) (message : List ℕ) (state : S) {buffer : List ℕ} (used : ℕ) (chunk rest : List ℕ)
      (next : S)
      → (a : Absorbed s message state buffer used) → length (a.tail ++ (chunk ++ rest)) ≡ 64
      → used + length chunk ≡ 64
      → transform state (a.tail ++ (chunk ++ rest)) ≡ ok next
      → Absorbed s (message ++ chunk) next (a.tail ++ (chunk ++ rest)) 0
  completed s message state used chunk (x ∷ rest) next a total full e = absurd (
      omega
        (arith, length-append a.tail (chunk ++ x ∷ rest), length-append chunk (x ∷ rest), a.filled))
  completed s message state used chunk [] next a total full e =
      let same : a.tail ++ (chunk ++ []) ≡ a.tail ++ chunk =
        ap (λ c. a.tail ++ c) (append-nil chunk) in
      record {
        whole = a.whole ++ (a.tail ++ chunk);
        tail = [];
        room = a.tail ++ (chunk ++ []);
        splits =
            ap (λ m. m ++ chunk) a.splits ∙ append_assoc a.whole a.tail chunk ∙ sym (append-nil _);
        chained =
            block (a.tail ++ chunk) a.chained (sym (ap length same) ∙ total)
              (ap (transform state) (sym same) ∙ e);
        holds = refl;
        sized = total;
        filled = refl;
        short = omega arith;
      }

  pub fill :
      (s : S) (message : List ℕ) (state : S) (buffer : List ℕ) (used : ℕ) (chunk : List ℕ)
      → Absorbed s message state buffer used
      → used + length chunk ≤ 64
      → Filled s message state buffer used chunk
  fill s message state buffer used chunk a fits =
      let (gone, rest, cut, lg) =
        split_at (length chunk) a.room
          (omega (arith, ap length a.holds, length-append a.tail a.room)) in
      let written : write_range buffer used chunk ≡ ok (a.tail ++ (chunk ++ rest)) =
        ap (λ b. write_range b used chunk) (a.holds ∙ ap (λ r. a.tail ++ r) cut)
        ∙ write_range_mid a.tail gone chunk rest used a.filled (sym lg) in
      let sizes : length a.tail + (length chunk + length rest) ≡ 64 = omega (
        arith,
        ap length a.holds,
        length-append a.tail a.room,
        ap length cut,
        length-append gone rest,
        a.sized,
      ) in
      let total : length (a.tail ++ (chunk ++ rest)) ≡ 64 =
        length-append a.tail (chunk ++ rest) ∙ omega (arith, length-append chunk rest) in
      (
        a.tail ++ (chunk ++ rest),
        written,
        total,
        elim (Bool-cases (ltb (used + length chunk) 64)) [
          | inl partial ↦ inl (
            ltb→lt _ _ partial,
            kept s message state used chunk rest a total (ltb→lt _ _ partial),
          )
          | inr full ↦ inr (
            ground arith,
            λ next e. completed s message state used chunk rest next a total (ground arith) e,
          )
        ],
      )

-- The zeros of the padding of a message of `n` bytes, and the padded message.
abbrev pub zeros_for : ℕ → ℕ
zeros_for n = (119 - n % 64) % 64

abbrev pub padded : List ℕ → List ℕ → List ℕ
padded message bits = (message ++ (0x80 ∷ replicate (zeros_for (length message)) 0)) ++ bits

abbrev pub joined : List (List ℕ) → List ℕ
joined [] = []
joined (piece ∷ pieces) = piece ++ joined pieces

-- The array `{ 0x80 }` of 64 bytes begins with the padding.
pub padding_split :
    (z : ℕ)
    → z ≤ 63
    → ◌≡◌ {A = List ℕ} (0x80 ∷ replicate 63 0) ((0x80 ∷ replicate z 0) ++ replicate (63 - z) 0)
padding_split z h =
    ap (λ l. 0x80 ∷ l)
      (ap (λ n. replicate n 0) (let e : 63 ≡ z + (63 - z) = omega arith in e)
        ∙ replicate-add z (63 - z) 0)

-- A message that ends with a block is whole.
pub Absorbed-whole :
    {S : Type 0} (transform : S → List ℕ → Outcome S) (s : S) (message : List ℕ) (state : S)
    (buffer : List ℕ) (used : ℕ)
    → Absorbed transform s message state buffer used
    → used ≡ 0
    → Chain transform s message state
Absorbed-whole transform s message state buffer used a e =
    subst (λ m. Chain transform s m state)
      (sym (
        a.splits
        ∙ ap (λ t. a.whole ++ t) (empty a.tail (omega (arith, a.filled)))
        ∙ append-nil a.whole))
      a.chained
  where
    empty : (xs : List ℕ) → length xs ≡ 0 → xs ≡ []
    empty [] h = refl
    empty (x ∷ xs) h = absurd (omega arith)

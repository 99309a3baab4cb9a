-- ===== src/Mpqe/Key.antt =====
-- The key of an MPQE stream, `libmpq__mpqe_key` of src/mpq-mpqe.c.
use libmpq.Base.{
  [], ◌++◌, ◌*◌, replicate, ℕ, ◌≤◌, ◌<◌, ◌≡◌, refl, sym, ap, ◌∙◌, arith, ltb, Bool-cases, inl, inr,
  ◌⊎◌, List, ◌∷◌, some, ok, err, decrypt_error, length, take, drop, write_range, All, IsByte, IsU32,
}
use libmpq.Base.Lists.{drop-append}
use libmpq.Base.Memory.{write_range_mid, split_at}
use libmpq.Endian.{load_le32, store_le32}
use libmpq.Endian.RoundTrip.{split_le32}
use libmpq.Endian.Words.{words_bytes, load_words_inv}
use libmpq.Mpqe.{mpqe_clear, mpqe_key, place_words, key_words, template_key, mpqe_auth_code_minimum}

-- Four bytes of the authentication code, and "0000".
abbrev pub code_word : List ℕ → ℕ → List ℕ
code_word auth_code i = take 4 (drop (i * 4) auth_code)

abbrev pub digits : List ℕ
digits = 0x30 ∷ 0x30 ∷ 0x30 ∷ 0x30 ∷ []

-- "expand 32-byte k".
abbrev pub expand : List ℕ
expand =
    0x65 ∷ 0x78 ∷ 0x70 ∷ 0x61 ∷ 0x6e ∷ 0x64 ∷ 0x20 ∷ 0x33 ∷ 0x32 ∷ 0x2d ∷ 0x62 ∷ 0x79 ∷ 0x74 ∷ 0x65
    ∷ 0x20 ∷ 0x6b ∷ []

-- The 64 bytes of the key: the words of the authentication code and digits, behind "expand 32-byte
-- k".
abbrev pub derived : List ℕ → List ℕ
derived auth_code =
    let w : ℕ → List ℕ = code_word auth_code in
    expand
    ++ (w 3
        ++ (digits
            ++ (w 7
                ++ (w 2
                    ++ (digits
                        ++ (w 6 ++ (w 1 ++ (digits ++ (w 5 ++ (w 0 ++ (digits ++ w 4)))))))))))

placed_words :
    (words more : List ℕ)
    → length words ≡ 8
    → All IsU32 words
    → (place_words key_words (words_bytes words ++ more) template_key
        ≡ ok (derived (words_bytes words ++ more)))
      × (length (derived (words_bytes words ++ more)) ≡ 64)
unfolding place_words key_words template_key load_le32 store_le32
placed_words (w0 ∷ w1 ∷ w2 ∷ w3 ∷ w4 ∷ w5 ∷ w6 ∷ w7 ∷ []) more l u = (
  rw (
    split_le32 w0 u.0,
    split_le32 w1 u.1.0,
    split_le32 w2 u.1.1.0,
    split_le32 w3 u.1.1.1.0,
    split_le32 w4 u.1.1.1.1.0,
    split_le32 w5 u.1.1.1.1.1.0,
    split_le32 w6 u.1.1.1.1.1.1.0,
    split_le32 w7 u.1.1.1.1.1.1.1.0,
  ),
  refl,
)
placed_words _ more l u = absurd (omega arith)

All-front : (front back : List ℕ) → All IsByte (front ++ back) → All IsByte front
All-front [] back h = tt
All-front (x ∷ front) back h = (h.0, All-front front back h.1)

placed :
    (auth_code : List ℕ)
    → All IsByte auth_code
    → 32 ≤ length auth_code
    → (place_words key_words auth_code template_key ≡ ok (derived auth_code))
      × (length (derived auth_code) ≡ 64)
placed auth_code bytes h =
    let (front, more, split, long) = split_at 32 auth_code h in
    let front_bytes : All IsByte front = All-front front more (rw (sym split) bytes) in
    let (words, el, lw, us, eb) = load_words_inv 8 front front_bytes long in
    let same : auth_code ≡ words_bytes words ++ more = split ∙ ap (λ f. f ++ more) eb in
    rw same (placed_words words more lw us)

copied :
    (key new : List ℕ)
    → length new ≡ 64
    → 64 ≤ length key
    → write_range key 0 new ≡ ok (new ++ drop 64 key)
copied key new l h =
    let (front, back, split, long) = split_at 64 key h in
    let rest : drop 64 key ≡ back =
      ap (drop 64) split ∙ ap (λ n. drop n (front ++ back)) (sym long) ∙ drop-append front back in
    ap (λ k. write_range k 0 new) split
    ∙ write_range_mid [] front new back 0 refl (omega arith)
    ∙ ap (λ b. ok (new ++ b)) (sym rest)

-- For an authentication code that is at least `auth_code_size` bytes and a key buffer of at least
-- 64, the key derivation refuses a size below 32 with a decryption error, and otherwise reads and
-- writes inside its buffers and leaves, in the first 64 bytes of the key buffer, "expand 32-byte
-- k" and behind it the words 3, 7, 2, 6, 1, 5, 0 and 4 of the code, with "0000" behind the first,
-- the third, the fifth and the seventh of them, and the rest of the buffer as it was.
pub mpqe_key_total :
    (key auth_code : List ℕ) (auth_code_size : ℕ)
    → All IsByte auth_code
    → auth_code_size ≤ length auth_code
    → 64 ≤ length key
    → (auth_code_size < 32)
        × (mpqe_key (some key) (some auth_code) auth_code_size ≡ err decrypt_error)
      ⊎ (32 ≤ auth_code_size)
        × (length (derived auth_code) ≡ 64)
        × (mpqe_key (some key) (some auth_code) auth_code_size
            ≡ ok (derived auth_code ++ drop 64 key))
unfolding mpqe_key
mpqe_key_total key auth_code auth_code_size bytes h room =
    elim (Bool-cases (ltb auth_code_size mpqe_auth_code_minimum)) [
      | inl short ↦ inl (ground arith, rw short)
      | inr long ↦
          let (run, l) = placed auth_code bytes (ground arith) in
          let done : write_range key 0 (derived auth_code) ≡ ok (derived auth_code ++ drop 64 key) =
            copied key (derived auth_code) l room in
          inr (ground arith, l, rw (long, run) done)
    ]

-- `libmpq__mpqe_clear` zeroes its bytes and leaves those behind them.
pub mpqe_clear_lem :
    (front back : List ℕ)
    → mpqe_clear (front ++ back) (length front) ≡ ok (replicate (length front) 0 ++ back)
unfolding mpqe_clear
mpqe_clear_lem [] back = refl
mpqe_clear_lem (byte ∷ front) back = rw (mpqe_clear_lem front back) refl

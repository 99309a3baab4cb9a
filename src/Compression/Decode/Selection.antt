-- ===== src/Compression/Decode/Selection.antt =====
-- The seven flags of src/mpq-compression.c in a mask: the encoder's order and the decoder's table.
use libmpq.Base.{
  ℕ, zero, suc, ◌≡◌, refl, sym, ap, ap₂, ◌∙◌, arith, Bool, true, false, ◌&&◌, not, List, [], ◌∷◌,
  map, length, ◌==◌, if◌then◌else◌, bit_or,
}
use libmpq.Compression.{
  Method, sparse, wave_mono, wave_stereo, huffman, zlib, pkzip, bzip2, flag_of, has, writer_order,
}
use libmpq.Compression.Decode.{count_loop, dcmp_table}
use libmpq.Compression.Decode.Stages.{filter}

-- The mask after a loop that kept the stages marked in a list, and these stages, the last one first.
abbrev pub mask_after : List Bool → List Method → ℕ → ℕ
mask_after (b ∷ kept) (m ∷ ms) mask =
    mask_after kept ms (if b then bit_or mask (flag_of m) else mask)
mask_after _ _ mask = mask

abbrev pub chosen : List Bool → List Method → List Method → List Method
chosen (b ∷ kept) (m ∷ ms) before = chosen kept ms (if b then m ∷ before else before)
chosen _ _ before = before

-- A test of every list of a length, and of equality of lists.
abbrev every : ℕ → (List Bool → Bool) → Bool
every zero test = test []
every (suc n) test = every n (λ l. test (true ∷ l)) && every n (λ l. test (false ∷ l))

every_lem :
    (n : ℕ) (test : List Bool → Bool)
    → every n test ≡ true
    → (l : List Bool) → length l ≡ n
    → test l ≡ true
every_lem zero test e [] long = e
every_lem zero test e (b ∷ l) long = absurd (omega arith)
every_lem (suc n) test e [] long = absurd (omega arith)
every_lem (suc n) test e (true ∷ l) long =
    every_lem n (λ l. test (true ∷ l)) (ground arith) l (omega arith)
every_lem (suc n) test e (false ∷ l) long =
    every_lem n (λ l. test (false ∷ l)) (ground arith) l (omega arith)

abbrev same_numbers : List ℕ → List ℕ → Bool
same_numbers [] [] = true
same_numbers (x ∷ xs) (y ∷ ys) = (x == y) && same_numbers xs ys
same_numbers _ _ = false

same_numbers_lem : (xs ys : List ℕ) → same_numbers xs ys ≡ true → xs ≡ ys
same_numbers_lem [] [] e = refl
same_numbers_lem [] (y ∷ ys) e = cc
same_numbers_lem (x ∷ xs) [] e = cc
same_numbers_lem (x ∷ xs) (y ∷ ys) e =
    let first : x ≡ y = ground arith in
    let rest : xs ≡ ys = same_numbers_lem xs ys (ground arith) in cc

-- The method of a flag.
abbrev method_of : ℕ → Method
method_of flag =
    if flag == 0x20
    then sparse
    else if flag == 0x40
    then wave_mono
    else if flag == 0x80
    then wave_stereo
    else if flag == 0x01
    then huffman
    else if flag == 0x02
    then zlib
    else if flag == 0x08
    then pkzip
    else bzip2

method_of-flag_of : (m : Method) → method_of (flag_of m) ≡ m
unfolding flag_of
method_of-flag_of sparse = refl
method_of-flag_of wave_mono = refl
method_of-flag_of wave_stereo = refl
method_of-flag_of huffman = refl
method_of-flag_of zlib = refl
method_of-flag_of pkzip = refl
method_of-flag_of bzip2 = refl

methods_back : (ms : List Method) → map method_of (map flag_of ms) ≡ ms
methods_back [] = refl
methods_back (m ∷ ms) = ap₂ (λ n l. n ∷ l) (method_of-flag_of m) (methods_back ms)

abbrev selects : List Bool → Bool
selects kept =
    let mask = mask_after kept writer_order 0 in
    let ms = chosen kept writer_order [] in
    let counted = count_loop mask dcmp_table 0 mask in
    same_numbers (map flag_of (filter (has mask) dcmp_table)) (map flag_of ms)
    && (counted.0 == length ms)
    && (counted.1 == 0)
    && (if length ms == 0 then mask == 0 else not (mask == 0))

selects_all : every 7 selects ≡ true
unfolding flag_of count_loop
selects_all = refl

-- The table finds exactly the chosen methods in the mask, and no flag beside them.
abbrev pub Selects : ℕ → List Method → Type 0
Selects mask ms =
    (filter (has mask) dcmp_table ≡ ms)
    × (count_loop mask dcmp_table 0 mask ≡ (length ms, 0))
    × ((if length ms == 0 then mask == 0 else not (mask == 0)) ≡ true)

pub mask_after-Selects :
    (kept : List Bool)
    → length kept ≡ length writer_order
    → Selects (mask_after kept writer_order 0) (chosen kept writer_order [])
mask_after-Selects kept long =
    let mask : ℕ = mask_after kept writer_order 0 in
    let ms : List Method = chosen kept writer_order [] in
    let found : List Method = filter (has mask) dcmp_table in
    let e : selects kept ≡ true = every_lem 7 selects selects_all kept long in
    let same : map flag_of found ≡ map flag_of ms =
      same_numbers_lem (map flag_of found) (map flag_of ms) (ground arith) in
    let count : (count_loop mask dcmp_table 0 mask).0 ≡ length ms = ground arith in
    let unsupp : (count_loop mask dcmp_table 0 mask).1 ≡ 0 = ground arith in
    (
      sym (methods_back found) ∙ ap (map method_of) same ∙ methods_back ms,
      ap₂ (λ n u. (n, u)) count unsupp,
      ground arith,
    )

-- ===== src/Names/Map/Build.antt =====
-- Building the map of file numbers, src/mpq-reader.c, and the numbers that src/mpq-api.c takes from it.
use mathlib.Core.Path.{subst}
use mathlib.Core.Option.{some-injective}
use mathlib.Core.List.{append_assoc}
use libmpq.Base.{
  ℕ, zero, suc, ◌+◌, ◌-◌, ◌^◌, ◌≤◌, ◌<◌, ◌≡◌, refl, sym, ap, ◌∙◌, inl, inr, arith, true, false,
  List, [], ◌∷◌, ◌++◌, map, some, ok, get_elem?, set, length, replicate, leb, ◌==◌, Bool-cases,
  bit_and, u32, if◌then◌else◌,
}
use libmpq.Base.Lists.{
  get_elem?-some_lt, length-append, get_elem?-append, length-set, length-replicate, get_elem?_lt,
}
use libmpq.HashTable.{MpqHash}
use libmpq.BlockTable.{MpqBlock}
use libmpq.Names.{flag_exists, MpqMap, Archive, modify, map_block, map_loop, build_map, file_number}
use libmpq.Names.Map.{
  exists, live, none_before, live_le, live_next, live-lt, diffs, indices, map-set, map-set_same,
  Serves, Serves-next, length-map, Serves-of,
}

-- One block more.
abbrev Steps : List MpqBlock → ℕ → MpqBlock → List MpqMap → Type 0
Steps blocks i here maps =
    (maps' : List MpqMap) × (map_block here i (live blocks i) maps
      ≡ ok (maps', live blocks (i + 1)))
    × (length maps' ≡ length maps)
    × Serves blocks (i + 1) (diffs maps') (indices maps')

module _ (blocks : List MpqBlock) (i : ℕ) (here : MpqBlock) (maps : List MpqMap) (old : MpqMap)
    (e : get_elem? blocks i ≡ some here) (eo : get_elem? maps i ≡ some old) where
  abbrev one : MpqMap
  one = record old { block_table_diff = i - live blocks i }

  step_gone :
      (bit_and here.flags flag_exists == 0) ≡ true
      → Serves blocks (i + 1) (set (diffs maps) i (i - live blocks i)) (indices maps)
      → Steps blocks i here maps
  unfolding map_block modify
  step_gone gone next = (
    set maps i one,
    rw (eo, gone)
        (ap (λ n. ok (set maps i one, n))
          (let c : live blocks i ≡ live blocks (i + 1) =
              sym (live_next blocks i here e ∙ rw gone refl) in
            c)),
    length-set maps i one,
    Serves-of blocks (i + 1) (map-set (λ m. m.block_table_diff) maps i one)
        (map-set_same (λ m. m.block_table_indices) maps i old one eo refl) next,
  )

  step_there :
      (old' : MpqMap)
      → get_elem? (set maps i one) (live blocks i) ≡ some old'
      → (bit_and here.flags flag_exists == 0) ≡ false
      → Serves blocks
          (i + 1)
          (set (diffs maps) i (i - live blocks i))
          (set (indices maps) (live blocks i) i)
      → Steps blocks i here maps
  unfolding map_block modify
  step_there old' eo' there next =
      let two : MpqMap = record old' { block_table_indices = i } in
      (
        set (set maps i one) (live blocks i) two,
        rw (eo, there, eo')
            (ap (λ n. ok (set (set maps i one) (live blocks i) two, n))
              (let c : live blocks i + 1 ≡ live blocks (i + 1) =
                  sym (live_next blocks i here e ∙ rw there refl) in
                c)),
        length-set (set maps i one) (live blocks i) two ∙ length-set maps i one,
        Serves-of blocks (i + 1)
            (map-set_same (λ m. m.block_table_diff) (set maps i one) (live blocks i) old' two eo'
                refl
              ∙ map-set (λ m. m.block_table_diff) maps i one)
            (map-set (λ m. m.block_table_indices) (set maps i one) (live blocks i) two
              ∙ ap (λ l. set l (live blocks i) i)
                  (map-set_same (λ m. m.block_table_indices) maps i old one eo refl))
            next,
      )

block_step :
    (blocks : List MpqBlock) (i : ℕ) (here : MpqBlock) (maps : List MpqMap)
    → get_elem? blocks i ≡ some here
    → i < length maps
    → Serves blocks i (diffs maps) (indices maps)
    → Steps blocks i here maps
block_step blocks i here maps e h before =
    let (old, eo) = get_elem?_lt maps i h in
    let next : Serves blocks (i + 1) (set (diffs maps) i (i - live blocks i))
        (if exists here then set (indices maps) (live blocks i) i else indices maps) =
      Serves-next blocks i here (diffs maps) (indices maps)
        (omega (arith, length-map (λ m. m.block_table_diff) maps))
        (omega (arith, length-map (λ m. m.block_table_indices) maps)) e before in
    elim (Bool-cases (bit_and here.flags flag_exists == 0)) [
      | inl gone ↦ step_gone blocks i here maps old e eo gone (rw gone at next)
      | inr there ↦
          let l1 : length (set maps i (one blocks i here maps old e eo)) ≡ length maps =
            length-set maps i (one blocks i here maps old e eo) in
          let (old', eo') =
            get_elem?_lt (set maps i (one blocks i here maps old e eo)) (live blocks i)
              (omega (arith, live_le blocks i)) in
          step_there blocks i here maps old e eo old' eo' there (rw there at next)
    ]

-- The rest of the blocks, behind `front`.
map_loop-Serves :
    (blocks front rest : List MpqBlock) (maps : List MpqMap)
    → blocks ≡ front ++ rest
    → length maps ≡ length blocks
    → Serves blocks (length front) (diffs maps) (indices maps)
    → (maps' : List MpqMap) × (map_loop rest (length front) (live blocks (length front)) maps
        ≡ ok (maps', live blocks (length blocks)))
      × (length maps' ≡ length blocks)
      × Serves blocks (length blocks) (diffs maps') (indices maps')
unfolding map_loop
map_loop-Serves blocks front [] maps q l before =
    let same : length front ≡ length blocks = omega (arith, ap length q, length-append front []) in
    (
      maps,
      ap (λ n. ok (maps, live blocks n)) same,
      l,
      subst (λ n. Serves blocks n (diffs maps) (indices maps)) same before,
    )
map_loop-Serves blocks front (here ∷ rest) maps q l before =
    let e : get_elem? blocks (length front) ≡ some here =
      ap (λ b. get_elem? b (length front)) q ∙ get_elem?-append front here rest in
    let (maps1, run, l1, next) =
      block_step blocks (length front) here maps e
        (omega (arith, ap length q, length-append front (here ∷ rest))) before in
    let long : length (front ++ (here ∷ [])) ≡ length front + 1 = length-append front (here ∷ []) in
    let (maps', run', l', done) =
      map_loop-Serves blocks (front ++ (here ∷ [])) rest maps1
        (q ∙ sym (append_assoc front (here ∷ []) rest)) (l1 ∙ l)
        (subst (λ n. Serves blocks n (diffs maps1) (indices maps1)) (sym long) next) in
    (maps', rw run (ap (λ n. map_loop rest n (live blocks n) maps1) (sym long) ∙ run'), l', done)

get_elem?-map :
    (f : MpqMap → ℕ) (maps : List MpqMap) (j v : ℕ)
    → get_elem? (map f maps) j ≡ some v
    → (entry : MpqMap) × (get_elem? maps j ≡ some entry) × (f entry ≡ v)
get_elem?-map f [] j v e = cc
get_elem?-map f (m ∷ maps) zero v e = (m, refl, some-injective (f m) v e)
get_elem?-map f (m ∷ maps) (suc j) v e = get_elem?-map f maps j v e

-- What a lookup works on, with the map that was built.
abbrev pub opened : ℕ → List MpqHash → List MpqBlock → List MpqMap → ℕ → Archive
opened count entries blocks maps files = record {
  hash_table_count = count;
  mpq_hash = entries;
  block_table_count = length blocks;
  mpq_block = blocks;
  mpq_map = maps;
  files = files;
}

number_of :
    (archive : Archive) (index : ℕ) (block : MpqBlock) (entry : MpqMap) (number : ℕ)
    → index < archive.block_table_count
    → get_elem? archive.mpq_block index ≡ some block
    → (bit_and block.flags flag_exists == 0) ≡ false
    → get_elem? archive.mpq_map index ≡ some entry
    → entry.block_table_diff ≡ index - number
    → number ≤ index
    → index < 2 ^ 32
    → number < archive.files
    → file_number archive index ≡ ok number
unfolding file_number
number_of archive index block entry number h eb there em d le w f =
    let value : u32 (index + (2 ^ 32 - u32 entry.block_table_diff)) ≡ number = omega arith in
    rw
      (
        let c : leb archive.block_table_count index ≡ false = ground arith in c,
        eb,
        there,
        em,
        value,
      )
      (rw (let c : leb archive.files number ≡ false = ground arith in c) refl)

-- For less than 2^32 blocks, the reader builds its map without a fault, and the lookup gives an
-- existing block a number below the count of files, whose entry in the map leads back to the
-- block.
pub build_map-file_number :
    (blocks : List MpqBlock) (index : ℕ) (block : MpqBlock) (count : ℕ) (entries : List MpqHash)
    → length blocks < 2 ^ 32
    → get_elem? blocks index ≡ some block
    → exists block ≡ true
    → (maps : List MpqMap) × (files : ℕ) × (number : ℕ) × (entry : MpqMap) × (build_map blocks
        ≡ ok (maps, files))
      × (file_number (opened count entries blocks maps files) index ≡ ok number)
      × (number < files)
      × (get_elem? maps number ≡ some entry)
      × (entry.block_table_indices ≡ index)
unfolding build_map
build_map-file_number blocks index block count entries w e there =
    let empty : MpqMap = record { block_table_indices = 0; block_table_diff = 0 } in
    let inside : index < length blocks = get_elem?-some_lt blocks index e in
    let (maps, run, l, serves) =
      map_loop-Serves blocks [] blocks (replicate (length blocks) empty) refl
        (length-replicate (length blocks) empty) (λ j b h. elim h [ ]) in
    let (diff, position) = serves index block inside e in
    let (entry, ee, de) =
      get_elem?-map (λ m. m.block_table_diff) maps index (index - live blocks index) diff in
    let (found, ef, df) =
      get_elem?-map (λ m. m.block_table_indices) maps (live blocks index) index (position there) in
    let below : live blocks index < live blocks (length blocks) =
      live-lt blocks index (length blocks) block e there inside in
    (
      maps,
      live blocks (length blocks),
      live blocks index,
      found,
      ap (λ n. map_loop blocks 0 n (replicate (length blocks) empty)) (sym (none_before blocks))
          ∙ run,
      number_of (opened count entries blocks maps (live blocks (length blocks))) index block entry
          (live blocks index) inside e (ground (arith, there)) ee de (live_le blocks index)
          (omega arith) below,
      below,
      ef,
      df,
    )

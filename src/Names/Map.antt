-- ===== src/Names/Map.antt =====
-- The map of file numbers that src/mpq-reader.c builds, as the lookup of src/mpq-api.c reads it.
pub mod Build
use mathlib.Core.Path.{subst}
use mathlib.Core.Option.{some-injective}
use mathlib.Core.List.{append_assoc}
use libmpq.Base.{
  ℕ, zero, suc, ◌+◌, ◌-◌, ◌%◌, ◌^◌, ◌≤◌, ◌<◌, ◌≡◌, ◌≢◌, refl, sym, ap, ◌∙◌, ◌⊎◌, inl, inr, arith,
  Bool, true, false, List, [], ◌∷◌, ◌++◌, map, none, some, Outcome, ok, err, ◌>>=◌, or_fault,
  get_elem?, set, length, take, replicate, ltb, leb, ◌==◌, Bool-cases, bit_and, u32, if◌then◌else◌,
}
use libmpq.Base.Lists.{
  length-append, get_elem?-append, length-set, length-replicate, get_elem?_lt, get_elem?-set_same,
  get_elem?-set_other,
}
use libmpq.BlockTable.{MpqBlock}
use libmpq.Names.{flag_exists, MpqMap, Archive, modify, map_block, map_loop, build_map, file_number}

abbrev pub exists : MpqBlock → Bool
exists block = if bit_and block.flags flag_exists == 0 then false else true

-- How many of the first `i` blocks exist.
pub live : List MpqBlock → ℕ → ℕ
live [] i = 0
live (block ∷ blocks) zero = 0
live (block ∷ blocks) (suc i) = if exists block then suc (live blocks i) else live blocks i

pub live_le : (blocks : List MpqBlock) (i : ℕ) → live blocks i ≤ i
unfolding live
live_le [] i = omega arith
live_le (block ∷ blocks) zero = omega arith
live_le (block ∷ blocks) (suc i) = ground (arith, live_le blocks i)

pub none_before : (blocks : List MpqBlock) → live blocks 0 ≡ 0
unfolding live
none_before [] = refl
none_before (block ∷ blocks) = refl

live_after :
    (blocks : List MpqBlock) (i : ℕ) (block : MpqBlock)
    → get_elem? blocks i ≡ some block
    → live blocks (suc i) ≡ (if exists block then suc (live blocks i) else live blocks i)
unfolding live
live_after [] i block e = cc
live_after (b ∷ blocks) zero block e =
    ap (λ test. if test then suc (live blocks 0) else live blocks 0)
      (ap exists (some-injective b block e))
    ∙ ap (λ n. if exists block then suc n else n) (none_before blocks)
live_after (b ∷ blocks) (suc i) block e = ground (arith, live_after blocks i block e)

pub live_next :
    (blocks : List MpqBlock) (i : ℕ) (block : MpqBlock)
    → get_elem? blocks i ≡ some block
    → live blocks (i + 1) ≡ (if exists block then live blocks i + 1 else live blocks i)
live_next blocks i block e =
    ap (live blocks) (let c : i + 1 ≡ suc i = omega arith in c)
    ∙ live_after blocks i block e
    ∙ ap (λ n. if exists block then n else live blocks i) (omega arith)

pub live-lt :
    (blocks : List MpqBlock) (j i : ℕ) (block : MpqBlock)
    → get_elem? blocks j ≡ some block
    → exists block ≡ true
    → j < i
    → live blocks j < live blocks i
unfolding live
live-lt [] j i block e h k = cc
live-lt (b ∷ blocks) zero zero block e h k = elim k [ ]
live-lt (b ∷ blocks) zero (suc i) block e h k =
    let q : exists b ≡ true = ap exists (some-injective b block e) ∙ h in rw q (omega arith)
live-lt (b ∷ blocks) (suc j) zero block e h k = elim k [ ]
live-lt (b ∷ blocks) (suc j) (suc i) block e h k =
    ground (arith, live-lt blocks j i block e h (omega arith))

-- The members of the map's entries.
abbrev pub diffs : List MpqMap → List ℕ
diffs maps = map (λ entry. entry.block_table_diff) maps

abbrev pub indices : List MpqMap → List ℕ
indices maps = map (λ entry. entry.block_table_indices) maps

pub map-set :
    (f : MpqMap → ℕ) (maps : List MpqMap) (i : ℕ) (entry : MpqMap)
    → map f (set maps i entry) ≡ set (map f maps) i (f entry)
map-set f [] i entry = refl
map-set f (m ∷ maps) zero entry = refl
map-set f (m ∷ maps) (suc i) entry = ap (λ l. f m ∷ l) (map-set f maps i entry)

pub map-set_same :
    (f : MpqMap → ℕ) (maps : List MpqMap) (i : ℕ) (old entry : MpqMap)
    → get_elem? maps i ≡ some old
    → f entry ≡ f old
    → map f (set maps i entry) ≡ map f maps
map-set_same f [] i old entry e h = refl
map-set_same f (m ∷ maps) zero old entry e h =
    ap (λ x. x ∷ map f maps) (h ∙ ap f (sym (some-injective m old e)))
map-set_same f (m ∷ maps) (suc i) old entry e h =
    ap (λ l. f m ∷ l) (map-set_same f maps i old entry e h)

-- The map serves the first `i` blocks.
abbrev pub Serves : List MpqBlock → ℕ → List ℕ → List ℕ → Type 0
Serves blocks i ds is =
    (j : ℕ) (block : MpqBlock)
    → j < i
    → get_elem? blocks j ≡ some block
    → (get_elem? ds j ≡ some (j - live blocks j))
      × (exists block ≡ true → get_elem? is (live blocks j) ≡ some j)

pub Serves-next :
    (blocks : List MpqBlock) (i : ℕ) (here : MpqBlock) (ds is : List ℕ)
    → i < length ds
    → i < length is
    → get_elem? blocks i ≡ some here
    → Serves blocks i ds is
    → Serves blocks
        (i + 1)
        (set ds i (i - live blocks i))
        (if exists here then set is (live blocks i) i else is)
Serves-next blocks i here ds is hd hi e before j block h ej = elim (Bool-cases (j == i)) [
  | inl same ↦
      subst
        (λ m.
          get_elem? blocks m ≡ some block
          → (get_elem? (set ds i (i - live blocks i)) m ≡ some (m - live blocks m))
            × (exists block ≡ true
                → get_elem? (if exists here then set is (live blocks i) i else is) (live blocks m)
                  ≡ some m))
        (let c : i ≡ j = ground (arith, same) in c)
        (λ q. (
          get_elem?-set_same ds i (i - live blocks i) hd,
          λ there.
              rw
                (let c : exists here ≡ true =
                    ap exists (some-injective here block (sym e ∙ q)) ∙ there in
                  c)
                (get_elem?-set_same is (live blocks i) i (omega (arith, live_le blocks i, hi))),
        ))
        ej
  | inr other ↦
      let earlier : j < i = ground arith in
      let (d, k) = before j block earlier ej in
      (
        get_elem?-set_other ds i j (i - live blocks i) (λ c. ground (arith, other, c)) ∙ d,
        λ there. kept (exists here) (live-lt blocks j i block ej there earlier) (k there),
      )
]
  where
    kept :
        (test : Bool)
        → live blocks j < live blocks i
        → get_elem? is (live blocks j) ≡ some j
        → get_elem? (if test then set is (live blocks i) i else is) (live blocks j) ≡ some j
    kept true lt k =
        get_elem?-set_other is (live blocks i) (live blocks j) i (λ c. omega (arith, c, lt)) ∙ k
    kept false lt k = k

pub length-map : (f : MpqMap → ℕ) (maps : List MpqMap) → length (map f maps) ≡ length maps
length-map f [] = refl
length-map f (m ∷ maps) = ap suc (length-map f maps)

pub Serves-of :
    (blocks : List MpqBlock) (i : ℕ) {ds ds' is is' : List ℕ}
    → ds' ≡ ds
    → is' ≡ is
    → Serves blocks i ds is
    → Serves blocks i ds' is'
Serves-of blocks i {ds} {ds'} {is} {is'} p q h =
    subst (λ d. Serves blocks i d is') (sym p) (subst (λ k. Serves blocks i ds k) (sym q) h)

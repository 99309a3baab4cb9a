-- ===== src/Attributes/Layout.antt =====
-- The layouts that src/mpq-attributes.c recognizes lie inside the payload.
use mathlib.Core.Path.{subst}
use libmpq.Base.{
  ℕ, zero, suc, ◌+◌, ◌-◌, ◌*◌, ◌/◌, ◌^◌, ◌≤◌, ◌<◌, ◌≡◌, ◌⊎◌, refl, sym, inl, inr, arith, Bool, true,
  false, List, Outcome, ok, length, ◌==◌, ltb, leb, Bool-cases, get_elem?_lt,
}
use libmpq.EntryTable.{size_max}
use libmpq.Attributes.{
  View, is_set, behind_array, fitting, array_layout, all_zero, legacy_layout, choose_layout,
  match_layout, match_layouts,
}

-- What an array adds to the size.
behind_lem :
    (flags bit count width size product : ℕ)
    → count * width ≡ product
    → size ≤ 2 ^ 40
    → product ≤ 2 ^ 40
    → (is_set flags bit ≡ true → size + product ≤ behind_array flags bit count width size)
      × (size ≤ behind_array flags bit count width size)
      × (behind_array flags bit count width size ≤ size + product)
behind_lem flags bit count width size product e small small' =
    elim (Bool-cases (is_set flags bit)) [
      | inl t ↦ rw (t, e) (λ set. omega arith, omega arith, omega arith)
      | inr f ↦ rw f (λ set. cc, omega arith, omega arith)
    ]

fitting_lem : (size old : ℕ) → size ≤ 2 ^ 60 → fitting size old ≡ size
fitting_lem size old small = let e : leb size size_max ≡ true = ground arith in rw e refl

-- A candidate for a payload, without patch bits; its arrays end at `base`; and a view whose arrays and
-- patch bits lie in the payload.
abbrev pub Candidate : List ℕ → ℕ → View → Type 0
Candidate data_in flags v = (v.data_bytes ≡ data_in) × (v.flags ≡ flags) × (v.patch_bits ≡ 0)

abbrev pub Arrays : ℕ → ℕ → ℕ → View → Type 0
Arrays flags entries base v =
    (is_set flags 1 ≡ true → v.offset0 + entries * 4 ≤ base)
    × (is_set flags 2 ≡ true → v.offset1 + entries * 8 ≤ base)
    × (is_set flags 4 ≡ true → v.offset2 + entries * 16 ≤ base)
    × (v.offset3 ≡ base)

abbrev pub Fits : List ℕ → ℕ → View → Type 0
Fits data_in flags v =
    (v.data_bytes ≡ data_in)
    × (v.flags ≡ flags)
    × (base : ℕ) × Arrays flags v.entries base v
    × (base + (v.patch_bits + 7) / 8 ≤ length data_in)

array_layout-Arrays :
    (data_in : List ℕ) (count flags : ℕ) (view : View)
    → count < 2 ^ 32
    → Candidate data_in flags view
    → Candidate data_in flags (array_layout count flags view).1
      × Arrays flags count (array_layout count flags view).0 (array_layout count flags view).1
unfolding array_layout
array_layout-Arrays data_in count flags view small candidate =
    let size1 : ℕ = behind_array flags 1 count 4 8 in
    let size2 : ℕ = behind_array flags 2 count 8 size1 in
    let size3 : ℕ = behind_array flags 4 count 16 size2 in
    let (set1, up1, down1) =
      behind_lem flags 1 count 4 8 (count * 4) refl (omega arith) (omega arith) in
    let (set2, up2, down2) =
      behind_lem flags 2 count 8 size1 (count * 8) refl (omega arith) (omega arith) in
    let (set3, up3, down3) =
      behind_lem flags 4 count 16 size2 (count * 16) refl (omega arith) (omega arith) in
    (
      candidate,
      (
        λ e. rw (fitting_lem 8 view.offset0 (omega arith)) (omega (arith, set1 e)),
        λ e. rw (fitting_lem size1 view.offset1 (omega arith)) (omega (arith, set2 e)),
        λ e. rw (fitting_lem size2 view.offset2 (omega arith)) (omega (arith, set3 e)),
        fitting_lem size3 view.offset3 (omega arith),
      ),
    )

all_zero_total :
    (left : ℕ) (data_in : List ℕ) (i : ℕ)
    → i + left ≤ length data_in
    → (b : Bool) × (all_zero left data_in i ≡ ok b)
unfolding all_zero
all_zero_total zero data_in i room = (true, refl)
all_zero_total (suc left) data_in i room =
    let (byte, at) = get_elem?_lt data_in i (omega arith) in
    let (b, rest) = all_zero_total left data_in (i + 1) (omega arith) in
    elim (Bool-cases (byte == 0)) [
      | inl e ↦ (b, rw (at, e, rest) refl)
      | inr e ↦ (false, rw (at, e) refl)
    ]

-- An attempt does not fault: it fails with a candidate, or finds a view that fits.
abbrev pub Attempt : List ℕ → ℕ → Outcome (Bool × View) → Type 0
Attempt data_in flags run =
    ((v : View) × (run ≡ ok (false, v)) × Candidate data_in flags v)
    ⊎ ((v : View) × (run ≡ ok (true, v)) × Fits data_in flags v)

legacy_layout-Attempt :
    (data_in : List ℕ) (flags count base : ℕ) (legacy : Bool) (view : View)
    → Candidate data_in flags view
    → Arrays flags view.entries base view
    → base ≤ length data_in
    → Attempt data_in flags (legacy_layout data_in (length data_in) count base legacy view)
unfolding legacy_layout
legacy_layout-Attempt data_in flags count base legacy view candidate arrays room =
    let size : ℕ = length data_in in
    let fits : Fits data_in flags view =
      (candidate.0, candidate.1, base, arrays, omega (arith, candidate.2)) in
    elim (Bool-cases legacy) [
      | inr e ↦ inl (view, rw e refl, candidate)
      | inl e ↦ elim (Bool-cases (base == size)) [
        | inl e1 ↦ inr (view, rw (e, e1) refl, fits)
        | inr e1 ↦ elim (Bool-cases (base + count * 4 == size)) [
          | inr e2 ↦ inl (view, rw (e, e1, e2) refl, candidate)
          | inl e2 ↦
              let (b, zeros) = all_zero_total (size - base) data_in base (omega arith) in
              elim (Bool-cases b) [
                | inl t ↦ inr (view, rw (e, e1, e2, zeros, t) refl, fits)
                | inr f ↦ inl (view, rw (e, e1, e2, zeros, f) refl, candidate)
              ]
        ]
      ]
    ]

choose_layout-Attempt :
    (data_in : List ℕ) (flags count entries base : ℕ) (legacy : Bool) (view : View)
    → Candidate data_in flags view
    → Arrays flags entries base view
    → Attempt data_in flags (choose_layout data_in (length data_in) count entries legacy base view)
unfolding choose_layout
choose_layout-Attempt data_in flags count entries base legacy view candidate arrays =
    let size : ℕ = length data_in in
    let view' : View = record view { entries = entries } in
    elim (Bool-cases (ltb size base)) [
      | inl e ↦ inl (view, rw e refl, candidate)
      | inr e ↦ elim (Bool-cases (is_set view.flags 8)) [
        | inr e1 ↦ elim (Bool-cases (base == size)) [
          | inl e2 ↦ inr (
            view',
            rw (e, e1, e2) refl,
            (candidate.0, candidate.1, base, arrays, ground (arith, candidate.2)),
          )
          | inr e2 ↦ inl (view', rw (e, e1, e2) refl, candidate)
        ]
        | inl e1 ↦ elim (Bool-cases (base + (entries + 7) / 8 == size)) [
          | inl e2 ↦ inr (
            record view' { patch_bits = entries },
            rw (e, e1, e2) refl,
            (candidate.0, candidate.1, base, arrays, ground arith),
          )
          | inr e2 ↦ elim (Bool-cases (base + (count + 6) / 8 == size)) [
            | inl e3 ↦ inr (
              record view' { patch_bits = (count + 6) / 8 * 8; patch_self_omitted = 1 },
              rw (e, e1, e2, e3) refl,
              (candidate.0, candidate.1, base, arrays, ground arith),
            )
            | inr e3 ↦
                rw (e, e1, e2, e3)
                  (legacy_layout-Attempt data_in flags count base legacy view' candidate arrays
                    (ground arith))
          ]
        ]
      ]
    ]

match_layout-Attempt :
    (data_in : List ℕ) (flags count entries : ℕ) (legacy : Bool) (view : View)
    → entries < 2 ^ 32
    → Candidate data_in flags view
    → Attempt data_in flags (match_layout data_in (length data_in) count entries view legacy)
unfolding match_layout
match_layout-Attempt data_in flags count entries legacy view small candidate =
    let (candidate', arrays) = array_layout-Arrays data_in entries flags view small candidate in
    let laid : ℕ × View = array_layout entries flags view in
    let run : ℕ × View → Outcome (Bool × View) =
      λ l. choose_layout data_in (length data_in) count entries legacy l.0 l.1 in
    subst (λ f. Attempt data_in flags (run (array_layout entries f view))) (sym candidate.1)
      (choose_layout-Attempt data_in flags count entries laid.0 legacy laid.1 candidate' arrays)

pub match_layouts-Attempt :
    (data_in : List ℕ) (flags count : ℕ) (view : View)
    → count < 2 ^ 32
    → Candidate data_in flags view
    → Attempt data_in flags (match_layouts data_in (length data_in) count view)
unfolding match_layouts
match_layouts-Attempt data_in flags count view small candidate =
    elim (match_layout-Attempt data_in flags count count false view small candidate) [
      | inr (v, run, fits) ↦ inr (v, rw run refl, fits)
      | inl (v, run, candidate1) ↦
          elim (match_layout-Attempt data_in flags count (count - 1) false v (omega arith)
            candidate1) [
              | inr (v', run', fits) ↦ inr (v', rw (run, run') refl, fits)
              | inl (v', run', candidate2) ↦
                  rw (run, run')
                    (match_layout-Attempt data_in flags count count true v' small candidate2)
            ]
    ]

-- ===== src/Compression/Decode/Stages.antt =====
-- The decoding loop of `libmpq__compression_decompress_multi`, src/mpq-compression.c, over the buffers
-- it alternates between.
use libmpq.Base.{
  ℕ, ◌≤◌, ◌<◌, ◌≡◌, refl, ap, arith, Bool, false, List, [], ◌∷◌, ◌++◌, ◌⊎◌, ◌≢◌, fun_ext, some,
  Pointer, Outcome, ok, ◌>>=◌, length, is_null, if◌then◌else◌, inl, inr, Bool-cases, ◌==◌,
}
use libmpq.Compression.{Method, has, Codecs}
use libmpq.Compression.Decode.{
  decompress, Buffers, Place, source, output, temporary, contents, work_place, same_place,
  put_result, multi_stage, multi_loop,
}

-- The methods of a list that a test passes.
abbrev pub filter : (Method → Bool) → List Method → List Method
filter test [] = []
filter test (m ∷ ms) = if test m then m ∷ filter test ms else filter test ms

-- The loop over methods that all apply.
abbrev pub stage_loop : Codecs → List Method → Pointer → ℕ → Buffers → Outcome Buffers
stage_loop c [] in_buf out_size bufs = ok bufs
stage_loop c (m ∷ ms) in_buf out_size bufs =
    multi_stage c m in_buf out_size bufs >>= stage_loop c ms in_buf out_size

pub multi_loop-filter :
    (c : Codecs) (flag : ℕ) (ms : List Method) (in_buf : Pointer) (out_size : ℕ) (bufs : Buffers)
    → multi_loop c flag ms in_buf out_size bufs
      ≡ stage_loop c (filter (has flag) ms) in_buf out_size bufs
unfolding multi_loop
multi_loop-filter c flag [] in_buf out_size bufs = refl
multi_loop-filter c flag (m ∷ ms) in_buf out_size bufs = elim (Bool-cases (has flag m)) [
  | inl e ↦ rw e (
      ap (λ next. multi_stage c m in_buf out_size bufs >>= next)
        (fun_ext (multi_loop-filter c flag ms in_buf out_size)))
  | inr e ↦ rw e (multi_loop-filter c flag ms in_buf out_size bufs)
]

-- The decoder of a method takes a stream, whatever follows it, to the data, in any output with room.
abbrev pub Unpacks : Codecs → Method → List ℕ → List ℕ → Type 0
Unpacks c m packed data_in =
    (rest old : List ℕ) (out_size : ℕ)
    → length data_in ≤ out_size
    → out_size ≤ length old
    → (after : List ℕ) × (decompress c m (some (packed ++ rest)) (length packed) (some old) out_size
        ≡ ok (length data_in, data_in ++ after))
      × (length (data_in ++ after) ≡ length old)

-- The streams of a chain of methods, the last one first, from the data on.
pub data Chain (c : Codecs) (data_in : List ℕ) : List Method → List ℕ → Type 0 where
  raw : Chain c data_in [] data_in
  staged :
      {ms : List Method} {before packed : List ℕ} (m : Method)
      → Unpacks c m packed before
      → length packed ≤ length before
      → Chain c data_in ms before
      → Chain c data_in (m ∷ ms) packed

pub Chain-length :
    {c : Codecs} {data_in packed : List ℕ} {ms : List Method}
    → Chain c data_in ms packed
    → length packed ≤ length data_in
Chain-length raw = omega arith
Chain-length (staged m unpacks shorter chain) = omega (arith, Chain-length chain, shorter)

-- Where `in_buf` points after `count` stages.
abbrev pub Placed : Place → ℕ → Type 0
Placed source count = count ≡ 0
Placed _ count = 0 < count

-- The buffers, of at least `out_size` bytes, where the current one begins with the bytes `packed`.
abbrev pub Holds : Pointer → ℕ → List ℕ → Buffers → Type 0
Holds in_buf out_size packed bufs =
    (temp rest : List ℕ) × (bufs.temp_buf ≡ some temp)
    × (contents in_buf bufs bufs.place ≡ some (packed ++ rest))
    × (bufs.in_size ≡ length packed)
    × (out_size ≤ length bufs.out_buf)
    × (out_size ≤ length temp)
    × Placed bufs.place bufs.count

abbrev pub bufs_of : Place → ℕ → ℕ → ℕ → List ℕ → Pointer → Buffers
bufs_of place in_size tb count out_buf temp_buf = record {
  place = place;
  in_size = in_size;
  tb = tb;
  count = count;
  out_buf = out_buf;
  temp_buf = temp_buf;
}

pub multi_stage-ok :
    (c : Codecs) (m : Method) (in_buf : Pointer) (out_size : ℕ) (bufs : Buffers) (work : Place)
    (input target : List ℕ) (n : ℕ) {result : ℕ × List ℕ}
    → work_place bufs ≡ work
    → same_place work bufs.place ≡ false
    → contents in_buf bufs bufs.place ≡ some input
    → contents in_buf bufs work ≡ some target
    → bufs.in_size ≡ n
    → decompress c m (some input) n (some target) out_size ≡ ok result
    → multi_stage c m in_buf out_size bufs ≡ ok (put_result bufs work result)
unfolding multi_stage
multi_stage-ok c m in_buf out_size bufs work input target n chosen other from to size run =
    rw (chosen, other, from, to, size, run) refl

-- The buffers after a stage into `out_buf` or into `temp_buf`.
stored_output :
    (in_buf : Pointer) (out_size : ℕ) (bufs : Buffers) (before after temp : List ℕ)
    → bufs.temp_buf ≡ some temp
    → out_size ≤ length (before ++ after)
    → out_size ≤ length temp
    → Holds in_buf out_size before (put_result bufs output (length before, before ++ after))
unfolding put_result contents
stored_output in_buf out_size bufs before after temp et room fits =
    (temp, after, et, refl, refl, room, fits, omega arith)

stored_temporary :
    (in_buf : Pointer) (out_size : ℕ) (bufs : Buffers) (before after : List ℕ)
    → out_size ≤ length bufs.out_buf
    → out_size ≤ length (before ++ after)
    → Holds in_buf out_size before (put_result bufs temporary (length before, before ++ after))
unfolding put_result contents
stored_temporary in_buf out_size bufs before after room fits =
    (before ++ after, after, refl, refl, refl, room, fits, omega arith)

-- One more stage of `Holds`, whichever buffer it works on.
abbrev pub Advanced : Codecs → Method → Pointer → ℕ → List ℕ → Buffers → Type 0
Advanced c m in_buf out_size before bufs =
    (after : Buffers) × (multi_stage c m in_buf out_size bufs ≡ ok after)
    × Holds in_buf out_size before after
    × (after.tb ≡ length before)
    × (after.place ≢ source)

into_temporary :
    (c : Codecs) (m : Method) (in_buf : Pointer) (out_size : ℕ) (packed before : List ℕ)
    → Unpacks c m packed before
    → length before ≤ out_size
    → (bufs : Buffers) → Holds in_buf out_size packed bufs
    → work_place bufs ≡ temporary
    → same_place temporary bufs.place ≡ false
    → Advanced c m in_buf out_size before bufs
unfolding put_result contents
into_temporary c m in_buf out_size packed before unpacks small bufs holds chosen other =
    let (temp, rest, et, from, size, room, fits, placed) = holds in
    let (after, run, long) = unpacks rest temp out_size small fits in
    (
      put_result bufs temporary (length before, before ++ after),
      multi_stage-ok c m in_buf out_size bufs temporary (packed ++ rest) temp (length packed) chosen
          other from et size run,
      stored_temporary in_buf out_size bufs before after room (omega (arith, fits, long)),
      refl,
      λ e. cc,
    )

into_output :
    (c : Codecs) (m : Method) (in_buf : Pointer) (out_size : ℕ) (packed before : List ℕ)
    → Unpacks c m packed before
    → length before ≤ out_size
    → (bufs : Buffers) → Holds in_buf out_size packed bufs
    → work_place bufs ≡ output
    → same_place output bufs.place ≡ false
    → Advanced c m in_buf out_size before bufs
unfolding put_result contents
into_output c m in_buf out_size packed before unpacks small bufs holds chosen other =
    let (temp, rest, et, from, size, room, fits, placed) = holds in
    let (after, run, long) = unpacks rest bufs.out_buf out_size small room in
    (
      put_result bufs output (length before, before ++ after),
      multi_stage-ok c m in_buf out_size bufs output (packed ++ rest) bufs.out_buf (length packed)
          chosen other from refl size run,
      stored_output in_buf out_size bufs before after temp et (omega (arith, room, long)) fits,
      refl,
      λ e. cc,
    )

abbrev Works : Place → Place → Type 0
Works work place =
    ((work ≡ temporary) × (same_place temporary place ≡ false))
    ⊎ ((work ≡ output) × (same_place output place ≡ false))

work_cases :
    (bufs : Buffers) (place : Place)
    → bufs.place ≡ place
    → is_null bufs.temp_buf ≡ false
    → Placed place bufs.count
    → Works (work_place bufs) place
unfolding work_place same_place
work_cases bufs source ep et placed = inl (rw (placed, et) refl, refl)
work_cases bufs output ep et placed =
    let e : (bufs.count == 0) ≡ false = ground arith in inl (rw (e, ep) refl, refl)
work_cases bufs temporary ep et placed =
    let e : (bufs.count == 0) ≡ false = ground arith in inr (rw (e, ep) refl, refl)

place_cases :
    (in_buf : Pointer) (out_size : ℕ) (packed : List ℕ) (bufs : Buffers)
    → Holds in_buf out_size packed bufs
    → Works (work_place bufs) bufs.place
place_cases in_buf out_size packed bufs (temp, rest, et, from, size, room, fits, placed) =
    work_cases bufs bufs.place refl (rw et refl) placed

pub multi_stage-Holds :
    (c : Codecs) (m : Method) (in_buf : Pointer) (out_size : ℕ) (packed before : List ℕ)
    → Unpacks c m packed before
    → length before ≤ out_size
    → (bufs : Buffers) → Holds in_buf out_size packed bufs
    → Advanced c m in_buf out_size before bufs
multi_stage-Holds c m in_buf out_size packed before unpacks small bufs holds =
    elim (place_cases in_buf out_size packed bufs holds) [
      | inl (chosen, other) ↦
          into_temporary c m in_buf out_size packed before unpacks small bufs holds chosen other
      | inr (chosen, other) ↦
          into_output c m in_buf out_size packed before unpacks small bufs holds chosen other
    ]

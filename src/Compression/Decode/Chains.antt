-- ===== src/Compression/Decode/Chains.antt =====
-- Whole chains of stages through `libmpq__compression_decompress_multi`, src/mpq-compression.c.
use libmpq.Base.{
  ℕ, ◌≤◌, ◌<◌, ◌≡◌, ◌≢◌, ◌⊎◌, refl, sym, ap, ◌∙◌, arith, true, List, [], ◌∷◌, ◌++◌, none, some,
  Pointer, ok, ◌>>=◌, length, ltb, replicate, if◌then◌else◌, inl, inr, length-replicate,
}
use libmpq.Base.Memory.{read_range_mid, write_range_mid, split_at}
use libmpq.Compression.{Method, has, Codecs}
use libmpq.Compression.Decode.{
  Buffers, Place, source, output, temporary, contents, put_result, copy_back, multi_stages,
  dcmp_table, work_place, same_place,
}
use libmpq.Compression.Decode.Stages.{
  filter, stage_loop, multi_loop-filter, Unpacks, Chain, raw, staged, Chain-length, Holds, bufs_of,
  multi_stage-ok, multi_stage-Holds,
}

-- What the loop leaves: the data at the front of the current buffer.
abbrev Finished : Pointer → ℕ → List ℕ → Buffers → Type 0
Finished in_buf out_size data_in after =
    Holds in_buf out_size data_in after × (after.tb ≡ length data_in) × (after.place ≢ source)

stage_loop-Finished :
    {c : Codecs} (in_buf : Pointer) (out_size : ℕ) {data_in packed : List ℕ} {ms : List Method}
    → Chain c data_in ms packed
    → length data_in ≤ out_size
    → (bufs : Buffers) → Finished in_buf out_size packed bufs
    → (after : Buffers) × (stage_loop c ms in_buf out_size bufs ≡ ok after)
      × Finished in_buf out_size data_in after
stage_loop-Finished in_buf out_size raw small bufs finished = (bufs, refl, finished)
stage_loop-Finished {c} in_buf out_size (staged {ms} {before} {packed} m unpacks shorter chain)
      small bufs finished =
    let (next, run, holds, tb, moved) =
      multi_stage-Holds c m in_buf out_size packed before unpacks
        (omega (arith, Chain-length chain, small)) bufs finished.0 in
    let (after, rest, done) =
      stage_loop-Finished in_buf out_size chain small next (holds, tb, moved) in
    (after, rw (run, rest) refl, done)

place_of :
    (in_buf : Pointer) (bufs : Buffers) (place : Place) (temp : List ℕ) {found : List ℕ}
    → bufs.place ≡ place
    → bufs.place ≢ source
    → bufs.temp_buf ≡ some temp
    → contents in_buf bufs bufs.place ≡ some found
    → ((place ≡ output) × (bufs.out_buf ≡ found)) ⊎ ((place ≡ temporary) × (temp ≡ found))
unfolding contents
place_of in_buf bufs source temp ep moved et from = absurd (moved ep)
place_of in_buf bufs output temp {found} ep moved et from =
    let e : some bufs.out_buf ≡ some found = ap (contents in_buf bufs) (sym ep) ∙ from in
    inl (refl, cc)
place_of in_buf bufs temporary temp {found} ep moved et from =
    let e : bufs.temp_buf ≡ some found = ap (contents in_buf bufs) (sym ep) ∙ from in inr (refl, cc)

copy_temporary :
    (bufs : Buffers) (data_in rest out_buf : List ℕ)
    → bufs.place ≡ temporary
    → bufs.temp_buf ≡ some (data_in ++ rest)
    → bufs.out_buf ≡ out_buf
    → bufs.tb ≡ length data_in
    → length data_in ≤ length out_buf
    → (after : List ℕ) × (copy_back bufs ≡ ok (length data_in, data_in ++ after))
unfolding copy_back
copy_temporary bufs data_in rest out_buf ep et eo tb room =
    let (front, back, split, long) = split_at (length data_in) out_buf room in
    (
      back,
      rw
          (
            ep,
            et,
            eo,
            tb,
            split,
            read_range_mid [] data_in rest 0 (length data_in) refl refl,
            write_range_mid [] front data_in back 0 refl (sym long),
          )
          refl,
    )

copy_back-Finished :
    (in_buf : Pointer) (out_size : ℕ) (data_in : List ℕ) (bufs : Buffers)
    → Finished in_buf out_size data_in bufs
    → length data_in ≤ out_size
    → (after : List ℕ) × (copy_back bufs ≡ ok (length data_in, data_in ++ after))
unfolding copy_back
copy_back-Finished in_buf out_size data_in bufs (holds, tb, moved) small =
    let (temp, rest, et, from, size, room, fits, placed) = holds in
    elim (place_of in_buf bufs bufs.place temp refl moved et from) [
      | inl (ep, eo) ↦ (rest, rw (ep, tb, eo) refl)
      | inr (ep, eo) ↦
          copy_temporary bufs data_in rest bufs.out_buf ep (rw (sym eo) et) refl tb (omega arith)
    ]

-- A chain of one method needs no second buffer.
single_stage :
    (c : Codecs) (m : Method) (packed rest data_in out_buf : List ℕ) (out_size : ℕ)
    → Unpacks c m packed data_in
    → length data_in ≤ out_size
    → out_size ≤ length out_buf
    → (after : List ℕ) × ((stage_loop c
            (m ∷ [])
            (some (packed ++ rest))
            out_size
            (bufs_of source (length packed) 0 0 out_buf none)
          >>= copy_back)
        ≡ ok (length data_in, data_in ++ after))
unfolding copy_back put_result work_place same_place contents
single_stage c m packed rest data_in out_buf out_size unpacks small room =
    let (after, run, long) = unpacks rest out_buf out_size small room in
    (
      after,
      rw
          (multi_stage-ok c m (some (packed ++ rest)) out_size
            (bufs_of source (length packed) 0 0 out_buf none) output (packed ++ rest) out_buf
            (length packed) refl refl refl refl refl run)
          refl,
    )

two_stages :
    {c : Codecs} {data_in before : List ℕ} {ms : List Method} (m : Method)
    (packed rest out_buf : List ℕ) (out_size : ℕ)
    → Unpacks c m packed before
    → Chain c data_in ms before
    → length data_in ≤ out_size
    → out_size ≤ length out_buf
    → (after : List ℕ) × ((stage_loop c
            (m ∷ ms)
            (some (packed ++ rest))
            out_size
            (bufs_of source (length packed) 0 0 out_buf (some (replicate out_size 0)))
          >>= copy_back)
        ≡ ok (length data_in, data_in ++ after))
unfolding contents
two_stages {c} {data_in} {before} {ms} m packed rest out_buf out_size unpacks chain small room =
    let in_buf : Pointer = some (packed ++ rest) in
    let (next, run, holds, tb, moved) =
      multi_stage-Holds c m in_buf out_size packed before unpacks
        (omega (arith, Chain-length chain, small))
        (bufs_of source (length packed) 0 0 out_buf (some (replicate out_size 0)))
        (
          replicate out_size 0,
          rest,
          refl,
          refl,
          refl,
          room,
          omega (arith, length-replicate {A = ℕ} out_size 0),
          refl,
        ) in
    let (last, loop, done) =
      stage_loop-Finished in_buf out_size chain small next (holds, tb, moved) in
    let (after, copied) = copy_back-Finished in_buf out_size data_in last done small in
    (after, rw (run, loop, copied) refl)

-- The stages of a chain, with the buffers that the code allocates for as many.
stages_run :
    {c : Codecs} {data_in packed : List ℕ} {ms : List Method} (rest out_buf : List ℕ) (out_size : ℕ)
    → Chain c data_in ms packed
    → 0 < length ms
    → length data_in ≤ out_size
    → out_size ≤ length out_buf
    → (after : List ℕ) × ((stage_loop c ms (some (packed ++ rest)) out_size (
            bufs_of source
              (length packed)
              0
              0
              out_buf
              (if ltb 1 (length ms) then some (replicate out_size 0) else none))
          >>= copy_back)
        ≡ ok (length data_in, data_in ++ after))
stages_run {c} {data_in} {packed} rest out_buf out_size (staged m unpacks shorter raw) some_stage
      small room =
    single_stage c m packed rest data_in out_buf out_size unpacks small room
stages_run {c} {data_in} {packed} rest out_buf out_size
      (staged m unpacks shorter (staged {ms} m' unpacks' shorter' chain)) some_stage small room =
    let e : ltb 1 (length (m ∷ m' ∷ ms)) ≡ true = ground arith in
    rw e (
      two_stages m packed rest out_buf out_size unpacks (staged m' unpacks' shorter' chain) small
        room)
stages_run rest out_buf out_size raw some_stage small room = absurd (omega arith)

pub multi_stages-Chain :
    {c : Codecs} (flag : ℕ) {data_in packed : List ℕ} {ms : List Method} (rest out_buf : List ℕ)
    (out_size : ℕ)
    → Chain c data_in ms packed
    → filter (has flag) dcmp_table ≡ ms
    → 0 < length ms
    → length data_in ≤ out_size
    → out_size ≤ length out_buf
    → (after : List ℕ) × (multi_stages c flag
          (length ms, 0)
          (some (packed ++ rest))
          (length packed)
          out_buf
          out_size
        ≡ ok (length data_in, data_in ++ after))
unfolding multi_stages
multi_stages-Chain {c} flag {data_in} {packed} {ms} rest out_buf out_size chain same some_stage
      small room =
    let (after, run) = stages_run rest out_buf out_size chain some_stage small room in
    let in_buf : Pointer = some (packed ++ rest) in
    let bufs : Buffers =
      bufs_of source (length packed) 0 0 out_buf
        (if ltb 1 (length ms) then some (replicate out_size 0) else none) in
    (
      after,
      ap (λ loop. loop >>= copy_back)
            (multi_loop-filter c flag dcmp_table in_buf out_size bufs
              ∙ ap (λ l. stage_loop c l in_buf out_size bufs) same)
          ∙ run,
    )

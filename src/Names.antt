-- ===== src/Names.antt =====
-- From names to files: the lookup of src/mpq-api.c in the hash table, its entries as src/mpq-update.c
-- inserts and deletes them, and the map of file numbers that src/mpq-reader.c builds.
pub mod Slots
pub mod Probe
pub mod Found
pub mod Insert
pub mod Inserted
pub mod Deleted
pub mod Map
mod Runs
use libmpq.Base.{
  ℕ, zero, suc, ◌+◌, ◌-◌, ◌%◌, ◌^◌, bit_and, Bool, true, false, ◌&&◌, List, [], ◌∷◌, ◌++◌, none,
  some, Option, Outcome, ok, err, fault, or_fault, ◌>>=◌, get_elem?, set, replicate, length, ltb,
  leb, ◌==◌, u32, if◌then◌else◌, map_ok, Error, exist_error, format_error, size_error,
}
use libmpq.Crypto.StringHash.{hash_string}
use libmpq.HashTable.{MpqHash, hash_free, hash_deleted}
use libmpq.BlockTable.{MpqBlock}

-- LIBMPQ_FLAG_EXISTS.
abbrev pub flag_exists : ℕ
flag_exists = 0x80000000

-- `mpq_map_s`.
pub record MpqMap : Type 0 where
  pub block_table_indices : ℕ
  pub block_table_diff : ℕ

-- What a lookup uses of `struct mpq_archive`; the counts are those of the header.
pub record Archive : Type 0 where
  pub hash_table_count : ℕ
  pub mpq_hash : List MpqHash
  pub block_table_count : ℕ
  pub mpq_block : List MpqBlock
  pub mpq_map : List MpqMap
  pub files : ℕ

-- The body of the loop, where the pair of hashes matches.
pub file_number : Archive → ℕ → Outcome ℕ
file_number archive block_table_index =
    if leb archive.block_table_count block_table_index then err format_error else (do
      block ← or_fault (get_elem? archive.mpq_block block_table_index)
      (if bit_and block.flags flag_exists == 0 then err format_error else (do
        entry ← or_fault (get_elem? archive.mpq_map block_table_index)
        let number = u32 (block_table_index + (2 ^ 32 - u32 entry.block_table_diff))
        (if leb archive.files number then err format_error else ok number))))

-- The loop; `fuel` bounds its rounds.
pub probe : ℕ → Archive → ℕ → ℕ → ℕ → ℕ → Outcome ℕ
probe zero archive start i hash2 hash3 = fault
probe (suc fuel) archive start i hash2 hash3 =
    let next = u32 (i + 1) % archive.hash_table_count in
    let rest = probe fuel archive start next hash2 hash3 in
    or_fault (get_elem? archive.mpq_hash i) >>= λ entry.
    if entry.block_table_index == hash_free
    then err exist_error
    else if (entry.hash_a == hash2) && (entry.hash_b == hash3)
    then file_number archive entry.block_table_index
    else if next == start
    then err exist_error
    else rest

pub file_number_from_hash : Archive → ℕ → ℕ → ℕ → Outcome ℕ
file_number_from_hash archive hash1 hash2 hash3 =
    if archive.hash_table_count == 0
    then err exist_error
    else probe archive.hash_table_count archive (hash1 % archive.hash_table_count)
        (hash1 % archive.hash_table_count) hash2 hash3

-- `update_delete_hash`.
pub update_delete_hash : MpqHash
update_delete_hash = record {
  hash_a = 0;
  hash_b = 0;
  locale = 0;
  platform = 0;
  block_table_index = hash_deleted;
}

-- `if (test && candidate == UINT32_MAX) candidate = slot;`
pub first_of : Option ℕ → Bool → ℕ → Option ℕ
first_of (some candidate) test at_slot = some candidate
first_of none test at_slot = if test then some at_slot else none

-- The loop of `update_hash_slot` over the `left` last entries; `none` stands for UINT32_MAX.
pub slot_loop : ℕ → ℕ → List MpqHash → ℕ → ℕ → ℕ → Outcome (Option ℕ)
slot_loop zero i entries hash_a hash_b block = ok none
slot_loop (suc left) i entries hash_a hash_b block =
    let rest = slot_loop left (i + 1) entries hash_a hash_b block in
    or_fault (get_elem? entries i) >>= λ entry.
    if (entry.block_table_index == block) && ((entry.hash_a == hash_a) && (entry.hash_b == hash_b))
    then ok (some i)
    else rest

-- The loop of `update_insert_hash` over the `left` last slots; `none` stands for the candidate
-- UINT32_MAX.
pub find_candidate : ℕ → ℕ → ℕ → List MpqHash → ℕ → Option ℕ → Outcome (Option ℕ)
find_candidate zero i count entries start candidate = ok candidate
find_candidate (suc left) i count entries start candidate =
    let at_slot = u32 (start + i) % count in
    or_fault (get_elem? entries at_slot) >>= λ entry.
    let taken = first_of candidate (entry.block_table_index == hash_deleted) at_slot in
    let rest = find_candidate left (i + 1) count entries start taken in
    if entry.block_table_index == hash_free then ok (first_of taken true at_slot) else rest

pub put_entry : List MpqHash → Option ℕ → MpqHash → Outcome (List MpqHash)
put_entry entries none entry = err size_error
put_entry entries (some candidate) entry = ok (set entries candidate entry)

module _ (toupper : ℕ → ℕ) where
  pub update_hash_slot : Archive → List ℕ → ℕ → Outcome (Option ℕ)
  update_hash_slot archive name block = do
    hash_a ← hash_string toupper name 0x100
    hash_b ← hash_string toupper name 0x200
    slot_loop archive.hash_table_count 0 archive.mpq_hash hash_a hash_b block

  -- The hash table is the result.
  pub update_insert_hash : Archive → List ℕ → MpqHash → Outcome (List MpqHash)
  update_insert_hash archive name original =
      let count = archive.hash_table_count in
      if count == 0 then err format_error else (do
        hash ← hash_string toupper name 0
        candidate ← find_candidate count 0 count archive.mpq_hash (hash % count) none
        hash_a ← hash_string toupper name 0x100
        hash_b ← hash_string toupper name 0x200
        put_entry archive.mpq_hash candidate (record original { hash_a = hash_a; hash_b = hash_b }))

-- Write to a member of the element at an index.
pub modify : List MpqMap → ℕ → (MpqMap → MpqMap) → Outcome (List MpqMap)
modify maps i change = do old ← or_fault (get_elem? maps i); ok (set maps i (change old))

-- The body of the loop that builds the map, with `count` existing blocks before the block.
pub map_block : MpqBlock → ℕ → ℕ → List MpqMap → Outcome (List MpqMap × ℕ)
map_block block i count maps = do
  maps' ← modify maps i (λ entry. record entry { block_table_diff = i - count })
  (if bit_and block.flags flag_exists == 0 then ok (maps', count) else (do
    maps'' ← modify maps' count (λ entry. record entry { block_table_indices = i })
    ok (maps'', count + 1)))

pub map_loop : List MpqBlock → ℕ → ℕ → List MpqMap → Outcome (List MpqMap × ℕ)
map_loop [] i count maps = ok (maps, count)
map_loop (block ∷ blocks) i count maps =
    map_block block i count maps >>= λ next. map_loop blocks (i + 1) next.1 next.0

-- The map and the number of files.
pub build_map : List MpqBlock → Outcome (List MpqMap × ℕ)
build_map blocks =
    map_loop blocks 0 0
      (replicate (length blocks) (record { block_table_indices = 0; block_table_diff = 0 }))

-- ===== src/Stream/Member.antt =====
-- What a member is to the reader of its sectors, and what a stream on it is, src/mpq-stream.c.
use libmpq.Base.{
  ℕ, ◌+◌, ◌*◌, ◌/◌, ◌≤◌, ◌<◌, ◌≡◌, ◌⊎◌, false, List, ◌++◌, none, some, ok, ◌==◌, u32, if◌then◌else◌,
  length,
}
use libmpq.Base.Integers.{pos}
use libmpq.EntryTable.{size_max}
use libmpq.Stream.{Stream, Reader}

-- The sector of a position, and where it begins.
abbrev pub sector_at : ℕ → ℕ → ℕ → ℕ
sector_at blocks sector position = if blocks == 1 then 0 else u32 (position / sector)

abbrev pub begins_at : ℕ → ℕ → ℕ → ℕ
begins_at blocks sector block = if blocks == 1 then 0 else block * sector

-- The sector of a byte of the member `file`.
abbrev pub IsSector : List ℕ → ℕ → ℕ → ℕ → Type 0
IsSector file blocks sector block =
    (position : ℕ) × (position < length file) × (block ≡ sector_at blocks sector position)

-- The reader decodes the sectors `content` of the member `file`.
pub record Serves (reader : Reader) (file : List ℕ) (content : ℕ → List ℕ) (blocks sector : ℕ)
    : Type 0 where
  pub some_sector : 0 < sector
  pub placed :
      (position : ℕ)
      → position < length file
      → (front back : List ℕ) × (file
          ≡ front ++ (content (sector_at blocks sector position) ++ back))
        × (length front ≡ begins_at blocks sector (sector_at blocks sector position))
        × (length front ≤ position)
        × (position < length front + length (content (sector_at blocks sector position)))
  pub sizes :
      (block : ℕ)
      → IsSector file blocks sector block
      → reader.block_size_unpacked block ≡ ok (pos (length (content block)))
  pub small : (block : ℕ) → IsSector file blocks sector block → length (content block) ≤ size_max
  pub resizes :
      (buffer : List ℕ) (n : ℕ)
      → (new : List ℕ) × (reader.resize buffer n ≡ some new) × (length new ≡ n)
  pub decodes :
      (block : ℕ) (buffer : List ℕ)
      → IsSector file blocks sector block
      → length (content block) ≤ length buffer
      → (rest : List ℕ) × (reader.block_read block buffer (length buffer) ≡ record {
        result = none;
        contents = content block ++ rest;
        transferred = length (content block);
        mismatch = false;
      })
        × (length (content block ++ rest) ≡ length buffer)

-- The buffer holds the cached sector.
abbrev pub Holds : (ℕ → List ℕ) → Stream → Type 0
Holds content s =
    (rest : List ℕ) × (s.buffer ≡ content s.cached_block ++ rest)
    × (s.block_size ≡ length (content s.cached_block))

abbrev pub IsSized : List ℕ → ℕ → ℕ → Stream → Type 0
IsSized file blocks sector s =
    (s.size ≡ length file)
    × (s.archive_block_size ≡ sector)
    × (s.blocks ≡ blocks)
    × (length s.buffer ≡ s.buffer_size)

-- A stream on the member.
abbrev pub IsStream : List ℕ → (ℕ → List ℕ) → ℕ → ℕ → Stream → Type 0
IsStream file content blocks sector s =
    IsSized file blocks sector s × ((s.block_valid ≡ false) ⊎ Holds content s)

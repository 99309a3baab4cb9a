-- ===== src/Writer.antt =====
-- Publishing a finished member, the end of `stream_finish` in src/mpq-writer.c, behind the payload of
-- `total` bytes.
pub mod Publish
pub mod Lookup
mod Runs
use libmpq.Base.{
  ℕ, zero, suc, ◌+◌, ◌-◌, ◌%◌, ◌/◌, ◌^◌, bit_and, bit_or, Bool, ◌&&◌, ◌||◌, not, List, [], ◌∷◌,
  none, some, Option, Outcome, ok, err, fault, or_fault, ◌>>=◌, get_elem?, set, length, replicate,
  ltb, leb, ◌==◌, u16, u32, ◌>>>◌, if◌then◌else◌, Error, seek_error, size_error,
}
use libmpq.Crypto.StringHash.{hash_string}
use libmpq.Digest.Md5.{Md5Context, md5_final}
use libmpq.HashTable.{MpqHash, hash_free}
use libmpq.BlockTable.{MpqBlock, MpqBlockEx}

abbrev pub u32_max : ℕ
u32_max = 0xFFFFFFFF

abbrev pub version_one : ℕ
version_one = 0

-- LIBMPQ_FLAG_EXISTS, LIBMPQ_FILE_FLAG_PATCH_FILE, LIBMPQ_FILE_FLAG_COMPRESS and
-- LIBMPQ_FLAG_COMPRESS_MULTI, LIBMPQ_ATTRIBUTE_MD5.
abbrev pub flag_exists : ℕ
flag_exists = 0x80000000

abbrev pub flag_patch_file : ℕ
flag_patch_file = 0x00100000

abbrev pub flag_compress : ℕ
flag_compress = 0x00000200

abbrev pub attribute_md5 : ℕ
attribute_md5 = 4

-- `mpq_file_attributes_s`.
pub record FileAttributes : Type 0 where
  pub flags : ℕ
  pub crc32 : ℕ
  pub filetime : ℕ
  pub md5 : List ℕ
  pub patch_bit : ℕ
  pub reserved : List ℕ

-- What the end of `stream_finish` uses of the archive and of the writer.
pub record OutputArchive : Type 0 where
  pub version : ℕ
  pub write_hash_capacity : ℕ
  pub mpq_hash : List MpqHash
  pub mpq_block : List MpqBlock
  pub mpq_block_ex : List MpqBlockEx
  pub write_names : List (Option (List ℕ))
  pub write_locales : List ℕ
  pub write_platforms : List ℕ
  pub write_next_block : ℕ
  pub files : ℕ
  pub write_attributes : Option (List FileAttributes)

pub record Member : Type 0 where
  pub name : List ℕ
  pub payload_offset : ℕ
  pub prefix_size : ℕ
  pub patch_result_size : ℕ
  pub patch_file : Bool
  pub expected : ℕ
  pub flags : ℕ
  pub locale : ℕ
  pub platform : ℕ
  pub attributes : FileAttributes
  pub md5 : Md5Context

-- A write to an element of an array.
pub put {ℓ} : {A : Type ℓ} → List A → ℕ → A → Outcome (List A)
put xs i x = if ltb i (length xs) then ok (set xs i x) else fault

-- The block entry.
pub member_block : Member → ℕ → MpqBlock
member_block member total =
    let flags =
      bit_or (bit_or flag_exists member.flags) (if member.patch_file then flag_patch_file else 0) in
    record {
      offset = u32 (member.payload_offset - member.prefix_size);
      packed_size = u32 (u32 total + member.prefix_size);
      unpacked_size = if member.patch_file then member.patch_result_size else u32 member.expected;
      flags = if bit_and member.flags flag_compress == 0 then flags else bit_or flags flag_compress;
    }

-- The first free position in the order of the probe, over the `left` last slots.
pub free_position : ℕ → ℕ → ℕ → ℕ → List MpqHash → Outcome (Option ℕ)
free_position zero slot capacity hash1 entries = ok none
free_position (suc left) slot capacity hash1 entries =
    let pos = bit_and (u32 (hash1 + slot)) (capacity - 1) in
    let rest = free_position left (slot + 1) capacity hash1 entries in
    or_fault (get_elem? entries pos) >>= λ entry.
    if entry.block_table_index == hash_free then ok (some pos) else rest

-- The attributes of the member, with its digest.
pub member_attributes : Member → Outcome FileAttributes
member_attributes member =
    if bit_and member.attributes.flags attribute_md5 == 0 then ok member.attributes else (do
      digest ← md5_final member.md5 member.attributes.md5
      ok (record member.attributes { md5 = digest }))

pub put_attributes :
    Option (List FileAttributes) → ℕ → Member → Outcome (Option (List FileAttributes))
put_attributes none index member = ok none
put_attributes (some rows) index member = do
  row ← member_attributes member
  rows' ← put rows index row
  ok (some rows')

-- The end of the loop over the slots: the result code, `none` for 0, and the archive.
pub put_slot :
    Option ℕ → OutputArchive → ℕ → Member → ℕ → ℕ → Outcome (Option Error × OutputArchive)
put_slot none archive index member hash2 hash3 = ok (some size_error, archive)
put_slot (some pos) archive index member hash2 hash3 = do
  entries ← put archive.mpq_hash pos (record {
    hash_a = hash2;
    hash_b = hash3;
    locale = member.locale;
    platform = member.platform;
    block_table_index = index;
  })
  rows ← put_attributes archive.write_attributes index member
  ok (none, record archive { mpq_hash = entries; write_attributes = rows })

module _ (toupper : ℕ → ℕ) where
  -- The member enters the tables.
  pub enter : OutputArchive → Member → ℕ → Outcome (Option Error × OutputArchive)
  enter archive member total = do
    let index = archive.write_next_block
    hash1 ← hash_string toupper member.name 0
    hash2 ← hash_string toupper member.name 0x100
    hash3 ← hash_string toupper member.name 0x200
    blocks ← put archive.mpq_block index (member_block member total)
    blocks_ex ←
        put archive.mpq_block_ex index
          (record { offset_high = u16 ((member.payload_offset - member.prefix_size) >>> 32) })
    names ← put archive.write_names index (some member.name)
    locales ← put archive.write_locales index member.locale
    platforms ← put archive.write_platforms index member.platform
    let entered = record archive {
      mpq_block = blocks;
      mpq_block_ex = blocks_ex;
      write_names = names;
      write_locales = locales;
      write_platforms = platforms;
      write_next_block = u32 (index + 1);
      files = u32 (index + 1);
    }
    position ←
        free_position archive.write_hash_capacity 0 archive.write_hash_capacity hash1
          archive.mpq_hash
    put_slot position entered index member hash2 hash3

  -- `seeked` tells whether `libmpq__file_seek` succeeds.
  pub publish : Bool → OutputArchive → Member → ℕ → Outcome (Option Error × OutputArchive)
  publish seeked archive member total =
      if not seeked
      then ok (some seek_error, archive)
      else if ltb member.payload_offset member.prefix_size
          || (not (member.prefix_size == 0) && ltb (u32_max - member.prefix_size) total)
      then ok (some size_error, archive)
      else if ltb u32_max member.payload_offset
          || (ltb u32_max total || ltb u32_max member.expected)
      then ok (
        if archive.version == version_one
            then some size_error
            else if ltb 0xFFFF (member.payload_offset >>> 32)
            then some size_error
            else none,
        archive,
      )
      else enter archive member total

-- ===== src/Attributes/Runs.antt =====
-- A payload of src/mpq-attributes.c for two blocks.
use libmpq.Base.{
  ℕ, ◌≡◌, ◌⊎◌, refl, arith, List, [], ◌∷◌, some, ok, err, format_error, ◌>>=◌, replicate,
}
use libmpq.Endian.{load_le32}
use libmpq.Writer.{FileAttributes}
use libmpq.Attributes.{
  View, attributes_parse, attributes_get, match_layouts, match_layout, array_layout, choose_layout,
  legacy_layout, get_crc32, get_filetime, get_md5, get_patch_bit,
}
use libmpq.Attributes.Safety.{attributes_parse_safe}

-- Checksums and patch bits; the second block has a checksum and its patch bit.
abbrev payload : List ℕ
payload = 100 ∷ 0 ∷ 0 ∷ 0 ∷ 9 ∷ 0 ∷ 0 ∷ 0 ∷ 0 ∷ 0 ∷ 0 ∷ 0 ∷ 0x78 ∷ 0x56 ∷ 0x34 ∷ 0x12 ∷ 0x40 ∷ []

abbrev second_block : FileAttributes
second_block = record {
  flags = 9;
  crc32 = 0x12345678;
  filetime = 0;
  md5 = replicate 16 0;
  patch_bit = 1;
  reserved = replicate 4 0;
}

attributes_get-payload :
    (attributes_parse (some payload) 17 2 0 >>= λ view. attributes_get view 1) ≡ ok second_block
unfolding attributes_parse attributes_get match_layouts match_layout array_layout choose_layout
    legacy_layout get_crc32 get_filetime get_md5 get_patch_bit load_le32
attributes_get-payload = refl

attributes_parse_safe_example :
    (attributes_parse (some payload) 17 2 0 ≡ err format_error)
    ⊎ ((view : View) × (attributes_parse (some payload) 17 2 0 ≡ ok view)
        × ((index : ℕ) → (result : FileAttributes) × (attributes_get view index ≡ ok result)))
attributes_parse_safe_example = attributes_parse_safe payload 2 0 (omega arith)

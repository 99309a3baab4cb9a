-- ===== src/Attributes.antt =====
-- The payload of `(attributes)`, src/mpq-attributes.c: its layout, its parser and the decoder of one
-- entry.
pub mod Layout
pub mod Safety
mod Runs
use libmpq.Base.{
  ℕ, zero, suc, ◌+◌, ◌-◌, ◌*◌, ◌/◌, ◌%◌, ◌^◌, bit_and, bit_or, Bool, true, false, ◌&&◌, ◌||◌, not,
  List, [], ◌∷◌, none, some, Pointer, Outcome, ok, err, fault, format_error, or_fault, ◌>>=◌,
  advance, get_elem?, read_range, replicate, ◌==◌, ltb, leb, ◌>>>◌, u64, if◌then◌else◌,
}
use libmpq.Endian.{load_le32, load_le64}
use libmpq.EntryTable.{size_max}
use libmpq.Writer.{FileAttributes}

-- `mpq_attributes_s`; the four offsets are those of the array.
pub record View : Type 0 where
  pub data_bytes : List ℕ
  pub flags : ℕ
  pub entries : ℕ
  pub self : ℕ
  pub patch_bits : ℕ
  pub patch_self_omitted : ℕ
  pub offset0 : ℕ
  pub offset1 : ℕ
  pub offset2 : ℕ
  pub offset3 : ℕ

abbrev pub attributes_version : ℕ
attributes_version = 100

-- `flags & bit`, as a test.
abbrev pub is_set : ℕ → ℕ → Bool
is_set flags bit = not (bit_and flags bit == 0)

-- The size behind an array of `count` elements, if the flags have it.
abbrev pub behind_array : ℕ → ℕ → ℕ → ℕ → ℕ → ℕ
behind_array flags bit count width size =
    if is_set flags bit then u64 (size + count * width) else size

-- An offset is kept where `size_t` has room for it.
abbrev pub fitting : ℕ → ℕ → ℕ
fitting size old = if leb size size_max then size else old

pub array_layout : ℕ → ℕ → View → ℕ × View
array_layout count flags view =
    let size1 = behind_array flags 1 count 4 8 in
    let size2 = behind_array flags 2 count 8 size1 in
    let size3 = behind_array flags 4 count 16 size2 in
    (
      size3,
      record view {
        offset0 = fitting 8 view.offset0;
        offset1 = fitting size1 view.offset1;
        offset2 = fitting size2 view.offset2;
        offset3 = fitting size3 view.offset3;
      },
    )

-- The loop over the last bytes: `left` of them are all zero from `i` on.
pub all_zero : ℕ → List ℕ → ℕ → Outcome Bool
all_zero zero data_in i = ok true
all_zero (suc left) data_in i = do
  byte ← or_fault (get_elem? data_in i)
  let rest = all_zero left data_in (i + 1)
  if byte == 0 then rest else ok false

-- What `match_layout` does behind the two layouts of patch bits.
pub legacy_layout : List ℕ → ℕ → ℕ → ℕ → Bool → View → Outcome (Bool × View)
legacy_layout data_in size count base legacy view =
    if not legacy
    then ok (false, view)
    else if base == size
    then ok (true, view)
    else if not (base + count * 4 == size)
    then ok (false, view)
    else (do zeros ← all_zero (size - base) data_in base; ok (zeros, view))

pub choose_layout : List ℕ → ℕ → ℕ → ℕ → Bool → ℕ → View → Outcome (Bool × View)
choose_layout data_in size count entries legacy base view =
    let short_bits = (count + 6) / 8 in
    if ltb size base
    then ok (false, view)
    else let view' = record view { entries = entries } in
      if not (is_set view.flags 8)
      then ok (base == size, view')
      else if base + (entries + 7) / 8 == size
      then ok (true, record view' { patch_bits = entries })
      else if base + short_bits == size
      then ok (true, record view' { patch_bits = short_bits * 8; patch_self_omitted = 1 })
      else legacy_layout data_in size count base legacy view'

pub match_layout : List ℕ → ℕ → ℕ → ℕ → View → Bool → Outcome (Bool × View)
match_layout data_in size count entries view legacy =
    let laid = array_layout entries view.flags view in
    choose_layout data_in size count entries legacy laid.0 laid.1

-- The three attempts, one after the other as `&&` does, on one candidate.
pub match_layouts : List ℕ → ℕ → ℕ → View → Outcome (Bool × View)
match_layouts data_in size count candidate = do
  (full, candidate1) ← match_layout data_in size count count candidate false
  if full then ok (true, candidate1) else (do
    (short, candidate2) ← match_layout data_in size count (count - 1) candidate1 false
    (if short
        then ok (true, candidate2)
        else match_layout data_in size count count candidate2 true))

abbrev pub candidate_of : List ℕ → ℕ → ℕ → View
candidate_of data_in flags self = record {
  data_bytes = data_in;
  flags = flags;
  entries = 0;
  self = self;
  patch_bits = 0;
  patch_self_omitted = 0;
  offset0 = 0;
  offset1 = 0;
  offset2 = 0;
  offset3 = 0;
}

pub attributes_parse : Pointer → ℕ → ℕ → ℕ → Outcome View
attributes_parse none size count self = err format_error
attributes_parse (some data_in) size count self =
    if ltb size 8 || (count == 0) || leb count self then err format_error else (do
      version ← load_le32 (some data_in)
      (if not (version == attributes_version) then err format_error else (do
        flags ← load_le32 (advance (some data_in) 4)
        (if is_set flags (2 ^ 32 - 1 - 0x0f) then err format_error else (do
          (found, candidate) ← match_layouts data_in size count (candidate_of data_in flags self)
          if found then ok candidate else err format_error)))))

-- `~bit` of a `uint32_t`.
abbrev pub without : ℕ → ℕ → ℕ
without flags bit = bit_and flags (2 ^ 32 - 1 - bit)

-- Whether a byte is not zero; `nonzero` is the disjunction of the bytes.
pub any_nonzero : List ℕ → ℕ → ℕ
any_nonzero [] nonzero = nonzero
any_nonzero (b ∷ bytes) nonzero = any_nonzero bytes (bit_or nonzero b)

abbrev pub no_attributes : FileAttributes
no_attributes = record {
  flags = 0;
  crc32 = 0;
  filetime = 0;
  md5 = replicate 16 0;
  patch_bit = 0;
  reserved = replicate 4 0;
}

-- The steps of `libmpq__attributes_get`, each on what the one before left.
pub get_crc32 : View → ℕ → FileAttributes → Outcome FileAttributes
get_crc32 view index result =
    if is_set result.flags 1
    then (do
      crc32 ← load_le32 (advance (some view.data_bytes) (view.offset0 + index * 4))
      ok (record result { crc32 = crc32 }))
    else ok result

pub get_filetime : View → ℕ → FileAttributes → Outcome FileAttributes
get_filetime view index result =
    if is_set result.flags 2
    then (do
      filetime ← load_le64 (advance (some view.data_bytes) (view.offset1 + index * 8))
      ok (record result { filetime = filetime }))
    else ok result

pub get_md5 : View → ℕ → FileAttributes → Outcome FileAttributes
get_md5 view index result =
    if is_set result.flags 4
    then (do
      md5 ← read_range view.data_bytes (view.offset2 + index * 16) 16
      let flags = if any_nonzero md5 0 == 0 then without result.flags 4 else result.flags
      ok (record result { md5 = md5; flags = flags }))
    else ok result

pub get_patch_bit : View → ℕ → FileAttributes → Outcome FileAttributes
get_patch_bit view index result =
    if not (is_set view.flags 8)
    then ok result
    else if ltb index view.patch_bits
    then (do
      byte ← or_fault (get_elem? view.data_bytes (view.offset3 + index / 8))
      let bit = if bit_and byte (0x80 >>> (index % 8)) == 0 then 0 else 1
      ok (record result { flags = bit_or result.flags 8; patch_bit = bit }))
    else if (index == view.self) && not (view.patch_self_omitted == 0)
    then ok (record result { flags = bit_or result.flags 8 })
    else ok result

pub attributes_get : View → ℕ → Outcome FileAttributes
attributes_get view index = if leb view.entries index then ok no_attributes else (do
  crc32 ← get_crc32 view index (record no_attributes { flags = without view.flags 8 })
  filetime ← get_filetime view index crc32
  md5 ← get_md5 view index filetime
  get_patch_bit view index md5)

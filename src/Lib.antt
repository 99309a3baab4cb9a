-- ===== src/Lib.antt =====
-- libmpq reads, writes and updates MPQ archives. An archive is a header, a table of hashed file
-- names, a table of blocks and the blocks themselves, cut into sectors that are compressed by one or
-- several codecs and possibly encrypted. Paths are from the repository's root.
--
-- Base: the error codes of include/libmpq/mpq.h (`Error`), results that are a value, an error code
-- or an access outside a buffer (`Outcome` with `ok`, `err` and `fault`), buffers as lists of bytes
-- from the pointer on (`Pointer` is such a list or NULL), and casts to the fixed widths. A buffer
-- that the code writes to is an argument, and its new contents are part of the result.
--
-- Endian: src/mpq-endian.c, one definition for each `libmpq__load_*` and `libmpq__store_*`.
--
-- Crypto: src/mpq-crypto.c. Crypto.Table is `crypt_buf`; Crypto.StringHash is
-- `libmpq__crypto_hash_string`, with the C library's `toupper` as a parameter, and with a signed
-- `char`, as on most hosts: `char_int` is what `toupper` gets of a byte. Crypto has the block cipher;
-- Crypto.Recovery has the two searches for an unknown seed, whose loops run on the rounds that are
-- left.
--
-- EntryTable: the loops that src/mpq-hash.c and src/mpq-block.c run over a table of entries of a
-- fixed size, with the accesses to one entry as parameters (`EntryCodec` is what makes these undo
-- one another). HashTable, BlockTable and Header: src/mpq-hash.c, src/mpq-block.c and
-- src/mpq-header.c. Each Wire module proves the interface for its entries. `SIZE_MAX` is that of a
-- 64-bit host.
--
-- Sparse: src/mpq-sparse.c. The loops run on fuel: 131 rounds for a run of zeros and 128 for a
-- literal, which is what the two limits allow, and one round more than there are input bytes for
-- the loops over the input, each of which consumes a byte per round. Sparse.Tokens has the relation
-- between a token stream and the bytes it stands for.
--
-- Compression: the dispatch of src/mpq-compression.c. `encode_sector` is the chain of the writer,
-- Compression.Decode has `libmpq__compression_decompress_multi` with its two buffers (`Buffers`; a
-- stage that would decode a buffer into itself is a fault) and `libmpq__compression_decompress_block`,
-- Compression.Lzma the framing of the special method, with liblzma as the record `LzmaCodec` under
-- `LzmaLaws`. The other codecs are the record `Codecs`, but for SPARSE, which Sparse has; `Lossless`
-- is what a chain asks of a codec. Decode.Stages and Decode.Chains follow a chain through the buffers,
-- Decode.Selection says which methods a mask selects. The result of a block is an `int32_t`, a number
-- of Base.Integers, to which `out_size` is narrowed; what the casts to `uint32_t` and `uInt` leave of
-- the data of a stage is `narrowed`.
--
-- Stream: `struct mpq_stream` and its operations of src/mpq-stream.c. What it calls of
-- src/mpq-reader.c for one member, and `realloc`, is the record `Reader`; Stream.Member says by
-- `Serves` what a member is to such a reader. A read runs on one round more than there are bytes
-- asked for, of which each round copies at least one. Operations that fail return the stream as the
-- code leaves it.
--
-- Wave and Wave.Prefix: `libmpq__wave_probe_pcm16` and `libmpq__wave_probe_pcm16_prefix` of
-- src/mpq-wave.c. The walks over the chunks run on fuel, and are `none` when they are not done on it.
--
-- Digest: src/mpq-md5.c and src/mpq-sha1.c. Digest.Blocks says by `Chain` which state the blocks of a
-- message lead to, and by `Absorbed` what a context holds of a message; both digests instantiate it
-- with their `transform`. The loop of an update runs on one round more than there are bytes, of which
-- each round takes at least one. Final states the digest of a message that is given in pieces.
--
-- Mpqe: src/mpq-mpqe.c. Mpqe.Key is the key derivation, Mpqe.Transform the masking of a chunk. The
-- statements that repeat one pattern on other words are tables (`shuffle`, `double_round`, `sums`)
-- which one loop runs over in the order of the source. Mpqe.Salsa is the block function of Salsa20/20
-- as its specification has it, on a block of sixteen words, and Mpqe.Stream compares the two.
--
-- Names: from names to files. `file_number_from_hash` is the lookup of src/mpq-api.c, on as many rounds
-- as the table has entries; `update_hash_slot`, `update_delete_hash` and `update_insert_hash` are those
-- of src/mpq-update.c; `build_map` is the loop at the end of `libmpq__reader_archive_open_source` in
-- src/mpq-reader.c. Names.Slots has the arithmetic of the probe, Names.Probe and Names.Found what a
-- probe passes and where it ends.
--
-- Patch: the run-length wrapper of patches, `patch_bsd0_rle` of src/mpq-patch-writer.c and
-- `patch_expand_rle` of src/mpq-patch-reader.c, with one round more than there are bytes of input.
--
-- Rsa: `add_mod`, `multiply`, `rsa_key_validate`, `libmpq__rsa_weak_operation` and
-- `libmpq__rsa_strong_public_operation` of src/mpq-rsa.c, on arrays that are as long as `size`;
-- a size above LIBMPQ_RSA_MAX_SIZE, the length of the local arrays, is a fault.
-- Rsa.Limbs has the number of an array, Rsa.Digits its bits, Rsa.Order the byte order of the keys,
-- Rsa.Power and Rsa.Public the loops over an exponent.
--
-- Payload: `libmpq__reader_validate_payload_range` of src/mpq-reader.c.
--
-- Writer: the end of `stream_finish` in src/mpq-writer.c, from the seek behind the payload on. The result
-- is a code, `none` for 0, and the archive, which a late failure leaves changed. Writer.Lookup puts it
-- together with the map of the reader and the lookup.
--
-- Attributes: the layout, the parser and the decoder of src/mpq-attributes.c; `View` is the parsed view.
--
-- The Runs modules evaluate the definitions on concrete input.
--
-- Not modelled: the rest of the reader, the writer, updates and patches, sources, opening and closing
-- of streams, the rest of src/mpq-wave.c, the codecs of PKWARE and Huffman, signatures, and the rest of
-- src/mpq-rsa.c and of src/mpq-attributes.c. File access, zlib, bzip2, LZMA, the language bindings, the
-- tests and the scripts are outside of a model of the library's own logic.
pub mod Base
pub mod Endian
pub mod Compression
pub mod Crypto
pub mod EntryTable
pub mod HashTable
pub mod BlockTable
pub mod Header
pub mod Sparse
pub mod Stream
pub mod Wave
pub mod Digest
pub mod Mpqe
pub mod Names
pub mod Patch
pub mod Rsa
pub mod Payload
pub mod Writer
pub mod Attributes
mod Runs

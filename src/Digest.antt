-- ===== src/Digest.antt =====
-- The digests of src/mpq-md5.c and src/mpq-sha1.c, which take a message in by blocks of 64 bytes.
pub mod Blocks
pub mod Md5
pub mod Sha1

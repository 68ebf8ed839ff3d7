-- ===== src/Dmg/Decompressor.antt =====
-- src/DMGDecompressor.cpp: the decompressors of the runs of a disk image. What the base class keeps is
-- the position in its reader, a uint32_t.
pub mod Stream
pub mod Lzfse
pub mod Window
pub mod Create
use darling_dmg.Common.{
  ℕ, ◌+◌, ◌%◌, ◌==◌, if◌then◌else◌, Bytes, ◌++◌, length, take, replicate, Result, ok, err, io_error,
  ◌>>=◌,
}
use darling_dmg.Common.Word.{u32_mod}
use darling_dmg.Io.{Reader}

abbrev pub buffer_size : ℕ
buffer_size = 8192

unfoldable pub read_some : Reader → ℕ → Result Bytes
read_some r pos = do
  bytes ← r.read buffer_size pos
  if length bytes == 0 then err io_error else ok bytes

abbrev pub processed : ℕ → ℕ → ℕ
processed pos n = (pos + n) % u32_mod

-- What a caller finds in its buffer of which `n` bytes are said to be filled; `undef` is what lay there.
unfoldable pub in_buffer : ℕ → ℕ → Bytes → Bytes
in_buffer undef n out = take n (out ++ replicate n undef)

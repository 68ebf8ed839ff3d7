-- ===== src/Dmg/Decompressor/Create.antt =====
-- src/DMGDecompressor.cpp: which decompressor is made for a run. `inflate` and `bz2` with their first states and
-- `decode` stand for the three libraries, `with_lzfse` for the build option; `undef` is what lies in the buffer of the caller.
pub mod Runs
mod Tests
use darling_dmg.Common.{ℕ, Bool, if◌then◌else◌, Option, none, some, Bytes, Result, ok, ◌>>=◌}
use darling_dmg.Dmg.Decompressor.{in_buffer}
use darling_dmg.Io.{Reader}
use darling_dmg.Dmg.{RunType, adc, zlib, bzip2, lzfse}
use darling_dmg.Dmg.Decompressor.Stream.{Advance, zlib_decompress, bzip2_decompress, output_of}
use darling_dmg.Dmg.Decompressor.Lzfse.{lzfse_decompress}
use darling_dmg.Dmg.Decompressor.Window.{window_decompress}

module _ {ℓ κ} {Z : Type ℓ} {B : Type κ} (inflate : Z → Bytes → ℕ → Advance Z) (z0 : Z)
    (bz2 : B → Bytes → ℕ → Advance B) (b0 : B) (decode : Bytes → ℕ → Bytes) (with_lzfse : Bool)
    (undef : ℕ) where
  unfoldable pub create : RunType → Reader → Option (ℕ → ℕ → Result Bytes)
  unfolding in_buffer
  create zlib reader =
      some (λ count offset. output_of undef (zlib_decompress inflate reader count offset z0))
  create bzip2 reader =
      some (λ count offset. output_of undef (bzip2_decompress bz2 reader count offset b0))
  create adc reader = some (λ count offset.
      window_decompress reader count offset >>= (λ r. ok (in_buffer undef r.0 r.1)))
  create lzfse reader = if with_lzfse then some (lzfse_decompress decode reader) else none
  create _ reader = none

-- ===== src/Dmg/Decompressor/Stream/Tests.antt =====
-- A stored format of three bytes and an end mark.
use darling_dmg.Common.{ℕ, ◌<◌, ◌≡◌, refl, arith, [], ◌∷◌, Bytes, byte_at, ok}
use darling_dmg.Common.Word.{u32_mod}
use darling_dmg.Io.{Reader, memory_reader}
use darling_dmg.Io.Serves.{Serves, Returns, memory_reader-Serves}
use darling_dmg.Dmg.Decompressor.Stream.{
  Advance, gave, zlib_decompress, bzip2_decompress, output_of,
}
use darling_dmg.Dmg.Decompressor.Stream.Library.{IsLibrary}
use darling_dmg.Dmg.Decompressor.Stream.Stored.{stored_advance, stored-IsLibrary}
use darling_dmg.Dmg.Decompressor.Stream.Source

abbrev stored : Bytes
stored = 5 ∷ 6 ∷ 7 ∷ 9 ∷ []

abbrev stored_library : ℕ → Bytes → ℕ → Advance ℕ
stored_library = stored_advance 3

abbrev disk : Reader
disk = memory_reader stored

middle : zlib_decompress stored_library disk 2 1 0 ≡ ok (gave 2, 6 ∷ 7 ∷ [])
unfolding zlib_decompress memory_reader
middle = refl

past_end : bzip2_decompress stored_library disk 8 1 0 ≡ ok (gave 8, 6 ∷ 7 ∷ [])
unfolding bzip2_decompress memory_reader
past_end = refl

stored_library-IsLibrary : IsLibrary stored_library (byte_at stored) disk.size (byte_at stored) 3 0
unfolding memory_reader
stored_library-IsLibrary = stored-IsLibrary 3 (byte_at stored)

abbrev serves : Serves disk (byte_at stored)
serves = memory_reader-Serves stored (omega arith)

disk_small : disk.size < u32_mod
unfolding memory_reader
disk_small = omega arith

stream_decompress-Returns_example :
    Returns (byte_at stored) 1 2 (output_of 0 (zlib_decompress stored_library disk 2 1 0))
    × Returns (byte_at stored) 1 2 (output_of 0 (bzip2_decompress stored_library disk 2 1 0))
stream_decompress-Returns_example =
    Source.stream_decompress-Returns stored_library (byte_at stored) (byte_at stored) 3 disk 0
      stored_library-IsLibrary serves disk_small 0 2 1 (omega arith) (omega arith)

stream_past_end-GivesAt_example :
    Source.GivesAt stored_library
      (byte_at stored)
      (byte_at stored)
      3
      disk
      0
      stored_library-IsLibrary
      serves
      disk_small
      3
      (zlib_decompress stored_library disk 8 0 0)
    × Source.GivesAt stored_library
        (byte_at stored)
        (byte_at stored)
        3
        disk
        0
        stored_library-IsLibrary
        serves
        disk_small
        8
        (bzip2_decompress stored_library disk 8 0 0)
stream_past_end-GivesAt_example =
    Source.stream_past_end-GivesAt stored_library (byte_at stored) (byte_at stored) 3 disk 0
      stored_library-IsLibrary serves disk_small 8 (omega arith)

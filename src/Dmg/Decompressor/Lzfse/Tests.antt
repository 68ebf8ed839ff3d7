-- ===== src/Dmg/Decompressor/Lzfse/Tests.antt =====
-- A stored format.
use darling_dmg.Common.{
  ℕ, ◌<◌, ◌≡◌, refl, ap, ◌∙◌, arith, [], ◌∷◌, Bytes, byte_at, length, take, ok, err, io_error,
  length-take, byte_at-take,
}
use darling_dmg.Common.Word.{i32_limit}
use darling_dmg.Io.{Reader, memory_reader}
use darling_dmg.Io.Serves.{Serves, Returns, memory_reader-Serves}
use darling_dmg.Dmg.Decompressor.Lzfse.{lzfse_decompress}
use darling_dmg.Dmg.Decompressor.Lzfse.Source

abbrev stored : Bytes
stored = 5 ∷ 6 ∷ 7 ∷ 9 ∷ []

abbrev decode : Bytes → ℕ → Bytes
decode input room = take room input

abbrev disk : Reader
disk = memory_reader stored

from_start : lzfse_decompress decode disk 2 0 ≡ ok (5 ∷ 6 ∷ [])
unfolding lzfse_decompress memory_reader
from_start = refl

from_middle : lzfse_decompress decode disk 2 1 ≡ err io_error
unfolding lzfse_decompress memory_reader
from_middle = refl

abbrev serves : Serves disk (byte_at stored)
serves = memory_reader-Serves stored (omega arith)

disk_small : disk.size < i32_limit
unfolding memory_reader
disk_small = omega arith

some_data : 0 < disk.size
unfolding memory_reader
some_data = omega arith

decode-Returns :
    (input : Bytes)
    → length input ≡ disk.size
    → ((i : ℕ) → i < disk.size → byte_at input i ≡ byte_at stored i)
    → Returns (byte_at stored) 0 2 (ok (decode input 2))
unfolding memory_reader
decode-Returns input e same = record {
  out = take 2 input;
  returns = refl;
  count = omega (arith, length-take {0});
  bytes =
      λ i h. byte_at-take 2 i input h ∙ same i (omega arith) ∙ ap (byte_at stored) (omega arith);
}

lzfse_decompress-Throws_example : Source.Throws (lzfse_decompress decode disk 2 1)
lzfse_decompress-Throws_example =
    Source.lzfse_decompress-Throws decode disk (byte_at stored) serves disk_small 2 1 (omega arith)

lzfse_decompress-Returns_example : Returns (byte_at stored) 0 2 (lzfse_decompress decode disk 2 0)
lzfse_decompress-Returns_example =
    Source.lzfse_decompress-Returns decode disk (byte_at stored) serves disk_small (byte_at stored)
      2 some_data (omega arith) decode-Returns

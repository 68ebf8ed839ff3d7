-- ===== src/Io/Tests.antt =====
-- The readers at concrete inputs.
use darling_dmg.Common.{◌+◌, ◌≡◌, refl, [], ◌∷◌, Bytes, byte_at, ok, arith}
use darling_dmg.Io.{sub_reader, memory_reader}
use darling_dmg.Io.Serves
use darling_dmg.Io.Serves.{Serves}
use darling_dmg.Io.SubServes

abbrev abc : Bytes
abc = 10 ∷ 11 ∷ 12 ∷ 13 ∷ 14 ∷ []

sub_read_clips : (sub_reader (memory_reader abc) 1 3).read 9 1 ≡ ok (12 ∷ 13 ∷ [])
unfolding sub_reader memory_reader
sub_read_clips = refl

sub_read_past : (sub_reader (memory_reader abc) 1 3).read 1 4 ≡ ok []
unfolding sub_reader memory_reader
sub_read_past = refl

memory_reader-Serves_example : Serves (memory_reader abc) (byte_at abc)
memory_reader-Serves_example = Serves.memory_reader-Serves abc (omega arith)

sub_reader-Serves_example : Serves (sub_reader (memory_reader abc) 1 3) (λ i. byte_at abc (1 + i))
unfolding memory_reader
sub_reader-Serves_example =
    SubServes.sub_reader-Serves (memory_reader abc) (byte_at abc) 1 3 memory_reader-Serves_example
      (omega arith)

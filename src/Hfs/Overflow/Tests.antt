-- ===== src/Hfs/Overflow/Tests.antt =====
-- The overflow extents of concrete files.
use darling_dmg.Common.{ℕ, ◌≡◌, refl, false, List, [], ◌∷◌, ok, err, io_error, ◌>>=◌}
use darling_dmg.Hfs.Overflow.{Extent, ExtentRecord, find_extents_for_file}
use darling_dmg.Hfs.Overflow.Wanted
use darling_dmg.Hfs.Overflow.Wanted.{collected, wanted, all_records, fork_type_of}

abbrev extent : ℕ → ℕ → Extent
extent s n = record { start_block = s; block_count = n }

abbrev leaves : List (List ExtentRecord)
leaves =
    (record {
      fork_type = 0;
      file_id = 16;
      start_block = 8;
      extents = extent 100 2 ∷ extent 200 3 ∷ [];
    }
      ∷ record { fork_type = 0; file_id = 17; start_block = 8; extents = extent 300 2 ∷ [] }
      ∷ [])
    ∷ (record {
      fork_type = 0;
      file_id = 16;
      start_block = 13;
      extents = extent 400 1 ∷ extent 0 0 ∷ extent 9 9 ∷ [];
    }
        ∷ [])
    ∷ []

all_found :
    find_extents_for_file leaves 16 false 8 []
    ≡ ok (extent 100 2 ∷ extent 200 3 ∷ extent 400 1 ∷ [])
unfolding find_extents_for_file
all_found = refl

second_found :
    find_extents_for_file leaves 16 false 13 (extent 7 7 ∷ []) ≡ ok (extent 7 7 ∷ extent 400 1 ∷ [])
unfolding find_extents_for_file
second_found = refl

gap_refused : find_extents_for_file leaves 16 false 9 [] ≡ err io_error
unfolding find_extents_for_file
gap_refused = refl

find_extents_for_file-collected_example : find_extents_for_file leaves 16 false 8 [] ≡ (
    collected (fork_type_of false) 16 8 (wanted (fork_type_of false) 16 8 (all_records leaves)) []
    >>= (λ r. ok r.1))
find_extents_for_file-collected_example =
    Wanted.find_extents_for_file-collected leaves 16 false 8 []

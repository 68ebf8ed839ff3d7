-- ===== src/Hfs/Fork/Tests.antt =====
-- A fork of ten extents, the last two in one record of the overflow file.
use mathlib.Core.Path.{subst}
use darling_dmg.Common.{
  ℕ, length, take, ◌-◌, ◌≡◌, refl, sym, ap, ◌∙◌, min, false, arith, List, [], ◌∷◌, ◌++◌, Bytes,
  byte_at, tabulate, ok,
}
use darling_dmg.Io.{memory_reader}
use darling_dmg.Io.Serves.{memory_reader-Serves}
use darling_dmg.Hfs.Overflow.{Extent, ExtentRecord, find_extents_for_file}
use darling_dmg.Hfs.Fork.{ForkFile, fork_read, initial_extents}
use darling_dmg.Hfs.Fork.Extents.{IsFork, IsKept, AreOn, all_on, on, blocks}
use darling_dmg.Hfs.Fork.Source

abbrev disk_bytes : Bytes
disk_bytes = tabulate 40 0 (λ i. i)

abbrev extent : ℕ → Extent
extent s = record { start_block = s; block_count = 1 }

-- Blocks of two bytes, in falling order.
abbrev first_extents : List Extent
first_extents =
    extent 19 ∷ extent 17 ∷ extent 15 ∷ extent 13 ∷ extent 11 ∷ extent 9 ∷ extent 7 ∷ extent 5 ∷ []

abbrev all_extents : List Extent
all_extents = first_extents ++ extent 3 ∷ extent 1 ∷ []

abbrev leaves : List (List ExtentRecord)
leaves =
    (record { fork_type = 0xff; file_id = 20; start_block = 8; extents = extent 2 ∷ [] }
      ∷ record {
        fork_type = 0;
        file_id = 20;
        start_block = 8;
        extents = extent 3 ∷ extent 1 ∷ record { start_block = 0; block_count = 0 } ∷ [];
      }
      ∷ [])
    ∷ []

abbrev sample : ForkFile
sample = record {
  volume = memory_reader disk_bytes;
  block_size = 2;
  logical_size = 19;
  cnid = 20;
  resource_fork = false;
  find_extents = find_extents_for_file leaves;
}

first_two : fork_read sample 3 1 first_extents ≡ ok (39 ∷ 34 ∷ 35 ∷ [], first_extents)
unfolding fork_read memory_reader
first_two = refl

-- The read comes to the ninth extent and stops at the logical size.
over_end : fork_read sample 9 14 first_extents ≡ ok (10 ∷ 11 ∷ 6 ∷ 7 ∷ 2 ∷ [], all_extents)
unfolding fork_read memory_reader find_extents_for_file
over_end = refl

none_of_zero :
    initial_extents (record { start_block = 4; block_count = 0 } ∷ extent 3 ∷ []) ≡ extent 3 ∷ []
unfolding initial_extents
none_of_zero = refl

sample-AreOn : AreOn 40 2 all_extents
sample-AreOn = on (omega arith) (omega arith) (
    on (omega arith) (omega arith) (
      on (omega arith) (omega arith) (
        on (omega arith) (omega arith) (
          on (omega arith) (omega arith) (
            on (omega arith) (omega arith) (
              on (omega arith) (omega arith) (
                on (omega arith) (omega arith)
                  (on (omega arith) (omega arith) (on (omega arith) (omega arith) all_on)))))))))

take-length : (a b : List Extent) → take (length a) (a ++ b) ≡ a
take-length [] b = refl
take-length (x ∷ a) b = ap (◌∷◌ x) (take-length a b)

first_eight :
    (es : List Extent) (e : Extent) (rest : List Extent)
    → es ++ e ∷ rest ≡ all_extents
    → length es ≡ 8
    → first_extents ≡ es
first_eight es e rest whole eight =
    ap (take 8) (sym whole)
    ∙ ap (λ n. take n (es ++ e ∷ rest)) (sym eight)
    ∙ take-length es (e ∷ rest)

-- The search gives the two others behind the eight.
search_finds :
    find_extents_for_file leaves 20 false (blocks first_extents) first_extents ≡ ok all_extents
unfolding find_extents_for_file blocks
search_finds = refl

sample-IsFork : IsFork sample (byte_at disk_bytes) all_extents
unfolding memory_reader blocks
sample-IsFork = record {
  serves = memory_reader-Serves disk_bytes (omega arith);
  has_size = omega arith;
  on_volume = sample-AreOn;
  few = omega arith;
  small = omega arith;
  long = omega arith;
  finds = λ es e rest whole eight.
      let first : first_extents ≡ es = first_eight es e rest whole eight in
      (
        subst (λ l. find_extents_for_file leaves 20 false (blocks l) l ≡ ok all_extents) first
            search_finds,
        refl,
      );
}

first_extents-IsKept : IsKept all_extents first_extents
first_extents-IsKept = record { rest = extent 3 ∷ extent 1 ∷ []; whole = refl; full = λ _. refl }

fork_read-ForkReturns_example :
    Source.ForkReturns sample
      (byte_at disk_bytes)
      all_extents
      sample-IsFork
      14
      (min 9 (19 - 14))
      (fork_read sample 9 14 first_extents)
fork_read-ForkReturns_example =
    Source.fork_read-ForkReturns sample (byte_at disk_bytes) all_extents sample-IsFork 9 14
      first_extents (omega arith) first_extents-IsKept

-- ===== src/Dmg/Partition/Tests.antt =====
-- A partition of four runs, read at concrete places.
use mathlib.Core.Path.{subst}
use mathlib.Core.List.{[], ◌∷◌}
use darling_dmg.Common.{
  ℕ, ◌+◌, zero, suc, ◌≡◌, refl, true, false, Option, some, arith, get_elem?, Bytes, byte_at, take,
  replicate, Result, ok, some-eq,
}
use darling_dmg.Io.{Reader, memory_reader, sub_reader}
use darling_dmg.Io.Serves.{Serves, memory_reader-Serves}
use darling_dmg.Dmg.{RunType, zero_fill, raw, zlib, comment, terminator, BlkxRun, BlkxTable}
use darling_dmg.Dmg.Partition.{partition_reader, is_data, before_bound}
use darling_dmg.Dmg.Partition.Cover.{Covers, at_end, no_data, data_run}
use darling_dmg.Dmg.Partition.Image.{image, IsReadable, zeros, on_disk, is_compressed}
use darling_dmg.Dmg.Partition.Reads.{IsGood}
use darling_dmg.Dmg.Partition.Source
use darling_dmg.Dmg.Decompressor.Create.{create}
use darling_dmg.Dmg.Decompressor.Create.Runs
use darling_dmg.Dmg.Decompressor.Stream.{Advance, output_of, zlib_decompress}
use darling_dmg.Dmg.Decompressor.Stream.Stored.{stored_advance, stored-IsLibrary}

abbrev disk_bytes : Bytes
disk_bytes = replicate 600 5

abbrev run_of : RunType → ℕ → ℕ → BlkxRun
run_of t start count = record {
  run_type = t;
  sector_start = start;
  sector_count = count;
  comp_offset = 8;
  comp_length = 513;
}

abbrev sample : BlkxTable
sample = record {
  sector_count = 3;
  data_start = 4;
  runs =
      run_of zero_fill 0 1
      ∷ run_of comment 0 0
      ∷ run_of raw 1 1
      ∷ run_of zlib 2 1
      ∷ run_of terminator 3 0
      ∷ [];
}

-- The real decompressors, on a library that reads a stored format.
abbrev stored_library : ℕ → Bytes → ℕ → Advance ℕ
stored_library = stored_advance 512

abbrev decode : Bytes → ℕ → Bytes
decode input room = take room input

abbrev make : RunType → Reader → Option (ℕ → ℕ → Result Bytes)
make = create stored_library 0 stored_library 0 decode false 0

abbrev plain : BlkxRun → ℕ → ℕ
plain run i = byte_at disk_bytes (12 + i)

zlib_on_disk :
    Runs.IsOnDisk stored_library 0 stored_library 0 decode false 0
      (memory_reader disk_bytes)
      (byte_at disk_bytes)
      (memory_reader-Serves disk_bytes (omega arith))
      sample
      plain
      (run_of zlib 2 1)
unfolding memory_reader
zlib_on_disk = record { near = omega arith; fits = omega arith; few = omega arith }

sample-Covers : Covers 0 3 sample.runs
unfolding is_data
sample-Covers = data_run refl refl (omega arith) (
    no_data refl
      (data_run refl refl (omega arith) (data_run refl refl (omega arith) (no_data refl at_end))))

sample-readable :
    (place : ℕ) (run : BlkxRun)
    → get_elem? sample.runs place ≡ some run
    → is_data run.run_type ≡ true
    → IsReadable
        (memory_reader disk_bytes)
        (byte_at disk_bytes)
        make
        false
        sample
        plain
        run
        run.run_type
unfolding is_data is_compressed memory_reader
sample-readable zero run e d =
    subst
      (λ r.
        IsReadable (memory_reader disk_bytes) (byte_at disk_bytes) make false sample plain r
          r.run_type)
      (some-eq e) zeros
sample-readable (suc zero) run e d = absurd cc
sample-readable (suc (suc zero)) run e d =
    subst
      (λ r.
        IsReadable (memory_reader disk_bytes) (byte_at disk_bytes) make false sample plain r
          r.run_type)
      (some-eq e) (on_disk (omega arith))
sample-readable (suc (suc (suc zero))) run e d =
    subst
      (λ r.
        IsReadable (memory_reader disk_bytes) (byte_at disk_bytes) make false sample plain r
          r.run_type)
      (some-eq e)
      (Runs.create-IsReadable stored_library 0 stored_library 0 decode false 0
        (memory_reader disk_bytes) (byte_at disk_bytes)
        (memory_reader-Serves disk_bytes (omega arith)) sample plain (run_of zlib 2 1) zlib_on_disk
        (stored-IsLibrary 512 (plain (run_of zlib 2 1))))
sample-readable (suc (suc (suc (suc zero)))) run e d = absurd cc
sample-readable (suc (suc (suc (suc (suc n))))) run e d = absurd cc

sample-IsGood : IsGood (memory_reader disk_bytes) (byte_at disk_bytes) make false sample plain
sample-IsGood = record { small = omega arith; covers = sample-Covers; readable = sample-readable }

partition_reader-Serves_example :
    Serves
      (partition_reader (memory_reader disk_bytes) make false sample)
      (image (byte_at disk_bytes) plain 4 sample.runs)
partition_reader-Serves_example =
    Source.partition_reader-Serves (memory_reader disk_bytes) (byte_at disk_bytes) make false sample
      plain (memory_reader-Serves disk_bytes (omega arith)) sample-IsGood

-- A read across the end of a run.
read_across :
    (partition_reader (memory_reader disk_bytes) make false sample).read 4 1022
    ≡ ok (5 ∷ 5 ∷ 5 ∷ 5 ∷ [])
unfolding partition_reader memory_reader before_bound create output_of zlib_decompress sub_reader
read_across = refl

read_past : (partition_reader (memory_reader disk_bytes) make false sample).read 4 1536 ≡ ok []
unfolding partition_reader memory_reader before_bound
read_past = refl

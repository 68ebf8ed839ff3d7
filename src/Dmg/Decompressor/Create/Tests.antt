-- ===== src/Dmg/Decompressor/Create/Tests.antt =====
-- A run of one sector.
use darling_dmg.Common.{
  ℕ, ◌+◌, arith, false, [], ◌∷◌, Bytes, byte_at, take, tabulate, length-tabulate,
}
use darling_dmg.Io.{Reader, memory_reader}
use darling_dmg.Io.Serves.{Serves, Returns, memory_reader-Serves}
use darling_dmg.Dmg.{zlib, BlkxRun, BlkxTable}
use darling_dmg.Dmg.Partition.{run_reader, decompress_run}
use darling_dmg.Dmg.Decompressor.Create.{create}
use darling_dmg.Dmg.Decompressor.Create.Runs
use darling_dmg.Dmg.Decompressor.Stream.{Advance}
use darling_dmg.Dmg.Decompressor.Stream.Stored.{stored_advance, stored-IsLibrary}

abbrev stored_library : ℕ → Bytes → ℕ → Advance ℕ
stored_library = stored_advance 512

abbrev decode : Bytes → ℕ → Bytes
decode input room = take room input

-- The run lies behind seven other bytes.
abbrev content : Bytes
content = tabulate 520 0 (λ i. i)

abbrev disk : Reader
disk = memory_reader content

abbrev run : BlkxRun
run = record {
  run_type = zlib;
  sector_start = 0;
  sector_count = 1;
  comp_offset = 4;
  comp_length = 513;
}

abbrev table : BlkxTable
table = record { sector_count = 1; data_start = 3; runs = run ∷ [] }

abbrev serves : Serves disk (byte_at content)
serves = memory_reader-Serves content (omega (arith, length-tabulate 520 0 (λ i. i)))

abbrev plain : BlkxRun → ℕ → ℕ
plain _ i = byte_at content (7 + i)

on_disk :
    Runs.IsOnDisk stored_library 0 stored_library 0 decode false 0 disk
      (byte_at content)
      serves
      table
      plain
      run
unfolding memory_reader
on_disk = record {
  near = omega arith;
  fits = omega (arith, length-tabulate 520 0 (λ i. i));
  few = omega arith;
}

create-decompress_run-Returns_example : Returns (plain run) 3 4 (
    decompress_run disk
      (create stored_library 0 stored_library 0 decode false 0)
      false
      table
      (create stored_library 0 stored_library 0 decode false 0 zlib
        (run_reader disk (create stored_library 0 stored_library 0 decode false 0) false table run))
      run
      3
      4)
create-decompress_run-Returns_example =
    Runs.create-decompress_run-Returns stored_library 0 stored_library 0 decode false 0 disk
      (byte_at content) serves table plain run 3 4 on_disk (stored-IsLibrary 512 (plain run))
      (omega arith) (omega arith) (omega arith)

-- ===== src/Dmg/Partition/Source.antt =====
-- What a partition advises, and that it is a source of its image.
use mathlib.Core.List.{[]}
use darling_dmg.Common.{
  ℕ, ◌+◌, ◌*◌, ◌/◌, ◌≤◌, ◌<◌, ◌≡◌, refl, Bool, Option, none, some, arith, Bytes, Result, ok,
}
use darling_dmg.Common.Word.{size_limit}
use darling_dmg.Io.{Reader, Block, advise_default}
use darling_dmg.Io.Serves.{Serves, Advises, advise_default-Advises}
use darling_dmg.Dmg.{
  RunType, zero_fill, raw, unknown, adc, zlib, bzip2, lzfse, comment, terminator, other, BlkxRun,
  BlkxTable,
}
use darling_dmg.Dmg.Partition.{
  upper_bound, sector_size, bytes_of_sectors, partition_length, partition_reader, advise_run,
  advise_of, advise_found, advise_sectors, block_stop,
}
use darling_dmg.Dmg.Partition.Cover.{sectors-entries, stop_sector, entries}
use darling_dmg.Dmg.Partition.Image.{image}
use darling_dmg.Dmg.Partition.Reads.{IsGood, found-Finds, read_sectors-Finished, empty-IsProgress}

module _ (disk : Reader) (content : ℕ → ℕ)
    (create : RunType → Reader → Option (ℕ → ℕ → Result Bytes)) (with_lzfse : Bool)
    (table : BlkxTable) (plain : BlkxRun → ℕ → ℕ) where
  advise_run-Advises :
      (t : RunType) (offset : ℕ) (b : Block)
      → table.sector_count * sector_size < size_limit
      → b.start ≤ offset
      → offset < b.stop
      → b.stop ≤ table.sector_count * sector_size
      → Advises
          (table.sector_count * sector_size)
          offset
          (ok (advise_run disk create with_lzfse table t offset b))
  unfolding advise_run
  advise_run-Advises t offset b small from until within =
      let len : partition_length disk create with_lzfse table ≡ table.sector_count * sector_size =
        omega arith in
      let whole : Advises (table.sector_count * sector_size) offset (ok b) = record {
        block = b;
        returns = refl;
        from = from;
        until = until;
        within = within;
      } in
      let near : Advises (table.sector_count * sector_size) offset
          (ok (advise_default (partition_length disk create with_lzfse table) offset)) =
        rw len
          (advise_default-Advises (table.sector_count * sector_size) offset small (omega arith)) in
      elim t
        as (λ t.
          Advises (table.sector_count * sector_size) offset
            (ok (advise_run disk create with_lzfse table t offset b))) [
              | zero_fill ↦ near
              | unknown ↦ near
              | raw ↦ near
              | adc ↦ whole
              | zlib ↦ whole
              | bzip2 ↦ whole
              | lzfse ↦ whole
              | comment ↦ whole
              | terminator ↦ whole
              | other x ↦ whole
            ]

  block_stop-eq :
      (o : Option (ℕ × ℕ)) (n : ℕ)
      → table.sector_count * sector_size < size_limit
      → n ≤ table.sector_count
      → stop_sector table.sector_count o ≡ n
      → block_stop disk create with_lzfse table o ≡ n * sector_size
  unfolding block_stop
  block_stop-eq none n small h e = omega arith
  block_stop-eq (some (s, i)) n small h e = omega arith

  advise_sectors-Advises :
      (g : IsGood disk content create with_lzfse table plain) (offset : ℕ)
      → offset < table.sector_count * sector_size
      → Advises
          (table.sector_count * sector_size)
          offset
          (advise_sectors disk create with_lzfse table offset)
  unfolding advise_sectors advise_found advise_of
  advise_sectors-Advises g offset h =
      let f = found-Finds disk content create with_lzfse table plain g offset h in
      let from = f.from in
      let until = f.until in
      let within = f.within in
      let small = g.small in
      let start : bytes_of_sectors f.run.sector_start ≡ f.run.sector_start * sector_size =
        omega arith in
      let stop =
        block_stop-eq (upper_bound (offset / sector_size) (entries 0 table.runs))
          (f.run.sector_start + f.run.sector_count) small within f.above in
      let place : 0 + f.place ≡ f.place = omega arith in
      rw (sectors-entries table.runs g.covers, f.before none, place, f.at_place, start, stop)
        (advise_run-Advises f.run.run_type offset
          (record {
            start = f.run.sector_start * sector_size;
            stop = (f.run.sector_start + f.run.sector_count) * sector_size;
          })
          small (omega arith) (omega arith) (omega arith))

  -- A partition whose runs follow each other from its first sector to its last, and whose data can be
  -- read wherever some of it is asked for, on a disk that meets the contract of a source, is a source of the image that its runs
  -- describe: zeros, bytes of the disk, or what the compressed data expands to. A read crosses runs, ends
  -- after as many rounds as there are bytes asked for, and stops at the end of the partition.
  pub partition_reader-Serves :
      Serves disk content
      → IsGood disk content create with_lzfse table plain
      → Serves
          (partition_reader disk create with_lzfse table)
          (image content plain table.data_start table.runs)
  unfolding partition_reader
  partition_reader-Serves s g =
      let small = g.small in
      let len : partition_length disk create with_lzfse table ≡ table.sector_count * sector_size =
        omega arith in
      record {
        small = omega arith;
        reads = λ count offset c h. rw len (
            read_sectors-Finished disk content create with_lzfse table plain g count count offset []
              s c
              (empty-IsProgress disk content create with_lzfse table plain count offset
                (omega arith))
              (omega arith));
        advises = λ offset h. rw len (advise_sectors-Advises g offset (omega arith));
      }

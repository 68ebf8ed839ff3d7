-- ===== src/Dmg/Decompressor/Create/Runs.antt =====
-- The runs of a partition for which a stream decompressor is made.
use darling_dmg.Common.{ℕ, refl, ◌+◌, ◌*◌, ◌≤◌, ◌<◌, Bool, Bytes}
use darling_dmg.Common.Word.{i32_limit, u32_mod, size_limit, add64}
use darling_dmg.Io.{Reader, sub_reader}
use darling_dmg.Io.Serves.{Serves, Returns}
use darling_dmg.Io.SubServes.{sub_reader-Serves}
use darling_dmg.Dmg.{zlib, BlkxRun, BlkxTable}
use darling_dmg.Dmg.Partition.{sector_size, run_reader, decompress_run}
use darling_dmg.Dmg.Partition.Image.{decompress_run-Returns, IsReadable, packed, is_compressed}
use darling_dmg.Dmg.Decompressor.Create.{create}
use darling_dmg.Dmg.Decompressor.Stream.{Advance, zlib_decompress, output_of}
use darling_dmg.Dmg.Decompressor.Stream.Library.{IsLibrary}
use darling_dmg.Dmg.Decompressor.Stream.Source.{stream_decompress-Returns}

module _ {ℓ κ} {Z : Type ℓ} {B : Type κ} (inflate : Z → Bytes → ℕ → Advance Z) (z0 : Z)
    (bz2 : B → Bytes → ℕ → Advance B) (b0 : B) (decode : Bytes → ℕ → Bytes) (with_lzfse : Bool)
    (undef : ℕ) (disk : Reader) (content : ℕ → ℕ) (serves : Serves disk content) (table : BlkxTable)
    (plain : BlkxRun → ℕ → ℕ) (run : BlkxRun) where
  abbrev place : ℕ
  place = add64 run.comp_offset table.data_start

  -- The compressed bytes of the run lie on the disk.
  pub record IsOnDisk : Type 0 where
    pub near : run.comp_length < u32_mod
    pub fits : place + run.comp_length ≤ disk.size
    pub few : run.sector_count * sector_size < size_limit

  pub create-IsReadable :
      IsOnDisk
      → IsLibrary inflate
          (λ i. content (place + i))
          run.comp_length
          (plain run)
          (run.sector_count * sector_size)
          z0
      → IsReadable disk content
          (create inflate z0 bz2 b0 decode with_lzfse undef)
          with_lzfse
          table
          plain
          run
          zlib
  unfolding create sub_reader is_compressed
  create-IsReadable on reads =
      packed zlib
        (λ n k.
          output_of undef (zlib_decompress inflate (sub_reader disk place run.comp_length) n k z0))
        refl refl
        (λ n k some_room c fits.
          (stream_decompress-Returns inflate (λ i. content (place + i)) (plain run)
            (run.sector_count * sector_size) (sub_reader disk place run.comp_length) z0 reads
            (sub_reader-Serves disk content place run.comp_length serves on.fits) on.near undef n k
            some_room fits).0)

  -- A part of a run of a partition that is compressed with zlib is read through the decompressor that is made
  -- for its place on the disk: if its compressed
  -- bytes, less than 4 GiB, lie there, the library reads the format of what lies there, and the plain data is as long
  -- as the run has sectors, then the bytes asked for come out.
  pub create-decompress_run-Returns :
      (k n : ℕ)
      → IsOnDisk
      → IsLibrary inflate
          (λ i. content (place + i))
          run.comp_length
          (plain run)
          (run.sector_count * sector_size)
          z0
      → 0 < n
      → n < i32_limit
      → k + n ≤ run.sector_count * sector_size
      → Returns (plain run) k n (
          decompress_run disk
            (create inflate z0 bz2 b0 decode with_lzfse undef)
            with_lzfse
            table
            (create inflate z0 bz2 b0 decode with_lzfse undef zlib (
              run_reader disk
                (create inflate z0 bz2 b0 decode with_lzfse undef)
                with_lzfse
                table
                run))
            run
            k
            n)
  unfolding create sub_reader
  create-decompress_run-Returns k n on reads some_room c fits =
      let served = sub_reader-Serves disk content place run.comp_length serves on.fits in
      decompress_run-Returns disk content (create inflate z0 bz2 b0 decode with_lzfse undef)
        with_lzfse table plain
        (λ n k.
          output_of undef (zlib_decompress inflate (sub_reader disk place run.comp_length) n k z0))
        run k n on.few c fits
        (stream_decompress-Returns inflate (λ i. content (place + i)) (plain run)
          (run.sector_count * sector_size) (sub_reader disk place run.comp_length) z0 reads served
          on.near undef n k some_room fits).0

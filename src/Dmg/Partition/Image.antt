-- ===== src/Dmg/Partition/Image.antt =====
-- What a partition holds, run by run, and what one run gives.
use mathlib.Core.List.{List, [], ◌∷◌}
use darling_dmg.Common.{
  ℕ, zero, suc, ◌+◌, ◌-◌, ◌*◌, ◌≤◌, ◌<◌, min, ◌≡◌, refl, ap, ◌∙◌, Bool, true, false, Option, some,
  arith, ltb, lt→ltb, le→ltb, if◌then◌else◌, get_elem?, Bytes, byte_at, take, replicate,
  length-take, length-replicate, byte_at-take, Result,
}
use darling_dmg.Common.Word.{i32_limit, size_limit, add64, sub64, to_int32, widen}
use darling_dmg.Io.{Reader}
use darling_dmg.Io.Serves.{Returns, Serves}
use darling_dmg.Dmg.{
  RunType, zero_fill, raw, unknown, adc, zlib, bzip2, lzfse, comment, terminator, other, BlkxRun,
  BlkxTable,
}
use darling_dmg.Dmg.Partition.{
  is_data, run_reader, decompress_run, read_run_as, read_run_of, read_run, sector_size,
  bytes_of_sectors,
}
use darling_dmg.Dmg.Partition.Cover.{Covers, at_end, no_data, data_run}

unfoldable pub is_compressed : Bool → RunType → Bool
is_compressed with_lzfse zlib = true
is_compressed with_lzfse bzip2 = true
is_compressed with_lzfse adc = true
is_compressed with_lzfse lzfse = with_lzfse
is_compressed with_lzfse _ = false

byte_at-replicate : (n i : ℕ) → byte_at (replicate n 0) i ≡ 0
byte_at-replicate zero i = refl
byte_at-replicate (suc n) zero = refl
byte_at-replicate (suc n) (suc i) = byte_at-replicate n i

-- `content` is what the disk holds, and `plain run` what the compressed data of a run expands to.
module _ (content : ℕ → ℕ) (plain : BlkxRun → ℕ → ℕ) (data_start : ℕ) where
  pub run_byte_as : RunType → BlkxRun → ℕ → ℕ
  run_byte_as zero_fill run k = 0
  run_byte_as unknown run k = 0
  run_byte_as raw run k = content (run.comp_offset + data_start + k)
  run_byte_as _ run k = plain run k

  pub run_byte : BlkxRun → ℕ → ℕ
  unfolding run_byte_as
  run_byte run k = run_byte_as run.run_type run k

  pub image : List BlkxRun → ℕ → ℕ
  unfolding run_byte
  image [] p = 0
  image (run ∷ runs) p =
      let rest = image runs p in
      if is_data run.run_type
      then if ltb p ((run.sector_start + run.sector_count) * sector_size)
        then run_byte run (p - run.sector_start * sector_size)
        else rest
      else rest

  Covers-later :
      (runs : List BlkxRun) (place : ℕ) (run : BlkxRun) {next stop : ℕ}
      → Covers next stop runs
      → get_elem? runs place ≡ some run
      → is_data run.run_type ≡ true
      → next ≤ run.sector_start
  Covers-later [] place run at_end e d = absurd (ground arith)
  Covers-later (r ∷ runs) zero run (no_data skip covers) e d = absurd (cc)
  Covers-later (r ∷ runs) (suc place) run (no_data skip covers) e d =
      Covers-later runs place run covers e d
  Covers-later (r ∷ runs) zero run (data_run is_d start pos covers) e d =
      let same : r.sector_start ≡ run.sector_start = cc in omega arith
  Covers-later (r ∷ runs) (suc place) run (data_run is_d start pos covers) e d =
      omega (arith, Covers-later runs place run covers e d)

  -- The image at a position inside a data run is that run's byte.
  pub image-run_byte :
      (runs : List BlkxRun) (place p : ℕ) (run : BlkxRun) {next stop : ℕ}
      → Covers next stop runs
      → get_elem? runs place ≡ some run
      → is_data run.run_type ≡ true
      → run.sector_start * sector_size ≤ p
      → p < (run.sector_start + run.sector_count) * sector_size
      → image runs p ≡ run_byte run (p - run.sector_start * sector_size)
  unfolding image
  image-run_byte [] place p run at_end e d h q = absurd (ground arith)
  image-run_byte (r ∷ runs) zero p run (no_data skip covers) e d h q = absurd cc
  image-run_byte (r ∷ runs) (suc place) p run (no_data skip covers) e d h q =
      rw skip (image-run_byte runs place p run covers e d h q)
  image-run_byte (r ∷ runs) zero p run (data_run is_d start pos covers) e d h q =
      let same : r ≡ run = cc in
      rw (same, d, lt→ltb p ((run.sector_start + run.sector_count) * sector_size) q)
  image-run_byte (r ∷ runs) (suc place) p run (data_run is_d start pos covers) e d h q =
      let later = Covers-later runs place run covers e d in
      rw (is_d, le→ltb p ((r.sector_start + r.sector_count) * sector_size) (omega arith))
        (image-run_byte runs place p run covers e d h q)

module _ (disk : Reader) (content : ℕ → ℕ)
    (create : RunType → Reader → Option (ℕ → ℕ → Result Bytes)) (with_lzfse : Bool)
    (table : BlkxTable) (plain : BlkxRun → ℕ → ℕ) where
  -- What a run needs to be read: its raw bytes are on the disk, or its decompressor
  -- gives its bytes wherever some are asked for.
  pub data IsReadable (run : BlkxRun) : RunType → Type 0 where
    zeros : IsReadable run zero_fill
    hole : IsReadable run unknown
    on_disk :
        run.comp_offset + table.data_start + run.sector_count * sector_size ≤ disk.size
        → IsReadable run raw
    packed :
        (t : RunType) (decompress : ℕ → ℕ → Result Bytes)
        → is_compressed with_lzfse t ≡ true
        → create t (run_reader disk create with_lzfse table run) ≡ some decompress
        → ((n k : ℕ)
            → 0 < n
            → n < i32_limit
            → k + n ≤ run.sector_count * sector_size
            → Returns (plain run) k n (decompress n k))
        → IsReadable run t

  pub decompress_run-Returns :
      (decompress : ℕ → ℕ → Result Bytes) (run : BlkxRun) (k n : ℕ)
      → run.sector_count * sector_size < size_limit
      → n < i32_limit
      → k + n ≤ run.sector_count * sector_size
      → Returns (plain run) k n (decompress n k)
      → Returns
          (plain run)
          k
          n
          (decompress_run disk create with_lzfse table (some decompress) run k n)
  unfolding decompress_run
  decompress_run-Returns decompress run k n small c fits r =
      let total : bytes_of_sectors run.sector_count ≡ run.sector_count * sector_size =
        omega arith in
      let sum : add64 k n ≡ k + n = omega arith in
      record {
        out = take n r.out;
        returns = rw (
          total,
          sum,
          le→ltb (run.sector_count * sector_size) (k + n) fits,
          le→ltb (run.sector_count * sector_size) k (omega arith),
          r.returns,
          r.count,
          le→ltb n n (omega arith),
        );
        count = let count = r.count in omega (arith, length-take {0});
        bytes = λ i p. byte_at-take n i r.out p ∙ r.bytes i p;
      }

  read_run_as-Returns :
      (t : RunType) (run : BlkxRun) (k n : ℕ)
      → Serves disk content
      → IsReadable run t
      → run.sector_count * sector_size < size_limit
      → 0 < n
      → n < i32_limit
      → k + n ≤ run.sector_count * sector_size
      → Returns
          (run_byte_as content plain table.data_start t run)
          k
          n
          (read_run_as disk create with_lzfse table t run k n)
  unfolding read_run_as run_byte_as is_compressed
  read_run_as-Returns t run k n s zeros small some_room c fits = record {
    out = replicate n 0;
    returns = refl;
    count = length-replicate n 0;
    bytes = λ i p. byte_at-replicate n i;
  }
  read_run_as-Returns t run k n s hole small some_room c fits = record {
    out = replicate n 0;
    returns = refl;
    count = length-replicate n 0;
    bytes = λ i p. byte_at-replicate n i;
  }
  read_run_as-Returns t run k n s (on_disk fit) small some_room c fits =
      let limit = s.small in
      let base = run.comp_offset + table.data_start in
      let r = s.reads n (base + k) c (omega arith) in
      let count = r.count in
      let sum : add64 (add64 run.comp_offset table.data_start) k ≡ base + k = omega arith in
      record {
        out = r.out;
        returns = ap (disk.read n) sum ∙ r.returns;
        count = omega arith;
        bytes = λ i p. r.bytes i (omega arith) ∙ ap content (omega arith);
      }
  read_run_as-Returns t run k n s (packed zlib d is_c e good) small some_room c fits =
      rw e (decompress_run-Returns d run k n small c fits (good n k some_room c fits))
  read_run_as-Returns t run k n s (packed bzip2 d is_c e good) small some_room c fits =
      rw e (decompress_run-Returns d run k n small c fits (good n k some_room c fits))
  read_run_as-Returns t run k n s (packed adc d is_c e good) small some_room c fits =
      rw e (decompress_run-Returns d run k n small c fits (good n k some_room c fits))
  read_run_as-Returns t run k n s (packed lzfse d is_c e good) small some_room c fits =
      rw (is_c, e) (decompress_run-Returns d run k n small c fits (good n k some_room c fits))
  read_run_as-Returns t run k n s (packed zero_fill d is_c e good) small some_room c fits =
      absurd (ground arith)
  read_run_as-Returns t run k n s (packed unknown d is_c e good) small some_room c fits =
      absurd (ground arith)
  read_run_as-Returns t run k n s (packed raw d is_c e good) small some_room c fits =
      absurd (ground arith)
  read_run_as-Returns t run k n s (packed comment d is_c e good) small some_room c fits =
      absurd (ground arith)
  read_run_as-Returns t run k n s (packed terminator d is_c e good) small some_room c fits =
      absurd (ground arith)
  read_run_as-Returns t run k n s (packed (other x) d is_c e good) small some_room c fits =
      absurd (ground arith)

  -- Reading a run from its byte `k` on: what is asked for, up to the end of the run.
  pub read_run-Returns :
      (index : ℕ) (run : BlkxRun) (k count : ℕ)
      → Serves disk content
      → get_elem? table.runs index ≡ some run
      → IsReadable run run.run_type
      → run.sector_count * sector_size < size_limit
      → 0 < count
      → count < i32_limit
      → k < run.sector_count * sector_size
      → Returns
          (run_byte content plain table.data_start run)
          k
          (min count (run.sector_count * sector_size - k))
          (read_run disk create with_lzfse table index k count)
  unfolding read_run read_run_of run_byte
  read_run-Returns index run k count s at readable small some_room c h =
      let n : to_int32 (min (widen count) (sub64 (bytes_of_sectors run.sector_count) k))
          ≡ min count (run.sector_count * sector_size - k) =
        ground arith in
      rw (at, n)
        (read_run_as-Returns run.run_type run k (min count (run.sector_count * sector_size - k)) s
          readable small (omega arith) (omega arith) (omega arith))

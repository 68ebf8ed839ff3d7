-- ===== src/Dmg/Partition.antt =====
-- src/DMGPartition.cpp: a partition of a disk image as a source of bytes. `m_sectors`, a std::map, is
-- the list of its pairs in the order of their keys. `create` stands for DMGDecompressor::create with
-- the `decompress` of what it makes, which gives the bytes that it has put into the buffer;
-- `with_lzfse` is the build option.
pub mod Cover
pub mod Image
pub mod Reads
pub mod Source
mod Tests
use darling_dmg.Common.{
  ℕ, zero, suc, ◌+◌, ◌-◌, ◌*◌, ◌/◌, ◌%◌, min, Bool, true, false, ltb, leb, ◌==◌, if◌then◌else◌,
  Option, none, some, List, [], ◌∷◌, ◌++◌, Bytes, length, take, replicate, get_elem?, Result, ok,
  err, io_error, logic_error, function_not_implemented_error, memory_fault, out_of_fuel, ◌>>=◌,
}
use darling_dmg.Common.Word.{u64_mod, add64, sub64, to_int32, widen}
use darling_dmg.Io.{Reader, Block, sub_reader, advise_default}
use darling_dmg.Dmg.{
  RunType, zero_fill, raw, unknown, adc, zlib, bzip2, lzfse, comment, terminator, other, BlkxRun,
  BlkxTable,
}

abbrev pub sector_size : ℕ
sector_size = 512

abbrev pub Sectors : Type 0
Sectors = List (ℕ × ℕ)

-- `m_sectors[sector] = index`.
unfoldable pub put_sector : ℕ → ℕ → Sectors → Sectors
put_sector sector index [] = (sector, index) ∷ []
put_sector sector index ((s, i) ∷ l) =
    let rest = put_sector sector index l in
    if sector == s
    then (sector, index) ∷ l
    else if ltb sector s
    then (sector, index) ∷ (s, i) ∷ l
    else (s, i) ∷ rest

unfoldable pub is_data : RunType → Bool
is_data comment = false
is_data terminator = false
is_data _ = true

-- The loop of the constructor, from the run number `i` on.
unfoldable pub sectors_from : ℕ → List BlkxRun → Sectors → Sectors
unfolding put_sector is_data
sectors_from i [] l = l
sectors_from i (run ∷ runs) l =
    sectors_from (i + 1) runs (if is_data run.run_type then put_sector run.sector_start i l else l)

-- What `upper_bound(sector)` points to.
unfoldable pub upper_bound : ℕ → Sectors → Option (ℕ × ℕ)
upper_bound sector [] = none
upper_bound sector ((s, i) ∷ l) = if ltb sector s then some (s, i) else upper_bound sector l

-- What stands before it; `prev` is what stands before the list.
unfoldable pub before_bound : ℕ → Option (ℕ × ℕ) → Sectors → Option (ℕ × ℕ)
before_bound sector prev [] = prev
before_bound sector prev ((s, i) ∷ l) =
    if ltb sector s then prev else before_bound sector (some (s, i)) l

abbrev pub bytes_of_sectors : ℕ → ℕ
bytes_of_sectors n = n * sector_size % u64_mod

module _ (disk : Reader) (create : RunType → Reader → Option (ℕ → ℕ → Result Bytes))
    (with_lzfse : Bool) (table : BlkxTable) where
  abbrev pub sectors : Sectors
  sectors = sectors_from 0 table.runs []

  abbrev pub partition_length : ℕ
  partition_length = bytes_of_sectors table.sector_count

  abbrev pub run_reader : BlkxRun → Reader
  run_reader run = sub_reader disk (add64 run.comp_offset table.data_start) run.comp_length

  -- The end of `readRun` for a compressed run.
  unfoldable pub decompress_run : Option (ℕ → ℕ → Result Bytes) → BlkxRun → ℕ → ℕ → Result Bytes
  decompress_run none run in_sector count = err logic_error
  decompress_run (some decompress) run in_sector count =
      let comp_length = bytes_of_sectors run.sector_count in
      let n =
        if ltb comp_length (add64 in_sector count)
        then to_int32 (sub64 comp_length in_sector)
        else count in
      if ltb comp_length in_sector then ok [] else do
        dec ← decompress n in_sector
        if ltb (length dec) n then err io_error else ok (take n dec)

  -- The switch of `readRun`.
  unfoldable pub read_run_as : RunType → BlkxRun → ℕ → ℕ → Result Bytes
  unfolding decompress_run
  read_run_as unknown run in_sector count = ok (replicate count 0)
  read_run_as zero_fill run in_sector count = ok (replicate count 0)
  read_run_as raw run in_sector count =
      disk.read count (add64 (add64 run.comp_offset table.data_start) in_sector)
  read_run_as lzfse run in_sector count =
      if with_lzfse
      then decompress_run (create lzfse (run_reader run)) run in_sector count
      else err function_not_implemented_error
  read_run_as zlib run in_sector count =
      decompress_run (create zlib (run_reader run)) run in_sector count
  read_run_as bzip2 run in_sector count =
      decompress_run (create bzip2 (run_reader run)) run in_sector count
  read_run_as adc run in_sector count =
      decompress_run (create adc (run_reader run)) run in_sector count
  read_run_as _ run in_sector count = ok []

  unfoldable pub read_run_of : Option BlkxRun → ℕ → ℕ → Result Bytes
  unfolding read_run_as
  read_run_of none in_sector count = err memory_fault
  read_run_of (some run) in_sector count =
      read_run_as run.run_type run in_sector
        (to_int32 (min (widen count) (sub64 (bytes_of_sectors run.sector_count) in_sector)))

  unfoldable pub read_run : ℕ → ℕ → ℕ → Result Bytes
  unfolding read_run_of
  read_run index in_sector count = read_run_of (get_elem? table.runs index) in_sector count

  -- The body of the loop of `read` from the decrement of the iterator on: the output after it.
  unfoldable pub read_found : Option (ℕ × ℕ) → ℕ → ℕ → Bytes → Result Bytes
  unfolding read_run
  read_found none count offset out = err io_error
  read_found (some (first, index)) count offset out =
      let in_sector = if length out == 0 then sub64 offset (bytes_of_sectors first) else 0 in
      do
        bytes ← read_run index in_sector (count - length out)
        if length bytes == 0 then err io_error else ok (out ++ bytes)

  -- The loop of `read`. `out` is what the buffer holds, `done` bytes.
  unfoldable pub read_sectors : ℕ → ℕ → ℕ → Bytes → Result Bytes
  unfolding read_found sectors_from
  read_sectors zero count offset out = if ltb (length out) count then err out_of_fuel else ok out
  read_sectors (suc fuel) count offset out =
      let rest = (do
        out' ←
            read_found (before_bound (add64 offset (length out) / sector_size) none sectors) count
              offset out
        read_sectors fuel count offset out') in
      if ltb (length out) count
      then if leb partition_length (add64 offset (length out)) then ok out else rest
      else ok out

  -- The rest of `adviseOptimalBlock` for a run, given the block that is the whole run.
  unfoldable pub advise_run : RunType → ℕ → Block → Block
  advise_run zero_fill offset b = advise_default partition_length offset
  advise_run unknown offset b = advise_default partition_length offset
  advise_run raw offset b = advise_default partition_length offset
  advise_run _ offset b = b

  unfoldable pub advise_of : Option BlkxRun → ℕ → Block → Result Block
  unfolding advise_run
  advise_of none offset b = err memory_fault
  advise_of (some run) offset b = ok (advise_run run.run_type offset b)

  unfoldable pub block_stop : Option (ℕ × ℕ) → ℕ
  block_stop none = partition_length
  block_stop (some (s, i)) = bytes_of_sectors s

  unfoldable pub advise_found : Option (ℕ × ℕ) → ℕ → ℕ → Result Block
  unfolding advise_of
  advise_found none stop offset = err io_error
  advise_found (some (s, i)) stop offset =
      advise_of (get_elem? table.runs i) offset (record { start = bytes_of_sectors s; stop = stop })

  unfoldable pub advise_sectors : ℕ → Result Block
  unfolding advise_found block_stop sectors_from
  advise_sectors offset =
      advise_found (before_bound (offset / sector_size) none sectors)
        (block_stop (upper_bound (offset / sector_size) sectors)) offset

  unfoldable pub partition_reader : Reader
  unfolding read_sectors advise_sectors
  partition_reader = record {
    read = λ count offset. read_sectors count count offset [];
    size = partition_length;
    advise = advise_sectors;
  }

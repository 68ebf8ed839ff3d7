-- ===== src/Io.antt =====
-- src/Reader.h, Reader.cpp, SubReader.cpp, MemoryReader.cpp: the byte sources that every other part
-- reads from. A call `read(buf, count, offset)` becomes `read count offset`, which gives the bytes
-- put at the start of `buf`; their number is the value that the call returns.
pub mod Serves
pub mod SubServes
mod Tests
use darling_dmg.Common.{
  ℕ, ◌+◌, ◌-◌, ◌*◌, ◌/◌, Bool, ltb, if◌then◌else◌, Bytes, take, drop, length, Result, ok, err,
  memory_fault, ◌>>=◌, [],
}
use darling_dmg.Common.Word.{i32_limit, add64, sub64, to_int32, widen}

-- The out parameters of `adviseOptimalBlock`.
pub record Block : Type 0 where
  pub start : ℕ
  pub stop : ℕ

-- The abstract class `Reader`.
pub record Reader : Type 0 where
  pub read : ℕ → ℕ → Result Bytes
  pub size : ℕ
  pub advise : ℕ → Result Block

abbrev pub block_size : ℕ
block_size = 4096

-- `Reader::adviseOptimalBlock` of a source of `len` bytes. The mask clears the low twelve bits.
unfoldable pub advise_default : ℕ → ℕ → Block
advise_default len offset =
    let start = offset / block_size * block_size in
    let stop = add64 start block_size in
    record { start = start; stop = if ltb len stop then len else stop }

-- The count of a read of `SubReader`, clipped to its size.
pub sub_count : ℕ → ℕ → ℕ → ℕ
sub_count size count offset =
    if ltb size (add64 offset (widen count)) then to_int32 (sub64 size offset) else count

-- `SubReader`: `size` bytes of the parent from `base` on.
module _ (parent : Reader) (base size : ℕ) where
  pub sub_read : ℕ → ℕ → Result Bytes
  unfolding sub_count
  sub_read count offset =
      if ltb size offset
      then ok []
      else parent.read (sub_count size count offset) (add64 offset base)

  pub sub_block : Block → Block
  sub_block b =
      let stop = sub64 b.stop base in
      record {
        start = if ltb b.start base then sub64 base base else sub64 b.start base;
        stop = if ltb size stop then size else stop;
      }

  pub sub_advise : ℕ → Result Block
  unfolding sub_block
  sub_advise offset = do b ← parent.advise (add64 base offset); ok (sub_block b)

  unfoldable pub sub_reader : Reader
  unfolding sub_read sub_advise
  sub_reader = record { read = sub_read; size = size; advise = sub_advise }

-- `MemoryReader`: a copy of `data`. A negative count reaches `memcpy` as a huge one.
module _ (data' : Bytes) where
  pub memory_count : ℕ → ℕ → ℕ
  memory_count count offset =
      if ltb (length data') (add64 (widen count) offset)
      then to_int32 (sub64 (length data') offset)
      else count

  pub memory_read : ℕ → ℕ → Result Bytes
  unfolding memory_count
  memory_read count offset =
      if ltb (length data') offset
      then ok []
      else if ltb (memory_count count offset) i32_limit
      then ok (take (memory_count count offset) (drop offset data'))
      else err memory_fault

  unfoldable pub memory_reader : Reader
  unfolding memory_read advise_default
  memory_reader = record {
    read = memory_read;
    size = length data';
    advise = λ offset. ok (advise_default (length data') offset);
  }

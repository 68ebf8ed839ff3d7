-- ===== src/Dmg.antt =====
-- src/dmg.h: the structures of a UDIF disk image, after `be`. DMGPartition.cpp is in Partition.
pub mod Partition
pub mod Decompressor
use darling_dmg.Common.{ℕ, Bool, ◌==◌, if◌then◌else◌, List}

pub data RunType : Type 0 where
  zero_fill raw unknown adc zlib bzip2 lzfse comment terminator : RunType
  other : ℕ → RunType

pub record BlkxRun : Type 0 where
  pub run_type : RunType
  pub sector_start : ℕ
  pub sector_count : ℕ
  pub comp_offset : ℕ
  pub comp_length : ℕ

-- `runs` holds the `blocksRunCount` elements of the array.
pub record BlkxTable : Type 0 where
  pub sector_count : ℕ
  pub data_start : ℕ
  pub runs : List BlkxRun

-- `RunType(be(type))`.
pub run_type_of : ℕ → RunType
run_type_of t =
    if t == 0
    then zero_fill
    else if t == 1
    then raw
    else if t == 2
    then unknown
    else if t == 0x80000004
    then adc
    else if t == 0x80000005
    then zlib
    else if t == 0x80000006
    then bzip2
    else if t == 0x80000007
    then lzfse
    else if t == 0x7ffffffe
    then comment
    else if t == 0xffffffff
    then terminator
    else other t

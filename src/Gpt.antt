-- ===== src/Gpt.antt =====
-- src/GPTDisk.cpp, gpt.h: disks with a GUID partition table. A string is its bytes. The fields of the
-- table are in the byte order of a little-endian host, as the code reads them.
pub mod Guid
mod Tests
use darling_dmg.Common.{
  ℕ, zero, suc, ◌+◌, ◌-◌, ◌*◌, ◌/◌, ◌%◌, Bool, true, false, ◌&&◌, ltb, ◌==◌, if◌then◌else◌, Option,
  none, some, List, [], ◌∷◌, ◌++◌, Bytes, byte_at, get_elem?, length, take, drop, replicate, Result,
  ok, err, out_of_range, ◌>>=◌,
}
use darling_dmg.Common.Word.{u64_mod, add64, sub64}
use darling_dmg.Endian.{le16_at, le32_at, le64_at}
use darling_dmg.Io.{Reader, sub_reader}

pub record GptGuid : Type 0 where
  pub data1 : ℕ
  pub data2 : ℕ
  pub data3 : ℕ
  pub data4 : Bytes

pub record GptPartition : Type 0 where
  pub type_guid : GptGuid
  pub first_lba : ℕ
  pub last_lba : ℕ
  pub name : Bytes

-- PartitionedDisk::Partition.
pub record Partition : Type 0 where
  pub name : Bytes
  pub part_type : Bytes
  pub offset : ℕ
  pub size : ℕ

abbrev pub dash : ℕ
dash = 0x2d

abbrev pub hex_digit : ℕ → ℕ
hex_digit d = if ltb d 10 then 0x30 + d else 0x37 + d

-- `std::hex << std::uppercase << n`, for a number of at most `fuel + 1` digits.
unfoldable pub hex_from : ℕ → ℕ → Bytes
hex_from zero n = hex_digit (n % 16) ∷ []
hex_from (suc fuel) n =
    let rest = hex_from fuel (n / 16) in
    if ltb n 16 then hex_digit n ∷ [] else rest ++ hex_digit (n % 16) ∷ []

unfoldable pub hex : ℕ → Bytes
unfolding hex_from
hex n = hex_from 7 n

-- The same behind `setw(width) << setfill('0')`, which hold for one number.
unfoldable pub padded_hex : ℕ → ℕ → Bytes
unfolding hex
padded_hex width n = replicate (width - length (hex n)) 0x30 ++ hex n

-- The loop of `makeGUID`, from the byte number `i` on.
unfoldable pub guid_bytes : ℕ → Bytes → Bytes
unfolding padded_hex
guid_bytes i [] = []
guid_bytes i (b ∷ bs) =
    let rest = guid_bytes (i + 1) bs in padded_hex 2 b ++ (if i == 1 then dash ∷ rest else rest)

unfoldable pub make_guid : GptGuid → Bytes
unfolding guid_bytes padded_hex
make_guid g =
    padded_hex 8 g.data1
    ++ dash ∷ padded_hex 4 g.data2
    ++ dash ∷ hex g.data3
    ++ dash ∷ guid_bytes 0 g.data4

abbrev pub guid_empty : Bytes
guid_empty =
    replicate 8 0x30
    ++ dash ∷ replicate 4 0x30
    ++ dash ∷ replicate 4 0x30
    ++ dash ∷ replicate 4 0x30
    ++ dash ∷ replicate 12 0x30

-- `48465300-0000-11AA-AA11-00306543ECAC`.
abbrev pub guid_hfsplus : Bytes
guid_hfsplus =
    0x34 ∷ 0x38 ∷ 0x34 ∷ 0x36 ∷ 0x35 ∷ 0x33 ∷ 0x30 ∷ 0x30 ∷ 0x2d ∷ 0x30 ∷ 0x30 ∷ 0x30 ∷ 0x30 ∷ 0x2d
    ∷ 0x31 ∷ 0x31 ∷ 0x41 ∷ 0x41 ∷ 0x2d ∷ 0x41 ∷ 0x41 ∷ 0x31 ∷ 0x31 ∷ 0x2d ∷ 0x30 ∷ 0x30 ∷ 0x33
    ∷ 0x30 ∷ 0x36 ∷ 0x35 ∷ 0x34 ∷ 0x33 ∷ 0x45 ∷ 0x43 ∷ 0x41 ∷ 0x43 ∷ []

-- `Apple_Free` and `Apple_HFS`.
abbrev pub apple_free : Bytes
apple_free = 0x41 ∷ 0x70 ∷ 0x70 ∷ 0x6c ∷ 0x65 ∷ 0x5f ∷ 0x46 ∷ 0x72 ∷ 0x65 ∷ 0x65 ∷ []

abbrev pub apple_hfs : Bytes
apple_hfs = 0x41 ∷ 0x70 ∷ 0x70 ∷ 0x6c ∷ 0x65 ∷ 0x5f ∷ 0x48 ∷ 0x46 ∷ 0x53 ∷ []

unfoldable pub equal : Bytes → Bytes → Bool
equal [] [] = true
equal (a ∷ x) (b ∷ y) = a == b && equal x y
equal _ _ = false

unfoldable pub type_of_guid : Bytes → Bytes
unfolding equal
type_of_guid guid =
    if equal guid guid_empty
    then apple_free
    else if equal guid guid_hfsplus
    then apple_hfs
    else guid

-- A string of the array up to its first zero.
unfoldable pub c_string : Bytes → Bytes
c_string [] = []
c_string (c ∷ s) = let rest = c_string s in if c == 0 then [] else c ∷ rest

-- The body of the loop of `loadPartitions`.
unfoldable pub partition_of : GptPartition → Partition
unfolding make_guid type_of_guid c_string
partition_of p = record {
  name = c_string p.name;
  part_type = type_of_guid (make_guid p.type_guid);
  offset = p.first_lba * 512 % u64_mod;
  size = add64 (sub64 p.last_lba p.first_lba) 1 * 512 % u64_mod;
}

-- The low bytes of the characters of a name.
unfoldable pub low_bytes : ℕ → Bytes → Bytes
low_bytes zero bytes = []
low_bytes (suc n) bytes = byte_at bytes 0 ∷ low_bytes n (drop 2 bytes)

unfoldable pub gpt_partition_at : Bytes → GptPartition
unfolding le16_at le32_at le64_at low_bytes
gpt_partition_at b = record {
  type_guid = record {
    data1 = le32_at b 0;
    data2 = le16_at b 4;
    data3 = le16_at b 6;
    data4 = take 8 (drop 8 b);
  };
  first_lba = le64_at b 32;
  last_lba = le64_at b 40;
  name = low_bytes 36 (drop 56 b);
}

-- The loop, over `n` elements of the array.
unfoldable pub partitions_of : ℕ → Bytes → List Partition
unfolding partition_of gpt_partition_at
partitions_of zero bytes = []
partitions_of (suc n) bytes =
    partition_of (gpt_partition_at bytes) ∷ partitions_of n (drop 128 bytes)

unfoldable pub load_partitions : Reader → ℕ → Result (List Partition)
unfolding partitions_of
load_partitions table offset = do
  bytes ← table.read 16384 offset
  ok (partitions_of (length bytes / 128) bytes)

unfoldable pub is_gpt_disk : Reader → Result Bool
is_gpt_disk r = do
  mbr ← r.read 512 0
  ok (
      length mbr == 512
      && byte_at mbr 510 == 0x55
      && byte_at mbr 511 == 0xaa
      && byte_at mbr 450 == 0xee)

-- `at` throws for an index past the end.
unfoldable pub reader_of : Reader → Option Partition → Result Reader
reader_of r none = err out_of_range
reader_of r (some p) = ok (sub_reader r p.offset p.size)

unfoldable pub reader_for_partition : Reader → List Partition → ℕ → Result Reader
unfolding reader_of
reader_for_partition r parts index = reader_of r (get_elem? parts index)

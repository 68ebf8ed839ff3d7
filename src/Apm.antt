-- ===== src/Apm.antt =====
-- src/AppleDisk.cpp, apm.h: disks with an Apple partition map. `map_reader` is the reader of the map where it is kept apart
-- from the disk; `undef` is what lies on the stack where a read fills less than it was asked for.
-- A partition has the reader that it has in Gpt.
pub mod Guess
pub mod Entries
mod Tests
use darling_dmg.Common.{
  ℕ, zero, suc, ◌+◌, ◌-◌, ◌*◌, ◌%◌, Bool, ◌==◌, if◌then◌else◌, Option, none, some, List, [], ◌∷◌,
  ◌++◌, Bytes, length, take, drop, replicate, Result, ok, err, io_error, ◌>>=◌,
}
use darling_dmg.Common.Word.{u64_mod}
use darling_dmg.Endian.{be16_at, be32_at}
use darling_dmg.Io.{Reader}
use darling_dmg.Gpt.{Partition, c_string}

abbrev pub block0_signature : ℕ
block0_signature = 0x4552

abbrev pub dpme_signature : ℕ
dpme_signature = 0x504d

-- Block0 and DPME are of 512 bytes each.
unfoldable pub struct_of : ℕ → Bytes → Bytes
struct_of undef bytes = take 512 (bytes ++ replicate 512 undef)

unfoldable pub has_signature : ℕ → Bytes → Bool
unfolding be16_at
has_signature signature bytes = be16_at bytes 0 == signature

-- What the second loop makes of an entry.
unfoldable pub partition_of_dpme : ℕ → Bytes → Partition
unfolding be32_at c_string
partition_of_dpme block_size dpme = record {
  name = c_string (drop 16 dpme);
  part_type = c_string (drop 48 dpme);
  offset = be32_at dpme 8 * block_size % u64_mod;
  size = be32_at dpme 12 * block_size % u64_mod;
}

module _ (disk : Reader) (map_reader : Option Reader) (undef : ℕ) where
  -- The read of the entry number `i`.
  unfoldable pub read_entry : ℕ → ℕ → Result Bytes
  read_entry block_size i = elim map_reader [
    | none ↦ disk.read 512 ((i + 1) * block_size)
    | some table ↦ table.read 512 (i * block_size)
  ]

  -- The loop that guesses the block size, from the round `i` on; `next` is `lastOK + 1`.
  unfoldable pub guess_from : ℕ → ℕ → ℕ → Result ℕ
  unfolding read_entry struct_of has_signature
  guess_from zero i next = ok 512
  guess_from (suc rounds) i next = do
    bytes ← read_entry 512 i
    let same = guess_from rounds (i + 1) next
    let found = guess_from rounds (i + 1) (i + 1)
    let signed = if next == i then found else ok (512 * (i + 1 - next))
    if has_signature dpme_signature (struct_of undef bytes) then signed else same

  -- The loop that collects the partitions.
  unfoldable pub entries_from : ℕ → ℕ → ℕ → Result (List Partition)
  unfolding read_entry has_signature partition_of_dpme
  entries_from block_size zero i = ok []
  entries_from block_size (suc rounds) i = do
    dpme ← read_entry block_size i
    let rest = entries_from block_size rounds (i + 1)
    let more = (do l ← rest; ok (partition_of_dpme block_size dpme ∷ l))
    if length dpme == 512 then (if has_signature dpme_signature dpme then more else rest) else ok []

  unfoldable pub load_map : Result (List Partition)
  unfolding guess_from entries_from struct_of has_signature be16_at
  load_map = do
    bytes ← disk.read 512 0
    let block0 = struct_of undef bytes
    let declared = be16_at block0 2
    let guessed = (do block_size ← guess_from 63 0 0; entries_from block_size 63 0)
    let load = if declared == 0 then guessed else entries_from declared 63 0
    if has_signature block0_signature block0 then load else err io_error

-- The signature that is read starts as zero.
unfoldable pub is_apple_disk : Reader → Result Bool
unfolding has_signature
is_apple_disk r = do
  bytes ← r.read 2 0
  ok (has_signature block0_signature (take 2 (bytes ++ replicate 2 0)))

-- ===== src/Cache/Reader/Tests.antt =====
-- The cached reader at concrete inputs.
use darling_dmg.Common.{
  ℕ, ◌<◌, length, ◌-◌, ◌≤◌, min, ltb, if◌then◌else◌, ◌≡◌, refl, [], ◌∷◌, Bytes, byte_at, replicate,
  Result, ok, ◌>>=◌, some, arith,
}
use darling_dmg.Io.{Reader, memory_reader}
use darling_dmg.Io.Serves.{memory_reader-Serves}
use darling_dmg.Cache.Zone.{CacheZone, init, store, get}
use darling_dmg.Cache.Zone.Table.{same_key, find, put, erase, erase_node}
use darling_dmg.Cache.Zone.Linked.{block_of, init-IsLinked, init-block_of}
use darling_dmg.Cache.Reader.{write, read, store_blocks}
use darling_dmg.Cache.Reader.Transparent
use darling_dmg.Cache.Reader.Transparent.{ReadsThrough}
use darling_dmg.Cache.Reader.Aligned
use darling_dmg.Cache.Reader.Aligned.{memory_reader-IsAligned, init-IsCoherent}

abbrev six : Bytes
six = 10 ∷ 11 ∷ 12 ∷ 13 ∷ 14 ∷ 15 ∷ []

abbrev source : Reader
source = memory_reader six

abbrev junk : ℕ → ℕ → ℕ
junk n i = 0xaa

read-ReadsThrough_example :
    ReadsThrough source
      (byte_at six)
      "t"
      2
      (min 3 (source.size - 2))
      (read source "t" junk 3 2 (λ i. 0) (init 50))
unfolding memory_reader
read-ReadsThrough_example =
    Transparent.read-ReadsThrough source (byte_at six) "t" junk
      (memory_reader-Serves six (omega arith)) (memory_reader-IsAligned six (omega arith)) 3 2
      (λ i. 0) (init 50) (omega arith) (omega arith) (init-IsCoherent 6 (byte_at six) "t" 50)

-- A source of 5000 bytes, all 7, whose first advised block ends at 4608.
abbrev sevens : Reader
sevens = record {
  read = λ count offset. ok (replicate count 7);
  size = 5000;
  advise = λ offset. ok (
      if ltb offset 4608
      then record { start = 0; stop = 4608 }
      else record { start = 4608; stop = 5000 });
}

init_room : length (init 50).cache < (init 50).max_blocks
unfolding init
init_room = omega arith

store_blocks-partial_example :
    (z' : CacheZone) × (block : ℕ → ℕ) × (store_blocks sevens "t" junk 1 4096
        (record { start = 4096; stop = 4608 })
        (replicate 512 7)
        (init 50)
      ≡ ok z')
    × (block_of (1, "t") z' ≡ some block)
    × ((i : ℕ) → 512 ≤ i → block i ≡ junk 1 i)
store_blocks-partial_example =
    Aligned.store_blocks-partial sevens "t" junk 4096 (record { start = 4096; stop = 4608 })
      (replicate 512 7) (init 50) (init-IsLinked 50) (omega arith) (omega arith) (omega arith)
      (omega arith) (omega arith) (init-block_of (1, "t") 50) init_room

-- The bytes at 4700 and 4701 are 7. Read after the byte at 0, they come from the half-filled block.
corrupted : Result Bytes
corrupted = do
  (_, z) ← read sevens "t" junk 1 0 (λ i. 0) (init 50)
  (bytes, _) ← read sevens "t" junk 2 4700 (λ i. 0) z
  ok bytes

corrupted_read : corrupted ≡ ok (0xaa ∷ 0xaa ∷ [])
unfolding corrupted read store_blocks write init store get find put erase erase_node same_key
corrupted_read = refl

-- ===== src/Hfs/Fork.antt =====
-- src/HFSFork.cpp: a fork of a file as the blocks of its extents, some of them in the extents overflow
-- file. `m_extents`, which a read may lengthen, is passed on; `find_extents` stands for
-- `findExtentsForFile` of the volume's overflow tree.
pub mod Extents
pub mod Locate
pub mod Reads
pub mod Source
mod Tests
use darling_dmg.Common.{
  ℕ, zero, suc, ◌+◌, ◌-◌, ◌*◌, ◌/◌, ◌%◌, min, Bool, true, false, ◌&&◌, ◌||◌, ltb, leb, ◌==◌,
  if◌then◌else◌, Option, none, some, List, [], ◌∷◌, ◌++◌, Bytes, length, drop, get_elem?, Result,
  ok, err, io_error, logic_error, memory_fault, out_of_fuel, ◌>>=◌,
}
use darling_dmg.Common.Word.{u32_mod, u64_mod, size_limit, add64, sub64, to_int32, widen}
use darling_dmg.Io.{Reader}
use darling_dmg.Hfs.Overflow.{Extent}

-- The fields that do not change, with the volume's reader and block size.
pub record ForkFile : Type 0 where
  pub volume : Reader
  pub block_size : ℕ
  pub logical_size : ℕ
  pub cnid : ℕ
  pub resource_fork : Bool
  pub find_extents : ℕ → Bool → ℕ → List Extent → Result (List Extent)

-- The constructor: the descriptors of the catalog record that have blocks.
unfoldable pub initial_extents : List Extent → List Extent
initial_extents [] = []
initial_extents (e ∷ es) =
    let rest = initial_extents es in if ltb 0 e.block_count then e ∷ rest else rest

-- What the search for the first extent ends with: its index, the blocks before it and the offset in
-- it, or the blocks and the offset behind the extents that there are.
pub data Scan : Type 0 where
  located : ℕ → ℕ → ℕ → Scan
  exhausted : ℕ → ℕ → Scan

-- The variables of the read loop.
pub record Place : Type 0 where
  pub extents : List Extent
  pub extent : ℕ
  pub blocks_so_far : ℕ
  pub offset_in_extent : ℕ

-- `std::min` of two numbers of type int64_t, the second one not negative.
abbrev pub signed_min : ℕ → ℕ → ℕ
signed_min a b = if ltb a size_limit then min a b else a

module _ (f : ForkFile) where
  abbrev pub extent_bytes : Extent → ℕ
  extent_bytes e = e.block_count * f.block_size % u64_mod

  unfoldable pub load_from_overflows_file : ℕ → List Extent → Result (List Extent)
  load_from_overflows_file blocks extents =
      if f.cnid == 0 then err logic_error else if ltb (length extents) 8 then err io_error else do
        extents' ← f.find_extents f.cnid f.resource_fork blocks extents
        if length extents' == length extents then err io_error else ok extents'

  -- The `for` loop, over the extents from the index `i` on.
  unfoldable pub scan : ℕ → List Extent → ℕ → ℕ → ℕ → Scan
  scan first [] i blocks offset = exhausted blocks offset
  scan first (e ∷ es) i blocks offset =
      let rest =
        scan first es (i + 1) ((blocks + e.block_count) % u32_mod)
          (sub64 offset (extent_bytes e)) in
      if ltb first ((e.block_count + blocks) % u32_mod) then located i blocks offset else rest

  -- The `do` loop around it.
  unfoldable pub locate : ℕ → ℕ → List Extent → ℕ → ℕ → ℕ → Result Place
  unfolding scan load_from_overflows_file
  locate zero first extents i blocks offset = elim (scan first (drop i extents) i blocks offset) [
    | located j b o ↦
        ok (record { extents = extents; extent = j; blocks_so_far = b; offset_in_extent = o })
    | exhausted b o ↦ err out_of_fuel
  ]
  locate (suc fuel) first extents i blocks offset =
      elim (scan first (drop i extents) i blocks offset) [
        | located j b o ↦
            ok (record { extents = extents; extent = j; blocks_so_far = b; offset_in_extent = o })
        | exhausted b o ↦ do
          extents' ← load_from_overflows_file b extents
          locate fuel first extents' (length extents) b o
      ]

  -- The first lines of the loop that reads: the extents, longer if the loop has come to their end.
  unfoldable pub with_extent : Place → Result (List Extent)
  unfolding load_from_overflows_file
  with_extent p =
      if leb (length p.extents) p.extent
      then load_from_overflows_file p.blocks_so_far p.extents
      else ok p.extents

  -- The rest of its body, for the extent at hand: the bytes read, and whether all were that it asked for.
  unfoldable pub read_extent : Option Extent → ℕ → ℕ → Result (Bytes × Bool)
  read_extent none offset left = err memory_fault
  read_extent (some e) offset left =
      let thistime = to_int32 (signed_min (sub64 (extent_bytes e) offset) left) in
      if thistime == 0 then err logic_error else do
        bytes ← f.volume.read thistime (add64 (e.start_block * f.block_size % u64_mod) offset)
        ok (bytes, length bytes == thistime)

  abbrev pub blocks_of : Option Extent → ℕ
  blocks_of none = 0
  blocks_of (some e) = e.block_count

  unfoldable pub next_place : Place → List Extent → Place
  next_place p extents = record {
    extents = extents;
    extent = p.extent + 1;
    blocks_so_far = (p.blocks_so_far + blocks_of (get_elem? extents p.extent)) % u32_mod;
    offset_in_extent = 0;
  }

  -- The loop that reads, `out` being what the buffer holds.
  unfoldable pub fork_loop : ℕ → ℕ → ℕ → Place → Bytes → Result (Bytes × List Extent)
  unfolding with_extent read_extent next_place
  fork_loop zero count offset p out =
      if ltb (length out) count && ltb (add64 (length out) offset) f.logical_size
      then err out_of_fuel
      else ok (out, p.extents)
  fork_loop (suc fuel) count offset p out =
      let rest = (do
        extents ← with_extent p
        (bytes, whole) ←
            read_extent (get_elem? extents p.extent) p.offset_in_extent (count - length out)
        let more = fork_loop fuel count offset (next_place p extents) (out ++ bytes)
        if whole then more else ok (out ++ bytes, extents)) in
      if ltb (length out) count && ltb (add64 (length out) offset) f.logical_size
      then rest
      else ok (out, p.extents)

  unfoldable pub fork_count : ℕ → ℕ → ℕ
  fork_count count offset =
      if ltb f.logical_size offset
      then 0
      else if ltb f.logical_size (add64 offset (widen count))
      then to_int32 (sub64 f.logical_size offset)
      else count

  -- `read`: the bytes, and the extents that it leaves.
  unfoldable pub fork_read : ℕ → ℕ → List Extent → Result (Bytes × List Extent)
  unfolding fork_count locate fork_loop
  fork_read count offset extents =
      let n = fork_count count offset in
      let first = offset / f.block_size % u32_mod in
      if f.block_size == 0
      then err memory_fault
      else if n == 0
      then ok ([], extents)
      else do p ← locate (first + 1) first extents 0 0 offset; fork_loop n n offset p []

-- ===== src/Cache/Reader.antt =====
-- src/CachedReader.cpp: a reader that keeps the blocks of a backing reader in a cache zone. A read
-- fills a buffer, `buf : ℕ → ℕ`, out of order: a cached block is copied at once, and the gap before it
-- is fetched afterwards. `undef n` is what the stack holds when block `n` is stored. Each `while`
-- recurs on the rounds that it is given.
pub mod Fetch
pub mod NonCached
pub mod Read
pub mod Transparent
pub mod Aligned
mod Tests
use Prim.Native.String.{String}
use darling_dmg.Common.{
  ℕ, zero, suc, ◌+◌, ◌-◌, ◌*◌, ◌/◌, ◌%◌, min, Bool, ◌||◌, ltb, leb, ◌==◌, if◌then◌else◌, Bytes,
  byte_at, length, take, drop, tabulate, Result, ok, err, logic_error, io_error, out_of_fuel, ◌>>=◌,
}
use darling_dmg.Common.Word.{u32_mod, i32_limit, add64, sub64, to_int32, widen}
use darling_dmg.Io.{Block, Reader, block_size}
use darling_dmg.Cache.Zone.{CacheZone, store, get}

-- memcpy(buf + pos, bytes, n), for a source of n bytes.
pub write : (ℕ → ℕ) → ℕ → Bytes → ℕ → ℕ
write buf pos bytes i =
    if ltb i pos
    then buf i
    else if ltb i (pos + length bytes)
    then byte_at bytes (i - pos)
    else buf i

-- What the loop of `read` keeps in its variables.
pub record Progress : Type 0 where
  pub done : ℕ
  pub last_fetch : ℕ
  pub buf : ℕ → ℕ
  pub zone : CacheZone

module _ (r : Reader) where
  -- The start of the body of the loop of `nonCachedRead`: the advised block, checked and read.
  pub read_block : Block → Result (Block × Bytes)
  read_block b =
      let thistime = sub64 b.stop b.start in
      do
        chunk ← r.read thistime b.start
        if ltb (length chunk) thistime then err io_error else ok (b, chunk)

  pub fetch_block : ℕ → Result (Block × Bytes)
  unfolding read_block
  fetch_block pos = do
    b ← r.advise pos
    if ltb pos b.start || leb b.stop pos
        then err logic_error
        else if ltb (i32_limit - 1) (sub64 b.stop b.start)
        then err logic_error
        else read_block b

  -- The count, clipped to the end. A negative one is below every position, as 0 is.
  pub clipped_count : ℕ → ℕ → ℕ
  clipped_count count offset =
      let n =
        if ltb r.size (add64 (widen count) offset) then to_int32 (sub64 r.size offset) else count in
      if ltb n i32_limit then n else 0

module _ (r : Reader) (tag : String) (undef : ℕ → ℕ → ℕ) where
  -- The inner loop of `nonCachedRead`: each 4096-byte block of the chunk goes into the zone.
  pub store_blocks : ℕ → ℕ → Block → Bytes → CacheZone → Result CacheZone
  store_blocks zero pos b chunk z = if ltb pos b.stop then err out_of_fuel else ok z
  store_blocks (suc fuel) pos b chunk z =
      let rest = (do
        z' ←
            store (undef (pos / block_size)) (pos / block_size, tag)
              (take (min (b.stop - pos) block_size) (drop (pos - b.start) chunk)) z
        store_blocks fuel (add64 pos block_size) b chunk z') in
      if ltb pos b.stop then rest else ok z

  -- The whole body: the bytes that it copies out, and the zone with the blocks that it stored.
  pub fetch : ℕ → ℕ → CacheZone → Result (Bytes × CacheZone)
  unfolding store_blocks fetch_block
  fetch pos stop z = do
    (b, chunk) ← fetch_block r pos
    let first = add64 b.start (block_size - 1) / block_size * block_size
    let thistime = sub64 b.stop b.start
    z' ← store_blocks (thistime / block_size + 1) first b chunk z
    let n = min ((stop - pos) % u32_mod) (thistime - (pos - b.start))
    ok (take n (drop (pos - b.start) chunk), z')

  -- `nonCachedRead(buf + base, stop - offset, offset)`, from `pos` on.
  pub fetch_loop : ℕ → ℕ → ℕ → ℕ → ℕ → (ℕ → ℕ) → CacheZone → Result ((ℕ → ℕ) × CacheZone)
  fetch_loop zero base offset stop pos buf z = if ltb pos stop then err out_of_fuel else ok (buf, z)
  fetch_loop (suc fuel) base offset stop pos buf z =
      let rest = (do
        (bytes, z') ← fetch pos stop z
        fetch_loop fuel base offset stop (add64 pos (length bytes))
            (write buf (base + (pos - offset)) bytes) z') in
      if ltb pos stop then rest else ok (buf, z)

  pub non_cached_read : ℕ → ℕ → ℕ → (ℕ → ℕ) → CacheZone → Result ((ℕ → ℕ) × CacheZone)
  unfolding fetch_loop fetch
  non_cached_read base count offset buf z =
      fetch_loop count base offset (add64 offset count) offset buf z

  -- The bytes between the last hit and this one are fetched into the buffer.
  pub fetch_gap : ℕ → Progress → (ℕ → ℕ) → Result ((ℕ → ℕ) × CacheZone)
  unfolding non_cached_read
  fetch_gap offset p buf =
      if ltb 0 (p.done - p.last_fetch)
      then non_cached_read p.last_fetch (p.done - p.last_fetch) (add64 offset p.last_fetch) buf
          p.zone
      else ok (buf, p.zone)

  -- The body of the loop of `read`, from a hit on: the cached bytes go to their place, then the gap.
  pub serve_hit : ℕ → ℕ → Bytes → Progress → Result Progress
  unfolding fetch_gap
  serve_hit offset thistime cached p = do
    (buf', z') ← fetch_gap offset p (write p.buf p.done cached)
    ok (record {
      done = p.done + length cached;
      last_fetch = p.done + thistime;
      buf = buf';
      zone = z';
    })

  -- The body of the loop of `read`, for `n` bytes from `in_block` on in the block at hand.
  pub advance_round : ℕ → ℕ → ℕ → Progress → Result Progress
  unfolding serve_hit
  advance_round offset in_block n p = if n == 0 then err logic_error else do
    (cached, z') ← get (add64 offset p.done / block_size, tag) in_block n p.zone
    if length cached == 0
        then ok (record p { done = p.done + n; zone = z' })
        else serve_hit offset n cached (record p { zone = z' })

  pub advance : ℕ → ℕ → Progress → Result Progress
  unfolding advance_round
  advance count offset p =
      let in_block = if p.done == 0 then offset % block_size else 0 in
      advance_round offset in_block (min (min (count - p.done) block_size) (block_size - in_block))
        p

  pub read_loop : ℕ → ℕ → ℕ → Progress → Result Progress
  read_loop zero count offset p = if ltb p.done count then err out_of_fuel else ok p
  read_loop (suc fuel) count offset p =
      let rest = (do p' ← advance count offset p; read_loop fuel count offset p') in
      if ltb p.done count then rest else ok p

  -- After the loop: the blocks at the end of the range that were not cached.
  pub read_rest : ℕ → ℕ → Progress → Result (Bytes × CacheZone)
  unfolding non_cached_read
  read_rest count offset p =
      let fetched = (do
        (buf, z) ←
            non_cached_read p.last_fetch (p.done - p.last_fetch) (add64 offset p.last_fetch) p.buf
              p.zone
        ok (tabulate p.done 0 buf, z)) in
      if ltb p.last_fetch count then fetched else ok (tabulate p.done 0 p.buf, p.zone)

  -- `read(buf, count, offset)`: the bytes left in `buf`, and the zone.
  pub read : ℕ → ℕ → (ℕ → ℕ) → CacheZone → Result (Bytes × CacheZone)
  unfolding clipped_count read_loop advance read_rest
  read count offset buf z =
      let n = clipped_count r count offset in
      do
        p ← read_loop n n offset (record { done = 0; last_fetch = 0; buf = buf; zone = z })
        read_rest n offset p

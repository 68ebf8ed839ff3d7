-- ===== src/Cache/Reader/Fetch.antt =====
-- What `nonCachedRead` does over a backing reader that meets the contract of Io.
use Prim.Native.String.{String}
use darling_dmg.Common.{
  ℕ, zero, suc, ◌+◌, ◌-◌, ◌*◌, ◌/◌, ◌%◌, ◌≤◌, ◌<◌, min, ◌≡◌, refl, ap, ◌∙◌, ◌⊎◌, ltb, arith, Bytes,
  byte_at, length, take, drop, Option, none, some, ok, inl, inr, Bool-cases, byte_at-take,
  byte_at-drop, length-take, length-drop, ltb→lt, le→ltb, lt→leb_false,
}
use darling_dmg.Common.Word.{u32_mod, i32_limit, size_limit, add64, sub64}
use darling_dmg.Io.{Block, Reader, block_size}
use darling_dmg.Io.Serves.{Serves}
use darling_dmg.Cache.Zone.Table.{CacheKey, same_key, same_key-eq}
use darling_dmg.Cache.Zone.{CacheZone, store}
use darling_dmg.Cache.Zone.Eviction.{IsLinked}
use darling_dmg.Cache.Zone.Linked.{block_of, stored, store-Leaves}
use darling_dmg.Cache.Reader.{write, store_blocks, fetch_block, fetch}

-- The advised blocks end at a 4096-byte boundary or at the end, and fit an int32_t.
pub record IsAligned (r : Reader) : Type 0 where
  pub ends :
      (offset : ℕ) (b : Block)
      → offset < r.size
      → r.advise offset ≡ ok b
      → (b.stop % block_size ≡ 0) ⊎ (b.stop ≡ r.size)
  pub short : (offset : ℕ) (b : Block) → r.advise offset ≡ ok b → b.stop < b.start + i32_limit

-- Every cached block of the tag holds the bytes of the source, as far as it goes.
pub record IsCoherent (size : ℕ) (content : ℕ → ℕ) (tag : String) (z : CacheZone) : Type 0 where
  pub valid : IsLinked z
  pub agrees :
      (n : ℕ) (block : ℕ → ℕ) (i : ℕ)
      → block_of (n, tag) z ≡ some block
      → i < block_size
      → n * block_size + i < size
      → block i ≡ content (n * block_size + i)

-- The block that a store writes, where it holds bytes of the source or reaches its end.
module _ (size : ℕ) (content : ℕ → ℕ) (tag : String) where
  stored-agrees :
      (undef : ℕ → ℕ) (n : ℕ) (bytes : Bytes)
      → ((i : ℕ) → i < block_size → n * block_size + i < size → i < length bytes)
      → ((i : ℕ) → i < length bytes → byte_at bytes i ≡ content (n * block_size + i))
      → (o : Option (ℕ → ℕ)) (i : ℕ)
      → ((old : ℕ → ℕ)
          → o ≡ some old
          → i < block_size
          → n * block_size + i < size
          → old i ≡ content (n * block_size + i))
      → i < block_size
      → n * block_size + i < size
      → stored undef bytes o i ≡ content (n * block_size + i)
  stored-agrees undef n bytes full same none i h p q =
      ground (arith, full i p q, same i (full i p q))
  stored-agrees undef n bytes full same (some old) i h p q = h old refl p q

  store-IsCoherent :
      (undef : ℕ → ℕ) (n : ℕ) (bytes : Bytes) (z : CacheZone)
      → IsCoherent size content tag z
      → length bytes ≤ block_size
      → ((i : ℕ) → i < block_size → n * block_size + i < size → i < length bytes)
      → ((i : ℕ) → i < length bytes → byte_at bytes i ≡ content (n * block_size + i))
      → (z' : CacheZone) × (store undef (n, tag) bytes z ≡ ok z') × IsCoherent size content tag z'
  store-IsCoherent undef n bytes z c fits full same =
      let l = store-Leaves undef (n, tag) bytes z fits c.valid in
      (
        l.zone,
        l.returns,
        record {
          valid = l.valid;
          agrees = λ m block i found in_block in_source.
              elim (Bool-cases (same_key (n, tag) (m, tag))) [
                | inl same_block ↦
                    let e : n ≡ m =
                      ap (λ (k : CacheKey). k.0) (same_key-eq (n, tag) (m, tag) same_block) in
                    ground (
                      arith,
                      l.readable (m, tag),
                      stored-agrees undef n bytes full same (block_of (n, tag) z) i
                          (λ old p. c.agrees n old i p),
                    )
                | inr other ↦ ground (arith, l.readable (m, tag), c.agrees m block i)
              ];
        },
      )

pub write-before :
    (buf : ℕ → ℕ) (pos : ℕ) (bytes : Bytes) (i : ℕ) → i < pos → write buf pos bytes i ≡ buf i
unfolding write
write-before buf pos bytes i h = ground arith

pub write-behind :
    (buf : ℕ → ℕ) (pos : ℕ) (bytes : Bytes) (i : ℕ)
    → pos + length bytes ≤ i
    → write buf pos bytes i ≡ buf i
unfolding write
write-behind buf pos bytes i h = ground arith

pub write-inside :
    (buf : ℕ → ℕ) (pos : ℕ) (bytes : Bytes) (i : ℕ)
    → pos ≤ i
    → i < pos + length bytes
    → write buf pos bytes i ≡ byte_at bytes (i - pos)
unfolding write
write-inside buf pos bytes i h p = ground arith

-- A reader that meets the contract, over a source of which `z` caches blocks.
module _ (r : Reader) (content : ℕ → ℕ) (tag : String) (undef : ℕ → ℕ → ℕ)
    (serves : Serves r content) where
  -- The bytes of an advised block.
  record IsChunk (b : Block) (chunk : Bytes) : Type 0 where
    count : length chunk ≡ b.stop - b.start
    bytes : (i : ℕ) → i < b.stop - b.start → byte_at chunk i ≡ content (b.start + i)
    ends : (b.stop % block_size ≡ 0) ⊎ (b.stop ≡ r.size)
    within : b.stop ≤ r.size

  stored_part-IsCoherent :
      (pos : ℕ) (b : Block) (chunk : Bytes) (z : CacheZone)
      → IsChunk b chunk
      → pos % block_size ≡ 0
      → b.start ≤ pos
      → pos < b.stop
      → IsCoherent r.size content tag z
      → (z' : CacheZone) × (store
            (undef (pos / block_size))
            (pos / block_size, tag)
            (take (min (b.stop - pos) block_size) (drop (pos - b.start) chunk))
            z
          ≡ ok z')
        × IsCoherent r.size content tag z'
  stored_part-IsCoherent pos b chunk z k aligned from more c =
      let n = min (b.stop - pos) block_size in
      let part = take n (drop (pos - b.start) chunk) in
      let count = k.count in
      let ends = k.ends in
      let e : length part ≡ n = omega (arith, length-take {0}, length-drop {0}) in
      store-IsCoherent r.size content tag (undef (pos / block_size)) (pos / block_size) part z c
        (omega arith) (λ i p q. ground arith)
        (λ i p.
          byte_at-take n i (drop (pos - b.start) chunk) (omega arith)
          ∙ byte_at-drop (pos - b.start) i chunk
          ∙ k.bytes (pos - b.start + i) (omega arith)
          ∙ ap content (omega arith))

  store_blocks-IsCoherent :
      (fuel pos : ℕ) (b : Block) (chunk : Bytes) (z : CacheZone)
      → IsChunk b chunk
      → pos % block_size ≡ 0
      → b.start ≤ pos
      → b.stop ≤ pos + fuel * block_size
      → IsCoherent r.size content tag z
      → (z' : CacheZone) × (store_blocks r tag undef fuel pos b chunk z ≡ ok z')
        × IsCoherent r.size content tag z'
  unfolding store_blocks
  store_blocks-IsCoherent zero pos b chunk z k aligned from enough c =
      (z, rw (le→ltb pos b.stop (omega arith)), c)
  store_blocks-IsCoherent (suc fuel) pos b chunk z k aligned from enough c =
      elim (Bool-cases (ltb pos b.stop)) [
        | inl more ↦
            let (z', returns, c') =
              stored_part-IsCoherent pos b chunk z k aligned from (ltb→lt _ _ more) c in
            let small = serves.small in
            let within = k.within in
            let p : pos < b.stop = ltb→lt _ _ more in
            let e : add64 pos block_size ≡ pos + block_size = omega arith in
            rw (more, returns, e)
              (store_blocks-IsCoherent fuel (pos + block_size) b chunk z' k (omega arith)
                (omega arith) (omega arith) c')
        | inr done ↦ (z, rw done, c)
      ]

  fetch_block-eq :
      (pos : ℕ) (b : Block) (chunk : Bytes)
      → r.advise pos ≡ ok b
      → b.start ≤ pos
      → pos < b.stop
      → b.stop < b.start + i32_limit
      → b.stop < size_limit
      → r.read (b.stop - b.start) b.start ≡ ok chunk
      → length chunk ≡ b.stop - b.start
      → fetch_block r pos ≡ ok (b, chunk)
  unfolding fetch_block
  fetch_block-eq pos b chunk advised from until short small got count =
      let n : sub64 b.stop b.start ≡ b.stop - b.start = omega arith in
      rw (
        advised,
        n,
        got,
        count,
        le→ltb pos b.start from,
        lt→leb_false b.stop pos until,
        le→ltb (i32_limit - 1) (b.stop - b.start) (omega arith),
        le→ltb (b.stop - b.start) (b.stop - b.start) (omega arith),
      )

  -- A block that `adviseOptimalBlock` gives passes the checks and is read whole.
  record Fetched (pos : ℕ) : Type 0 where
    block : Block
    chunk : Bytes
    returns : fetch_block r pos ≡ ok (block, chunk)
    is_chunk : IsChunk block chunk
    from : block.start ≤ pos
    until : pos < block.stop

  fetch_block-Fetched : IsAligned r → (pos : ℕ) → pos < r.size → Fetched pos
  fetch_block-Fetched al pos h =
      let a = serves.advises pos h in
      let b = a.block in
      let from = a.from in
      let until = a.until in
      let within = a.within in
      let small = serves.small in
      let short : b.stop < b.start + i32_limit = al.short pos b a.returns in
      let got = serves.reads (b.stop - b.start) b.start (omega arith) (omega arith) in
      let e : min (b.stop - b.start) (r.size - b.start) ≡ b.stop - b.start = omega arith in
      record {
        block = b;
        chunk = got.out;
        returns =
            fetch_block-eq pos b got.out a.returns from until short (omega arith) got.returns
              (got.count ∙ e);
        is_chunk = record {
          count = got.count ∙ e;
          bytes = λ i p. got.bytes i (omega arith);
          ends = al.ends pos b h a.returns;
          within = within;
        };
        from = from;
        until = until;
      }

  fetch-eq :
      (pos stop : ℕ) (z z' : CacheZone) (b : Block) (chunk : Bytes)
      → fetch_block r pos ≡ ok (b, chunk)
      → b.start ≤ b.stop
      → b.stop < size_limit
      → stop < pos + i32_limit
      → store_blocks r tag undef
          ((b.stop - b.start) / block_size + 1)
          ((b.start + (block_size - 1)) / block_size * block_size)
          b
          chunk
          z
        ≡ ok z'
      → fetch r tag undef pos stop z
        ≡ ok (
          take (min (stop - pos) (b.stop - b.start - (pos - b.start))) (drop (pos - b.start) chunk),
          z',
        )
  unfolding fetch
  fetch-eq pos stop z z' b chunk got order small near stored =
      let thistime : sub64 b.stop b.start ≡ b.stop - b.start = omega arith in
      let first : add64 b.start (block_size - 1) ≡ b.start + (block_size - 1) = omega arith in
      let n : (stop - pos) % u32_mod ≡ stop - pos = omega arith in
      rw (got, thistime, first, stored, n)

  -- One round of `nonCachedRead`: it copies at least one byte, those of the source at `pos`.
  pub record Fetches (pos stop : ℕ) (z : CacheZone) : Type 0 where
    pub bytes : Bytes
    pub zone : CacheZone
    pub returns : fetch r tag undef pos stop z ≡ ok (bytes, zone)
    pub coherent : IsCoherent r.size content tag zone
    pub progress : 0 < length bytes
    pub fits : pos + length bytes ≤ stop
    pub same : (i : ℕ) → i < length bytes → byte_at bytes i ≡ content (pos + i)

  pub fetch-Fetches :
      IsAligned r
      → (pos stop : ℕ) (z : CacheZone) → pos < stop
      → stop ≤ r.size
      → stop < pos + i32_limit
      → IsCoherent r.size content tag z
      → Fetches pos stop z
  fetch-Fetches al pos stop z more within near c =
      let f = fetch_block-Fetched al pos (omega arith) in
      let b = f.block in
      let chunk = f.chunk in
      let k = f.is_chunk in
      let from = f.from in
      let until = f.until in
      let small = serves.small in
      let end = k.within in
      let count = k.count in
      let (z', stored, c') =
        store_blocks-IsCoherent ((b.stop - b.start) / block_size + 1)
          ((b.start + (block_size - 1)) / block_size * block_size) b chunk z k (omega arith)
          (omega arith) (omega arith) c in
      let n = min (stop - pos) (b.stop - b.start - (pos - b.start)) in
      let e : length (take n (drop (pos - b.start) chunk)) ≡ n =
        omega (arith, length-take {0}, length-drop {0}) in
      record {
        bytes = take n (drop (pos - b.start) chunk);
        zone = z';
        returns = fetch-eq pos stop z z' b chunk f.returns (omega arith) (omega arith) near stored;
        coherent = c';
        progress = omega arith;
        fits = omega arith;
        same = λ i p.
            byte_at-take n i (drop (pos - b.start) chunk) (omega arith)
            ∙ byte_at-drop (pos - b.start) i chunk
            ∙ k.bytes (pos - b.start + i) (omega arith)
            ∙ ap content (omega arith);
      }

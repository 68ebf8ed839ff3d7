-- ===== src/Cache/Reader/Aligned.antt =====
-- Which readers advise aligned blocks, a cache to start with, and what an unaligned block does.
use Prim.Native.String.{String}
use mathlib.Core.List.{List, [], ◌∷◌}
use darling_dmg.Common.{
  ℕ, ◌+◌, ◌-◌, ◌/◌, ◌%◌, ◌≤◌, ◌<◌, min, ◌≡◌, Bytes, length, take, drop, some, none, ok, arith,
  le→ltb, lt→ltb, refl, ◌∙◌, length-take, length-drop, ◌⊎◌, ◌^◌,
}
use darling_dmg.Common.Word.{size_limit, add64}
use darling_dmg.Io.{Block, Reader, memory_reader, advise_default, block_size}
use darling_dmg.Cache.Zone.{CacheZone, init, filled}
use darling_dmg.Cache.Zone.Table.{CacheKey, Node, same_key_refl}
use darling_dmg.Cache.Zone.Eviction.{IsLinked, blocks_without_le}
use darling_dmg.Cache.Zone.Linked.{block_of, store-Leaves, init-IsLinked, init-block_of}
use darling_dmg.Cache.Reader.{store_blocks}
use darling_dmg.Cache.Reader.Fetch.{IsAligned, IsCoherent}

advise_default-ends :
    (len offset : ℕ)
    → len < size_limit
    → offset < len
    → ((advise_default len offset).stop % block_size ≡ 0) ⊎ ((advise_default len offset).stop ≡ len)
unfolding advise_default
advise_default-ends len offset small h = ground arith

advise_default-short :
    (len offset : ℕ) → (advise_default len offset).stop < (advise_default len offset).start + 2 ^ 31
unfolding advise_default
advise_default-short len offset = ground arith

-- The advice that readers give by default is aligned.
pub memory_reader-IsAligned :
    (data' : Bytes) → length data' < size_limit → IsAligned (memory_reader data')
unfolding memory_reader
memory_reader-IsAligned data' small = record {
  ends = λ offset b h e. ground (arith, advise_default-ends (length data') offset small h);
  short = λ offset b e. ground (arith, advise_default-short (length data') offset);
}

-- A new zone is coherent.
pub init-IsCoherent :
    (size : ℕ) (content : ℕ → ℕ) (tag : String) (max : ℕ) → IsCoherent size content tag (init max)
init-IsCoherent size content tag max = record {
  valid = init-IsLinked max;
  agrees = λ n block i h p q. ground (arith, init-block_of (n, tag) max);
}

nothing_dropped :
    (dropped : List Node) → ((e : List Node) (n : Node) → dropped ≡ n ∷ e → ⊥) → dropped ≡ []
nothing_dropped [] h = refl
nothing_dropped (n ∷ e) h = absurd (h e n refl)

-- An advised block that ends inside a 4096-byte block leaves that block half filled. If it was not in
-- the cache, which has room for one more, it is stored as if it were whole, and behind the end it holds
-- what was on the stack.
pub store_blocks-partial :
    (r : Reader) (tag : String) (undef : ℕ → ℕ → ℕ) (pos : ℕ) (b : Block) (chunk : Bytes)
    (z : CacheZone)
    → IsLinked z
    → b.start ≤ pos
    → pos < b.stop
    → b.stop < pos + block_size
    → b.stop < size_limit
    → length chunk ≡ b.stop - b.start
    → block_of (pos / block_size, tag) z ≡ none
    → length z.cache < z.max_blocks
    → (z' : CacheZone) × (block : ℕ → ℕ) × (store_blocks r tag undef 1 pos b chunk z ≡ ok z')
      × (block_of (pos / block_size, tag) z' ≡ some block)
      × ((i : ℕ) → b.stop - pos ≤ i → block i ≡ undef (pos / block_size) i)
unfolding store_blocks
store_blocks-partial r tag undef pos b chunk z v from more short small count absent room =
    let part = take (min (b.stop - pos) block_size) (drop (pos - b.start) chunk) in
    let n : length part ≡ b.stop - pos = omega (arith, length-take {0}, length-drop {0}) in
    let key : CacheKey = (pos / block_size, tag) in
    let l = store-Leaves (undef (pos / block_size)) key part z (omega arith) v in
    let e : add64 pos block_size ≡ pos + block_size = omega arith in
    let kept : l.dropped ≡ [] = nothing_dropped l.dropped (λ e m h.
      omega (arith, l.lazy [] e m h, blocks_without_le ((z.next_node, key) ∷ []) z.cache)) in
    (
      l.zone,
      filled part (undef (pos / block_size)),
      rw (lt→ltb pos b.stop more, l.returns, e, le→ltb (pos + block_size) b.stop (omega arith)),
      l.readable key ∙ rw (kept, same_key_refl key, absent) refl,
      λ i h. rw (le→ltb i (length part) (omega arith)) refl,
    )

-- ===== src/Cache/Zone.antt =====
-- src/CacheZone.h, CacheZone.cpp: a cache of 4096-byte blocks with the least recently used one
-- evicted first. `cache` is the unordered_map, as an association list, and `age` the std::list of
-- keys, oldest first. A list iterator is the number of the node that it points to: `next_node` is the
-- number of the next node made.
pub mod Table
pub mod Eviction
pub mod Linked
mod Tests
use Prim.Native.String.{String}
use mathlib.Core.List.{List, [], ◌∷◌, ◌++◌}
use darling_dmg.Common.{
  ℕ, ◌+◌, ◌-◌, min, Bool, ltb, leb, if◌then◌else◌, Option, none, some, Bytes, byte_at, length,
  tabulate, Result, ok, err, memory_fault, ◌>>=◌,
}
use darling_dmg.Common.Word.{add64, sub64}
use darling_dmg.Io.{block_size}
use Table.{CacheKey, Node, find, put, erase, find_node, erase_node}

pub record CacheEntry : Type 0 where
  pub it_age : ℕ
  pub content : ℕ → ℕ

pub record CacheZone : Type 0 where
  pub cache : List (CacheKey × CacheEntry)
  pub age : List Node
  pub next_node : ℕ
  pub max_blocks : ℕ
  pub queries : ℕ
  pub hits : ℕ

-- The constructor.
unfoldable pub init : ℕ → CacheZone
init max = record { cache = []; age = []; next_node = 0; max_blocks = max; queries = 0; hits = 0 }

-- The loop of `evictCache`. `front` of an empty list is undefined.
pub evict_loop :
    ℕ → List Node → List (CacheKey × CacheEntry) → Result (List Node × List (CacheKey × CacheEntry))
evict_loop max [] cache = if ltb max (length cache) then err memory_fault else ok ([], cache)
evict_loop max ((i, key) ∷ age) cache =
    let rest = evict_loop max age (erase key cache) in
    if ltb max (length cache) then rest else ok ((i, key) ∷ age, cache)

unfoldable pub evict_cache : CacheZone → Result CacheZone
unfolding evict_loop
evict_cache z = do
  (age, cache) ← evict_loop z.max_blocks z.age z.cache
  ok (record z { cache = cache; age = age })

unfoldable pub set_max_blocks : ℕ → CacheZone → Result CacheZone
unfolding evict_cache
set_max_blocks max z = evict_cache (record z { max_blocks = max })

-- `m_cacheAge.push_back(key)`, with the entry's iterator set to the new node.
pub touch : CacheKey → CacheEntry → CacheZone → CacheZone
touch key entry z = record z {
  cache = put key (record entry { it_age = z.next_node }) z.cache;
  age = z.age ++ (z.next_node, key) ∷ [];
  next_node = z.next_node + 1;
}

-- The array of a new entry: what was copied into it, and behind that what the stack held.
abbrev pub filled : Bytes → (ℕ → ℕ) → ℕ → ℕ
filled bytes undef i = if ltb i (length bytes) then byte_at bytes i else undef i

-- The entry behind the iterator that `insert` returns. `insert` leaves an entry that is there as it
-- is, and drops the new one.
pub inserted : Option CacheEntry → CacheEntry → CacheEntry
inserted none entry = entry
inserted (some old) entry = old

pub evict_if_full : CacheZone → Result CacheZone
unfolding evict_cache
evict_if_full z = if ltb z.max_blocks (length z.cache) then evict_cache z else ok z

unfoldable pub store : (ℕ → ℕ) → CacheKey → Bytes → CacheZone → Result CacheZone
unfolding touch inserted evict_if_full
store undef key bytes z =
    if ltb block_size (length bytes)
    then err memory_fault
    else let entry : CacheEntry = record { it_age = 0; content = filled bytes undef } in
      evict_if_full (touch key (inserted (find key z.cache) entry) z)

-- A hit: `memcpy` out of the array, and the key's node moves to the back.
pub get_hit : CacheKey → CacheEntry → ℕ → ℕ → CacheZone → Result (Bytes × CacheZone)
unfolding touch
get_hit key entry offset max z =
    let n = min (sub64 block_size offset) max in
    if ltb block_size (offset + n)
    then err memory_fault
    else let z' = touch key entry (record z { age = erase_node entry.it_age z.age }) in
      ok (tabulate n offset entry.content, record z' { hits = add64 z.hits 1 })

pub get_found : CacheKey → Option CacheEntry → ℕ → ℕ → CacheZone → Result (Bytes × CacheZone)
unfolding get_hit
get_found key none offset max z = ok ([], z)
get_found key (some entry) offset max z = get_hit key entry offset max z

unfoldable pub get : CacheKey → ℕ → ℕ → CacheZone → Result (Bytes × CacheZone)
unfolding get_found
get key offset max z =
    get_found key (find key z.cache) offset max (record z { queries = add64 z.queries 1 })

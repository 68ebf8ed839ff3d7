-- ===== src/Cache/Zone/Tests.antt =====
-- The cache zone at concrete inputs.
use mathlib.Core.List.{[], ◌∷◌, ◌++◌}
use darling_dmg.Common.{
  ℕ, suc, ◌-◌, min, ◌≡◌, refl, Bytes, tabulate, Result, ok, ◌>>=◌, some, if◌then◌else◌, arith,
  Bool-cases, inl, inr,
}
use darling_dmg.Cache.Zone.Table.{
  CacheKey, same_key, same_key-eq, find, put, erase, find_node, erase_node,
}
use darling_dmg.Cache.Zone.{CacheZone, init, store, get, set_max_blocks}
use darling_dmg.Cache.Zone.Eviction.{IsLinked, holds, blocks_without}
use darling_dmg.Cache.Zone.Linked
use darling_dmg.Cache.Zone.Linked.{block_of, Leaves, Hits, init-IsLinked, store-Leaves}

abbrev junk : ℕ → ℕ
junk i = 0xaa

abbrev key : ℕ → CacheKey
key n = (n, "f")

abbrev two : CacheZone
two = (store-Leaves junk (key 1) (7 ∷ []) (init 2) (omega arith) (init-IsLinked 2)).zone

two-IsLinked : IsLinked two
two-IsLinked = (store-Leaves junk (key 1) (7 ∷ []) (init 2) (omega arith) (init-IsLinked 2)).valid

-- Block 1 was used last, so storing a third block evicts block 2.
least_recent : Result (Bytes × Bytes × Bytes)
least_recent = do
  z1 ← store junk (key 1) (7 ∷ []) (init 2)
  z2 ← store junk (key 2) (8 ∷ []) z1
  (_, z3) ← get (key 1) 0 1 z2
  z4 ← store junk (key 3) (9 ∷ []) z3
  (a, z5) ← get (key 1) 0 1 z4
  (b, z6) ← get (key 2) 0 1 z5
  (c, z7) ← get (key 3) 0 2 z6
  ok (a, b, c)

least_recent_evicted : least_recent ≡ ok (7 ∷ [], [], 9 ∷ 0xaa ∷ [])
unfolding least_recent init store get find put erase erase_node same_key
least_recent_evicted = refl

-- A second store of a block keeps the first bytes.
stored_twice : Result Bytes
stored_twice = do
  z1 ← store junk (key 1) (7 ∷ []) (init 2)
  z2 ← store junk (key 1) (8 ∷ []) z1
  (a, _) ← get (key 1) 0 1 z2
  ok a

stored_twice_keeps : stored_twice ≡ ok (7 ∷ [])
unfolding stored_twice init store get find put erase erase_node same_key
stored_twice_keeps = refl

store-Leaves_example :
    Leaves 2
      ([] ++ (0, key 1) ∷ [])
      (λ d.
        if holds (key 1) d
        then blocks_without ((0, key 1) ∷ d) []
        else suc (blocks_without ((0, key 1) ∷ d) []))
      (λ k.
        if same_key (key 1) k
        then some (Linked.stored junk (7 ∷ []) (block_of (key 1) (init 2)))
        else block_of k (init 2))
      (store junk (key 1) (7 ∷ []) (init 2))
unfolding init
store-Leaves_example =
    Linked.store-Leaves junk (key 1) (7 ∷ []) (init 2) (omega arith) (init-IsLinked 2)

set_max_blocks-Leaves_example :
    Leaves 0 two.age (λ d. blocks_without d two.cache) (λ k. block_of k two) (set_max_blocks 0 two)
set_max_blocks-Leaves_example = Linked.set_max_blocks-Leaves 0 two two-IsLinked

-- A zone with one block, as a store makes it.
abbrev one : CacheZone
one = record (init 2) {
  cache = (key 1, record { it_age = 0; content = junk }) ∷ [];
  age = (0, key 1) ∷ [];
  next_node = 1;
}

one-IsLinked : IsLinked one
unfolding init
one-IsLinked = record {
  linked = λ k e h. elim (Bool-cases (same_key (key 1) k)) [
    | inl same ↦ unfold find find_node in ground (arith, same_key-eq (key 1) k same)
    | inr other ↦ absurd (unfold find in ground arith)
  ];
  fresh = λ i h. unfold find_node in ground arith;
}

get-Hits_example : Hits (key 1) (tabulate (min (4096 - 2) 3) 2 junk) one (get (key 1) 2 3 one)
unfolding find same_key
get-Hits_example = Linked.get-Hits (key 1) 2 3 one junk one-IsLinked (omega arith) refl

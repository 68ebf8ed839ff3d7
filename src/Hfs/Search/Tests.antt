-- ===== src/Hfs/Search/Tests.antt =====
-- A root with two leaves.
use darling_dmg.Common.{
  ℕ, zero, suc, ◌-◌, ◌≡◌, refl, ap, true, false, ltb, if◌then◌else◌, get_elem?, List, [], ◌∷◌, ◌++◌,
  Bytes, byte_at, drop, replicate, some, ok, err, out_of_fuel,
}
use darling_dmg.Io.{Reader, memory_reader}
use darling_dmg.Hfs.Node.{record_key, record_count, record_data, node_kind, read_node, number32}
use darling_dmg.Hfs.Search.{
  CompareResult, smaller, equal, greater, before_bound_of, bound, child_of, traverse_tree,
}
use darling_dmg.Hfs.Search.Bound.{passing, IsSplit, passes, none_left, HasKeys, bound-passing}
use darling_dmg.Hfs.Search.Descent

-- Keys of one byte, behind the length.
abbrev comp : Bytes → Bytes → CompareResult
comp a b =
    if ltb (byte_at a 2) (byte_at b 2)
    then smaller
    else if ltb (byte_at b 2) (byte_at a 2)
    then greater
    else equal

abbrev wanted : Bytes
wanted = 0 ∷ 1 ∷ 7 ∷ []

abbrev root : Bytes
root =
    0 ∷ 0 ∷ 0 ∷ 0 ∷ 0 ∷ 0 ∷ 0 ∷ 0 ∷ 0 ∷ 2 ∷ 0 ∷ 2 ∷ 0 ∷ 0 ∷ 0 ∷ 1 ∷ 1 ∷ 0 ∷ 0 ∷ 0 ∷ 1 ∷ 0 ∷ 1 ∷ 5
    ∷ 0 ∷ 0 ∷ 0 ∷ 2 ∷ 0 ∷ 21 ∷ 0 ∷ 14 ∷ []

abbrev leaf : ℕ → Bytes
leaf n = n ∷ replicate 7 0 ++ 0xff ∷ 1 ∷ replicate 22 0

abbrev disk : Reader
disk = memory_reader (root ++ leaf 1 ++ leaf 2)

to_second : traverse_tree comp wanted disk 32 false 2 0 ≡ ok (some (leaf 2))
unfolding traverse_tree memory_reader read_node node_kind record_count record_data number32
to_second = refl

-- With the wildcard an equal key is not passed.
to_first : traverse_tree comp (0 ∷ 1 ∷ 5 ∷ []) disk 32 true 2 0 ≡ ok (some (leaf 1))
unfolding traverse_tree memory_reader read_node node_kind record_count record_data number32
to_first = refl

abbrev keys : List Bytes
keys = drop 14 root ∷ drop 21 root ∷ []

key_of : (i : ℕ) (k : Bytes) → get_elem? keys i ≡ some k → record_key root i ≡ ok k
unfolding record_key
key_of zero k e = let same : drop 14 root ≡ k = cc in ap ok same
key_of (suc zero) k e = let same : drop 21 root ≡ k = cc in ap ok same
key_of (suc (suc i)) k e = absurd cc

root-HasKeys : HasKeys root keys
unfolding record_count
root-HasKeys = record { count = refl; at = key_of }

keys-IsSplit : IsSplit (before_bound_of comp wanted false) keys
unfolding before_bound_of
keys-IsSplit =
    passes (drop 14 root) (drop 21 root ∷ []) refl (passes (drop 21 root) [] refl none_left)

second-PointsTo :
    Descent.PointsTo comp wanted false disk 32 root
      (passing (before_bound_of comp wanted false) keys - 1)
      2
unfolding passing before_bound_of record_data number32
second-PointsTo = record { bytes = drop 24 root; behind_key = refl; pointer = refl }

root-LeadsTo : Descent.LeadsTo comp wanted false disk 32 1 0 (leaf 2)
unfolding read_node node_kind memory_reader
root-LeadsTo =
    Descent.through root keys refl refl root-HasKeys keys-IsSplit second-PointsTo
      (Descent.at_leaf (leaf 2) refl refl)

bound-passing_example :
    bound (before_bound_of comp wanted false) root
    ≡ ok (passing (before_bound_of comp wanted false) keys)
bound-passing_example =
    bound-passing (before_bound_of comp wanted false) root keys root-HasKeys keys-IsSplit

traverse_tree-LeadsTo_example : traverse_tree comp wanted disk 32 false 2 0 ≡ ok (some (leaf 2))
traverse_tree-LeadsTo_example =
    Descent.traverse_tree-LeadsTo comp wanted false disk 32 1 0 (leaf 2) root-LeadsTo

-- A root that is its own child.
abbrev looped : Bytes
looped =
    0 ∷ 0 ∷ 0 ∷ 0 ∷ 0 ∷ 0 ∷ 0 ∷ 0 ∷ 0 ∷ 2 ∷ 0 ∷ 1 ∷ 0 ∷ 0 ∷ 0 ∷ 1 ∷ 1 ∷ 0 ∷ 0 ∷ 0 ∷ 0 ∷ 0 ∷ 14 ∷ []

looped-IsLoop : Descent.IsLoop comp wanted false (memory_reader looped) 23 0
unfolding read_node node_kind memory_reader child_of record_count record_data number32
looped-IsLoop = record { node = looped; read = refl; kind = refl; child = refl }

traverse_tree-loop_example :
    traverse_tree comp wanted (memory_reader looped) 23 false 9 0 ≡ err out_of_fuel
traverse_tree-loop_example =
    Descent.traverse_tree-loop comp wanted false (memory_reader looped) 23 9 0 looped-IsLoop

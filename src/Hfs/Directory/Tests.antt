-- ===== src/Hfs/Directory/Tests.antt =====
-- A leaf with a thread and two files of different folders.
use mathlib.Core.Path.{subst}
use darling_dmg.Common.{
  Bool, ◌<◌, ℕ, zero, suc, ◌≡◌, refl, arith, false, none, some, get_elem?, List, [], ◌∷◌, Bytes,
  length, Result, ok,
}
use darling_dmg.Hfs.Node.{record_count, record_key, record_data}
use darling_dmg.Hfs.Node.Layout.{item_bytes, pack_node, to_be16}
use darling_dmg.Hfs.Names.{same_bytes}
use darling_dmg.Hfs.Search.{smaller}
use darling_dmg.Hfs.Directory.{id_only_comparator, append_leaf, find_in_folder, list_folder}
use darling_dmg.Hfs.Directory.Items.{CatalogItem, IsItem, layout_of}
use darling_dmg.Hfs.Directory.Collected

-- The low bytes of the units.
to_utf8 : Bytes → Bytes
to_utf8 (a ∷ b ∷ units) = b ∷ to_utf8 units
to_utf8 _ = []

abbrev thread : CatalogItem
thread = record { parent = 2; units = 0; name = []; rec_type = 3; fields = 9 ∷ [] }

abbrev file : CatalogItem
file = record {
  parent = 2;
  units = 2;
  name = 0 ∷ 0x61 ∷ 0 ∷ 0x2f ∷ [];
  rec_type = 2;
  fields = 7 ∷ [];
}

abbrev elsewhere : CatalogItem
elsewhere = record { parent = 5; units = 1; name = 0 ∷ 0x62 ∷ []; rec_type = 2; fields = 8 ∷ [] }

abbrev items : List CatalogItem
items = thread ∷ file ∷ elsewhere ∷ []

abbrev descriptor : Bytes
descriptor = 0 ∷ 0 ∷ 0 ∷ 0 ∷ 0 ∷ 0 ∷ 0 ∷ 0 ∷ 0xff ∷ 1 ∷ 0 ∷ 3 ∷ 0 ∷ 0 ∷ []

abbrev leaf : Bytes
leaf = pack_node descriptor (Collected.layouts items) []

abbrev exact : Bytes → Bytes → Bool
exact units name = same_bytes (to_utf8 units) name

abbrev only_leaf : ℕ → Result (List Bytes)
only_leaf cnid = ok (leaf ∷ [])

names_of : Result (List (Bytes × Bytes)) → List Bytes
names_of (ok ((n, ff) ∷ l)) = n ∷ names_of (ok l)
names_of _ = []

-- A slash in a name is shown as a colon.
listed : names_of (list_folder to_utf8 exact exact false only_leaf 2) ≡ (0x61 ∷ 0x3a ∷ []) ∷ []
unfolding list_folder pack_node Collected.layouts item_bytes to_be16 layout_of names_of to_utf8
    record_count record_key record_data
listed = refl

not_there : find_in_folder to_utf8 exact exact false only_leaf 2 (0x62 ∷ []) ≡ ok none
unfolding find_in_folder pack_node Collected.layouts item_bytes to_be16 layout_of to_utf8
    record_count record_key record_data
not_there = refl

by_id : id_only_comparator (0 ∷ 6 ∷ 0 ∷ 0 ∷ 0 ∷ 2 ∷ []) (0 ∷ 6 ∷ 0 ∷ 0 ∷ 0 ∷ 5 ∷ []) ≡ ok smaller
unfolding id_only_comparator
by_id = refl

items-IsItem : (i : ℕ) (x : CatalogItem) → get_elem? items i ≡ some x → IsItem x
items-IsItem zero x e =
    let same : thread ≡ x = cc in
    subst IsItem same (record {
      parent_small = omega arith;
      units_small = omega arith;
      type_small = omega arith;
      two_each = refl;
    })
items-IsItem (suc zero) x e =
    let same : file ≡ x = cc in
    subst IsItem same (record {
      parent_small = omega arith;
      units_small = omega arith;
      type_small = omega arith;
      two_each = refl;
    })
items-IsItem (suc (suc zero)) x e =
    let same : elsewhere ≡ x = cc in
    subst IsItem same (record {
      parent_small = omega arith;
      units_small = omega arith;
      type_small = omega arith;
      two_each = refl;
    })
items-IsItem (suc (suc (suc i))) x e = absurd cc

leaf_small : length leaf < 0x10000
unfolding pack_node item_bytes to_be16 layout_of Collected.layouts
leaf_small = omega arith

leaf_counted : record_count leaf ≡ ok 3
unfolding pack_node record_count Collected.layouts layout_of
leaf_counted = refl

append_leaf-CollectsTo_example :
    Collected.CollectsTo to_utf8 exact exact false 2 [] items []
      (append_leaf to_utf8 exact exact false 2 [] leaf [])
append_leaf-CollectsTo_example =
    Collected.append_leaf-CollectsTo to_utf8 exact exact false 2 [] descriptor [] items []
      leaf_small leaf_counted items-IsItem

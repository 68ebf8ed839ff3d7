-- ===== src/Hfs/Catalog/Tests.antt =====
-- Paths and times at concrete values.
use darling_dmg.Common.{
  ℕ, ◌≡◌, ◌+◌, ◌-◌, ◌<◌, ◌≤◌, refl, true, arith, [], ◌∷◌, Bytes, Option, none, some, Result, ok,
  if◌then◌else◌, ◌==◌,
}
use darling_dmg.Common.Word.{u32_mod}
use darling_dmg.Hfs.Catalog.{
  slash, split, path_elems, shown_name, stored_name, CatalogRecord, found, enoent, stat,
  apple_to_unix_time, apple_offset,
}
use darling_dmg.Hfs.Catalog.Paths
use darling_dmg.Hfs.Catalog.Paths.{AreNames, nothing, name, join, lacks}
use darling_dmg.Hfs.Catalog.Time

-- `/a//b/`.
elems :
    path_elems (0x2f ∷ 0x61 ∷ 0x2f ∷ 0x2f ∷ 0x62 ∷ 0x2f ∷ [])
    ≡ [] ∷ (0x61 ∷ []) ∷ [] ∷ (0x62 ∷ []) ∷ []
unfolding path_elems
elems = refl

abbrev root : CatalogRecord
root = record { folder_id = 2; file_type = 0; i_node_num = 0 }

abbrev link : CatalogRecord
link = record { folder_id = 20; file_type = 0x686C6E6B; i_node_num = 7 }

abbrev target : CatalogRecord
target = record { folder_id = 21; file_type = 0; i_node_num = 0 }

abbrev find : ℕ → Bytes → Result (Option CatalogRecord)
find parent n = ok (
    if parent == 1
    then some root
    else if parent == 2
    then some link
    else if parent == 9
    then some target
    else none)

-- A hard link leads to its inode.
link_followed : stat find (λ n. n ∷ []) 9 (0x2f ∷ 0x61 ∷ []) ≡ ok (found target)
unfolding stat
link_followed = refl

not_found : stat find (λ n. n ∷ []) 9 (0x2f ∷ 0x61 ∷ 0x2f ∷ 0x61 ∷ []) ≡ ok enoent
unfolding stat
not_found = refl

stored_name-shown_name_example :
    (stored_name (shown_name (0x61 ∷ 0x2f ∷ [])) ≡ 0x61 ∷ 0x2f ∷ [])
    × (lacks slash (shown_name (0x61 ∷ 0x2f ∷ [])) ≡ true)
unfolding lacks
stored_name-shown_name_example = Paths.stored_name-shown_name (0x61 ∷ 0x2f ∷ []) refl

split-join_example :
    split (join ((0x61 ∷ []) ∷ (0x62 ∷ 0x63 ∷ []) ∷ [])) slash
    ≡ (0x61 ∷ []) ∷ (0x62 ∷ 0x63 ∷ []) ∷ []
unfolding lacks
split-join_example =
    Paths.split-join ((0x61 ∷ []) ∷ (0x62 ∷ 0x63 ∷ []) ∷ [])
      (name refl (omega arith) (name refl (omega arith) nothing))

apple_to_unix_time-cases_example :
    (apple_to_unix_time 0 ≡ 0)
    × (apple_offset ≤ 5 → apple_to_unix_time 5 ≡ 5 - apple_offset)
    × (0 < 5 → 5 < apple_offset → apple_to_unix_time 5 ≡ 5 + u32_mod - apple_offset)
    × (apple_to_unix_time 5 < u32_mod)
apple_to_unix_time-cases_example = Time.apple_to_unix_time-cases 5 (omega arith)

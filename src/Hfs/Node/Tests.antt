-- ===== src/Hfs/Node/Tests.antt =====
-- A node with two records and four bytes of free space.
use darling_dmg.Common.{
  ◌≡◌, refl, arith, [], ◌∷◌, List, Bytes, ok, err, memory_fault, runtime_error,
}
use darling_dmg.Io.{memory_reader}
use darling_dmg.Hfs.Node.{index_node, read_node, node_kind, record_count, node_link, record_key}
use darling_dmg.Hfs.Node.Layout.{Item, pack_node, ReadsItem, pack_node-ReadsItem}

abbrev descriptor : Bytes
descriptor = 0 ∷ 0 ∷ 0 ∷ 9 ∷ 0 ∷ 0 ∷ 0 ∷ 0 ∷ 0 ∷ 2 ∷ 0 ∷ 2 ∷ 0 ∷ 0 ∷ []

abbrev second : Item
second = record { key = 5 ∷ 6 ∷ []; payload = 0 ∷ 0 ∷ 0 ∷ 2 ∷ [] }

abbrev items : List Item
items = record { key = 1 ∷ []; payload = 0 ∷ 0 ∷ 0 ∷ 1 ∷ [] } ∷ second ∷ []

abbrev free_space : Bytes
free_space = 7 ∷ 7 ∷ 7 ∷ 7 ∷ []

abbrev sample : Bytes
sample = pack_node descriptor items free_space

kind_test : node_kind sample ≡ ok index_node
unfolding node_kind pack_node
kind_test = refl

count_test : record_count sample ≡ ok 2
unfolding record_count pack_node
count_test = refl

link_test : node_link sample ≡ ok 9
unfolding node_link pack_node
link_test = refl

no_record : record_key (0 ∷ 0 ∷ []) 3 ≡ err memory_fault
unfolding record_key
no_record = refl

short_node : read_node (memory_reader (1 ∷ 2 ∷ 3 ∷ [])) 1 2 ≡ err runtime_error
unfolding read_node memory_reader
short_node = refl

pack_node-ReadsItem_example : ReadsItem sample 1 second
unfolding pack_node
pack_node-ReadsItem_example =
    pack_node-ReadsItem descriptor free_space items 1 second (omega arith) refl

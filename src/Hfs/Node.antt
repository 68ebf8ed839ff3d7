-- ===== src/Hfs/Node.antt =====
-- src/HFSBTreeNode.h: a node of a B-tree as its bytes. A pointer into the node is what is left of it from there on; a
-- read past its end is a memory fault.
pub mod Layout
mod Tests
use darling_dmg.Common.{
  ℕ, ◌+◌, ◌-◌, ◌*◌, ◌%◌, ltb, ◌==◌, if◌then◌else◌, Bytes, byte_at, length, drop, Result, ok, err,
  runtime_error, memory_fault, ◌>>=◌,
}
use darling_dmg.Common.Word.{u32_mod}
use darling_dmg.Endian.{be16_at, be32_at}
use darling_dmg.Io.{Reader}

pub data NodeKind : Type 0 where
  leaf_node index_node header_node map_node : NodeKind
  invalid_kind : ℕ → NodeKind

-- The values of the enumeration, whose type is int8_t.
unfoldable pub kind_of : ℕ → NodeKind
kind_of b =
    if b == 0xff
    then leaf_node
    else if b == 0
    then index_node
    else if b == 1
    then header_node
    else if b == 2
    then map_node
    else invalid_kind b

-- The constructor. The offset is the product of a uint16_t and a uint32_t.
unfoldable pub read_node : Reader → ℕ → ℕ → Result Bytes
read_node r index node_size = do
  bytes ← r.read node_size (node_size * index % u32_mod)
  if ltb (length bytes) node_size then err runtime_error else ok bytes

-- Numbers behind a pointer.
unfoldable pub number16 : Bytes → ℕ → Result ℕ
unfolding be16_at
number16 bytes i = if ltb (length bytes) (i + 2) then err memory_fault else ok (be16_at bytes i)

unfoldable pub number32 : Bytes → ℕ → Result ℕ
unfolding be32_at
number32 bytes i = if ltb (length bytes) (i + 4) then err memory_fault else ok (be32_at bytes i)

unfoldable pub node_kind : Bytes → Result NodeKind
unfolding kind_of
node_kind node = if ltb (length node) 9 then err memory_fault else ok (kind_of (byte_at node 8))

unfoldable pub record_count : Bytes → Result ℕ
unfolding number16
record_count node = number16 node 10

unfoldable pub node_link : Bytes → Result ℕ
unfolding number32
node_link node = number32 node 0

-- `getKey`: what stands behind the descriptor.
unfoldable pub first_record_key : Bytes → Bytes
first_record_key node = drop 14 node

-- `getRecordKey`: the offsets of the records stand at the end of the node, the last one first.
unfoldable pub record_key : Bytes → ℕ → Result Bytes
unfolding number16
record_key node index = do
  offset ←
      if ltb (length node) (2 * index + 2)
      then err memory_fault
      else number16 node (length node - (2 * index + 2))
  if ltb (length node) offset then err memory_fault else ok (drop offset node)

-- `getRecordData`: what stands behind the key.
unfoldable pub record_data : Bytes → ℕ → Result Bytes
unfolding record_key number16
record_data node index = do
  key ← record_key node index
  key_length ← number16 key 0
  if ltb (length key) (key_length + 2) then err memory_fault else ok (drop (key_length + 2) key)

-- ===== src/Hfs/Node/Layout.antt =====
-- An independent description of a node: a descriptor, the records one after the other, free space, and the offsets of
-- the records from the end of the node backwards.
use mathlib.Core.Path.{subst}
use mathlib.Core.List.{append_assoc}
use darling_dmg.Common.{
  ℕ, zero, suc, ◌+◌, ◌-◌, ◌*◌, ◌/◌, ◌%◌, ◌≤◌, ◌<◌, ◌≡◌, refl, sym, ap, ◌∙◌, arith, le→ltb, List, [],
  ◌∷◌, ◌++◌, length, get_elem?, drop, some, Bytes, byte_at, ok, length-append, byte_at-append_left,
  byte_at-append_right,
}
use darling_dmg.Endian.{be16_at}
use darling_dmg.Hfs.Node.{number16, record_key, record_data}

unfoldable pub to_be16 : ℕ → Bytes
to_be16 n = n / 0x100 % 0x100 ∷ n % 0x100 ∷ []

-- A record: its key with the length before it, and what stands behind the key.
pub record Item : Type 0 where
  pub key : Bytes
  pub payload : Bytes

unfoldable pub item_bytes : Item → Bytes
unfolding to_be16
item_bytes x = to_be16 (length x.key) ++ x.key ++ x.payload

pub items_bytes : List Item → Bytes
unfolding item_bytes
items_bytes [] = []
items_bytes (x ∷ xs) = item_bytes x ++ items_bytes xs

-- The offsets, from the one of the first item on.
pub offsets : ℕ → List Item → List ℕ
offsets start [] = []
offsets start (x ∷ xs) = start ∷ offsets (start + length (item_bytes x)) xs

pub table : List ℕ → Bytes
unfolding to_be16
table [] = []
table (o ∷ os) = table os ++ to_be16 o

unfoldable pub pack_node : Bytes → List Item → Bytes → Bytes
unfolding items_bytes offsets table
pack_node descriptor items free =
    descriptor ++ items_bytes items ++ free ++ table (offsets (length descriptor) items)

be16_at-end : (pre : Bytes) (n : ℕ) → n < 0x10000 → be16_at (pre ++ to_be16 n) (length pre) ≡ n
unfolding be16_at to_be16
be16_at-end pre n h =
    let a = byte_at-append_right pre (to_be16 n) 0 in
    let b = byte_at-append_right pre (to_be16 n) 1 in
    let a' : byte_at (pre ++ to_be16 n) (length pre) ≡ n / 0x100 % 0x100 =
      ap (byte_at (pre ++ to_be16 n)) (omega arith) ∙ a in
    omega (arith, a', b)

be16_at-append_left :
    (xs ys : Bytes) (i : ℕ) → i + 1 < length xs → be16_at (xs ++ ys) i ≡ be16_at xs i
unfolding be16_at
be16_at-append_left xs ys i h =
    omega (arith, byte_at-append_left xs ys i (omega arith), byte_at-append_left xs ys (i + 1) h)

length-table : (os : List ℕ) → length (table os) ≡ 2 * length os
unfolding table to_be16
length-table [] = refl
length-table (o ∷ os) = omega (arith, length-table os, length-append (table os) (to_be16 o))

-- The offset number `i` stands `2 * i + 2` bytes before the end.
get_elem?-lt : (os : List ℕ) (i o : ℕ) → get_elem? os i ≡ some o → i < length os
get_elem?-lt [] i o e = absurd cc
get_elem?-lt (x ∷ os) zero o e = omega arith
get_elem?-lt (x ∷ os) (suc i) o e = let h = get_elem?-lt os i o e in omega arith

table-at :
    (pre : Bytes) (os : List ℕ) (i o : ℕ)
    → get_elem? os i ≡ some o
    → o < 0x10000
    → be16_at (pre ++ table os) (length (pre ++ table os) - (2 * i + 2)) ≡ o
unfolding table
table-at pre [] i o e h = absurd (cc)
table-at pre (x ∷ os) zero o e h =
    let same : x ≡ o = cc in
    let total = length-append (pre ++ table os) (to_be16 x) in
    let here : length (pre ++ table os ++ to_be16 x) - (2 * 0 + 2) ≡ length (pre ++ table os) =
      unfold to_be16 in omega arith in
    subst (λ l. be16_at l (length l - (2 * 0 + 2)) ≡ o) (append_assoc pre (table os) (to_be16 x))
      (ap (be16_at (pre ++ table os ++ to_be16 x)) here
        ∙ be16_at-end (pre ++ table os) x (omega arith)
        ∙ same)
table-at pre (x ∷ os) (suc i) o e h =
    let total = length-append (pre ++ table os) (to_be16 x) in
    let sum = length-append pre (table os) in
    let entries = length-table os in
    let near = get_elem?-lt os i o e in
    let here : length (pre ++ table os ++ to_be16 x) - (2 * suc i + 2)
        ≡ length (pre ++ table os) - (2 * i + 2) =
      unfold to_be16 in omega arith in
    subst (λ l. be16_at l (length l - (2 * suc i + 2)) ≡ o)
      (append_assoc pre (table os) (to_be16 x))
      (ap (be16_at (pre ++ table os ++ to_be16 x)) here
        ∙ be16_at-append_left (pre ++ table os) (to_be16 x) (length (pre ++ table os) - (2 * i + 2))
            (omega arith)
        ∙ table-at pre os i o e h)

-- The item number `i` stands at its offset.
record Stands (start : ℕ) (items : List Item) (i : ℕ) (x : Item) : Type 0 where
  before : Bytes
  after : Bytes
  split : items_bytes items ≡ before ++ item_bytes x ++ after
  offset : get_elem? (offsets start items) i ≡ some (start + length before)

item-Stands :
    (start : ℕ) (items : List Item) (i : ℕ) (x : Item)
    → get_elem? items i ≡ some x
    → Stands start items i x
unfolding items_bytes offsets
item-Stands start [] i x e = absurd cc
item-Stands start (y ∷ items) zero x e =
    let same : y ≡ x = cc in
    record {
      before = [];
      after = items_bytes items;
      split = ap (λ z. item_bytes z ++ items_bytes items) same;
      offset = ap some (omega arith);
    }
item-Stands start (y ∷ items) (suc i) x e =
    let s = item-Stands (start + length (item_bytes y)) items i x e in
    record {
      before = item_bytes y ++ s.before;
      after = s.after;
      split =
          ap (λ l. item_bytes y ++ l) s.split
          ∙ sym (append_assoc (item_bytes y) (s.before ++ item_bytes x) s.after)
          ∙ ap (λ l. l ++ s.after) (sym (append_assoc (item_bytes y) s.before (item_bytes x)));
      offset = s.offset ∙ ap some (omega (arith, length-append (item_bytes y) s.before));
    }

drop-append : (a b : Bytes) → drop (length a) (a ++ b) ≡ b
drop-append [] b = refl
drop-append (x ∷ a) b = drop-append a b

regroup : (d b x a f t : Bytes) → d ++ (b ++ x ++ a) ++ f ++ t ≡ d ++ b ++ (x ++ (a ++ f ++ t))
regroup d b x a f t = simp append_assoc refl

regroup_item : (n k p r : Bytes) → n ++ k ++ p ++ r ≡ n ++ k ++ (p ++ r)
regroup_item n k p r = simp append_assoc refl

-- What is read of the record number `i`: the rest of the node from its key on, and from behind its key on.
pub record ReadsItem (node : Bytes) (i : ℕ) (x : Item) : Type 0 where
  pub rest : Bytes
  pub key_at : record_key node i ≡ ok (item_bytes x ++ rest)
  pub data_at : record_data node i ≡ ok (x.payload ++ rest)

key_length-item :
    (x : Item) (rest : Bytes)
    → length x.key < 0x10000
    → be16_at (item_bytes x ++ rest) 0 ≡ length x.key
unfolding be16_at item_bytes to_be16
key_length-item x rest h = omega arith

length-item : (x : Item) → length (item_bytes x) ≡ length x.key + length x.payload + 2
unfolding item_bytes to_be16
length-item x = omega (arith, length-append x.key x.payload)

drop-item :
    (x : Item) (rest : Bytes) → drop (length x.key + 2) (item_bytes x ++ rest) ≡ x.payload ++ rest
unfolding item_bytes
drop-item x rest =
    let key = length-append (to_be16 (length x.key)) x.key in
    let e : length x.key + 2 ≡ length (to_be16 (length x.key) ++ x.key) =
      unfold to_be16 in omega arith in
    ap (λ n. drop n (item_bytes x ++ rest)) e
    ∙ ap (drop (length (to_be16 (length x.key) ++ x.key)))
        (regroup_item (to_be16 (length x.key)) x.key x.payload rest)
    ∙ drop-append (to_be16 (length x.key) ++ x.key) (x.payload ++ rest)

record_data-item :
    (node : Bytes) (i : ℕ) (x : Item) (rest : Bytes)
    → length x.key < 0x10000
    → record_key node i ≡ ok (item_bytes x ++ rest)
    → record_data node i ≡ ok (x.payload ++ rest)
unfolding record_data number16
record_data-item node i x rest h e =
    let total = length-append (item_bytes x) rest in
    let item = length-item x in
    rw
      (
        e,
        le→ltb (length (item_bytes x ++ rest)) (0 + 2) (omega arith),
        key_length-item x rest h,
        le→ltb (length (item_bytes x ++ rest)) (length x.key + 2) (omega arith),
        drop-item x rest,
      )
      refl

record_key-at :
    (node : Bytes) (i o : ℕ) (rest : Bytes)
    → 2 * i + 2 ≤ length node
    → o ≤ length node
    → be16_at node (length node - (2 * i + 2)) ≡ o
    → drop o node ≡ rest
    → record_key node i ≡ ok rest
unfolding record_key number16
record_key-at node i o rest fits inside at e =
    rw
      (
        le→ltb (length node) (2 * i + 2) fits,
        le→ltb (length node) (length node - (2 * i + 2) + 2) (omega arith),
        at,
        le→ltb (length node) o inside,
        e,
      )
      refl

-- Of a node of less than 65536 bytes that is laid out this way, the key and the data of each record are found again: what
-- is read begins with them.
pub pack_node-ReadsItem :
    (descriptor free : Bytes) (items : List Item) (i : ℕ) (x : Item)
    → length (pack_node descriptor items free) < 0x10000
    → get_elem? items i ≡ some x
    → ReadsItem (pack_node descriptor items free) i x
unfolding pack_node
pack_node-ReadsItem d free items i x small e =
    let s = item-Stands (length d) items i x e in
    let node = pack_node d items free in
    let os = offsets (length d) items in
    let tail = s.after ++ free ++ table os in
    let near = get_elem?-lt os i (length d + length s.before) s.offset in
    let entries = length-table os in
    let whole : node ≡ d ++ s.before ++ (item_bytes x ++ tail) =
      ap (λ l. d ++ l ++ free ++ table os) s.split
      ∙ regroup d s.before (item_bytes x) s.after free (table os) in
    let l1 = length-append (d ++ items_bytes items ++ free) (table os) in
    let l2 = ap length whole in
    let l3 = length-append (d ++ s.before) (item_bytes x ++ tail) in
    let l4 = length-append d s.before in
    let l5 = length-append (item_bytes x) tail in
    let l6 = length-item x in
    let read =
      record_key-at node i (length d + length s.before) (item_bytes x ++ tail) (omega arith)
        (omega arith)
        (table-at (d ++ items_bytes items ++ free) os i (length d + length s.before) s.offset
          (omega arith))
        (ap (λ n. drop n node) (sym l4)
          ∙ ap (drop (length (d ++ s.before))) whole
          ∙ drop-append (d ++ s.before) (item_bytes x ++ tail)) in
    record {
      rest = tail;
      key_at = read;
      data_at = record_data-item node i x tail (omega arith) read;
    }

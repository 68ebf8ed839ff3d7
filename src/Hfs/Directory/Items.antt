-- ===== src/Hfs/Directory/Items.antt =====
-- An independent description of the records of a leaf: what each tells, and how it is laid out.
use darling_dmg.Common.{
  ℕ, zero, suc, ◌+◌, ◌*◌, ◌/◌, ◌%◌, ◌<◌, ◌≡◌, refl, ap, ◌∙◌, arith, le→ltb, [], ◌∷◌, ◌++◌, Bytes,
  length, take, ok, length-append,
}
use darling_dmg.Common.Word.{u32_mod}
use darling_dmg.Endian.{be16_at, be32_at}
use darling_dmg.Hfs.Node.{number16, number32}
use darling_dmg.Hfs.Node.Layout.{Item, item_bytes, to_be16}
use darling_dmg.Hfs.Directory.{parent_id, node_name}

pub record CatalogItem : Type 0 where
  pub parent : ℕ
  pub units : ℕ
  pub name : Bytes
  pub rec_type : ℕ
  pub fields : Bytes

pub record IsItem (x : CatalogItem) : Type 0 where
  pub parent_small : x.parent < u32_mod
  pub units_small : x.units < 0x10000
  pub type_small : x.rec_type < 0x10000
  pub two_each : length x.name ≡ 2 * x.units

pub to_be32 : ℕ → Bytes
to_be32 n = n / 0x1000000 % 0x100 ∷ n / 0x10000 % 0x100 ∷ n / 0x100 % 0x100 ∷ n % 0x100 ∷ []

unfoldable pub layout_of : CatalogItem → Item
unfolding to_be32
layout_of x = record {
  key = to_be32 x.parent ++ to_be16 x.units ++ x.name;
  payload = to_be16 x.rec_type ++ x.fields;
}

take-append : (n : ℕ) (a b : Bytes) → length a ≡ n → take n (a ++ b) ≡ a
take-append zero [] b e = refl
take-append zero (x ∷ a) b e = absurd (omega arith)
take-append (suc n) [] b e = absurd (omega arith)
take-append (suc n) (x ∷ a) b e = ap (◌∷◌ x) (take-append n a b (omega arith))

append_assoc : (a b c : Bytes) → a ++ b ++ c ≡ a ++ (b ++ c)
append_assoc [] b c = refl
append_assoc (x ∷ a) b c = ap (◌∷◌ x) (append_assoc a b c)

assoc_item : (k n p r : Bytes) → k ++ n ++ p ++ r ≡ k ++ (n ++ (p ++ r))
assoc_item k n p r = append_assoc (k ++ n) p r ∙ append_assoc k n (p ++ r)

-- A key, with what stands behind it.
pub key_of : CatalogItem → Bytes → Bytes
unfolding to_be32
key_of x rest =
    to_be16 (length (layout_of x).key)
    ++ (to_be32 x.parent ++ (to_be16 x.units ++ (x.name ++ rest)))

key_prefix : CatalogItem → Bytes → Bytes
unfolding to_be32
key_prefix x tail =
    to_be16 (length (layout_of x).key) ++ (to_be32 x.parent ++ (to_be16 x.units ++ tail))

pub item-key_of :
    (x : CatalogItem) (rest : Bytes)
    → item_bytes (layout_of x) ++ rest ≡ key_of x ((layout_of x).payload ++ rest)
unfolding item_bytes layout_of key_of key_prefix to_be16 to_be32
item-key_of x rest = ap (key_prefix x) (append_assoc x.name ((layout_of x).payload) rest)

be32_eq :
    (n : ℕ)
    → n < u32_mod
    → ((n / 0x1000000 % 0x100) * 0x100 + n / 0x10000 % 0x100) * 0x10000
        + ((n / 0x100 % 0x100) * 0x100 + n % 0x100)
      ≡ n
be32_eq n h = omega arith

be16_eq : (n : ℕ) → n < 0x10000 → (n / 0x100 % 0x100) * 0x100 + n % 0x100 ≡ n
be16_eq n h = omega arith

pub key-parent :
    (x : CatalogItem) (rest : Bytes) → IsItem x → parent_id (key_of x rest) ≡ ok x.parent
unfolding parent_id number32 be32_at be16_at key_of to_be16 to_be32
key-parent x rest v =
    rw (le→ltb (length (key_of x rest)) 6 (omega arith))
      (ap (λ n. ok n) (be32_eq x.parent v.parent_small))

pub key-node_name :
    (x : CatalogItem) (rest : Bytes) → IsItem x → node_name (key_of x rest) ≡ ok x.name
unfolding node_name number16 be16_at key_of to_be16 to_be32
key-node_name x rest v =
    let two_each = v.two_each in
    let total = length-append x.name rest in
    rw
      (
        le→ltb (length (key_of x rest)) 8 (omega arith),
        be16_eq x.units v.units_small,
        le→ltb (length (key_of x rest)) (2 * x.units + 8) (omega arith),
      )
      (ap (λ l. ok l) (take-append (2 * x.units) x.name rest two_each))

pub payload-type :
    (x : CatalogItem) (rest : Bytes)
    → IsItem x
    → number16 ((layout_of x).payload ++ rest) 0 ≡ ok x.rec_type
unfolding number16 be16_at layout_of to_be16
payload-type x rest v =
    rw (le→ltb (length ((layout_of x).payload ++ rest)) 2 (omega arith))
      (ap (λ n. ok n) (be16_eq x.rec_type v.type_small))

-- ===== src/Hfs/Directory/Collected.antt =====
-- What the loop over the records of a leaf collects.
use mathlib.Core.Path.{subst}
use darling_dmg.Common.{
  ℕ, zero, suc, ◌+◌, ◌<◌, ◌≡◌, refl, ap, Bool, true, false, ◌&&◌, ◌||◌, ◌∙◌, Option, none,
  Bool-cases, inl, inr, arith, if◌then◌else◌, ◌==◌, some, List, [], ◌∷◌, ◌++◌, Bytes, length,
  get_elem?, Result, ok,
}
use darling_dmg.Hfs.Node.{record_count}
use darling_dmg.Hfs.Names.{same_bytes}
use darling_dmg.Hfs.Names.Suffix.{same_bytes-eq, same_bytes_refl}
use darling_dmg.Hfs.Node.Layout.{Item, pack_node, ReadsItem, pack_node-ReadsItem}
use darling_dmg.Hfs.Directory.{
  Contents, put_name, without_name, is_entry_type, is_wanted, append_entry, append_record,
  append_from, append_leaf,
}
use darling_dmg.Hfs.Directory.Items.{
  CatalogItem, IsItem, layout_of, key_of, item-key_of, key-parent, key-node_name, payload-type,
}

unfoldable pub layouts : List CatalogItem → List Item
layouts [] = []
layouts (x ∷ xs) = layout_of x ∷ layouts xs

get_elem?-layouts :
    (xs : List CatalogItem) (i : ℕ) (x : CatalogItem)
    → get_elem? xs i ≡ some x
    → get_elem? (layouts xs) i ≡ some (layout_of x)
unfolding layouts
get_elem?-layouts [] i x e = absurd cc
get_elem?-layouts (y ∷ xs) zero x e = let same : y ≡ x = cc in ap (λ z. some (layout_of z)) same
get_elem?-layouts (y ∷ xs) (suc i) x e = get_elem?-layouts xs i x e

pub lookup : Bytes → Contents → Option Bytes
lookup name [] = none
lookup name ((n, ff) ∷ l) = if same_bytes n name then some ff else lookup name l

pub times : Bytes → Contents → ℕ
times name [] = 0
times name ((n, ff) ∷ l) = if same_bytes n name then suc (times name l) else times name l

-- A map in which a name has got a record: it stands there once, and all other names have what they had.
pub record Replaces (name ff : Bytes) (l l' : Contents) : Type 0 where
  pub now : lookup name l' ≡ some ff
  pub once : times name l' ≡ 1
  pub others : (n : Bytes) → same_bytes name n ≡ false → lookup n l' ≡ lookup n l

times-without_name : (name : Bytes) (l : Contents) → times name (without_name name l) ≡ 0
unfolding times without_name
times-without_name name [] = refl
times-without_name name ((n, ff) ∷ l) = elim (Bool-cases (same_bytes n name)) [
  | inl same ↦ rw same (times-without_name name l)
  | inr other ↦ rw (other, other) (times-without_name name l)
]

lookup-without_name :
    (name n : Bytes) (l : Contents)
    → same_bytes name n ≡ false
    → lookup n (without_name name l) ≡ lookup n l
unfolding lookup without_name
lookup-without_name name n [] h = refl
lookup-without_name name n ((k, ff) ∷ l) h = elim (Bool-cases (same_bytes k name)) [
  | inl same ↦
      let equal : same_bytes k n ≡ false =
        ap (λ x. same_bytes x n) (same_bytes-eq k name same) ∙ h in
      rw (same, equal) (lookup-without_name name n l h)
  | inr other ↦
      rw other (ap (λ o. if same_bytes k n then some ff else o) (lookup-without_name name n l h))
]

put_name-Replaces : (name ff : Bytes) (l : Contents) → Replaces name ff l (put_name name ff l)
unfolding put_name lookup times
put_name-Replaces name ff l = record {
  now = rw (same_bytes_refl name) refl;
  once = rw (same_bytes_refl name) (ap suc (times-without_name name l));
  others = λ n h. rw h (lookup-without_name name n l h);
}

module _ (to_utf8 : Bytes → Bytes) (equal_case equal_no_case : Bytes → Bytes → Bool)
    (case_sensitive : Bool) (cnid : ℕ) (name : Bytes) where
  -- A folder, which is a record of type 1, or a file, of type 2, in the wanted folder, with the wanted
  -- name if one is given. The threads are those of type 3 and 4.
  pub in_folder : CatalogItem → Bool
  in_folder x =
      (x.rec_type == 1 || x.rec_type == 2)
      && (x.parent == cnid && is_wanted to_utf8 equal_case equal_no_case case_sensitive name x.name)

  -- The map after some records: each that is wanted gets its name, in their order.
  pub data Collects : List CatalogItem → Contents → Contents → Type 0 where
    nothing_left : (l : Contents) → Collects [] l l
    passed_over :
        (x : CatalogItem) (xs : List CatalogItem) (l l' : Contents)
        → in_folder x ≡ false
        → Collects xs l l'
        → Collects (x ∷ xs) l l'
    collected :
        (x : CatalogItem) (xs : List CatalogItem) (rest : Bytes) (l m l' : Contents)
        → in_folder x ≡ true
        → Replaces (to_utf8 x.name) ((layout_of x).payload ++ rest) l m
        → Collects xs m l'
        → Collects (x ∷ xs) l l'

  pub record CollectsTo (xs : List CatalogItem) (l : Contents) (result : Result Contents)
      : Type 0 where
    pub l' : Contents
    pub returns : result ≡ ok l'
    pub collects : Collects xs l l'

  append_record-eq :
      (x : CatalogItem) (r1 r2 : Bytes) (l : Contents)
      → IsItem x
      → append_record to_utf8 equal_case equal_no_case case_sensitive cnid name
          (key_of x r1)
          ((layout_of x).payload ++ r2)
          l
        ≡ ok (if in_folder x then put_name (to_utf8 x.name) ((layout_of x).payload ++ r2) l else l)
  unfolding append_record append_entry in_folder
  append_record-eq x r1 r2 l v = elim (Bool-cases (is_entry_type x.rec_type)) [
    | inr other ↦ rw (payload-type x r2 v, other) refl
    | inl entry ↦ elim (Bool-cases (x.parent == cnid)) [
      | inr elsewhere ↦ rw (payload-type x r2 v, entry, key-parent x r1 v, elsewhere) refl
      | inl here ↦
          rw (payload-type x r2 v, entry, key-parent x r1 v, here, key-node_name x r1 v) refl
    ]
  ]

  module _ (node : Bytes) where
    step-CollectsTo :
        (rounds i : ℕ) (x : CatalogItem) (xs : List CatalogItem) (l : Contents)
        → IsItem x
        → ReadsItem node i (layout_of x)
        → ((l' : Contents)
            → CollectsTo xs l' (
                append_from to_utf8 equal_case equal_no_case case_sensitive cnid name node rounds
                  (i + 1)
                  l'))
        → CollectsTo (x ∷ xs) l (
            append_from to_utf8 equal_case equal_no_case case_sensitive cnid name node
              (suc rounds)
              i
              l)
    unfolding append_from
    step-CollectsTo rounds i x xs l v r go =
        rw
          (
            r.data_at,
            r.key_at,
            item-key_of x r.rest,
            append_record-eq x ((layout_of x).payload ++ r.rest) r.rest l v,
          )
          (elim (Bool-cases (in_folder x)) [
            | inl wanted ↦
                let more = go (put_name (to_utf8 x.name) ((layout_of x).payload ++ r.rest) l) in
                rw wanted (record {
                  l' = more.l';
                  returns = more.returns;
                  collects =
                      collected x xs r.rest l
                        (put_name (to_utf8 x.name) ((layout_of x).payload ++ r.rest) l) more.l'
                        wanted
                        (put_name-Replaces (to_utf8 x.name) ((layout_of x).payload ++ r.rest) l)
                        more.collects;
                })
            | inr other ↦
                let more = go l in
                rw other (record {
                  l' = more.l';
                  returns = more.returns;
                  collects = passed_over x xs l more.l' other more.collects;
                })
          ])

    append_from-CollectsTo :
        (xs : List CatalogItem) (i : ℕ) (l : Contents)
        → ((j : ℕ) (x : CatalogItem) → get_elem? xs j ≡ some x → IsItem x)
        → ((j : ℕ) (x : CatalogItem)
            → get_elem? xs j ≡ some x
            → ReadsItem node (i + j) (layout_of x))
        → CollectsTo xs l (
            append_from to_utf8 equal_case equal_no_case case_sensitive cnid name node
              (length xs)
              i
              l)
    unfolding append_from
    append_from-CollectsTo [] i l valid reads = record {
      l' = l;
      returns = refl;
      collects = nothing_left l;
    }
    append_from-CollectsTo (x ∷ xs) i l valid reads =
        step-CollectsTo (length xs) i x xs l (valid 0 x refl)
          (subst (λ n. ReadsItem node n (layout_of x)) (omega arith) (reads 0 x refl))
          (λ l'.
            append_from-CollectsTo xs (i + 1) l' (λ j y e. valid (suc j) y e)
              (λ j y e.
                subst (λ n. ReadsItem node n (layout_of y)) (omega arith) (reads (suc j) y e)))

  -- From a leaf of less than 65536 bytes that holds some records and tells their number, the files and folders are collected whose parent is the
  -- wanted folder and whose name is the wanted one, if one is given; the threads and all others are passed over. A later
  -- record replaces an earlier one of the same name.
  pub append_leaf-CollectsTo :
      (descriptor free : Bytes) (xs : List CatalogItem) (l : Contents)
      → length (pack_node descriptor (layouts xs) free) < 0x10000
      → record_count (pack_node descriptor (layouts xs) free) ≡ ok (length xs)
      → ((i : ℕ) (x : CatalogItem) → get_elem? xs i ≡ some x → IsItem x)
      → CollectsTo xs l (
          append_leaf to_utf8 equal_case equal_no_case case_sensitive cnid name
            (pack_node descriptor (layouts xs) free)
            l)
  unfolding append_leaf
  append_leaf-CollectsTo d free xs l small counted valid = rw counted (
      append_from-CollectsTo (pack_node d (layouts xs) free) xs 0 l valid (λ j x e.
        subst (λ n. ReadsItem (pack_node d (layouts xs) free) n (layout_of x)) (omega arith)
          (pack_node-ReadsItem d free (layouts xs) j (layout_of x) small
            (get_elem?-layouts xs j x e))))

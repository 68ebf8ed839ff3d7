-- ===== src/Cache/Zone/Table.antt =====
-- The two containers of a cache zone: the map from keys to entries, of which only `find` is seen, and
-- the list of numbered nodes.
use Prim.Native.String.{String}
use mathlib.Core.List.{List, [], ◌∷◌, ◌++◌}
use text.Mathlib.Text.{◌==◌ as str_eq}
use text.Mathlib.TextEquality.{eq_iff}
use darling_dmg.Common.{
  ℕ, ◌≡◌, refl, Option, none, some, Bool, true, false, ◌&&◌, arith, ◌==◌, ==_iff, if◌then◌else◌, ap,
  ◌∙◌, Bool-cases, inl, inr,
}

-- (blockId, vfile)
abbrev pub CacheKey : Type 0
CacheKey = ℕ × String

unfoldable pub same_key : CacheKey → CacheKey → Bool
same_key a b = a.0 == b.0 && str_eq a.1 b.1

pub same_key-eq : (a b : CacheKey) → same_key a b ≡ true → a ≡ b
unfolding same_key
same_key-eq (i, s) (j, t) h = ground (arith, eq_iff s t)

pub same_key_refl : (a : CacheKey) → same_key a a ≡ true
unfolding same_key
same_key_refl (i, s) = ground (arith, (eq_iff s s).1 refl)

pub same_key-sym : (a b : CacheKey) → same_key b a ≡ same_key a b
same_key-sym a b =
    ground (arith, same_key-eq a b, same_key-eq b a, same_key_refl a, same_key_refl b)

module _ {ℓ} {V : Type ℓ} where
  unfoldable pub find : CacheKey → List (CacheKey × V) → Option V
  find k [] = none
  find k ((j, v) ∷ l) = if same_key j k then some v else find k l

  unfoldable pub erase : CacheKey → List (CacheKey × V) → List (CacheKey × V)
  erase k [] = []
  erase k ((j, v) ∷ l) = let rest = erase k l in if same_key j k then rest else (j, v) ∷ rest

  unfoldable pub put : CacheKey → V → List (CacheKey × V) → List (CacheKey × V)
  unfolding erase
  put k v l = (k, v) ∷ erase k l

  pub find-erase :
      (k j : CacheKey) (l : List (CacheKey × V))
      → find j (erase k l) ≡ (if same_key k j then none else find j l)
  unfolding find erase
  find-erase k j [] = ground arith
  find-erase k j ((i, v) ∷ l) = ground (
    arith,
    find-erase k j l,
    same_key-eq i k,
    same_key-eq i j,
    same_key-eq k j,
    same_key_refl j,
    same_key_refl k,
  )

  pub find-put :
      (k j : CacheKey) (v : V) (l : List (CacheKey × V))
      → find j (put k v l) ≡ (if same_key k j then some v else find j l)
  unfolding find put
  find-put k j v l = ground (arith, find-erase k j l)

  pub find-eq-nil : (l : List (CacheKey × V)) → ((k : CacheKey) → find k l ≡ none) → l ≡ []
  unfolding find
  find-eq-nil [] h = refl
  find-eq-nil ((j, v) ∷ l) h = ground (arith, h j, same_key_refl j)

abbrev pub Node : Type 0
Node = ℕ × CacheKey

unfoldable pub find_node : ℕ → List Node → Option CacheKey
find_node i [] = none
find_node i ((j, k) ∷ l) = if j == i then some k else find_node i l

-- `list::erase` of an iterator.
unfoldable pub erase_node : ℕ → List Node → List Node
erase_node i [] = []
erase_node i ((j, k) ∷ l) = if j == i then l else (j, k) ∷ erase_node i l

-- A node, where it stands, and what erasing it leaves.
pub record StandsAt (i : ℕ) (k : CacheKey) (l : List Node) : Type 0 where
  pub before : List Node
  pub after : List Node
  pub whole : l ≡ before ++ (i, k) ∷ after
  pub erased : erase_node i l ≡ before ++ after

pub find_node-StandsAt :
    (i : ℕ) (k : CacheKey) (l : List Node) → find_node i l ≡ some k → StandsAt i k l
unfolding find_node erase_node
find_node-StandsAt i k [] h = absurd cc
find_node-StandsAt i k ((j, m) ∷ l) h = elim (Bool-cases (j == i)) [
  | inl here ↦
      let same_node : j ≡ i = (==_iff j i).0 here in
      let same_block : m ≡ k = ground (arith) in
      record {
        before = [];
        after = l;
        whole = ap (λ n. n ∷ l) (ap (λ x. (x, m)) same_node ∙ ap (λ x. (i, x)) same_block);
        erased = rw here refl;
      }
  | inr there ↦
      let rest = find_node-StandsAt i k l (ground arith) in
      record {
        before = (j, m) ∷ rest.before;
        after = rest.after;
        whole = ap (◌∷◌ (j, m)) rest.whole;
        erased = rw there (ap (◌∷◌ (j, m)) rest.erased);
      }
]

pub find_node-append :
    (i : ℕ) (k : CacheKey) (l : List Node)
    → find_node i l ≡ some k
    → (n : Node) → find_node i (l ++ n ∷ []) ≡ some k
unfolding find_node
find_node-append i k [] h n = ground arith
find_node-append i k ((j, m) ∷ l) h n =
    ground (arith, λ (p : find_node i l ≡ some k). find_node-append i k l p n)

pub find_node-append_new :
    (i : ℕ) (k : CacheKey) (l : List Node)
    → find_node i l ≡ none
    → find_node i (l ++ (i, k) ∷ []) ≡ some k
unfolding find_node
find_node-append_new i k [] h = ground arith
find_node-append_new i k ((j, m) ∷ l) h = ground (arith, find_node-append_new i k l)

pub find_node-append_ne :
    (i j : ℕ) (k : CacheKey) (l : List Node)
    → (j == i) ≡ false
    → find_node i (l ++ (j, k) ∷ []) ≡ find_node i l
unfolding find_node
find_node-append_ne i j k [] h = ground arith
find_node-append_ne i j k ((m, n) ∷ l) h = ground (arith, find_node-append_ne i j k l)

pub find_node-erase_ne :
    (i j : ℕ) (l : List Node) → (j == i) ≡ false → find_node i (erase_node j l) ≡ find_node i l
unfolding find_node erase_node
find_node-erase_ne i j [] h = refl
find_node-erase_ne i j ((m, n) ∷ l) h = ground (arith, find_node-erase_ne i j l)

pub find_node-erase_none :
    (i j : ℕ) (l : List Node) → find_node i l ≡ none → find_node i (erase_node j l) ≡ none
unfolding find_node erase_node
find_node-erase_none i j [] h = refl
find_node-erase_none i j ((m, n) ∷ l) h = ground (arith, find_node-erase_none i j l)

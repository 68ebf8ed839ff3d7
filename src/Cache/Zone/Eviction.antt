-- ===== src/Cache/Zone/Eviction.antt =====
-- The invariant that ties the two containers of a cache zone together, and what an eviction does.
use mathlib.Core.Path.{subst}
use mathlib.Core.List.{List, [], ◌∷◌, ◌++◌}
use darling_dmg.Common.{
  ℕ, suc, ◌<◌, ◌≤◌, ◌≡◌, ◌∙◌, refl, ap, none, some, Bool, true, false, ltb→lt, ◌||◌, arith, ltb,
  if◌then◌else◌, Bool-cases, Option-cases, inl, inr, length, Result, ok,
}
use darling_dmg.Cache.Zone.Table.{
  CacheKey, Node, same_key, same_key-sym, same_key_refl, find, put, erase, find-erase, find-eq-nil,
  find_node,
}
use darling_dmg.Cache.Zone.{CacheEntry, CacheZone, evict_loop}

-- Every entry's iterator points to a node of the list that holds the entry's key.
abbrev pub Linked : List Node → List (CacheKey × CacheEntry) → Type 0
Linked age cache =
    (k : CacheKey) (e : CacheEntry) → find k cache ≡ some e → find_node e.it_age age ≡ some k

pub record IsLinked (z : CacheZone) : Type 0 where
  pub linked : Linked z.age z.cache
  pub fresh : (i : ℕ) → z.next_node ≤ i → find_node i z.age ≡ none

abbrev pub holds : CacheKey → List Node → Bool
holds k [] = false
holds k ((i, j) ∷ l) = same_key j k || holds k l

-- The number of blocks whose key none of some nodes holds.
pub blocks_without : List Node → List (CacheKey × CacheEntry) → ℕ
blocks_without d [] = 0
blocks_without d ((k, e) ∷ l) = if holds k d then blocks_without d l else suc (blocks_without d l)

pub blocks_without-erase :
    (i : ℕ) (key : CacheKey) (d : List Node) (l : List (CacheKey × CacheEntry))
    → blocks_without d (erase key l) ≡ blocks_without ((i, key) ∷ d) l
unfolding blocks_without erase
blocks_without-erase i key d [] = refl
blocks_without-erase i key d ((k, e) ∷ l) = elim (Bool-cases (same_key k key)) [
  | inl same ↦ rw (same, same_key-sym k key ∙ same) (blocks_without-erase i key d l)
  | inr other ↦ elim (Bool-cases (holds k d)) [
    | inl held ↦ rw (other, same_key-sym k key ∙ other, held) (blocks_without-erase i key d l)
    | inr free ↦
        rw (other, same_key-sym k key ∙ other, free) (ap suc (blocks_without-erase i key d l))
  ]
]

pub blocks_without-put :
    (i : ℕ) (key : CacheKey) (entry : CacheEntry) (d : List Node) (l : List (CacheKey × CacheEntry))
    → blocks_without d (put key entry l) ≡ (
        if holds key d
        then blocks_without ((i, key) ∷ d) l
        else suc (blocks_without ((i, key) ∷ d) l))
unfolding put blocks_without
blocks_without-put i key entry d l =
    ap (λ n. if holds key d then n else suc n) (blocks_without-erase i key d l)

pub blocks_without_le :
    (d : List Node) (l : List (CacheKey × CacheEntry)) → blocks_without d l ≤ length l
unfolding blocks_without
blocks_without_le d [] = omega arith
blocks_without_le d ((k, e) ∷ l) = elim (Bool-cases (holds k d)) [
  | inl held ↦ rw held (omega (arith, blocks_without_le d l))
  | inr free ↦ rw free (omega (arith, blocks_without_le d l))
]

blocks_without-nil : (l : List (CacheKey × CacheEntry)) → blocks_without [] l ≡ length l
unfolding blocks_without
blocks_without-nil [] = refl
blocks_without-nil ((k, e) ∷ l) = ap suc (blocks_without-nil l)

-- `result` is a normal return that dropped the oldest nodes with their keys, and nothing else,
-- until at most `max` blocks were left.
pub record Evicts (max : ℕ) (age : List Node) (cache : List (CacheKey × CacheEntry))
    (result : Result (List Node × List (CacheKey × CacheEntry))) : Type 0 where
  pub age' : List Node
  pub cache' : List (CacheKey × CacheEntry)
  pub dropped : List Node
  pub returns : result ≡ ok (age', cache')
  pub bounded : length cache' ≤ max
  pub oldest_first : age ≡ dropped ++ age'
  pub kept : (k : CacheKey) → find k cache' ≡ (if holds k dropped then none else find k cache)
  pub still_linked : Linked age' cache'
  pub still_fresh : (i : ℕ) → find_node i age ≡ none → find_node i age' ≡ none
  pub lazy : (d e : List Node) (n : Node) → dropped ≡ d ++ n ∷ e → max < blocks_without d cache

Linked-empty : Linked [] []
unfolding find
Linked-empty k e h = ground arith

Linked-nil : (cache : List (CacheKey × CacheEntry)) → Linked [] cache → cache ≡ []
unfolding find_node
Linked-nil cache linked = find-eq-nil cache (λ k. elim (Option-cases (find k cache)) [
  | inl e ↦ e
  | inr (e, h) ↦ ground (arith, linked k e h)
])

Linked-erase :
    (i : ℕ) (key : CacheKey) (age : List Node) (cache : List (CacheKey × CacheEntry))
    → Linked ((i, key) ∷ age) cache
    → Linked age (erase key cache)
unfolding find_node
Linked-erase i key age cache linked k e h =
    ground (arith, find-erase key k cache, linked k e, same_key_refl k)

pub nil-append : (d e : List Node) (n : Node) → [] ≡ d ++ n ∷ e → ⊥
nil-append [] e n h = cc
nil-append (m ∷ d) e n h = cc

cons-lazy :
    (max i : ℕ) (key : CacheKey) (dropped : List Node) (cache : List (CacheKey × CacheEntry))
    → ltb max (length cache) ≡ true
    → ((d e : List Node) (n : Node)
        → dropped ≡ d ++ n ∷ e
        → max < blocks_without d (erase key cache))
    → (d e : List Node) (n : Node) → (i, key) ∷ dropped ≡ d ++ n ∷ e
    → max < blocks_without d cache
cons-lazy max i key dropped cache more later [] e n h =
    omega (arith, ltb→lt max (length cache) more, blocks_without-nil cache)
cons-lazy max i key dropped cache more later (m ∷ d) e n h =
    let same : (i, key) ≡ m = cc in
    let rest : dropped ≡ d ++ n ∷ e = cc in
    subst (λ x. max < blocks_without (x ∷ d) cache) same
      (omega (arith, later d e n rest, blocks_without-erase i key d cache))

pub evict_loop-Evicts :
    (max : ℕ) (age : List Node) (cache : List (CacheKey × CacheEntry))
    → Linked age cache
    → Evicts max age cache (evict_loop max age cache)
unfolding evict_loop
evict_loop-Evicts max [] cache linked = rw (Linked-nil cache linked) (record {
  age' = [];
  cache' = [];
  dropped = [];
  returns = ground arith;
  bounded = omega arith;
  oldest_first = refl;
  kept = λ k. refl;
  still_linked = Linked-empty;
  still_fresh = λ i h. h;
  lazy = λ d e n h. absurd (nil-append d e n h);
})
evict_loop-Evicts max ((i, key) ∷ age) cache linked = elim (Bool-cases (ltb max (length cache))) [
  | inl more ↦
      let rest =
        evict_loop-Evicts max age (erase key cache) (Linked-erase i key age cache linked) in
      record {
        age' = rest.age';
        cache' = rest.cache';
        dropped = (i, key) ∷ rest.dropped;
        returns = rw more rest.returns;
        bounded = rest.bounded;
        oldest_first = ap (◌∷◌ (i, key)) rest.oldest_first;
        kept = λ k. ground (arith, rest.kept k, find-erase key k cache);
        still_linked = rest.still_linked;
        still_fresh = λ j h. rest.still_fresh j (unfold find_node in ground arith);
        lazy = λ d e n h. cons-lazy max i key rest.dropped cache more rest.lazy d e n h;
      }
  | inr done ↦ record {
    age' = (i, key) ∷ age;
    cache' = cache;
    dropped = [];
    returns = rw done;
    bounded = ground arith;
    oldest_first = refl;
    kept = λ k. refl;
    still_linked = linked;
    still_fresh = λ j h. h;
    lazy = λ d e n h. absurd (nil-append d e n h);
  }
]

-- ===== src/Cache/Zone/Linked.antt =====
-- The operations of a cache zone on linked containers: none fails, and what each changes.
use mathlib.Core.List.{List, [], ◌∷◌, ◌++◌}
use mathlib.Core.Option
use darling_dmg.Common.{
  ℕ, suc, ◌+◌, ◌-◌, ◌≤◌, ◌<◌, ◌≡◌, refl, ap, ◌∙◌, Option, none, some, false, arith, ltb,
  if◌then◌else◌, Bool-cases, Option-cases, inl, inr, Bytes, length, tabulate, Result, ok, min,
  ltb→le, le→ltb,
}
use darling_dmg.Common.Word.{add64, sub64}
use darling_dmg.Io.{block_size}
use darling_dmg.Cache.Zone.Table.{
  CacheKey, Node, same_key, same_key-eq, same_key_refl, find, find-put, find_node, erase_node,
  find_node-StandsAt, find_node-append, find_node-append_new, find_node-append_ne,
  find_node-erase_ne, find_node-erase_none,
}
use darling_dmg.Cache.Zone.{
  CacheEntry, CacheZone, init, filled, inserted, touch, evict_cache, evict_if_full, set_max_blocks,
  store, get, get_found, get_hit,
}
use darling_dmg.Cache.Zone.Eviction.{
  IsLinked, holds, blocks_without, blocks_without-put, nil-append, evict_loop-Evicts,
}

-- The cached block of a key.
abbrev pub block_of : CacheKey → CacheZone → Option (ℕ → ℕ)
block_of k z = Option.map (λ e. e.content) (find k z.cache)

pub init-IsLinked : (max : ℕ) → IsLinked (init max)
unfolding init find find_node
init-IsLinked max = record { linked = λ k e h. ground arith; fresh = λ i h. refl }

-- Both `store` and `get` end by moving a key to the back of the list. `age` is the list without the
-- node that the entry had, and `entry` the entry that goes (back) into the map.
touch-IsLinked :
    (key : CacheKey) (entry : CacheEntry) (z : CacheZone) (age : List Node)
    → IsLinked z
    → ((i : ℕ) → z.next_node ≤ i → find_node i age ≡ none)
    → ((k : CacheKey) (e : CacheEntry)
        → same_key key k ≡ false
        → find k z.cache ≡ some e
        → find_node e.it_age age ≡ some k)
    → IsLinked (touch key entry (record z { age = age }))
unfolding touch
touch-IsLinked key entry z age v fresh others = record {
  linked = λ k e h. elim (Bool-cases (same_key key k)) [
    | inl same ↦ ground (
      arith,
      find-put key k (record entry { it_age = z.next_node }) z.cache,
      same_key-eq key k same,
      find_node-append_new z.next_node key age,
      fresh z.next_node,
    )
    | inr other ↦ ground (
      arith,
      find-put key k (record entry { it_age = z.next_node }) z.cache,
      others k e other,
      λ (p : find_node e.it_age age ≡ some k). find_node-append e.it_age k age p (z.next_node, key),
    )
  ];
  fresh = λ i h. ground (arith, find_node-append_ne i z.next_node key age, fresh i);
}

block_of-touch :
    (key k : CacheKey) (entry : CacheEntry) (z : CacheZone)
    → block_of k (touch key entry z) ≡ (if same_key key k then some entry.content else block_of k z)
unfolding touch
block_of-touch key k entry z =
    ground (arith, find-put key k (record entry { it_age = z.next_node }) z.cache)

-- `result` is a normal return with a linked zone of at most `max` blocks, from which the oldest nodes
-- `dropped` of `age` went, and whose blocks are those of `blocks` that no dropped node held. None of
-- them went before it had to: `without d` is the number of blocks there are without those that the
-- nodes `d` hold, and it was over the limit when the node behind `d` went.
pub record Leaves (max : ℕ) (age : List Node) (without : List Node → ℕ)
    (blocks : CacheKey → Option (ℕ → ℕ)) (result : Result CacheZone) : Type 0 where
  pub zone : CacheZone
  pub dropped : List Node
  pub returns : result ≡ ok zone
  pub valid : IsLinked zone
  pub limit : zone.max_blocks ≡ max
  pub bounded : length zone.cache ≤ max
  pub oldest_first : age ≡ dropped ++ zone.age
  pub readable : (k : CacheKey) → block_of k zone ≡ (if holds k dropped then none else blocks k)
  pub lazy : (d e : List Node) (n : Node) → dropped ≡ d ++ n ∷ e → max < without d

evict_cache-Leaves :
    (z : CacheZone)
    → IsLinked z
    → Leaves z.max_blocks z.age (λ d. blocks_without d z.cache) (λ k. block_of k z) (evict_cache z)
unfolding evict_cache
evict_cache-Leaves z v =
    let e = evict_loop-Evicts z.max_blocks z.age z.cache v.linked in
    record {
      zone = record z { cache = e.cache'; age = e.age' };
      dropped = e.dropped;
      returns = rw e.returns;
      valid = record { linked = e.still_linked; fresh = λ i h. e.still_fresh i (v.fresh i h) };
      limit = refl;
      bounded = e.bounded;
      oldest_first = e.oldest_first;
      readable = λ k. ground (arith, e.kept k);
      lazy = e.lazy;
    }

-- A smaller limit evicts the oldest blocks down to it; the rest stays readable.
pub set_max_blocks-Leaves :
    (max : ℕ) (z : CacheZone)
    → IsLinked z
    → Leaves max z.age (λ d. blocks_without d z.cache) (λ k. block_of k z) (set_max_blocks max z)
unfolding set_max_blocks
set_max_blocks-Leaves max z v =
    evict_cache-Leaves (record z { max_blocks = max })
      (record { linked = v.linked; fresh = v.fresh })

evict_if_full-Leaves :
    (z : CacheZone)
    → IsLinked z
    → Leaves z.max_blocks z.age
        (λ d. blocks_without d z.cache)
        (λ k. block_of k z)
        (evict_if_full z)
unfolding evict_if_full
evict_if_full-Leaves z v = elim (Bool-cases (ltb z.max_blocks (length z.cache))) [
  | inl more ↦ rw more (evict_cache-Leaves z v)
  | inr fits ↦ rw fits (record {
    zone = z;
    dropped = [];
    returns = refl;
    valid = v;
    limit = refl;
    bounded = ltb→le _ _ fits;
    oldest_first = refl;
    readable = λ k. refl;
    lazy = λ d e n h. absurd (nil-append d e n h);
  })
]

Leaves-ext :
    (max : ℕ) (age : List Node) (m n : List Node → ℕ) (f g : CacheKey → Option (ℕ → ℕ))
    (r : Result CacheZone)
    → Leaves max age m f r
    → ((d : List Node) → m d ≡ n d)
    → ((k : CacheKey) → f k ≡ g k)
    → Leaves max age n g r
Leaves-ext max age m n f g r l c e = record {
  zone = l.zone;
  dropped = l.dropped;
  returns = l.returns;
  valid = l.valid;
  limit = l.limit;
  bounded = l.bounded;
  oldest_first = l.oldest_first;
  readable = λ k. l.readable k ∙ ap (λ b. if holds k l.dropped then none else b) (e k);
  lazy = λ d e' x h. omega (arith, l.lazy d e' x h, c d);
}

-- What a store leaves under its key: what was there, or else the new bytes.
abbrev pub stored : (ℕ → ℕ) → Bytes → Option (ℕ → ℕ) → ℕ → ℕ
stored undef bytes none = filled bytes undef
stored undef bytes (some old) = old

content-inserted :
    (undef : ℕ → ℕ) (bytes : Bytes) (o : Option CacheEntry)
    → some (inserted o (record { it_age = 0; content = filled bytes undef })).content
      ≡ some (stored undef bytes (Option.map (λ e. e.content) o))
unfolding inserted
content-inserted undef bytes none = refl
content-inserted undef bytes (some e) = refl

-- Storing a block of at most 4096 bytes never fails. It adds a node for the key at the back and evicts
-- from the front, while there are more blocks than the limit. A block that no evicted node holds then
-- reads as before, the block of the key as the new bytes if it was not there.
pub store-Leaves :
    (undef : ℕ → ℕ) (key : CacheKey) (bytes : Bytes) (z : CacheZone)
    → length bytes ≤ block_size
    → IsLinked z
    → Leaves z.max_blocks
        (z.age ++ (z.next_node, key) ∷ [])
        (λ d.
          if holds key d
          then blocks_without ((z.next_node, key) ∷ d) z.cache
          else suc (blocks_without ((z.next_node, key) ∷ d) z.cache))
        (λ k. if same_key key k then some (stored undef bytes (block_of key z)) else block_of k z)
        (store undef key bytes z)
unfolding store
store-Leaves undef key bytes z fits v =
    let entry : CacheEntry = record { it_age = 0; content = filled bytes undef } in
    let old = inserted (find key z.cache) entry in
    let z' = touch key old z in
    rw (le→ltb block_size (length bytes) fits) (
      Leaves-ext z.max_blocks _ (λ d. blocks_without d z'.cache) _ (λ k. block_of k z') _ _
        (evict_if_full-Leaves z'
          (touch-IsLinked key old z z.age v v.fresh (λ k e _ h. v.linked k e h)))
        (λ d.
          unfold touch in
          blocks_without-put z.next_node key (record old { it_age = z.next_node }) d z.cache)
        (λ k.
          block_of-touch key k old z
          ∙ ap (λ b. if same_key key k then b else block_of k z)
              (content-inserted undef bytes (find key z.cache))))

-- A miss gives no bytes and changes no block.
pub get_miss :
    (key : CacheKey) (offset max : ℕ) (z : CacheZone)
    → block_of key z ≡ none
    → get key offset max z ≡ ok ([], record z { queries = add64 z.queries 1 })
unfolding get
get_miss key offset max z h = ground arith

-- `result` is a normal return of the bytes of a block, in a linked zone with the same blocks, in which
-- the node of the key's entry has gone from its place and a new one of the key stands at the back: the
-- key has become the last to be evicted, the order of the others is as it was.
pub record Hits (key : CacheKey) (bytes : Bytes) (z : CacheZone)
    (result : Result (Bytes × CacheZone)) : Type 0 where
  pub zone : CacheZone
  pub returns : result ≡ ok (bytes, zone)
  pub valid : IsLinked zone
  pub limit : zone.max_blocks ≡ z.max_blocks
  pub same : (k : CacheKey) → block_of k zone ≡ block_of k z
  pub entry : CacheEntry
  pub found : find key z.cache ≡ some entry
  pub before : List Node
  pub after : List Node
  pub stood : z.age ≡ before ++ (entry.it_age, key) ∷ after
  pub moved : zone.age ≡ (before ++ after) ++ (z.next_node, key) ∷ []

Linked-erase_node :
    (key k : CacheKey) (entry e : CacheEntry) (z : CacheZone)
    → IsLinked z
    → find key z.cache ≡ some entry
    → same_key key k ≡ false
    → find k z.cache ≡ some e
    → find_node e.it_age (erase_node entry.it_age z.age) ≡ some k
Linked-erase_node key k entry e z v hit other h = ground (
  arith,
  find_node-erase_ne e.it_age entry.it_age z.age,
  v.linked k e h,
  v.linked key entry hit,
  same_key_refl k,
)

get_hit-Hits :
    (key : CacheKey) (entry : CacheEntry) (offset max : ℕ) (z : CacheZone)
    → IsLinked z
    → offset ≤ block_size
    → find key z.cache ≡ some entry
    → Hits key
        (tabulate (min (block_size - offset) max) offset entry.content)
        z
        (get_found key (some entry) offset max (record z { queries = add64 z.queries 1 }))
unfolding get_found get_hit
get_hit-Hits key entry offset max z v h hit =
    let age = erase_node entry.it_age z.age in
    let place = find_node-StandsAt entry.it_age key z.age (v.linked key entry hit) in
    let z' = touch key entry (record z { age = age; queries = add64 z.queries 1 }) in
    let linked : IsLinked z' =
      touch-IsLinked key entry (record z { queries = add64 z.queries 1 }) age
        (record { linked = v.linked; fresh = v.fresh })
        (λ i p. find_node-erase_none i entry.it_age z.age (v.fresh i p))
        (λ k e other p. Linked-erase_node key k entry e z v hit other p) in
    let n : min (sub64 block_size offset) max ≡ min (block_size - offset) max = omega arith in
    record {
      zone = record z' { hits = add64 z.hits 1 };
      returns = rw (n, le→ltb block_size (offset + min (block_size - offset) max) (omega arith));
      valid = record { linked = linked.linked; fresh = linked.fresh };
      limit = refl;
      same = λ k.
          block_of-touch key k entry (record z { age = age }) ∙ ground (arith, same_key-eq key k);
      entry = entry;
      found = hit;
      before = place.before;
      after = place.after;
      stood = place.whole;
      moved = ap (λ l. l ++ (z.next_node, key) ∷ []) place.erased;
    }

-- A hit gives the bytes of the block from `offset` on, up to its end, and moves the key to
-- the back: its node leaves its place, the others keep their order, and no block changes.
pub get-Hits :
    (key : CacheKey) (offset max : ℕ) (z : CacheZone) (content : ℕ → ℕ)
    → IsLinked z
    → offset ≤ block_size
    → block_of key z ≡ some content
    → Hits key (tabulate (min (block_size - offset) max) offset content) z (get key offset max z)
unfolding get
get-Hits key offset max z content v h found = elim (Option-cases (find key z.cache)) [
  | inl miss ↦ absurd (ground arith)
  | inr (e, hit) ↦
      let same : e.content ≡ content = ground arith in
      rw (hit, ← same) (get_hit-Hits key e offset max z v h hit)
]

pub init-block_of : (k : CacheKey) (max : ℕ) → block_of k (init max) ≡ none
unfolding init find
init-block_of k max = refl

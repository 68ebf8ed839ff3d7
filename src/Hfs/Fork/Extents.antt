-- ===== src/Hfs/Fork/Extents.antt =====
-- What the extents of a fork hold.
use darling_dmg.Common.{
  ℕ, ◌+◌, ◌-◌, ◌*◌, ◌≤◌, ◌<◌, ◌≡◌, ◌≢◌, refl, ap, false, some, arith, ltb, le→ltb, if◌then◌else◌,
  ◌==◌, List, [], ◌∷◌, ◌++◌, length, get_elem?, drop, ok,
}
use darling_dmg.Common.Word.{u32_mod, size_limit}
use darling_dmg.Io.Serves.{Serves}
use darling_dmg.Hfs.Overflow.{Extent}
use darling_dmg.Hfs.Fork.{ForkFile}

unfoldable pub blocks : List Extent → ℕ
blocks [] = 0
blocks (e ∷ es) = e.block_count + blocks es

-- The byte at a place of a fork whose extents these are, on a volume that holds `content`.
unfoldable pub fork_byte : (ℕ → ℕ) → ℕ → List Extent → ℕ → ℕ
fork_byte content size [] p = 0
fork_byte content size (e ∷ es) p =
    let rest = fork_byte content size es (p - e.block_count * size) in
    if ltb p (e.block_count * size) then content (e.start_block * size + p) else rest

-- Every extent has blocks, and they lie on the volume.
pub data AreOn (volume_size size : ℕ) : List Extent → Type 0 where
  all_on : AreOn volume_size size []
  on :
      {e : Extent} {es : List Extent}
      → 0 < e.block_count
      → (e.start_block + e.block_count) * size ≤ volume_size
      → AreOn volume_size size es
      → AreOn volume_size size (e ∷ es)

pub append_assoc : (a b c : List Extent) → (a ++ b) ++ c ≡ a ++ (b ++ c)
append_assoc [] b c = refl
append_assoc (x ∷ a) b c = ap (◌∷◌ x) (append_assoc a b c)

pub append_nil : (a : List Extent) → a ++ [] ≡ a
append_nil [] = refl
append_nil (x ∷ a) = ap (◌∷◌ x) (append_nil a)

pub blocks-append : (a b : List Extent) → blocks (a ++ b) ≡ blocks a + blocks b
unfolding blocks
blocks-append [] b = omega arith
blocks-append (x ∷ a) b = omega (arith, blocks-append a b)

pub get_elem?-append :
    (a : List Extent) (e : Extent) (b : List Extent) → get_elem? (a ++ e ∷ b) (length a) ≡ some e
get_elem?-append [] e b = refl
get_elem?-append (x ∷ a) e b = get_elem?-append a e b

pub drop-append : (a b : List Extent) → drop (length a) (a ++ b) ≡ b
drop-append [] b = refl
drop-append (x ∷ a) b = drop-append a b

pub fork_byte-skip :
    (content : ℕ → ℕ) (size : ℕ) (a b : List Extent) (k : ℕ)
    → fork_byte content size (a ++ b) (blocks a * size + k) ≡ fork_byte content size b k
unfolding fork_byte blocks
fork_byte-skip content size [] b k = ap (fork_byte content size b) (omega arith)
fork_byte-skip content size (e ∷ a) b k =
    let past : e.block_count * size ≤ (e.block_count + blocks a) * size + k = omega arith in
    let left : (e.block_count + blocks a) * size + k - e.block_count * size ≡ blocks a * size + k =
      omega arith in
    rw (le→ltb ((e.block_count + blocks a) * size + k) (e.block_count * size) past, left)
      (fork_byte-skip content size a b k)

pub AreOn-head :
    (v size : ℕ) (a : List Extent) (e : Extent) (b : List Extent)
    → AreOn v size (a ++ e ∷ b)
    → (0 < e.block_count) × ((e.start_block + e.block_count) * size ≤ v)
AreOn-head v size [] e b (on pos fit rest) = (pos, fit)
AreOn-head v size (x ∷ a) e b (on pos fit rest) = AreOn-head v size a e b rest

-- A fork with the extents `all` on a good volume. If there are more than the eight that the catalog record
-- has room for, the search of the overflow file for the blocks behind these eight appends the others.
pub record IsFork (f : ForkFile) (content : ℕ → ℕ) (all : List Extent) : Type 0 where
  pub serves : Serves f.volume content
  pub has_size : 0 < f.block_size
  pub on_volume : AreOn f.volume.size f.block_size all
  pub few : blocks all < u32_mod
  pub small : f.logical_size < size_limit
  pub long : f.logical_size ≤ blocks all * f.block_size
  pub finds :
      (extents : List Extent) (e : Extent) (rest : List Extent)
      → extents ++ e ∷ rest ≡ all
      → length extents ≡ 8
      → (f.find_extents f.cnid f.resource_fork (blocks extents) extents ≡ ok all)
        × ((f.cnid == 0) ≡ false)

-- The extents that a fork keeps: all, or the eight of the catalog record.
pub record IsKept (all extents : List Extent) : Type 0 where
  pub rest : List Extent
  pub whole : extents ++ rest ≡ all
  pub full : rest ≢ [] → length extents ≡ 8

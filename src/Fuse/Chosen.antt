-- ===== src/Fuse/Chosen.antt =====
-- The partition that a volume is opened from.
use mathlib.Core.Path.{subst}
use darling_dmg.Common.{
  ℕ, zero, suc, ◌+◌, ◌<◌, ◌≡◌, refl, sym, ap, ◌∙◌, Bool-cases, inl, inr, true, false, arith, Option,
  none, some, List, [], ◌∷◌, get_elem?, Result, ok, err, function_not_implemented_error,
}
use darling_dmg.Io.{Reader}
use darling_dmg.Gpt.{Partition}
use darling_dmg.Fuse.{ImageKind, is_hfs_type, part_index, partition_volume}

-- The number `base + i` is that of the first partition with an HFS+ type, or there is none.
pub data Picks (base : ℕ) (parts : List Partition) : Option ℕ → Type 0 where
  first_of_type :
      (i : ℕ) (part : Partition)
      → get_elem? parts i ≡ some part
      → is_hfs_type part.part_type ≡ true
      → ((j : ℕ) (other : Partition)
          → j < i
          → get_elem? parts j ≡ some other
          → is_hfs_type other.part_type ≡ false)
      → Picks base parts (some (base + i))
  none_of_type :
      ((j : ℕ) (other : Partition)
        → get_elem? parts j ≡ some other
        → is_hfs_type other.part_type ≡ false)
      → Picks base parts none

none_before :
    (part : Partition) (parts : List Partition)
    → is_hfs_type part.part_type ≡ false
    → (j : ℕ) (other : Partition)
    → ((k : ℕ) → j ≡ suc k → get_elem? parts k ≡ some other → is_hfs_type other.part_type ≡ false)
    → get_elem? (part ∷ parts) j ≡ some other
    → is_hfs_type other.part_type ≡ false
none_before part parts e zero other rest h =
    let same : part ≡ other = cc in ap (λ p. is_hfs_type p.part_type) (sym same) ∙ e
none_before part parts e (suc k) other rest h = rest k refl h

later-Picks :
    (base : ℕ) (part : Partition) (parts : List Partition) (o : Option ℕ)
    → is_hfs_type part.part_type ≡ false
    → Picks (base + 1) parts o
    → Picks base (part ∷ parts) o
later-Picks base part parts o e (first_of_type i p found typed before) =
    subst (λ n. Picks base (part ∷ parts) (some n)) (omega arith)
      (first_of_type (suc i) p found typed (λ j other less h.
        none_before part parts e j other (λ k same f. before k other (omega arith) f) h))
later-Picks base part parts o e (none_of_type rest) =
    none_of_type (λ j other h. none_before part parts e j other (λ k same f. rest k other f) h)

part_index-Picks : (base : ℕ) (parts : List Partition) → Picks base parts (part_index base parts)
unfolding part_index
part_index-Picks base [] = none_of_type (λ j other h. absurd cc)
part_index-Picks base (part ∷ parts) = elim (Bool-cases (is_hfs_type part.part_type)) [
  | inl e ↦ rw e (
      subst (λ n. Picks base (part ∷ parts) (some n)) (omega arith)
        (first_of_type 0 part refl e (λ j other less h. absurd (omega arith))))
  | inr e ↦ rw e (
      later-Picks base part parts (part_index (base + 1) parts) e
        (part_index-Picks (base + 1) parts))
]

module _ (partitions : ImageKind → Reader → Result (List Partition))
    (reader_for : ImageKind → Reader → List Partition → ℕ → Result Reader) where
  -- What is opened: the first partition of an HFS+ type, or, when there is none, nothing.
  pub data Chooses (kind : ImageKind) (r : Reader) (parts : List Partition)
      : Result Reader → Type 0 where
    opens :
        (i : ℕ) (part : Partition)
        → get_elem? parts i ≡ some part
        → is_hfs_type part.part_type ≡ true
        → ((j : ℕ) (other : Partition)
            → j < i
            → get_elem? parts j ≡ some other
            → is_hfs_type other.part_type ≡ false)
        → Chooses kind r parts (reader_for kind r parts i)
    refuses :
        ((j : ℕ) (other : Partition)
          → get_elem? parts j ≡ some other
          → is_hfs_type other.part_type ≡ false)
        → Chooses kind r parts (err function_not_implemented_error)

  picked-Chooses :
      (kind : ImageKind) (r : Reader) (parts : List Partition) (o : Option ℕ)
      → Picks 0 parts o
      → Chooses kind r parts (elim o [
        | none ↦ err function_not_implemented_error
        | some index ↦ reader_for kind r parts index
      ])
  picked-Chooses kind r parts o (first_of_type i part found typed before) =
      subst (λ n. Chooses kind r parts (reader_for kind r parts n)) (omega arith)
        (opens i part found typed before)
  picked-Chooses kind r parts o (none_of_type rest) = refuses rest

  -- Of an image with partitions the volume is the first partition whose type is one of the two HFS+ types, and an image
  -- without such a partition is refused.
  pub partition_volume-Chooses :
      (kind : ImageKind) (r : Reader) (parts : List Partition)
      → partitions kind r ≡ ok parts
      → Chooses kind r parts (partition_volume partitions reader_for kind r)
  unfolding partition_volume
  partition_volume-Chooses kind r parts e =
      rw e (picked-Chooses kind r parts (part_index 0 parts) (part_index-Picks 0 parts))

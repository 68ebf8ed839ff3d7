-- ===== src/Hfs/Overflow/Wanted.antt =====
-- What the search for overflow extents gives, without its flag and its loops.
use darling_dmg.Common.{
  ℕ, ◌≡◌, refl, ap, ◌∙◌, sym, Bool, true, false, ◌&&◌, not, ◌==◌, ltb, le→ltb, ==_iff, arith,
  if◌then◌else◌, List, [], ◌∷◌, ◌++◌, Result, ok, err, io_error, ◌>>=◌, Bool-cases, inl, inr,
}
use darling_dmg.Hfs.Overflow.{
  Extent, ExtentRecord, used_extents, same_file, add_record, add_leaf, add_leaves,
  find_extents_for_file,
}

-- The descriptors in front of the first empty one.
pub front : List Extent → List Extent
front [] = []
front (e ∷ es) = let rest = front es in if ltb 0 e.block_count then e ∷ rest else []

used_extents-front : (es : List Extent) → used_extents es ≡ front es
unfolding used_extents front
used_extents-front [] = refl
used_extents-front (e ∷ es) = elim (Bool-cases (e.block_count == 0)) [
  | inl empty ↦
      let n = (==_iff e.block_count 0).0 empty in
      rw (empty, le→ltb 0 e.block_count (omega arith)) refl
  | inr full ↦
      let n : ltb 0 e.block_count ≡ true = ground arith in
      rw (full, n) (ap (◌∷◌ e) (used_extents-front es))
]

pub joined : List ExtentRecord → List Extent
joined [] = []
joined (r ∷ rs) = front r.extents ++ joined rs

pub all_records : List (List ExtentRecord) → List ExtentRecord
all_records [] = []
all_records (l ∷ ls) = l ++ all_records ls

module _ (fork_type file_id start_block : ℕ) where
  -- The records of the file that are not before `start_block`, in the order of the leaves.
  pub wanted : List ExtentRecord → List ExtentRecord
  wanted [] = []
  wanted (r ∷ rs) =
      let rest = wanted rs in
      if (r.fork_type == fork_type && r.file_id == file_id) && not (ltb r.start_block start_block)
      then r ∷ rest
      else rest

  append_assoc : (a b c : List Extent) → (a ++ b) ++ c ≡ a ++ (b ++ c)
  append_assoc [] b c = refl
  append_assoc (x ∷ a) b c = ap (◌∷◌ x) (append_assoc a b c)

  append_nil : (a : List Extent) → a ++ [] ≡ a
  append_nil [] = refl
  append_nil (x ∷ a) = ap (◌∷◌ x) (append_nil a)

  -- After the first record, every wanted one is appended.
  add_leaf-rest :
      (rs : List ExtentRecord) (found : List Extent)
      → add_leaf fork_type file_id start_block rs (false, found)
        ≡ ok (false, found ++ joined (wanted rs))
  unfolding add_leaf add_record same_file wanted joined
  add_leaf-rest [] found = ap (λ l. ok (false, l)) (sym (append_nil found))
  add_leaf-rest (r ∷ rs) found =
      elim (Bool-cases (r.fork_type == fork_type && r.file_id == file_id)) [
        | inr other ↦ rw other (add_leaf-rest rs found)
        | inl same ↦ elim (Bool-cases (ltb r.start_block start_block)) [
          | inl before ↦ rw (same, before) (add_leaf-rest rs found)
          | inr after ↦
              rw (same, after, used_extents-front r.extents)
                (add_leaf-rest rs (found ++ front r.extents)
                  ∙ ap (λ l. ok (false, l))
                      (append_assoc found (front r.extents) (joined (wanted rs))))
        ]
      ]

  -- What the records of one leaf, or of all, make of the extents found before.
  pub collected : List ExtentRecord → List Extent → Result (Bool × List Extent)
  collected [] found = ok (true, found)
  collected (r ∷ rs) found =
      if r.start_block == start_block then ok (false, found ++ joined (r ∷ rs)) else err io_error

  add_leaf-collected :
      (rs : List ExtentRecord) (found : List Extent)
      → add_leaf fork_type file_id start_block rs (true, found) ≡ collected (wanted rs) found
  unfolding add_leaf add_record same_file wanted joined collected
  add_leaf-collected [] found = refl
  add_leaf-collected (r ∷ rs) found =
      elim (Bool-cases (r.fork_type == fork_type && r.file_id == file_id)) [
        | inr other ↦ rw other (add_leaf-collected rs found)
        | inl same ↦ elim (Bool-cases (ltb r.start_block start_block)) [
          | inl before ↦ rw (same, before) (add_leaf-collected rs found)
          | inr after ↦ elim (Bool-cases (r.start_block == start_block)) [
            | inr late ↦ rw (same, after, late) refl
            | inl here ↦
                rw (same, after, here, used_extents-front r.extents)
                  (add_leaf-rest rs (found ++ front r.extents)
                    ∙ ap (λ l. ok (false, l))
                        (append_assoc found (front r.extents) (joined (wanted rs))))
          ]
        ]
      ]

  add_leaf-append :
      (a b : List ExtentRecord) (s : Bool × List Extent)
      → add_leaf fork_type file_id start_block (a ++ b) s
        ≡ (add_leaf fork_type file_id start_block a s >>= add_leaf fork_type file_id start_block b)
  unfolding add_leaf
  add_leaf-append [] b s = refl
  add_leaf-append (r ∷ a) b s =
      elim (add_record fork_type file_id start_block r s)
        as (λ x. (x >>= add_leaf fork_type file_id start_block (a ++ b)) ≡ (
          x
          >>= add_leaf fork_type file_id start_block a
          >>= add_leaf fork_type file_id start_block b)) [
            | ok s' ↦ add_leaf-append a b s'
            | err e ↦ refl
          ]

  -- The division of the records into leaves does not matter.
  add_leaves-all_records :
      (ls : List (List ExtentRecord)) (s : Bool × List Extent)
      → add_leaves fork_type file_id start_block ls s
        ≡ add_leaf fork_type file_id start_block (all_records ls) s
  unfolding add_leaves all_records
  add_leaves-all_records [] s = unfold add_leaf in refl
  add_leaves-all_records (l ∷ ls) s =
      elim (add_leaf fork_type file_id start_block l s)
        as (λ x.
          (x >>= add_leaves fork_type file_id start_block ls)
          ≡ (x >>= add_leaf fork_type file_id start_block (all_records ls))) [
            | ok s' ↦ add_leaves-all_records ls s'
            | err e ↦ refl
          ]
      ∙ sym (add_leaf-append l (all_records ls) s)

pub fork_type_of : Bool → ℕ
fork_type_of resource_fork = if resource_fork then 0xff else 0

-- The search appends the extents of all records of the file and its fork from `start_block` on, in the
-- order of the leaves, each up to its first empty descriptor. With no such record it appends none; and if
-- the first one does not start at `start_block` it fails.
pub find_extents_for_file-collected :
    (leaves : List (List ExtentRecord)) (cnid : ℕ) (resource_fork : Bool) (start_block : ℕ)
    (found : List Extent)
    → find_extents_for_file leaves cnid resource_fork start_block found ≡ (
        collected
          (fork_type_of resource_fork)
          cnid
          start_block
          (wanted (fork_type_of resource_fork) cnid start_block (all_records leaves))
          found
        >>= (λ r. ok r.1))
unfolding find_extents_for_file fork_type_of
find_extents_for_file-collected leaves cnid resource_fork start_block found =
    let t = if resource_fork then 0xff else 0 in
    ap (λ x. x >>= (λ r. ok r.1))
      (add_leaves-all_records t cnid start_block leaves (true, found)
        ∙ add_leaf-collected t cnid start_block (all_records leaves) found)

-- ===== src/Hfs/Catalog/Paths.antt =====
-- Names, and the paths that are made of them.
use darling_dmg.Common.{
  ℕ, ◌+◌, ◌≡◌, refl, ap, ◌∙◌, sym, arith, Bool, true, false, ◌==◌, if◌then◌else◌, List, [], ◌∷◌,
  ◌++◌, Bytes, length, length-append, ◌<◌, Bool-cases, inl, inr,
}
use darling_dmg.Hfs.Catalog.{
  slash, colon, replace_chars, split_from, split, shown_name, stored_name,
}

eq_zero_false : (n : ℕ) → 0 < n → (n == 0) ≡ false
eq_zero_false n h = ground arith

-- None of the bytes is `c`.
unfoldable pub lacks : ℕ → Bytes → Bool
lacks c [] = true
lacks c (b ∷ s) = let rest = lacks c s in if b == c then false else rest

-- A name that the file system holds, with no colon in it, is looked up again from what the directory
-- shows for it; and what is shown has no slash.
pub stored_name-shown_name :
    (name : Bytes)
    → lacks colon name ≡ true
    → (stored_name (shown_name name) ≡ name) × (lacks slash (shown_name name) ≡ true)
unfolding stored_name shown_name replace_chars lacks
stored_name-shown_name [] h = (refl, refl)
stored_name-shown_name (c ∷ s) h = ground (arith, stored_name-shown_name s)

-- The path of some names.
pub join : List Bytes → Bytes
join [] = []
join (n ∷ []) = n
join (n ∷ m ∷ ns) = n ++ slash ∷ join (m ∷ ns)

-- Names that can stand in a path: none is empty, and none has a slash.
pub data AreNames : List Bytes → Type 0 where
  nothing : AreNames []
  name :
      {n : Bytes} {ns : List Bytes}
      → lacks slash n ≡ true
      → 0 < length n
      → AreNames ns
      → AreNames (n ∷ ns)

append_assoc : (a b c : Bytes) → (a ++ b) ++ c ≡ a ++ (b ++ c)
append_assoc [] b c = refl
append_assoc (x ∷ a) b c = ap (◌∷◌ x) (append_assoc a b c)

append_nil : (a : Bytes) → a ++ [] ≡ a
append_nil [] = refl
append_nil (x ∷ a) = ap (◌∷◌ x) (append_nil a)

split_from-name :
    (item n rest : Bytes)
    → lacks slash n ≡ true
    → split_from item slash (n ++ slash ∷ rest) ≡ (item ++ n) ∷ split_from [] slash rest
unfolding split_from lacks
split_from-name item [] rest h = ap (λ i. i ∷ split_from [] slash rest) (sym (append_nil item))
split_from-name item (c ∷ n) rest h = elim (Bool-cases (c == slash)) [
  | inl bad ↦ absurd (ground arith)
  | inr good ↦
      let tail : lacks slash n ≡ true = ground arith in
      rw good (
        split_from-name (item ++ c ∷ []) n rest tail
        ∙ ap (λ i. i ∷ split_from [] slash rest) (append_assoc item (c ∷ []) n))
]

split_from-last :
    (item n : Bytes)
    → lacks slash n ≡ true
    → 0 < length item + length n
    → split_from item slash n ≡ (item ++ n) ∷ []
unfolding split_from lacks
split_from-last item [] h p =
    rw (eq_zero_false (length item) (omega arith)) (ap (λ i. i ∷ []) (sym (append_nil item)))
split_from-last item (c ∷ n) h p = elim (Bool-cases (c == slash)) [
  | inl bad ↦ absurd (ground arith)
  | inr good ↦
      let tail : lacks slash n ≡ true = ground arith in
      rw good (
        split_from-last (item ++ c ∷ []) n tail (let l = length-append item (c ∷ []) in omega arith)
        ∙ ap (λ i. i ∷ []) (append_assoc item (c ∷ []) n))
]

-- Splitting a path at its slashes gives the names that it was made of.
pub split-join : (ns : List Bytes) → AreNames ns → split (join ns) slash ≡ ns
unfolding split join split_from
split-join [] nothing = refl
split-join (n ∷ []) (name clean long nothing) = split_from-last [] n clean (omega arith)
split-join (n ∷ m ∷ ns) (name clean long rest) =
    split_from-name [] n (join (m ∷ ns)) clean ∙ ap (λ l. n ∷ l) (split-join (m ∷ ns) rest)

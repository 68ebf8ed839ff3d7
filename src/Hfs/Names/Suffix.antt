-- ===== src/Hfs/Names/Suffix.antt =====
-- What is left of a name without the suffix of a resource fork.
use mathlib.Core.Path.{subst}
use darling_dmg.Common.{
  ◌↔◌, ℕ, zero, suc, ◌+◌, ◌-◌, ◌≡◌, refl, ap, ◌∙◌, sym, arith, true, false, ltb, le→ltb,
  if◌then◌else◌, [], ◌∷◌, ◌++◌, Bytes, take, drop, length, length-append, Bool-cases, inl, inr,
}
use darling_dmg.Hfs.Names.{resource_fork_suffix, same_bytes, ends_with, stat_name, xattr_name}

pub same_bytes-eq : (x y : Bytes) → same_bytes x y ≡ true → x ≡ y
unfolding same_bytes
same_bytes-eq [] [] h = refl
same_bytes-eq [] (b ∷ y) h = absurd (ground arith)
same_bytes-eq (a ∷ x) [] h = absurd (ground arith)
same_bytes-eq (a ∷ x) (b ∷ y) h = ground (arith, same_bytes-eq x y)

pub same_bytes_refl : (x : Bytes) → same_bytes x x ≡ true
unfolding same_bytes
same_bytes_refl [] = refl
same_bytes_refl (a ∷ x) = ground (arith, same_bytes_refl x)

drop-append : (x y : Bytes) → drop (length x) (x ++ y) ≡ y
drop-append [] y = refl
drop-append (a ∷ x) y = drop-append x y

take-append_plus : (x y : Bytes) (n : ℕ) → take (length x + n) (x ++ y) ≡ x ++ take n y
take-append_plus [] y n = ap (λ k. take k y) (omega arith)
take-append_plus (a ∷ x) y n =
    let e : suc (length x) + n ≡ suc (length x + n) = omega arith in
    rw e (ap (◌∷◌ a) (take-append_plus x y n))

ends_with-append : (x what : Bytes) → ends_with (x ++ what) what ≡ true
unfolding ends_with
ends_with-append x what =
    let e : length x + length what - length what ≡ length x = omega arith in
    rw
      (
        length-append x what,
        le→ltb (length x + length what) (length what) (omega arith),
        e,
        drop-append x what,
      )
      (same_bytes_refl what)

take-drop : (n : ℕ) (x : Bytes) → take n x ++ drop n x ≡ x
take-drop zero x = refl
take-drop (suc n) [] = refl
take-drop (suc n) (a ∷ x) = ap (◌∷◌ a) (take-drop n x)

append_nil : (x : Bytes) → x ++ [] ≡ x
append_nil [] = refl
append_nil (a ∷ x) = ap (◌∷◌ a) (append_nil x)

-- The test of a suffix is true exactly of the names that have it at their end.
pub ends_with_iff :
    (str what : Bytes)
    → (ends_with str what ≡ true) ↔ (str ≡ take (length str - length what) str ++ what)
unfolding ends_with
ends_with_iff str what = (
  λ h. elim (Bool-cases (ltb (length str) (length what))) [
    | inl short ↦ absurd (ground arith)
    | inr long ↦
        let same = same_bytes-eq (drop (length str - length what) str) what (
          ap (λ b. if b then false else same_bytes (drop (length str - length what) str) what)
            (sym long)
          ∙ h) in
        sym (take-drop (length str - length what) str)
        ∙ ap (◌++◌ (take (length str - length what) str)) same
  ],
  λ e.
      subst (λ s. ends_with s what ≡ true) (sym e)
        (ends_with-append (take (length str - length what) str) what),
)

-- `getXattr` undoes the suffix: of a name that carries it, what stands before it is looked up, whatever
-- that is.
pub xattr_name-append : (x : Bytes) → xattr_name (x ++ resource_fork_suffix) ≡ x
unfolding xattr_name
xattr_name-append x = rw (ends_with-append x resource_fork_suffix) (
    let n : length x + 17 - 17 ≡ length x + 0 = omega arith in
    rw (length-append x resource_fork_suffix, n)
      (take-append_plus x resource_fork_suffix 0 ∙ append_nil x))

-- `stat` and `openFile` strip the size of a pointer, less one, in place of the length of the suffix: ten
-- bytes of it stay on every name that they look up for a resource fork.
pub stat_name-append :
    (x : Bytes) → stat_name (x ++ resource_fork_suffix) ≡ (x ++ take 10 resource_fork_suffix, true)
unfolding stat_name
stat_name-append x = rw (ends_with-append x resource_fork_suffix) (
    let n : length x + 17 - 7 ≡ length x + 10 = omega arith in
    rw (length-append x resource_fork_suffix, n)
      (ap (λ b. (b, true)) (take-append_plus x resource_fork_suffix 10)))

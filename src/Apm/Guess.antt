-- ===== src/Apm/Guess.antt =====
-- The guess of the block size.
use darling_dmg.Common.{
  ℕ, zero, suc, ◌+◌, ◌-◌, ◌*◌, ◌≤◌, ◌<◌, ◌≡◌, refl, sym, ap, ◌∙◌, Bool, true, false, Bool-cases,
  inl, inr, ==_iff, arith, ◌==◌, Option, Bytes, ok,
}
use darling_dmg.Io.{Reader}
use darling_dmg.Apm.{struct_of, has_signature, dpme_signature, read_entry, guess_from}

module _ (disk : Reader) (map_reader : Option Reader) (undef : ℕ) (signed : ℕ → Bool) where
  pub record SignAt (i : ℕ) : Type 0 where
    pub bytes : Bytes
    pub read : read_entry disk map_reader undef 512 i ≡ ok bytes
    pub sign : has_signature dpme_signature (struct_of undef bytes) ≡ signed i

  -- Where entries are spaced by `k` blocks of 512 bytes, which of the places the loop looks at are signed.
  pub data IsSpaced : ℕ → Type 0 where
    one_by_one :
        (n : ℕ)
        → n ≤ 63
        → ((i : ℕ) → i < n → signed i ≡ true)
        → ((i : ℕ) → n ≤ i → signed i ≡ false)
        → IsSpaced 1
    behind_block0 :
        (k : ℕ)
        → 1 < k
        → k ≤ 63
        → ((i : ℕ) → i + 1 < k → signed i ≡ false)
        → signed (k - 1) ≡ true
        → IsSpaced k
    in_own_map :
        (k : ℕ)
        → 1 < k
        → k < 63
        → signed 0 ≡ true
        → ((i : ℕ) → 0 < i → i < k → signed i ≡ false)
        → signed k ≡ true
        → IsSpaced k

  module _ (signs : (i : ℕ) → i < 63 → SignAt i) where
    eq_true : (n : ℕ) → (n == n) ≡ true
    eq_true n = ground arith

    eq_false : (m n : ℕ) → m < n → (m == n) ≡ false
    eq_false m n h = ground arith

    skip-eq :
        (rounds i next : ℕ)
        → i < 63
        → signed i ≡ false
        → guess_from disk map_reader undef (suc rounds) i next
          ≡ guess_from disk map_reader undef rounds (i + 1) next
    unfolding guess_from
    skip-eq rounds i next h e = let s = signs i h in rw (s.read, s.sign, e) refl

    found-eq :
        (rounds i : ℕ)
        → i < 63
        → signed i ≡ true
        → guess_from disk map_reader undef (suc rounds) i i
          ≡ guess_from disk map_reader undef rounds (i + 1) (i + 1)
    unfolding guess_from
    found-eq rounds i h e = let s = signs i h in rw (s.read, s.sign, e, eq_true i) refl

    gap-eq :
        (rounds i next : ℕ)
        → i < 63
        → signed i ≡ true
        → next < i
        → guess_from disk map_reader undef (suc rounds) i next ≡ ok (512 * (i + 1 - next))
    unfolding guess_from
    gap-eq rounds i next h e less =
        let s = signs i h in rw (s.read, s.sign, e, eq_false next i less) refl

    none-eq :
        (rounds i next : ℕ)
        → i + rounds ≤ 63
        → ((j : ℕ) → i ≤ j → signed j ≡ false)
        → guess_from disk map_reader undef rounds i next ≡ ok 512
    unfolding guess_from
    none-eq zero i next h none_signed = refl
    none-eq (suc rounds) i next h none_signed =
        skip-eq rounds i next (omega arith) (none_signed i (omega arith))
        ∙ none-eq rounds (i + 1) next (omega arith) (λ j less. none_signed j (omega arith))

    run-eq :
        (rounds n i : ℕ)
        → i + rounds ≤ 63
        → i ≤ n
        → ((j : ℕ) → j < n → signed j ≡ true)
        → ((j : ℕ) → n ≤ j → signed j ≡ false)
        → guess_from disk map_reader undef rounds i i ≡ ok 512
    unfolding guess_from
    run-eq zero n i h le first later = refl
    run-eq (suc rounds) n i h le first later = elim (Bool-cases (i == n)) [
      | inl e ↦
          none-eq (suc rounds) i i h
            (λ j less. later j (let same = (==_iff i n).0 e in omega arith))
      | inr e ↦
          let less : i < n = ground (arith, e) in
          found-eq rounds i (omega arith) (first i less)
          ∙ run-eq rounds n (i + 1) (omega arith) (omega arith) first later
    ]

    jump-eq :
        (rounds i next d : ℕ)
        → i + rounds ≤ 63
        → d < rounds
        → next < i + d
        → ((j : ℕ) → i ≤ j → j < i + d → signed j ≡ false)
        → signed (i + d) ≡ true
        → guess_from disk map_reader undef rounds i next ≡ ok (512 * (i + d + 1 - next))
    jump-eq zero i next d h less behind gap found = absurd (omega arith)
    jump-eq (suc rounds) i next zero h less behind gap found =
        let here : i + 0 ≡ i = omega arith in
        gap-eq rounds i next (omega arith) (ap signed (sym here) ∙ found) (omega arith)
        ∙ ap (λ n. ok (512 * (n + 1 - next))) (sym here)
    jump-eq (suc rounds) i next (suc d) h less behind gap found =
        let here : i + 1 + d ≡ i + suc d = omega arith in
        skip-eq rounds i next (omega arith) (gap i (omega arith) (omega arith))
        ∙ jump-eq rounds (i + 1) next d (omega arith) (omega arith) (omega arith)
            (λ j a b. gap j (omega arith) (omega arith)) (ap signed here ∙ found)
        ∙ ap (λ n. ok (512 * (n + 1 - next))) here

    -- When the disk does not tell its block size, and its map has entries for which blocks of `k` times 512
    -- bytes were used (all of the map's first entries one after the other, or a first entry at block 1, or two entries
    -- of a map of its own), the guess is that size.
    pub guess_from-IsSpaced :
        (k : ℕ) → IsSpaced k → guess_from disk map_reader undef 63 0 0 ≡ ok (512 * k)
    guess_from-IsSpaced k (one_by_one n h first later) =
        run-eq 63 n 0 (omega arith) (omega arith) first later
    guess_from-IsSpaced k (behind_block0 _ more few gap found) =
        jump-eq 63 0 0 (k - 1) (omega arith) (omega arith) (omega arith)
          (λ j a b. gap j (omega arith))
          (ap signed (let e : 0 + (k - 1) ≡ k - 1 = omega arith in e) ∙ found)
        ∙ ap (λ n. ok (512 * n)) (omega arith)
    guess_from-IsSpaced k (in_own_map _ more few start gap found) =
        found-eq 62 0 (omega arith) start
        ∙ jump-eq 62 1 1 (k - 1) (omega arith) (omega arith) (omega arith)
            (λ j a b. gap j (omega arith) (omega arith))
            (ap signed (let e : 1 + (k - 1) ≡ k = omega arith in e) ∙ found)
        ∙ ap (λ n. ok (512 * n)) (omega arith)

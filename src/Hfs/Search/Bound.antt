-- ===== src/Hfs/Search/Bound.antt =====
-- The binary search among the records of a node.
use darling_dmg.Common.{
  ℕ, zero, suc, ◌+◌, ◌-◌, ◌/◌, ◌≤◌, ◌<◌, ◌≡◌, refl, sym, ap, ◌∙◌, Bool, true, false, Bool-cases,
  inl, inr, arith, ltb, ltb→lt, ltb→le, lt→ltb, le→ltb, if◌then◌else◌, ◌==◌, List, [], ◌∷◌, length,
  get_elem?, some, Bytes, ok,
}
use darling_dmg.Hfs.Node.{record_key, record_count}
use darling_dmg.Hfs.Search.{bound_from, bound}

-- The number of the leading keys that pass the test, counted one by one.
unfoldable pub passing : (Bytes → Bool) → List Bytes → ℕ
passing test [] = 0
passing test (k ∷ ks) = let rest = passing test ks in if test k then suc rest else 0

-- Behind a key that fails the test all fail, as in a node whose keys are in order.
pub data IsSplit (test : Bytes → Bool) : List Bytes → Type 0 where
  none_left : IsSplit test []
  passes : (k : Bytes) (ks : List Bytes) → test k ≡ true → IsSplit test ks → IsSplit test (k ∷ ks)
  fails :
      (k : Bytes) (ks : List Bytes)
      → test k ≡ false
      → passing test ks ≡ 0
      → IsSplit test ks
      → IsSplit test (k ∷ ks)

-- The keys of the records of a node.
pub record HasKeys (node : Bytes) (keys : List Bytes) : Type 0 where
  pub count : record_count node ≡ ok (length keys)
  pub at : (i : ℕ) (k : Bytes) → get_elem? keys i ≡ some k → record_key node i ≡ ok k

pub record KeyAt (test : Bytes → Bool) (keys : List Bytes) (i : ℕ) : Type 0 where
  pub key : Bytes
  pub found : get_elem? keys i ≡ some key
  pub tested : test key ≡ ltb i (passing test keys)

pub passing_le : (test : Bytes → Bool) (keys : List Bytes) → passing test keys ≤ length keys
unfolding passing
passing_le test [] = omega arith
passing_le test (k ∷ ks) = elim (Bool-cases (test k)) [
  | inl e ↦ rw e (omega (arith, passing_le test ks))
  | inr e ↦ rw e (omega arith)
]

ltb_shift : (i n : ℕ) → ltb i n ≡ ltb (suc i) (suc n)
ltb_shift i n = ground arith

ltb_zero : (i : ℕ) → ltb i 0 ≡ false
ltb_zero i = ground arith

key-KeyAt :
    (test : Bytes → Bool) (keys : List Bytes) (i : ℕ)
    → IsSplit test keys
    → i < length keys
    → KeyAt test keys i
unfolding passing
key-KeyAt test [] i s h = absurd (omega arith)
key-KeyAt test (k ∷ ks) zero (passes _ _ e s) h = record {
  key = k;
  found = refl;
  tested = rw e (sym (lt→ltb 0 (suc (passing test ks)) (omega arith)));
}
key-KeyAt test (k ∷ ks) (suc i) (passes _ _ e s) h =
    let r = key-KeyAt test ks i s (omega arith) in
    record {
      key = r.key;
      found = r.found;
      tested = rw e (r.tested ∙ ltb_shift i (passing test ks));
    }
key-KeyAt test (k ∷ ks) zero (fails _ _ e n s) h = record {
  key = k;
  found = refl;
  tested = rw e (sym (le→ltb 0 0 (omega arith)));
}
key-KeyAt test (k ∷ ks) (suc i) (fails _ _ e n s) h =
    let r = key-KeyAt test ks i s (omega arith) in
    record {
      key = r.key;
      found = r.found;
      tested = rw e (r.tested ∙ ap (ltb i) n ∙ ltb_zero i ∙ sym (ltb_zero (suc i)));
    }

module _ (test : Bytes → Bool) (node : Bytes) (keys : List Bytes) (has : HasKeys node keys)
    (split : IsSplit test keys) where
  bound_from-passing :
      (fuel first len : ℕ)
      → first ≤ passing test keys
      → passing test keys ≤ first + len
      → first + len ≤ length keys
      → len ≤ fuel
      → bound_from test node fuel first len ≡ ok (passing test keys)
  unfolding bound_from
  bound_from-passing zero first len low high inside enough =
      let none_left : len ≡ 0 = omega arith in
      let here : first ≡ passing test keys = omega arith in rw (none_left, here) refl
  bound_from-passing (suc fuel) first len low high inside enough =
      let mid = first + len / 2 in
      elim (Bool-cases (len == 0)) [
        | inl e ↦
            let here : first ≡ passing test keys =
              (let none_left : len ≡ 0 = ground (arith, e) in omega arith) in
            rw (e, here) refl
        | inr e ↦
            let pos : 0 < len = ground (arith, e) in
            let k = key-KeyAt test keys (first + len / 2) split (omega arith) in
            rw (e, has.at (first + len / 2) k.key k.found, k.tested)
              (elim (Bool-cases (ltb (first + len / 2) (passing test keys))) [
                | inl before ↦
                    let h = ltb→lt (first + len / 2) (passing test keys) before in
                    rw before (
                      bound_from-passing fuel (first + len / 2 + 1) (len - len / 2 - 1)
                        (omega arith) (omega arith) (omega arith) (omega arith))
                | inr behind ↦
                    let h = ltb→le (first + len / 2) (passing test keys) behind in
                    rw behind (
                      bound_from-passing fuel first (len / 2) low (omega arith) (omega arith)
                        (omega arith))
              ])
      ]

  -- In a node whose records can be read and whose keys are in order for the test, the binary search ends and gives
  -- the number of leading keys that pass it, as a scan from the first one counts them.
  pub bound-passing : bound test node ≡ ok (passing test keys)
  unfolding bound
  bound-passing = rw has.count (
      bound_from-passing (length keys) 0 (length keys) (omega arith)
        (omega (arith, passing_le test keys)) (omega arith) (omega arith))

-- ===== src/Adc/Copy.antt =====
-- Back-references: the two ways that they are run, and what they write.
use mathlib.Core.List.{append_assoc}
use darling_dmg.Common.{
  ℕ, zero, suc, ◌+◌, ◌≤◌, ◌<◌, ◌≡◌, refl, ap, sym, ◌∙◌, inl, inr, ltb, Option, none, some, [], ◌∷◌,
  ◌++◌, Bytes, get_elem?, length, replicate, arith, length-append, Bool-cases, some-eq,
}
use darling_dmg.Adc.{copy_back, fill, refer}

replicate-shift : (k c : ℕ) (xs : Bytes) → replicate k c ++ c ∷ xs ≡ c ∷ (replicate k c ++ xs)
replicate-shift zero c xs = refl
replicate-shift (suc k) c xs = ap (◌∷◌ c) (replicate-shift k c xs)

copy_back-zero : (n b : ℕ) (out : Bytes) → copy_back n 0 (b ∷ out) ≡ some (replicate n b ++ b ∷ out)
unfolding copy_back
copy_back-zero zero b out = refl
copy_back-zero (suc n) b out =
    copy_back-zero n b (b ∷ out) ∙ ap (λ l. some l) (replicate-shift n b (b ∷ out))

-- The two ways to run a back-reference, `memset` and the loop, are one: at least one byte is copied,
-- each from `offset + 1` bytes behind, and both read outside the buffer in the same cases.
pub refer-copy_back :
    (n offset : ℕ) (out : Bytes) → refer (suc n) offset out ≡ copy_back (suc n) offset out
unfolding refer fill copy_back
refer-copy_back n zero [] = refl
refer-copy_back n zero (b ∷ out) = sym (copy_back-zero (suc n) b out)
refer-copy_back n (suc offset) out = ground arith

-- `result` is the output with `n` bytes in front, each equal to the one `offset + 1` places behind it.
pub record Repeats (n offset : ℕ) (out : Bytes) (result : Option Bytes) : Type 0 where
  pub out' : Bytes
  pub returns : result ≡ some out'
  pub fresh : Bytes
  pub kept : out' ≡ fresh ++ out
  pub count : length fresh ≡ n
  pub repeats : (i : ℕ) → i < n → get_elem? out' i ≡ get_elem? out' (i + (offset + 1))

get_elem?-some :
    (offset : ℕ) (out : Bytes) → offset < length out → (b : ℕ) × (get_elem? out offset ≡ some b)
get_elem?-some offset [] h = absurd (omega arith)
get_elem?-some zero (b ∷ out) h = (b, refl)
get_elem?-some (suc offset) (b ∷ out) h = get_elem?-some offset out (omega arith)

get_elem?-none : (offset : ℕ) (out : Bytes) → length out ≤ offset → get_elem? out offset ≡ none
get_elem?-none offset [] h = refl
get_elem?-none zero (b ∷ out) h = absurd (omega arith)
get_elem?-none (suc offset) (b ∷ out) h = get_elem?-none offset out (omega arith)

pub get_elem?-append :
    (xs ys : Bytes) (i j : ℕ) → j ≡ length xs + i → get_elem? (xs ++ ys) j ≡ get_elem? ys i
get_elem?-append [] ys i j e = ap (get_elem? ys) (omega arith)
get_elem?-append (x ∷ xs) ys i zero e = absurd (omega arith)
get_elem?-append (x ∷ xs) ys i (suc j) e = get_elem?-append xs ys i j (omega arith)

-- A back-reference within the output repeats it: each new byte is the one that stands as far behind it
-- as the offset says.
pub copy_back-Repeats :
    (n offset : ℕ) (out : Bytes)
    → offset < length out
    → Repeats n offset out (copy_back n offset out)
unfolding copy_back
copy_back-Repeats zero offset out h = record {
  out' = out;
  returns = refl;
  fresh = [];
  kept = refl;
  count = refl;
  repeats = λ i p. absurd (omega arith);
}
copy_back-Repeats (suc n) offset out h =
    let (b, found) = get_elem?-some offset out h in
    let r = copy_back-Repeats n offset (b ∷ out) (omega arith) in
    let count = r.count in
    record {
      out' = r.out';
      returns = rw (found, copy_back) r.returns;
      fresh = r.fresh ++ b ∷ [];
      kept = r.kept ∙ sym (append_assoc r.fresh (b ∷ []) out);
      count = omega (arith, length-append r.fresh (b ∷ []));
      repeats = λ i p. elim (Bool-cases (ltb i n)) [
        | inl fresh ↦ r.repeats i (ground arith)
        | inr last ↦
            let e : i ≡ n = ground arith in
            ap (λ l. get_elem? l i) r.kept
            ∙ get_elem?-append r.fresh (b ∷ out) 0 i (omega arith)
            ∙ sym found
            ∙ sym (get_elem?-append r.fresh (b ∷ out) (suc offset) (i + (offset + 1)) (omega arith))
            ∙ ap (λ l. get_elem? l (i + (offset + 1))) (sym r.kept)
      ];
    }

pub copy_back-none :
    (n offset : ℕ) (out : Bytes) → length out ≤ offset → copy_back (suc n) offset out ≡ none
unfolding copy_back
copy_back-none n offset out h = rw (get_elem?-none offset out h, copy_back)

pub length-copy_back :
    (n offset : ℕ) (out out' : Bytes)
    → copy_back n offset out ≡ some out'
    → length out' ≡ n + length out
unfolding copy_back
length-copy_back n offset out out' e = elim (Bool-cases (ltb offset (length out))) [
  | inl inside ↦
      let r = copy_back-Repeats n offset out (ground arith) in
      let same : r.out' ≡ out' = ground (arith, r.returns) in
      let count = r.count in
      omega (arith, ap (λ l. length l) same, ap (λ l. length l) r.kept, length-append r.fresh out)
  | inr outside ↦ short n (ground arith) e
]
  where
    short :
        (k : ℕ)
        → length out ≤ offset
        → copy_back k offset out ≡ some out'
        → length out' ≡ k + length out
    short zero h p = omega (arith, ap (λ l. length l) (some-eq p))
    short (suc k) h p = absurd (cc (copy_back-none k offset out h))

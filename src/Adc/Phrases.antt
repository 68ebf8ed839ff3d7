-- ===== src/Adc/Phrases.antt =====
-- The format that the comment at the top of adc.cpp describes, as a list of phrases: what they mean,
-- how they are written, and that the decoder undoes the writing.
use darling_dmg.Common.{
  ℕ, zero, suc, ◌+◌, ◌-◌, ◌*◌, ◌/◌, ◌%◌, ◌≤◌, ◌<◌, ◌≡◌, refl, ap, sym, ◌∙◌, Option, none, some,
  List, [], ◌∷◌, ◌++◌, Bytes, length, take, drop, ok, arith, length-append, le→ltb, Option-cases,
  inl, inr, some-eq,
}
use darling_dmg.Adc.{
  ChunkType, adc_chunk_type, adc_chunk_size, adc_chunk_offset, size_of, offset_of, push_all,
  copy_back, next, referred, step_plain, step_refer, accessing, step_of, step, decompress_loop,
  plain, two_byte, three_byte, finish, adc_decompress,
}
use darling_dmg.Adc.Copy.{refer-copy_back, length-copy_back}
use darling_dmg.Adc.Loop.{length-push_all}
use native.Mathlib.Numerals.{add-one}

pub data Phrase : Type 0 where
  store_phrase : Bytes → Phrase
  short_phrase long_phrase : ℕ → ℕ → Phrase

-- The lengths and offsets that the format allows.
abbrev pub IsPhrase : Phrase → Type 0
IsPhrase (store_phrase bytes) = (0 < length bytes) × (length bytes ≤ 0x80)
IsPhrase (short_phrase n offset) = (3 ≤ n) × (n ≤ 0x12) × (offset ≤ 0x3ff)
IsPhrase (long_phrase n offset) = (4 ≤ n) × (n ≤ 0x43) × (offset ≤ 0xffff)

abbrev pub ArePhrases : List Phrase → Type 0
ArePhrases [] = Unit
ArePhrases (p ∷ ps) = IsPhrase p × ArePhrases ps

pub encode : Phrase → Bytes
encode (store_phrase bytes) = (0x7f + length bytes) ∷ bytes
encode (short_phrase n offset) = ((n - 3) * 4 + offset / 0x100) ∷ (offset % 0x100) ∷ []
encode (long_phrase n offset) = (0x40 + (n - 4)) ∷ (offset / 0x100) ∷ (offset % 0x100) ∷ []

unfoldable pub encode_all : List Phrase → Bytes
unfolding encode
encode_all [] = []
encode_all (p ∷ ps) = encode p ++ encode_all ps

-- What a phrase appends: its bytes, or a copy; none if the copy starts before the output.
pub meaning : Phrase → Bytes → Option Bytes
meaning (store_phrase bytes) out = some (push_all bytes out)
meaning (short_phrase n offset) out = copy_back n offset out
meaning (long_phrase n offset) out = copy_back n offset out

unfoldable pub run : List Phrase → Bytes → Option Bytes
unfolding meaning
run [] out = some out
run (p ∷ ps) out = elim (meaning p out) [ none ↦ none | some out' ↦ run ps out' ]

take-append : (xs ys : Bytes) → take (length xs) (xs ++ ys) ≡ xs
take-append [] ys = refl
take-append (x ∷ xs) ys = ap (◌∷◌ x) (take-append xs ys)

drop-append : (xs ys : Bytes) → drop (length xs) (xs ++ ys) ≡ ys
drop-append [] ys = refl
drop-append (x ∷ xs) ys = drop-append xs ys

type_plain : (b : ℕ) → 0x80 ≤ b → b ≤ 0xff → adc_chunk_type b ≡ plain
unfolding adc_chunk_type
type_plain b h p = ground arith

type_three : (b : ℕ) → 0x40 ≤ b → b ≤ 0x7f → adc_chunk_type b ≡ three_byte
unfolding adc_chunk_type
type_three b h p = ground arith

type_two : (b : ℕ) → b ≤ 0x3f → adc_chunk_type b ≡ two_byte
unfolding adc_chunk_type
type_two b h = ground arith

step_refer-eq :
    (avail width n offset : ℕ) (inp rest out out' : Bytes)
    → width ≤ length inp
    → drop width inp ≡ rest
    → 0 < n
    → copy_back n offset out ≡ some out'
    → length out + n ≤ avail
    → step_refer avail width n offset inp out ≡ next out' rest
unfolding step_refer referred accessing
step_refer-eq avail width zero offset inp rest out out' w d h e room = absurd (omega arith)
step_refer-eq avail width (suc n) offset inp rest out out' w d h e room = rw (
  le→ltb (length inp) width w,
  le→ltb avail (length out + suc n) room,
  refer-copy_back n offset out,
  e,
  d,
)

step_plain-eq :
    (avail size : ℕ) (b : ℕ) (bytes rest out : Bytes)
    → size ≡ length bytes
    → length out + size ≤ avail
    → step_plain avail size (b ∷ (bytes ++ rest)) out ≡ next (push_all bytes out) rest
unfolding step_plain accessing
step_plain-eq avail size b bytes rest out e room =
    let long : size + 1 ≤ length (b ∷ (bytes ++ rest)) = omega (arith, length-append bytes rest) in
    rw (
      le→ltb (length (b ∷ (bytes ++ rest))) (size + 1) long,
      le→ltb avail (length out + size) room,
      add-one,
      e,
      take-append,
      drop-append,
    )

-- The decoder computes the type, the size and the offset of a chunk once.
step-type :
    (avail b : ℕ) (inp out : Bytes) (t : ChunkType)
    → adc_chunk_type b ≡ t
    → step avail (b ∷ inp) out ≡ step_of t avail (size_of t b) (offset_of t (b ∷ inp)) (b ∷ inp) out
unfolding step adc_chunk_size adc_chunk_offset
step-type avail b inp out t e =
    ap (λ t'. step_of t' avail (size_of t' b) (offset_of t' (b ∷ inp)) (b ∷ inp) out) e

-- The decoder reads a phrase as it was written, if its output fits.
step-encode :
    (avail : ℕ) (p : Phrase) (rest out out' : Bytes)
    → IsPhrase p
    → meaning p out ≡ some out'
    → length out' ≤ avail
    → step avail (encode p ++ rest) out ≡ next out' rest
unfolding encode meaning step_of size_of offset_of
step-encode avail (store_phrase bytes) rest out out' (low, high) e room =
    let b = 0x7f + length bytes in
    let same : push_all bytes out ≡ out' = ground arith in
    step-type avail b (bytes ++ rest) out plain (type_plain b (omega arith) (omega arith))
    ∙ step_plain-eq avail (b % 0x80 + 1) b bytes rest out (omega arith)
        (omega (arith, ap (λ l. length l) same, length-push_all bytes out))
    ∙ ap (λ l. next l rest) same
step-encode avail (short_phrase n offset) rest out out' (low, high, near) e room =
    let b = (n - 3) * 4 + offset / 0x100 in
    let size : b % 0x40 / 4 + 3 ≡ n = omega arith in
    let behind : b % 4 * 0x100 + offset % 0x100 ≡ offset = omega arith in
    step-type avail b (offset % 0x100 ∷ rest) out two_byte (type_two b (omega arith))
    ∙ rw (size, behind)
        (step_refer-eq avail 2 n offset (b ∷ offset % 0x100 ∷ rest) rest out out' (omega arith) refl
          (omega arith) e (omega (arith, length-copy_back n offset out out' e)))
step-encode avail (long_phrase n offset) rest out out' (low, high, near) e room =
    let b = 0x40 + (n - 4) in
    let size : b % 0x40 + 4 ≡ n = omega arith in
    let behind : offset / 0x100 * 0x100 + offset % 0x100 ≡ offset = omega arith in
    step-type avail b (offset / 0x100 ∷ offset % 0x100 ∷ rest) out three_byte
      (type_three b (omega arith) (omega arith))
    ∙ rw (size, behind)
        (step_refer-eq avail 3 n offset (b ∷ offset / 0x100 ∷ offset % 0x100 ∷ rest) rest out out'
          (omega arith) refl (omega arith) e (omega (arith, length-copy_back n offset out out' e)))

meaning-grows :
    (p : Phrase) (out out' : Bytes) → meaning p out ≡ some out' → length out ≤ length out'
unfolding meaning
meaning-grows (store_phrase bytes) out out' e =
    omega (arith, ap (λ l. length l) (some-eq e), length-push_all bytes out)
meaning-grows (short_phrase n offset) out out' e =
    omega (arith, length-copy_back n offset out out' e)
meaning-grows (long_phrase n offset) out out' e =
    omega (arith, length-copy_back n offset out out' e)

-- A run over `p ∷ ps` goes through the output after `p`.
run-cons :
    (p : Phrase) (ps : List Phrase) (out out' : Bytes)
    → run (p ∷ ps) out ≡ some out'
    → (mid : Bytes) × (meaning p out ≡ some mid) × (run ps mid ≡ some out')
unfolding run
run-cons p ps out out' h = elim (Option-cases (meaning p out)) [
  | inl e ↦ absurd (cc e)
  | inr (mid, e) ↦ let go : run (p ∷ ps) out ≡ run ps mid = rw (e, run) in (mid, e, sym go ∙ h)
]

run-grows :
    (ps : List Phrase) (out out' : Bytes) → run ps out ≡ some out' → length out ≤ length out'
unfolding run
run-grows [] out out' e = omega (arith, ap (λ l. length l) (some-eq e))
run-grows (p ∷ ps) out out' e =
    let (mid, m, rest) = run-cons p ps out out' e in
    omega (arith, meaning-grows p out mid m, run-grows ps mid out' rest)

pub length-encode : (p : Phrase) → 0 < length (encode p)
unfolding encode
length-encode (store_phrase bytes) = omega arith
length-encode (short_phrase n offset) = omega arith
length-encode (long_phrase n offset) = omega arith

decompress_loop-next :
    (fuel avail : ℕ) (inp rest out mid : Bytes)
    → 0 < length inp
    → step avail inp out ≡ next mid rest
    → decompress_loop (suc fuel) avail inp out ≡ decompress_loop fuel avail rest mid
unfolding decompress_loop
decompress_loop-next fuel avail [] rest out mid h e = absurd (omega arith)
decompress_loop-next fuel avail (b ∷ inp) rest out mid h e = rw (e, decompress_loop)

decompress-finish :
    (input : Bytes) (avail : ℕ) (out out' : Bytes)
    → 0 < length input
    → decompress_loop (length input) avail input out ≡ ok ([], out')
    → adc_decompress input avail out ≡ ok (record { used = length input; written = some out' })
unfolding adc_decompress finish
decompress-finish [] avail out out' h e = absurd (omega arith)
decompress-finish (b ∷ inp) avail out out' h e =
    rw e (ap (λ u. ok (record { used = u; written = some out' })) (omega arith))

decompress_loop-encode_all :
    (fuel avail : ℕ) (ps : List Phrase) (out out' : Bytes)
    → length (encode_all ps) ≤ fuel
    → ArePhrases ps
    → run ps out ≡ some out'
    → length out' ≤ avail
    → decompress_loop fuel avail (encode_all ps) out ≡ ok ([], out')
decompress_loop-encode_all fuel avail [] out out' h v e room =
    unfold decompress_loop run encode_all in ap (λ l. ok ([], l)) (some-eq e)
decompress_loop-encode_all zero avail (p ∷ ps) out out' h v e room =
    absurd (
      unfold encode_all in omega (arith, length-encode p, length-append (encode p) (encode_all ps)))
decompress_loop-encode_all (suc fuel) avail (p ∷ ps) out out' h (vp, vs) e room =
    let (mid, m, rest) = run-cons p ps out out' e in
    let long : length (encode_all ps) ≤ fuel =
      unfold encode_all in
      omega (arith, length-encode p, length-append (encode p) (encode_all ps)) in
    let fits : length mid ≤ avail = omega (arith, run-grows ps mid out' rest) in
    decompress_loop-next fuel avail (encode_all (p ∷ ps)) (encode_all ps) out mid
      (unfold encode_all in
        omega (arith, length-encode p, length-append (encode p) (encode_all ps)))
      (unfold encode_all in step-encode avail p (encode_all ps) out mid vp m fits)
    ∙ decompress_loop-encode_all fuel avail ps mid out' long vs rest room

-- Decoding what was written gives what the phrases mean: if they keep to the format, mean an output
-- from `out` on, and that output fits, the decoder consumes all of the input and returns the output.
pub adc_decompress-encode_all :
    (avail : ℕ) (p : Phrase) (ps : List Phrase) (out out' : Bytes)
    → ArePhrases (p ∷ ps)
    → run (p ∷ ps) out ≡ some out'
    → length out' ≤ avail
    → adc_decompress (encode_all (p ∷ ps)) avail out
      ≡ ok (record { used = length (encode_all (p ∷ ps)); written = some out' })
adc_decompress-encode_all avail p ps out out' v e room =
    decompress-finish (encode_all (p ∷ ps)) avail out out'
      (unfold encode_all in
        omega (arith, length-encode p, length-append (encode p) (encode_all ps)))
      (decompress_loop-encode_all (length (encode_all (p ∷ ps))) avail (p ∷ ps) out out'
        (omega arith) v e room)

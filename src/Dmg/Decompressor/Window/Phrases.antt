-- ===== src/Dmg/Decompressor/Window/Phrases.antt =====
-- What the decompressor for ADC gives for a run that follows the format and fits its buffers.
use darling_dmg.Common.{
  ℕ, zero, suc, ◌+◌, ◌≤◌, ◌<◌, ◌≡◌, refl, ap, ◌∙◌, arith, ltb, leb, lt→ltb, le→ltb, lt→leb_false,
  false, true, ◌==◌, some, List, [], ◌∷◌, ◌++◌, Bytes, length, take, drop, ok, length-append,
  Bool-cases, inl, inr,
}
use darling_dmg.Common.Word.{i32_limit, size_limit, to_int32, sub64}
use darling_dmg.Io.{Reader, memory_reader}
use darling_dmg.Adc.{push_all, adc_decompress}
use darling_dmg.Adc.Loop.{length-push_all}
use darling_dmg.Adc.Phrases.{
  Phrase, ArePhrases, encode, encode_all, length-encode, run, adc_decompress-encode_all,
}
use darling_dmg.Dmg.Decompressor.{read_some, processed, buffer_size}
use darling_dmg.Dmg.Decompressor.Window.{
  Window, window_size, copied, take_window, take_written, window_round, window_loop,
  window_decompress,
}

push_all-push_all : (a b c : Bytes) → push_all (push_all a b) c ≡ push_all b (a ++ c)
unfolding push_all
push_all-push_all [] b c = refl
push_all-push_all (x ∷ a) b c = push_all-push_all a (x ∷ b) c

append_nil : (a : Bytes) → a ++ [] ≡ a
append_nil [] = refl
append_nil (x ∷ a) = ap (◌∷◌ x) (append_nil a)

take_whole : (n : ℕ) (a : Bytes) → length a ≤ n → take n a ≡ a
take_whole zero [] h = refl
take_whole zero (x ∷ a) h = absurd (omega arith)
take_whole (suc n) [] h = refl
take_whole (suc n) (x ∷ a) h = ap (◌∷◌ x) (take_whole n a (omega arith))

twice : (plain : Bytes) → push_all (push_all plain []) [] ≡ plain
unfolding push_all
twice plain = push_all-push_all plain [] [] ∙ append_nil plain

window_loop-done :
    (r : Reader) (fuel : ℕ) (w : Window) → w.left ≡ 0 → window_loop r fuel w ≡ ok w.out
unfolding window_loop
window_loop-done r zero w e = rw e refl
window_loop-done r (suc fuel) w e = rw e refl

eq_zero_false : (n : ℕ) → 0 < n → (n == 0) ≡ false
eq_zero_false n h = ground arith

yes : (m n : ℕ) → m ≤ n → leb m n ≡ true
yes m n h = ground arith

read_all :
    (bytes : Bytes)
    → 0 < length bytes
    → length bytes ≤ buffer_size
    → read_some (memory_reader bytes) 0 ≡ ok bytes
unfolding read_some memory_reader
read_all bytes some_bytes few =
    let n = eq_zero_false (length bytes) some_bytes in
    let start = le→ltb (length bytes) 0 (omega arith) in
    let clipped : to_int32 (sub64 (length bytes) 0) ≡ length bytes = omega arith in
    let small = lt→ltb (length bytes) i32_limit (omega arith) in
    elim (Bool-cases (ltb (length bytes) 8192)) [
      | inl less ↦
          rw (start, less, clipped, small, take_whole (length bytes) bytes (omega arith), n) refl
      | inr same ↦ rw (start, same, take_whole 8192 bytes (omega arith), n) refl
    ]

take_window-all :
    (plain : Bytes) (count offset : ℕ)
    → offset + count ≤ length plain
    → take_window
        (push_all plain [])
        (record { pos = 0; held = []; offset = offset; left = count; out = [] })
      ≡ record {
        pos = 0;
        held = [];
        offset = offset;
        left = 0;
        out = take count (drop offset plain);
      }
unfolding take_window copied
take_window-all plain count offset fits =
    rw
      (
        yes (offset + count) (length (push_all plain [])) (omega (arith, length-push_all plain [])),
        twice plain,
      )
      refl

module _ (r : Reader) (input held : Bytes) (used : ℕ) where
  window_round-eq :
      (w : Window)
      → read_some r w.pos ≡ ok input
      → adc_decompress input window_size w.held ≡ ok (record { used = used; written = some held })
      → 0 < used
      → window_round r w ≡ ok (record (take_window held w) { pos = processed w.pos used })
  unfolding window_round take_written
  window_round-eq w read decoded some_used = rw (read, decoded, eq_zero_false used some_used) refl

  window_loop-one :
      (fuel : ℕ) (w : Window)
      → read_some r w.pos ≡ ok input
      → adc_decompress input window_size w.held ≡ ok (record { used = used; written = some held })
      → 0 < used
      → 0 < w.left
      → (take_window held w).left ≡ 0
      → window_loop r (suc fuel) w ≡ ok (take_window held w).out
  unfolding window_loop
  window_loop-one fuel w read decoded some_used some_left done =
      rw (lt→ltb 0 w.left some_left, window_round-eq w read decoded some_used)
        (window_loop-done r fuel (record (take_window held w) { pos = processed w.pos used }) done)

-- A run of phrases that takes up no more than the input buffer, and whose plain data fits the window:
-- asked for some bytes that lie in the plain data, the decompressor returns their number and puts out
-- these bytes, at any offset.
pub window_decompress-encode_all :
    (plain : Bytes) (p : Phrase) (ps : List Phrase) (count offset : ℕ)
    → ArePhrases (p ∷ ps)
    → run (p ∷ ps) [] ≡ some (push_all plain [])
    → length plain ≤ window_size
    → length (encode_all (p ∷ ps)) ≤ buffer_size
    → 0 < count
    → offset + count ≤ length plain
    → window_decompress (memory_reader (encode_all (p ∷ ps))) count offset
      ≡ ok (count, take count (drop offset plain))
unfolding window_decompress
window_decompress-encode_all plain p ps count offset phrases meant fits few some_left inside =
    let input = encode_all (p ∷ ps) in
    let r = memory_reader input in
    let w : Window = record { pos = 0; held = []; offset = offset; left = count; out = [] } in
    let some_input : 0 < length input =
      unfold encode_all in
      omega (arith, length-encode p, length-append (encode p) (encode_all ps)) in
    let decoded =
      adc_decompress-encode_all window_size p ps [] (push_all plain []) phrases meant
        (omega (arith, length-push_all plain [])) in
    let taken = take_window-all plain count offset inside in
    let looped =
      window_loop-one r input (push_all plain []) (length input) r.size w
        (read_all input some_input few) decoded some_input some_left (ap (λ x. x.left) taken)
      ∙ ap (λ x. ok x.out) taken in
    let rounds : r.size + 1 ≡ suc r.size = omega arith in
    rw (lt→leb_false size_limit offset (omega arith), rounds, looped) refl

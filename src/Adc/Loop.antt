-- ===== src/Adc/Loop.antt =====
-- The bounds of one chunk, of the loop and of the decoder.
use mathlib.Core.List.{append_assoc}
use darling_dmg.Common.{
  ℕ, zero, suc, ◌+◌, ◌-◌, ◌≤◌, ◌<◌, ◌≡◌, refl, ap, sym, ◌∙◌, inl, inr, ltb, none, some, [], ◌∷◌,
  ◌++◌, Bytes, byte_at, length, take, drop, Result, ok, err, memory_fault, arith, length-append,
  length-take, length-drop, ltb→le, Bool-cases,
}
use darling_dmg.Adc.{
  ChunkType, adc_chunk_type, adc_chunk_size, adc_chunk_offset, size_of, push_all, Step, next, stop,
  fault, referred, step_plain, step_refer, accessing, step_of, step, decompress_loop, plain,
  two_byte, three_byte, Decompressed, finish, adc_decompress,
}
use darling_dmg.Adc.Copy.{refer-copy_back, copy_back-Repeats, copy_back-none}

-- What one chunk does within its bounds: it reads no byte behind the input, consumes some, it appends, and stays below `avail`.
pub data Sound (avail : ℕ) (inp out : Bytes) : Step → Type 0 where
  appends :
      {out' inp' : Bytes} (fresh : Bytes)
      → out' ≡ fresh ++ out
      → length out' ≤ avail
      → length inp' < length inp
      → Sound avail inp out (next out' inp')
  stops : Sound avail inp out stop
  faults : Sound avail inp out fault

pub push_all-append : (bytes xs ys : Bytes) → push_all bytes (xs ++ ys) ≡ push_all bytes xs ++ ys
unfolding push_all
push_all-append [] xs ys = refl
push_all-append (b ∷ bytes) xs ys = push_all-append bytes (b ∷ xs) ys

pub length-push_all : (bytes out : Bytes) → length (push_all bytes out) ≡ length bytes + length out
unfolding push_all
length-push_all [] out = omega arith
length-push_all (b ∷ bytes) out = omega (arith, length-push_all bytes (b ∷ out))

step_plain-Sound :
    (avail size : ℕ) (inp out : Bytes)
    → 0 < length inp
    → Sound avail inp out (step_plain avail size inp out)
unfolding step_plain accessing
step_plain-Sound avail size inp out h = elim (Bool-cases (ltb (length inp) (size + 1))) [
  | inl short ↦ rw short stops
  | inr enough ↦ elim (Bool-cases (ltb avail (length out + size))) [
    | inl full ↦ rw (enough, full) stops
    | inr room ↦
        rw (enough, room)
          (appends (push_all (take size (drop 1 inp)) [])
            (push_all-append (take size (drop 1 inp)) [] out)
            (omega (
              arith,
              length-push_all (take size (drop 1 inp)) out,
              length-take size (drop 1 inp),
              length-drop 1 inp,
              ltb→le avail (length out + size) room,
            ))
            (omega (arith, length-drop (size + 1) inp)))
  ]
]

step_refer-Sound :
    (avail width size offset : ℕ) (inp out : Bytes)
    → 0 < width
    → 0 < length inp
    → Sound avail inp out (step_refer avail width (suc size) offset inp out)
unfolding step_refer referred accessing
step_refer-Sound avail width size offset inp out w h = elim (Bool-cases (ltb (length inp) width)) [
  | inl short ↦ rw short stops
  | inr enough ↦ elim (Bool-cases (ltb avail (length out + suc size))) [
    | inl full ↦ rw (enough, full) stops
    | inr room ↦ elim (Bool-cases (ltb offset (length out))) [
      | inl inside ↦
          let r = copy_back-Repeats (suc size) offset out (ground arith) in
          let count = r.count in
          rw (enough, room, refer-copy_back size offset out, r.returns)
            (appends r.fresh r.kept
              (omega (
                arith,
                ap (λ l. length l) r.kept,
                length-append r.fresh out,
                ltb→le avail (length out + suc size) room,
              ))
              (omega (arith, length-drop width inp)))
      | inr outside ↦
          rw
            (
              enough,
              room,
              refer-copy_back size offset out,
              copy_back-none size offset out (ground arith),
            )
            faults
    ]
  ]
]

-- Every phrase has a size above zero.
pub size_of-suc : (t : ChunkType) (byte : ℕ) → size_of t byte ≡ suc (size_of t byte - 1)
unfolding size_of
size_of-suc plain byte = omega arith
size_of-suc two_byte byte = omega arith
size_of-suc three_byte byte = omega arith

step_of-Sound :
    (t : ChunkType) (avail byte offset : ℕ) (inp out : Bytes)
    → 0 < length inp
    → Sound avail inp out (step_of t avail (size_of t byte) offset inp out)
unfolding step_of
step_of-Sound plain avail byte offset inp out h =
    step_plain-Sound avail (size_of plain byte) inp out h
step_of-Sound two_byte avail byte offset inp out h =
    rw (size_of-suc two_byte byte)
      (step_refer-Sound avail 2 (size_of two_byte byte - 1) offset inp out (omega arith) h)
step_of-Sound three_byte avail byte offset inp out h =
    rw (size_of-suc three_byte byte)
      (step_refer-Sound avail 3 (size_of three_byte byte - 1) offset inp out (omega arith) h)

step-Sound :
    (avail : ℕ) (inp out : Bytes) → 0 < length inp → Sound avail inp out (step avail inp out)
unfolding step adc_chunk_size
step-Sound avail inp out h =
    step_of-Sound (adc_chunk_type (byte_at inp 0)) avail (byte_at inp 0) (adc_chunk_offset inp) inp
      out h

-- `result` is a normal return that appended to `out`, within `avail`, and left a part of `inp`; or the
-- run read before the start of the output.
pub data Bounded (avail : ℕ) (inp out : Bytes) : Result (Bytes × Bytes) → Type 0 where
  returns :
      {rest out' : Bytes} (fresh : Bytes)
      → out' ≡ fresh ++ out
      → length out' ≤ avail
      → length rest ≤ length inp
      → Bounded avail inp out (ok (rest, out'))
  reads_outside : Bounded avail inp out (err memory_fault)

Bounded-trans :
    {avail : ℕ} {inp inp' out out' : Bytes} (fresh : Bytes)
    → out' ≡ fresh ++ out
    → length inp' < length inp
    → {r : Result (Bytes × Bytes)} → Bounded avail inp' out' r
    → Bounded avail inp out r
Bounded-trans fresh e h (returns more e' room less) =
    returns (more ++ fresh) (e' ∙ ap (λ l. more ++ l) e ∙ sym (append_assoc more fresh _)) room
      (omega arith)
Bounded-trans fresh e h reads_outside = reads_outside

decompress_loop-Bounded :
    (fuel avail : ℕ) (inp out : Bytes)
    → length inp ≤ fuel
    → length out ≤ avail
    → Bounded avail inp out (decompress_loop fuel avail inp out)
unfolding decompress_loop
decompress_loop-Bounded fuel avail [] out h p = returns [] refl p (omega arith)
decompress_loop-Bounded zero avail (b ∷ inp) out h p = absurd (omega arith)
decompress_loop-Bounded (suc fuel) avail (b ∷ inp) out h p =
    go (step avail (b ∷ inp) out) refl (step-Sound avail (b ∷ inp) out (omega arith))
      (λ inp' out' less room. decompress_loop-Bounded fuel avail inp' out' less room)
  where
    go :
        (s : Step)
        → step avail (b ∷ inp) out ≡ s
        → Sound avail (b ∷ inp) out s
        → ((inp' out' : Bytes)
            → length inp' ≤ fuel
            → length out' ≤ avail
            → Bounded avail inp' out' (decompress_loop fuel avail inp' out'))
        → Bounded avail (b ∷ inp) out (decompress_loop (suc fuel) avail (b ∷ inp) out)
    go s e (appends {out'} {inp'} fresh e' room less) ih =
        rw (e, decompress_loop) (Bounded-trans fresh e' less (ih inp' out' (omega arith) room))
    go s e stops ih = rw (e, decompress_loop) (returns [] refl p (omega arith))
    go s e faults ih = rw (e, decompress_loop) reads_outside

-- The result of `adc_decompress`: at most the input is consumed; the bytes that were there before stay
-- as they are, and at most `avail` are written; the only other end is a read before the output, never
-- one behind the input.
pub data Keeps (avail : ℕ) (input out : Bytes) : Result Decompressed → Type 0 where
  no_input : input ≡ [] → Keeps avail input out (ok (record { used = 0; written = none }))
  writes :
      {used : ℕ} {out' : Bytes} (fresh : Bytes)
      → out' ≡ fresh ++ out
      → length out' ≤ avail
      → used ≤ length input
      → Keeps avail input out (ok (record { used = used; written = some out' }))
  reads_before : Keeps avail input out (err memory_fault)

finish-Keeps :
    (avail : ℕ) (input out : Bytes) (r : Result (Bytes × Bytes))
    → Bounded avail input out r
    → Keeps avail input out (finish input r)
unfolding finish
finish-Keeps avail input out r (returns fresh e room less) = writes fresh e room (omega arith)
finish-Keeps avail input out r reads_outside = reads_before

-- With `restartIndex` inside the buffer, the decoder ends; it stays inside the input and the buffer's
-- end, and keeps what was decoded before. It may only read before the start of the buffer.
pub adc_decompress-Keeps :
    (input : Bytes) (avail : ℕ) (out : Bytes)
    → length out ≤ avail
    → Keeps avail input out (adc_decompress input avail out)
unfolding adc_decompress
adc_decompress-Keeps [] avail out h = no_input refl
adc_decompress-Keeps (b ∷ inp) avail out h =
    finish-Keeps avail (b ∷ inp) out _
      (decompress_loop-Bounded (length (b ∷ inp)) avail (b ∷ inp) out (omega arith) h)

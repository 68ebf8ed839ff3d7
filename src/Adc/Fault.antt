-- ===== src/Adc/Fault.antt =====
-- A chunk that refers to bytes before the start of the output.
use darling_dmg.Common.{
  ℕ, suc, ◌+◌, ◌-◌, ◌≤◌, ◌≡◌, ◌≢◌, refl, ◌∷◌, Bytes, length, err, memory_fault, arith, le→ltb,
}
use darling_dmg.Adc.{
  ChunkType, plain, two_byte, three_byte, adc_chunk_type, adc_chunk_size, adc_chunk_offset, size_of,
  step, step_of, step_refer, accessing, referred, fault, finish, decompress_loop, adc_decompress,
}
use darling_dmg.Adc.Copy.{refer-copy_back, copy_back-none}
use darling_dmg.Adc.Loop.{size_of-suc}

step_refer-fault :
    (avail width size offset : ℕ) (inp out : Bytes)
    → width ≤ length inp
    → length out + suc size ≤ avail
    → length out ≤ offset
    → step_refer avail width (suc size) offset inp out ≡ fault
unfolding step_refer referred accessing
step_refer-fault avail width size offset inp out w room outside = rw (
  le→ltb (length inp) width w,
  le→ltb avail (length out + suc size) room,
  refer-copy_back size offset out,
  copy_back-none size offset out outside,
)

step_of-fault :
    (t : ChunkType) (avail byte offset : ℕ) (inp out : Bytes)
    → t ≢ plain
    → 3 ≤ length inp
    → length out + size_of t byte ≤ avail
    → length out ≤ offset
    → step_of t avail (size_of t byte) offset inp out ≡ fault
unfolding step_of
step_of-fault plain avail byte offset inp out ne w room outside = absurd (ne refl)
step_of-fault two_byte avail byte offset inp out ne w room outside =
    rw (size_of-suc two_byte byte) (
      step_refer-fault avail 2 (size_of two_byte byte - 1) offset inp out (omega arith)
        (omega (arith, size_of-suc two_byte byte)) outside)
step_of-fault three_byte avail byte offset inp out ne w room outside =
    rw (size_of-suc three_byte byte) (
      step_refer-fault avail 3 (size_of three_byte byte - 1) offset inp out w
        (omega (arith, size_of-suc three_byte byte)) outside)

loop-fault :
    (avail b : ℕ) (inp out : Bytes)
    → step avail (b ∷ inp) out ≡ fault
    → adc_decompress (b ∷ inp) avail out ≡ err memory_fault
unfolding adc_decompress finish decompress_loop
loop-fault avail b inp out e = rw (e, decompress_loop)

-- The decoder does not test a back-reference against what it has written: a first chunk that refers
-- before the start of the buffer, and whose output fits, makes it read there.
pub adc_decompress-fault :
    (avail b : ℕ) (inp out : Bytes)
    → adc_chunk_type b ≢ plain
    → 3 ≤ length (b ∷ inp)
    → length out + adc_chunk_size b ≤ avail
    → length out ≤ adc_chunk_offset (b ∷ inp)
    → adc_decompress (b ∷ inp) avail out ≡ err memory_fault
unfolding step adc_chunk_size
adc_decompress-fault avail b inp out ne long room outside = loop-fault avail b inp out (
    step_of-fault (adc_chunk_type b) avail b (adc_chunk_offset (b ∷ inp)) (b ∷ inp) out ne long room
      outside)

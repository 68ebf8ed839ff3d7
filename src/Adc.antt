-- ===== src/Adc.antt =====
-- src/adc.h, adc.cpp: the Apple Data Compression decoder. The input is what `inp` still points at. The
-- output is kept newest byte first, so that `*(outp - offset - 1)` is its element number `offset`;
-- what lies before its end is outside the buffer.
pub mod Copy
pub mod Loop
pub mod Phrases
pub mod Fault
mod Tests
use darling_dmg.Common.{
  ℕ, zero, suc, ◌+◌, ◌-◌, ◌*◌, ◌/◌, ◌%◌, Bool, ltb, ◌==◌, if◌then◌else◌, Option, none, some, [],
  ◌∷◌, ◌++◌, Bytes, byte_at, get_elem?, length, take, drop, replicate, Result, ok, err,
  memory_fault, input_over_read, out_of_fuel,
}

pub data ChunkType : Type 0 where
  plain two_byte three_byte : ChunkType

-- `_byte & 0x80` and `_byte & 0x40`.
pub adc_chunk_type : ℕ → ChunkType
adc_chunk_type byte =
    if byte / 0x80 % 2 == 1 then plain else if byte / 0x40 % 2 == 1 then three_byte else two_byte

pub size_of : ChunkType → ℕ → ℕ
size_of plain byte = byte % 0x80 + 1
size_of two_byte byte = byte % 0x40 / 4 + 3
size_of three_byte byte = byte % 0x40 + 4

pub adc_chunk_size : ℕ → ℕ
unfolding adc_chunk_type size_of
adc_chunk_size byte = size_of (adc_chunk_type byte) byte

pub offset_of : ChunkType → Bytes → ℕ
offset_of plain inp = 0
offset_of two_byte inp = byte_at inp 0 % 4 * 0x100 + byte_at inp 1
offset_of three_byte inp = byte_at inp 1 * 0x100 + byte_at inp 2

pub adc_chunk_offset : Bytes → ℕ
unfolding adc_chunk_type offset_of
adc_chunk_offset inp = offset_of (adc_chunk_type (byte_at inp 0)) inp

-- memcpy(outp, bytes, n): the newest byte comes to stand first.
unfoldable pub push_all : Bytes → Bytes → Bytes
push_all [] out = out
push_all (b ∷ bytes) out = push_all bytes (b ∷ out)

-- The loop of a back-reference: one byte at a time, `offset + 1` bytes behind.
unfoldable pub copy_back : ℕ → ℕ → Bytes → Option Bytes
copy_back zero offset out = some out
copy_back (suc n) offset out = elim (get_elem? out offset) [
  | none ↦ none
  | some b ↦ copy_back n offset (b ∷ out)
]

-- memset(outp, *(outp - 1), n).
pub fill : ℕ → Bytes → Option Bytes
fill n [] = none
fill n (b ∷ out) = some (replicate n b ++ b ∷ out)

pub refer : ℕ → ℕ → Bytes → Option Bytes
unfolding fill copy_back
refer n offset out = if offset == 0 then fill n out else copy_back n offset out

-- One chunk: the output after it and the input behind it, or the end of the loop.
pub data Step : Type 0 where
  next : Bytes → Bytes → Step
  stop : Step
  fault : Step
  over_read : Step

-- An access to the first `n` bytes of the input that is left.
pub accessing : ℕ → Bytes → Step → Step
accessing n inp after = if ltb (length inp) n then over_read else after

pub referred : Bytes → Option Bytes → Step
referred rest none = fault
referred rest (some out) = next out rest

pub step_plain : ℕ → ℕ → Bytes → Bytes → Step
unfolding accessing
step_plain avail size inp out =
    if ltb (length inp) (size + 1)
    then stop
    else if ltb avail (length out + size)
    then stop
    else accessing (size + 1) inp
        (next (push_all (take size (drop 1 inp)) out) (drop (size + 1) inp))

-- A back-reference whose phrase has `width` bytes.
pub step_refer : ℕ → ℕ → ℕ → ℕ → Bytes → Bytes → Step
unfolding referred refer accessing
step_refer avail width size offset inp out =
    if ltb (length inp) width
    then stop
    else if ltb avail (length out + size)
    then stop
    else accessing width inp (referred (drop width inp) (refer size offset out))

pub step_of : ChunkType → ℕ → ℕ → ℕ → Bytes → Bytes → Step
unfolding step_plain step_refer push_all
step_of plain avail size offset inp out = step_plain avail size inp out
step_of two_byte avail size offset inp out = step_refer avail 2 size offset inp out
step_of three_byte avail size offset inp out = step_refer avail 3 size offset inp out

pub step : ℕ → Bytes → Bytes → Step
unfolding step_of adc_chunk_size adc_chunk_offset
step avail inp out =
    step_of (adc_chunk_type (byte_at inp 0)) avail (adc_chunk_size (byte_at inp 0))
      (adc_chunk_offset inp) inp out

-- The `while` loop, from the input at hand: what is left of it, and the output.
pub decompress_loop : ℕ → ℕ → Bytes → Bytes → Result (Bytes × Bytes)
unfolding step
decompress_loop fuel avail [] out = ok ([], out)
decompress_loop zero avail (b ∷ inp) out = err out_of_fuel
decompress_loop (suc fuel) avail (b ∷ inp) out = elim (step avail (b ∷ inp) out) [
  | next out' inp' ↦ decompress_loop fuel avail inp' out'
  | stop ↦ ok (b ∷ inp, out)
  | fault ↦ err memory_fault
  | over_read ↦ err input_over_read
]

-- The return value and, unless there is no input, `*bytes_written` with the bytes before it.
pub record Decompressed : Type 0 where
  pub used : ℕ
  pub written : Option Bytes

pub finish : Bytes → Result (Bytes × Bytes) → Result Decompressed
finish input (ok (rest, out)) =
    ok (record { used = length input - length rest; written = some out })
finish input (err e) = err e

-- `adc_decompress`, with `out` the bytes up to `restartIndex`.
unfoldable pub adc_decompress : Bytes → ℕ → Bytes → Result Decompressed
unfolding finish decompress_loop
adc_decompress [] avail out = ok (record { used = 0; written = none })
adc_decompress (b ∷ inp) avail out =
    finish (b ∷ inp) (decompress_loop (length (b ∷ inp)) avail (b ∷ inp) out)

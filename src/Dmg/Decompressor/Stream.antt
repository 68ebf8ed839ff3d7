-- ===== src/Dmg/Decompressor/Stream.antt =====
-- src/DMGDecompressor.cpp: DMGDecompressor_Zlib and DMGDecompressor_Bzip2. `advance` stands for one call of
-- inflate or of BZ2_bzDecompress: from the library's state, the input at hand and the room in the
-- output it gives the new state, the number of bytes used, the bytes put out and the status.
pub mod Library
pub mod Loop
pub mod Source
pub mod Stored
mod Tests
use darling_dmg.Common.{
  ℕ, zero, suc, ◌+◌, ◌-◌, min, Bool, ltb, ◌==◌, if◌then◌else◌, Bytes, [], ◌++◌, length, take, drop,
  Result, ok, err, out_of_fuel, ◌>>=◌,
}
use darling_dmg.Io.{Reader}
use darling_dmg.Dmg.Decompressor.{read_some, processed, in_buffer}

-- Z_OK and the like, the end of the stream, and the negative values.
pub data Status : Type 0 where
  running stream_end failed : Status

pub record Advance {ℓ} (Z : Type ℓ) : Type ℓ where
  pub state : Z
  pub used : ℕ
  pub out : Bytes
  pub status : Status

-- `m_strm` and `m_pos`; `input` is what `next_in` points at.
pub record Stream {ℓ} (Z : Type ℓ) : Type ℓ where
  pub state : Z
  pub input : Bytes
  pub pos : ℕ

-- How the loop of `decompress` is left.
pub data Ended : Type 0 where
  room_filled at_end negative : Ended

-- The value that `decompress` returns.
pub data Value : Type 0 where
  gave : ℕ → Value
  status_value : Value

module _ {ℓ} {Z : Type ℓ} (advance : Z → Bytes → ℕ → Advance Z) (r : Reader) where
  unfoldable pub refill : Stream Z → Result (Stream Z)
  unfolding read_some
  refill s =
      let loaded = (do
        bytes ← read_some r s.pos
        ok (record s { input = bytes; pos = processed s.pos (length bytes) })) in
      if length s.input == 0 then loaded else ok s

  abbrev pub advanced : Stream Z → Advance Z → Stream Z
  advanced s a = record s { state = a.state; input = drop a.used s.input }

  -- The loop of `decompress(output, count)`, which runs once at least.
  unfoldable pub stream_loop : ℕ → ℕ → Bytes → Stream Z → Result (Ended × Bytes × Stream Z)
  unfolding refill
  stream_loop zero count out s = err out_of_fuel
  stream_loop (suc fuel) count out s = do
    s' ← refill s
    let a = advance s'.state s'.input (count - length out)
    let more = stream_loop fuel count (out ++ a.out) (advanced s' a)
    elim a.status [
      | stream_end ↦ ok (at_end, out ++ a.out, advanced s' a)
      | failed ↦ ok (negative, out ++ a.out, advanced s' a)
      | running ↦
          if ltb (length (out ++ a.out)) count
          then more
          else ok (room_filled, out ++ a.out, advanced s' a)
    ]

  -- `end_value count n` is what is returned at the end of the stream, with `n` of `count` bytes put out.
  module _ (end_value : ℕ → ℕ → ℕ) where
    unfoldable pub value_of : ℕ → Ended → ℕ → Value
    value_of count room_filled n = gave count
    value_of count at_end n = gave (end_value count n)
    value_of count negative n = status_value

    unfoldable pub decompress_some : ℕ → Stream Z → Result (Value × Bytes × Stream Z)
    unfolding stream_loop value_of
    decompress_some count s = do
      (e, out, s') ← stream_loop (r.size + count + 1) count [] s
      ok (value_of count e (length out), out, s')

    -- `decompress(output, count, offset)`: the bytes before `offset` are thrown away, 4096 at a time.
    unfoldable pub decompress_from : ℕ → ℕ → ℕ → Stream Z → Result (Value × Bytes)
    unfolding decompress_some
    decompress_from zero count offset s =
        let last = (do (v, out, s') ← decompress_some count s; ok (v, out)) in
        if ltb 0 offset then err out_of_fuel else last
    decompress_from (suc fuel) count offset s =
        let last = (do (v, out, s') ← decompress_some count s; ok (v, out)) in
        let skip = (do
          (v, waste, s') ← decompress_some (min 4096 offset) s
          elim v [
            | gave n ↦
                let rest = decompress_from fuel count (offset - n) s' in
                if n == 0 then ok (gave 0, []) else rest
            | status_value ↦ ok (status_value, [])
          ]) in
        if ltb 0 offset then skip else last

  -- The two classes differ in what they return at the end of the stream.
  unfoldable pub zlib_decompress : ℕ → ℕ → Z → Result (Value × Bytes)
  unfolding decompress_from
  zlib_decompress count offset z =
      decompress_from (λ count n. n) offset count offset (record { state = z; input = []; pos = 0 })

  unfoldable pub bzip2_decompress : ℕ → ℕ → Z → Result (Value × Bytes)
  unfolding decompress_from
  bzip2_decompress count offset z =
      decompress_from (λ count n. count) offset count offset
        (record { state = z; input = []; pos = 0 })

-- What `readRun` of a partition sees of the output.
unfoldable pub output_of : ℕ → Result (Value × Bytes) → Result Bytes
unfolding in_buffer
output_of undef (ok (gave n, out)) = ok (in_buffer undef n out)
output_of undef (ok (status_value, out)) = ok []
output_of undef (err e) = err e

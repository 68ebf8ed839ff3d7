-- ===== src/Dmg/Decompressor/Window.antt =====
-- src/DMGDecompressor.cpp: DMGDecompressor_ADC, which decodes into a window of twice the reach of a
-- back-reference and lets go of its first half when both are full. `held` are the bytes of
-- the window up to `restartIndex`, newest first as in Adc.
pub mod Phrases
mod Tests
use darling_dmg.Common.{
  ℕ, zero, suc, ◌+◌, ◌-◌, ltb, leb, ◌==◌, if◌then◌else◌, Option, none, some, Bytes, [], ◌++◌,
  length, take, drop, Result, ok, err, io_error, memory_fault, out_of_fuel, ◌>>=◌,
}
use darling_dmg.Common.Word.{size_limit}
use darling_dmg.Io.{Reader}
use darling_dmg.Adc.{push_all, adc_decompress}
use darling_dmg.Dmg.Decompressor.{read_some, processed}

abbrev pub half : ℕ
half = 0x10000

abbrev pub window_size : ℕ
window_size = 0x20080

-- The variables of `decompress`; `out` is what was copied to the output.
pub record Window : Type 0 where
  pub pos : ℕ
  pub held : Bytes
  pub offset : ℕ
  pub left : ℕ
  pub out : Bytes

-- memcpy from the window, whose bytes are kept newest first.
unfoldable pub copied : ℕ → ℕ → Bytes → Bytes
unfolding push_all
copied offset n held = take n (drop offset (push_all held []))

-- What a round copies, with `held` the bytes of the window after the decoding.
unfoldable pub take_window : Bytes → Window → Window
unfolding copied
take_window held w =
    if leb (w.offset + w.left) (length held)
    then record w { out = w.out ++ copied w.offset w.left held; left = 0 }
    else if leb 0x20000 (length held)
    then if ltb w.offset half
      then record w {
        out = w.out ++ copied w.offset (half - w.offset) held;
        offset = 0;
        left = w.left - half;
        held = take (length held - half) held;
      }
      else record w { offset = w.offset - half; held = take (length held - half) held }
    else record w { held = held }

-- With no input the decoder leaves `bytes_written` unset, but then it has used none either.
unfoldable pub take_written : ℕ → Option Bytes → Window → Result Window
unfolding take_window
take_written pos none w = err memory_fault
take_written pos (some held) w = let w' = take_window held w in ok (record w' { pos = pos })

module _ (r : Reader) where
  unfoldable pub window_round : Window → Result Window
  unfolding take_written read_some adc_decompress
  window_round w = do
    input ← read_some r w.pos
    d ← adc_decompress input window_size w.held
    if d.used == 0 then err io_error else take_written (processed w.pos d.used) d.written w

  unfoldable pub window_loop : ℕ → Window → Result Bytes
  unfolding window_round
  window_loop zero w = if ltb 0 w.left then err out_of_fuel else ok w.out
  window_loop (suc fuel) w =
      let round = (do w' ← window_round w; window_loop fuel w') in
      if ltb 0 w.left then round else ok w.out

  -- `decompress(output, count, offset)`: the value it returns and what it copies to the
  -- output. `offset` is a 64-bit pattern: one with the highest bit is negative.
  unfoldable pub window_decompress : ℕ → ℕ → Result (ℕ × Bytes)
  unfolding window_loop
  window_decompress count offset =
      let copies = (do
        out ←
            window_loop (r.size + 1)
              (record { pos = 0; held = []; offset = offset; left = count; out = [] })
        ok (count, out)) in
      if leb size_limit offset then err io_error else copies

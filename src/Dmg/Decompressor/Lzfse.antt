-- ===== src/Dmg/Decompressor/Lzfse.antt =====
-- src/DMGDecompressor.cpp: DMGDecompressor_LZFSE. `decode input room` stands for lzfse_decode_buffer: the
-- bytes that it puts out, which are none when it fails. Where the source counts the bytes of the only read after the
-- decoding, the model does so before: a failure leaves no position behind.
pub mod Source
mod Tests
use darling_dmg.Common.{
  ℕ, zero, suc, ◌-◌, min, ltb, leb, memory_fault, ◌==◌, if◌then◌else◌, Bytes, ◌++◌, length, Result,
  ok, err, io_error, assertion, out_of_fuel, ◌>>=◌,
}
use darling_dmg.Common.Word.{i32_limit}
use darling_dmg.Io.{Reader}
use darling_dmg.Dmg.Decompressor.{read_some, processed}

module _ (decode : Bytes → ℕ → Bytes) (r : Reader) where
  -- The loop that collects the input, from what was read before. `int inputBytes` must not overflow.
  unfoldable pub collect : ℕ → ℕ → Bytes → Result (Bytes × ℕ)
  unfolding read_some
  collect zero pos bytes = err out_of_fuel
  collect (suc fuel) pos bytes = do
    next ← read_some r pos
    let more = collect fuel (processed pos (length next)) (bytes ++ next)
    if leb i32_limit (length (bytes ++ next))
        then err memory_fault
        else if ltb (length (bytes ++ next)) r.size
        then more
        else ok (bytes ++ next, processed pos (length next))

  unfoldable pub whole_input : ℕ → Result (Bytes × ℕ)
  unfolding collect
  whole_input pos = do
    bytes ← read_some r pos
    let big = collect r.size (processed pos (length bytes)) bytes
    if ltb (length bytes) r.size then big else ok (bytes, processed pos (length bytes))

  -- `decompress(output, outputBytes)`.
  unfoldable pub lzfse_some : ℕ → ℕ → Result (Bytes × ℕ)
  unfolding whole_input
  lzfse_some count pos = do
    (input, pos') ← whole_input pos
    let out = decode input count
    if length out == 0 then err io_error else ok (out, pos')

  -- `decompress(output, count, offset)` with the reader at `pos`.
  unfoldable pub lzfse_from : ℕ → ℕ → ℕ → ℕ → Result Bytes
  unfolding lzfse_some
  lzfse_from zero count offset pos =
      let last = (do (out, pos') ← lzfse_some count pos; ok out) in
      if ltb 0 offset then err out_of_fuel else last
  lzfse_from (suc fuel) count offset pos =
      let last = (do (out, pos') ← lzfse_some count pos; ok out) in
      let skip = (do
        (waste, pos') ← lzfse_some (min 4096 offset) pos
        let rest = lzfse_from fuel count (offset - length waste) pos'
        if length waste == min 4096 offset then rest else err assertion) in
      if ltb 0 offset then skip else last

  unfoldable pub lzfse_decompress : ℕ → ℕ → Result Bytes
  unfolding lzfse_from
  lzfse_decompress count offset = lzfse_from offset count offset 0

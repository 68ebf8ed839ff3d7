-- ===== src/Adc/Tests.antt =====
-- The decoder at concrete inputs.
use darling_dmg.Common.{
  ◌≡◌, ◌≢◌, refl, List, [], ◌∷◌, Bytes, some, ok, err, memory_fault, arith, length,
}
use darling_dmg.Adc.{
  adc_chunk_type, adc_chunk_size, adc_chunk_offset, adc_decompress, copy_back, push_all, plain,
}
use darling_dmg.Adc.Copy
use darling_dmg.Adc.Loop
use darling_dmg.Adc.Loop.{Keeps}
use darling_dmg.Adc.Phrases
use darling_dmg.Adc.Phrases.{Phrase, store_phrase, short_phrase, long_phrase, encode_all, run}
use darling_dmg.Adc.Fault

-- "ab", then 4 bytes from 2 behind, then 5 times the last byte.
abbrev phrases : List Phrase
phrases = store_phrase (b'a' ∷ b'b' ∷ []) ∷ short_phrase 4 1 ∷ long_phrase 5 0 ∷ []

abbrev packed : Bytes
packed = 0x81 ∷ b'a' ∷ b'b' ∷ 4 ∷ 1 ∷ 0x41 ∷ 0 ∷ 0 ∷ []

abbrev unpacked : Bytes
unpacked = b'b' ∷ b'b' ∷ b'b' ∷ b'b' ∷ b'b' ∷ b'b' ∷ b'a' ∷ b'b' ∷ b'a' ∷ b'b' ∷ b'a' ∷ []

encode_phrases : encode_all phrases ≡ packed
unfolding encode_all
encode_phrases = refl

phrases-out : run phrases [] ≡ some unpacked
unfolding run push_all copy_back
phrases-out = refl

decompress_packed : adc_decompress packed 100 [] ≡ ok (record { used = 8; written = some unpacked })
unfolding adc_decompress
decompress_packed = refl

copy_back-Repeats_example : Copy.Repeats 4 1 (b'b' ∷ b'a' ∷ []) (copy_back 4 1 (b'b' ∷ b'a' ∷ []))
copy_back-Repeats_example = Copy.copy_back-Repeats 4 1 (b'b' ∷ b'a' ∷ []) (omega arith)

adc_decompress-Keeps_example : Keeps 100 packed [] (adc_decompress packed 100 [])
adc_decompress-Keeps_example = Loop.adc_decompress-Keeps packed 100 [] (omega arith)

adc_decompress-encode_all_example :
    adc_decompress (encode_all phrases) 100 []
    ≡ ok (record { used = length (encode_all phrases); written = some unpacked })
adc_decompress-encode_all_example =
    Phrases.adc_decompress-encode_all 100 (store_phrase (b'a' ∷ b'b' ∷ []))
      (short_phrase 4 1 ∷ long_phrase 5 0 ∷ []) [] unpacked (omega arith) phrases-out (omega arith)

two_byte_chunk : adc_chunk_type 4 ≢ plain
unfolding adc_chunk_type
two_byte_chunk e = cc e

adc_decompress-fault_example : adc_decompress (4 ∷ 1 ∷ 0 ∷ []) 100 (b'a' ∷ []) ≡ err memory_fault
unfolding adc_chunk_size adc_chunk_offset
adc_decompress-fault_example =
    Fault.adc_decompress-fault 100 4 (1 ∷ 0 ∷ []) (b'a' ∷ []) two_byte_chunk (omega arith)
      (omega arith) (omega arith)

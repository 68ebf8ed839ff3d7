-- ===== src/Dmg/Decompressor/Window/Tests.antt =====
-- One plain chunk of three bytes, and a run of three phrases.
use darling_dmg.Common.{
  ◌-◌, ◌^◌, ◌≡◌, refl, arith, List, length, some, ◌≤◌, [], ◌∷◌, Bytes, ok, err, io_error,
}
use darling_dmg.Io.{Reader, memory_reader}
use darling_dmg.Adc.{push_all, copy_back}
use darling_dmg.Adc.Phrases.{Phrase, store_phrase, short_phrase, long_phrase, encode_all, run}
use darling_dmg.Dmg.Decompressor.{buffer_size}
use darling_dmg.Dmg.Decompressor.Window.Phrases
use darling_dmg.Dmg.Decompressor.Window.{window_decompress}

abbrev chunk : Bytes
chunk = 0x82 ∷ 5 ∷ 6 ∷ 7 ∷ []

abbrev disk : Reader
disk = memory_reader chunk

last_two : window_decompress disk 2 1 ≡ ok (2, 6 ∷ 7 ∷ [])
unfolding window_decompress memory_reader
last_two = refl

negative_offset : window_decompress disk 2 (2 ^ 64 - 1) ≡ err io_error
unfolding window_decompress memory_reader
negative_offset = refl

past_end : window_decompress disk 3 1 ≡ err io_error
unfolding window_decompress memory_reader
past_end = refl

-- "ab", then 4 bytes from 2 behind, then 5 times the last byte.
abbrev more_phrases : List Phrase
more_phrases = short_phrase 4 1 ∷ long_phrase 5 0 ∷ []

abbrev plain : Bytes
plain = b'a' ∷ b'b' ∷ b'a' ∷ b'b' ∷ b'a' ∷ b'b' ∷ b'b' ∷ b'b' ∷ b'b' ∷ b'b' ∷ b'b' ∷ []

phrases-plain : run (store_phrase (b'a' ∷ b'b' ∷ []) ∷ more_phrases) [] ≡ some (push_all plain [])
unfolding run push_all copy_back
phrases-plain = refl

few_packed : length (encode_all (store_phrase (b'a' ∷ b'b' ∷ []) ∷ more_phrases)) ≤ buffer_size
unfolding encode_all
few_packed = omega arith

window_decompress-encode_all_example :
    window_decompress
      (memory_reader (encode_all (store_phrase (b'a' ∷ b'b' ∷ []) ∷ more_phrases)))
      4
      3
    ≡ ok (4, b'b' ∷ b'a' ∷ b'b' ∷ b'b' ∷ [])
window_decompress-encode_all_example =
    Phrases.window_decompress-encode_all plain (store_phrase (b'a' ∷ b'b' ∷ [])) more_phrases 4 3
      (omega arith) phrases-plain (omega arith) few_packed (omega arith) (omega arith)

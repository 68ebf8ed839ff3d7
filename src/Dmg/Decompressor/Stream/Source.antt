-- ===== src/Dmg/Decompressor/Stream/Source.antt =====
-- The stream decompressors as sources of plain data.
use mathlib.Core.Path.{subst}
use darling_dmg.Common.{
  ℕ, zero, suc, ◌+◌, ◌-◌, ◌≤◌, ◌<◌, ◌≡◌, refl, sym, ap, ◌∙◌, min, false, arith, lt→ltb, ◌==◌, [],
  ◌++◌, Bytes, replicate, byte_at, length, take, Result, ok, length-take, length-append,
  byte_at-take, byte_at-append_left,
}
use darling_dmg.Common.Word.{u32_mod}
use darling_dmg.Io.{Reader}
use darling_dmg.Io.Serves.{Serves, Returns}
use darling_dmg.Dmg.Decompressor.{in_buffer}
use darling_dmg.Dmg.Decompressor.Stream.{
  Advance, Stream, Ended, Value, gave, stream_loop, value_of, decompress_some, decompress_from,
  zlib_decompress, bzip2_decompress, output_of,
}
use darling_dmg.Dmg.Decompressor.Stream.Library.{IsLibrary}
use darling_dmg.Dmg.Decompressor.Stream.Loop

module _ {ℓ} {Z : Type ℓ} (advance : Z → Bytes → ℕ → Advance Z) (packed : ℕ → ℕ) (plain : ℕ → ℕ)
    (plain_size : ℕ) (r : Reader) (z0 : Z)
    (lib : IsLibrary advance packed r.size plain plain_size z0) (serves : Serves r packed)
    (small : r.size < u32_mod) where
  abbrev StandsAt : ℕ → ℕ → Stream Z → Type ℓ
  StandsAt i k s = Loop.Stands advance packed plain plain_size r z0 lib i k s

  -- The next `count` bytes of the plain data, and the stream behind them.
  record Chunk (k count : ℕ) (result : Result (Value × Bytes × Stream Z)) : Type ℓ where
    out : Bytes
    s' : Stream Z
    returns : result ≡ ok (gave count, out, s')
    full : length out ≡ count
    bytes : (j : ℕ) → j < count → byte_at out j ≡ plain (k + j)
    i : ℕ
    stands : k + count < plain_size → StandsAt i (k + count) s'

  pub record Whole (k count : ℕ) (result : Result (Value × Bytes)) : Type 0 where
    pub out : Bytes
    pub returns : result ≡ ok (gave count, out)
    pub full : length out ≡ count
    pub bytes : (j : ℕ) → j < count → byte_at out j ≡ plain (k + j)

  abbrev start : Stream Z
  start = record { state = z0; input = []; pos = 0 }

  start-Stands : StandsAt 0 0 start
  start-Stands = record {
    at = lib.start;
    place = refl;
    inside = omega arith;
    bytes = λ j h. absurd (omega arith);
  }

  some-Ends :
      (k count i : ℕ) (s : Stream Z)
      → 0 < count
      → StandsAt i k s
      → k ≤ plain_size
      → Loop.Ends advance packed plain plain_size r z0 lib k count
          (stream_loop advance r (r.size + count + 1) count [] s)
  some-Ends k count i s room st within =
      Loop.stream_loop-Ends advance packed plain plain_size r z0 lib serves small
        (r.size + count + 1) k count [] s i (omega arith)
        (subst (λ x. StandsAt i x s) (omega arith) st)
        (record { order = omega arith; within = omega arith; bytes = λ j h. absurd (omega arith) })
        (omega arith)

  module _ (end_value : ℕ → ℕ → ℕ) (end_full : (n : ℕ) → end_value n n ≡ n) where
    value_of-Chunk :
        (k count : ℕ) (e : Ended) (out : Bytes) (s : Stream Z)
        → k + count ≤ plain_size
        → Loop.IsPlain advance packed plain plain_size r z0 lib k count out
        → Loop.Exit advance packed plain plain_size r z0 lib k count e out s
        → Chunk k count (ok (value_of advance r end_value count e (length out), out, s))
    unfolding value_of
    value_of-Chunk k count e out s fits w (Loop.is_filled out' s' i full st) = record {
      out = out;
      s' = s;
      returns = refl;
      full = full;
      bytes = λ j h. w.bytes j (omega arith);
      i = i;
      stands = λ _. st;
    }
    value_of-Chunk k count e out s fits w (Loop.is_at_end out' s' at) =
        let order = w.order in
        let full : length out ≡ count = omega arith in
        record {
          out = out;
          s' = s;
          returns = ap (λ n. ok (gave n, out, s)) (ap (end_value count) full ∙ end_full count);
          full = full;
          bytes = λ j h. w.bytes j (omega arith);
          i = 0;
          stands = λ h. absurd (omega arith);
        }

    decompress_some-Chunk :
        (k count i : ℕ) (s : Stream Z)
        → 0 < count
        → k + count ≤ plain_size
        → StandsAt i k s
        → Chunk k count (decompress_some advance r end_value count s)
    unfolding decompress_some
    decompress_some-Chunk k count i s room fits st =
        let e = some-Ends k count i s room st (omega arith) in
        rw e.returns (value_of-Chunk k count e.e e.out e.s' fits e.is_plain e.exit)

    last-Whole :
        (k count i fuel : ℕ) (s : Stream Z)
        → 0 < count
        → k + count ≤ plain_size
        → StandsAt i k s
        → Whole k count (decompress_from advance r end_value fuel count 0 s)
    unfolding decompress_from
    last-Whole k count i zero s room fits st =
        let c = decompress_some-Chunk k count i s room fits st in
        rw c.returns (record { out = c.out; returns = refl; full = c.full; bytes = c.bytes })
    last-Whole k count i (suc fuel) s room fits st =
        let c = decompress_some-Chunk k count i s room fits st in
        rw c.returns (record { out = c.out; returns = refl; full = c.full; bytes = c.bytes })

    eq_false : (n : ℕ) → 0 < n → (n == 0) ≡ false
    eq_false n h = ground arith

    skip-eq :
        (fuel count offset : ℕ) (s s' : Stream Z) (waste : Bytes)
        → 0 < offset
        → decompress_some advance r end_value (min 4096 offset) s
          ≡ ok (gave (min 4096 offset), waste, s')
        → decompress_from advance r end_value (suc fuel) count offset s
          ≡ decompress_from advance r end_value fuel count (offset - min 4096 offset) s'
    unfolding decompress_from
    skip-eq fuel count offset s s' waste h e =
        rw (lt→ltb 0 offset h, e, eq_false (min 4096 offset) (omega arith))

    decompress_from-Whole :
        (fuel k count offset i : ℕ) (s : Stream Z)
        → 0 < count
        → k + offset + count ≤ plain_size
        → offset ≤ fuel
        → StandsAt i k s
        → Whole (k + offset) count (decompress_from advance r end_value fuel count offset s)
    decompress_from-Whole fuel k count zero i s room fits enough st =
        subst (λ x. Whole x count (decompress_from advance r end_value fuel count 0 s))
          (omega arith) (last-Whole k count i fuel s room (omega arith) st)
    decompress_from-Whole zero k count (suc offset) i s room fits enough st = absurd (omega arith)
    decompress_from-Whole (suc fuel) k count (suc offset) i s room fits enough st =
        let n = min 4096 (suc offset) in
        let c = decompress_some-Chunk k n i s (omega arith) (omega arith) st in
        subst (Whole (k + suc offset) count)
          (sym (skip-eq fuel count (suc offset) s c.s' c.out (omega arith) c.returns))
          (subst
            (λ x.
              Whole x count (decompress_from advance r end_value fuel count (suc offset - n) c.s'))
            (omega arith)
            (decompress_from-Whole fuel (k + n) count (suc offset - n) c.i c.s' room (omega arith)
              (omega arith) (c.stands (omega arith))))

    start-Whole :
        (count offset : ℕ)
        → 0 < count
        → offset + count ≤ plain_size
        → Whole offset count (decompress_from advance r end_value offset count offset start)
    start-Whole count offset room fits =
        subst (λ x. Whole x count (decompress_from advance r end_value offset count offset start))
          (omega arith)
          (decompress_from-Whole offset 0 count offset 0 start room (omega arith) (omega arith)
            start-Stands)

  output_of-Returns :
      (undef offset count : ℕ) (result : Result (Value × Bytes))
      → Whole offset count result
      → Returns plain offset count (output_of undef result)
  unfolding output_of in_buffer
  output_of-Returns undef offset count result w =
      let full = w.full in
      rw w.returns (record {
        out = take count (w.out ++ replicate count undef);
        returns = refl;
        count = omega (arith, length-take {0}, length-append w.out (replicate count undef));
        bytes = λ j h.
            byte_at-take count j (w.out ++ replicate count undef) h
            ∙ byte_at-append_left w.out (replicate count undef) j (omega arith)
            ∙ w.bytes j h;
      })

  -- On a run shorter than 4 GiB whose format the library reads, and asked for a part of the plain
  -- data that is not empty and does not reach past its end, the
  -- decompressors for zlib and for bzip2 return, and give that part whole: the loop ends, the
  -- bytes before the offset are thrown away, and input is read from the compressed run as it is used up.
  pub stream_decompress-Returns :
      (undef count offset : ℕ)
      → 0 < count
      → offset + count ≤ plain_size
      → Returns plain offset count (output_of undef (zlib_decompress advance r count offset z0))
        × Returns plain offset count (output_of undef (bzip2_decompress advance r count offset z0))
  unfolding zlib_decompress bzip2_decompress
  stream_decompress-Returns undef count offset room fits = (
    output_of-Returns undef offset count (zlib_decompress advance r count offset z0)
        (start-Whole (λ c n. n) (λ n. refl) count offset room fits),
    output_of-Returns undef offset count (bzip2_decompress advance r count offset z0)
        (start-Whole (λ c n. c) (λ n. refl) count offset room fits),
  )

  pub record GivesAt (end_count : ℕ) (result : Result (Value × Bytes)) : Type 0 where
    pub out : Bytes
    pub returns : result ≡ ok (gave end_count, out)
    pub full : length out ≡ plain_size
    pub bytes : (j : ℕ) → j < plain_size → byte_at out j ≡ plain j

  past-GivesAt :
      (end_value : ℕ → ℕ → ℕ) (count : ℕ) (e : Ended) (out : Bytes) (s : Stream Z)
      → plain_size < count
      → Loop.IsPlain advance packed plain plain_size r z0 lib 0 count out
      → Loop.Exit advance packed plain plain_size r z0 lib 0 count e out s
      → GivesAt
          (end_value count plain_size)
          (ok (value_of advance r end_value count e (length out), out))
  unfolding value_of
  past-GivesAt end_value count e out s past w (Loop.is_filled out' s' i full st) =
      let within = w.within in absurd (omega arith)
  past-GivesAt end_value count e out s past w (Loop.is_at_end out' s' at) =
      let full : length out ≡ plain_size = omega arith in
      record {
        out = out;
        returns = ap (λ n. ok (gave (end_value count n), out)) full;
        full = full;
        bytes = λ j h. w.bytes j (omega arith) ∙ ap plain (omega arith);
      }

  past_end-GivesAt :
      (end_value : ℕ → ℕ → ℕ) (count : ℕ)
      → plain_size < count
      → GivesAt (end_value count plain_size) (decompress_from advance r end_value 0 count 0 start)
  unfolding decompress_from decompress_some
  past_end-GivesAt end_value count past =
      let e = some-Ends 0 count 0 start (omega arith) start-Stands (omega arith) in
      rw e.returns (past-GivesAt end_value count e.e e.out e.s' past e.is_plain e.exit)

  -- On a run shorter than 4 GiB whose format the library reads, asked from the start for more than there is, both put out the whole plain data, but only the one for zlib
  -- returns its length; the one for bzip2 returns the count that it was asked for.
  pub stream_past_end-GivesAt :
      (count : ℕ)
      → plain_size < count
      → GivesAt plain_size (zlib_decompress advance r count 0 z0)
        × GivesAt count (bzip2_decompress advance r count 0 z0)
  unfolding zlib_decompress bzip2_decompress
  stream_past_end-GivesAt count past =
      (past_end-GivesAt (λ c n. n) count past, past_end-GivesAt (λ c n. c) count past)

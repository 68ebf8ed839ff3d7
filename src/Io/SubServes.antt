-- ===== src/Io/SubServes.antt =====
-- A `SubReader` holds a part of what its parent holds.
use darling_dmg.Common.{ℕ, ◌+◌, ◌-◌, ◌≤◌, ◌<◌, min, ◌≡◌, ◌∙◌, ap, arith, le→ltb}
use darling_dmg.Common.Word.{i32_limit, size_limit, add64}
use darling_dmg.Io.{Reader, sub_reader, sub_count, sub_read, sub_block, sub_advise}
use darling_dmg.Io.Serves.{Returns, Advises, Serves}

sub_count-min :
    (size count offset : ℕ)
    → size < size_limit
    → count < i32_limit
    → offset ≤ size
    → sub_count size count offset ≡ min count (size - offset)
unfolding sub_count
sub_count-min size count offset small c h = ground arith

module _ (parent : Reader) (content : ℕ → ℕ) (base size : ℕ) where
  sub_read-Returns :
      Serves parent content
      → base + size ≤ parent.size
      → (count offset : ℕ) → count < i32_limit
      → offset ≤ size
      → Returns
          (λ i. content (base + i))
          offset
          (min count (size - offset))
          (sub_read parent base size count offset)
  unfolding sub_read
  sub_read-Returns s fits count offset c h =
      let n = min count (size - offset) in
      let small = s.small in
      let r = s.reads n (base + offset) (omega arith) (omega arith) in
      let e : min n (parent.size - (base + offset)) ≡ n = omega arith in
      let sum : add64 offset base ≡ base + offset = omega arith in
      record {
        out = r.out;
        returns =
            rw (le→ltb size offset h, sub_count-min size count offset (omega arith) c h, sum)
              r.returns;
        count = r.count ∙ e;
        bytes = λ i p. r.bytes i (omega arith) ∙ ap content (omega arith);
      }

  sub_advise-Advises :
      Serves parent content
      → base + size ≤ parent.size
      → (offset : ℕ) → offset < size
      → Advises size offset (sub_advise parent base size offset)
  unfolding sub_advise sub_block
  sub_advise-Advises s fits offset h =
      let small = s.small in
      let a = s.advises (base + offset) (omega arith) in
      let from = a.from in
      let until = a.until in
      let within = a.within in
      let e : add64 base offset ≡ base + offset = omega arith in
      record {
        block = sub_block parent base size a.block;
        returns = rw (e, a.returns);
        from = ground arith;
        until = ground arith;
        within = ground arith;
      }

  -- A part of a source, within its bounds, is a source of the bytes of that part.
  pub sub_reader-Serves :
      Serves parent content
      → base + size ≤ parent.size
      → Serves (sub_reader parent base size) (λ i. content (base + i))
  unfolding sub_reader
  sub_reader-Serves s fits = record {
    small = let small = s.small in omega arith;
    reads = sub_read-Returns s fits;
    advises = sub_advise-Advises s fits;
  }

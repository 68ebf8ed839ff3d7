-- ===== src/Dmg/Decompressor/Lzfse/Source.antt =====
-- What the LZFSE decompressor gives, with and without an offset.
use darling_dmg.Common.{
  ℕ, zero, suc, ◌+◌, ◌-◌, ◌≤◌, ◌<◌, ◌≡◌, refl, sym, ap, ◌∙◌, min, false, arith, ltb, leb,
  out_of_fuel, ◌≢◌, ltb→lt, ltb→le, lt→ltb, le→ltb, if◌then◌else◌, ◌==◌, ==_iff, assertion,
  Bool-cases, inl, inr, ◌++◌, Bytes, byte_at, length, Result, ok, err, Error, io_error,
  byte_at-append_left, byte_at-append_right, length-append,
}
use darling_dmg.Common.Word.{i32_limit}
use darling_dmg.Io.{Reader}
use darling_dmg.Io.Serves.{Serves, Returns}
use darling_dmg.Dmg.Decompressor.{buffer_size, read_some, processed}
use darling_dmg.Dmg.Decompressor.Lzfse.{
  collect, whole_input, lzfse_some, lzfse_from, lzfse_decompress,
}

pub record Throws {ℓ} {A : Type ℓ} (result : Result A) : Type ℓ where
  pub thrown : Error
  pub throws : result ≡ err thrown
  pub not_fuel : thrown ≢ out_of_fuel

module _ (decode : Bytes → ℕ → Bytes) (r : Reader) (packed : ℕ → ℕ) (serves : Serves r packed)
    (small : r.size < i32_limit) where
  -- All of the packed data, and the position behind it.
  record IsInput (result : Result (Bytes × ℕ)) : Type 0 where
    input : Bytes
    returns : result ≡ ok (input, r.size)
    full : length input ≡ r.size
    bytes : (i : ℕ) → i < r.size → byte_at input i ≡ packed i

  lt→leb_false : (n : ℕ) → n < i32_limit → leb i32_limit n ≡ false
  lt→leb_false n h = ground arith

  eq_false : (n : ℕ) → 0 < n → (n == 0) ≡ false
  eq_false n h = ground arith

  -- What is read at a place before the end.
  record Reads (pos : ℕ) : Type 0 where
    next : Bytes
    returns : read_some r pos ≡ ok next
    some_read : 0 < length next
    within : pos + length next ≤ r.size
    bytes : (i : ℕ) → i < length next → byte_at next i ≡ packed (pos + i)

  read_some-Reads : (pos : ℕ) → pos < r.size → Reads pos
  unfolding read_some
  read_some-Reads pos h =
      let got = serves.reads buffer_size pos (omega arith) (omega arith) in
      let len = got.count in
      record {
        next = got.out;
        returns = rw (got.returns, eq_false (length got.out) (omega arith));
        some_read = omega arith;
        within = omega arith;
        bytes = λ i p. got.bytes i (omega arith);
      }

  read_some-end : read_some r r.size ≡ err io_error
  unfolding read_some
  read_some-end =
      let got = serves.reads buffer_size r.size (omega arith) (omega arith) in
      let len = got.count in rw (got.returns, (==_iff (length got.out) 0).1 (omega arith))

  collect-IsInput :
      (fuel : ℕ) (bytes : Bytes)
      → length bytes < r.size
      → ((i : ℕ) → i < length bytes → byte_at bytes i ≡ packed i)
      → r.size ≤ length bytes + fuel
      → IsInput (collect decode r fuel (length bytes) bytes)
  unfolding collect
  collect-IsInput zero bytes less same enough = absurd (omega arith)
  collect-IsInput (suc fuel) bytes less same enough =
      let g = read_some-Reads (length bytes) less in
      let total = length-append bytes g.next in
      let within = g.within in
      let some_read = g.some_read in
      let at : processed (length bytes) (length g.next) ≡ length (bytes ++ g.next) = omega arith in
      let same' : (i : ℕ) → i < length (bytes ++ g.next) → byte_at (bytes ++ g.next) i ≡ packed i =
        λ i h. elim (Bool-cases (ltb i (length bytes))) [
          | inl before ↦
              byte_at-append_left bytes g.next i (ltb→lt i (length bytes) before)
              ∙ same i (ltb→lt i (length bytes) before)
          | inr later ↦
              let q = ltb→le i (length bytes) later in
              let here : length bytes + (i - length bytes) ≡ i = omega arith in
              ap (byte_at (bytes ++ g.next)) (sym here)
              ∙ byte_at-append_right bytes g.next (i - length bytes)
              ∙ g.bytes (i - length bytes) (omega arith)
              ∙ ap packed here
        ] in
      rw (g.returns, at, lt→leb_false (length (bytes ++ g.next)) (omega arith))
        (elim (Bool-cases (ltb (length (bytes ++ g.next)) r.size)) [
          | inl more ↦ rw more (
              collect-IsInput fuel (bytes ++ g.next) (ltb→lt (length (bytes ++ g.next)) r.size more)
                same' (omega arith))
          | inr done ↦
              let e = ltb→le (length (bytes ++ g.next)) r.size done in
              let full : length (bytes ++ g.next) ≡ r.size = omega arith in
              rw done (record {
                input = bytes ++ g.next;
                returns = ap (λ n. ok (bytes ++ g.next, n)) full;
                full = full;
                bytes = λ i h. same' i (omega arith);
              })
        ])

  whole_input-IsInput : 0 < r.size → IsInput (whole_input decode r 0)
  unfolding whole_input
  whole_input-IsInput some_data =
      let g = read_some-Reads 0 some_data in
      let within = g.within in
      let at : processed 0 (length g.next) ≡ length g.next = omega arith in
      rw (g.returns, at)
        (elim (Bool-cases (ltb (length g.next) r.size)) [
          | inl more ↦ rw more (
              collect-IsInput r.size g.next (ltb→lt (length g.next) r.size more)
                (λ i h. g.bytes i h ∙ ap packed (omega arith)) (omega arith))
          | inr done ↦
              let e = ltb→le (length g.next) r.size done in
              let full : length g.next ≡ r.size = omega arith in
              rw done (record {
                input = g.next;
                returns = ap (λ n. ok (g.next, n)) full;
                full = full;
                bytes = λ i h. g.bytes i (omega arith) ∙ ap packed (omega arith);
              })
        ])

  -- Behind the packed data there is nothing to read.
  lzfse_some-end : (count : ℕ) → lzfse_some decode r count r.size ≡ err io_error
  unfolding lzfse_some whole_input
  lzfse_some-end count = rw read_some-end

  lzfse_from-end :
      (fuel count offset : ℕ)
      → offset ≤ fuel
      → lzfse_from decode r fuel count offset r.size ≡ err io_error
  unfolding lzfse_from
  lzfse_from-end zero count offset h = rw (le→ltb 0 offset (omega arith), lzfse_some-end count)
  lzfse_from-end (suc fuel) count offset h = elim (Bool-cases (ltb 0 offset)) [
    | inl more ↦ rw (more, lzfse_some-end (min 4096 offset))
    | inr done ↦ rw (done, lzfse_some-end count)
  ]

  ok_inj : (a b : Bytes) → ok a ≡ ok b → a ≡ b
  ok_inj a b e = cc

  lzfse_some-eq :
      (count : ℕ) (v : IsInput (whole_input decode r 0))
      → lzfse_some decode r count 0 ≡ (
          if length (decode v.input count) == 0
          then err io_error
          else ok (decode v.input count, r.size))
  unfolding lzfse_some
  lzfse_some-eq count v = rw v.returns refl

  from_whole-Throws :
      (count offset : ℕ)
      → IsInput (whole_input decode r 0)
      → Throws (lzfse_from decode r (suc offset) count (suc offset) 0)
  unfolding lzfse_from
  from_whole-Throws count offset v =
      let n = min 4096 (suc offset) in
      rw (lt→ltb 0 (suc offset) (omega arith), lzfse_some-eq n v)
        (elim (Bool-cases (length (decode v.input n) == 0)) [
          | inl none_out ↦
              rw none_out (record { thrown = io_error; throws = refl; not_fuel = λ h. absurd cc })
          | inr some_out ↦ rw some_out (elim (Bool-cases (length (decode v.input n) == n)) [
            | inl full ↦
                let e = (==_iff (length (decode v.input n)) n).0 full in
                rw
                  (
                    full,
                    lzfse_from-end offset count (suc offset - length (decode v.input n))
                        (omega arith),
                  )
                  (record { thrown = io_error; throws = refl; not_fuel = λ h. absurd cc })
            | inr short ↦
                rw short (record { thrown = assertion; throws = refl; not_fuel = λ h. absurd cc })
          ])
        ])

  from_end-Throws :
      (count offset : ℕ)
      → 0 ≡ r.size
      → Throws (lzfse_from decode r (suc offset) count (suc offset) 0)
  from_end-Throws count offset e = record {
    thrown = io_error;
    throws =
        ap (lzfse_from decode r (suc offset) count (suc offset)) e
        ∙ lzfse_from-end (suc offset) count (suc offset) (omega arith);
    not_fuel = λ h. absurd cc;
  }

  -- On a run shorter than 2 GiB, asked for a part that does not start at the beginning, the decompressor for LZFSE always throws, whatever the
  -- library gives: the bytes before the offset take up all the input there is.
  pub lzfse_decompress-Throws :
      (count offset : ℕ) → 0 < offset → Throws (lzfse_decompress decode r count offset)
  unfolding lzfse_decompress
  lzfse_decompress-Throws count zero h = absurd (omega arith)
  lzfse_decompress-Throws count (suc offset) h = elim (Bool-cases (ltb 0 r.size)) [
    | inl some_data ↦
        from_whole-Throws count offset (whole_input-IsInput (ltb→lt 0 r.size some_data))
    | inr nothing ↦ from_end-Throws count offset (let e = ltb→le 0 r.size nothing in omega arith)
  ]

  -- If the run is not empty and shorter than 2 GiB and the library gives the plain data for an input that is the packed data, then the decompressor, asked
  -- from the beginning for some of it, returns that part: it collects the input in as many reads
  -- as that takes.
  pub lzfse_decompress-Returns :
      (plain : ℕ → ℕ) (count : ℕ)
      → 0 < r.size
      → 0 < count
      → ((input : Bytes)
          → length input ≡ r.size
          → ((i : ℕ) → i < r.size → byte_at input i ≡ packed i)
          → Returns plain 0 count (ok (decode input count)))
      → Returns plain 0 count (lzfse_decompress decode r count 0)
  unfolding lzfse_decompress lzfse_from
  lzfse_decompress-Returns plain count some_data some_room decodes =
      let v = whole_input-IsInput some_data in
      let good = decodes v.input v.full v.bytes in
      let same : decode v.input count ≡ good.out =
        ok_inj (decode v.input count) good.out good.returns in
      let len = good.count in
      let some_out : (length (decode v.input count) == 0) ≡ false =
        rw same (eq_false (length good.out) (omega arith)) in
      rw (lzfse_some-eq count v, some_out) good

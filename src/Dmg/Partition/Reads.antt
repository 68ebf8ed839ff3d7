-- ===== src/Dmg/Partition/Reads.antt =====
-- The read loop of a partition.
use mathlib.Core.Path.{subst}
use mathlib.Core.List.{[], ◌++◌}
use darling_dmg.Common.{
  ℕ, zero, suc, ◌+◌, ◌-◌, ◌*◌, ◌/◌, ◌≤◌, ◌<◌, min, ◌≡◌, refl, sym, ap, ◌∙◌, Bool, true, false,
  Option, none, some, arith, ltb, leb, ltb→lt, ltb→le, le→ltb, leb→le, if◌then◌else◌, get_elem?,
  Bool-cases, inl, inr, ◌==◌, Bytes, byte_at, length, length-append, byte_at-append_left,
  byte_at-append_right, Result, ok,
}
use darling_dmg.Common.Word.{i32_limit, size_limit, add64, sub64}
use darling_dmg.Io.{Reader}
use darling_dmg.Io.Serves.{Returns, Serves}
use darling_dmg.Dmg.{RunType, BlkxRun, BlkxTable}
use darling_dmg.Dmg.Partition.{
  is_data, read_found, read_sectors, read_run, before_bound, sector_size, bytes_of_sectors, sectors,
  partition_length,
}
use darling_dmg.Dmg.Partition.Cover.{Covers, Finds, Covers-Finds, sectors-entries}
use darling_dmg.Dmg.Partition.Image.{run_byte, image, image-run_byte, IsReadable, read_run-Returns}

first-eq : (p q : ℕ × ℕ) → some p ≡ some q → p.0 ≡ q.0
first-eq p q h = cc

eq_zero_false : (n : ℕ) → 0 < n → (n == 0) ≡ false
eq_zero_false n h = ground arith

module _ (disk : Reader) (content : ℕ → ℕ)
    (create : RunType → Reader → Option (ℕ → ℕ → Result Bytes)) (with_lzfse : Bool)
    (table : BlkxTable) (plain : BlkxRun → ℕ → ℕ) where
  abbrev pub shown : ℕ → ℕ
  shown = image content plain table.data_start table.runs

  -- What makes a table good: its runs cover the partition, and each can be read.
  pub record IsGood : Type 0 where
    pub small : table.sector_count * sector_size < size_limit
    pub covers : Covers 0 table.sector_count table.runs
    pub readable :
        (place : ℕ) (run : BlkxRun)
        → get_elem? table.runs place ≡ some run
        → is_data run.run_type ≡ true
        → IsReadable disk content create with_lzfse table plain run run.run_type

  abbrev pub found_at : ℕ → Option (ℕ × ℕ)
  found_at pos = before_bound (pos / sector_size) none (sectors disk create with_lzfse table)

  pub record IsProgress (count offset : ℕ) (out : Bytes) : Type 0 where
    order : length out ≤ count
    inside : offset + length out ≤ table.sector_count * sector_size
    bytes : (i : ℕ) → i < length out → byte_at out i ≡ shown (offset + i)
    starts :
        0 < length out
        → length out < count
        → offset + length out < table.sector_count * sector_size
        → (j : ℕ) × (s : ℕ) × (found_at (offset + length out) ≡ some (s, j))
          × (s * sector_size ≡ offset + length out)

  record Continues (count offset : ℕ) (out : Bytes) (result : Result Bytes) : Type 0 where
    out' : Bytes
    returns : result ≡ ok out'
    more : length out < length out'
    progress : IsProgress count offset out'

  pub found-Finds :
      IsGood
      → (pos : ℕ) → pos < table.sector_count * sector_size
      → Finds 0 0 table.sector_count (pos / sector_size) table.runs
  found-Finds g pos h =
      Covers-Finds 0 (pos / sector_size) table.runs g.covers (omega arith) (omega arith)

  -- A byte of the image inside a run that was found.
  shown-run_byte :
      (g : IsGood) (sector p : ℕ) (f : Finds 0 0 table.sector_count sector table.runs)
      → f.run.sector_start * sector_size ≤ p
      → p < (f.run.sector_start + f.run.sector_count) * sector_size
      → shown p
        ≡ run_byte content plain table.data_start f.run (p - f.run.sector_start * sector_size)
  shown-run_byte g sector p f h q =
      image-run_byte content plain table.data_start table.runs f.place p f.run g.covers f.at_place
        f.has_data h q

  -- The next start: where a run ends inside the partition, the map has an entry.
  run_end-starts :
      (g : IsGood) (sector pos : ℕ) (f : Finds 0 0 table.sector_count sector table.runs)
      → pos ≡ (f.run.sector_start + f.run.sector_count) * sector_size
      → pos < table.sector_count * sector_size
      → (j : ℕ) × (s : ℕ) × (found_at pos ≡ some (s, j)) × (s * sector_size ≡ pos)
  run_end-starts g sector pos f e h =
      let stop = f.run.sector_start + f.run.sector_count in
      let (j, found) = f.follows (omega arith) none in
      let same : pos / sector_size ≡ stop = omega arith in
      (j, stop, rw (same, sectors-entries table.runs g.covers) found, omega arith)

  append-IsProgress :
      (g : IsGood) (count offset k sector : ℕ) (out bytes : Bytes)
      (f : Finds 0 0 table.sector_count sector table.runs)
      → IsProgress count offset out
      → length out < count
      → f.run.sector_start * sector_size + k ≡ offset + length out
      → k < f.run.sector_count * sector_size
      → length bytes ≡ min (count - length out) (f.run.sector_count * sector_size - k)
      → ((i : ℕ)
          → i < length bytes
          → byte_at bytes i ≡ run_byte content plain table.data_start f.run (k + i))
      → IsProgress count offset (out ++ bytes)
  append-IsProgress g count offset k sector out bytes f v more at inner n same =
      let within = f.within in
      let inside = v.inside in
      let total = length-append out bytes in
      record {
        order = omega arith;
        inside = omega arith;
        bytes = λ i h. elim (Bool-cases (ltb i (length out))) [
          | inl less ↦
              byte_at-append_left out bytes i (ltb→lt i (length out) less)
              ∙ v.bytes i (ltb→lt i (length out) less)
          | inr later ↦
              let p = ltb→le i (length out) later in
              let split : length out + (i - length out) ≡ i = omega arith in
              let place : offset + i - f.run.sector_start * sector_size ≡ k + (i - length out) =
                omega arith in
              ap (byte_at (out ++ bytes)) (sym split)
              ∙ byte_at-append_right out bytes (i - length out)
              ∙ same (i - length out) (omega arith)
              ∙ ap (run_byte content plain table.data_start f.run) (sym place)
              ∙ sym (shown-run_byte g sector (offset + i) f (omega arith) (omega arith))
        ];
        starts =
            λ p q r. run_end-starts g sector (offset + length (out ++ bytes)) f (omega arith) r;
      }

  -- Where the body of the loop starts to read in the run that it has found.
  in_sector-eq :
      (count offset sector : ℕ) (out : Bytes) (f : Finds 0 0 table.sector_count sector table.runs)
      → (g : IsGood) → IsProgress count offset out
      → length out < count
      → offset + length out < table.sector_count * sector_size
      → sector ≡ (offset + length out) / sector_size
      → (if length out == 0 then sub64 offset (bytes_of_sectors f.run.sector_start) else 0)
        ≡ offset + length out - f.run.sector_start * sector_size
  in_sector-eq count offset sector out f g v more h at = elim (Bool-cases (length out == 0)) [
    | inl first ↦
        let small = g.small in
        let from = f.from in let none_yet : length out ≡ 0 = ground arith in rw first (omega arith)
    | inr later ↦
        let some_yet : 0 < length out = ground arith in
        let (j, s, found, e) = v.starts some_yet more h in
        let same : some (f.run.sector_start, 0 + f.place) ≡ some (s, j) =
          sym (f.before none)
          ∙ ap (λ l. before_bound sector none l) (sym (sectors-entries table.runs g.covers))
          ∙ ap (λ x. before_bound x none (sectors disk create with_lzfse table)) at
          ∙ found in
        let start = first-eq (f.run.sector_start, 0 + f.place) (s, j) same in rw later (omega arith)
  ]

  -- The body of the loop, once the run, the place in it and its bytes are known.
  read_found-Continues :
      (g : IsGood) (count offset k sector : ℕ) (out : Bytes)
      (f : Finds 0 0 table.sector_count sector table.runs)
      → IsProgress count offset out
      → length out < count
      → count < i32_limit
      → f.run.sector_start * sector_size + k ≡ offset + length out
      → k < f.run.sector_count * sector_size
      → (if length out == 0 then sub64 offset (bytes_of_sectors f.run.sector_start) else 0) ≡ k
      → Returns
          (run_byte content plain table.data_start f.run)
          k
          (min (count - length out) (f.run.sector_count * sector_size - k))
          (read_run disk create with_lzfse table f.place k (count - length out))
      → Continues count offset out (
          read_found disk create with_lzfse table
            (some (f.run.sector_start, f.place))
            count
            offset
            out)
  unfolding read_found
  read_found-Continues g count offset k sector out f v more c at inner e r =
      let n = r.count in
      record {
        out' = out ++ r.out;
        returns = rw (e, r.returns, eq_zero_false (length r.out) (omega arith));
        more = omega (arith, length-append out r.out);
        progress =
            append-IsProgress g count offset k sector out r.out f v more at inner n
              (λ i p. r.bytes i (omega arith));
      }

  round-Continues :
      (g : IsGood) (count offset : ℕ) (out : Bytes)
      → Serves disk content
      → IsProgress count offset out
      → length out < count
      → count < i32_limit
      → offset + length out < table.sector_count * sector_size
      → Continues count offset out (
          read_found disk create with_lzfse table (found_at (offset + length out)) count offset out)
  round-Continues g count offset out s v more c h =
      let pos = offset + length out in
      let f = found-Finds g pos h in
      let from = f.from in
      let until = f.until in
      let within = f.within in
      let small = g.small in
      let k = pos - f.run.sector_start * sector_size in
      let found : found_at pos ≡ some (f.run.sector_start, f.place) =
        rw (sectors-entries table.runs g.covers)
          (f.before none ∙ ap (λ i. some (f.run.sector_start, i)) (omega arith)) in
      let r =
        read_run-Returns disk content create with_lzfse table plain f.place f.run k
          (count - length out) s f.at_place (g.readable f.place f.run f.at_place f.has_data)
          (omega arith) (omega arith) (omega arith) (omega arith) in
      subst
        (λ o.
          Continues count offset out (read_found disk create with_lzfse table o count offset out))
        (sym found)
        (read_found-Continues g count offset k (pos / sector_size) out f v more c (omega arith)
          (omega arith) (in_sector-eq count offset (pos / sector_size) out f g v more h refl) r)

  abbrev pub Finished : ℕ → ℕ → Result Bytes → Type 0
  Finished count offset r =
      Returns shown offset (min count (table.sector_count * sector_size - offset)) r

  done-Finished :
      (count offset : ℕ) (out : Bytes)
      → IsProgress count offset out
      → length out ≡ min count (table.sector_count * sector_size - offset)
      → Finished count offset (ok out)
  done-Finished count offset out v e = record {
    out = out;
    returns = refl;
    count = e;
    bytes = λ i h. v.bytes i (omega arith);
  }

  read_sectors-step :
      (fuel count offset : ℕ) (out out' : Bytes)
      → ltb (length out) count ≡ true
      → leb (partition_length disk create with_lzfse table) (add64 offset (length out)) ≡ false
      → add64 offset (length out) ≡ offset + length out
      → read_found disk create with_lzfse table (found_at (offset + length out)) count offset out
        ≡ ok out'
      → read_sectors disk create with_lzfse table (suc fuel) count offset out
        ≡ read_sectors disk create with_lzfse table fuel count offset out'
  unfolding read_sectors
  read_sectors-step fuel count offset out out' more inside sum e = rw (more, inside, sum, e)

  -- With a round for each byte that is left, the loop returns the bytes of the image.
  pub read_sectors-Finished :
      (g : IsGood) (fuel count offset : ℕ) (out : Bytes)
      → Serves disk content
      → count < i32_limit
      → IsProgress count offset out
      → count ≤ length out + fuel
      → Finished count offset (read_sectors disk create with_lzfse table fuel count offset out)
  unfolding read_sectors
  read_sectors-Finished g zero count offset out s c v enough =
      let inside = v.inside in
      let order = v.order in
      rw (le→ltb (length out) count (omega arith)) (done-Finished count offset out v (omega arith))
  read_sectors-Finished g (suc fuel) count offset out s c v enough =
      let inside = v.inside in
      let order = v.order in
      let small = g.small in
      elim (Bool-cases (ltb (length out) count)) [
        | inr done ↦ rw done (
            done-Finished count offset out v
              (let d = ltb→le (length out) count done in omega arith))
        | inl more ↦
            elim (Bool-cases
              (leb (partition_length disk create with_lzfse table) (add64 offset (length out)))) [
                | inl end ↦
                    rw (more, end)
                      (done-Finished count offset out v (
                        let m = ltb→lt (length out) count more in
                        let e =
                          leb→le (partition_length disk create with_lzfse table)
                            (add64 offset (length out)) end in
                        omega arith))
                | inr inner ↦
                    let m = ltb→lt (length out) count more in
                    let h : offset + length out < table.sector_count * sector_size = ground arith in
                    let r = round-Continues g count offset out s v m c h in
                    let longer = r.more in
                    subst (Finished count offset)
                      (sym (
                        read_sectors-step fuel count offset out r.out' more inner (omega arith)
                          r.returns))
                      (read_sectors-Finished g fuel count offset r.out' s c r.progress
                        (omega arith))
              ]
      ]

  pub empty-IsProgress :
      (count offset : ℕ) → offset ≤ table.sector_count * sector_size → IsProgress count offset []
  empty-IsProgress count offset h = record {
    order = omega arith;
    inside = omega arith;
    bytes = λ i p. absurd (omega arith);
    starts = λ p q r. absurd (omega arith);
  }

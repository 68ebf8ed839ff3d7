-- ===== src/Dmg/Partition/Cover.antt =====
-- Tables whose runs cover the partition in order, and what the sector map finds in them.
use darling_dmg.Common.{
  ℕ, suc, ◌+◌, ◌≤◌, ◌<◌, ◌≡◌, refl, ap, ◌∙◌, sym, true, false, Option, none, some, List, [], ◌∷◌,
  ◌++◌, arith, ltb, ltb→lt, ltb→le, lt→ltb, le→ltb, if◌then◌else◌, get_elem?, Bool-cases, inl, inr,
}
use darling_dmg.Dmg.{BlkxRun}
use darling_dmg.Dmg.Partition.{
  Sectors, put_sector, is_data, sectors_from, upper_bound, before_bound,
}

-- The data runs of the list follow each other without a gap from the sector `next` to `stop`.
pub data Covers : ℕ → ℕ → List BlkxRun → Type 0 where
  at_end : {stop : ℕ} → Covers stop stop []
  no_data :
      {next stop : ℕ} {run : BlkxRun} {runs : List BlkxRun}
      → is_data run.run_type ≡ false
      → Covers next stop runs
      → Covers next stop (run ∷ runs)
  data_run :
      {next stop : ℕ} {run : BlkxRun} {runs : List BlkxRun}
      → is_data run.run_type ≡ true
      → run.sector_start ≡ next
      → 0 < run.sector_count
      → Covers (next + run.sector_count) stop runs
      → Covers next stop (run ∷ runs)

-- The pairs of the data runs, in the order of the table.
pub entries : ℕ → List BlkxRun → Sectors
entries i [] = []
entries i (run ∷ runs) =
    let rest = entries (i + 1) runs in
    if is_data run.run_type then (run.sector_start, i) ∷ rest else rest

data KeysBelow (n : ℕ) : Sectors → Type 0 where
  none_left : KeysBelow n []
  key :
      {sector index : ℕ} {l : Sectors}
      → sector < n
      → KeysBelow n l
      → KeysBelow n ((sector, index) ∷ l)

put_sector-append :
    (sector index : ℕ) (l : Sectors)
    → KeysBelow sector l
    → put_sector sector index l ≡ l ++ (sector, index) ∷ []
unfolding put_sector
put_sector-append sector index [] none_left = refl
put_sector-append sector index ((s, i) ∷ l) (key less below) =
    ground (arith, put_sector-append sector index l below)

KeysBelow-append :
    (n m i : ℕ) (l : Sectors) → KeysBelow n l → 0 < m → KeysBelow (n + m) (l ++ (n, i) ∷ [])
KeysBelow-append n m i [] none_left p = key (omega arith) none_left
KeysBelow-append n m i ((s, j) ∷ l) (key less below) p =
    key (omega arith) (KeysBelow-append n m i l below p)

append_assoc : (l : Sectors) (e : ℕ × ℕ) (r : Sectors) → (l ++ e ∷ []) ++ r ≡ l ++ e ∷ r
append_assoc [] e r = refl
append_assoc (x ∷ l) e r = ap (◌∷◌ x) (append_assoc l e r)

append_nil : (l : Sectors) → l ++ [] ≡ l
append_nil [] = refl
append_nil (x ∷ l) = ap (◌∷◌ x) (append_nil l)

sectors_from-append :
    (i : ℕ) {next stop : ℕ} (runs : List BlkxRun) (l : Sectors)
    → Covers next stop runs
    → KeysBelow next l
    → sectors_from i runs l ≡ l ++ entries i runs
unfolding sectors_from entries
sectors_from-append i [] l at_end below = sym (append_nil l)
sectors_from-append i (run ∷ runs) l (no_data skip covers) below =
    rw skip (sectors_from-append (i + 1) runs l covers below)
sectors_from-append i {next} (run ∷ runs) l (data_run is_d start pos covers) below =
    rw (is_d, start, put_sector-append next i l below)
      (sectors_from-append (i + 1) runs (l ++ (next, i) ∷ []) covers
          (KeysBelow-append next run.sector_count i l below pos)
        ∙ append_assoc l (next, i) (entries (i + 1) runs))

-- The map that the constructor makes of a covering table.
pub sectors-entries :
    {next stop : ℕ} (runs : List BlkxRun)
    → Covers next stop runs
    → sectors_from 0 runs [] ≡ entries 0 runs
sectors-entries runs covers = sectors_from-append 0 runs [] covers none_left

abbrev pub stop_sector : ℕ → Option (ℕ × ℕ) → ℕ
stop_sector stop none = stop
stop_sector stop (some (s, i)) = s

-- The search for `sector` finds the run that holds it, and behind it the run that starts at its end.
pub record Finds (i next stop sector : ℕ) (runs : List BlkxRun) : Type 0 where
  pub place : ℕ
  pub run : BlkxRun
  pub at_place : get_elem? runs place ≡ some run
  pub has_data : is_data run.run_type ≡ true
  pub from : run.sector_start ≤ sector
  pub until : sector < run.sector_start + run.sector_count
  pub within : run.sector_start + run.sector_count ≤ stop
  pub from_next : next ≤ run.sector_start
  pub before :
      (prev : Option (ℕ × ℕ))
      → before_bound sector prev (entries i runs) ≡ some (run.sector_start, i + place)
  pub above :
      stop_sector stop (upper_bound sector (entries i runs)) ≡ run.sector_start + run.sector_count
  pub follows :
      run.sector_start + run.sector_count < stop
      → (prev : Option (ℕ × ℕ))
      → (j : ℕ) × (before_bound (run.sector_start + run.sector_count) prev (entries i runs)
          ≡ some (run.sector_start + run.sector_count, j))

Covers-order : {next stop : ℕ} {runs : List BlkxRun} → Covers next stop runs → next ≤ stop
Covers-order at_end = omega arith
Covers-order (no_data skip covers) = Covers-order covers
Covers-order (data_run is_d start pos covers) = omega (arith, Covers-order covers)

-- The first data run behind `next` starts there.
before_entries :
    (i : ℕ) {next stop sector : ℕ} (runs : List BlkxRun) (prev : Option (ℕ × ℕ))
    → Covers next stop runs
    → sector < next
    → before_bound sector prev (entries i runs) ≡ prev
unfolding before_bound entries
before_entries i [] prev at_end h = refl
before_entries i (run ∷ runs) prev (no_data skip covers) h =
    rw skip (before_entries (i + 1) runs prev covers h)
before_entries i {next} {stop} {sector} (run ∷ runs) prev (data_run is_d start pos covers) h =
    rw (is_d, start, lt→ltb sector next h)

above_entries :
    (i : ℕ) {next stop sector : ℕ} (runs : List BlkxRun)
    → Covers next stop runs
    → sector < next
    → stop_sector stop (upper_bound sector (entries i runs)) ≡ next
unfolding upper_bound entries
above_entries i [] at_end h = refl
above_entries i (run ∷ runs) (no_data skip covers) h = rw skip (above_entries (i + 1) runs covers h)
above_entries i {next} {stop} {sector} (run ∷ runs) (data_run is_d start pos covers) h =
    rw (is_d, start, lt→ltb sector next h)

-- A covering table: a search in the runs behind a data run passes that run's entry.
Finds-later :
    (i : ℕ) {next stop sector : ℕ} {run : BlkxRun} {runs : List BlkxRun}
    → is_data run.run_type ≡ true
    → run.sector_start ≡ next
    → next ≤ sector
    → Finds (i + 1) (next + run.sector_count) stop sector runs
    → Finds i next stop sector (run ∷ runs)
unfolding before_bound upper_bound entries
Finds-later i {next} {stop} {sector} {run} {runs} is_d start h f =
    let from_next = f.from_next in
    let sum : i + 1 + f.place ≡ i + suc f.place = omega arith in
    record {
      place = suc f.place;
      run = f.run;
      at_place = f.at_place;
      has_data = f.has_data;
      from = f.from;
      until = f.until;
      within = f.within;
      from_next = omega arith;
      before = λ prev. rw (is_d, start, le→ltb sector next h, f.before (some (next, i)), sum);
      above = rw (is_d, start, le→ltb sector next h, f.above);
      follows = λ p prev.
          let (j, e) = f.follows p (some (next, i)) in
          (
            j,
            rw (
              is_d,
              start,
              le→ltb (f.run.sector_start + f.run.sector_count) next (omega arith),
              e,
            ),
          );
    }

Finds-skip :
    (i : ℕ) {next stop sector : ℕ} {run : BlkxRun} {runs : List BlkxRun}
    → is_data run.run_type ≡ false
    → Finds (i + 1) next stop sector runs
    → Finds i next stop sector (run ∷ runs)
unfolding before_bound upper_bound entries
Finds-skip i {next} {stop} {sector} {run} {runs} skip f =
    let sum : i + 1 + f.place ≡ i + suc f.place = omega arith in
    record {
      place = suc f.place;
      run = f.run;
      at_place = f.at_place;
      has_data = f.has_data;
      from = f.from;
      until = f.until;
      within = f.within;
      from_next = f.from_next;
      before = λ prev. rw (skip, f.before prev, sum);
      above = rw (skip, f.above);
      follows = λ p prev. let (j, e) = f.follows p prev in (j, rw (skip, e));
    }

Finds-at_start :
    (i : ℕ) {next stop : ℕ} (runs : List BlkxRun)
    → Finds i next stop next runs
    → (prev : Option (ℕ × ℕ)) → (j : ℕ) × (before_bound next prev (entries i runs) ≡ some (next, j))
Finds-at_start i {next} runs f prev =
    let from = f.from in
    let from_next = f.from_next in
    let same : f.run.sector_start ≡ next = omega arith in
    (i + f.place, f.before prev ∙ ap (λ s. some (s, i + f.place)) same)

-- The run that starts a covering list is found from its first sector to its last.
Finds-head :
    (i : ℕ) {next stop sector : ℕ} {run : BlkxRun} {runs : List BlkxRun}
    → is_data run.run_type ≡ true
    → run.sector_start ≡ next
    → next ≤ sector
    → sector < next + run.sector_count
    → Covers (next + run.sector_count) stop runs
    → (next + run.sector_count < stop
        → Finds (i + 1) (next + run.sector_count) stop (next + run.sector_count) runs)
    → Finds i next stop sector (run ∷ runs)
unfolding before_bound upper_bound entries
Finds-head i {next} {stop} {sector} {run} {runs} is_d start h less covers after =
    let sum : i ≡ i + 0 = omega arith in
    record {
      place = 0;
      run = run;
      at_place = refl;
      has_data = is_d;
      from = omega arith;
      until = omega arith;
      within = omega (arith, Covers-order covers);
      from_next = omega arith;
      before = λ prev. rw (
        is_d,
        start,
        le→ltb sector next h,
        before_entries (i + 1) runs (some (next, i)) covers less,
        ← sum,
      );
      above = rw (is_d, start, le→ltb sector next h, above_entries (i + 1) runs covers less);
      follows = λ p prev.
          let (j, e) = Finds-at_start (i + 1) runs (after (omega arith)) (some (next, i)) in
          (j, rw (start, is_d, le→ltb (next + run.sector_count) next (omega arith)) e);
    }

-- Every sector of a covered range is found.
pub Covers-Finds :
    (i : ℕ) {next stop : ℕ} (sector : ℕ) (runs : List BlkxRun)
    → Covers next stop runs
    → next ≤ sector
    → sector < stop
    → Finds i next stop sector runs
Covers-Finds i sector [] at_end h p = absurd (omega arith)
Covers-Finds i sector (run ∷ runs) (no_data skip covers) h p =
    Finds-skip i skip (Covers-Finds (i + 1) sector runs covers h p)
Covers-Finds i {next} sector (run ∷ runs) (data_run is_d start pos covers) h p =
    elim (Bool-cases (ltb sector (next + run.sector_count))) [
      | inl less ↦
          Finds-head i is_d start h (ltb→lt sector (next + run.sector_count) less) covers
            (λ q. Covers-Finds (i + 1) (next + run.sector_count) runs covers (omega arith) q)
      | inr later ↦ Finds-later i is_d start h (
          Covers-Finds (i + 1) sector runs covers (ltb→le sector (next + run.sector_count) later) p)
    ]

-- ===== src/Hfs/Fork/Locate.antt =====
-- The search for the extent that holds an offset.
use mathlib.Core.Path.{subst}
use native.Mathlib.Nat.{le-div_iff_mul-le, div-lt_iff_lt-mul}
use darling_dmg.Common.{
  ℕ, zero, suc, ◌+◌, ◌-◌, ◌*◌, ◌/◌, ◌%◌, ◌≤◌, ◌<◌, ◌≡◌, ◌≢◌, refl, sym, ap, ◌∙◌, false, arith, ltb,
  ltb→lt, ltb→le, le→ltb, ◌==◌, List, [], ◌∷◌, ◌++◌, length, drop, Result, ok, Bool-cases, inl, inr,
}
use darling_dmg.Common.Word.{u32_mod, size_limit, sub64}
use darling_dmg.Hfs.Overflow.{Extent}
use darling_dmg.Hfs.Fork.{
  ForkFile, Place, Scan, located, exhausted, extent_bytes, load_from_overflows_file, scan, locate,
}
use darling_dmg.Hfs.Fork.Extents.{
  blocks, AreOn, all_on, on, append_assoc, append_nil, blocks-append, drop-append, AreOn-head,
  IsFork,
}

module _ (f : ForkFile) (content : ℕ → ℕ) (all : List Extent) where
  -- The variables of the read loop stand at the place `pos` of the fork: `pre` are the extents before the
  -- one at hand, `cur` the others that were loaded, and `rest` those that were not.
  pub record IsPlace (pos : ℕ) (p : Place) : Type 0 where
    pub pre : List Extent
    pub cur : List Extent
    pub rest : List Extent
    pub split : p.extents ≡ pre ++ cur
    pub whole : p.extents ++ rest ≡ all
    pub full : rest ≢ [] → length p.extents ≡ 8
    pub index : p.extent ≡ length pre
    pub sum : p.blocks_so_far ≡ blocks pre
    pub place : blocks pre * f.block_size + p.offset_in_extent ≡ pos
    pub inner :
        (e : Extent) (es : List Extent)
        → cur ++ rest ≡ e ∷ es
        → p.offset_in_extent < e.block_count * f.block_size

  pub record Loads (extents rest : List Extent) : Type 0 where
    pub first : Extent
    pub more : List Extent
    pub rest' : List Extent
    pub last : rest' ≡ []
    pub returns : load_from_overflows_file f (blocks extents) extents ≡ ok (extents ++ first ∷ more)
    pub whole : extents ++ first ∷ more ++ rest' ≡ all

  pub length-longer :
      (a : List Extent) (e : Extent) (b : List Extent) → length a < length (a ++ e ∷ b)
  length-longer [] e b = omega arith
  length-longer (x ∷ a) e b = omega (arith, length-longer a e b)

  pub length-snoc : (a : List Extent) (e : Extent) → length (a ++ e ∷ []) ≡ suc (length a)
  length-snoc [] e = refl
  length-snoc (x ∷ a) e = ap suc (length-snoc a e)

  pub blocks-snoc : (a : List Extent) (e : Extent) → blocks (a ++ e ∷ []) ≡ blocks a + e.block_count
  unfolding blocks
  blocks-snoc a e = let sum = blocks-append a (e ∷ []) in omega arith

  blocks-grows :
      (a : List Extent) (e : Extent) (b : List Extent)
      → 0 < e.block_count
      → blocks a < blocks (a ++ e ∷ b)
  unfolding blocks
  blocks-grows a e b h = let sum = blocks-append a (e ∷ b) in omega arith

  locate-located :
      (fuel first : ℕ) (extents : List Extent) (i b o j b' o' : ℕ)
      → scan f first (drop i extents) i b o ≡ located j b' o'
      → locate f fuel first extents i b o
        ≡ ok (record { extents = extents; extent = j; blocks_so_far = b'; offset_in_extent = o' })
  unfolding locate
  locate-located zero first extents i b o j b' o' e = rw (e, locate)
  locate-located (suc fuel) first extents i b o j b' o' e = rw (e, locate)

  locate-exhausted :
      (fuel first : ℕ) (extents extents' : List Extent) (i b o b' o' : ℕ)
      → scan f first (drop i extents) i b o ≡ exhausted b' o'
      → load_from_overflows_file f b' extents ≡ ok extents'
      → locate f (suc fuel) first extents i b o
        ≡ locate f fuel first extents' (length extents) b' o'
  unfolding locate
  locate-exhausted fuel first extents extents' i b o b' o' e l = rw (e, locate, l)

  eq_false : (m n : ℕ) → n < m → (m == n) ≡ false
  eq_false m n h = ground arith

  -- While there are more extents, the load gives some.
  pub load-Loads :
      (v : IsFork f content all) (extents rest : List Extent) (e : Extent)
      → extents ++ e ∷ rest ≡ all
      → length extents ≡ 8
      → Loads extents (e ∷ rest)
  unfolding load_from_overflows_file
  load-Loads v extents rest e whole enough =
      let (found, named) = v.finds extents e rest whole enough in
      record {
        first = e;
        more = rest;
        rest' = [];
        last = refl;
        returns = rw (
          named,
          le→ltb (length extents) 8 (omega arith),
          found,
          sym whole,
          eq_false (length (extents ++ e ∷ rest)) (length extents) (length-longer extents e rest),
        );
        whole = append_nil (extents ++ e ∷ rest) ∙ whole;
      }

  -- How the search over some extents ends.
  data Scans (offset : ℕ) (extents : List Extent) : Scan → Type 0 where
    finds :
        (pre : List Extent) (e : Extent) (cur : List Extent) (o : ℕ)
        → extents ≡ pre ++ e ∷ cur
        → blocks pre * f.block_size + o ≡ offset
        → o < e.block_count * f.block_size
        → Scans offset extents (located (length pre) (blocks pre) o)
    passes :
        (o : ℕ)
        → blocks extents * f.block_size + o ≡ offset
        → Scans offset extents (exhausted (blocks extents) o)

  module _ (v : IsFork f content all) where
    -- The test of the loop says whether the offset lies in the extent.
    held-lt :
        (offset c b o : ℕ)
        → b * f.block_size + o ≡ offset
        → offset / f.block_size < c + b
        → o < c * f.block_size
    held-lt offset c b o e h =
        let size = v.has_size in
        let less = (div-lt_iff_lt-mul {k = f.block_size} {x = offset} {y = c + b} size).0 h in
        omega arith

    passed-le :
        (offset c b o : ℕ)
        → b * f.block_size + o ≡ offset
        → c + b ≤ offset / f.block_size
        → c * f.block_size ≤ o
    passed-le offset c b o e h =
        let size = v.has_size in
        let less = (le-div_iff_mul-le {k = f.block_size} {x = c + b} {y = offset} size).0 h in
        omega arith

    scan-Scans :
        (cur pre : List Extent) (first offset o : ℕ)
        → first ≡ offset / f.block_size
        → offset < size_limit
        → blocks (pre ++ cur) < u32_mod
        → AreOn f.volume.size f.block_size cur
        → blocks pre * f.block_size + o ≡ offset
        → Scans offset (pre ++ cur) (scan f first cur (length pre) (blocks pre) o)
    unfolding scan
    scan-Scans [] pre first offset o e near few ons place = rw (append_nil pre) (passes o place)
    scan-Scans (x ∷ cur) pre first offset o e near few (on pos fit ons) place =
        let small = v.serves.small in
        let split = append_assoc pre (x ∷ []) cur in
        let total = blocks-append pre (x ∷ cur) in
        let one = blocks-append pre (x ∷ []) in
        let low : (x.block_count + blocks pre) % u32_mod ≡ x.block_count + blocks pre =
          unfold blocks in omega arith in
        let low' : (blocks pre + x.block_count) % u32_mod ≡ blocks (pre ++ x ∷ []) =
          unfold blocks in omega arith in
        let ext : extent_bytes f x ≡ x.block_count * f.block_size = omega arith in
        let next : length pre + 1 ≡ length (pre ++ x ∷ []) = omega (arith, length-snoc pre x) in
        elim (Bool-cases (ltb first ((x.block_count + blocks pre) % u32_mod))) [
          | inl here ↦
              let within = ltb→lt first ((x.block_count + blocks pre) % u32_mod) here in
              rw here (
                finds pre x cur o refl place
                  (held-lt offset x.block_count (blocks pre) o place (omega arith)))
          | inr past ↦
              let outside = ltb→le first ((x.block_count + blocks pre) % u32_mod) past in
              let beyond = passed-le offset x.block_count (blocks pre) o place (omega arith) in
              let less : sub64 o (extent_bytes f x) ≡ o - x.block_count * f.block_size =
                omega arith in
              rw (past, less, low', next, ← split)
                (scan-Scans cur (pre ++ x ∷ []) first offset (o - x.block_count * f.block_size) e
                  near (rw split few) ons
                  (omega (arith, ap (λ (t : ℕ). t * f.block_size) (blocks-snoc pre x))))
        ]

    -- Where `locate` ends.
    pub record Locates (offset : ℕ) (result : Result Place) : Type 0 where
      pub at : Place
      pub returns : result ≡ ok at
      pub is_place : IsPlace offset at
      pub held : at.extent < length at.extents

    AreOn-right : (size v : ℕ) (a b : List Extent) → AreOn v size (a ++ b) → AreOn v size b
    AreOn-right size v [] b ons = ons
    AreOn-right size v (x ∷ a) b (on p q ons) = AreOn-right size v a b ons

    AreOn-left : (size v : ℕ) (a b : List Extent) → AreOn v size (a ++ b) → AreOn v size a
    AreOn-left size v [] b ons = all_on
    AreOn-left size v (x ∷ a) b (on p q ons) = on p q (AreOn-left size v a b ons)

    -- What the search does with the end of a scan.
    located-Locates :
        (fuel : ℕ) (extents rest pre cur : List Extent) (e : Extent) (offset o i b o' : ℕ)
        → extents ++ rest ≡ all
        → (rest ≢ [] → length extents ≡ 8)
        → extents ≡ pre ++ e ∷ cur
        → blocks pre * f.block_size + o ≡ offset
        → o < e.block_count * f.block_size
        → scan f (offset / f.block_size) (drop i extents) i b o'
          ≡ located (length pre) (blocks pre) o
        → Locates offset (locate f fuel (offset / f.block_size) extents i b o')
    located-Locates fuel extents rest pre cur e offset o i b o' whole full split place inner
          scanned =
        record {
          at = record {
            extents = extents;
            extent = length pre;
            blocks_so_far = blocks pre;
            offset_in_extent = o;
          };
          returns =
              locate-located fuel (offset / f.block_size) extents i b o' (length pre) (blocks pre) o
                scanned;
          is_place = record {
            pre = pre;
            cur = e ∷ cur;
            rest = rest;
            split = split;
            whole = whole;
            full = full;
            index = refl;
            sum = refl;
            place = place;
            inner = λ e' es same.
                let h : e ≡ e' = cc in subst (λ x. o < x.block_count * f.block_size) h inner;
          };
          held = omega (arith, ap length split, length-longer pre e cur);
        }

    -- Extents that end before an offset inside the fork are not all.
    pub passed-more :
        (extents rest : List Extent) (offset o : ℕ)
        → extents ++ rest ≡ all
        → offset < f.logical_size
        → blocks extents * f.block_size + o ≡ offset
        → rest ≢ []
    unfolding blocks
    passed-more extents rest offset o whole near place none_left =
        let long = v.long in
        let same : extents ≡ all =
          sym (append_nil extents) ∙ ap (λ l. extents ++ l) (sym none_left) ∙ whole in
        omega (arith, ap (λ l. blocks l * f.block_size) same)

    reached-le : (n offset o : ℕ) → n * f.block_size + o ≡ offset → n ≤ offset / f.block_size
    reached-le n offset o e =
        (le-div_iff_mul-le {k = f.block_size} {x = n} {y = offset} v.has_size).1 (omega arith)

    locate-loaded :
        (fuel : ℕ) (extents rest : List Extent) (offset i b o o' : ℕ)
        → offset < f.logical_size
        → extents ++ rest ≡ all
        → (rest ≢ [] → length extents ≡ 8)
        → blocks extents * f.block_size + o' ≡ offset
        → scan f (offset / f.block_size) (drop i extents) i b o ≡ exhausted (blocks extents) o'
        → ((more rest' : List Extent)
            → extents ++ more ++ rest' ≡ all
            → (rest' ≢ [] → length (extents ++ more) ≡ 8)
            → blocks extents < blocks (extents ++ more)
            → Locates offset (
                locate f fuel
                  (offset / f.block_size)
                  (extents ++ more)
                  (length extents)
                  (blocks extents)
                  o'))
        → Locates offset (locate f (suc fuel) (offset / f.block_size) extents i b o)
    locate-loaded fuel extents [] offset i b o o' near whole full place e go =
        absurd (passed-more extents [] offset o' whole near place refl)
    locate-loaded fuel extents (x ∷ rest) offset i b o o' near whole full place e go =
        let enough = full (λ h. cc) in
        let l = load-Loads v extents rest x whole enough in
        let on_first = AreOn-head f.volume.size f.block_size extents l.first (l.more ++ l.rest') (
          subst (AreOn f.volume.size f.block_size)
            (sym l.whole ∙ append_assoc extents (l.first ∷ l.more) l.rest') v.on_volume) in
        subst (Locates offset)
          (sym (
            locate-exhausted fuel (offset / f.block_size) extents (extents ++ l.first ∷ l.more) i b
              o (blocks extents) o' e l.returns))
          (go (l.first ∷ l.more) l.rest' l.whole (λ h. absurd (h l.last))
            (blocks-grows extents l.first l.more on_first.0))

    scanned-Locates :
        (fuel : ℕ) (pre cur rest : List Extent) (offset o : ℕ) (s : Scan)
        → pre ++ cur ++ rest ≡ all
        → (rest ≢ [] → length (pre ++ cur) ≡ 8)
        → scan f
            (offset / f.block_size)
            (drop (length pre) (pre ++ cur))
            (length pre)
            (blocks pre)
            o
          ≡ s
        → ((o' : ℕ)
            → blocks (pre ++ cur) * f.block_size + o' ≡ offset
            → scan f
                (offset / f.block_size)
                (drop (length pre) (pre ++ cur))
                (length pre)
                (blocks pre)
                o
              ≡ exhausted (blocks (pre ++ cur)) o'
            → Locates offset
                (locate f fuel (offset / f.block_size) (pre ++ cur) (length pre) (blocks pre) o))
        → Scans offset (pre ++ cur) s
        → Locates offset
            (locate f fuel (offset / f.block_size) (pre ++ cur) (length pre) (blocks pre) o)
    scanned-Locates fuel pre cur rest offset o s whole full e more
          (finds pre' x cur' o' split place inner) =
        located-Locates fuel (pre ++ cur) rest pre' cur' x offset o' (length pre) (blocks pre) o
          whole full split place inner e
    scanned-Locates fuel pre cur rest offset o s whole full e more (passes o' place) =
        more o' place e

    scan_at-Scans :
        (pre cur rest : List Extent) (offset o : ℕ)
        → offset < f.logical_size
        → pre ++ cur ++ rest ≡ all
        → blocks pre * f.block_size + o ≡ offset
        → Scans offset (pre ++ cur) (
            scan f
              (offset / f.block_size)
              (drop (length pre) (pre ++ cur))
              (length pre)
              (blocks pre)
              o)
    scan_at-Scans pre cur rest offset o near whole place =
        let ons : AreOn f.volume.size f.block_size (pre ++ cur ++ rest) =
          subst (AreOn f.volume.size f.block_size) (sym whole) v.on_volume in
        let few = v.few in
        let small = v.small in
        rw (drop-append pre cur) (
          scan-Scans cur pre (offset / f.block_size) offset o refl (omega arith)
            (omega (arith, blocks-append (pre ++ cur) rest, ap blocks whole))
            (AreOn-right f.block_size f.volume.size pre cur
              (AreOn-left f.block_size f.volume.size (pre ++ cur) rest ons))
            place)

    -- The search so far has passed `pre`, and goes on with `cur`. A round of the outer loop finds the
    -- extent, or makes the extents longer by a block at least.
    pub locate-Locates :
        (fuel : ℕ) (pre cur rest : List Extent) (offset o : ℕ)
        → offset < f.logical_size
        → pre ++ cur ++ rest ≡ all
        → (rest ≢ [] → length (pre ++ cur) ≡ 8)
        → blocks pre * f.block_size + o ≡ offset
        → offset / f.block_size < fuel + blocks (pre ++ cur)
        → Locates offset
            (locate f fuel (offset / f.block_size) (pre ++ cur) (length pre) (blocks pre) o)
    locate-Locates zero pre cur rest offset o near whole full place enough =
        scanned-Locates zero pre cur rest offset o _ whole full refl
          (λ o' place' e. absurd (omega (arith, reached-le (blocks (pre ++ cur)) offset o' place')))
          (scan_at-Scans pre cur rest offset o near whole place)
    locate-Locates (suc fuel) pre cur rest offset o near whole full place enough =
        scanned-Locates (suc fuel) pre cur rest offset o _ whole full refl
          (λ o' place' e.
            locate-loaded fuel (pre ++ cur) rest offset (length pre) (blocks pre) o o' near whole
              full place' e
              (λ more rest' whole' full' longer.
                locate-Locates fuel (pre ++ cur) more rest' offset o' near whole' full' place'
                  (omega arith)))
          (scan_at-Scans pre cur rest offset o near whole place)

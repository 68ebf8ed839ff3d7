-- ===== src/Hfs/Fork/Source.antt =====
-- The read loop of a fork, and the whole read.
use mathlib.Core.Path.{subst}
use native.Mathlib.Nat.{mul-pos, div-lt_iff_lt-mul}
use darling_dmg.Common.{
  ℕ, zero, suc, ◌+◌, ◌-◌, ◌*◌, ◌/◌, ◌%◌, ◌≤◌, ◌<◌, min, ◌≡◌, ◌≢◌, refl, sym, ap, ◌∙◌, true, false,
  some, arith, ltb, ltb→lt, ltb→le, lt→ltb, le→ltb, ◌==◌, ==_iff, List, [], ◌∷◌, ◌++◌, length,
  get_elem?, Bytes, byte_at, Result, ok, ◌>>=◌, Bool-cases, inl, inr, length-append,
  byte_at-append_left, byte_at-append_right,
}
use darling_dmg.Common.Word.{i32_limit, u32_mod, add64}
use darling_dmg.Hfs.Overflow.{Extent}
use darling_dmg.Hfs.Fork.{
  ForkFile, Place, with_extent, read_extent, next_place, fork_loop, fork_count, fork_read, locate,
}
use darling_dmg.Hfs.Fork.Extents.{
  blocks, fork_byte, AreOn, append_assoc, blocks-append, get_elem?-append, AreOn-head, IsFork,
  IsKept,
}
use darling_dmg.Hfs.Fork.Locate.{IsPlace, length-snoc, blocks-snoc, Locates, locate-Locates}
use darling_dmg.Hfs.Fork.Reads.{extent-Holds, held-byte, read_extent-Gives}

eq_zero_false : (n : ℕ) → 0 < n → (n == 0) ≡ false
eq_zero_false n h = ground arith

pos_of : (n : ℕ) → (n == 0) ≡ false → 0 < n
pos_of n h = ground arith

module _ (f : ForkFile) (content : ℕ → ℕ) (all : List Extent) (v : IsFork f content all) where
  record IsProgress (count offset : ℕ) (p : Place) (out : Bytes) : Type 0 where
    order : length out ≤ count
    bytes :
        (i : ℕ) → i < length out → byte_at out i ≡ fork_byte content f.block_size all (offset + i)
    kept : IsKept all p.extents
    at : length out < count → IsPlace f content all (offset + length out) p

  pub record ForkReturns (offset n : ℕ) (result : Result (Bytes × List Extent)) : Type 0 where
    pub out : Bytes
    pub extents' : List Extent
    pub returns : result ≡ ok (out, extents')
    pub count : length out ≡ n
    pub bytes : (i : ℕ) → i < n → byte_at out i ≡ fork_byte content f.block_size all (offset + i)
    pub kept : IsKept all extents'

  -- Behind an extent that was read to its end stands the next one.
  next-IsPlace :
      (pos pos' : ℕ) (p : Place) (pre cur rest : List Extent) (e : Extent)
      → pre ++ e ∷ cur ++ rest ≡ all
      → (rest ≢ [] → length (pre ++ e ∷ cur) ≡ 8)
      → p.extent ≡ length pre
      → p.blocks_so_far ≡ blocks pre
      → pos' ≡ (blocks pre + e.block_count) * f.block_size
      → IsPlace f content all pos' (next_place f p (pre ++ e ∷ cur))
  unfolding next_place
  next-IsPlace pos pos' p pre cur rest e whole full index sum place =
      let few = v.few in
      let total = blocks-append (pre ++ e ∷ []) (cur ++ rest) in
      let one = blocks-snoc f content all pre e in
      let again : pre ++ e ∷ [] ++ cur ≡ pre ++ e ∷ cur = append_assoc pre (e ∷ []) cur in
      let all' : pre ++ e ∷ [] ++ (cur ++ rest) ≡ all =
        sym (append_assoc (pre ++ e ∷ []) cur rest) ∙ ap (λ l. l ++ rest) again ∙ whole in
      let found : get_elem? (pre ++ e ∷ cur) p.extent ≡ some e =
        ap (get_elem? (pre ++ e ∷ cur)) index ∙ get_elem?-append pre e cur in
      record {
        pre = pre ++ e ∷ [];
        cur = cur;
        rest = rest;
        split = sym again;
        whole = whole;
        full = full;
        index = omega (arith, length-snoc f content all pre e);
        sum = rw (found, sum) (omega (arith, ap blocks all'));
        place = omega (arith, ap (λ (t : ℕ). t * f.block_size) one);
        inner = λ e' es h.
            let on' = AreOn-head f.volume.size f.block_size (pre ++ e ∷ []) e' es (
              subst (AreOn f.volume.size f.block_size) (sym all' ∙ ap (λ l. pre ++ e ∷ [] ++ l) h)
                v.on_volume) in
            mul-pos on'.0 v.has_size;
      }

  done-ForkReturns :
      (count offset : ℕ) (p : Place) (out : Bytes)
      → IsProgress count offset p out
      → length out ≡ count
      → ForkReturns offset count (ok (out, p.extents))
  done-ForkReturns count offset p out w e = record {
    out = out;
    extents' = p.extents;
    returns = refl;
    count = e;
    bytes = λ i h. w.bytes i (omega arith);
    kept = w.kept;
  }

  fork_loop-step :
      (fuel count offset : ℕ) (p : Place) (out bytes : Bytes) (extents : List Extent) (e : Extent)
      → ltb (length out) count ≡ true
      → ltb (add64 (length out) offset) f.logical_size ≡ true
      → with_extent f p ≡ ok extents
      → get_elem? extents p.extent ≡ some e
      → read_extent f (some e) p.offset_in_extent (count - length out) ≡ ok (bytes, true)
      → fork_loop f (suc fuel) count offset p out
        ≡ fork_loop f fuel count offset (next_place f p extents) (out ++ bytes)
  unfolding fork_loop
  fork_loop-step fuel count offset p out bytes extents e more inside loaded found read =
      rw (more, inside, loaded, found, read)

  held-IsProgress :
      (count offset n : ℕ) (p : Place) (out bytes : Bytes) (pre cur rest : List Extent) (e : Extent)
      → IsProgress count offset p out
      → length out < count
      → pre ++ e ∷ cur ++ rest ≡ all
      → (rest ≢ [] → length (pre ++ e ∷ cur) ≡ 8)
      → p.extent ≡ length pre
      → p.blocks_so_far ≡ blocks pre
      → blocks pre * f.block_size + p.offset_in_extent ≡ offset + length out
      → p.offset_in_extent < e.block_count * f.block_size
      → n ≡ min (e.block_count * f.block_size - p.offset_in_extent) (count - length out)
      → length bytes ≡ n
      → ((i : ℕ)
          → i < n
          → byte_at bytes i ≡ content (e.start_block * f.block_size + (p.offset_in_extent + i)))
      → IsProgress count offset (next_place f p (pre ++ e ∷ cur)) (out ++ bytes)
  unfolding next_place
  held-IsProgress count offset n p out bytes pre cur rest e w more whole full index sum place inner
        thistime len same =
      let total = length-append out bytes in
      record {
        order = omega arith;
        bytes = λ i h. elim (Bool-cases (ltb i (length out))) [
          | inl less ↦
              byte_at-append_left out bytes i (ltb→lt i (length out) less)
              ∙ w.bytes i (ltb→lt i (length out) less)
          | inr later ↦
              let q = ltb→le i (length out) later in
              let k = i - length out in
              let at : length out + k ≡ i = omega arith in
              let pos : offset + length out + k ≡ offset + i = omega arith in
              let tail = append_assoc pre (e ∷ cur) rest in
              ap (byte_at (out ++ bytes)) (sym at)
              ∙ byte_at-append_right out bytes k
              ∙ same k (omega arith)
              ∙ sym (
                  held-byte f content all v pre (cur ++ rest) e p.offset_in_extent k
                    (offset + length out) (sym tail ∙ whole) place (omega arith))
              ∙ ap (fork_byte content f.block_size all) pos
        ];
        kept = record { rest = rest; whole = whole; full = full };
        at = λ h.
            next-IsPlace (offset + length out) (offset + length (out ++ bytes)) p pre cur rest e
              whole full index sum (omega arith);
      }

  record Rounds (fuel count offset : ℕ) (p : Place) (out : Bytes) : Type 0 where
    p' : Place
    out' : Bytes
    more : length out < length out'
    progress : IsProgress count offset p' out'
    goes : fork_loop f (suc fuel) count offset p out ≡ fork_loop f fuel count offset p' out'

  round-Rounds :
      (fuel count offset : ℕ) (p : Place) (out : Bytes)
      → count < i32_limit
      → offset + count ≤ f.logical_size
      → length out < count
      → IsProgress count offset p out
      → Rounds fuel count offset p out
  round-Rounds fuel count offset p out c fits less w =
      let small = v.small in
      let i = w.at less in
      let h =
        extent-Holds f content all v i.pre i.cur i.rest (offset + length out) p (omega arith)
          i.split i.whole i.full i.index i.sum i.place i.inner in
      let on_e = AreOn-head f.volume.size f.block_size h.pre h.e (h.cur ++ h.rest) (
        subst (AreOn f.volume.size f.block_size)
          (sym h.whole ∙ append_assoc h.pre (h.e ∷ h.cur) h.rest) v.on_volume) in
      let inner = h.inner in
      let g =
        read_extent-Gives f content all v h.e p.offset_in_extent (count - length out) on_e.1 inner
          (omega arith) (omega arith) in
      let len = g.count in
      record {
        p' = next_place f p (h.pre ++ h.e ∷ h.cur);
        out' = out ++ g.out;
        more = omega (arith, length-append out g.out);
        progress =
            held-IsProgress count offset
              (min (h.e.block_count * f.block_size - p.offset_in_extent) (count - length out)) p out
              g.out h.pre h.cur h.rest h.e w less h.whole h.full h.index h.sum h.place inner refl
              len g.bytes;
        goes =
            fork_loop-step fuel count offset p out g.out (h.pre ++ h.e ∷ h.cur) h.e
              (lt→ltb (length out) count less)
              (lt→ltb (add64 (length out) offset) f.logical_size (omega arith)) h.returns
              (ap (get_elem? (h.pre ++ h.e ∷ h.cur)) h.index ∙ get_elem?-append h.pre h.e h.cur)
              g.returns;
      }

  -- With a round for each byte that is left, the loop returns what the extents hold.
  fork_loop-ForkReturns :
      (fuel count offset : ℕ) (p : Place) (out : Bytes)
      → count < i32_limit
      → offset + count ≤ f.logical_size
      → IsProgress count offset p out
      → count ≤ length out + fuel
      → ForkReturns offset count (fork_loop f fuel count offset p out)
  unfolding fork_loop
  fork_loop-ForkReturns zero count offset p out c fits w enough =
      let order = w.order in
      rw (le→ltb (length out) count (omega arith))
        (done-ForkReturns count offset p out w (omega arith))
  fork_loop-ForkReturns (suc fuel) count offset p out c fits w enough =
      let order = w.order in
      elim (Bool-cases (ltb (length out) count)) [
        | inr done ↦ rw done (
            done-ForkReturns count offset p out w
              (let h = ltb→le (length out) count done in omega arith))
        | inl less ↦
            let r =
              round-Rounds fuel count offset p out c fits (ltb→lt (length out) count less) w in
            let more = r.more in
            subst (ForkReturns offset count) (sym r.goes)
              (fork_loop-ForkReturns fuel count offset r.p' r.out' c fits r.progress (omega arith))
      ]

  fork_count-min :
      (count offset : ℕ)
      → count < i32_limit
      → fork_count f count offset ≡ min count (f.logical_size - offset)
  unfolding fork_count
  fork_count-min count offset c = let small = v.small in ground arith

  first-eq :
      (offset : ℕ)
      → offset < f.logical_size
      → offset / f.block_size % u32_mod ≡ offset / f.block_size
  first-eq offset h =
      let few = v.few in
      let long = v.long in
      let below =
        (div-lt_iff_lt-mul {k = f.block_size} {x = offset} {y = blocks all} v.has_size).1
          (omega arith) in
      omega arith

  located-ForkReturns :
      (n offset : ℕ) (extents : List Extent)
      → n < i32_limit
      → 0 < n
      → offset + n ≤ f.logical_size
      → Locates f content all v offset
          (locate f (offset / f.block_size + 1) (offset / f.block_size) extents 0 0 offset)
      → ForkReturns offset n (
          locate f (offset / f.block_size + 1) (offset / f.block_size) extents 0 0 offset
          >>= (λ p. fork_loop f n n offset p []))
  located-ForkReturns n offset extents c some_left fits l = rw l.returns (
      fork_loop-ForkReturns n n offset l.at [] c fits
        (record {
          order = omega arith;
          bytes = λ i h. absurd (omega arith);
          kept = record {
            rest = l.is_place.rest;
            whole = l.is_place.whole;
            full = l.is_place.full;
          };
          at = λ h. subst (λ x. IsPlace f content all x l.at) (omega arith) l.is_place;
        })
        (omega arith))

  -- On a fork whose extents lie on the volume and hold its logical size, and whose overflow file, asked for
  -- the blocks behind the eight extents of the catalog record, gives the others if there are more, a read always
  -- returns, and gives the bytes of the extents one after the other, clipped to the logical size; it starts with
  -- those eight or with all, and leaves those eight or all.
  pub fork_read-ForkReturns :
      (count offset : ℕ) (extents : List Extent)
      → count < i32_limit
      → IsKept all extents
      → ForkReturns offset (min count (f.logical_size - offset)) (fork_read f count offset extents)
  unfolding fork_read blocks
  fork_read-ForkReturns count offset extents c k =
      let n = min count (f.logical_size - offset) in
      let small = v.small in
      rw (eq_zero_false f.block_size v.has_size, fork_count-min count offset c)
        (elim (Bool-cases (n == 0)) [
          | inl none_left ↦ rw none_left (record {
            out = [];
            extents' = extents;
            returns = refl;
            count = sym ((==_iff n 0).0 none_left);
            bytes = λ i h. absurd (let e = (==_iff n 0).0 none_left in omega arith);
            kept = k;
          })
          | inr some_left ↦
              let pos : 0 < n = pos_of n some_left in
              rw (some_left, first-eq offset (omega arith))
                (located-ForkReturns n offset extents (omega arith) pos (omega arith) (
                  locate-Locates f content all v (offset / f.block_size + 1) [] extents k.rest
                    offset offset (omega arith) k.whole k.full (omega arith) (omega arith)))
        ])

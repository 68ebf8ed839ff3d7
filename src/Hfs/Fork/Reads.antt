-- ===== src/Hfs/Fork/Reads.antt =====
-- One round of the read loop of a fork.
use mathlib.Core.Path.{subst}
use darling_dmg.Common.{
  ℕ, suc, ◌+◌, ◌-◌, ◌*◌, ◌%◌, ◌≤◌, ◌<◌, min, ◌≡◌, ◌≢◌, refl, sym, ap, ◌∙◌, Bool, true, false, some,
  arith, leb, lt→ltb, lt→leb_false, if◌then◌else◌, ◌==◌, List, [], ◌∷◌, ◌++◌, length, drop, Bytes,
  byte_at, Result, ok,
}
use darling_dmg.Common.Word.{i32_limit, u64_mod, size_limit, sub64, add64, to_int32}
use darling_dmg.Hfs.Overflow.{Extent}
use darling_dmg.Hfs.Fork.{
  ForkFile, Place, extent_bytes, signed_min, load_from_overflows_file, with_extent, read_extent,
}
use darling_dmg.Hfs.Fork.Extents.{
  blocks, fork_byte, fork_byte-skip, append_assoc, append_nil, drop-append, IsFork,
}
use darling_dmg.Hfs.Fork.Locate.{load-Loads, length-longer, passed-more}

append_cancel : (a b c : List Extent) → a ++ b ≡ a ++ c → b ≡ c
append_cancel a b c e = sym (drop-append a b) ∙ ap (drop (length a)) e ∙ drop-append a c

eq_zero_false : (n : ℕ) → 0 < n → (n == 0) ≡ false
eq_zero_false n h = ground arith

eq_true : (n : ℕ) → (n == n) ≡ true
eq_true n = ground arith

le→leb : (a b : ℕ) → a ≤ b → leb a b ≡ true
le→leb a b h = ground arith

module _ (f : ForkFile) (content : ℕ → ℕ) (all : List Extent) (v : IsFork f content all) where
  -- The extents are loaded up to the one at hand, `e`, which holds the place `pos`.
  pub record Holds (pos : ℕ) (p : Place) (result : Result (List Extent)) : Type 0 where
    pub pre : List Extent
    pub e : Extent
    pub cur : List Extent
    pub rest : List Extent
    pub returns : result ≡ ok (pre ++ e ∷ cur)
    pub whole : pre ++ e ∷ cur ++ rest ≡ all
    pub full : rest ≢ [] → length (pre ++ e ∷ cur) ≡ 8
    pub index : p.extent ≡ length pre
    pub sum : p.blocks_so_far ≡ blocks pre
    pub place : blocks pre * f.block_size + p.offset_in_extent ≡ pos
    pub inner : p.offset_in_extent < e.block_count * f.block_size

  length-split :
      (pre : List Extent) (e : Extent) (cur : List Extent)
      → length (pre ++ e ∷ cur) ≡ length pre + suc (length cur)
  length-split [] e cur = omega arith
  length-split (x ∷ pre) e cur = omega (arith, length-split pre e cur)

  -- The extents end at the place at hand: the load is needed.
  loaded-Holds :
      (pre rest : List Extent) (pos : ℕ) (p : Place)
      → pos < f.logical_size
      → p.extents ≡ pre
      → pre ++ rest ≡ all
      → (rest ≢ [] → length pre ≡ 8)
      → p.extent ≡ length pre
      → p.blocks_so_far ≡ blocks pre
      → blocks pre * f.block_size + p.offset_in_extent ≡ pos
      → ((e : Extent) (es : List Extent)
          → rest ≡ e ∷ es
          → p.offset_in_extent < e.block_count * f.block_size)
      → Holds pos p (load_from_overflows_file f p.blocks_so_far p.extents)
  loaded-Holds pre [] pos p near split whole full index sum place inner =
      absurd (passed-more f content all v pre [] pos p.offset_in_extent whole near place refl)
  loaded-Holds pre (x ∷ rest) pos p near split whole full index sum place inner =
      let l = load-Loads f content all v pre rest x whole (full (λ h. cc)) in
      let same =
        append_cancel pre (l.first ∷ l.more ++ l.rest') (x ∷ rest)
          (sym (append_assoc pre (l.first ∷ l.more) l.rest') ∙ l.whole ∙ sym whole) in
      record {
        pre = pre;
        e = l.first;
        cur = l.more;
        rest = l.rest';
        returns = rw (sum, split) l.returns;
        whole = l.whole;
        full = λ h. absurd (h l.last);
        index = index;
        sum = sum;
        place = place;
        inner = inner l.first (l.more ++ l.rest') (sym same);
      }

  pub extent-Holds :
      (pre cur rest : List Extent) (pos : ℕ) (p : Place)
      → pos < f.logical_size
      → p.extents ≡ pre ++ cur
      → p.extents ++ rest ≡ all
      → (rest ≢ [] → length p.extents ≡ 8)
      → p.extent ≡ length pre
      → p.blocks_so_far ≡ blocks pre
      → blocks pre * f.block_size + p.offset_in_extent ≡ pos
      → ((e : Extent) (es : List Extent)
          → cur ++ rest ≡ e ∷ es
          → p.offset_in_extent < e.block_count * f.block_size)
      → Holds pos p (with_extent f p)
  unfolding with_extent
  extent-Holds pre [] rest pos p near split whole full index sum place inner =
      let same : p.extents ≡ pre = split ∙ append_nil pre in
      rw (le→leb (length p.extents) p.extent (omega (arith, ap length same))) (
        loaded-Holds pre rest pos p near same (ap (λ l. l ++ rest) (sym same) ∙ whole)
          (subst (λ l. rest ≢ [] → length l ≡ 8) same full) index sum place inner)
  extent-Holds pre (x ∷ cur) rest pos p near split whole full index sum place inner =
      rw
        (lt→leb_false (length p.extents) p.extent
          (omega (arith, ap length split, length-longer f content all pre x cur)))
        (record {
          pre = pre;
          e = x;
          cur = cur;
          rest = rest;
          returns = ap (λ l. ok l) split;
          whole = ap (λ l. l ++ rest) (sym split) ∙ whole;
          full = subst (λ l. rest ≢ [] → length l ≡ 8) split full;
          index = index;
          sum = sum;
          place = place;
          inner = inner x (cur ++ rest) refl;
        })

  -- The bytes of the extent at hand are bytes of the fork.
  pub held-byte :
      (pre cur : List Extent) (e : Extent) (o k pos : ℕ)
      → pre ++ e ∷ cur ≡ all
      → blocks pre * f.block_size + o ≡ pos
      → o + k < e.block_count * f.block_size
      → fork_byte content f.block_size all (pos + k)
        ≡ content (e.start_block * f.block_size + (o + k))
  unfolding fork_byte
  held-byte pre cur e o k pos whole place inside =
      let at : pos + k ≡ blocks pre * f.block_size + (o + k) = omega arith in
      rw (← whole, at)
        (fork_byte-skip content f.block_size pre (e ∷ cur) (o + k)
          ∙ ap
              (λ b.
                if b
                then content (e.start_block * f.block_size + (o + k))
                else fork_byte content f.block_size cur (o + k - e.block_count * f.block_size))
              (lt→ltb (o + k) (e.block_count * f.block_size) inside))

  pub record Gives (o n : ℕ) (e : Extent) (result : Result (Bytes × Bool)) : Type 0 where
    pub out : Bytes
    pub returns : result ≡ ok (out, true)
    pub count : length out ≡ n
    pub bytes : (i : ℕ) → i < n → byte_at out i ≡ content (e.start_block * f.block_size + (o + i))

  read_extent-eq :
      (e : Extent) (o left n base : ℕ) (out : Bytes)
      → to_int32 (signed_min (sub64 (extent_bytes f e) o) left) ≡ n
      → add64 (e.start_block * f.block_size % u64_mod) o ≡ base
      → 0 < n
      → f.volume.read n base ≡ ok out
      → length out ≡ n
      → read_extent f (some e) o left ≡ ok (out, true)
  unfolding read_extent
  read_extent-eq e o left n base out count at pos read whole =
      rw (count, at, eq_zero_false n pos, read, whole, eq_true n)

  pub read_extent-Gives :
      (e : Extent) (o left : ℕ)
      → (e.start_block + e.block_count) * f.block_size ≤ f.volume.size
      → o < e.block_count * f.block_size
      → 0 < left
      → left < i32_limit
      → Gives o (min (e.block_count * f.block_size - o) left) e (read_extent f (some e) o left)
  read_extent-Gives e o left fit inner some_left near =
      let small = v.serves.small in
      let n = min (e.block_count * f.block_size - o) left in
      let thistime : to_int32 (signed_min (sub64 (extent_bytes f e) o) left) ≡ n =
        (let size : extent_bytes f e ≡ e.block_count * f.block_size = omega arith in
          let sub : sub64 (e.block_count * f.block_size) o ≡ e.block_count * f.block_size - o =
            omega arith in
          rw (size, sub, lt→ltb (e.block_count * f.block_size - o) size_limit (omega arith))
            (omega arith)) in
      let base : add64 (e.start_block * f.block_size % u64_mod) o
          ≡ e.start_block * f.block_size + o =
        omega arith in
      let r = v.serves.reads n (e.start_block * f.block_size + o) (omega arith) (omega arith) in
      let count : length r.out ≡ n = (let count = r.count in omega arith) in
      record {
        out = r.out;
        returns =
            read_extent-eq e o left n (e.start_block * f.block_size + o) r.out thistime base
              (omega arith) r.returns count;
        count = count;
        bytes = λ i h. r.bytes i (omega arith) ∙ ap content (omega arith);
      }

-- ===== src/Cache/Reader/NonCached.antt =====
-- The loop of `nonCachedRead`, over a backing reader that meets the contract of Io.
use Prim.Native.String.{String}
use darling_dmg.Common.{
  ℕ, zero, suc, ◌+◌, ◌-◌, ◌≤◌, ◌<◌, ◌≡◌, refl, ap, ◌∙◌, ltb, arith, Bytes, byte_at, length, Result,
  ok, inl, inr, Bool-cases, ltb→lt, le→ltb, ltb→le, lt→ltb,
}
use darling_dmg.Common.Word.{i32_limit, size_limit, add64}
use darling_dmg.Io.{Reader}
use darling_dmg.Io.Serves.{Serves}
use darling_dmg.Cache.Zone.{CacheZone}
use darling_dmg.Cache.Reader.{write, fetch, fetch_loop, non_cached_read}
use darling_dmg.Cache.Reader.Fetch.{
  IsAligned, IsCoherent, fetch-Fetches, write-before, write-behind, write-inside,
}

module _ (r : Reader) (content : ℕ → ℕ) (tag : String) (undef : ℕ → ℕ → ℕ)
    (serves : Serves r content) where
  -- `result` is a normal return with a coherent zone, and a buffer in which the bytes of the source
  -- from `offset + lo` to `offset + hi` were written at `base + lo`, and nothing else.
  pub record Fills (base offset lo hi : ℕ) (buf : ℕ → ℕ) (result : Result ((ℕ → ℕ) × CacheZone))
      : Type 0 where
    pub buf' : ℕ → ℕ
    pub zone : CacheZone
    pub returns : result ≡ ok (buf', zone)
    pub coherent : IsCoherent r.size content tag zone
    pub before : (i : ℕ) → i < base + lo → buf' i ≡ buf i
    pub behind : (i : ℕ) → base + hi ≤ i → buf' i ≡ buf i
    pub inside : (i : ℕ) → lo ≤ i → i < hi → buf' (base + i) ≡ content (offset + i)

  fetch_loop-suc :
      (fuel base offset stop pos : ℕ) (buf : ℕ → ℕ) (z z' : CacheZone) (bytes : Bytes)
      → fetch r tag undef pos stop z ≡ ok (bytes, z')
      → pos < stop
      → pos + length bytes < size_limit
      → fetch_loop r tag undef (suc fuel) base offset stop pos buf z
        ≡ fetch_loop r tag undef fuel base offset stop
            (pos + length bytes)
            (write buf (base + (pos - offset)) bytes)
            z'
  unfolding fetch_loop
  fetch_loop-suc fuel base offset stop pos buf z z' bytes fetched more small =
      let e : add64 pos (length bytes) ≡ pos + length bytes = omega arith in
      rw (lt→ltb pos stop more, fetched, e)

  Fills-write :
      (base offset pos stop : ℕ) (buf : ℕ → ℕ) (bytes : Bytes)
      (result : Result ((ℕ → ℕ) × CacheZone))
      → offset ≤ pos
      → pos + length bytes ≤ stop
      → ((i : ℕ) → i < length bytes → byte_at bytes i ≡ content (pos + i))
      → Fills base offset
          (pos + length bytes - offset)
          (stop - offset)
          (write buf (base + (pos - offset)) bytes)
          result
      → Fills base offset (pos - offset) (stop - offset) buf result
  Fills-write base offset pos stop buf bytes result from fits same f = record {
    buf' = f.buf';
    zone = f.zone;
    returns = f.returns;
    coherent = f.coherent;
    before = λ i p. f.before i (omega arith) ∙ write-before buf (base + (pos - offset)) bytes i p;
    behind = λ i p. f.behind i p ∙ write-behind buf (base + (pos - offset)) bytes i (omega arith);
    inside = λ i p q. elim (Bool-cases (ltb i (pos + length bytes - offset))) [
      | inl here ↦
          let h = ltb→lt i (pos + length bytes - offset) here in
          f.before (base + i) (omega arith)
          ∙ write-inside buf (base + (pos - offset)) bytes (base + i) (omega arith) (omega arith)
          ∙ same (base + i - (base + (pos - offset))) (omega arith)
          ∙ ap content (omega arith)
      | inr later ↦ f.inside i (ltb→le i (pos + length bytes - offset) later) q
    ];
  }

  fetch_loop-Fills :
      IsAligned r
      → (fuel base offset stop pos : ℕ) (buf : ℕ → ℕ) (z : CacheZone) → offset ≤ pos
      → pos ≤ stop
      → stop ≤ pos + fuel
      → stop ≤ r.size
      → stop < offset + i32_limit
      → IsCoherent r.size content tag z
      → Fills base offset
          (pos - offset)
          (stop - offset)
          buf
          (fetch_loop r tag undef fuel base offset stop pos buf z)
  fetch_loop-Fills al zero base offset stop pos buf z from to enough within near c = record {
    buf' = buf;
    zone = z;
    returns = unfold fetch_loop in rw (le→ltb pos stop (omega arith));
    coherent = c;
    before = λ i h. refl;
    behind = λ i h. refl;
    inside = λ i h p. absurd (omega arith);
  }
  fetch_loop-Fills al (suc fuel) base offset stop pos buf z from to enough within near c =
      elim (Bool-cases (ltb pos stop)) [
        | inl more ↦
            let h = ltb→lt pos stop more in
            let small = serves.small in
            let f =
              fetch-Fetches r content tag undef serves al pos stop z h within (omega arith) c in
            let n = f.progress in
            let fits = f.fits in
            rw
              (fetch_loop-suc fuel base offset stop pos buf z f.zone f.bytes f.returns h
                (omega arith))
              (Fills-write base offset pos stop buf f.bytes _ from f.fits f.same (
                fetch_loop-Fills al fuel base offset stop (pos + length f.bytes)
                  (write buf (base + (pos - offset)) f.bytes) f.zone (omega arith) fits
                  (omega arith) within near f.coherent))
        | inr done ↦ record {
          buf' = buf;
          zone = z;
          returns = unfold fetch_loop in rw done;
          coherent = c;
          before = λ i h. refl;
          behind = λ i h. refl;
          inside = λ i h p. absurd (omega (arith, ltb→le pos stop done));
        }
      ]

  -- A read past the cache, inside the source, fills its part of the buffer.
  pub non_cached_read-Fills :
      IsAligned r
      → (base count offset : ℕ) (buf : ℕ → ℕ) (z : CacheZone) → offset + count ≤ r.size
      → count < i32_limit
      → IsCoherent r.size content tag z
      → Fills base offset 0 count buf (non_cached_read r tag undef base count offset buf z)
  unfolding non_cached_read
  non_cached_read-Fills al base count offset buf z within near c =
      let small = serves.small in
      let stop : add64 offset count ≡ offset + count = omega arith in
      let zero' : offset - offset ≡ 0 = omega arith in
      let whole : offset + count - offset ≡ count = omega arith in
      let f =
        fetch_loop-Fills al count base offset (offset + count) offset buf z (omega arith)
          (omega arith) (omega arith) within (omega arith) c in
      rw stop (record {
        buf' = f.buf';
        zone = f.zone;
        returns = f.returns;
        coherent = f.coherent;
        before = λ i p. f.before i (omega arith);
        behind = λ i p. f.behind i (omega arith);
        inside = λ i p q. f.inside i (omega arith) (omega arith);
      })

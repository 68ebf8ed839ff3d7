-- ===== src/Cache/Reader/Transparent.antt =====
-- `CachedReader::read` returns, and its callers do not see the cache.
use Prim.Native.String.{String}
use darling_dmg.Common.{
  ℕ, zero, suc, ◌+◌, ◌-◌, ◌/◌, ◌%◌, ◌≤◌, ◌<◌, min, ◌≡◌, refl, ap, ◌∙◌, ◌⊎◌, false, ltb, ◌==◌,
  if◌then◌else◌, arith, Bytes, byte_at, length, tabulate, length-tabulate, byte_at-tabulate, Result,
  ok, inl, inr, Bool-cases, ltb→lt, le→ltb, ltb→le, lt→ltb,
}
use darling_dmg.Common.Word.{i32_limit, size_limit, add64}
use darling_dmg.Io.{Reader, block_size}
use darling_dmg.Io.Serves.{Serves}
use darling_dmg.Cache.Zone.{CacheZone, get}
use darling_dmg.Cache.Reader.{
  Progress, non_cached_read, serve_hit, advance_round, advance, read_loop, read_rest, clipped_count,
  read,
}
use darling_dmg.Cache.Reader.Fetch.{IsAligned, IsCoherent}
use darling_dmg.Cache.Reader.NonCached.{non_cached_read-Fills}
use darling_dmg.Cache.Reader.Read.{IsProgress, Advances, get-Looks, serve_hit-Advances}

clipped_count-min :
    (r : Reader) (count offset : ℕ)
    → r.size < size_limit
    → count < i32_limit
    → offset ≤ r.size
    → clipped_count r count offset ≡ min count (r.size - offset)
unfolding clipped_count
clipped_count-min r count offset small c h = ground arith

-- The rounds stay within one block, and all but the last end at its end.
round_aligned :
    (count offset done in_block : ℕ)
    → (offset + done) % block_size ≡ in_block
    → done < count
    → (done + min (min (count - done) block_size) (block_size - in_block) ≡ count)
      ⊎ ((offset + (done + min (min (count - done) block_size) (block_size - in_block)))
            % block_size
          ≡ 0)
round_aligned count offset done in_block e h = omega arith

module _ (r : Reader) (content : ℕ → ℕ) (tag : String) (undef : ℕ → ℕ → ℕ)
    (serves : Serves r content) (al : IsAligned r) (count offset : ℕ)
    (inside : offset + count ≤ r.size) (small : count < i32_limit) where
  advance_round-hit :
      (in_block n : ℕ) (p : Progress) (cached : Bytes) (z : CacheZone) (next : Progress)
      → 0 < n
      → offset + p.done < size_limit
      → get ((offset + p.done) / block_size, tag) in_block n p.zone ≡ ok (cached, z)
      → (length cached == 0) ≡ false
      → serve_hit r tag undef offset n cached (record p { zone = z }) ≡ ok next
      → advance_round r tag undef offset in_block n p ≡ ok next
  unfolding advance_round
  advance_round-hit in_block n p cached z next some_bytes limit got hit served =
      let pos : add64 offset p.done ≡ offset + p.done = omega arith in
      let go : (n == 0) ≡ false = ground arith in rw (go, pos, got, hit) served

  advance_round-Advances :
      (in_block n : ℕ) (p : Progress)
      → IsProgress r content tag undef serves count offset p
      → (offset + p.done) % block_size ≡ in_block
      → in_block + n ≤ block_size
      → 0 < n
      → p.done + n ≤ count
      → (p.done + n ≡ count) ⊎ ((offset + (p.done + n)) % block_size ≡ 0)
      → Advances r content tag undef serves count offset p
          (advance_round r tag undef offset in_block n p)
  unfolding advance_round
  advance_round-Advances in_block n p v e fits some_bytes within aligned =
      let limit = serves.small in
      let order = v.order in
      let l =
        get-Looks r content tag undef serves (offset + p.done) in_block n p.zone e fits
          (omega arith) v.coherent in
      let pos : add64 offset p.done ≡ offset + p.done = omega arith in
      let go : (n == 0) ≡ false = ground arith in
      elim (Bool-cases (length l.cached == 0)) [
        | inl miss ↦ record {
          next = record p { done = p.done + n; zone = l.zone };
          returns = rw (go, pos, l.returns, miss);
          is_progress = record {
            order = omega arith;
            within = within;
            aligned = inr aligned;
            filled = v.filled;
            coherent = l.coherent;
          };
          further = omega arith;
        }
        | inr hit ↦
            let all_or_none = l.all_or_none in
            let full : length l.cached ≡ n = ground arith in
            let s =
              serve_hit-Advances r content tag undef serves al count offset n l.cached
                (record p { zone = l.zone })
                (record {
                  order = order;
                  within = v.within;
                  aligned = v.aligned;
                  filled = v.filled;
                  coherent = l.coherent;
                })
                inside small full some_bytes within aligned l.same in
            record {
              next = s.next;
              returns =
                  advance_round-hit in_block n p l.cached l.zone s.next some_bytes (omega arith)
                    l.returns hit s.returns;
              is_progress = s.is_progress;
              further = s.further;
            }
      ]

  advance-Advances :
      (p : Progress)
      → IsProgress r content tag undef serves count offset p
      → p.done < count
      → Advances r content tag undef serves count offset p (advance r tag undef count offset p)
  unfolding advance
  advance-Advances p v h =
      let aligned = v.aligned in
      let in_block = if p.done == 0 then offset % block_size else 0 in
      let e : (offset + p.done) % block_size ≡ in_block = ground arith in
      advance_round-Advances in_block
        (min (min (count - p.done) block_size) (block_size - in_block)) p v e (ground arith)
        (ground arith) (omega arith) (round_aligned count offset p.done in_block e h)

  read_loop-IsProgress :
      (fuel : ℕ) (p : Progress)
      → IsProgress r content tag undef serves count offset p
      → count ≤ p.done + fuel
      → (p' : Progress) × (read_loop r tag undef fuel count offset p ≡ ok p')
        × IsProgress r content tag undef serves count offset p'
        × (count ≤ p'.done)
  unfolding read_loop
  read_loop-IsProgress zero p v enough = (p, rw (le→ltb p.done count (omega arith)), v, omega arith)
  read_loop-IsProgress (suc fuel) p v enough = elim (Bool-cases (ltb p.done count)) [
    | inl more ↦
        let a = advance-Advances p v (ltb→lt p.done count more) in
        let further = a.further in
        rw (more, a.returns) (read_loop-IsProgress fuel a.next a.is_progress (omega arith))
    | inr done ↦ (p, rw done, v, ltb→le p.done count done)
  ]

-- `result` is a normal return of `n` bytes of the source from `offset` on, in a coherent zone.
pub record ReadsThrough (r : Reader) (content : ℕ → ℕ) (tag : String) (offset n : ℕ)
    (result : Result (Bytes × CacheZone)) : Type 0 where
  pub out : Bytes
  pub zone : CacheZone
  pub returns : result ≡ ok (out, zone)
  pub count : length out ≡ n
  pub bytes : (i : ℕ) → i < n → byte_at out i ≡ content (offset + i)
  pub coherent : IsCoherent r.size content tag zone

module _ (r : Reader) (content : ℕ → ℕ) (tag : String) (undef : ℕ → ℕ → ℕ)
    (serves : Serves r content) (al : IsAligned r) where
  read_rest-eq :
      (count offset : ℕ) (p : Progress) (buf : ℕ → ℕ) (z : CacheZone)
      → p.last_fetch < count
      → offset + p.last_fetch < size_limit
      → non_cached_read r tag undef p.last_fetch
          (p.done - p.last_fetch)
          (offset + p.last_fetch)
          p.buf
          p.zone
        ≡ ok (buf, z)
      → read_rest r tag undef count offset p ≡ ok (tabulate p.done 0 buf, z)
  unfolding read_rest
  read_rest-eq count offset p buf z rest limit fetched =
      let e : add64 offset p.last_fetch ≡ offset + p.last_fetch = omega arith in
      rw (lt→ltb p.last_fetch count rest, e, fetched)

  read_rest-ReadsThrough :
      (count offset : ℕ) (p : Progress)
      → offset + count ≤ r.size
      → count < i32_limit
      → IsProgress r content tag undef serves count offset p
      → count ≤ p.done
      → ReadsThrough r content tag offset count (read_rest r tag undef count offset p)
  unfolding read_rest
  read_rest-ReadsThrough count offset p inside small v all =
      let limit = serves.small in
      let order = v.order in
      let within = v.within in
      let all' : p.done ≡ count = omega arith in
      elim (Bool-cases (ltb p.last_fetch count)) [
        | inl rest ↦
            let f =
              non_cached_read-Fills r content tag undef serves al p.last_fetch
                (p.done - p.last_fetch) (offset + p.last_fetch) p.buf p.zone (omega arith)
                (omega arith) v.coherent in
            record {
              out = tabulate p.done 0 f.buf';
              zone = f.zone;
              returns =
                  read_rest-eq count offset p f.buf' f.zone (ltb→lt p.last_fetch count rest)
                    (omega arith) f.returns;
              count = length-tabulate p.done 0 f.buf' ∙ all';
              bytes = λ i h.
                  byte_at-tabulate p.done 0 i f.buf' (omega arith)
                  ∙ elim (Bool-cases (ltb i p.last_fetch)) [
                    | inl old ↦
                        let o = ltb→lt i p.last_fetch old in
                        ap f.buf' (omega arith) ∙ f.before i (omega arith) ∙ v.filled i o
                    | inr new ↦
                        let n = ltb→le i p.last_fetch new in
                        ap f.buf' (omega arith)
                        ∙ f.inside (i - p.last_fetch) (omega arith) (omega arith)
                        ∙ ap content (omega arith)
                  ];
              coherent = f.coherent;
            }
        | inr none_left ↦
            let full = ltb→le p.last_fetch count none_left in
            record {
              out = tabulate p.done 0 p.buf;
              zone = p.zone;
              returns = rw none_left;
              count = length-tabulate p.done 0 p.buf ∙ all';
              bytes = λ i h.
                  byte_at-tabulate p.done 0 i p.buf (omega arith)
                  ∙ ap p.buf (omega arith)
                  ∙ v.filled i (omega arith);
              coherent = v.coherent;
            }
      ]

  -- Over a backing reader that meets the contract and whose advised blocks are aligned, a read through
  -- a coherent cache, at an offset within the source, always returns. It gives exactly the bytes of
  -- the source, clipped to its end, whatever the cache and the buffer held, and leaves a coherent cache.
  pub read-ReadsThrough :
      (count offset : ℕ) (buf : ℕ → ℕ) (z : CacheZone)
      → count < i32_limit
      → offset ≤ r.size
      → IsCoherent r.size content tag z
      → ReadsThrough r content tag offset
          (min count (r.size - offset))
          (read r tag undef count offset buf z)
  unfolding read
  read-ReadsThrough count offset buf z small h c =
      let limit = serves.small in
      let n = min count (r.size - offset) in
      let start : Progress = record { done = 0; last_fetch = 0; buf = buf; zone = z } in
      let v : IsProgress r content tag undef serves n offset start = record {
        order = omega arith;
        within = omega arith;
        aligned = inl refl;
        filled = λ i p. absurd (omega arith);
        coherent = c;
      } in
      let (p, looped, v', all) =
        read_loop-IsProgress r content tag undef serves al n offset (omega arith) (omega arith) n
          start v (omega arith) in
      rw (clipped_count-min r count offset limit small h, looped)
        (read_rest-ReadsThrough n offset p (omega arith) (omega arith) v' all)

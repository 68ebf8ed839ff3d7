-- ===== src/Cache/Reader/Read.antt =====
-- `CachedReader::read` over a backing reader that meets the contract of Io: the cache is not seen.
use Prim.Native.String.{String}
use mathlib.Core.List.{[]}
use darling_dmg.Common.{
  ℕ, ◌+◌, ◌-◌, ◌/◌, ◌%◌, ◌≤◌, ◌<◌, min, ◌≡◌, refl, ap, ◌∙◌, ◌⊎◌, ltb, arith, Bytes, byte_at, length,
  tabulate, length-tabulate, byte_at-tabulate, Result, ok, inl, inr, Bool-cases, Option-cases,
  ltb→lt, ltb→le,
}
use darling_dmg.Common.Word.{i32_limit, add64}
use darling_dmg.Io.{Reader, block_size}
use darling_dmg.Io.Serves.{Serves}
use darling_dmg.Cache.Zone.{CacheZone, get}
use darling_dmg.Cache.Zone.Linked.{block_of, get_miss, get-Hits}
use darling_dmg.Cache.Reader.{write, Progress, fetch_gap, serve_hit}
use darling_dmg.Cache.Reader.Fetch.{IsAligned, IsCoherent, write-before, write-inside}
use darling_dmg.Cache.Reader.NonCached.{Fills, non_cached_read-Fills}

module _ (r : Reader) (content : ℕ → ℕ) (tag : String) (undef : ℕ → ℕ → ℕ)
    (serves : Serves r content) where
  -- What one lookup in the zone gives: no bytes, or the bytes of the source.
  pub record Looks (pos in_block n : ℕ) (z : CacheZone) : Type 0 where
    pub cached : Bytes
    pub zone : CacheZone
    pub returns : get (pos / block_size, tag) in_block n z ≡ ok (cached, zone)
    pub coherent : IsCoherent r.size content tag zone
    pub all_or_none : (length cached ≡ 0) ⊎ (length cached ≡ n)
    pub same : (i : ℕ) → i < length cached → byte_at cached i ≡ content (pos + i)

  pub get-Looks :
      (pos in_block n : ℕ) (z : CacheZone)
      → pos % block_size ≡ in_block
      → in_block + n ≤ block_size
      → pos + n ≤ r.size
      → IsCoherent r.size content tag z
      → Looks pos in_block n z
  get-Looks pos in_block n z e fits within c =
      elim (Option-cases (block_of (pos / block_size, tag) z)) [
        | inl miss ↦ record {
          cached = [];
          zone = _;
          returns = get_miss (pos / block_size, tag) in_block n z miss;
          coherent = record {
            valid = record { linked = c.valid.linked; fresh = c.valid.fresh };
            agrees = c.agrees;
          };
          all_or_none = inl refl;
          same = λ i h. absurd (omega arith);
        }
        | inr (block, hit) ↦
            let h = get-Hits (pos / block_size, tag) in_block n z block c.valid (omega arith) hit in
            let all : min (block_size - in_block) n ≡ n = omega arith in
            record {
              cached = tabulate n in_block block;
              zone = h.zone;
              returns = rw all at h.returns;
              coherent = record {
                valid = h.valid;
                agrees = λ m b i found. c.agrees m b i (ground (arith, h.same (m, tag)));
              };
              all_or_none = inr (length-tabulate n in_block block);
              same = λ i p.
                  let p' : i < n = omega (arith, length-tabulate n in_block block) in
                  byte_at-tabulate n in_block i block p'
                  ∙ c.agrees (pos / block_size) block (in_block + i) hit (omega arith) (omega arith)
                  ∙ ap content (omega arith);
            }
      ]

  pub record IsProgress (count offset : ℕ) (p : Progress) : Type 0 where
    pub order : p.last_fetch ≤ p.done
    pub within : p.done ≤ count
    pub aligned : (p.done ≡ 0) ⊎ (p.done ≡ count) ⊎ ((offset + p.done) % block_size ≡ 0)
    pub filled : (i : ℕ) → i < p.last_fetch → p.buf i ≡ content (offset + i)
    pub coherent : IsCoherent r.size content tag p.zone

  pub record Advances (count offset : ℕ) (p : Progress) (result : Result Progress) : Type 0 where
    pub next : Progress
    pub returns : result ≡ ok next
    pub is_progress : IsProgress count offset next
    pub further : p.done < next.done

  fetch_gap-Fills :
      IsAligned r
      → (offset : ℕ) (p : Progress) (buf : ℕ → ℕ) → p.last_fetch ≤ p.done
      → offset + p.done ≤ r.size
      → p.done < i32_limit
      → IsCoherent r.size content tag p.zone
      → Fills r content tag undef serves p.last_fetch
          (offset + p.last_fetch)
          0
          (p.done - p.last_fetch)
          buf
          (fetch_gap r tag undef offset p buf)
  unfolding fetch_gap
  fetch_gap-Fills al offset p buf order inside near c =
      elim (Bool-cases (ltb 0 (p.done - p.last_fetch))) [
        | inl gap ↦
            let small = serves.small in
            let e : add64 offset p.last_fetch ≡ offset + p.last_fetch = omega arith in
            rw (gap, e)
              (non_cached_read-Fills r content tag undef serves al p.last_fetch
                (p.done - p.last_fetch) (offset + p.last_fetch) buf p.zone (omega arith)
                (omega arith) c)
        | inr no_gap ↦ rw no_gap (record {
          buf' = buf;
          zone = p.zone;
          returns = refl;
          coherent = c;
          before = λ i h. refl;
          behind = λ i h. refl;
          inside = λ i h q. absurd (omega (arith, ltb→le 0 (p.done - p.last_fetch) no_gap));
        })
      ]

  pub serve_hit-Advances :
      IsAligned r
      → (count offset n : ℕ) (cached : Bytes) (p : Progress) → IsProgress count offset p
      → offset + count ≤ r.size
      → count < i32_limit
      → length cached ≡ n
      → 0 < n
      → p.done + n ≤ count
      → (p.done + n ≡ count) ⊎ ((offset + (p.done + n)) % block_size ≡ 0)
      → ((i : ℕ) → i < length cached → byte_at cached i ≡ content (offset + p.done + i))
      → Advances count offset p (serve_hit r tag undef offset n cached p)
  unfolding serve_hit
  serve_hit-Advances al count offset n cached p v inside small full some_bytes fits next_aligned
        same =
      let order = v.order in
      let within = v.within in
      let f =
        fetch_gap-Fills al offset p (write p.buf p.done cached) order (omega arith) (omega arith)
          v.coherent in
      record {
        next = record {
          done = p.done + length cached;
          last_fetch = p.done + n;
          buf = f.buf';
          zone = f.zone;
        };
        returns = rw f.returns;
        is_progress = record {
          order = omega arith;
          within = omega arith;
          aligned = inr (rw full next_aligned);
          filled = λ i h. elim (Bool-cases (ltb i p.done)) [
            | inl earlier ↦
                let e = ltb→lt i p.done earlier in
                elim (Bool-cases (ltb i p.last_fetch)) [
                  | inl old ↦
                      let o = ltb→lt i p.last_fetch old in
                      f.before i (omega arith) ∙ write-before p.buf p.done cached i e ∙ v.filled i o
                  | inr gap ↦
                      let g = ltb→le i p.last_fetch gap in
                      ap f.buf' (omega arith)
                      ∙ f.inside (i - p.last_fetch) (omega arith) (omega arith)
                      ∙ ap content (omega arith)
                ]
            | inr now ↦
                let later = ltb→le i p.done now in
                f.behind i (omega arith)
                ∙ write-inside p.buf p.done cached i later (omega arith)
                ∙ same (i - p.done) (omega arith)
                ∙ ap content (omega arith)
          ];
          coherent = f.coherent;
        };
        further = omega arith;
      }

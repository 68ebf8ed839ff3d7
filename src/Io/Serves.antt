-- ===== src/Io/Serves.antt =====
-- The contract of a byte source, which the readers of Io meet and their clients rely on.
use darling_dmg.Common.{
  ◌∙◌, ℕ, ◌+◌, ◌-◌, ◌≤◌, ◌<◌, min, ◌≡◌, refl, arith, Bytes, take, drop, length, byte_at, Result, ok,
  length-take, length-drop, byte_at-take, byte_at-drop,
}
use darling_dmg.Common.Word.{i32_limit, size_limit}
use darling_dmg.Io.{Block, Reader, advise_default, memory_reader, memory_count}

-- `result` is a normal return of `n` bytes, those of `content` from `offset` on.
pub record Returns (content : ℕ → ℕ) (offset n : ℕ) (result : Result Bytes) : Type 0 where
  pub out : Bytes
  pub returns : result ≡ ok out
  pub count : length out ≡ n
  pub bytes : (i : ℕ) → i < n → byte_at out i ≡ content (offset + i)

-- `result` is a block that holds `offset` and does not reach past `size`.
pub record Advises (size offset : ℕ) (result : Result Block) : Type 0 where
  pub block : Block
  pub returns : result ≡ ok block
  pub from : block.start ≤ offset
  pub until : offset < block.stop
  pub within : block.stop ≤ size

-- The reader holds `content`: a read gives the bytes there are, up to the end.
pub record Serves (r : Reader) (content : ℕ → ℕ) : Type 0 where
  pub small : r.size < size_limit
  pub reads :
      (count offset : ℕ)
      → count < i32_limit
      → offset ≤ r.size
      → Returns content offset (min count (r.size - offset)) (r.read count offset)
  pub advises : (offset : ℕ) → offset < r.size → Advises r.size offset (r.advise offset)

pub advise_default-Advises :
    (len offset : ℕ)
    → len < size_limit
    → offset < len
    → Advises len offset (ok (advise_default len offset))
unfolding advise_default
advise_default-Advises len offset small h = record {
  block = advise_default len offset;
  returns = refl;
  from = omega arith;
  until = ground arith;
  within = ground arith;
}

memory_count-min :
    (data' : Bytes) (count offset : ℕ)
    → length data' < size_limit
    → count < i32_limit
    → offset ≤ length data'
    → memory_count data' count offset ≡ min count (length data' - offset)
unfolding memory_count
memory_count-min data' count offset small c h = ground arith

-- A `MemoryReader` holds the bytes that it was given.
pub memory_reader-Serves :
    (data' : Bytes) → length data' < size_limit → Serves (memory_reader data') (byte_at data')
unfolding memory_reader
memory_reader-Serves data' small = record {
  small = small;
  reads = λ count offset c h. record {
    out = take (min count (length data' - offset)) (drop offset data');
    returns = ground (arith, memory_count-min data' count offset);
    count = omega (arith, length-take {0}, length-drop {0});
    bytes = λ i p.
        byte_at-take (min count (length data' - offset)) i (drop offset data') p
        ∙ byte_at-drop offset i data';
  };
  advises = λ offset h. advise_default-Advises (length data') offset small h;
}

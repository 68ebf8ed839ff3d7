-- ===== src/Dmg/Decompressor/Stream/Library.antt =====
-- What the stream decompressors rely on of their library.
use darling_dmg.Common.{ℕ, ◌+◌, ◌≤◌, ◌<◌, ◌≡◌, ◌≢◌, Bytes, byte_at, length}
use darling_dmg.Dmg.Decompressor.Stream.{running, stream_end, failed, Advance}

module _ {ℓ} {Z : Type ℓ} (advance : Z → Bytes → ℕ → Advance Z) (packed : ℕ → ℕ) (packed_size : ℕ)
    (plain : ℕ → ℕ) (plain_size : ℕ) where
  -- A call that is at place `i` of the packed data and `k` of the plain data makes progress, and puts out
  -- what comes next. The stream ends with its plain data.
  pub record Goes (At : Z → ℕ → ℕ → Type 0) (i k room : ℕ) (input : Bytes) (a : Advance Z)
      : Type 0 where
    pub used_le : a.used ≤ length input
    pub fits : length a.out ≤ room
    pub progress : 0 < a.used + length a.out
    pub bytes : (j : ℕ) → j < length a.out → byte_at a.out j ≡ plain (k + j)
    pub within : k + length a.out ≤ plain_size
    pub good : a.status ≢ failed
    pub goes_on : a.status ≡ running → At a.state (i + a.used) (k + length a.out)
    pub ends : a.status ≡ stream_end → k + length a.out ≡ plain_size

  -- The library reads the format of the packed data. `At z i k` says that `z` has not come to the end of
  -- the stream, has used `i` bytes and has put out `k`; the format ends with a byte that comes behind all
  -- that is put out (the checksum), so there is input left.
  pub record IsLibrary (z0 : Z) : Type (ℓ + 1) where
    pub At : Z → ℕ → ℕ → Type 0
    pub start : At z0 0 0
    pub left : (z : Z) (i k : ℕ) → At z i k → i < packed_size
    pub goes :
        (z : Z) (i k : ℕ) (input : Bytes) (room : ℕ)
        → At z i k
        → 0 < length input
        → i + length input ≤ packed_size
        → ((j : ℕ) → j < length input → byte_at input j ≡ packed (i + j))
        → 0 < room
        → Goes At i k room input (advance z input room)

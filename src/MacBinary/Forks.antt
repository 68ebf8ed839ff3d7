-- ===== src/MacBinary/Forks.antt =====
-- Where the forks lie, and what they hold.
use darling_dmg.Common.{◌+◌, ◌%◌, ◌<◌, ◌≤◌, ◌≡◌, Bytes}
use darling_dmg.Io.Serves.{Serves}
use darling_dmg.MacBinary.{data_len, data_start, resource_start}

-- The resource fork starts at the first multiple of 128 that is not inside the data fork.
pub record Follows (header : Bytes) : Type 0 where
  pub behind : data_start header + data_len header ≤ resource_start header
  pub near : resource_start header < data_start header + data_len header + 128
  pub aligned : resource_start header % 128 ≡ 0

-- ===== src/MacBinary.antt =====
-- src/MacBinary.h, MacBinary.cpp: the two forks of a file in MacBinary form. The header is its 128 bytes.
pub mod Forks
mod Tests
use darling_dmg.Common.{
  ℕ, ◌+◌, ◌*◌, ◌/◌, ◌%◌, ◌==◌, if◌then◌else◌, Bytes, length, Result, ok, err, io_error, ◌>>=◌,
}
use darling_dmg.Common.Word.{u32_mod}
use darling_dmg.Endian.{be16_at, be32_at}
use darling_dmg.Io.{Reader, sub_reader}

abbrev pub mac_header_size : ℕ
mac_header_size = 128

-- `'mBIN'`.
abbrev pub mbin : ℕ
mbin = 0x6d42494e

-- The constructor: the header that it reads.
unfoldable pub open_mac_binary : Reader → Result Bytes
open_mac_binary r = do
  header ← r.read mac_header_size 0
  if length header == mac_header_size then ok header else err io_error

module _ (header : Bytes) where
  unfoldable pub data_len : ℕ
  unfolding be32_at
  data_len = be32_at header 83

  unfoldable pub resource_len : ℕ
  unfolding be32_at
  resource_len = be32_at header 87

  unfoldable pub extra_len : ℕ
  unfolding be16_at be32_at
  extra_len = if be32_at header 102 == mbin then be16_at header 120 else 0

  unfoldable pub data_start : ℕ
  unfolding extra_len
  data_start = mac_header_size + extra_len

  -- The sums are taken in 32 bits.
  unfoldable pub resource_start : ℕ
  unfolding extra_len data_len
  resource_start = mac_header_size + ((extra_len + data_len) % u32_mod + 127) % u32_mod / 128 * 128

  unfoldable pub get_data_fork : Reader → Reader
  unfolding data_start data_len
  get_data_fork r = sub_reader r data_start data_len

  unfoldable pub get_resource_fork : Reader → Reader
  unfolding resource_start resource_len
  get_resource_fork r = sub_reader r resource_start resource_len

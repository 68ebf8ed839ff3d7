-- ===== src/Hfs/Volume/Tests.antt =====
-- Volumes at concrete headers.
use darling_dmg.Common.{
  ◌*◌, ◌≡◌, ◌<◌, ◌↔◌, refl, true, ◌++◌, ◌∷◌, Bytes, replicate, ok, err, io_error,
}
use darling_dmg.Common.Word.{u32_mod}
use darling_dmg.Io.{Reader}
use darling_dmg.Hfs.Volume.{
  open_volume, is_hfs_plus, usage, is_plus_or_x, signature, volume_block_size, total_blocks,
  free_blocks,
}
use darling_dmg.Hfs.Volume.Opened
use darling_dmg.Hfs.Volume.Usage

-- A header with 4096-byte blocks, 2 ^ 20 of them, 2 free.
abbrev plus_header : Bytes
plus_header =
    0x48 ∷ 0x2b ∷ replicate 38 0
    ++ (0 ∷ 0 ∷ 0x10 ∷ 0 ∷ 0 ∷ 0x10 ∷ 0 ∷ 0 ∷ 0 ∷ 0 ∷ 0 ∷ 2 ∷ replicate 460 0)

abbrev plus_disk : Reader
plus_disk = record {
  read = λ count offset. ok plus_header;
  size = 0x100000000;
  advise = λ offset. err io_error;
}

opened : open_volume plus_disk ≡ ok (record { reader = plus_disk; header = plus_header })
unfolding open_volume
opened = refl

-- A volume of exactly 4 GiB reports a size of 0.
usage_4gib : usage plus_header ≡ (0, 8192)
unfolding usage
usage_4gib = refl

open_volume-is_hfs_plus_example :
    (is_hfs_plus plus_disk ≡ ok true) × (is_plus_or_x (signature plus_header) ≡ true)
open_volume-is_hfs_plus_example =
    Opened.open_volume-is_hfs_plus plus_disk (record { reader = plus_disk; header = plus_header })
      opened

usage_iff_example :
    (((usage plus_header).0 ≡ volume_block_size plus_header * total_blocks plus_header)
      ↔ (volume_block_size plus_header * total_blocks plus_header < u32_mod))
    × (((usage plus_header).1 ≡ volume_block_size plus_header * free_blocks plus_header)
        ↔ (volume_block_size plus_header * free_blocks plus_header < u32_mod))
usage_iff_example = Usage.usage_iff plus_header

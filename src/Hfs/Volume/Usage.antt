-- ===== src/Hfs/Volume/Usage.antt =====
-- The sizes that a volume reports.
use darling_dmg.Common.{ℕ, ◌*◌, ◌%◌, ◌<◌, ◌≡◌, ◌↔◌, arith, Bytes}
use darling_dmg.Common.Word.{u32_mod}
use darling_dmg.Hfs.Volume.{usage, volume_block_size, total_blocks, free_blocks}

mod_iff : (n : ℕ) → (n % u32_mod ≡ n) ↔ (n < u32_mod)
mod_iff n = (λ h. omega arith, λ h. omega arith)

-- The sizes are right exactly on volumes below 4 GiB: the total is the product of the block size and the
-- count of blocks if and only if that product is below 2 ^ 32, and so is the free part.
pub usage_iff :
    (header : Bytes)
    → (((usage header).0 ≡ volume_block_size header * total_blocks header)
        ↔ (volume_block_size header * total_blocks header < u32_mod))
      × (((usage header).1 ≡ volume_block_size header * free_blocks header)
          ↔ (volume_block_size header * free_blocks header < u32_mod))
unfolding usage
usage_iff header = (
  mod_iff (volume_block_size header * total_blocks header),
  mod_iff (volume_block_size header * free_blocks header),
)

-- ===== src/Endian.antt =====
-- src/be.h: the numbers that the structures on the disk hold. A field read through a pointer and then
-- through `be` is the big-endian number of its bytes.
use darling_dmg.Common.{ℕ, ◌+◌, ◌*◌, Bytes, byte_at}

unfoldable pub be16_at : Bytes → ℕ → ℕ
be16_at bytes i = byte_at bytes i * 0x100 + byte_at bytes (i + 1)

unfoldable pub be32_at : Bytes → ℕ → ℕ
unfolding be16_at
be32_at bytes i = be16_at bytes i * 0x10000 + be16_at bytes (i + 2)

unfoldable pub be64_at : Bytes → ℕ → ℕ
unfolding be32_at
be64_at bytes i = be32_at bytes i * 0x100000000 + be32_at bytes (i + 4)

unfoldable pub le16_at : Bytes → ℕ → ℕ
le16_at bytes i = byte_at bytes (i + 1) * 0x100 + byte_at bytes i

unfoldable pub le32_at : Bytes → ℕ → ℕ
unfolding le16_at
le32_at bytes i = le16_at bytes (i + 2) * 0x10000 + le16_at bytes i

unfoldable pub le64_at : Bytes → ℕ → ℕ
unfolding le32_at
le64_at bytes i = le32_at bytes (i + 4) * 0x100000000 + le32_at bytes i

-- ===== src/Hfs/Volume.antt =====
-- src/HFSVolume.cpp: opening a volume, the probe for one, and its sizes. A header is its bytes, as
-- `m_header` holds them; src/hfsplus.h and src/hfs.h give the places of its fields.
pub mod Opened
pub mod Usage
mod Tests
use darling_dmg.Common.{
  ℕ, ◌+◌, ◌*◌, ◌%◌, Bool, true, false, ◌||◌, not, ◌==◌, if◌then◌else◌, Bytes, ◌++◌, drop, length,
  Result, ok, err, io_error, function_not_implemented_error, ◌>>=◌,
}
use darling_dmg.Common.Word.{u32_mod}
use darling_dmg.Endian.{be16_at, be32_at}
use darling_dmg.Io.{Reader, sub_reader}

abbrev pub hfs_signature : ℕ
hfs_signature = 0x4244

abbrev pub hfsp_signature : ℕ
hfsp_signature = 0x482b

abbrev pub hfsx_signature : ℕ
hfsx_signature = 0x4858

abbrev pub header_size : ℕ
header_size = 512

abbrev pub is_plus_or_x : ℕ → Bool
is_plus_or_x s = s == hfsp_signature || s == hfsx_signature

module _ (header : Bytes) where
  unfoldable pub signature : ℕ
  unfolding be16_at
  signature = be16_at header 0

  unfoldable pub volume_block_size : ℕ
  unfolding be32_at
  volume_block_size = be32_at header 40

  unfoldable pub total_blocks : ℕ
  unfolding be32_at
  total_blocks = be32_at header 44

  unfoldable pub free_blocks : ℕ
  unfolding be32_at
  free_blocks = be32_at header 48

  -- HFSMasterDirectoryBlock.
  unfoldable pub dr_al_blk_siz : ℕ
  unfolding be32_at
  dr_al_blk_siz = be32_at header 20

  unfoldable pub dr_al_bl_st : ℕ
  unfolding be16_at
  dr_al_bl_st = be16_at header 28

  unfoldable pub dr_embed_sig_word : ℕ
  unfolding be16_at
  dr_embed_sig_word = be16_at header 124

  unfoldable pub dr_embed_start_block : ℕ
  unfolding be16_at
  dr_embed_start_block = be16_at header 126

  unfoldable pub dr_embed_block_count : ℕ
  unfolding be16_at
  dr_embed_block_count = be16_at header 128

  -- `usage`: the products are taken in 32 bits, and then widened.
  unfoldable pub usage : ℕ × ℕ
  unfolding volume_block_size total_blocks free_blocks
  usage = (volume_block_size * total_blocks % u32_mod, volume_block_size * free_blocks % u32_mod)

  unfoldable pub is_hfsx : Bool
  unfolding signature
  is_hfsx = signature == hfsx_signature

  -- The part of the disk that an HFS volume wraps, its place and its size.
  unfoldable pub embedded : Reader → Reader
  unfolding dr_al_blk_siz dr_al_bl_st dr_embed_start_block dr_embed_block_count
  embedded r =
      sub_reader r ((dr_al_blk_siz * dr_embed_start_block + 512 * dr_al_bl_st) % u32_mod)
        (dr_al_blk_siz * dr_embed_block_count % u32_mod)

-- `m_reader` and `m_header`.
pub record Volume : Type 0 where
  pub reader : Reader
  pub header : Bytes

-- `processEmbeddedHFSPlus`. What its read does not give stays in the header as it was.
unfoldable pub process_embedded : Reader → Bytes → Result Volume
unfolding embedded dr_embed_sig_word
process_embedded r header =
    let inner = embedded header r in
    let opened : Result Volume = (do
      bytes ← inner.read header_size 1024
      ok (record { reader = inner; header = bytes ++ drop (length bytes) header })) in
    if is_plus_or_x (dr_embed_sig_word header) then opened else err function_not_implemented_error

unfoldable pub check_signature : Volume → Result Volume
unfolding signature
check_signature v = if is_plus_or_x (signature v.header) then ok v else err io_error

-- The constructor, up to the trees that it makes.
unfoldable pub open_header : Reader → Bytes → Result Volume
unfolding process_embedded check_signature signature
open_header r header =
    if signature header == hfs_signature
    then process_embedded r header >>= check_signature
    else check_signature (record { reader = r; header = header })

unfoldable pub open_volume : Reader → Result Volume
unfolding open_header
open_volume r = do
  header ← r.read header_size 1024
  if length header == header_size then open_header r header else err io_error

unfoldable pub is_plus_header : Bytes → Bool
unfolding signature dr_embed_sig_word
is_plus_header header =
    if signature header == hfs_signature
    then is_plus_or_x (dr_embed_sig_word header)
    else is_plus_or_x (signature header)

unfoldable pub is_hfs_plus : Reader → Result Bool
unfolding is_plus_header
is_hfs_plus r = do
  header ← r.read header_size 1024
  ok (if length header == header_size then is_plus_header header else false)

-- ===== src/Fuse.antt =====
-- src/main-fuse.cpp: the choice of the volume in an image and the operations that libfuse calls. the operations take what the volume gives as an argument.
pub mod Chosen
pub mod Codes
mod Tests
use darling_dmg.Common.{
  ℕ, zero, suc, ◌+◌, ◌-◌, Bool, true, false, ◌||◌, ltb, ◌==◌, if◌then◌else◌, Option, none, some,
  List, [], ◌∷◌, ◌++◌, Bytes, length, take, replicate, Error, file_not_found_error, io_error,
  no_data_error, function_not_implemented_error, attribute_not_found_error,
  operation_not_permitted_error, logic_error, runtime_error, out_of_range, assertion, memory_fault,
  input_over_read, out_of_fuel, Result, ok, err, ◌>>=◌,
}
use darling_dmg.Common.Word.{sub64}
use darling_dmg.Endian.{be32_at}
use darling_dmg.Io.{Reader}
use darling_dmg.Gpt.{Partition, is_gpt_disk, equal, apple_hfs, reader_for_partition}
use darling_dmg.Apm.{is_apple_disk}
use darling_dmg.Hfs.Volume.{is_hfs_plus}

pub data Errno : Type 0 where
  enoent enosys eio enodata eperm erange enomem : Errno

-- What an operation does: it returns a number, or an error number below zero, or ends the process, or what C++ leaves
-- undefined or without an end.
pub data Code : Type 0 where
  returned : ℕ → Code
  minus : Errno → Code
  aborted : Code
  undefined : Code

-- The handlers of `handle_exceptions`. `out_of_range` is a logic_error.
unfoldable pub code_of : Error → Code
code_of file_not_found_error = minus enoent
code_of function_not_implemented_error = minus enosys
code_of io_error = minus eio
code_of no_data_error = minus enodata
code_of attribute_not_found_error = minus enodata
code_of operation_not_permitted_error = minus eperm
code_of logic_error = aborted
code_of out_of_range = aborted
code_of runtime_error = minus eio
code_of assertion = aborted
code_of memory_fault = undefined
code_of input_over_read = undefined
code_of out_of_fuel = undefined

unfoldable pub handle_exceptions : Result Code → Code
unfolding code_of
handle_exceptions (ok code) = code
handle_exceptions (err e) = code_of e

-- The code, and what is put into the buffer.
unfoldable pub hfs_read : Option Reader → ℕ → ℕ → Code × Bytes
unfolding handle_exceptions
hfs_read none bytes offset = (minus eio, [])
hfs_read (some file) bytes offset = elim (file.read bytes offset) [
  | ok data' ↦ (returned (length data'), data')
  | err e ↦ (handle_exceptions (err e), [])
]

-- The end of `hfs_getxattr` and of `hfs_listxattr`; without a buffer, `none`, only the size is asked for.
unfoldable pub give_all : Option ℕ → Bytes → Code × Bytes
give_all none data' = (returned (length data'), [])
give_all (some size) data' =
    if ltb size (length data') then (minus erange, []) else (returned (length data'), data')

unfoldable pub hfs_getxattr : Result Bytes → Option ℕ → Code × Bytes
unfolding give_all handle_exceptions
hfs_getxattr (ok data') value = give_all value data'
hfs_getxattr (err e) value = (handle_exceptions (err e), [])

-- Each name with the zero behind it.
unfoldable pub name_list : List Bytes → Bytes
name_list [] = []
name_list (s ∷ names) = s ++ 0 ∷ [] ++ name_list names

unfoldable pub hfs_listxattr : Result (List Bytes) → Option ℕ → Code × Bytes
unfolding give_all name_list handle_exceptions
hfs_listxattr (ok attrs) buffer = give_all buffer (name_list attrs)
hfs_listxattr (err e) buffer = (handle_exceptions (err e), [])

-- The loop of `hfs_readdir`; `filler` takes an entry into the buffer, or fails.
module _ {ℓ κ} {A : Type ℓ} {B : Type κ} (filler : B → A → Option B) where
  unfoldable pub fill_entries : B → List A → Code × B
  fill_entries buf [] = (returned 0, buf)
  fill_entries buf (entry ∷ contents) = elim (filler buf entry) [
    | none ↦ (minus enomem, buf)
    | some buf' ↦ fill_entries buf' contents
  ]

  unfoldable pub hfs_readdir : Result (List A) → B → Code × B
  unfolding fill_entries handle_exceptions
  hfs_readdir (ok contents) buf = fill_entries buf contents
  hfs_readdir (err e) buf = (handle_exceptions (err e), buf)

-- `Apple_HFSX`.
abbrev pub apple_hfsx : Bytes
apple_hfsx = apple_hfs ++ 0x58 ∷ []

unfoldable pub is_hfs_type : Bytes → Bool
unfolding equal
is_hfs_type t = equal t apple_hfs || equal t apple_hfsx

-- The loop over the partitions, from the number `i` on.
unfoldable pub part_index : ℕ → List Partition → Option ℕ
unfolding is_hfs_type
part_index i [] = none
part_index i (part ∷ parts) =
    let rest = part_index (i + 1) parts in if is_hfs_type part.part_type then some i else rest

-- `DMGDisk::isDMG` of src/DMGDisk.cpp; the signature that is read starts as zero.
unfoldable pub is_dmg : Reader → Result Bool
is_dmg r = do
  bytes ← r.read 4 (sub64 r.size 512)
  ok (be32_at (take 4 (bytes ++ replicate 4 0)) 0 == 0x6b6f6c79)

-- What is made of an image.
pub data ImageKind : Type 0 where
  dmg_image gpt_image apple_image plain_volume : ImageKind

unfoldable pub image_kind : Reader → Result ImageKind
unfolding is_dmg is_gpt_disk is_apple_disk is_hfs_plus
image_kind r = do
  dmg ← is_dmg r
  let not_dmg = (do
    gpt ← is_gpt_disk r
    let not_gpt = (do
      apple ← is_apple_disk r
      let not_apple = (do
        plus ← is_hfs_plus r
        if plus then ok plain_volume else err function_not_implemented_error)
      if apple then ok apple_image else not_apple)
    if gpt then ok gpt_image else not_gpt)
  if dmg then ok dmg_image else not_dmg

-- `partitions` and `reader_for` stand for the virtual functions of the disk that is made.
module _ (partitions : ImageKind → Reader → Result (List Partition))
    (reader_for : ImageKind → Reader → List Partition → ℕ → Result Reader) where
  unfoldable pub partition_volume : ImageKind → Reader → Result Reader
  unfolding part_index
  partition_volume kind r = do
    parts ← partitions kind r
    elim (part_index 0 parts) [
      | none ↦ err function_not_implemented_error
      | some index ↦ reader_for kind r parts index
    ]

  -- `openDisk`: the reader of the volume.
  unfoldable pub open_disk : Reader → Result Reader
  unfolding image_kind partition_volume
  open_disk r = do
    kind ← image_kind r
    elim kind [
      | plain_volume ↦ ok r
      | dmg_image ↦ partition_volume dmg_image r
      | gpt_image ↦ partition_volume gpt_image r
      | apple_image ↦ partition_volume apple_image r
    ]

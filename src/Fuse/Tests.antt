-- ===== src/Fuse/Tests.antt =====
-- Names of attributes, and a disk with two partitions.
use darling_dmg.Common.{
  ℕ, ◌≡◌, refl, none, some, List, [], ◌∷◌, Bytes, out_of_range, Result, ok, err,
}
use darling_dmg.Io.{Reader, memory_reader}
use darling_dmg.Gpt.{Partition, apple_hfs, apple_free, reader_for_partition}
use darling_dmg.Apm.Entries.{no_text, more_text}
use darling_dmg.Fuse.{
  ImageKind, gpt_image, returned, minus, aborted, eio, hfs_read, hfs_listxattr, handle_exceptions,
  partition_volume,
}
use darling_dmg.Fuse.Chosen
use darling_dmg.Fuse.Codes.{AreNames, no_names, more_names, Answers, hfs_listxattr-Answers}

abbrev names : List Bytes
names = (0x61 ∷ 0x62 ∷ []) ∷ (0x63 ∷ []) ∷ []

names-AreNames : AreNames names
names-AreNames =
    more_names (0x61 ∷ 0x62 ∷ []) ((0x63 ∷ []) ∷ [])
      (more_text 0x61 (0x62 ∷ []) refl (more_text 0x62 [] refl no_text))
      (more_names (0x63 ∷ []) [] (more_text 0x63 [] refl no_text) no_names)

listed : hfs_listxattr (ok names) (some 9) ≡ (returned 5, 0x61 ∷ 0x62 ∷ 0 ∷ 0x63 ∷ 0 ∷ [])
unfolding hfs_listxattr
listed = refl

not_open : hfs_read none 4 0 ≡ (minus eio, [])
unfolding hfs_read
not_open = refl

fatal : handle_exceptions (err out_of_range) ≡ aborted
unfolding handle_exceptions
fatal = refl

abbrev parts : List Partition
parts =
    record { name = []; part_type = apple_free; offset = 0; size = 1 }
    ∷ record { name = []; part_type = apple_hfs; offset = 1; size = 2 }
    ∷ []

abbrev disk : Reader
disk = memory_reader (1 ∷ 2 ∷ 3 ∷ [])

abbrev partitions : ImageKind → Reader → Result (List Partition)
partitions kind r = ok parts

abbrev reader_for : ImageKind → Reader → List Partition → ℕ → Result Reader
reader_for kind r parts' index = reader_for_partition r parts' index

second : partition_volume partitions reader_for gpt_image disk ≡ reader_for_partition disk parts 1
unfolding partition_volume
second = refl

hfs_listxattr-Answers_example : Answers names
hfs_listxattr-Answers_example = hfs_listxattr-Answers names names-AreNames

partition_volume-Chooses_example :
    Chosen.Chooses partitions reader_for gpt_image disk parts
      (partition_volume partitions reader_for gpt_image disk)
partition_volume-Chooses_example =
    Chosen.partition_volume-Chooses partitions reader_for gpt_image disk parts refl

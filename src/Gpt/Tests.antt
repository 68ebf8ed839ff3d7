-- ===== src/Gpt/Tests.antt =====
-- Partition types.
use darling_dmg.Common.{ℕ, zero, suc, ◌<◌, ◌≡◌, refl, arith, [], ◌∷◌, replicate, byte_at, length}
use darling_dmg.Gpt.{GptPartition, make_guid, partition_of, apple_hfs}
use darling_dmg.Gpt.Guid
use darling_dmg.Gpt.Guid.{IsGuid, AreBytes}

abbrev unused : GptPartition
unused = record {
  type_guid = record { data1 = 0; data2 = 0; data3 = 0; data4 = replicate 8 0 };
  first_lba = 0;
  last_lba = 0;
  name = replicate 36 0;
}

abbrev hfs : GptPartition
hfs = record {
  type_guid = record {
    data1 = 0x48465300;
    data2 = 0;
    data3 = 0x11AA;
    data4 = 0xAA ∷ 0x11 ∷ 0x00 ∷ 0x30 ∷ 0x65 ∷ 0x43 ∷ 0xEC ∷ 0xAC ∷ [];
  };
  first_lba = 40;
  last_lba = 49;
  name = 0x61 ∷ replicate 35 0;
}

hfs_recognised : (partition_of hfs).part_type ≡ apple_hfs
unfolding partition_of
hfs_recognised = refl

hfs_size : (partition_of hfs).size ≡ 5120
unfolding partition_of
hfs_size = refl

zeros-AreBytes : (n i : ℕ) → byte_at (replicate n 0) i < 0x100
zeros-AreBytes zero i = omega arith
zeros-AreBytes (suc n) zero = omega arith
zeros-AreBytes (suc n) (suc i) = zeros-AreBytes n i

unused-IsGuid : IsGuid unused.type_guid
unused-IsGuid = record {
  in_data1 = omega arith;
  in_data2 = omega arith;
  in_data4 = λ i h. zeros-AreBytes 8 i;
  eight = refl;
}

partition_of-make_guid_example :
    ((partition_of unused).part_type ≡ make_guid unused.type_guid)
    × (length (partition_of unused).part_type < 36)
partition_of-make_guid_example = Guid.partition_of-make_guid unused unused-IsGuid (omega arith)

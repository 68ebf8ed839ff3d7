-- ===== src/Apm/Tests.antt =====
-- A disk with one partition, whose map is behind the first block.
use mathlib.Core.Path.{subst}
use darling_dmg.Common.{
  ℕ, zero, suc, ◌+◌, ◌*◌, ◌<◌, ◌≡◌, refl, ap, Bool, true, false, arith, ◌==◌, if◌then◌else◌, none,
  some, get_elem?, [], ◌∷◌, Bytes, replicate, Result, ok,
}
use darling_dmg.Io.{Reader, advise_default}
use darling_dmg.Apm.{
  struct_of, has_signature, read_entry, guess_from, entries_from, load_map, is_apple_disk,
}
use darling_dmg.Apm.Guess
use darling_dmg.Apm.Entries.{
  Entry, entry_bytes, partitions_for, no_text, more_text, IsEntry, HoldsEntries, behind_end,
  entries_from-partitions_for,
}

abbrev entry : Entry
entry = record { start = 64; blocks = 100; name = 0x64 ∷ 0x69 ∷ []; kind = 0x41 ∷ [] }

-- The size of the blocks is not told.
abbrev block0 : Bytes
block0 = 0x45 ∷ 0x52 ∷ replicate 510 0

abbrev read_block : ℕ → Result Bytes
read_block offset =
    if offset == 0 then ok block0 else if offset == 512 then ok (entry_bytes entry) else ok []

abbrev disk : Reader
disk = record {
  read = λ count offset. read_block offset;
  size = 1024;
  advise = λ offset. ok (advise_default 1024 offset);
}

loaded :
    load_map disk none 0
    ≡ ok (
        record { name = 0x64 ∷ 0x69 ∷ []; part_type = 0x41 ∷ []; offset = 32768; size = 51200 }
        ∷ [])
unfolding load_map entry_bytes
loaded = refl

probed : is_apple_disk disk ≡ ok true
unfolding is_apple_disk
probed = refl

abbrev one_signed : ℕ → Bool
one_signed i = i == 0

place_other : (i : ℕ) → 0 < i → ((i + 1) * 512 == 0) ≡ false
place_other i h = ground arith

place_not_first : (i : ℕ) → 0 < i → ((i + 1) * 512 == 512) ≡ false
place_not_first i h = ground arith

nothing_at : (i : ℕ) → 0 < i → read_entry disk none 0 512 i ≡ ok []
unfolding read_entry
nothing_at i h = rw (place_other i h, place_not_first i h) refl

disk-SignAt : (i : ℕ) → i < 63 → Guess.SignAt disk none 0 one_signed i
unfolding read_entry has_signature struct_of entry_bytes
disk-SignAt zero h = record { bytes = entry_bytes entry; read = refl; sign = refl }
disk-SignAt (suc i) h = record {
  bytes = [];
  read = nothing_at (suc i) (omega arith);
  sign = ground arith;
}

one_signed-IsSpaced : Guess.IsSpaced disk none 0 one_signed 1
one_signed-IsSpaced = Guess.one_by_one 1 (omega arith) (λ i h. ground arith) (λ i h. ground arith)

entry-IsEntry : IsEntry entry
entry-IsEntry = record {
  start_small = omega arith;
  blocks_small = omega arith;
  name_text = more_text 0x64 (0x69 ∷ []) refl (more_text 0x69 [] refl no_text);
  kind_text = more_text 0x41 [] refl no_text;
  name_fits = omega arith;
  kind_fits = omega arith;
}

entry_valid : (i : ℕ) (e : Entry) → get_elem? (entry ∷ []) i ≡ some e → IsEntry e
entry_valid zero e h = let same : entry ≡ e = cc in subst IsEntry same entry-IsEntry
entry_valid (suc i) e h = absurd cc

entry_held :
    (i : ℕ) (e : Entry)
    → get_elem? (entry ∷ []) i ≡ some e
    → read_entry disk none 0 512 i ≡ ok (entry_bytes e)
unfolding read_entry
entry_held zero e h = let same : entry ≡ e = cc in ap (λ x. ok (entry_bytes x)) same
entry_held (suc i) e h = absurd cc

disk-HoldsEntries : HoldsEntries disk none 0 512 (entry ∷ [])
unfolding read_entry
disk-HoldsEntries = record {
  few = omega arith;
  valid = entry_valid;
  held = entry_held;
  free = λ i a b. behind_end [] (nothing_at i (omega arith)) refl;
}

guess_from-IsSpaced_example : guess_from disk none 0 63 0 0 ≡ ok (512 * 1)
guess_from-IsSpaced_example =
    Guess.guess_from-IsSpaced disk none 0 one_signed disk-SignAt 1 one_signed-IsSpaced

entries_from-partitions_for_example :
    entries_from disk none 0 512 63 0 ≡ ok (partitions_for 512 (entry ∷ []))
entries_from-partitions_for_example =
    entries_from-partitions_for disk none 0 512 (entry ∷ []) disk-HoldsEntries

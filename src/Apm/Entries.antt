-- ===== src/Apm/Entries.antt =====
-- An independent description of a partition map: its entries, laid out in their blocks.
use darling_dmg.Common.{
  ℕ, zero, suc, ◌+◌, ◌-◌, ◌*◌, ◌/◌, ◌%◌, ◌≤◌, ◌<◌, ◌≡◌, refl, ap, ◌∙◌, true, false, Bool-cases, inl,
  inr, arith, ◌==◌, Option, some, List, [], ◌∷◌, ◌++◌, length, get_elem?, drop, replicate, Bytes,
  ok, length-append, length-replicate,
}
use darling_dmg.Common.Word.{u32_mod, u64_mod}
use darling_dmg.Endian.{be16_at, be32_at}
use darling_dmg.Io.{Reader}
use darling_dmg.Gpt.{Partition, c_string}
use darling_dmg.Apm.{has_signature, dpme_signature, partition_of_dpme, read_entry, entries_from}

pub record Entry : Type 0 where
  pub start : ℕ
  pub blocks : ℕ
  pub name : Bytes
  pub kind : Bytes

-- A string in a field of 32 bytes.
pub padded : Bytes → Bytes
padded s = s ++ replicate (32 - length s) 0

unfoldable pub entry_bytes : Entry → Bytes
unfolding padded
entry_bytes e =
    0x50
    ∷ 0x4d
    ∷ 0
    ∷ 0
    ∷ 0
    ∷ 0
    ∷ 0
    ∷ 0
    ∷ e.start / 0x1000000 % 0x100
    ∷ e.start / 0x10000 % 0x100
    ∷ e.start / 0x100 % 0x100
    ∷ e.start % 0x100
    ∷ e.blocks / 0x1000000 % 0x100
    ∷ e.blocks / 0x10000 % 0x100
    ∷ e.blocks / 0x100 % 0x100
    ∷ e.blocks % 0x100
    ∷ (padded e.name ++ (padded e.kind ++ replicate 432 0))

pub partition_for : ℕ → Entry → Partition
partition_for block_size e = record {
  name = e.name;
  part_type = e.kind;
  offset = e.start * block_size % u64_mod;
  size = e.blocks * block_size % u64_mod;
}

unfoldable pub partitions_for : ℕ → List Entry → List Partition
unfolding partition_for
partitions_for block_size [] = []
partitions_for block_size (e ∷ es) = partition_for block_size e ∷ partitions_for block_size es

-- A string that fits into its field and has no zero in it.
pub data IsText : Bytes → Type 0 where
  no_text : IsText []
  more_text : (c : ℕ) (s : Bytes) → (c == 0) ≡ false → IsText s → IsText (c ∷ s)

pub record IsEntry (e : Entry) : Type 0 where
  pub start_small : e.start < u32_mod
  pub blocks_small : e.blocks < u32_mod
  pub name_text : IsText e.name
  pub kind_text : IsText e.kind
  pub name_fits : length e.name < 32
  pub kind_fits : length e.kind < 32

c_string-IsText :
    (s rest : Bytes) (n : ℕ) → IsText s → c_string (s ++ replicate (suc n) 0 ++ rest) ≡ s
unfolding c_string
c_string-IsText [] rest n t = refl
c_string-IsText (c ∷ s) rest n (more_text _ _ h t) = rw (h, c_string-IsText s rest n t) refl

c_string-padded : (s rest : Bytes) → IsText s → length s < 32 → c_string (padded s ++ rest) ≡ s
unfolding padded
c_string-padded s rest t fits =
    let e : 32 - length s ≡ suc (31 - length s) = omega arith in
    ap (λ n. c_string (s ++ replicate n 0 ++ rest)) e ∙ c_string-IsText s rest (31 - length s) t

length-padded : (s : Bytes) → length s < 32 → length (padded s) ≡ 32
unfolding padded
length-padded s fits = omega (
  arith,
  length-append s (replicate (32 - length s) 0),
  length-replicate {A = ℕ} (32 - length s) 0,
)

drop-append : (n : ℕ) (a b : Bytes) → length a ≡ n → drop n (a ++ b) ≡ b
drop-append zero [] b e = refl
drop-append zero (x ∷ a) b e = absurd (omega arith)
drop-append (suc n) [] b e = absurd (omega arith)
drop-append (suc n) (x ∷ a) b e = drop-append n a b (omega arith)

be32_eq :
    (n : ℕ)
    → n < u32_mod
    → ((n / 0x1000000 % 0x100) * 0x100 + n / 0x10000 % 0x100) * 0x10000
        + ((n / 0x100 % 0x100) * 0x100 + n % 0x100)
      ≡ n
be32_eq n h = omega arith

partition_eq :
    (p q : Partition)
    → p.name ≡ q.name
    → p.part_type ≡ q.part_type
    → p.offset ≡ q.offset
    → p.size ≡ q.size
    → p ≡ q
partition_eq p q a b c d = cc

partition_of_dpme-entry :
    (block_size : ℕ) (e : Entry)
    → IsEntry e
    → partition_of_dpme block_size (entry_bytes e) ≡ partition_for block_size e
unfolding partition_of_dpme partition_for entry_bytes be32_at
partition_of_dpme-entry block_size e v =
    let start_small = v.start_small in
    let blocks_small = v.blocks_small in
    let skip =
      drop-append 32 (padded e.name) (padded e.kind ++ replicate 432 0)
        (length-padded e.name v.name_fits) in
    partition_eq (partition_of_dpme block_size (entry_bytes e)) (partition_for block_size e)
      (c_string-padded e.name (padded e.kind ++ replicate 432 0) v.name_text v.name_fits)
      (ap c_string skip ∙ c_string-padded e.kind (replicate 432 0) v.kind_text v.kind_fits)
      (ap (λ (n : ℕ). n * block_size % u64_mod) (be32_eq e.start start_small))
      (ap (λ (n : ℕ). n * block_size % u64_mod) (be32_eq e.blocks blocks_small))

signed_entry : (e : Entry) → has_signature dpme_signature (entry_bytes e) ≡ true
unfolding has_signature be16_at entry_bytes
signed_entry e = refl

length-entry_bytes : (e : Entry) → IsEntry e → length (entry_bytes e) ≡ 512
unfolding entry_bytes
length-entry_bytes e v =
    let name = length-padded e.name v.name_fits in
    let kind = length-padded e.kind v.kind_fits in
    let a = length-append (padded e.name) (padded e.kind ++ replicate 432 0) in
    let b = length-append (padded e.kind) (replicate 432 0) in
    let c = length-replicate {A = ℕ} 432 0 in omega arith

module _ (disk : Reader) (map_reader : Option Reader) (undef block_size : ℕ)
    (entries : List Entry) where
  -- The place number `i` holds no entry: it lies behind the end, or the signature is missing.
  pub data IsFree (i : ℕ) : Type 0 where
    behind_end :
        (bytes : Bytes)
        → read_entry disk map_reader undef block_size i ≡ ok bytes
        → (length bytes == 512) ≡ false
        → IsFree i
    unsigned :
        (bytes : Bytes)
        → read_entry disk map_reader undef block_size i ≡ ok bytes
        → has_signature dpme_signature bytes ≡ false
        → IsFree i

  -- The first places of the map hold the entries.
  pub record HoldsEntries : Type 0 where
    pub few : length entries ≤ 63
    pub valid : (i : ℕ) (e : Entry) → get_elem? entries i ≡ some e → IsEntry e
    pub held :
        (i : ℕ) (e : Entry)
        → get_elem? entries i ≡ some e
        → read_entry disk map_reader undef block_size i ≡ ok (entry_bytes e)
    pub free : (i : ℕ) → length entries ≤ i → i < 63 → IsFree i

  free_case :
      (rounds i : ℕ)
      → entries_from disk map_reader undef block_size rounds (i + 1) ≡ ok []
      → IsFree i
      → entries_from disk map_reader undef block_size (suc rounds) i ≡ ok []
  unfolding entries_from
  free_case rounds i rest (behind_end bytes read short) = rw (read, short) refl
  free_case rounds i rest (unsigned bytes read none_signed) =
      elim (Bool-cases (length bytes == 512)) [
        | inl whole ↦ rw (read, whole, none_signed) rest
        | inr short ↦ rw (read, short) refl
      ]

  free-none :
      (rounds i : ℕ)
      → ((j : ℕ) → i ≤ j → j < 63 → IsFree j)
      → i + rounds ≤ 63
      → entries_from disk map_reader undef block_size rounds i ≡ ok []
  unfolding entries_from
  free-none zero i free h = refl
  free-none (suc rounds) i free h =
      let rest = free-none rounds (i + 1) (λ j a b. free j (omega arith) b) (omega arith) in
      free_case rounds i rest (free i (omega arith) (omega arith))

  held_eq :
      (rounds i : ℕ) (e : Entry) (es : List Partition)
      → IsEntry e
      → read_entry disk map_reader undef block_size i ≡ ok (entry_bytes e)
      → entries_from disk map_reader undef block_size rounds (i + 1) ≡ ok es
      → entries_from disk map_reader undef block_size (suc rounds) i
        ≡ ok (partition_for block_size e ∷ es)
  unfolding entries_from
  held_eq rounds i e es v read rest =
      rw
        (read, length-entry_bytes e v, signed_entry e, rest, partition_of_dpme-entry block_size e v)
        refl

  held_rest :
      (es : List Entry) (rounds i : ℕ)
      → HoldsEntries
      → i + length es ≡ length entries
      → ((j : ℕ) (e : Entry) → get_elem? es j ≡ some e → get_elem? entries (i + j) ≡ some e)
      → i + rounds ≡ 63
      → entries_from disk map_reader undef block_size rounds i ≡ ok (partitions_for block_size es)
  unfolding partitions_for
  held_rest [] rounds i h e same all =
      free-none rounds i (λ j a b. h.free j (omega arith) b) (omega arith)
  held_rest (x ∷ es) zero i h e same all = absurd (let few = h.few in omega arith)
  held_rest (x ∷ es) (suc rounds) i h e same all =
      let here : get_elem? entries i ≡ some x =
        ap (get_elem? entries) (let z : i ≡ i + 0 = omega arith in z) ∙ same 0 x refl in
      held_eq rounds i x (partitions_for block_size es) (h.valid i x here) (h.held i x here) (
        held_rest es rounds (i + 1) h (omega arith)
          (λ j y f.
            ap (get_elem? entries) (let z : i + 1 + j ≡ i + suc j = omega arith in z)
            ∙ same (suc j) y f)
          (omega arith))

  -- From a map that holds some entries at its first places, and none behind them, the loop collects these
  -- entries: their names and types, and their places and sizes in bytes.
  pub entries_from-partitions_for :
      HoldsEntries
      → entries_from disk map_reader undef block_size 63 0 ≡ ok (partitions_for block_size entries)
  entries_from-partitions_for h =
      held_rest entries 63 0 h (omega arith)
        (λ j e f. ap (get_elem? entries) (let z : 0 + j ≡ j = omega arith in z) ∙ f) (omega arith)

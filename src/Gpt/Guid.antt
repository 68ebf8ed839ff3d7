-- ===== src/Gpt/Guid.antt =====
-- The length of a printed GUID.
use darling_dmg.Common.{
  ℕ, zero, suc, ◌+◌, ◌-◌, ◌*◌, ◌/◌, ◌%◌, ◌≤◌, ◌<◌, ◌≡◌, ◌≢◌, refl, ap, arith, true, false,
  Bool-cases, inl, inr, ltb, ◌==◌, ◌∙◌, min, byte_at, [], ◌∷◌, ◌++◌, Bytes, length, length-append,
  length-replicate, replicate,
}
use darling_dmg.Gpt.{
  GptGuid, GptPartition, hex_digit, hex_from, hex, padded_hex, guid_bytes, make_guid, guid_empty,
  guid_hfsplus, equal, type_of_guid, dash, partition_of,
}

-- 16 ^ (k + 1).
limit : ℕ → ℕ
limit zero = 16
limit (suc k) = 16 * limit k

length-hex_from : (k fuel n : ℕ) → n < limit k → length (hex_from fuel n) ≤ k + 1
unfolding hex_from limit
length-hex_from k zero n h = omega arith
length-hex_from zero (suc fuel) n h = ground arith
length-hex_from (suc k) (suc fuel) n h = elim (Bool-cases (ltb n 16)) [
  | inl less ↦ rw less (omega arith)
  | inr more ↦
      let rest = length-hex_from k fuel (n / 16) (omega arith) in
      rw more
        (let l = length-append (hex_from fuel (n / 16)) (hex_digit (n % 16) ∷ []) in omega arith)
]

length-padded_hex :
    (width k n : ℕ) → n < limit k → k + 1 ≤ width → length (padded_hex width n) ≡ width
unfolding padded_hex hex
length-padded_hex width k n h w =
    let l = length-hex_from k 7 n h in
    length-append (replicate (width - length (hex_from 7 n)) 0x30) (hex_from 7 n)
    ∙ ap (λ k. k + length (hex_from 7 n)) (length-replicate (width - length (hex_from 7 n)) 0x30)
    ∙ omega arith

equal-length : (x y : Bytes) → equal x y ≡ true → length x ≡ length y
unfolding equal
equal-length [] [] h = refl
equal-length [] (b ∷ y) h = absurd (ground arith)
equal-length (a ∷ x) [] h = absurd (ground arith)
equal-length (a ∷ x) (b ∷ y) h =
    let e : equal x y ≡ true = ground arith in ap suc (equal-length x y e)

abbrev pub AreBytes : Bytes → Type 0
AreBytes bytes = (i : ℕ) → i < length bytes → byte_at bytes i < 0x100

length-guid_bytes :
    (i : ℕ) (bytes : Bytes)
    → AreBytes bytes
    → length (guid_bytes i bytes) ≤ 2 * length bytes + min 1 (2 - i)
unfolding guid_bytes limit
length-guid_bytes i [] h = omega arith
length-guid_bytes i (b ∷ bs) h =
    let first = length-padded_hex 2 1 b (h 0 (omega arith)) (omega arith) in
    let rest = length-guid_bytes (i + 1) bs (λ j p. h (suc j) (omega arith)) in
    elim (Bool-cases (i == 1)) [
      | inl yes' ↦
          let a = length-append (padded_hex 2 b) (dash ∷ guid_bytes (i + 1) bs) in
          let one : i ≡ 1 = ground arith in rw yes' (omega arith)
      | inr no' ↦
          let a = length-append (padded_hex 2 b) (guid_bytes (i + 1) bs) in
          let other : i ≢ 1 = ground arith in rw no' (omega arith)
    ]

-- What a GUID needs to have the width of its fields.
pub record IsGuid (g : GptGuid) : Type 0 where
  pub in_data1 : g.data1 < 0x100000000
  pub in_data2 : g.data2 < 0x10000
  pub in_data4 : AreBytes g.data4
  pub eight : length g.data4 ≡ 8

length-make_guid : (g : GptGuid) → IsGuid g → g.data3 < 0x1000 → length (make_guid g) < 36
unfolding make_guid hex limit
length-make_guid g v h =
    let in1 = v.in_data1 in
    let in2 = v.in_data2 in
    let eight = v.eight in
    let p1 = length-padded_hex 8 7 g.data1 (omega arith) (omega arith) in
    let p2 = length-padded_hex 4 3 g.data2 (omega arith) (omega arith) in
    let p3 = length-hex_from 2 7 g.data3 (omega arith) in
    let p4 = length-guid_bytes 0 g.data4 v.in_data4 in
    let field1 = padded_hex 8 g.data1 in
    let field2 : Bytes = dash ∷ padded_hex 4 g.data2 in
    let field3 : Bytes = dash ∷ hex_from 7 g.data3 in
    let field4 : Bytes = dash ∷ guid_bytes 0 g.data4 in
    let total : length (make_guid g)
        ≡ length (padded_hex 8 g.data1)
          + suc (length (padded_hex 4 g.data2))
          + suc (length (hex_from 7 g.data3))
          + suc (length (guid_bytes 0 g.data4)) =
      length-append (field1 ++ field2 ++ field3) field4
      ∙ ap (λ k. k + suc (length (guid_bytes 0 g.data4)))
          (length-append (field1 ++ field2) field3
            ∙ ap (λ k. k + suc (length (hex_from 7 g.data3))) (length-append field1 field2)) in
    omega arith

equal-false : (x y : Bytes) → length x < length y → equal x y ≡ false
equal-false x y h = elim (Bool-cases (equal x y)) [
  | inl same ↦ absurd (let e = equal-length x y same in omega arith)
  | inr other ↦ other
]

-- The third field of a GUID is printed without its leading zeros: a partition whose GUID has less than
-- 0x1000 there, as that of an unused entry has, gets the short string itself as its type, and not
-- `Apple_Free` or `Apple_HFS`.
pub partition_of-make_guid :
    (p : GptPartition)
    → IsGuid p.type_guid
    → p.type_guid.data3 < 0x1000
    → ((partition_of p).part_type ≡ make_guid p.type_guid)
      × (length (partition_of p).part_type < 36)
unfolding partition_of type_of_guid
partition_of-make_guid p v h =
    let short = length-make_guid p.type_guid v h in
    let free = equal-false (make_guid p.type_guid) guid_empty short in
    let hfs = equal-false (make_guid p.type_guid) guid_hfsplus short in
    (rw (free, hfs), rw (free, hfs) short)

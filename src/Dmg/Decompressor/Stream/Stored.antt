-- ===== src/Dmg/Decompressor/Stream/Stored.antt =====
-- A stored format of `n` bytes and an end mark, as a library that the decompressors can rely on. The state counts
-- the bytes that were put out, one with each call.
use darling_dmg.Common.{
  ℕ, ◌+◌, ◌≤◌, ◌<◌, ◌≡◌, refl, ap, ◌∙◌, Bool-cases, inl, inr, arith, ltb, ltb→lt, ltb→le,
  if◌then◌else◌, [], ◌∷◌, Bytes, byte_at, length,
}
use darling_dmg.Dmg.Decompressor.Stream.{running, stream_end, Advance}
use darling_dmg.Dmg.Decompressor.Stream.Library.{Goes, IsLibrary}

abbrev pub stored_advance : ℕ → ℕ → Bytes → ℕ → Advance ℕ
stored_advance n z input room =
    if ltb z n
    then record { state = z + 1; used = 1; out = byte_at input 0 ∷ []; status = running }
    else record { state = z; used = 1; out = []; status = stream_end }

module _ (n : ℕ) (content : ℕ → ℕ) where
  record At (z i k : ℕ) : Type 0 where
    used : z ≡ i
    given : z ≡ k
    few : z ≤ n

  stored_advance-Goes :
      (z i k room : ℕ) (input : Bytes)
      → At z i k
      → 0 < length input
      → ((j : ℕ) → j < length input → byte_at input j ≡ content (i + j))
      → 0 < room
      → Goes
          (stored_advance n)
          content
          (n + 1)
          content
          n
          At
          i
          k
          room
          input
          (stored_advance n z input room)
  stored_advance-Goes z i k room input at some_input same some_room =
      let used = at.used in
      let given = at.given in
      let few = at.few in
      elim (Bool-cases (ltb z n)) [
        | inl more ↦
            let near = ltb→lt z n more in
            rw more (record {
              used_le = omega arith;
              fits = omega arith;
              progress = omega arith;
              bytes = λ j h.
                  let e : j ≡ 0 = omega arith in
                  ap (byte_at (byte_at input 0 ∷ [])) e
                  ∙ same 0 (omega arith)
                  ∙ ap content (omega arith);
              within = omega arith;
              good = λ h. cc;
              goes_on = λ h. record { used = omega arith; given = omega arith; few = omega arith };
              ends = λ h. absurd cc;
            })
        | inr done ↦
            let far = ltb→le z n done in
            rw done (record {
              used_le = omega arith;
              fits = omega arith;
              progress = omega arith;
              bytes = λ j h. absurd (omega arith);
              within = omega arith;
              good = λ h. cc;
              goes_on = λ h. absurd cc;
              ends = λ h. omega arith;
            })
      ]

  pub stored-IsLibrary : IsLibrary (stored_advance n) content (n + 1) content n 0
  stored-IsLibrary = record {
    At = At;
    start = record { used = refl; given = refl; few = omega arith };
    left = λ z i k at. let used = at.used in let few = at.few in omega arith;
    goes = λ z i k input room at some_input fits same some_room.
        stored_advance-Goes z i k room input at some_input same some_room;
  }

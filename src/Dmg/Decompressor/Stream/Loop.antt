-- ===== src/Dmg/Decompressor/Stream/Loop.antt =====
-- The loop that calls the library until the room is room_filled or the stream ends.
use mathlib.Core.Path.{subst}
use darling_dmg.Common.{
  ℕ, zero, suc, ◌+◌, ◌-◌, ◌≤◌, ◌<◌, ◌≡◌, refl, sym, ap, ◌∙◌, true, false, arith, ltb, ltb→lt,
  ltb→le, ◌==◌, Bool-cases, inl, inr, ◌++◌, Bytes, byte_at, length, Result, ok, byte_at-append_left,
  byte_at-append_right, length-append, ==_iff, byte_at-drop, length-drop,
}
use darling_dmg.Common.Word.{u32_mod}
use darling_dmg.Io.{Reader}
use darling_dmg.Io.Serves.{Serves}
use darling_dmg.Dmg.Decompressor.{read_some, processed, buffer_size}
use darling_dmg.Dmg.Decompressor.Stream.{
  Status, running, stream_end, failed, Advance, Stream, Ended, room_filled, at_end, refill,
  advanced, stream_loop,
}
use darling_dmg.Dmg.Decompressor.Stream.Library.{Goes, IsLibrary}

module _ {ℓ} {Z : Type ℓ} (advance : Z → Bytes → ℕ → Advance Z) (packed : ℕ → ℕ) (plain : ℕ → ℕ)
    (plain_size : ℕ) (r : Reader) (z0 : Z)
    (lib : IsLibrary advance packed r.size plain plain_size z0) where
  -- The stream is at place `i` of the packed data and `k` of the plain data.
  pub record Stands (i k : ℕ) (s : Stream Z) : Type ℓ where
    pub at : lib.At s.state i k
    pub place : i + length s.input ≡ s.pos
    pub inside : s.pos ≤ r.size
    pub bytes : (j : ℕ) → j < length s.input → byte_at s.input j ≡ packed (i + j)

  pub data Exit (k count : ℕ) : Ended → Bytes → Stream Z → Type ℓ where
    is_filled :
        (out : Bytes) (s : Stream Z) (i : ℕ)
        → length out ≡ count
        → Stands i (k + count) s
        → Exit k count room_filled out s
    is_at_end :
        (out : Bytes) (s : Stream Z) → k + length out ≡ plain_size → Exit k count at_end out s

  -- `out` is the plain data from `k` on.
  pub record IsPlain (k count : ℕ) (out : Bytes) : Type 0 where
    pub order : length out ≤ count
    pub within : k + length out ≤ plain_size
    pub bytes : (j : ℕ) → j < length out → byte_at out j ≡ plain (k + j)

  pub record Ends (k count : ℕ) (result : Result (Ended × Bytes × Stream Z)) : Type ℓ where
    pub e : Ended
    pub out : Bytes
    pub s' : Stream Z
    pub returns : result ≡ ok (e, out, s')
    pub is_plain : IsPlain k count out
    pub exit : Exit k count e out s'

  record Refills (i k : ℕ) (result : Result (Stream Z)) : Type ℓ where
    s' : Stream Z
    returns : result ≡ ok s'
    stands : Stands i k s'
    input_left : 0 < length s'.input

  module _ (serves : Serves r packed) (small : r.size < u32_mod) where
    eq_false : (n : ℕ) → 0 < n → (n == 0) ≡ false
    eq_false n h = ground arith

    pos_of : (n : ℕ) → (n == 0) ≡ false → 0 < n
    pos_of n h = ground arith

    data StatusCase (a : Status) : Type 0 where
      is_running : a ≡ running → StatusCase a
      is_end : a ≡ stream_end → StatusCase a
      is_failed : a ≡ failed → StatusCase a

    Status-cases : (a : Status) → StatusCase a
    Status-cases running = is_running refl
    Status-cases stream_end = is_end refl
    Status-cases failed = is_failed refl

    refill-Refills : (s : Stream Z) (i k : ℕ) → Stands i k s → Refills i k (refill advance r s)
    unfolding refill read_some
    refill-Refills s i k st =
        let near = lib.left s.state i k st.at in
        let place = st.place in
        let inside = st.inside in
        elim (Bool-cases (length s.input == 0)) [
          | inl none_left ↦
              let nothing = (==_iff (length s.input) 0).0 none_left in
              let got = serves.reads buffer_size s.pos (omega arith) inside in
              let len = got.count in
              rw (none_left, got.returns, eq_false (length got.out) (omega arith))
                (record {
                  s' = record s { input = got.out; pos = processed s.pos (length got.out) };
                  returns = refl;
                  stands = record {
                    at = st.at;
                    place = omega arith;
                    inside = omega arith;
                    bytes = λ j h. got.bytes j (omega arith) ∙ ap packed (omega arith);
                  };
                  input_left = omega arith;
                })
          | inr some_left ↦ rw some_left (record {
            s' = s;
            returns = refl;
            stands = st;
            input_left = pos_of (length s.input) some_left;
          })
        ]

    stream_loop-more :
        (fuel count : ℕ) (out : Bytes) (s s' : Stream Z)
        → refill advance r s ≡ ok s'
        → (advance s'.state s'.input (count - length out)).status ≡ running
        → ltb (length (out ++ (advance s'.state s'.input (count - length out)).out)) count ≡ true
        → stream_loop advance r (suc fuel) count out s
          ≡ stream_loop advance r fuel count
              (out ++ (advance s'.state s'.input (count - length out)).out)
              (advanced advance r s' (advance s'.state s'.input (count - length out)))
    unfolding stream_loop
    stream_loop-more fuel count out s s' e st more = rw (e, st, more)

    stream_loop-room_filled :
        (fuel count : ℕ) (out : Bytes) (s s' : Stream Z)
        → refill advance r s ≡ ok s'
        → (advance s'.state s'.input (count - length out)).status ≡ running
        → ltb (length (out ++ (advance s'.state s'.input (count - length out)).out)) count ≡ false
        → stream_loop advance r (suc fuel) count out s
          ≡ ok (
            room_filled,
            out ++ (advance s'.state s'.input (count - length out)).out,
            advanced advance r s' (advance s'.state s'.input (count - length out)),
          )
    unfolding stream_loop
    stream_loop-room_filled fuel count out s s' e st more = rw (e, st, more)

    stream_loop-at_end :
        (fuel count : ℕ) (out : Bytes) (s s' : Stream Z)
        → refill advance r s ≡ ok s'
        → (advance s'.state s'.input (count - length out)).status ≡ stream_end
        → stream_loop advance r (suc fuel) count out s
          ≡ ok (
            at_end,
            out ++ (advance s'.state s'.input (count - length out)).out,
            advanced advance r s' (advance s'.state s'.input (count - length out)),
          )
    unfolding stream_loop
    stream_loop-at_end fuel count out s s' e st = rw (e, st)

    appended-IsPlain :
        (k count : ℕ) (out more : Bytes)
        → IsPlain k count out
        → length more ≤ count - length out
        → k + length out + length more ≤ plain_size
        → ((j : ℕ) → j < length more → byte_at more j ≡ plain (k + length out + j))
        → IsPlain k count (out ++ more)
    appended-IsPlain k count out more w fits inside same =
        let order = w.order in
        let total = length-append out more in
        record {
          order = omega arith;
          within = omega arith;
          bytes = λ j h. elim (Bool-cases (ltb j (length out))) [
            | inl less ↦
                byte_at-append_left out more j (ltb→lt j (length out) less)
                ∙ w.bytes j (ltb→lt j (length out) less)
            | inr later ↦
                let q = ltb→le j (length out) later in
                let here : length out + (j - length out) ≡ j = omega arith in
                ap (byte_at (out ++ more)) (sym here)
                ∙ byte_at-append_right out more (j - length out)
                ∙ same (j - length out) (omega arith)
                ∙ ap plain (omega arith)
          ];
        }

    advanced-Stands :
        (i k k' room : ℕ) (s : Stream Z)
        → Stands i k s
        → Goes advance packed r.size plain plain_size lib.At i k room s.input
            (advance s.state s.input room)
        → (advance s.state s.input room).status ≡ running
        → k + length (advance s.state s.input room).out ≡ k'
        → Stands
            (i + (advance s.state s.input room).used)
            k'
            (advanced advance r s (advance s.state s.input room))
    advanced-Stands i k k' room s st g e same =
        let place = st.place in
        let used_le = g.used_le in
        let left = length-drop (advance s.state s.input room).used s.input in
        record {
          at =
              subst
                (lib.At (advance s.state s.input room).state
                  (i + (advance s.state s.input room).used))
                same (g.goes_on e);
          place = omega arith;
          inside = st.inside;
          bytes = λ j h.
              byte_at-drop (advance s.state s.input room).used j s.input
              ∙ st.bytes ((advance s.state s.input room).used + j) (omega arith)
              ∙ ap packed (omega arith);
        }

    -- With a round for each byte that is left on either side, the loop ends with the plain data that comes
    -- next, at the end of the room or of the stream.
    pub stream_loop-Ends :
        (fuel k count : ℕ) (out : Bytes) (s : Stream Z) (i : ℕ)
        → length out < count
        → Stands i (k + length out) s
        → IsPlain k count out
        → r.size - i + (count - length out) ≤ fuel
        → Ends k count (stream_loop advance r fuel count out s)
    stream_loop-Ends zero k count out s i room st w enough = absurd (omega arith)
    stream_loop-Ends (suc fuel) k count out s i room st w enough =
        let f = refill-Refills s i (k + length out) st in
        let st' = f.stands in
        let place = st'.place in
        let inside = st'.inside in
        let g =
          lib.goes f.s'.state i (k + length out) f.s'.input (count - length out) st'.at f.input_left
            (omega arith) st'.bytes (omega arith) in
        let w' =
          appended-IsPlain k count out (advance f.s'.state f.s'.input (count - length out)).out w
            g.fits g.within g.bytes in
        let total = length-append out (advance f.s'.state f.s'.input (count - length out)).out in
        let order = w'.order in
        let used_le = g.used_le in
        let progress = g.progress in
        elim (Status-cases (advance f.s'.state f.s'.input (count - length out)).status) [
          | is_failed bad ↦ absurd (g.good bad)
          | is_end e ↦
              subst (Ends k count) (sym (stream_loop-at_end fuel count out s f.s' f.returns e))
                (record {
                  e = at_end;
                  out = out ++ (advance f.s'.state f.s'.input (count - length out)).out;
                  s' = advanced advance r f.s' (advance f.s'.state f.s'.input (count - length out));
                  returns = refl;
                  is_plain = w';
                  exit = is_at_end _ _ (let e' = g.ends e in omega arith);
                })
          | is_running e ↦
              elim (Bool-cases (
                ltb (length (out ++ (advance f.s'.state f.s'.input (count - length out)).out))
                  count)) [
                    | inl more ↦
                        subst (Ends k count)
                          (sym (stream_loop-more fuel count out s f.s' f.returns e more))
                          (stream_loop-Ends fuel k count
                            (out ++ (advance f.s'.state f.s'.input (count - length out)).out)
                            (advanced advance r f.s'
                              (advance f.s'.state f.s'.input (count - length out)))
                            (i + (advance f.s'.state f.s'.input (count - length out)).used)
                            (ltb→lt
                              (length
                                (out ++ (advance f.s'.state f.s'.input (count - length out)).out))
                              count more)
                            (advanced-Stands i (k + length out)
                              (k
                                + length (
                                    out
                                    ++ (advance f.s'.state f.s'.input (count - length out)).out))
                              (count - length out) f.s' st' g e (omega arith))
                            w' (omega arith))
                    | inr done ↦
                        let full =
                          ltb→le
                            (length
                              (out ++ (advance f.s'.state f.s'.input (count - length out)).out))
                            count done in
                        subst (Ends k count)
                          (sym (stream_loop-room_filled fuel count out s f.s' f.returns e done))
                          (record {
                            e = room_filled;
                            out = out ++ (advance f.s'.state f.s'.input (count - length out)).out;
                            s' =
                                advanced advance r f.s'
                                  (advance f.s'.state f.s'.input (count - length out));
                            returns = refl;
                            is_plain = w';
                            exit =
                                is_filled _ _
                                  (i + (advance f.s'.state f.s'.input (count - length out)).used)
                                  (omega arith)
                                  (advanced-Stands i (k + length out) (k + count)
                                    (count - length out) f.s' st' g e (omega arith));
                          })
                  ]
        ]

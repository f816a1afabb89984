-- ===== src/Receiver/Release.antt =====
-- The loop of `release_contiguous` (protofish4-proto/src/xfer/receiver.rs).
use protofish4_rs.Base.{
  ℕ, zero, suc, ◌+◌, ◌-◌, ◌≤◌, ◌<◌, ◌≡◌, refl, sym, ap, lt→ltb, inl, inr, ◌∙◌, subst, subst₂, List,
  [], ◌∷◌, some, arith, length, count_up,
}
use protofish4_rs.Types.{XferSeq, Instant, u32_mod}
use protofish4_rs.Collections.Sets.{Above, Below}
use protofish4_rs.Collections.Maps
use protofish4_rs.Collections.Maps.{keys}
use protofish4_rs.Gap.{advance}
use protofish4_rs.Gap.Arrivals.{advance-Advanced, advance_step, advance_nil}
use protofish4_rs.Receiver.{
  Frame, reliable, XferReceiver, Step, release_loop, release_contiguous, note_progress,
}
use protofish4_rs.Receiver.Events.{reliable_seqs, outcomes}

-- Every frame stands under its own sequence number.
abbrev pub Keyed : List (ℕ × Frame) → Type 0
Keyed [] = Unit
Keyed ((k, f) ∷ m) = (f.seq ≡ k) × Keyed m

abbrev pub payload_bytes : List (ℕ × Frame) → ℕ
payload_bytes [] = 0
payload_bytes ((k, f) ∷ m) = length f.payload + payload_bytes m

-- What releasing leaves alone.
pub record Same (r r' : XferReceiver) : Type 0 where
  pub cfg : r'.cfg ≡ r.cfg
  pub gaps : r'.gaps ≡ r.gaps
  pub rel_state : r'.rel_state ≡ r.rel_state
  pub final_seq : r'.final_seq ≡ r.final_seq
  pub end_acked : r'.end_acked ≡ r.end_acked
  pub closed : r'.closed ≡ r.closed

-- Everything up to `c` was released in order, and `a` is left.
pub record Released (c : ℕ) (a : List ℕ) (r : XferReceiver) (st : Step) : Type 0 where
  pub same : Same r st.0
  pub released : st.0.rel_released ≡ c
  pub left : keys st.0.reorder ≡ a
  pub keyed : Keyed st.0.reorder
  pub bytes : st.0.reorder_bytes ≡ payload_bytes st.0.reorder
  pub fewer : st.0.reorder_bytes ≤ r.reorder_bytes
  pub in_order : reliable_seqs st.1 ≡ count_up (suc r.rel_released) (c - r.rel_released)
  pub no_outcome : outcomes st.1 ≡ []

Released-none :
    (r : XferReceiver)
    → Keyed r.reorder
    → r.reorder_bytes ≡ payload_bytes r.reorder
    → Released r.rel_released (keys r.reorder) r (r, [])
Released-none r k b =
    let z : r.rel_released - r.rel_released ≡ 0 = omega arith in
    record {
      same = record {
        cfg = refl;
        gaps = refl;
        rel_state = refl;
        final_seq = refl;
        end_acked = refl;
        closed = refl;
      };
      released = refl;
      left = refl;
      keyed = k;
      bytes = b;
      fewer = omega arith;
      in_order = rw z;
      no_outcome = refl;
    }

-- The state after one round of the loop.
abbrev after_round : XferReceiver → Frame → XferReceiver
after_round r f = record r {
  reorder = Maps.remove (r.rel_released + 1) r.reorder;
  reorder_bytes = r.reorder_bytes - length f.payload;
  rel_released = r.rel_released + 1;
  nacks = Maps.remove (r.rel_released + 1) r.nacks;
}

first_seq :
    (rel c : ℕ) (s : XferSeq) (seqs : List XferSeq)
    → s ≡ suc rel
    → rel < c
    → seqs ≡ count_up (suc (rel + 1)) (c - (rel + 1))
    → s ∷ seqs ≡ count_up (suc rel) (c - rel)
first_seq rel c s seqs e h p =
    let one : rel + 1 ≡ suc rel = omega arith in
    let k : c - rel ≡ suc (c - suc rel) = omega arith in rw k (rw (e, p) (rw one refl))

Released-round :
    (r : XferReceiver) (f : Frame) (c : ℕ) (a : List ℕ) (st : Step)
    → f.seq ≡ suc r.rel_released
    → r.rel_released < c
    → Released c a (after_round r f) st
    → Released c a r (st.0, reliable f ∷ st.1)
Released-round r f c a st e h rel = record {
  same = ground (arith, rel.same);
  released = rel.released;
  left = rel.left;
  keyed = rel.keyed;
  bytes = rel.bytes;
  fewer = omega (arith, rel.fewer);
  in_order = first_seq r.rel_released c f.seq (reliable_seqs st.1) e h rel.in_order;
  no_outcome = rel.no_outcome;
}

-- One round of the loop finds the least key.
release_hit :
    (fuel c : ℕ) (r : XferReceiver) (f : Frame)
    → r.rel_released < c
    → Maps.get (r.rel_released + 1) r.reorder ≡ some f
    → release_loop (suc fuel) c r ≡ (
      (release_loop fuel c (after_round r f)).0,
      reliable f ∷ (release_loop fuel c (after_round r f)).1,
    )
unfolding release_loop
release_hit fuel c r f h e = rw (lt→ltb r.rel_released c h, release_loop) (rw (e, release_loop))

remove_head : (k x : ℕ) (f : Frame) (m : List (ℕ × Frame)) → x ≡ k → Maps.remove k ((x, f) ∷ m) ≡ m
unfolding Maps.remove
remove_head k x f m e = ground arith

-- The loop is over when everything up to `c` was released.
release_over :
    (fuel c : ℕ) (a : List ℕ) (r : XferReceiver) (m : List (ℕ × Frame))
    → r.reorder ≡ m
    → Keyed m
    → r.reorder_bytes ≡ payload_bytes m
    → fuel ≡ c - r.rel_released
    → ◌≡◌ {A = ℕ × List ℕ} (r.rel_released, keys m) (c, a)
    → Released c a r (release_loop fuel c r)
release_over fuel c a r m e k b f p =
    let to : r.rel_released ≡ c = ap (λ (x : ℕ × List ℕ). x.0) p in
    let left : keys r.reorder ≡ a = ap keys e ∙ ap (λ (x : ℕ × List ℕ). x.1) p in
    let stop : fuel ≡ 0 = omega arith in
    rw stop (
      subst₂ (λ c' a'. Released c' a' r (release_loop 0 c r)) to left
        (unfold release_loop in
          Released-none r (subst Keyed (sym e) k) (b ∙ ap payload_bytes (sym e))))

pub length-keys : (m : List (ℕ × Frame)) → length (keys m) ≡ length m
length-keys [] = refl
length-keys ((k, f) ∷ m) = ap suc (length-keys m)

-- The tracker's loop does not go back.
advance_grows :
    (n hi c x : ℕ) (a : List ℕ) (m : List (ℕ × Frame))
    → length m ≤ n
    → Above x (keys m)
    → x ≤ hi
    → Below hi (keys m)
    → hi < u32_mod
    → advance n x (keys m) ≡ (c, a)
    → x ≤ c
advance_grows n hi c x a m len above le below fits e =
    let grows =
      advance-Advanced n x hi (keys m) (omega (arith, length-keys m)) above le below fits in
    subst (λ (p : ℕ × List ℕ). x ≤ p.0) e grows.0

release-Released :
    (n fuel hi c : ℕ) (a : List ℕ) (m : List (ℕ × Frame)) (r : XferReceiver)
    → r.reorder ≡ m
    → length m ≤ n
    → Keyed m
    → r.reorder_bytes ≡ payload_bytes m
    → Above r.rel_released (keys m)
    → Below hi (keys m)
    → r.rel_released ≤ hi
    → hi < u32_mod
    → advance n r.rel_released (keys m) ≡ (c, a)
    → fuel ≡ c - r.rel_released
    → Released c a r (release_loop fuel c r)
release-Released n fuel hi c a [] r e len k b above below le fits adv f =
    release_over fuel c a r [] e k b f (sym (advance_nil n r.rel_released) ∙ adv)
release-Released zero fuel hi c a ((x, g) ∷ m) r e len k b above below le fits adv f =
    absurd (omega arith)
release-Released (suc n) zero hi c a ((x, g) ∷ m) r e len k b above below le fits adv f =
    elim (advance_step n r.rel_released x (keys m) above.0 above.1 (omega arith)) [
      | inl (next, p) ↦ absurd (
          omega (
            arith,
            advance_grows n hi c x a m (omega arith) above.1 below.0 below.1 fits (sym p ∙ adv),
          ))
      | inr (later, p) ↦ release_over zero c a r ((x, g) ∷ m) e k b f (sym p ∙ adv)
    ]
release-Released (suc n) (suc fuel) hi c a ((x, g) ∷ m) r e len k b above below le fits adv f =
    elim (advance_step n r.rel_released x (keys m) above.0 above.1 (omega arith)) [
      | inl (next, p) ↦
          let one : r.rel_released + 1 ≡ x = omega arith in
          let found : Maps.get (r.rel_released + 1) r.reorder ≡ some g =
            rw (e, one) (ground arith) in
          let rest : Maps.remove (r.rel_released + 1) r.reorder ≡ m =
            rw e (remove_head (r.rel_released + 1) x g m (sym one)) in
          let run : advance n (r.rel_released + 1) (keys m) ≡ (c, a) = rw one (sym p ∙ adv) in
          let in_range : Above (r.rel_released + 1) (keys m) = rw one above.1 in
          let ih : Released c a (after_round r g) (release_loop fuel c (after_round r g)) =
            release-Released n fuel hi c a m (after_round r g) rest (omega arith) k.1 (omega arith)
              in_range below.1 (omega arith) fits run (omega arith) in
          rw (release_hit fuel c r g (omega arith) found) (
            Released-round r g c a (release_loop fuel c (after_round r g)) (k.0 ∙ next)
              (omega arith) ih)
      | inr (later, p) ↦ release_over (suc fuel) c a r ((x, g) ∷ m) e k b f (sym p ∙ adv)
    ]

note_progress-Released :
    (now : Instant) (c : ℕ) (a : List ℕ) (r : XferReceiver) (st : Step)
    → Released c a r st
    → Released c a r (note_progress now st)
note_progress-Released now c a r (r', []) rel = rel
note_progress-Released now c a r (r', ev ∷ out) rel = record {
  same = ground (arith, rel.same);
  released = rel.released;
  left = rel.left;
  keyed = rel.keyed;
  bytes = rel.bytes;
  fewer = omega (arith, rel.fewer);
  in_order = rel.in_order;
  no_outcome = rel.no_outcome;
}

-- After a frame was recorded in the tracker and put into the buffer.
pub release_contiguous-Released :
    (n hi : ℕ) (a : List ℕ) (r : XferReceiver) (now : Instant)
    → length r.reorder ≤ n
    → Keyed r.reorder
    → r.reorder_bytes ≡ payload_bytes r.reorder
    → Above r.rel_released (keys r.reorder)
    → Below hi (keys r.reorder)
    → r.rel_released ≤ hi
    → hi < u32_mod
    → advance n r.rel_released (keys r.reorder) ≡ (r.gaps.contiguous, a)
    → Released r.gaps.contiguous a r (release_contiguous r now)
unfolding release_contiguous
release_contiguous-Released n hi a r now len k b above below le fits adv =
    note_progress-Released now r.gaps.contiguous a r _ (
      release-Released n (r.gaps.contiguous - r.rel_released) hi r.gaps.contiguous a r.reorder r
        refl len k b above below le fits adv refl)

-- Nothing is left to release of a stream that is up to date.
pub release_contiguous_idle :
    (r : XferReceiver) (now : Instant)
    → r.rel_released ≡ r.gaps.contiguous
    → release_contiguous r now ≡ (r, [])
unfolding release_contiguous
release_contiguous_idle r now e =
    let z : r.gaps.contiguous - r.rel_released ≡ 0 = omega arith in
    rw z (unfold release_loop in refl)

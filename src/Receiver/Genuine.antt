-- ===== src/Receiver/Genuine.antt =====
-- What the methods of protofish4-proto/src/xfer/receiver.rs that hand frames on keep and deliver.
use protofish4_rs.Base.{
  ℕ, zero, suc, ◌+◌, ◌-◌, ◌≡◌, inl, inr, List, [], ◌∷◌, ◌++◌, Option, none, some, arith, Bool-cases,
  Option-cases, ltb, length, ◌&&◌,
}
use protofish4_rs.Types.{XferSeq, Instant, RelOutcome, complete}
use protofish4_rs.Collections.Maps
use protofish4_rs.Gap
use protofish4_rs.Receiver
use protofish4_rs.Receiver.{
  Frame, XferReceiver, RecvEvent, unreliable, reliable, Step, ◌⨾◌, set_buffered_ms, finish_rel,
  release_loop, note_progress, release_contiguous, finish_complete, ack_end, close_if_acked,
  check_finish_at, check_finish, maybe_ack, play_if, buffer_frame, on_data, on_keepalive, on_body,
  handle, nack_loop, nack_if_any, emit_nacks, watch_rel, tick, closed_event,
}

-- The frames that a list of events delivers, on either stream.
abbrev pub delivered : List RecvEvent → List Frame
delivered [] = []
delivered (unreliable f ∷ evs) = f ∷ delivered evs
delivered (reliable f ∷ evs) = f ∷ delivered evs
delivered (_ ∷ evs) = delivered evs

module _ (P : Frame → Type 0) where
  abbrev pub AllFrames : List Frame → Type 0
  AllFrames [] = Unit
  AllFrames (f ∷ fs) = P f × AllFrames fs

  abbrev pub AllHeld : List (ℕ × Frame) → Type 0
  AllHeld [] = Unit
  AllHeld ((k, f) ∷ m) = P f × AllHeld m

  delivered-append :
      (xs ys : List RecvEvent)
      → AllFrames (delivered xs)
      → AllFrames (delivered ys)
      → AllFrames (delivered (xs ++ ys))
  delivered-append [] ys p q = q
  delivered-append (unreliable f ∷ xs) ys p q = (p.0, delivered-append xs ys p.1 q)
  delivered-append (reliable f ∷ xs) ys p q = (p.0, delivered-append xs ys p.1 q)
  delivered-append (_ ∷ xs) ys p q = delivered-append xs ys p q

  held-get : (k : ℕ) (f : Frame) (m : List (ℕ × Frame)) → AllHeld m → Maps.get k m ≡ some f → P f
  unfolding Maps.get
  held-get k f [] h e = absurd (ground arith)
  held-get k f ((j, g) ∷ m) h e = ground (arith, held-get k f m)

  held-remove : (k : ℕ) (m : List (ℕ × Frame)) → AllHeld m → AllHeld (Maps.remove k m)
  unfolding Maps.remove
  held-remove k [] h = tt
  held-remove k ((j, g) ∷ m) h = ground (arith, held-remove k m)

  pub held-insert :
      (k : ℕ) (f : Frame) (m : List (ℕ × Frame)) → P f → AllHeld m → AllHeld (Maps.insert k f m)
  unfolding Maps.insert
  held-insert k f [] p h = (p, tt)
  held-insert k f ((j, g) ∷ m) p h = ground (arith, held-insert k f m)

  -- What a step keeps in its buffer and delivers.
  abbrev pub Genuine : Step → Type 0
  Genuine st = AllHeld st.0.reorder × AllFrames (delivered st.1)

  pub Genuine-⨾ :
      (st : Step) (f : XferReceiver → Step)
      → Genuine st
      → (AllHeld st.0.reorder → Genuine (f st.0))
      → Genuine (st ⨾ f)
  Genuine-⨾ st f p q = let r = q p.0 in (r.0, delivered-append st.1 (f st.0).1 p.1 r.1)

  pub finish_rel-Genuine :
      (r : XferReceiver) (o : RelOutcome) → AllHeld r.reorder → Genuine (finish_rel r o)
  unfolding finish_rel
  finish_rel-Genuine r o h = ground arith

  release_loop-Genuine :
      (fuel c : ℕ) (r : XferReceiver) → AllHeld r.reorder → Genuine (release_loop fuel c r)
  unfolding release_loop
  release_loop-Genuine zero c r h = (h, tt)
  release_loop-Genuine (suc fuel) c r h = elim (Bool-cases (ltb r.rel_released c)) [
    | inr e ↦ rw (e, release_loop) (h, tt)
    | inl e ↦ elim (Option-cases (Maps.get (r.rel_released + 1) r.reorder)) [
      | inl p ↦ rw (e, release_loop) (rw (p, release_loop) (h, tt))
      | inr (f, p) ↦
          let rest =
            release_loop-Genuine fuel c
              (record r {
                reorder = Maps.remove (r.rel_released + 1) r.reorder;
                reorder_bytes = r.reorder_bytes - length f.payload;
                rel_released = r.rel_released + 1;
                nacks = Maps.remove (r.rel_released + 1) r.nacks;
              })
              (held-remove (r.rel_released + 1) r.reorder h) in
          rw (e, release_loop)
            (rw (p, release_loop) (rest.0, (held-get (r.rel_released + 1) f r.reorder h p, rest.1)))
    ]
  ]

  note_progress-Genuine : (now : Instant) (st : Step) → Genuine st → Genuine (note_progress now st)
  note_progress-Genuine now (r, []) h = h
  note_progress-Genuine now (r, ev ∷ out) h = h

  pub release_contiguous-Genuine :
      (r : XferReceiver) (now : Instant) → AllHeld r.reorder → Genuine (release_contiguous r now)
  unfolding release_contiguous
  release_contiguous-Genuine r now h =
      note_progress-Genuine now _
        (release_loop-Genuine (r.gaps.contiguous - r.rel_released) r.gaps.contiguous r h)

  finish_complete-Genuine :
      (r : XferReceiver) (f : XferSeq) (now : Instant)
      → AllHeld r.reorder
      → Genuine (finish_complete r f now)
  unfolding finish_complete
  finish_complete-Genuine r f now h =
      let all : Genuine (release_contiguous r now ⨾ (λ r'. finish_rel r' (complete f))) =
        Genuine-⨾ (release_contiguous r now) (λ r'. finish_rel r' (complete f))
          (release_contiguous-Genuine r now h)
          (finish_rel-Genuine (release_contiguous r now).0 (complete f)) in
      elim (Bool-cases (Receiver.is_streaming r.rel_state && Gap.is_complete r.gaps f)) [
        | inl e ↦ rw e all
        | inr e ↦ rw e (h, tt)
      ]

  ack_end-Genuine : (r : XferReceiver) (f : XferSeq) → AllHeld r.reorder → Genuine (ack_end r f)
  unfolding ack_end
  ack_end-Genuine r f h = ground arith

  close_if_acked-Genuine : (r : XferReceiver) → AllHeld r.reorder → Genuine (close_if_acked r)
  unfolding close_if_acked
  close_if_acked-Genuine r h = ground arith

  check_finish_at-Genuine :
      (final : Option XferSeq) (r : XferReceiver) (now : Instant)
      → AllHeld r.reorder
      → Genuine (check_finish_at final r now)
  unfolding check_finish_at
  check_finish_at-Genuine none r now h = (h, tt)
  check_finish_at-Genuine (some f) r now h =
      Genuine-⨾ (finish_complete r f now ⨾ (λ r'. ack_end r' f)) close_if_acked
        (Genuine-⨾ (finish_complete r f now) (λ r'. ack_end r' f)
          (finish_complete-Genuine r f now h) (ack_end-Genuine (finish_complete r f now).0 f))
        (close_if_acked-Genuine (finish_complete r f now ⨾ (λ r'. ack_end r' f)).0)

  pub check_finish-Genuine :
      (r : XferReceiver) (now : Instant) → AllHeld r.reorder → Genuine (check_finish r now)
  unfolding check_finish
  check_finish-Genuine r now h = check_finish_at-Genuine r.final_seq r now h

  pub maybe_ack-Genuine :
      (r : XferReceiver) (now : Instant) → AllHeld r.reorder → Genuine (maybe_ack r now)
  unfolding maybe_ack
  maybe_ack-Genuine r now h = ground arith

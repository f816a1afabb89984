-- ===== src/Receiver/Ends.antt =====
-- What the methods of a receiver keep and report as the end (protofish4-proto/src/xfer/receiver.rs).
use protofish4_rs.Base.{
  ◌≤◌, ◌<◌, not, ℕ, zero, suc, ◌+◌, ◌-◌, inl, inr, List, [], ◌∷◌, ◌++◌, Option, none, some, arith,
  Bool-cases, Option-cases, ltb, length, ◌&&◌,
}
use protofish4_rs.Types.{XferSeq, Instant, RelOutcome, complete, aborted}
use protofish4_rs.Collections.Maps
use protofish4_rs.Gap
use protofish4_rs.Gap.Counted.{GapsOk}
use protofish4_rs.Receiver
use protofish4_rs.Receiver.{
  Frame, XferReceiver, RecvEvent, unreliable, reliable, rel_finished, send_end_ack, Step, ◌⨾◌,
  set_buffered_ms, finish_rel, release_loop, note_progress, release_contiguous, finish_complete,
  ack_end, close_if_acked, check_finish_at, check_finish, maybe_ack, play_if, buffer_frame, on_data,
  on_keepalive, on_body, handle, nack_loop, nack_if_any, emit_nacks, watch_rel, tick, closed_event,
}

-- `Q` holds of the ends that were announced, `P` of the frames that arrived.
module _ (Q P : XferSeq → Type 0) where
  -- An outcome says `complete f` only of such an `f`.
  abbrev pub OutcomeOk : RelOutcome → Type 0
  OutcomeOk (complete f) = Q f
  OutcomeOk (aborted reason) = Unit

  -- Every frame up to an announced end has arrived.
  abbrev pub AllCame : Type 0
  AllCame = (f : XferSeq) × Q f × ((t : XferSeq) → 0 < t → t ≤ f → P t)

  abbrev pub AllOk : List RecvEvent → Type 0
  AllOk [] = Unit
  AllOk (rel_finished o ∷ evs) = OutcomeOk o × AllOk evs
  AllOk (send_end_ack ∷ evs) = AllCame × AllOk evs
  AllOk (_ ∷ evs) = AllOk evs

  pub AllOk-append : (xs ys : List RecvEvent) → AllOk xs → AllOk ys → AllOk (xs ++ ys)
  AllOk-append [] ys p q = q
  AllOk-append (rel_finished o ∷ xs) ys p q = (p.0, AllOk-append xs ys p.1 q)
  AllOk-append (send_end_ack ∷ xs) ys p q = (p.0, AllOk-append xs ys p.1 q)
  AllOk-append (_ ∷ xs) ys p q = AllOk-append xs ys p q

-- `N` is what is known when no end is known.
module _ (N : Type 0) (Q P : XferSeq → Type 0) where
  abbrev pub FinalOk : Option XferSeq → Type 0
  FinalOk none = N
  FinalOk (some f) = Q f

  -- What a receiver keeps as the end, and counts; and what a step keeps, reports and acknowledges.
  abbrev pub Known : XferReceiver → Type 0
  Known r = FinalOk r.final_seq × GapsOk P r.gaps

  abbrev pub Sound : Step → Type 0
  Sound st = Known st.0 × AllOk Q P st.1

  pub Sound-⨾ :
      (st : Step) (f : XferReceiver → Step)
      → Sound st
      → (Known st.0 → Sound (f st.0))
      → Sound (st ⨾ f)
  Sound-⨾ st f p q = let r = q p.0 in (r.0, AllOk-append Q P st.1 (f st.0).1 p.1 r.1)

  pub finish_rel-Sound :
      (r : XferReceiver) (o : RelOutcome) → Known r → OutcomeOk Q P o → Sound (finish_rel r o)
  unfolding finish_rel
  finish_rel-Sound r o h k = elim (Bool-cases (Receiver.is_streaming r.rel_state)) [
    | inr e ↦ rw e (h, tt)
    | inl e ↦ rw e ((h.0, (h.1.0, λ t there. absurd (ground (arith, there)))), (k, tt))
  ]

  release_loop-Sound : (fuel c : ℕ) (r : XferReceiver) → Known r → Sound (release_loop fuel c r)
  unfolding release_loop
  release_loop-Sound zero c r h = (h, tt)
  release_loop-Sound (suc fuel) c r h = elim (Bool-cases (ltb r.rel_released c)) [
    | inr e ↦ rw (e, release_loop) (h, tt)
    | inl e ↦ elim (Option-cases (Maps.get (r.rel_released + 1) r.reorder)) [
      | inl p ↦ rw (e, release_loop) (rw (p, release_loop) (h, tt))
      | inr (f, p) ↦
          let rest =
            release_loop-Sound fuel c
              (record r {
                reorder = Maps.remove (r.rel_released + 1) r.reorder;
                reorder_bytes = r.reorder_bytes - length f.payload;
                rel_released = r.rel_released + 1;
                nacks = Maps.remove (r.rel_released + 1) r.nacks;
              })
              h in
          rw (e, release_loop) (rw (p, release_loop) rest)
    ]
  ]

  note_progress-Sound : (now : Instant) (st : Step) → Sound st → Sound (note_progress now st)
  note_progress-Sound now (r, []) h = h
  note_progress-Sound now (r, ev ∷ out) h = h

  pub release_contiguous-Sound :
      (r : XferReceiver) (now : Instant) → Known r → Sound (release_contiguous r now)
  unfolding release_contiguous
  release_contiguous-Sound r now h =
      note_progress-Sound now _
        (release_loop-Sound (r.gaps.contiguous - r.rel_released) r.gaps.contiguous r h)

  finish_complete-Sound :
      (r : XferReceiver) (f : XferSeq) (now : Instant)
      → Known r
      → Q f
      → Sound (finish_complete r f now)
  unfolding finish_complete
  finish_complete-Sound r f now h q =
      let all : Sound (release_contiguous r now ⨾ (λ r'. finish_rel r' (complete f))) =
        Sound-⨾ (release_contiguous r now) (λ r'. finish_rel r' (complete f))
          (release_contiguous-Sound r now h)
          (λ k. finish_rel-Sound (release_contiguous r now).0 (complete f) k q) in
      elim (Bool-cases (Receiver.is_streaming r.rel_state && Gap.is_complete r.gaps f)) [
        | inl e ↦ rw e all
        | inr e ↦ rw e (h, tt)
      ]

  ack_end-Sound : (r : XferReceiver) (f : XferSeq) → Q f → Known r → Sound (ack_end r f)
  unfolding ack_end
  ack_end-Sound r f q h = elim (Bool-cases (not r.end_acked && Gap.is_complete r.gaps f)) [
    | inr e ↦ rw e (h, tt)
    | inl e ↦
        let enough : f ≤ r.gaps.contiguous = ground (arith, e) in
        rw e (h, ((f, q, λ t low high. h.1.0 t low (omega (arith, high, enough))), tt))
  ]

  close_if_acked-Sound : (r : XferReceiver) → Known r → Sound (close_if_acked r)
  unfolding close_if_acked
  close_if_acked-Sound r h = ground (arith, h)

  check_finish_at-Sound :
      (final : Option XferSeq) (r : XferReceiver) (now : Instant)
      → FinalOk final
      → Known r
      → Sound (check_finish_at final r now)
  unfolding check_finish_at
  check_finish_at-Sound none r now q h = (h, tt)
  check_finish_at-Sound (some f) r now q h =
      Sound-⨾ (finish_complete r f now ⨾ (λ r'. ack_end r' f)) close_if_acked
        (Sound-⨾ (finish_complete r f now) (λ r'. ack_end r' f) (finish_complete-Sound r f now h q)
          (ack_end-Sound (finish_complete r f now).0 f q))
        (close_if_acked-Sound (finish_complete r f now ⨾ (λ r'. ack_end r' f)).0)

  pub check_finish-Sound : (r : XferReceiver) (now : Instant) → Known r → Sound (check_finish r now)
  unfolding check_finish
  check_finish-Sound r now h = check_finish_at-Sound r.final_seq r now h.0 h

  pub maybe_ack-Sound : (r : XferReceiver) (now : Instant) → Known r → Sound (maybe_ack r now)
  unfolding maybe_ack
  maybe_ack-Sound r now h = ground (arith, h)

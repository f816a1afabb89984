-- ===== src/Receiver/Following.antt =====
-- How each method of protofish4-proto/src/xfer/receiver.rs carries an open stream on: its tracker,
-- and that it still waits for a frame.
use protofish4_rs.Base.{
  ℕ, zero, suc, ◌+◌, ◌-◌, ◌≡◌, ◌⊎◌, inl, inr, refl, sym, ap, ◌∙◌, subst, [], ◌∷◌, Option, none,
  some, false, arith, Bool-cases, Option-cases, ltb, length,
}
use protofish4_rs.Types.{
  XferSeq, Instant, RelOutcome, aborted, peer_gone, complete, sender_discarded, buffer_exhausted,
  unrecoverable_gap, stalled,
}
use protofish4_rs.Codec.{max_nack_entries}
use protofish4_rs.Frame.{
  Body, body_data, body_end, body_end_ack, body_ack, body_nack, body_keepalive,
}
use protofish4_rs.Collections.Maps
use protofish4_rs.Gap
use protofish4_rs.Gap.{GapTracker}
use protofish4_rs.Gap.Arrivals.{record_seq_stale}
use protofish4_rs.Receiver.{
  Frame, XferReceiver, streaming, finished, Step, ◌⨾◌, finish_rel, release_loop, note_progress,
  release_contiguous, finish_complete, ack_end, close_if_acked, check_finish_at, check_finish,
  maybe_ack, buffer_frame, on_data, on_keepalive, on_body, handle, nack_loop, emit_nacks, watch_rel,
  tick,
}
use protofish4_rs.Receiver.Methods.{finish_rel-state}
use protofish4_rs.Receiver.Streams.{keepalive_cases, watch_cases, tick_cases}
use protofish4_rs.Receiver.Arrival.{buffer_cases, on_data_cases}
use protofish4_rs.Receiver.Runs.{Call, handle_call, tick_call, buffered_call, step}

-- The fields that decide whether the stream is complete.
abbrev Kept : XferReceiver → XferReceiver → Type 0
Kept r r' = (r'.gaps ≡ r.gaps) × (r'.rel_state ≡ r.rel_state) × (r'.final_seq ≡ r.final_seq)

-- An open stream still waits for a frame.
abbrev pub Awaits : XferReceiver → Type 0
Awaits r =
    r.rel_state ≡ streaming
    → (f : XferSeq) → r.final_seq ≡ some f
    → Gap.is_complete r.gaps f ≡ false

-- From `r` the stream ended, or it is open behind the tracker `g` and still waits.
abbrev pub Follows : GapTracker → XferReceiver → XferReceiver → Type 0
Follows g r r' =
    (r'.rel_state ≡ finished) ⊎ ((r'.rel_state ≡ r.rel_state) × (r'.gaps ≡ g) × Awaits r')

Awaits-Kept : (r r' : XferReceiver) → Kept r r' → Awaits r → Awaits r'
Awaits-Kept r r' (g, s, f) a e n p =
    ap (λ (t : GapTracker). Gap.is_complete t n) g ∙ a (sym s ∙ e) n (sym f ∙ p)

Follows-Kept : (g : GapTracker) (r q q' : XferReceiver) → Follows g r q → Kept q q' → Follows g r q'
Follows-Kept g r q q' (inl e) (kg, ks, kf) = inl (ks ∙ e)
Follows-Kept g r q q' (inr (s, e, a)) (kg, ks, kf) =
    inr (ks ∙ s, kg ∙ e, Awaits-Kept q q' (kg, ks, kf) a)

maybe_ack-Kept : (r : XferReceiver) (now : Instant) → Kept r (maybe_ack r now).0
unfolding maybe_ack
maybe_ack-Kept r now = ground arith

ack_end-Kept : (r : XferReceiver) (f : XferSeq) → Kept r (ack_end r f).0
unfolding ack_end
ack_end-Kept r f = ground arith

close_if_acked-Kept : (r : XferReceiver) → Kept r (close_if_acked r).0
unfolding close_if_acked
close_if_acked-Kept r = ground arith

release_loop-Kept : (fuel c : ℕ) (r : XferReceiver) → Kept r (release_loop fuel c r).0
unfolding release_loop
release_loop-Kept zero c r = (refl, refl, refl)
release_loop-Kept (suc fuel) c r = elim (Bool-cases (ltb r.rel_released c)) [
  | inr e ↦ rw (e, release_loop) (refl, refl, refl)
  | inl e ↦ elim (Option-cases (Maps.get (r.rel_released + 1) r.reorder)) [
    | inl p ↦ rw (e, release_loop) (rw (p, release_loop) (refl, refl, refl))
    | inr (f, p) ↦
        rw (e, release_loop)
          (rw (p, release_loop)
            (release_loop-Kept fuel c (record r {
              reorder = Maps.remove (r.rel_released + 1) r.reorder;
              reorder_bytes = r.reorder_bytes - length f.payload;
              rel_released = r.rel_released + 1;
              nacks = Maps.remove (r.rel_released + 1) r.nacks;
            })))
  ]
]

note_progress-Kept :
    (r : XferReceiver) (now : Instant) (st : Step) → Kept r st.0 → Kept r (note_progress now st).0
note_progress-Kept r now (q, []) k = k
note_progress-Kept r now (q, ev ∷ out) k = k

release_contiguous-Kept : (r : XferReceiver) (now : Instant) → Kept r (release_contiguous r now).0
unfolding release_contiguous
release_contiguous-Kept r now =
    note_progress-Kept r now _
      (release_loop-Kept (r.gaps.contiguous - r.rel_released) r.gaps.contiguous r)

-- A stream that is complete ends here.
finish_complete_cases :
    (r : XferReceiver) (f : XferSeq) (now : Instant)
    → ((finish_complete r f now).0.rel_state ≡ finished)
      ⊎ (((finish_complete r f now).0 ≡ r)
          × (r.rel_state ≡ streaming → Gap.is_complete r.gaps f ≡ false))
unfolding finish_complete
finish_complete_cases r f now =
    ground (arith, finish_rel-state (release_contiguous r now).0 (complete f))

check_finish_at-Follows :
    (final : Option XferSeq) (r : XferReceiver) (now : Instant)
    → r.final_seq ≡ final
    → Follows r.gaps r (check_finish_at final r now).0
unfolding check_finish_at
check_finish_at-Follows none r now e = inr (refl, refl, λ s f p. let clash = sym e ∙ p in cc)
check_finish_at-Follows (some f) r now e =
    let q : XferReceiver = (finish_complete r f now).0 in
    let first : Follows r.gaps r q = elim (finish_complete_cases r f now) [
      | inl s ↦ inl s
      | inr (same, open_still) ↦ inr (
        ap (λ (x : XferReceiver). x.rel_state) same,
        ap (λ (x : XferReceiver). x.gaps) same,
        subst Awaits (sym same)
            (λ s n p. let same_final = sym e ∙ p in ground (arith, open_still s)),
      )
    ] in
    let q' : XferReceiver = (ack_end q f).0 in
    Follows-Kept r.gaps r q' (close_if_acked q').0
      (Follows-Kept r.gaps r q q' first (ack_end-Kept q f)) (close_if_acked-Kept q')

check_finish-Follows : (r : XferReceiver) (now : Instant) → Follows r.gaps r (check_finish r now).0
unfolding check_finish
check_finish-Follows r now = check_finish_at-Follows r.final_seq r now refl

-- A stream that ended stays ended.
check_finish-finished :
    (r : XferReceiver) (now : Instant)
    → r.rel_state ≡ finished
    → (check_finish r now).0.rel_state ≡ finished
check_finish-finished r now e = elim (check_finish-Follows r now) [
  | inl s ↦ s
  | inr (s, k, a) ↦ s ∙ e
]

on_keepalive-Follows :
    (r : XferReceiver) (lost : XferSeq) (now : Instant)
    → Follows r.gaps r (on_keepalive r lost ⨾ (λ r'. check_finish r' now)).0
on_keepalive-Follows r lost now =
    let q : XferReceiver = record r { sender_lost_below = lost } in
    let o : RelOutcome = aborted sender_discarded in
    elim (keepalive_cases r lost) [
      | inl e ↦ rw e (check_finish-Follows r now)
      | inr (inl e) ↦ rw e (check_finish-Follows q now)
      | inr (inr (s, e)) ↦
          rw e (inl (check_finish-finished (finish_rel q o).0 now (finish_rel-state q o)))
    ]

-- A fresh frame of an open stream.
buffer_frame-Follows :
    (r : XferReceiver) (f : Frame) (now : Instant) → Follows r.gaps r (buffer_frame r f now).0
buffer_frame-Follows r f now =
    let w : XferReceiver = record r {
      reorder_bytes = r.reorder_bytes + length f.payload;
      reorder = Maps.insert f.seq f r.reorder;
    } in
    elim (buffer_cases r w f now refl) [
      | inl e ↦ rw e (inl (finish_rel-state r (aborted buffer_exhausted)))
      | inr (inl e) ↦ rw e (inl (finish_rel-state w (aborted buffer_exhausted)))
      | inr (inr (e, a, b)) ↦
          let q : XferReceiver = (release_contiguous w now).0 in
          let (kg, ks, kf) = release_contiguous-Kept w now in
          rw e (elim (check_finish-Follows q now) [
            | inl s ↦ inl s
            | inr (s, k, awaits) ↦ inr (s ∙ ks, k ∙ kg, awaits)
          ])
    ]

on_data-Follows :
    (r : XferReceiver) (f : Frame) (now : Instant)
    → Awaits r
    → Follows (Gap.record_seq r.gaps f.seq).0 r (on_data r f now).0
on_data-Follows r f now awaits =
    let q : XferReceiver = record r { gaps = (Gap.record_seq r.gaps f.seq).0 } in
    elim (on_data_cases r f now) [
      | inl (s, e) ↦ rw e (inl s)
      | inr (inl (stale, e)) ↦ rw e (
          inr
            (refl, refl, Awaits-Kept r q (record_seq_stale r.gaps f.seq stale, refl, refl) awaits))
      | inr (inr (s, t, e)) ↦ rw e (buffer_frame-Follows q f now)
    ]

-- What a call does to the tracker of an open stream.
abbrev after_body : GapTracker → XferSeq → Body → GapTracker
after_body g seq (body_data ts payload) = (Gap.record_seq g seq).0
after_body g seq _ = g

abbrev pub after_call : GapTracker → Call → GapTracker
after_call g (handle_call seq body) = after_body g seq body
after_call g _ = g

on_body-Follows :
    (r : XferReceiver) (seq : XferSeq) (body : Body) (now : Instant)
    → Awaits r
    → Follows (after_body r.gaps seq body) r (on_body r seq body now).0
unfolding on_body
on_body-Follows r seq (body_data ts payload) now a =
    on_data-Follows r (record { seq = seq; ts = ts; payload = payload }) now a
on_body-Follows r seq (body_end final) now a =
    check_finish-Follows (record r { final_seq = some final }) now
on_body-Follows r seq (body_keepalive lost) now a = on_keepalive-Follows r lost now
on_body-Follows r seq (body_ack c h b) now a = inr (refl, refl, a)
on_body-Follows r seq (body_nack m) now a = inr (refl, refl, a)
on_body-Follows r seq body_end_ack now a = inr (refl, refl, a)

watch_rel-Follows :
    (r : XferReceiver) (now : Instant) → Awaits r → Follows r.gaps r (watch_rel r now).0
unfolding emit_nacks
watch_rel-Follows r now a = elim (watch_cases r now) [
  | inl e ↦ rw e (inr (refl, refl, a))
  | inr (s, inl e) ↦ rw e (inl (finish_rel-state r (aborted stalled)))
  | inr (s, inr e) ↦
      let (nacks, ask, exhausted) =
        nack_loop r.cfg r.sender_lost_below now (Gap.missing r.gaps max_nack_entries) r.nacks [] in
      let q : XferReceiver = record r { nacks = nacks } in
      rw e (elim (Bool-cases exhausted) [
        | inl x ↦ rw x (inl (finish_rel-state q (aborted unrecoverable_gap)))
        | inr x ↦ rw x (inr (refl, refl, a))
      ])
]

tick-Follows : (r : XferReceiver) (now : Instant) → Awaits r → Follows r.gaps r (tick r now).0
tick-Follows r now a = elim (tick_cases r now) [
  | inl e ↦ rw e (inr (refl, refl, a))
  | inr (inl e) ↦ rw e (inl (finish_rel-state r (aborted peer_gone)))
  | inr (inr e) ↦
      let q : XferReceiver = (watch_rel r now).0 in
      rw e (
        Follows-Kept r.gaps r q (maybe_ack q now).0 (watch_rel-Follows r now a)
          (maybe_ack-Kept q now))
]

pub step-Follows :
    (r : XferReceiver) (call : Call) (now : Instant)
    → Awaits r
    → Follows (after_call r.gaps call) r (step r call now).0
unfolding step handle
step-Follows r (handle_call seq body) now a =
    let q : XferReceiver = record r { last_packet_at = now } in
    let g : GapTracker = after_body r.gaps seq body in
    let first : Follows g r (on_body q seq body now).0 = on_body-Follows q seq body now a in
    let b : XferReceiver = (on_body q seq body now).0 in
    Follows-Kept g r b (maybe_ack b now).0 first (maybe_ack-Kept b now)
step-Follows r tick_call now a = tick-Follows r now a
step-Follows r (buffered_call ms) now a = inr (refl, refl, a)

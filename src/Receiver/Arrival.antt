-- ===== src/Receiver/Arrival.antt =====
-- A `Data` packet, and the whole of `handle` (protofish4-proto/src/xfer/receiver.rs).
use protofish4_rs.Base.{
  ℕ, suc, ◌+◌, ◌-◌, ◌≤◌, ◌<◌, ◌≡◌, refl, sym, ap, ◌∙◌, subst, List, [], ◌∷◌, some, Bool, true,
  false, arith, ◌⊎◌, inl, inr, length, ◌&&◌,
}
use protofish4_rs.Types.{XferSeq, Instant, aborted, u32_mod, buffer_exhausted}
use protofish4_rs.Config.{wants_unrel}
use protofish4_rs.Frame.{
  Body, body_data, body_end, body_end_ack, body_ack, body_nack, body_keepalive,
}
use protofish4_rs.Collections.Sets.{
  contains, insert, Above-weaken, Below-weaken, insert-Above, insert-Below,
}
use protofish4_rs.Collections.Maps
use protofish4_rs.Collections.Maps.{keys, keys-insert}
use protofish4_rs.Receiver.Release.{
  Keyed, payload_bytes, Released, release_contiguous-Released, length-keys,
}
use protofish4_rs.Gap
use protofish4_rs.Gap.{GapTracker}
use protofish4_rs.Gap.Arrivals.{
  IsTracker, record_seq-IsTracker, record_seq-advance, record_seq_grows, record_seq_stale,
}
use protofish4_rs.Receiver.{
  Frame, XferReceiver, release_contiguous, RelState, streaming, finished, Step, ◌⨾◌, finish_rel,
  check_finish, maybe_ack, on_keepalive, play_if, buffer_frame, on_data, on_body, handle,
}
use protofish4_rs.Receiver.Events.{reliable_seqs, outcomes}
use protofish4_rs.Receiver.Invariant.{IsOpen, IsReceiver, Progress, Progress-⨾}
use protofish4_rs.Receiver.Methods.{
  Alike, Alike-IsReceiver, quiet-Alike, nothing, abort-Progress, quiet, check_finish-Progress,
  maybe_ack-Progress,
}
use protofish4_rs.Receiver.Streams.{on_keepalive-Progress}

Keyed-insert :
    (k : ℕ) (f : Frame) (m : List (ℕ × Frame)) → f.seq ≡ k → Keyed m → Keyed (Maps.insert k f m)
unfolding Maps.insert
Keyed-insert k f [] e h = (e, tt)
Keyed-insert k f ((j, g) ∷ m) e h = ground (arith, Keyed-insert k f m)

payload_bytes-insert :
    (k : ℕ) (f : Frame) (m : List (ℕ × Frame))
    → contains k (keys m) ≡ false
    → payload_bytes (Maps.insert k f m) ≡ length f.payload + payload_bytes m
unfolding Maps.insert
payload_bytes-insert k f [] h = refl
payload_bytes-insert k f ((j, g) ∷ m) h = ground (arith, payload_bytes-insert k f m)

-- The buffer with a fresh frame in it, behind a tracker that recorded it.
abbrev with_frame : XferReceiver → Frame → XferReceiver
with_frame r f = record r {
  gaps = (Gap.record_seq r.gaps f.seq).0;
  reorder_bytes = r.reorder_bytes + length f.payload;
  reorder = Maps.insert f.seq f r.reorder;
}

with_frame-Released :
    (r : XferReceiver) (f : Frame) (now : Instant)
    → IsReceiver r
    → IsOpen r
    → f.seq < u32_mod
    → (Gap.record_seq r.gaps f.seq).1 ≡ true
    → let g = (Gap.record_seq r.gaps f.seq).0 in
      Released g.contiguous g.ahead (with_frame r f) (release_contiguous (with_frame r f) now)
with_frame-Released r f now i o fits fresh =
    let (past, absent, adv, higher, top) = record_seq-advance r.gaps f.seq fresh in
    let g : GapTracker = (Gap.record_seq r.gaps f.seq).0 in
    let i' : IsTracker g = record_seq-IsTracker f.seq i.tracked fits in
    let ks : keys (Maps.insert f.seq f r.reorder) ≡ insert f.seq r.gaps.ahead =
      keys-insert f.seq f r.reorder ∙ ap (insert f.seq) o.indexed in
    release_contiguous-Released (length (insert f.seq r.gaps.ahead)) g.highest g.ahead
      (with_frame r f) now
      (omega (arith, length-keys (Maps.insert f.seq f r.reorder), ap {B = ℕ} length ks))
      (Keyed-insert f.seq f r.reorder refl o.keyed)
      (rw (payload_bytes-insert f.seq f r.reorder (rw (o.indexed) absent))
        (omega (arith, o.counted)))
      (rw (ks, o.released)
        (insert-Above r.gaps.contiguous f.seq r.gaps.ahead past (
          Above-weaken r.gaps.contiguous (suc r.gaps.contiguous) r.gaps.ahead (omega arith)
            i.tracked.above)))
      (rw ks (
        insert-Below g.highest f.seq r.gaps.ahead top
          (Below-weaken r.gaps.highest g.highest r.gaps.ahead higher i.tracked.below)))
      (omega (arith, o.released, i.tracked.prefix_le)) i'.fits (rw (ks, o.released) adv)

-- A release that stays within the budgets leaves an open stream in order.
Released-Progress :
    (r w : XferReceiver) (st : Step)
    → IsOpen r
    → IsTracker w.gaps
    → Released w.gaps.contiguous w.gaps.ahead w st
    → w.rel_state ≡ streaming
    → w.rel_released ≡ r.rel_released
    → r.rel_released ≤ w.gaps.contiguous
    → w.end_acked ≡ false
    → w.closed ≡ false
    → w.gaps.highest - w.gaps.contiguous ≤ w.cfg.reorder_window
    → w.reorder_bytes ≤ w.cfg.max_reorder_bytes
    → Progress streaming r.rel_released st
Released-Progress r w st o i rel s n le acked shut window budget =
    let state : st.0.rel_state ≡ streaming = rel.same.rel_state ∙ s in
    record {
      keeps = record {
        tracked = subst IsTracker (sym rel.same.gaps) i;
        when_open = λ e. record {
          released = rel.released ∙ ap (λ (g : GapTracker). g.contiguous) (sym rel.same.gaps);
          indexed = rel.left ∙ ap (λ (g : GapTracker). g.ahead) (sym rel.same.gaps);
          keyed = rel.keyed;
          counted = rel.bytes;
          budget = ground (arith, rel.same.cfg, rel.fewer);
          window = ground (arith, rel.same.cfg, rel.same.gaps);
          unacked = rel.same.end_acked ∙ acked;
          not_closed = rel.same.closed ∙ shut;
        };
        when_shut = λ e. let clash = sym state ∙ e in cc;
      };
      grows = omega (arith, rel.released);
      in_order = rw (rel.released, ← n) rel.in_order;
      ending = rw (state, rel.no_outcome) refl;
    }

pub buffer_cases :
    (r w : XferReceiver) (f : Frame) (now : Instant)
    → w ≡ record r {
      reorder_bytes = r.reorder_bytes + length f.payload;
      reorder = Maps.insert f.seq f r.reorder;
    }
    → (buffer_frame r f now ≡ finish_rel r (aborted buffer_exhausted))
      ⊎ ((buffer_frame r f now ≡ finish_rel w (aborted buffer_exhausted))
          ⊎ ((buffer_frame r f now ≡ (release_contiguous w now ⨾ (λ r'. check_finish r' now)))
              × (w.gaps.highest - w.gaps.contiguous ≤ w.cfg.reorder_window)
              × (w.reorder_bytes ≤ w.cfg.max_reorder_bytes)))
unfolding buffer_frame
buffer_cases r w f now e = ground arith

-- A fresh frame of an open stream.
buffer_frame-Progress :
    (r : XferReceiver) (f : Frame) (now : Instant)
    → IsReceiver r
    → r.rel_state ≡ streaming
    → f.seq < u32_mod
    → (Gap.record_seq r.gaps f.seq).1 ≡ true
    → Progress streaming r.rel_released
        (buffer_frame (record r { gaps = (Gap.record_seq r.gaps f.seq).0 }) f now)
buffer_frame-Progress r f now i s fits fresh =
    let o : IsOpen r = i.when_open s in
    let q : XferReceiver = record r { gaps = (Gap.record_seq r.gaps f.seq).0 } in
    let w : XferReceiver = with_frame r f in
    let i' : IsTracker q.gaps = record_seq-IsTracker f.seq i.tracked fits in
    elim (buffer_cases q w f now refl) [
      | inl e ↦ rw e (
          subst (λ t. Progress t r.rel_released (finish_rel q (aborted buffer_exhausted))) s
            (abort-Progress q buffer_exhausted i' s))
      | inr (inl e) ↦ rw e (
          subst (λ t. Progress t r.rel_released (finish_rel w (aborted buffer_exhausted))) s
            (abort-Progress w buffer_exhausted i' s))
      | inr (inr (e, window, budget)) ↦
          let rel = with_frame-Released r f now i o fits fresh in
          let le : r.rel_released ≤ w.gaps.contiguous =
            omega (arith, o.released, record_seq_grows r.gaps f.seq i.tracked fits) in
          let first =
            Released-Progress r w (release_contiguous w now) o i' rel s refl le o.unacked
              o.not_closed window budget in
          rw e (
            Progress-⨾ (release_contiguous w now) (λ r'. check_finish r' now) first
              (check_finish-Progress (release_contiguous w now).0 now first.keeps))
    ]

play_if-quiet :
    (b : Bool) (f : Frame) → (reliable_seqs (play_if b f) ≡ []) × (outcomes (play_if b f) ≡ [])
play_if-quiet true f = (refl, refl)
play_if-quiet false f = (refl, refl)

pub on_data_cases :
    (r : XferReceiver) (f : Frame) (now : Instant)
    → let g = (Gap.record_seq r.gaps f.seq).0 in
      let played = play_if ((Gap.record_seq r.gaps f.seq).1 && wants_unrel r.cfg.mode) f in
      ((r.rel_state ≡ finished) × (on_data r f now ≡ (record r { gaps = g }, played)))
      ⊎ (((Gap.record_seq r.gaps f.seq).1 ≡ false)
          × (on_data r f now ≡ (record r { gaps = g }, played)))
      ⊎ ((r.rel_state ≡ streaming)
          × ((Gap.record_seq r.gaps f.seq).1 ≡ true)
          × (on_data r f now ≡ ((record r { gaps = g }, played) ⨾ (λ r'. buffer_frame r' f now))))
unfolding on_data
on_data_cases r f now = ground arith

-- A step behind frames that are played at once.
after_play :
    (s : RelState) (n : ℕ) (q : XferReceiver) (b : Bool) (f : Frame) (act : XferReceiver → Step)
    → Progress s n (act q)
    → Progress s n ((q, play_if b f) ⨾ act)
after_play s n q true f act p = record {
  keeps = p.keeps;
  grows = p.grows;
  in_order = p.in_order;
  ending = p.ending;
}
after_play s n q false f act p = record {
  keeps = p.keeps;
  grows = p.grows;
  in_order = p.in_order;
  ending = p.ending;
}

pub on_data-Progress :
    (r : XferReceiver) (f : Frame) (now : Instant)
    → IsReceiver r
    → f.seq < u32_mod
    → Progress r.rel_state r.rel_released (on_data r f now)
on_data-Progress r f now i fits =
    let q : XferReceiver = record r { gaps = (Gap.record_seq r.gaps f.seq).0 } in
    let b : Bool = (Gap.record_seq r.gaps f.seq).1 && wants_unrel r.cfg.mode in
    let (no_seqs, no_ends) = play_if-quiet b f in
    elim (on_data_cases r f now) [
      | inl (s, e) ↦
          let k : IsReceiver q = record {
            tracked = record_seq-IsTracker f.seq i.tracked fits;
            when_open = λ t. let clash = sym t ∙ s in cc;
            when_shut = λ t. record {
              emptied = (i.when_shut s).emptied;
              no_bytes = (i.when_shut s).no_bytes;
              no_nacks = (i.when_shut s).no_nacks;
            };
          } in
          rw e (quiet r q (play_if b f) k refl refl no_seqs no_ends)
      | inr (inl (stale, e)) ↦
          let k : Alike r q = record {
            cfg = refl;
            gaps = record_seq_stale r.gaps f.seq stale;
            reorder = refl;
            reorder_bytes = refl;
            rel_state = refl;
            rel_released = refl;
          } in
          rw e (quiet-Alike r q (play_if b f) k (λ t. (refl, refl)) (λ t. refl) no_seqs no_ends i)
      | inr (inr (s, fresh, e)) ↦
          let act = λ (r' : XferReceiver). buffer_frame r' f now in
          let first : Step = (q, play_if b f) in
          rw e (
            subst (λ t. Progress t r.rel_released (first ⨾ act)) (sym s)
              (after_play streaming r.rel_released q b f act
                (buffer_frame-Progress r f now i s fits fresh)))
    ]

on_body-Progress :
    (r : XferReceiver) (seq : XferSeq) (body : Body) (now : Instant)
    → IsReceiver r
    → seq < u32_mod
    → Progress r.rel_state r.rel_released (on_body r seq body now)
unfolding on_body
on_body-Progress r seq (body_data ts payload) now i fits =
    on_data-Progress r (record { seq = seq; ts = ts; payload = payload }) now i fits
on_body-Progress r seq (body_end final) now i fits =
    let q : XferReceiver = record r { final_seq = some final } in
    check_finish-Progress q now
      (Alike-IsReceiver r q (ground arith) (λ t. (refl, refl)) (λ t. refl) i)
on_body-Progress r seq (body_keepalive lost) now i fits =
    let first = on_keepalive-Progress r lost i in
    Progress-⨾ (on_keepalive r lost) (λ r'. check_finish r' now) first
      (check_finish-Progress (on_keepalive r lost).0 now first.keeps)
on_body-Progress r seq (body_ack c h b) now i fits = nothing r i
on_body-Progress r seq (body_nack m) now i fits = nothing r i
on_body-Progress r seq body_end_ack now i fits = nothing r i

pub handle-Progress :
    (r : XferReceiver) (seq : XferSeq) (body : Body) (now : Instant)
    → IsReceiver r
    → seq < u32_mod
    → Progress r.rel_state r.rel_released (handle r seq body now)
unfolding handle
handle-Progress r seq body now i fits =
    let q : XferReceiver = record r { last_packet_at = now } in
    let first : Progress r.rel_state r.rel_released (on_body q seq body now) =
      on_body-Progress q seq body now
        (Alike-IsReceiver r q (ground arith) (λ t. (refl, refl)) (λ t. refl) i) fits in
    Progress-⨾ (on_body q seq body now) (λ r'. maybe_ack r' now) first
      (maybe_ack-Progress (on_body q seq body now).0 now first.keeps)

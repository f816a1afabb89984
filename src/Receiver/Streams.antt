-- ===== src/Receiver/Streams.antt =====
-- Keepalives and timers (`handle` and `tick` of protofish4-proto/src/xfer/receiver.rs).
use protofish4_rs.Base.{◌≡◌, refl, sym, ◌∙◌, List, [], ◌∷◌, true, arith, ◌⊎◌, inl, inr, Bool-cases}
use protofish4_rs.Types.{
  XferSeq, Instant, RelOutcome, aborted, RelAbortReason, sender_discarded, peer_gone, stalled,
  unrecoverable_gap,
}
use protofish4_rs.Codec.{max_nack_entries}
use protofish4_rs.Gap
use protofish4_rs.Gap.{GapTracker}
use protofish4_rs.Receiver.{
  XferReceiver, streaming, finished, ◌⨾◌, closed_event, finish_rel, maybe_ack, on_keepalive,
  emit_nacks, nack_loop, nack_if_any, watch_rel, tick,
}
use protofish4_rs.Receiver.Events.{reliable_seqs, outcomes}
use protofish4_rs.Receiver.Invariant.{IsReceiver, Progress, Progress-⨾}
use protofish4_rs.Receiver.Methods.{
  quiet-Alike, nothing, abort-Progress, finish_rel-state, RelState-cases, maybe_ack-Progress,
}

pub keepalive_cases :
    (r : XferReceiver) (lost : XferSeq)
    → (on_keepalive r lost ≡ (r, []))
      ⊎ ((on_keepalive r lost ≡ (record r { sender_lost_below = lost }, []))
          ⊎ ((r.rel_state ≡ streaming)
              × (on_keepalive r lost
                  ≡ finish_rel (record r { sender_lost_below = lost }) (aborted sender_discarded))))
unfolding on_keepalive
keepalive_cases r lost = ground arith

pub on_keepalive-Progress :
    (r : XferReceiver) (lost : XferSeq)
    → IsReceiver r
    → Progress r.rel_state r.rel_released (on_keepalive r lost)
on_keepalive-Progress r lost i =
    let r' : XferReceiver = record r { sender_lost_below = lost } in
    elim (keepalive_cases r lost) [
      | inl e ↦ rw e (nothing r i)
      | inr (inl e) ↦
          rw e (quiet-Alike r r' [] (ground arith) (λ s. (refl, refl)) (λ s. refl) refl refl i)
      | inr (inr (s, e)) ↦ rw e (abort-Progress r' sender_discarded i.tracked s)
    ]

nack_if_any-quiet :
    (ask : List XferSeq)
    → (reliable_seqs (nack_if_any ask) ≡ []) × (outcomes (nack_if_any ask) ≡ [])
nack_if_any-quiet [] = (refl, refl)
nack_if_any-quiet (s ∷ ask) = (refl, refl)

emit_nacks-Progress :
    (r : XferReceiver) (now : Instant)
    → IsReceiver r
    → r.rel_state ≡ streaming
    → Progress r.rel_state r.rel_released (emit_nacks r now)
unfolding emit_nacks
emit_nacks-Progress r now i s =
    let (nacks, ask, exhausted) =
      nack_loop r.cfg r.sender_lost_below now (Gap.missing r.gaps max_nack_entries) r.nacks [] in
    let r' : XferReceiver = record r { nacks = nacks } in
    elim (Bool-cases exhausted) [
      | inl e ↦ rw e (abort-Progress r' unrecoverable_gap i.tracked s)
      | inr e ↦ rw e (
          quiet-Alike r r' (nack_if_any ask) (ground arith) (λ s. (refl, refl))
            (λ t. let clash = sym s ∙ t in cc) (nack_if_any-quiet ask).0 (nack_if_any-quiet ask).1
            i)
    ]

pub watch_cases :
    (r : XferReceiver) (now : Instant)
    → (watch_rel r now ≡ (r, []))
      ⊎ ((r.rel_state ≡ streaming)
          × ((watch_rel r now ≡ finish_rel r (aborted stalled))
              ⊎ (watch_rel r now ≡ emit_nacks r now)))
unfolding watch_rel
watch_cases r now = ground arith

watch_rel-Progress :
    (r : XferReceiver) (now : Instant)
    → IsReceiver r
    → Progress r.rel_state r.rel_released (watch_rel r now)
watch_rel-Progress r now i = elim (watch_cases r now) [
  | inl e ↦ rw e (nothing r i)
  | inr (s, inl e) ↦ rw e (abort-Progress r stalled i.tracked s)
  | inr (s, inr e) ↦ rw e (emit_nacks-Progress r now i s)
]

pub tick_cases :
    (r : XferReceiver) (now : Instant)
    → (tick r now ≡ (r, []))
      ⊎ ((tick r now ≡ (
            finish_rel r (aborted peer_gone)
            ⨾ (λ r'. (record r' { closed = true }, closed_event ∷ []))))
          ⊎ (tick r now ≡ (watch_rel r now ⨾ (λ r'. maybe_ack r' now))))
unfolding tick
tick_cases r now = ground arith

finish_rel_again :
    (r : XferReceiver) (o : RelOutcome) → r.rel_state ≡ finished → finish_rel r o ≡ (r, [])
unfolding finish_rel
finish_rel_again r o e = ground arith

-- Giving up, whatever the state.
give_up-Progress :
    (r : XferReceiver) (why : RelAbortReason)
    → IsReceiver r
    → Progress r.rel_state r.rel_released (finish_rel r (aborted why))
give_up-Progress r why i = elim (RelState-cases r.rel_state) [
  | inl s ↦ abort-Progress r why i.tracked s
  | inr s ↦ rw (finish_rel_again r (aborted why) s) (nothing r i)
]

pub tick-Progress :
    (r : XferReceiver) (now : Instant)
    → IsReceiver r
    → Progress r.rel_state r.rel_released (tick r now)
tick-Progress r now i = elim (tick_cases r now) [
  | inl e ↦ rw e (nothing r i)
  | inr (inl e) ↦
      let gone = give_up-Progress r peer_gone i in
      let r' : XferReceiver = (finish_rel r (aborted peer_gone)).0 in
      rw e (
        Progress-⨾ (finish_rel r (aborted peer_gone))
          (λ r'. (record r' { closed = true }, closed_event ∷ [])) gone
          (quiet-Alike r' (record r' { closed = true }) (closed_event ∷ []) (ground arith)
            (λ s. let clash = sym s ∙ finish_rel-state r (aborted peer_gone) in cc) (λ s. refl) refl
            refl gone.keeps))
  | inr (inr e) ↦
      let watched = watch_rel-Progress r now i in
      rw e (
        Progress-⨾ (watch_rel r now) (λ r'. maybe_ack r' now) watched
          (maybe_ack-Progress _ now watched.keeps))
]

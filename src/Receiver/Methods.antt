-- ===== src/Receiver/Methods.antt =====
-- The methods of protofish4-proto/src/xfer/receiver.rs that end and acknowledge a stream.
use protofish4_rs.Base.{
  ◌-◌, ◌≤◌, ◌≡◌, refl, sym, ap, ◌∙◌, subst, List, [], ◌∷◌, Option, none, some, true, false, arith,
  ◌⊎◌, inl, inr, Bool-cases, leb→le, min,
}
use protofish4_rs.Types.{XferSeq, Instant, RelOutcome, complete, aborted, RelAbortReason, u16_mod}
use protofish4_rs.Gap
use protofish4_rs.Gap.{GapTracker}
use protofish4_rs.Gap.Arrivals.{IsTracker, abandon-IsTracker}
use protofish4_rs.Receiver.{
  XferReceiver, RelState, streaming, finished, RecvEvent, ◌⨾◌, rel_finished, send_ack, send_end_ack,
  closed_event, finish_rel, finish_complete, ack_end, close_if_acked, check_finish_at, check_finish,
  maybe_ack,
}
use protofish4_rs.Receiver.Events.{reliable_seqs, outcomes}
use protofish4_rs.Receiver.Release.{release_contiguous_idle, Keyed, payload_bytes}
use protofish4_rs.Collections.Maps.{keys}
use protofish4_rs.Receiver.Invariant.{
  IsOpen, IsShut, IsReceiver, Progress, Progress-⨾, Progress-quiet,
}

-- Ending the stream, from any state of the buffer.
pub finish_rel-Progress :
    (r : XferReceiver) (o : RelOutcome)
    → IsTracker r.gaps
    → r.rel_state ≡ streaming
    → ((f : XferSeq) → o ≡ complete f → f ≤ r.rel_released)
    → Progress streaming r.rel_released (finish_rel r o)
finish_rel-Progress r o i e c =
    let run : finish_rel r o ≡ (ended r, rel_finished o ∷ []) = unfold finish_rel in rw e refl in
    rw run (record {
      keeps = record {
        tracked = abandon-IsTracker i;
        when_open = λ p. cc;
        when_shut = λ p. record { emptied = refl; no_bytes = refl; no_nacks = refl };
      };
      grows = omega arith;
      in_order = let z : r.rel_released - r.rel_released ≡ 0 = omega arith in rw z;
      ending = (o, refl, c);
    })
  where
    ended : XferReceiver → XferReceiver
    ended r = record r {
      rel_state = finished;
      reorder = [];
      reorder_bytes = 0;
      nacks = [];
      gaps = Gap.abandon r.gaps;
    }

pub abort-Progress :
    (r : XferReceiver) (why : RelAbortReason)
    → IsTracker r.gaps
    → r.rel_state ≡ streaming
    → Progress r.rel_state r.rel_released (finish_rel r (aborted why))
abort-Progress r why i e =
    subst (λ s. Progress s r.rel_released (finish_rel r (aborted why))) (sym e)
      (finish_rel-Progress r (aborted why) i e (λ f p. cc))

pub RelState-cases : (s : RelState) → (s ≡ streaming) ⊎ (s ≡ finished)
RelState-cases streaming = inl refl
RelState-cases finished = inr refl

pub quiet :
    (r r' : XferReceiver) (out : List RecvEvent)
    → IsReceiver r'
    → r'.rel_state ≡ r.rel_state
    → r'.rel_released ≡ r.rel_released
    → reliable_seqs out ≡ []
    → outcomes out ≡ []
    → Progress r.rel_state r.rel_released (r', out)
quiet r r' out i s n p q =
    subst (λ s. Progress s r.rel_released (r', out)) s
      (Progress-quiet r.rel_released (r', out) i (sym n) p q)

-- The fields of a receiver that the invariant reads.
pub record Alike (r r' : XferReceiver) : Type 0 where
  pub cfg : r'.cfg ≡ r.cfg
  pub gaps : r'.gaps ≡ r.gaps
  pub reorder : r'.reorder ≡ r.reorder
  pub reorder_bytes : r'.reorder_bytes ≡ r.reorder_bytes
  pub rel_state : r'.rel_state ≡ r.rel_state
  pub rel_released : r'.rel_released ≡ r.rel_released

pub Alike-IsReceiver :
    (r r' : XferReceiver)
    → Alike r r'
    → ((r.rel_state ≡ streaming) → (r'.end_acked ≡ r.end_acked) × (r'.closed ≡ r.closed))
    → ((r.rel_state ≡ finished) → r'.nacks ≡ r.nacks)
    → IsReceiver r
    → IsReceiver r'
Alike-IsReceiver r r' a going shut i = record {
  tracked = subst IsTracker (sym a.gaps) i.tracked;
  when_open = λ e.
      let o : IsOpen r = i.when_open (sym a.rel_state ∙ e) in
      let (x, y) = going (sym a.rel_state ∙ e) in
      record {
        released = a.rel_released ∙ o.released ∙ ap (λ (g : GapTracker). g.contiguous) (sym a.gaps);
        indexed = ap keys a.reorder ∙ o.indexed ∙ ap (λ (g : GapTracker). g.ahead) (sym a.gaps);
        keyed = subst Keyed (sym a.reorder) o.keyed;
        counted = a.reorder_bytes ∙ o.counted ∙ ap payload_bytes (sym a.reorder);
        budget = ground (arith, o.budget, a.cfg, a.reorder_bytes);
        window = ground (arith, o.window, a.cfg, a.gaps);
        unacked = x ∙ o.unacked;
        not_closed = y ∙ o.not_closed;
      };
  when_shut = λ e.
      let s : IsShut r = i.when_shut (sym a.rel_state ∙ e) in
      record {
        emptied = a.reorder ∙ s.emptied;
        no_bytes = a.reorder_bytes ∙ s.no_bytes;
        no_nacks = shut (sym a.rel_state ∙ e) ∙ s.no_nacks;
      };
}

-- A step that changes none of those fields and pushes nothing of the stream.
pub quiet-Alike :
    (r r' : XferReceiver) (out : List RecvEvent)
    → Alike r r'
    → ((r.rel_state ≡ streaming) → (r'.end_acked ≡ r.end_acked) × (r'.closed ≡ r.closed))
    → ((r.rel_state ≡ finished) → r'.nacks ≡ r.nacks)
    → reliable_seqs out ≡ []
    → outcomes out ≡ []
    → IsReceiver r
    → Progress r.rel_state r.rel_released (r', out)
quiet-Alike r r' out a going shut p q i =
    quiet r r' out (Alike-IsReceiver r r' a going shut i) a.rel_state a.rel_released p q

pub nothing : (r : XferReceiver) → IsReceiver r → Progress r.rel_state r.rel_released (r, [])
nothing r i = quiet r r [] i refl refl refl refl

maybe_ack_cases :
    (r : XferReceiver) (now : Instant)
    → (maybe_ack r now ≡ (r, []))
      ⊎ (maybe_ack r now ≡ (
        record r { last_ack_at = now },
        send_ack r.gaps.contiguous r.gaps.highest (min r.buffered_ms (u16_mod - 1)) ∷ [],
      ))
unfolding maybe_ack
maybe_ack_cases r now = ground arith

pub maybe_ack-Progress :
    (r : XferReceiver) (now : Instant)
    → IsReceiver r
    → Progress r.rel_state r.rel_released (maybe_ack r now)
maybe_ack-Progress r now i = elim (maybe_ack_cases r now) [
  | inl e ↦ rw e (nothing r i)
  | inr e ↦ rw e (
      quiet-Alike r (record r { last_ack_at = now }) _ (ground arith) (λ e. (refl, refl))
        (λ e. refl) refl refl i)
]

ack_end_cases :
    (r : XferReceiver) (f : XferSeq)
    → (ack_end r f ≡ (r, []))
      ⊎ ((Gap.is_complete r.gaps f ≡ true)
          × (ack_end r f ≡ (record r { end_acked = true }, send_end_ack ∷ [])))
unfolding ack_end
ack_end_cases r f = ground arith

ack_end-Progress :
    (r : XferReceiver) (f : XferSeq)
    → IsReceiver r
    → (r.rel_state ≡ streaming → Gap.is_complete r.gaps f ≡ false)
    → Progress r.rel_state r.rel_released (ack_end r f)
ack_end-Progress r f i h = elim (ack_end_cases r f) [
  | inl e ↦ rw e (nothing r i)
  | inr (c, e) ↦ rw e (
      quiet-Alike r (record r { end_acked = true }) _ (ground arith)
        (λ s. let no_way : false ≡ true = sym (h s) ∙ c in cc) (λ s. refl) refl refl i)
]

close_cases :
    (r : XferReceiver)
    → (close_if_acked r ≡ (r, []))
      ⊎ ((r.end_acked ≡ true)
          × (close_if_acked r ≡ (record r { closed = true }, closed_event ∷ [])))
unfolding close_if_acked
close_cases r = ground arith

close_if_acked-Progress :
    (r : XferReceiver) → IsReceiver r → Progress r.rel_state r.rel_released (close_if_acked r)
close_if_acked-Progress r i = elim (close_cases r) [
  | inl e ↦ rw e (nothing r i)
  | inr (c, e) ↦ rw e (
      quiet-Alike r (record r { closed = true }) _ (ground arith)
        (λ s. let no_way : false ≡ true = sym (i.when_open s).unacked ∙ c in cc) (λ s. refl) refl
        refl i)
]

-- A stream that is complete is finished, and one that is left open is not complete.
finish_complete_cases :
    (r : XferReceiver) (f : XferSeq) (now : Instant)
    → IsReceiver r
    → ((r.rel_state ≡ streaming)
        × (f ≤ r.rel_released)
        × (finish_complete r f now ≡ finish_rel r (complete f)))
      ⊎ ((finish_complete r f now ≡ (r, []))
          × (r.rel_state ≡ streaming → Gap.is_complete r.gaps f ≡ false))
unfolding finish_complete
finish_complete_cases r f now i = elim (RelState-cases r.rel_state) [
  | inr e ↦ inr (ground arith, λ s. cc)
  | inl e ↦ elim (Bool-cases (Gap.is_complete r.gaps f)) [
    | inr c ↦ inr (ground arith, λ s. c)
    | inl c ↦
        let o : IsOpen r = i.when_open e in
        inl (
          e,
          omega (arith, leb→le f r.gaps.contiguous c, o.released),
          ground (arith, release_contiguous_idle r now o.released),
        )
  ]
]

pub finish_rel-state : (r : XferReceiver) (o : RelOutcome) → (finish_rel r o).0.rel_state ≡ finished
unfolding finish_rel
finish_rel-state r o = ground arith

check_finish_at-Progress :
    (final : Option XferSeq) (r : XferReceiver) (now : Instant)
    → IsReceiver r
    → Progress r.rel_state r.rel_released (check_finish_at final r now)
unfolding check_finish_at
check_finish_at-Progress none r now i = nothing r i
check_finish_at-Progress (some f) r now i =
    Progress-⨾ (finish_complete r f now ⨾ (λ r'. ack_end r' f)) close_if_acked second
      (close_if_acked-Progress _ second.keeps)
  where
    first :
        Progress r.rel_state r.rel_released (finish_complete r f now)
        × ((finish_complete r f now).0.rel_state ≡ streaming
            → Gap.is_complete (finish_complete r f now).0.gaps f ≡ false)
    first = elim (finish_complete_cases r f now i) [
      | inl (s, le, e) ↦ rw e (
        subst (λ s. Progress s r.rel_released (finish_rel r (complete f))) (sym s)
            (finish_rel-Progress r (complete f) i.tracked s (λ x p. ground arith)),
        λ t. let clash = sym t ∙ finish_rel-state r (complete f) in cc,
      )
      | inr (e, h) ↦ rw e (nothing r i, h)
    ]

    second : Progress r.rel_state r.rel_released (finish_complete r f now ⨾ (λ r'. ack_end r' f))
    second =
        Progress-⨾ (finish_complete r f now) (λ r'. ack_end r' f) first.0
          (ack_end-Progress (finish_complete r f now).0 f first.0.keeps first.1)

pub check_finish-Progress :
    (r : XferReceiver) (now : Instant)
    → IsReceiver r
    → Progress r.rel_state r.rel_released (check_finish r now)
check_finish-Progress r now i = unfold check_finish in check_finish_at-Progress r.final_seq r now i

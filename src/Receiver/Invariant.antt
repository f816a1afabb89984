-- ===== src/Receiver/Invariant.antt =====
-- The invariant of a receiver (protofish4-proto/src/xfer/receiver.rs), and what a step may do.
use protofish4_rs.Base.{
  ℕ, suc, ◌+◌, ◌-◌, ◌≤◌, ◌≡◌, refl, ap, ◌∙◌, List, [], ◌∷◌, ◌++◌, false, arith, count_up,
  count_up-append,
}
use protofish4_rs.Types.{XferSeq, Instant, RelOutcome, complete}
use protofish4_rs.Collections.Maps.{keys}
use protofish4_rs.Config.{ReceiverConfig}
use protofish4_rs.Gap.Arrivals.{IsTracker, new-IsTracker}
use protofish4_rs.Gap
use protofish4_rs.Receiver.{XferReceiver, RelState, streaming, finished, Step, new, ◌⨾◌}
use protofish4_rs.Receiver.Events.{reliable_seqs, outcomes, reliable_seqs-append, outcomes-append}
use protofish4_rs.Receiver.Release.{Keyed, payload_bytes}

-- While the reliable stream is open, the reorder buffer is the tracker's set with its frames, its
-- bytes are counted, and both budgets hold.
pub record IsOpen (r : XferReceiver) : Type 0 where
  pub released : r.rel_released ≡ r.gaps.contiguous
  pub indexed : keys r.reorder ≡ r.gaps.ahead
  pub keyed : Keyed r.reorder
  pub counted : r.reorder_bytes ≡ payload_bytes r.reorder
  pub budget : r.reorder_bytes ≤ r.cfg.max_reorder_bytes
  pub window : r.gaps.highest - r.gaps.contiguous ≤ r.cfg.reorder_window
  pub unacked : r.end_acked ≡ false
  pub not_closed : r.closed ≡ false

-- Afterwards nothing is held.
pub record IsShut (r : XferReceiver) : Type 0 where
  pub emptied : r.reorder ≡ []
  pub no_bytes : r.reorder_bytes ≡ 0
  pub no_nacks : r.nacks ≡ []

pub record IsReceiver (r : XferReceiver) : Type 0 where
  pub tracked : IsTracker r.gaps
  pub when_open : r.rel_state ≡ streaming → IsOpen r
  pub when_shut : r.rel_state ≡ finished → IsShut r

pub new-IsReceiver : (cfg : ReceiverConfig) (now : Instant) → IsReceiver (new cfg now)
unfolding new
new-IsReceiver cfg now = record {
  tracked = new-IsTracker;
  when_open = λ e. unfold Gap.new in ground arith;
  when_shut = λ e. ground arith;
}

-- How a step from a stream in one state to a stream in another may end it: not at all; once, and
-- with `complete f` only if everything up to `f` was released; or it had ended before.
abbrev pub Ending : RelState → ℕ → RelState → ℕ → List RelOutcome → Type 0
Ending streaming n streaming m os = os ≡ []
Ending streaming n finished m os =
    (o : RelOutcome) × (os ≡ o ∷ []) × ((f : XferSeq) → o ≡ complete f → f ≤ m)
Ending finished n finished m os = (os ≡ []) × (m ≡ n)
Ending finished n streaming m os = ⊥

-- A step from a stream with `n` frames released.
pub record Progress (s : RelState) (n : ℕ) (st : Step) : Type 0 where
  pub keeps : IsReceiver st.0
  pub grows : n ≤ st.0.rel_released
  pub in_order : reliable_seqs st.1 ≡ count_up (suc n) (st.0.rel_released - n)
  pub ending : Ending s n st.0.rel_state st.0.rel_released (outcomes st.1)

Ending-trans :
    (s t u : RelState) (n m k : ℕ) (xs ys : List RelOutcome)
    → m ≤ k
    → Ending s n t m xs
    → Ending t m u k ys
    → Ending s n u k (xs ++ ys)
Ending-trans streaming streaming streaming n m k xs ys h a b = rw (a, b) refl
Ending-trans streaming streaming finished n m k xs ys h a (o, e, c) = (o, rw (a, e) refl, c)
Ending-trans streaming finished finished n m k xs ys h (o, e, c) (f, g) =
    (o, rw (e, f) refl, λ x p. omega (arith, c x p))
Ending-trans finished finished finished n m k xs ys h (a, b) (f, g) = (rw (a, f) refl, omega arith)
Ending-trans streaming finished streaming n m k xs ys h a b = absurd b
Ending-trans finished streaming u n m k xs ys h a b = absurd a
Ending-trans finished finished streaming n m k xs ys h a b = absurd b

more_seqs :
    (n m k : ℕ) (xs ys : List XferSeq)
    → n ≤ m
    → m ≤ k
    → xs ≡ count_up (suc n) (m - n)
    → ys ≡ count_up (suc m) (k - m)
    → xs ++ ys ≡ count_up (suc n) (k - n)
more_seqs n m k xs ys a b p q =
    let whole : m - n + (k - m) ≡ k - n = omega arith in
    rw (p, q)
      (count_up-append (suc n) (m - n) (suc m) (k - m) (omega arith) ∙ ap (count_up (suc n)) whole)

-- Steps in sequence.
pub Progress-⨾ :
    {s : RelState} {n : ℕ} (st : Step) (f : XferReceiver → Step)
    → Progress s n st
    → Progress st.0.rel_state st.0.rel_released (f st.0)
    → Progress s n (st ⨾ f)
Progress-⨾ {s} {n} st f p q = record {
  keeps = q.keeps;
  grows = omega (arith, p.grows, q.grows);
  in_order =
      reliable_seqs-append st.1 (f st.0).1
      ∙ more_seqs n st.0.rel_released (f st.0).0.rel_released _ _ p.grows q.grows p.in_order
          q.in_order;
  ending = rw (outcomes-append st.1 (f st.0).1) (
      Ending-trans s st.0.rel_state (f st.0).0.rel_state n st.0.rel_released (f st.0).0.rel_released
        (outcomes st.1) (outcomes (f st.0).1) q.grows p.ending q.ending);
}

Ending-same : (s : RelState) (n : ℕ) → Ending s n s n []
Ending-same streaming n = refl
Ending-same finished n = (refl, refl)

-- A step that leaves the stream alone and pushes nothing of it.
pub Progress-quiet :
    (n : ℕ) (st : Step)
    → IsReceiver st.0
    → n ≡ st.0.rel_released
    → reliable_seqs st.1 ≡ []
    → outcomes st.1 ≡ []
    → Progress st.0.rel_state n st
Progress-quiet n st i e p q =
    let none_new : st.0.rel_released - n ≡ 0 = omega arith in
    record {
      keeps = i;
      grows = omega arith;
      in_order = rw none_new p;
      ending = rw (q, e) (Ending-same st.0.rel_state st.0.rel_released);
    }

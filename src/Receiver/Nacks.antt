-- ===== src/Receiver/Nacks.antt =====
-- What `emit_nacks` of protofish4-proto/src/xfer/receiver.rs asks for.
use protofish4_rs.Base.{
  ℕ, zero, suc, ◌<◌, ◌≡◌, refl, ap, ◌∙◌, ◌⊎◌, inl, inr, List, [], ◌∷◌, false, arith, All, Any, take,
}
use protofish4_rs.Types.{XferSeq, Instant, aborted, unrecoverable_gap}
use protofish4_rs.Codec.{max_nack_entries}
use protofish4_rs.Config.{ReceiverConfig}
use protofish4_rs.Collections.Maps
use protofish4_rs.Collections.Sets.{contains, Above}
use protofish4_rs.Gap.Missing.{absent}
use protofish4_rs.Gap
use protofish4_rs.Gap.{GapTracker}
use protofish4_rs.Gap.Runs.{maximum}
use protofish4_rs.Gap.Wanted.{wanted, missing-record_all}
use protofish4_rs.Receiver
use protofish4_rs.Receiver.{
  XferReceiver, RecvEvent, Step, streaming, finished, rel_finished, send_nack, finish_rel,
  nack_loop, nack_if_any, emit_nacks,
}
use protofish4_rs.Receiver.Runs.{Call, run, AllFit}
use protofish4_rs.Receiver.Completion.{arrivals, arrivals-IsU32s, run_tracker}
use protofish4_rs.Receiver.Asking.{nack_loop_lem, Spent, Asks}

absent-Above : (e n lo : ℕ) (xs : List ℕ) → lo < e → Above lo (absent e n xs)
absent-Above e zero lo xs h = tt
absent-Above e (suc n) lo xs h =
    ground (arith, absent-Above (suc e) n lo xs, absent-Above (suc e) n e xs)

take-Above : (n lo : ℕ) (xs : List ℕ) → Above lo xs → Above lo (take n xs)
take-Above zero lo xs a = tt
take-Above (suc n) lo [] a = tt
take-Above (suc n) lo (x ∷ xs) a = (a.0, take-Above n x xs a.1)

-- A `Nack` goes out for these numbers if there are any.
abbrev pub Nacked : List XferSeq → List RecvEvent → Type 0
Nacked [] out = out ≡ []
Nacked (seq ∷ ask) out = out ≡ send_nack (seq ∷ ask) ∷ []

nack_if_any-Nacked : (ask : List XferSeq) → Nacked ask (nack_if_any ask)
nack_if_any-Nacked [] = refl
nack_if_any-Nacked (seq ∷ ask) = refl

-- How a look at these gaps ends.
abbrev pub Looked : XferReceiver → Instant → List XferSeq → Step → Type 0
Looked r now missing p =
    ((p.1 ≡ rel_finished (aborted unrecoverable_gap) ∷ [])
      × (p.0.rel_state ≡ finished)
      × Any (λ (s : XferSeq). Spent r.cfg r.sender_lost_below s (Maps.get s r.nacks)) missing)
    ⊎ ((p.0.rel_state ≡ r.rel_state)
        × All (λ (s : XferSeq). ¬ Spent r.cfg r.sender_lost_below s (Maps.get s r.nacks)) missing
        × ((j : XferSeq) → contains j missing ≡ false → Maps.get j p.0.nacks ≡ Maps.get j r.nacks)
        × (ask : List XferSeq) × Asks r.cfg now r.nacks p.0.nacks missing ask
        × Nacked ask p.1)

Agrees-refl :
    (missing : List XferSeq) (old : List (ℕ × (ℕ × Instant)))
    → All (λ (s : XferSeq). Maps.get s old ≡ Maps.get s old) missing
Agrees-refl [] old = tt
Agrees-refl (s ∷ missing) old = (refl, Agrees-refl missing old)

emit_nacks_from :
    (r : XferReceiver) (now : Instant)
    → r.rel_state ≡ streaming
    → (missing : List XferSeq) → Gap.missing r.gaps max_nack_entries ≡ missing
    → Above 0 missing
    → Looked r now missing (emit_nacks r now)
unfolding emit_nacks
emit_nacks_from r now s missing same a =
    let q = nack_loop r.cfg r.sender_lost_below now missing r.nacks [] in
    rw same
      (elim (nack_loop_lem r.cfg r.sender_lost_below now missing 0 r.nacks r.nacks [] a
        (Agrees-refl missing r.nacks)) [
          | inl (over, spent) ↦
              rw over (inl (unfold finish_rel in rw s refl, unfold finish_rel in rw s refl, spent))
          | inr (quiet, all, others, more, is, asks) ↦
              rw quiet (inr (refl, all, others, more, asks, rw is (nack_if_any-Nacked more)))
        ])

-- After any calls with 32-bit numbers, while the reliable stream is open, a look at the gaps: of
-- the numbers from 1 to the greatest that arrived the first 128 that did not arrive count. If one
-- of them is at most what the sender declared lost, or was asked for `max_nack_attempts` times or
-- more, the stream is aborted for it. Otherwise the stream stays open and a `Nack` asks, in
-- ascending order, for exactly those whose delay after the last time is over, if there are any.
-- These are noted with one attempt more and this instant, the others with the attempts they had and
-- the instant of the last, an hour ago for none, and what is noted of every other number stays.
pub emit_nacks_lem :
    (cfg : ReceiverConfig) (start : Instant) (calls : List (Call × Instant)) (now : Instant)
    → AllFit calls
    → (run (Receiver.new cfg start) calls).0.rel_state ≡ streaming
    → let r = (run (Receiver.new cfg start) calls).0 in
      Looked r now (take max_nack_entries (wanted (arrivals calls))) (emit_nacks r now)
emit_nacks_lem cfg start calls now fits s =
    let r : XferReceiver = (run (Receiver.new cfg start) calls).0 in
    let seqs : List XferSeq = arrivals calls in
    let same : Gap.missing r.gaps max_nack_entries ≡ take max_nack_entries (wanted seqs) =
      ap (λ (g : GapTracker). Gap.missing g max_nack_entries) (run_tracker cfg start calls fits s)
      ∙ missing-record_all seqs max_nack_entries (arrivals-IsU32s calls fits) in
    emit_nacks_from r now s (take max_nack_entries (wanted seqs)) same (
      take-Above max_nack_entries 0 (wanted seqs)
        (absent-Above 1 (maximum 0 seqs) 0 seqs (omega arith)))

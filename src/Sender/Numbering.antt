-- ===== src/Sender/Numbering.antt =====
-- The sequence numbers that a sender of protofish4-proto/src/xfer/sender.rs uses over a run.
use protofish4_rs.Base.{
  ℕ, suc, ◌+◌, ◌≤◌, ◌<◌, ◌≡◌, refl, ap, ◌∙◌, List, [], ◌∷◌, ◌++◌, arith, ◌⊎◌, inl, inr, count_up,
  length,
}
use protofish4_rs.Types.{XferSeq, Instant, SeqClass, payload_class, control_class, u32_mod, u32_max}
use protofish4_rs.Frame.{body_kind, kind_seq_class, body_nack}
use protofish4_rs.Config.{SenderConfig}
use protofish4_rs.Sender.{
  XferSender, new, SendEvent, emit, resend, completed, failed, push_frame, record_sealed, finish,
  handle, tick, held_datagrams, resend_if_any,
}
use protofish4_rs.Sender.Runs.{
  Call, push_call, sealed_call, finish_call, handle_call, tick_call, step, run,
}

abbrev pub if_class : SeqClass → SeqClass → XferSeq → List XferSeq → List XferSeq
if_class payload_class payload_class seq rest = seq ∷ rest
if_class control_class control_class seq rest = seq ∷ rest
if_class _ _ seq rest = rest

-- The numbers of the packets of one class that a list of events sends for the first time.
abbrev pub sent : SeqClass → List SendEvent → List XferSeq
sent c [] = []
sent c (emit seq body ∷ evs) = if_class c (kind_seq_class (body_kind body)) seq (sent c evs)
sent c (_ ∷ evs) = sent c evs

if_class-append :
    (c k : SeqClass) (seq : XferSeq) (xs ys : List XferSeq)
    → if_class c k seq (xs ++ ys) ≡ if_class c k seq xs ++ ys
if_class-append payload_class payload_class seq xs ys = refl
if_class-append control_class control_class seq xs ys = refl
if_class-append payload_class control_class seq xs ys = refl
if_class-append control_class payload_class seq xs ys = refl

sent-append : (c : SeqClass) (xs ys : List SendEvent) → sent c (xs ++ ys) ≡ sent c xs ++ sent c ys
sent-append c [] ys = refl
sent-append c (emit seq body ∷ xs) ys =
    let k : SeqClass = kind_seq_class (body_kind body) in
    ap (if_class c k seq) (sent-append c xs ys) ∙ if_class-append c k seq (sent c xs) (sent c ys)
sent-append c (resend ds ∷ xs) ys = sent-append c xs ys
sent-append c (completed ∷ xs) ys = sent-append c xs ys
sent-append c (failed f ∷ xs) ys = sent-append c xs ys

sent_resend : (c : SeqClass) (ds : List (List ℕ)) → sent c (resend_if_any ds) ≡ []
sent_resend c [] = refl
sent_resend c (d ∷ ds) = refl

-- One call sends the next numbers of each class, at most one of the payload's.
abbrev Advances : ℕ → ℕ → List XferSeq → Type 0
Advances from to seqs = ((to ≡ from) × (seqs ≡ [])) ⊎ ((to ≡ suc from) × (seqs ≡ from ∷ []))

step_payload :
    (s : XferSender) (c : Call) (now : Instant)
    → s.next_seq < u32_max
    → Advances s.next_seq (step s c now).0.next_seq (sent payload_class (step s c now).1)
unfolding step
step_payload s (push_call ts payload) now h = unfold push_frame in ground arith
step_payload s (sealed_call seq d) now h = unfold record_sealed in ground arith
step_payload s finish_call now h = unfold finish in ground arith
step_payload s (handle_call (body_nack missing)) now h =
    unfold handle in ground (arith, sent_resend payload_class (held_datagrams s.ring missing))
step_payload s (handle_call b) now h = unfold handle in ground arith
step_payload s tick_call now h = unfold tick in ground arith

step_control :
    (s : XferSender) (c : Call) (now : Instant)
    → suc s.control_counter < u32_mod
    → Advances
        (suc s.control_counter)
        (suc (step s c now).0.control_counter)
        (sent control_class (step s c now).1)
unfolding step
step_control s (push_call ts payload) now h = unfold push_frame in ground arith
step_control s (sealed_call seq d) now h = unfold record_sealed in ground arith
step_control s finish_call now h = unfold finish in ground arith
step_control s (handle_call (body_nack missing)) now h =
    unfold handle in ground (arith, sent_resend control_class (held_datagrams s.ring missing))
step_control s (handle_call b) now h = unfold handle in ground arith
step_control s tick_call now h = unfold tick in ground arith

-- Calls that each send the next number or none send consecutive numbers.
then_more :
    (from mid to n : ℕ) (out rest : List XferSeq)
    → Advances from mid out
    → to ≡ mid + n
    → rest ≡ count_up mid n
    → (k : ℕ) × (to ≡ from + k) × (out ++ rest ≡ count_up from k) × (k ≤ suc n)
then_more from mid to n out rest (inl (e, f)) p q =
    (n, omega arith, rw (f, q) (rw e refl), omega arith)
then_more from mid to n out rest (inr (e, f)) p q =
    (suc n, omega arith, rw (f, q) (rw e refl), omega arith)

run_payload :
    (s : XferSender) (calls : List (Call × Instant))
    → s.next_seq + length calls ≤ u32_max
    → (n : ℕ) × ((run s calls).0.next_seq ≡ s.next_seq + n)
      × (sent payload_class (run s calls).1 ≡ count_up s.next_seq n)
      × (n ≤ length calls)
unfolding run
run_payload s [] h = (0, omega arith, refl, omega arith)
run_payload s ((c, now) ∷ calls) h =
    let t : XferSender = (step s c now).0 in
    let moved : Advances s.next_seq t.next_seq (sent payload_class (step s c now).1) =
      step_payload s c now (omega arith) in
    let (n, p, q, b) = run_payload t calls (ground (arith, moved)) in
    rw (sent-append payload_class (step s c now).1 (run t calls).1) (
      let (k, x, y, z) = then_more s.next_seq t.next_seq (run t calls).0.next_seq n _ _ moved p q in
      (k, x, y, omega arith))

run_control :
    (s : XferSender) (calls : List (Call × Instant))
    → s.control_counter + length calls < u32_mod
    → (n : ℕ) × (suc (run s calls).0.control_counter ≡ suc s.control_counter + n)
      × (sent control_class (run s calls).1 ≡ count_up (suc s.control_counter) n)
      × (n ≤ length calls)
unfolding run
run_control s [] h = (0, omega arith, refl, omega arith)
run_control s ((c, now) ∷ calls) h =
    let t : XferSender = (step s c now).0 in
    let moved : Advances (suc s.control_counter) (suc t.control_counter)
        (sent control_class (step s c now).1) =
      step_control s c now (omega arith) in
    let (n, p, q, b) = run_control t calls (ground (arith, moved)) in
    rw (sent-append control_class (step s c now).1 (run t calls).1) (
      let (k, x, y, z) =
        then_more (suc s.control_counter) (suc t.control_counter)
          (suc (run t calls).0.control_counter) n _ _ moved p q in
      (k, x, y, omega arith))

-- Over any run of a new sender with fewer than 2 ^ 32 - 1 calls, the payload frames go out
-- numbered 1, 2, 3, … with none skipped or used twice, and so do the control packets.
pub run_numbers :
    (cfg : SenderConfig) (calls : List (Call × Instant))
    → length calls < u32_max
    → let out = (run (new cfg) calls).1 in
      (n : ℕ) × (m : ℕ) × (sent payload_class out ≡ count_up 1 n)
      × (sent control_class out ≡ count_up 1 m)
      × (n ≤ length calls)
      × (m ≤ length calls)
unfolding new
run_numbers cfg calls h =
    let (n, p, q, b) = run_payload (new cfg) calls (omega arith) in
    let (m, p', q', b') = run_control (new cfg) calls (omega arith) in (n, m, q, q', b, b')

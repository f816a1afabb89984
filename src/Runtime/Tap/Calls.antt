-- ===== src/Runtime/Tap/Calls.antt =====
-- A tap of protofish4/src/sender.rs in terms of the calls of its state machine
-- (protofish4-proto/src/xfer/sender.rs).
use protofish4_rs.Base.{
  ℕ, ◌+◌, ◌≤◌, ◌≡◌, refl, ap, ◌∙◌, inl, inr, List, [], ◌∷◌, ◌++◌, append-nil, append_assoc, Option,
  arith, length, length-append, All, Option-cases, Sublist, Sublist-append,
}
use protofish4_rs.Types.{XferSeq, TimestampMs, Instant, UuidApi}
use protofish4_rs.Frame.{body_data, body_end, body_end_ack, body_ack, body_nack, body_keepalive}
use protofish4_rs.Crypto.{AeadApi}
use protofish4_rs.Ring
use protofish4_rs.Ring.{RetransRing}
use protofish4_rs.Ring.Entries.{Each, ack_through-Each, get-Each}
use protofish4_rs.Sender as Xfer
use protofish4_rs.Sender.{
  XferSender, SendEvent, emit, resend, completed, failed, held_datagrams, resend_if_any,
}
use protofish4_rs.Sender.Runs.{
  Call, push_call, sealed_call, finish_call, handle_call, tick_call, step, run, run-append,
}
use protofish4_rs.Sender.Frames.{pushed, pushed-append}
use protofish4_rs.Runtime.Tap.{Sender, dispatch}
use protofish4_rs.Runtime.Tap.Sending.{In, Copies, Sends, Sends-append}
use protofish4_rs.Runtime.Tap.Dispatched.{Tied, Tied-left, dispatch-Dispatched}

-- Timestamps and payloads.
abbrev pub Frames : Type 0
Frames = List (TimestampMs × List ℕ)

-- A call that does not put a datagram into the ring.
abbrev pub Own : Call → Type 0
Own (sealed_call seq d) = ⊥
Own _ = Unit

held_datagrams-All :
    (P : List ℕ → Type 0) (ring : RetransRing) (missing : List XferSeq)
    → Each P ring.entries
    → All P (held_datagrams ring missing)
unfolding held_datagrams
held_datagrams-All P ring [] h = tt
held_datagrams-All P ring (seq ∷ missing) h = elim (Option-cases (Ring.get ring seq)) [
  | inl p ↦ rw (p, held_datagrams) (held_datagrams-All P ring missing h)
  | inr (d, p) ↦
      rw (p, held_datagrams) (get-Each P ring seq d h p, held_datagrams-All P ring missing h)
]

resend-Copies :
    (log ds : List (List ℕ))
    → All (λ (d : List ℕ). In d log) ds
    → Copies log (resend_if_any ds) × (length (resend_if_any ds) ≤ 2)
resend-Copies log [] h = (tt, omega arith)
resend-Copies log (d ∷ ds) h = ((h, tt), omega arith)

-- Such a call asks only for copies of what the ring holds, and adds nothing to it.
step-Copies :
    (log : List (List ℕ)) (x : XferSender) (c : Call) (now : Instant)
    → Own c
    → Each (λ (d : List ℕ). In d log) x.ring.entries
    → let r = step x c now in
      Each (λ (d : List ℕ). In d log) r.0.ring.entries × Copies log r.1 × (length r.1 ≤ 2)
unfolding step
step-Copies log x (push_call ts payload) now own h = unfold Xfer.push_frame in ground (arith, h)
step-Copies log x (sealed_call seq d) now own h = elim own [ ]
step-Copies log x finish_call now own h = unfold Xfer.finish in ground (arith, h)
step-Copies log x (handle_call (body_ack c hi b)) now own h =
    unfold Xfer.handle in (ack_through-Each (λ (d : List ℕ). In d log) x.ring c h, tt, omega arith)
step-Copies log x (handle_call (body_nack missing)) now own h =
    unfold Xfer.handle in
    let (copies, few) =
      resend-Copies log (held_datagrams x.ring missing)
        (held_datagrams-All (λ (d : List ℕ). In d log) x.ring missing h) in
    (h, copies, few)
step-Copies log x (handle_call body_end_ack) now own h = unfold Xfer.handle in (h, tt, omega arith)
step-Copies log x (handle_call (body_data ts payload)) now own h =
    unfold Xfer.handle in (h, tt, omega arith)
step-Copies log x (handle_call (body_end n)) now own h = unfold Xfer.handle in (h, tt, omega arith)
step-Copies log x (handle_call (body_keepalive n)) now own h =
    unfold Xfer.handle in (h, tt, omega arith)
step-Copies log x tick_call now own h = unfold Xfer.tick in ground (arith, h)

module _ {Uuid Key Addr : Type 0} (uuid : UuidApi Uuid) (aead : AeadApi Key) (key : Key)
    (id : Uuid) where
  -- From one state of a tap to another by at most `n` calls of its state machine, with what went out;
  -- the frames that these took are some of `may`, in order.
  pub record Ran (n : ℕ) (may : Frames) (s : Sender Uuid Key Addr) (log : List (List ℕ))
      (s' : Sender Uuid Key Addr) (out : List (List ℕ)) : Type 0 where
    pub calls : List (Call × Instant)
    pub few : length calls ≤ n
    pub state : (run s.state calls).0 ≡ s'.state
    pub sends : Sends uuid aead key id log (run s.state calls).1 out
    pub pushes : Sublist (pushed (run s.state calls).1) may
    pub tied : Tied uuid aead key id (log ++ out) s'

  pub Ran-refl :
      (n : ℕ) (may : Frames) (s : Sender Uuid Key Addr) (log : List (List ℕ))
      → Tied uuid aead key id log s
      → Ran n may s log s []
  unfolding run
  Ran-refl n may s log t = record {
    calls = [];
    few = omega arith;
    state = refl;
    sends = refl;
    pushes = tt;
    tied = Tied-left uuid aead key id log [] s t;
  }

  pub Ran-trans :
      (n m : ℕ) (may may' : Frames) (s s' s'' : Sender Uuid Key Addr) (log out out' : List (List ℕ))
      → Ran n may s log s' out
      → Ran m may' s' (log ++ out) s'' out'
      → Ran (n + m) (may ++ may') s log s'' (out ++ out')
  Ran-trans n m may may' s s' s'' log out out' r q =
      let (p, e) = run-append s.state r.calls q.calls in
      record {
        calls = r.calls ++ q.calls;
        few = omega (arith, r.few, q.few, length-append {0} r.calls q.calls);
        state = p ∙ (ap (λ (x : XferSender). (run x q.calls).0) r.state ∙ q.state);
        sends = rw e (
            Sends-append uuid aead key id (run s.state r.calls).1 _ log out out' r.sends
              (rw r.state q.sends));
        pushes =
            rw (e, pushed-append (run s.state r.calls).1 (run (run s.state r.calls).0 q.calls).1)
              (Sublist-append (pushed (run s.state r.calls).1) may _ may' r.pushes
                (rw r.state q.pushes));
        tied = rw⁻¹ (append_assoc log out out') q.tied;
      }

  pub Ran-weaken :
      (n m : ℕ) (may may' : Frames) (s s' : Sender Uuid Key Addr) (log out : List (List ℕ))
      → n ≤ m
      → ((fs : Frames) → Sublist fs may → Sublist fs may')
      → Ran n may s log s' out
      → Ran m may' s log s' out
  Ran-weaken n m may may' s s' log out h k r = record {
    calls = r.calls;
    few = omega (arith, r.few);
    state = r.state;
    sends = r.sends;
    pushes = k _ r.pushes;
    tied = r.tied;
  }

  -- One call and the dispatch of its events.
  pub dispatch-Ran :
      {Io : Type 0} (may : Frames) (s : Sender Uuid Key Addr) (log : List (List ℕ)) (c : Call)
      (now : Instant) (sends : ℕ → Option Io)
      → Own c
      → Sublist (pushed (step s.state c now).1) may
      → Tied uuid aead key id log s
      → let r = dispatch uuid aead s (step s.state c now) sends in Ran 3 may s log r.0 r.1
  unfolding run
  dispatch-Ran may s log c now sends own offered t =
      let x : XferSender = (step s.state c now).0 in
      let events : List SendEvent = (step s.state c now).1 in
      let (held, copies, few) = step-Copies log s.state c now own t.held in
      let tied : Tied uuid aead key id log (record s { state = x }) = record {
        same_key = t.same_key;
        same_id = t.same_id;
        held = held;
      } in
      let r =
        dispatch-Dispatched uuid aead key id (record s { state = x }) log events sends 0 tied
          copies in
      record {
        calls = (c, now) ∷ r.calls;
        few = omega (arith, r.few, few);
        state = ap (λ (p : XferSender × List SendEvent). p.0) r.state;
        sends = rw r.state (rw (append-nil events) r.sends);
        pushes = rw r.state (rw (append-nil events) offered);
        tied = r.tied;
      }

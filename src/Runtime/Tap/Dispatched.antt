-- ===== src/Runtime/Tap/Dispatched.antt =====
-- One `dispatch` of protofish4/src/sender.rs, as calls of the state machine and datagrams sent.
use protofish4_rs.Base.{
  ℕ, suc, ◌+◌, ◌≤◌, ◌≡◌, refl, sym, inl, inr, List, [], ◌∷◌, ◌++◌, append-nil, append_assoc, Option,
  Bool, true, false, ok, arith, length, All, Option-cases, Result-cases,
}
use protofish4_rs.Types.{XferSeq, Instant, UuidApi}
use protofish4_rs.Frame.{Body}
use protofish4_rs.Crypto.{AeadApi}
use protofish4_rs.Ring.Entries.{Each, push-Each}
use protofish4_rs.Sender as Xfer
use protofish4_rs.Sender.{XferSender, SendEvent, emit, resend, completed, failed}
use protofish4_rs.Sender.Runs.{Call, sealed_call, run}
use protofish4_rs.Runtime.Tap.{Sender, is_data, send_each, record_if, seal_packet, dispatch_from}
use protofish4_rs.Runtime.Tap.Sending.{
  In, In-right, Each-In-left, Copies, Copies-left, Sends, nothing_sent,
}

run_sealed :
    (x : XferSender) (seq : XferSeq) (d : List ℕ) (calls : List (Call × Instant)) (y : XferSender)
    → run (Xfer.record_sealed x seq d) calls ≡ (y, [])
    → run x ((sealed_call seq d, 0) ∷ calls) ≡ (y, [])
unfolding run Xfer.Runs.step
run_sealed x seq d calls y h = rw h refl

In-last : (d : List ℕ) (log : List (List ℕ)) → In d (log ++ (d ∷ []))
In-last d log = In-right d log (d ∷ []) (inl refl)

-- What a loop of sends got out, and whether that is all.
send_each_lem :
    {Io : Type 0} (ds : List (List ℕ)) (sends : ℕ → Option Io) (i : ℕ) (P : List ℕ → Type 0)
    → All P ds
    → All P (send_each ds sends i).0
unfolding send_each
send_each_lem [] sends i P h = tt
send_each_lem (d ∷ ds) sends i P h = elim (Option-cases (sends i)) [
  | inl q ↦ rw (q, send_each) (h.0, send_each_lem ds sends (suc i) P h.1)
  | inr (e, q) ↦ rw (q, send_each) tt
]

module _ {Uuid Key Addr : Type 0} (uuid : UuidApi Uuid) (aead : AeadApi Key) (key : Key)
    (id : Uuid) where
  -- The tap of that key and request, whose ring holds only datagrams that went out.
  pub record Tied (log : List (List ℕ)) (s : Sender Uuid Key Addr) : Type 0 where
    pub same_key : s.key ≡ key
    pub same_id : s.request_id ≡ id
    pub held : Each (λ (d : List ℕ). In d log) s.state.ring.entries

  pub Tied-left :
      (log out : List (List ℕ)) (s : Sender Uuid Key Addr) → Tied log s → Tied (log ++ out) s
  Tied-left log out s t = record {
    same_key = t.same_key;
    same_id = t.same_id;
    held = Each-In-left s.state.ring.entries log out t.held;
  }

  -- The calls of the state machine between the states of two taps, and what went out.
  pub record Dispatched (n : ℕ) (s : Sender Uuid Key Addr) (log : List (List ℕ))
      (events : List SendEvent) (s' : Sender Uuid Key Addr) (out : List (List ℕ)) : Type 0 where
    pub calls : List (Call × Instant)
    pub few : length calls ≤ n
    pub state : run s.state calls ≡ (s'.state, [])
    pub sends : Sends uuid aead key id log events out
    pub tied : Tied (log ++ out) s'

  nothing-Dispatched :
      (n : ℕ) (s : Sender Uuid Key Addr) (log : List (List ℕ)) (events : List SendEvent)
      → Tied log s
      → Dispatched n s log events s []
  unfolding run
  nothing-Dispatched n s log events t = record {
    calls = [];
    few = omega arith;
    state = refl;
    sends = nothing_sent uuid aead key id log events;
    tied = Tied-left log [] s t;
  }

  -- After an emitted packet.
  record_if-Dispatched :
      (b : Bool) (n : ℕ) (s : Sender Uuid Key Addr) (log : List (List ℕ)) (seq : XferSeq)
      (body : Body) (d : List ℕ) (events : List SendEvent) (s' : Sender Uuid Key Addr)
      (out : List (List ℕ))
      → seal_packet uuid aead key id seq body ≡ ok d
      → Dispatched n (record_if b s seq d) (log ++ (d ∷ [])) events s' out
      → Dispatched (suc n) s log (emit seq body ∷ events) s' (d ∷ out)
  unfolding record_if
  record_if-Dispatched true n s log seq body d events s' out sealed r = record {
    calls = (sealed_call seq d, 0) ∷ r.calls;
    few = omega (arith, r.few);
    state = run_sealed s.state seq d r.calls s'.state r.state;
    sends = inr (d, out, refl, sealed, r.sends);
    tied = rw⁻¹ (append_assoc log (d ∷ []) out) r.tied;
  }
  record_if-Dispatched false n s log seq body d events s' out sealed r = record {
    calls = r.calls;
    few = omega (arith, r.few);
    state = r.state;
    sends = inr (d, out, refl, sealed, r.sends);
    tied = rw⁻¹ (append_assoc log (d ∷ []) out) r.tied;
  }

  record_if-Tied :
      (b : Bool) (s : Sender Uuid Key Addr) (log : List (List ℕ)) (seq : XferSeq) (d : List ℕ)
      → Tied log s
      → Tied (log ++ (d ∷ [])) (record_if b s seq d)
  unfolding record_if Xfer.record_sealed
  record_if-Tied true s log seq d t = record {
    same_key = t.same_key;
    same_id = t.same_id;
    held =
        push-Each (λ (y : List ℕ). In y (log ++ (d ∷ []))) s.state.ring seq d
          (Tied-left log (d ∷ []) s t).held (In-last d log);
  }
  record_if-Tied false s log seq d t = Tied-left log (d ∷ []) s t

  -- However `dispatch` ends, it sent these events, in order and as far as it came.
  pub dispatch-Dispatched :
      {Io : Type 0} (s : Sender Uuid Key Addr) (log : List (List ℕ)) (events : List SendEvent)
      (sends : ℕ → Option Io) (i : ℕ)
      → Tied log s
      → Copies log events
      → let r = dispatch_from uuid aead s events sends i in
        Dispatched (length events) s log events r.0 r.1
  unfolding dispatch_from
  dispatch-Dispatched s log [] sends i t h = nothing-Dispatched 0 s log [] t
  dispatch-Dispatched s log (emit seq body ∷ events) sends i t h =
      elim (Result-cases (seal_packet uuid aead s.key s.request_id seq body)) [
        | inr (e, p) ↦ rw (p, dispatch_from) (nothing-Dispatched _ s log (emit seq body ∷ events) t)
        | inl (d, p) ↦ elim (Option-cases (sends i)) [
          | inr (e, q) ↦
              rw (p, dispatch_from) (rw q (nothing-Dispatched _ s log (emit seq body ∷ events) t))
          | inl q ↦
              rw (p, dispatch_from)
                (rw q (
                  record_if-Dispatched (is_data body) (length events) s log seq body d events _ _
                    (rw (t.same_key, t.same_id) at p)
                    (dispatch-Dispatched (record_if (is_data body) s seq d) (log ++ (d ∷ [])) events
                      sends (suc i) (record_if-Tied (is_data body) s log seq d t)
                      (Copies-left log (d ∷ []) events h))))
        ]
      ]
  dispatch-Dispatched s log (resend ds ∷ events) sends i t h =
      let copies : List (List ℕ) = (send_each ds sends i).0 in
      let all : All (λ (d : List ℕ). In d log) copies =
        send_each_lem ds sends i (λ (d : List ℕ). In d log) h.0 in
      elim (Option-cases (send_each ds sends i).1) [
        | inr (e, p) ↦
            rw (p, dispatch_from)
              (record {
                calls = [];
                few = omega arith;
                state = unfold run in refl;
                sends = (
                  copies,
                  [],
                  sym (append-nil copies),
                  all,
                  nothing_sent uuid aead key id (log ++ copies) events,
                );
                tied = Tied-left log copies s t;
              })
        | inl p ↦
            let r =
              dispatch-Dispatched s (log ++ copies) events sends (i + length ds)
                (Tied-left log copies s t) (Copies-left log copies events h.1) in
            rw (p, dispatch_from)
              (record {
                calls = r.calls;
                few = omega (arith, r.few);
                state = r.state;
                sends = (copies, _, refl, all, r.sends);
                tied = rw⁻¹ (append_assoc log copies _) r.tied;
              })
      ]
  dispatch-Dispatched s log (completed ∷ events) sends i t h =
      let r = dispatch-Dispatched s log events sends i t h in
      record {
        calls = r.calls;
        few = omega (arith, r.few);
        state = r.state;
        sends = r.sends;
        tied = r.tied;
      }
  dispatch-Dispatched s log (failed Xfer.no_ack ∷ events) sends i t h =
      nothing-Dispatched _ s log (failed Xfer.no_ack ∷ events) t
  dispatch-Dispatched s log (failed Xfer.finalize_timed_out ∷ events) sends i t h =
      nothing-Dispatched _ s log (failed Xfer.finalize_timed_out ∷ events) t

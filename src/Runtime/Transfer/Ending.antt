-- ===== src/Runtime/Transfer/Ending.antt =====
-- An entry of protofish4/src/receiver.rs to which every frame and the end of a transfer came.
use protofish4_rs.Base.{
  ℕ, suc, ◌+◌, ◌≤◌, ◌<◌, ◌≡◌, ◌≢◌, refl, sym, ap, ◌∙◌, inl, inr, List, [], ◌∷◌, true, arith, All,
  Bool-cases, length, ◌==◌, ==_iff,
}
use protofish4_rs.Types.{XferSeq, TimestampMs, Instant, RelOutcome, UuidApi}
use protofish4_rs.Frame.{
  Body, body_data, body_end, body_end_ack, body_ack, body_nack, body_keepalive,
}
use protofish4_rs.Crypto.{AeadApi}
use protofish4_rs.Config.{ReceiverConfig}
use protofish4_rs.Collections.Sets.{contains}
use protofish4_rs.Receiver
use protofish4_rs.Receiver.{RecvEvent}
use protofish4_rs.Receiver.Events.{outcomes}
use protofish4_rs.Receiver.Final.{Ends, run_final}
use protofish4_rs.Receiver.Completion.{arrivals, run_completes}
use protofish4_rs.Receiver.Runs
use protofish4_rs.Receiver.Runs.{AllFit}
use protofish4_rs.Runtime.Entry.{Frame, armed}
use protofish4_rs.Runtime.Entry.Runs.{
  Call, packet_call, tick_call, report_call, receiver_calls, told_outcomes, first_if, run,
}
use protofish4_rs.Runtime.Entry.Streams.{from_armed, told_armed}
use protofish4_rs.Runtime.Endpoint.Reaching.{Brings}
use protofish4_rs.Runtime.Transfer.{numbered}
use protofish4_rs.Runtime.Transfer.Entries.{AllCarry, calls-AllAnnounce}

-- A property of the numbered frames, at one of the numbers.
numbered_at :
    (P : Frame → Type 0) (e t : ℕ) (frames : List (TimestampMs × List ℕ))
    → All P (numbered e frames)
    → e ≤ t
    → t < e + length frames
    → (f : Frame) × (f.seq ≡ t) × P f
numbered_at P e t [] all low high = absurd (omega (arith, low, high))
numbered_at P e t ((ts, payload) ∷ frames) all low high = elim (Bool-cases (e == t)) [
  | inl p ↦ (record { seq = e; ts = ts; payload = payload }, (==_iff e t).0 p, all.0)
  | inr p ↦
      let other : e ≢ t = λ q. absurd (ground (arith, p, (==_iff e t).1 q)) in
      numbered_at P (suc e) t frames all.1 (omega (arith, low, other)) (omega (arith, high))
]

-- What comes later counts, whatever comes first.
later_arrives :
    (seq s : XferSeq) (b : Body) (now : Instant) (calls : List (Runs.Call × Instant))
    → contains seq (arrivals calls) ≡ true
    → contains seq (arrivals ((Runs.handle_call s b, now) ∷ calls)) ≡ true
later_arrives seq s (body_data ts payload) now calls h = ground (arith, h)
later_arrives seq s (body_end f) now calls h = h
later_arrives seq s body_end_ack now calls h = h
later_arrives seq s (body_ack c hi b) now calls h = h
later_arrives seq s (body_nack m) now calls h = h
later_arrives seq s (body_keepalive l) now calls h = h

later-Ends :
    (s : XferSeq) (b : Body) (now : Instant) (calls : List (Runs.Call × Instant))
    → Ends calls
    → Ends ((Runs.handle_call s b, now) ∷ calls)
later-Ends s (body_data ts payload) now calls h = h
later-Ends s (body_end f) now calls h = tt
later-Ends s body_end_ack now calls h = h
later-Ends s (body_ack c hi b) now calls h = h
later-Ends s (body_nack m) now calls h = h
later-Ends s (body_keepalive l) now calls h = h

module _ {Uuid Key Addr : Type 0} (uuid : UuidApi Uuid) (aead : AeadApi Key) where
  Brings-arrivals :
      (seq : XferSeq) (ts : TimestampMs) (payload : List ℕ) (calls : List (Call Addr × Instant))
      → Brings uuid aead seq (body_data ts payload) calls
      → contains seq (arrivals (receiver_calls calls)) ≡ true
  Brings-arrivals seq ts payload [] h = elim h [ ]
  Brings-arrivals seq ts payload ((packet_call s b from w, now) ∷ calls) (inl e) =
      let found : contains s
            (arrivals ((Runs.handle_call s (body_data ts payload), now) ∷ receiver_calls calls))
          ≡ true =
        ground (arith, (==_iff s s).1 refl) in
      rw (sym e.0, e.1) found
  Brings-arrivals seq ts payload ((packet_call s b from w, now) ∷ calls) (inr h) =
      later_arrives seq s b now (receiver_calls calls) (Brings-arrivals seq ts payload calls h)
  Brings-arrivals seq ts payload ((tick_call w, now) ∷ calls) h =
      Brings-arrivals seq ts payload calls h
  Brings-arrivals seq ts payload ((report_call ms, now) ∷ calls) h =
      Brings-arrivals seq ts payload calls h

  Brings-Ends :
      (seq f : XferSeq) (calls : List (Call Addr × Instant))
      → Brings uuid aead seq (body_end f) calls
      → Ends (receiver_calls calls)
  Brings-Ends seq f [] h = elim h [ ]
  Brings-Ends seq f ((packet_call s b from w, now) ∷ calls) (inl e) = rw (e.1) tt
  Brings-Ends seq f ((packet_call s b from w, now) ∷ calls) (inr h) =
      later-Ends s b now (receiver_calls calls) (Brings-Ends seq f calls h)
  Brings-Ends seq f ((tick_call w, now) ∷ calls) h = Brings-Ends seq f calls h
  Brings-Ends seq f ((report_call ms, now) ∷ calls) h = Brings-Ends seq f calls h

  -- An entry to which all of it came has told one outcome.
  pub entry_ends :
      (key : Key) (cfg : ReceiverConfig) (start : Instant) (id : Uuid)
      (calls : List (Call Addr × Instant)) (frames : List (TimestampMs × List ℕ))
      (end_seq : XferSeq)
      → AllFit (receiver_calls calls)
      → AllCarry (numbered 1 frames) (length frames) calls
      → All
          (λ (f : Frame). Brings {Addr = Addr} uuid aead f.seq (body_data f.ts f.payload) calls)
          (numbered 1 frames)
      → Brings uuid aead end_seq (body_end (length frames)) calls
      → (o : RelOutcome) × (told_outcomes (run uuid aead (armed key cfg start) id calls).1 ≡ o ∷ [])
  entry_ends key cfg start id calls frames end_seq fits carry came ended =
      let rs = receiver_calls calls in
      let evs : List RecvEvent = (Runs.run (Receiver.new cfg start) rs).1 in
      let final =
        run_final (length frames) (Receiver.new cfg start) rs
          (calls-AllAnnounce (numbered 1 frames) (length frames) calls carry)
          (Brings-Ends end_seq (length frames) calls ended) in
      let all : (t : XferSeq) → 0 < t → t ≤ length frames → contains t (arrivals rs) ≡ true =
        λ t low high.
          let (f, same, brings) = numbered_at _ 1 t frames came (omega arith) (omega arith) in
          rw same at (Brings-arrivals f.seq f.ts f.payload calls brings) in
      let (over, (o, said)) = run_completes cfg start rs (length frames) fits final all in
      let p = from_armed uuid aead key cfg start id calls in
      (o, p.outcome ∙ told_armed Key Addr key cfg start (outcomes evs) ∙ ap (first_if true) said)

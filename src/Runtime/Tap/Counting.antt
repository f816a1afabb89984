-- ===== src/Runtime/Tap/Counting.antt =====
-- The number of the next frame of a tap of protofish4/src/sender.rs, over its calls.
use protofish4_rs.Base.{
  ℕ, ◌+◌, ◌≤◌, ◌<◌, ◌≡◌, refl, ◌∙◌, ap, inl, inr, List, [], ◌∷◌, Option, none, some, ok, err, arith,
  length, Option-cases, Result-cases, Bool-cases,
}
use protofish4_rs.Types.{TimestampMs, Instant, UuidApi, u32_max}
use protofish4_rs.Frame.{
  Body, body_data, body_end, body_end_ack, body_ack, body_nack, body_keepalive,
}
use protofish4_rs.Crypto.{AeadApi}
use protofish4_rs.Sender as Xfer
use protofish4_rs.Sender.{XferSender, SendEvent}
use protofish4_rs.Sender.Runs.{to_list}
use protofish4_rs.Runtime.Tap.{
  Sender, Step, Loop, Turn, and_then, and_loop, dispatch, open_reply, pump_packet, pump_timers,
  pump_once, send_frame, wait_done, finish,
}
use protofish4_rs.Runtime.Tap.Dispatching.{dispatch-Kept}
use protofish4_rs.Runtime.Tap.Answered.{Input-cases}
use protofish4_rs.Runtime.Tap.Verbatim.{Op, frame_op, finish_op, act, offered, run_ops}

handle_next : (x : XferSender) (body : Body) → (Xfer.handle x body).0.next_seq ≡ x.next_seq
unfolding Xfer.handle
handle_next x (body_ack c hi b) = refl
handle_next x (body_nack missing) = refl
handle_next x body_end_ack = refl
handle_next x (body_data ts payload) = refl
handle_next x (body_end n) = refl
handle_next x (body_keepalive n) = refl

tick_next : (x : XferSender) (now : Instant) → (Xfer.tick x now).0.next_seq ≡ x.next_seq
unfolding Xfer.tick
tick_next x now = ground arith

finish_next : (x : XferSender) (now : Instant) → (Xfer.finish x now).0.next_seq ≡ x.next_seq
unfolding Xfer.finish
finish_next x now = ground arith

push_next :
    (x : XferSender) (ts : TimestampMs) (payload : List ℕ) (now : Instant)
    (tried : Option SendEvent)
    → x.next_seq < u32_max
    → (Xfer.push_frame x ts payload now).1 ≡ tried
    → (Xfer.push_frame x ts payload now).0.next_seq ≡ x.next_seq + length (to_list tried)
unfolding Xfer.push_frame
push_next x ts payload now none h e = ground arith
push_next x ts payload now (some ev) h e = ground arith

module _ {Uuid Key Addr Io : Type 0} where
  and_then_next :
      (n : ℕ) (p : Step Uuid Key Addr Io) (f : Sender Uuid Key Addr → Step Uuid Key Addr Io)
      → p.0.state.next_seq ≡ n
      → (f p.0).0.state.next_seq ≡ p.0.state.next_seq
      → (and_then p f).0.state.next_seq ≡ n
  and_then_next n (s, out, err e) f h k = h
  and_then_next n (s, out, ok u) f h k = k ∙ h

  and_loop_next :
      (n : ℕ) (p : Step Uuid Key Addr Io) (f : Sender Uuid Key Addr → Loop Uuid Key Addr Io)
      → p.0.state.next_seq ≡ n
      → (f p.0).0.state.next_seq ≡ p.0.state.next_seq
      → (and_loop p f).0.state.next_seq ≡ n
  and_loop_next n (s, out, err e) f h k = h
  and_loop_next n (s, out, ok u) f h k = k ∙ h

  -- A loop behind a step, if it returns well.
  and_loop_well :
      (n : ℕ) (p : Step Uuid Key Addr Io) (f : Sender Uuid Key Addr → Loop Uuid Key Addr Io)
      → ((f p.0).2 ≡ some (ok tt) → (f p.0).0.state.next_seq ≡ n)
      → (and_loop p f).2 ≡ some (ok tt)
      → (and_loop p f).0.state.next_seq ≡ n
  and_loop_well n (s, out, err e) f h k = absurd (ground arith)
  and_loop_well n (s, out, ok u) f h k = h k

module _ {Uuid Key Addr Io : Type 0} (uuid : UuidApi Uuid) (aead : AeadApi Key) where
  dispatch_next :
      (s : Sender Uuid Key Addr) (p : XferSender × List SendEvent) (sends : ℕ → Option Io)
      → (dispatch uuid aead s p sends).0.state.next_seq ≡ p.0.next_seq
  dispatch_next s (x, events) sends =
      (dispatch-Kept uuid aead (record s { state = x }) events sends 0).next_seq

  packet_next :
      (s : Sender Uuid Key Addr) (t : Turn Io)
      → (pump_packet uuid aead s t).0.state.next_seq ≡ s.state.next_seq
  unfolding pump_packet
  packet_next s t = elim (Input-cases t.input) [
    | inr (inl (e, q)) ↦ rw (q, pump_packet) refl
    | inr (inr q) ↦ rw (q, pump_packet) refl
    | inl (d, q) ↦ elim (Result-cases (open_reply uuid aead s.key d)) [
      | inr (e, r) ↦ rw (q, pump_packet) (rw r refl)
      | inl (body, r) ↦
          rw (q, pump_packet)
            (rw r (
              dispatch_next s (Xfer.handle s.state body) t.handle_sends ∙ handle_next s.state body))
    ]
  ]

  turn_next :
      (s : Sender Uuid Key Addr) (t : Turn Io)
      → (pump_once uuid aead s t).0.state.next_seq ≡ s.state.next_seq
  unfolding pump_once
  turn_next s t =
      let q : Sender Uuid Key Addr = (pump_packet uuid aead s t).0 in
      and_then_next s.state.next_seq (pump_packet uuid aead s t) (pump_timers uuid aead t)
        (packet_next s t)
        (dispatch_next q (Xfer.tick q.state t.ticked_at) t.tick_sends
          ∙ tick_next q.state t.ticked_at)

  wait_next :
      (turns : List (Turn Io)) (s : Sender Uuid Key Addr)
      → (wait_done uuid aead turns s).0.state.next_seq ≡ s.state.next_seq
  unfolding wait_done
  wait_next [] s = refl
  wait_next (t ∷ turns) s = elim (Bool-cases (Xfer.is_done s.state)) [
    | inl p ↦ rw (p, wait_done) refl
    | inr p ↦
        rw (p, wait_done)
          (and_loop_next s.state.next_seq (pump_once uuid aead s t) (wait_done uuid aead turns)
            (turn_next s t) (wait_next turns (pump_once uuid aead s t).0))
  ]

  finish_keeps :
      (s : Sender Uuid Key Addr) (now : Instant) (sends : ℕ → Option Io) (turns : List (Turn Io))
      → (finish uuid aead s now sends turns).0.state.next_seq ≡ s.state.next_seq
  unfolding finish
  finish_keeps s now sends turns =
      let p = Xfer.finish s.state now in
      let q : Step Uuid Key Addr Io = dispatch uuid aead s (p.0, to_list p.1) sends in
      and_loop_next s.state.next_seq q (wait_done uuid aead turns)
        (dispatch_next s (p.0, to_list p.1) sends ∙ finish_next s.state now) (wait_next turns q.0)

  -- A `send_frame` that returns well has used one number.
  frame_counts :
      (turns : List (Turn Io)) (s : Sender Uuid Key Addr) (ts : TimestampMs) (payload : List ℕ)
      (now : Instant) (sends : ℕ → Option Io)
      → s.state.next_seq < u32_max
      → (send_frame uuid aead s ts payload now sends turns).2 ≡ some (ok tt)
      → (send_frame uuid aead s ts payload now sends turns).0.state.next_seq ≡ s.state.next_seq + 1
  unfolding send_frame
  frame_counts [] s ts payload now sends h fine =
      let x : XferSender = (Xfer.push_frame s.state ts payload now).0 in
      elim (Option-cases (Xfer.push_frame s.state ts payload now).1) [
        | inl q ↦ absurd (let r = rw (q, send_frame) at fine in ground arith)
        | inr (ev, q) ↦
            rw (q, send_frame)
              (and_loop_next (s.state.next_seq + 1) (dispatch uuid aead s (x, ev ∷ []) sends) _
                (dispatch_next s (x, ev ∷ []) sends
                  ∙ push_next s.state ts payload now (some ev) h q)
                refl)
      ]
  frame_counts (t ∷ turns) s ts payload now sends h fine =
      let x : XferSender = (Xfer.push_frame s.state ts payload now).0 in
      elim (Option-cases (Xfer.push_frame s.state ts payload now).1) [
        | inr (ev, q) ↦
            rw (q, send_frame)
              (and_loop_next (s.state.next_seq + 1) (dispatch uuid aead s (x, ev ∷ []) sends) _
                (dispatch_next s (x, ev ∷ []) sends
                  ∙ push_next s.state ts payload now (some ev) h q)
                refl)
        | inl q ↦
            let s' : Sender Uuid Key Addr = record s { state = x } in
            let p : Step Uuid Key Addr Io = pump_once uuid aead s' t in
            let same : p.0.state.next_seq ≡ s.state.next_seq =
              omega (arith, turn_next s' t, push_next s.state ts payload now none h q) in
            rw (q, send_frame)
              (and_loop_well (s.state.next_seq + 1) p _
                (λ fine'.
                  frame_counts turns p.0 ts payload t.tried_at t.try_sends (omega (arith, same))
                    fine'
                  ∙ ap (λ (n : ℕ). n + 1) same)
                (rw (q, send_frame) at fine))
      ]

  -- Every `send_frame` of these calls returns well.
  abbrev pub AllTaken : Sender Uuid Key Addr → List (Op Io) → Type 0
  AllTaken s [] = Unit
  AllTaken s (frame_op ts payload d ∷ ops) =
      ((act uuid aead s (frame_op ts payload d)).2 ≡ some (ok tt))
      × AllTaken (act uuid aead s (frame_op ts payload d)).0 ops
  AllTaken s (finish_op d ∷ ops) = AllTaken (act uuid aead s (finish_op d)).0 ops

  pub ops_count :
      (ops : List (Op Io)) (s : Sender Uuid Key Addr)
      → s.state.next_seq + length (offered ops) ≤ u32_max
      → AllTaken s ops
      → (run_ops uuid aead s ops).0.state.next_seq ≡ s.state.next_seq + length (offered ops)
  unfolding run_ops
  ops_count [] s h fine = omega arith
  ops_count (frame_op ts payload d ∷ ops) s h fine =
      let one = frame_counts d.turns s ts payload d.start d.sends (omega arith) fine.0 in
      let s' : Sender Uuid Key Addr = (act uuid aead s (frame_op ts payload d)).0 in
      omega (arith, one, ops_count ops s' (omega (arith, one)) fine.1)
  ops_count (finish_op d ∷ ops) s h fine =
      let same = finish_keeps s d.start d.sends d.turns in
      let s' : Sender Uuid Key Addr = (act uuid aead s (finish_op d)).0 in
      omega (arith, same, ops_count ops s' (omega (arith, same)) fine)

-- ===== src/Runtime/Tap/Loops.antt =====
-- The loops of protofish4/src/sender.rs as calls of the state machine, and what they send.
use protofish4_rs.Base.{
  ℕ, ◌+◌, ◌*◌, ◌≡◌, inl, inr, List, [], ◌∷◌, ◌++◌, Option, none, some, ok, err, arith, length,
  Option-cases, Result-cases, Bool-cases, Sublist, Sublist-left,
}
use protofish4_rs.Types.{TimestampMs, Instant, UuidApi}
use protofish4_rs.Crypto.{AeadApi}
use protofish4_rs.Sender as Xfer
use protofish4_rs.Sender.{XferSender, SendEvent}
use protofish4_rs.Sender.Runs.{push_call, finish_call, handle_call, tick_call, to_list, step}
use protofish4_rs.Runtime.Tap.{
  Sender, Step, Loop, Turn, and_then, and_loop, dispatch, dispatch_from, open_reply, pump_packet,
  pump_timers, pump_once, send_frame, wait_done, finish,
}
use protofish4_rs.Runtime.Tap.Dispatched.{Tied}
use protofish4_rs.Sender.Frames.{pushed, handle_pushes, tick_pushes, push_pushes, finish_pushes}
use protofish4_rs.Runtime.Tap.Calls.{Frames, Ran, Ran-refl, Ran-trans, Ran-weaken, dispatch-Ran}
use protofish4_rs.Runtime.Tap.Answered.{Input-cases}

module _ {Uuid Key Addr Io : Type 0} (uuid : UuidApi Uuid) (aead : AeadApi Key) (key : Key)
    (id : Uuid) where
  -- A step, and a loop or another step that starts where it ended.
  and_then-Ran :
      (n m : ℕ) (may may' : Frames) (s : Sender Uuid Key Addr) (log : List (List ℕ))
      (p : Step Uuid Key Addr Io) (f : Sender Uuid Key Addr → Step Uuid Key Addr Io)
      → Ran uuid aead key id n may s log p.0 p.1
      → (Tied uuid aead key id (log ++ p.1) p.0
          → Ran uuid aead key id m may' p.0 (log ++ p.1) (f p.0).0 (f p.0).1)
      → Ran uuid aead key id (n + m) (may ++ may') s log (and_then p f).0 (and_then p f).1
  and_then-Ran n m may may' s log (s', out, err e) f r k =
      Ran-weaken uuid aead key id n (n + m) may (may ++ may') s s' log out (omega arith)
        (λ fs. Sublist-left fs may may') r
  and_then-Ran n m may may' s log (s', out, ok u) f r k =
      Ran-trans uuid aead key id n m may may' s s' (f s').0 log out (f s').1 r (k r.tied)

  and_loop-Ran :
      (n m : ℕ) (may may' : Frames) (s : Sender Uuid Key Addr) (log : List (List ℕ))
      (p : Step Uuid Key Addr Io) (f : Sender Uuid Key Addr → Loop Uuid Key Addr Io)
      → Ran uuid aead key id n may s log p.0 p.1
      → (Tied uuid aead key id (log ++ p.1) p.0
          → Ran uuid aead key id m may' p.0 (log ++ p.1) (f p.0).0 (f p.0).1)
      → Ran uuid aead key id (n + m) (may ++ may') s log (and_loop p f).0 (and_loop p f).1
  and_loop-Ran n m may may' s log (s', out, err e) f r k =
      Ran-weaken uuid aead key id n (n + m) may (may ++ may') s s' log out (omega arith)
        (λ fs. Sublist-left fs may may') r
  and_loop-Ran n m may may' s log (s', out, ok u) f r k =
      Ran-trans uuid aead key id n m may may' s s' (f s').0 log out (f s').1 r (k r.tied)

  packet-Ran :
      (s : Sender Uuid Key Addr) (log : List (List ℕ)) (t : Turn Io)
      → Tied uuid aead key id log s
      → let p = pump_packet uuid aead s t in Ran uuid aead key id 3 [] s log p.0 p.1
  unfolding pump_packet
  packet-Ran s log t tied = elim (Input-cases t.input) [
    | inr (inl (e, q)) ↦ rw (q, pump_packet) (Ran-refl uuid aead key id 3 [] s log tied)
    | inr (inr q) ↦ rw (q, pump_packet) (Ran-refl uuid aead key id 3 [] s log tied)
    | inl (d, q) ↦ elim (Result-cases (open_reply uuid aead s.key d)) [
      | inr (e, r) ↦ rw (q, pump_packet) (rw r (Ran-refl uuid aead key id 3 [] s log tied))
      | inl (body, r) ↦
          rw (q, pump_packet)
            (rw r (
              unfold step in
              dispatch-Ran uuid aead key id [] s log (handle_call body) 0 t.handle_sends tt
                (handle_pushes s.state body) tied))
    ]
  ]

  turn-Ran :
      (s : Sender Uuid Key Addr) (log : List (List ℕ)) (t : Turn Io)
      → Tied uuid aead key id log s
      → let p = pump_once uuid aead s t in Ran uuid aead key id 6 [] s log p.0 p.1
  unfolding pump_once step
  turn-Ran s log t tied =
      and_then-Ran 3 3 [] [] s log (pump_packet uuid aead s t) (pump_timers uuid aead t)
        (packet-Ran s log t tied)
        (λ after.
          dispatch-Ran uuid aead key id [] _ _ tick_call t.ticked_at t.tick_sends tt
            (tick_pushes _ t.ticked_at) after)

  wait-Ran :
      (turns : List (Turn Io)) (s : Sender Uuid Key Addr) (log : List (List ℕ))
      → Tied uuid aead key id log s
      → let p = wait_done uuid aead turns s in
        Ran uuid aead key id (length turns * 9) [] s log p.0 p.1
  unfolding wait_done
  wait-Ran [] s log tied = Ran-refl uuid aead key id 0 [] s log tied
  wait-Ran (t ∷ turns) s log tied = elim (Bool-cases (Xfer.is_done s.state)) [
    | inl p ↦ rw (p, wait_done) (Ran-refl uuid aead key id _ [] s log tied)
    | inr p ↦
        rw (p, wait_done)
          (Ran-weaken uuid aead key id (6 + length turns * 9) _ [] [] s _ log _ (omega arith)
            (λ fs h. h)
            (and_loop-Ran 6 (length turns * 9) [] [] s log (pump_once uuid aead s t)
              (wait_done uuid aead turns) (turn-Ran s log t tied)
              (λ after. wait-Ran turns _ _ after)))
  ]

  -- One try of `send_frame`, whether or not the frame is taken.
  try-Ran :
      (s : Sender Uuid Key Addr) (log : List (List ℕ)) (ts : TimestampMs) (payload : List ℕ)
      (now : Instant) (sends : ℕ → Option Io) (tried : Option SendEvent) (may : Frames)
      → Tied uuid aead key id log s
      → Sublist (pushed (to_list tried)) may
      → (Xfer.push_frame s.state ts payload now).1 ≡ tried
      → let x = (Xfer.push_frame s.state ts payload now).0 in
        let r = dispatch uuid aead s (x, to_list tried) sends in
        Ran uuid aead key id 3 may s log r.0 r.1
  unfolding step
  try-Ran s log ts payload now sends tried may tied some_of e = rw e at (
      dispatch-Ran uuid aead key id may s log (push_call ts payload) now sends tt (rw e some_of)
        tied)

  taken :
      (s : Sender Uuid Key Addr) (log : List (List ℕ)) (ts : TimestampMs) (payload : List ℕ)
      (now : Instant) (sends : ℕ → Option Io) (ev : SendEvent) (n : ℕ)
      → Tied uuid aead key id log s
      → (Xfer.push_frame s.state ts payload now).1 ≡ some ev
      → let x = (Xfer.push_frame s.state ts payload now).0 in
        let p = and_loop (dispatch uuid aead s (x, ev ∷ []) sends) (λ s'. (s', [], some (ok tt))) in
        Ran uuid aead key id (3 + n) ((ts, payload) ∷ []) s log p.0 p.1
  taken s log ts payload now sends ev n tied e =
      let x : XferSender = (Xfer.push_frame s.state ts payload now).0 in
      and_loop-Ran 3 n ((ts, payload) ∷ []) [] s log (dispatch uuid aead s (x, ev ∷ []) sends)
        (λ s'. (s', [], some (ok tt)))
        (try-Ran s log ts payload now sends (some ev) ((ts, payload) ∷ []) tied
          (push_pushes s.state ts payload now ev e) e)
        (λ after. Ran-refl uuid aead key id n [] _ _ after)

  pub frame-Ran :
      (turns : List (Turn Io)) (s : Sender Uuid Key Addr) (log : List (List ℕ)) (ts : TimestampMs)
      (payload : List ℕ) (now : Instant) (sends : ℕ → Option Io)
      → Tied uuid aead key id log s
      → let p = send_frame uuid aead s ts payload now sends turns in
        Ran uuid aead key id (3 + length turns * 9) ((ts, payload) ∷ []) s log p.0 p.1
  unfolding send_frame dispatch_from
  frame-Ran [] s log ts payload now sends tied =
      let x : XferSender = (Xfer.push_frame s.state ts payload now).0 in
      elim (Option-cases (Xfer.push_frame s.state ts payload now).1) [
        | inl q ↦ rw (q, send_frame) (try-Ran s log ts payload now sends none _ tied tt q)
        | inr (ev, q) ↦ rw (q, send_frame) (taken s log ts payload now sends ev 0 tied q)
      ]
  frame-Ran (t ∷ turns) s log ts payload now sends tied =
      let x : XferSender = (Xfer.push_frame s.state ts payload now).0 in
      elim (Option-cases (Xfer.push_frame s.state ts payload now).1) [
        | inr (ev, q) ↦ rw (q, send_frame) (taken s log ts payload now sends ev _ tied q)
        | inl q ↦
            rw (q, send_frame)
              (let r = try-Ran s log ts payload now sends none [] tied tt q in
                let s' : Sender Uuid Key Addr = record s { state = x } in
                Ran-weaken uuid aead key id (3 + (6 + (3 + length turns * 9))) _ _
                  ((ts, payload) ∷ []) s _ log _ (omega arith) (λ fs h. h)
                  (Ran-trans uuid aead key id 3 (6 + (3 + length turns * 9)) [] ((ts, payload) ∷ [])
                    s s' _ log [] _ r
                    (and_loop-Ran 6 (3 + length turns * 9) [] ((ts, payload) ∷ []) s' (log ++ [])
                      (pump_once uuid aead s' t)
                      (λ s''. send_frame uuid aead s'' ts payload t.tried_at t.try_sends turns)
                      (turn-Ran s' (log ++ []) t r.tied)
                      (λ after. frame-Ran turns _ _ ts payload t.tried_at t.try_sends after))))
      ]

  pub finish-Ran :
      (s : Sender Uuid Key Addr) (log : List (List ℕ)) (now : Instant) (sends : ℕ → Option Io)
      (turns : List (Turn Io))
      → Tied uuid aead key id log s
      → let p = finish uuid aead s now sends turns in
        Ran uuid aead key id (3 + length turns * 9) [] s log p.0 p.1
  unfolding finish step
  finish-Ran s log now sends turns tied =
      and_loop-Ran 3 (length turns * 9) [] [] s log _ (wait_done uuid aead turns)
        (dispatch-Ran uuid aead key id [] s log finish_call now sends tt (finish_pushes s.state now)
          tied)
        (λ after. wait-Ran turns _ _ after)

-- ===== src/Sender/Frames.antt =====
-- The packets that a sender of protofish4-proto/src/xfer/sender.rs emits over a run: its frames, in
-- order, and the end that it announces.
use protofish4_rs.Base.{
  ℕ, suc, ◌+◌, ◌-◌, ◌≤◌, ◌<◌, ◌≡◌, refl, ap, ◌∙◌, List, [], ◌∷◌, ◌++◌, arith, ◌⊎◌, inl, inr, length,
  subst, Sublist, true, false, some,
}
use protofish4_rs.Types.{XferSeq, TimestampMs, Instant, u32_mod, u32_max}
use protofish4_rs.Frame.{
  Body, body_data, body_end, body_end_ack, body_ack, body_nack, body_keepalive,
}
use protofish4_rs.Config.{SenderConfig}
use protofish4_rs.Sender.{
  XferSender, new, is_streaming, SendEvent, emit, resend, completed, failed, push_frame,
  record_sealed, finish, handle, tick, held_datagrams, resend_if_any,
}
use protofish4_rs.Sender.Runs.{
  to_list, Call, push_call, sealed_call, finish_call, handle_call, tick_call, step, run,
}

-- The timestamps and payloads of the frames among the emitted packets.
abbrev pub pushed : List SendEvent → List (TimestampMs × List ℕ)
pushed [] = []
pushed (emit seq (body_data ts payload) ∷ evs) = (ts, payload) ∷ pushed evs
pushed (_ ∷ evs) = pushed evs

pub pushed-append : (xs ys : List SendEvent) → pushed (xs ++ ys) ≡ pushed xs ++ pushed ys
pushed-append [] ys = refl
pushed-append (emit seq (body_data ts payload) ∷ xs) ys =
    ap (λ (t : List (TimestampMs × List ℕ)). (ts, payload) ∷ t) (pushed-append xs ys)
pushed-append (_ ∷ xs) ys = pushed-append xs ys

-- The packets are frames, numbered from `e` on, ends that announce `n`, and keepalives; their
-- numbers are 32-bit.
abbrev pub IsStream : ℕ → ℕ → List SendEvent → Type 0
IsStream e n [] = Unit
IsStream e n (emit seq (body_data ts payload) ∷ evs) =
    (seq ≡ e) × (seq < u32_mod) × IsStream (suc e) n evs
IsStream e n (emit seq (body_end f) ∷ evs) = (f ≡ n) × (seq < u32_mod) × IsStream e n evs
IsStream e n (emit seq (body_keepalive lost) ∷ evs) = (seq < u32_mod) × IsStream e n evs
IsStream e n (emit seq _ ∷ evs) = ⊥
IsStream e n (_ ∷ evs) = IsStream e n evs

-- No frame and no end.
abbrev Quiet : List SendEvent → Type 0
Quiet [] = Unit
Quiet (emit seq (body_keepalive lost) ∷ evs) = (seq < u32_mod) × Quiet evs
Quiet (emit seq _ ∷ evs) = ⊥
Quiet (_ ∷ evs) = Quiet evs

front-IsStream :
    (e n : ℕ) (out rest : List SendEvent)
    → Quiet out
    → IsStream e n rest
    → IsStream e n (out ++ rest)
front-IsStream e n [] rest h k = k
front-IsStream e n (emit seq (body_keepalive lost) ∷ out) rest h k =
    (h.0, front-IsStream e n out rest h.1 k)
front-IsStream e n (emit seq (body_data ts payload) ∷ out) rest h k = elim h [ ]
front-IsStream e n (emit seq (body_end f) ∷ out) rest h k = elim h [ ]
front-IsStream e n (emit seq body_end_ack ∷ out) rest h k = elim h [ ]
front-IsStream e n (emit seq (body_ack c hi b) ∷ out) rest h k = elim h [ ]
front-IsStream e n (emit seq (body_nack m) ∷ out) rest h k = elim h [ ]
front-IsStream e n (resend ds ∷ out) rest h k = front-IsStream e n out rest h k
front-IsStream e n (completed ∷ out) rest h k = front-IsStream e n out rest h k
front-IsStream e n (failed why ∷ out) rest h k = front-IsStream e n out rest h k

nothing_pushed : (out : List SendEvent) → Quiet out → pushed out ≡ []
nothing_pushed [] h = refl
nothing_pushed (emit seq (body_keepalive lost) ∷ out) h = nothing_pushed out h.1
nothing_pushed (emit seq (body_data ts payload) ∷ out) h = elim h [ ]
nothing_pushed (emit seq (body_end f) ∷ out) h = elim h [ ]
nothing_pushed (emit seq body_end_ack ∷ out) h = elim h [ ]
nothing_pushed (emit seq (body_ack c hi b) ∷ out) h = elim h [ ]
nothing_pushed (emit seq (body_nack m) ∷ out) h = elim h [ ]
nothing_pushed (resend ds ∷ out) h = nothing_pushed out h
nothing_pushed (completed ∷ out) h = nothing_pushed out h
nothing_pushed (failed why ∷ out) h = nothing_pushed out h

-- One call emits a frame, or the end, or neither.
abbrev Pushes : XferSender → XferSender → List SendEvent → Type 0
Pushes s t out =
    (ts : TimestampMs) × (payload : List ℕ) × (out ≡ emit s.next_seq (body_data ts payload) ∷ [])
    × (is_streaming s.state ≡ true)
    × (t.next_seq ≡ suc s.next_seq)

abbrev Finishes : XferSender → XferSender → List SendEvent → Type 0
Finishes s t out =
    (seq : XferSeq) × (out ≡ emit seq (body_end (s.next_seq - 1)) ∷ [])
    × (seq < u32_mod)
    × (t.next_seq ≡ s.next_seq)
    × (is_streaming t.state ≡ false)

abbrev Rests : XferSender → XferSender → List SendEvent → Type 0
Rests s t out =
    Quiet out
    × (t.next_seq ≡ s.next_seq)
    × (is_streaming s.state ≡ false → is_streaming t.state ≡ false)

resend-Quiet : (ds : List (List ℕ)) → Quiet (resend_if_any ds)
resend-Quiet [] = tt
resend-Quiet (d ∷ ds) = tt

step_cases :
    (s : XferSender) (c : Call) (now : Instant)
    → s.next_seq < u32_max
    → let r = step s c now in Pushes s r.0 r.1 ⊎ (Finishes s r.0 r.1 ⊎ Rests s r.0 r.1)
unfolding step
step_cases s (push_call ts payload) now h = unfold push_frame in ground arith
step_cases s (sealed_call seq d) now h = unfold record_sealed in inr (inr (tt, refl, λ e. e))
step_cases s finish_call now h = unfold finish in ground arith
step_cases s (handle_call (body_nack missing)) now h =
    unfold handle in inr (inr (resend-Quiet (held_datagrams s.ring missing), refl, λ e. e))
step_cases s (handle_call (body_ack c hi b)) now h = unfold handle in inr (inr (tt, refl, λ e. e))
step_cases s (handle_call body_end_ack) now h = unfold handle in inr (inr (tt, refl, λ e. refl))
step_cases s (handle_call (body_data ts payload)) now h =
    unfold handle in inr (inr (tt, refl, λ e. e))
step_cases s (handle_call (body_end n)) now h = unfold handle in inr (inr (tt, refl, λ e. e))
step_cases s (handle_call (body_keepalive n)) now h = unfold handle in inr (inr (tt, refl, λ e. e))
step_cases s tick_call now h = unfold tick in ground arith

-- Only `push_frame` emits a frame, and then that one.
pub handle_pushes : (s : XferSender) (body : Body) → Sublist (pushed (handle s body).1) []
unfolding handle
handle_pushes s (body_nack missing) =
    rw (nothing_pushed _ (resend-Quiet (held_datagrams s.ring missing))) tt
handle_pushes s (body_ack c hi b) = tt
handle_pushes s body_end_ack = tt
handle_pushes s (body_data ts payload) = tt
handle_pushes s (body_end n) = tt
handle_pushes s (body_keepalive n) = tt

pub tick_pushes : (s : XferSender) (now : Instant) → Sublist (pushed (tick s now).1) []
unfolding tick
tick_pushes s now = ground arith

pub finish_pushes :
    (s : XferSender) (now : Instant) → Sublist (pushed (to_list (finish s now).1)) []
unfolding finish
finish_pushes s now = ground arith

pub push_pushes :
    (s : XferSender) (ts : TimestampMs) (payload : List ℕ) (now : Instant) (ev : SendEvent)
    → (push_frame s ts payload now).1 ≡ some ev
    → Sublist (pushed (ev ∷ [])) ((ts, payload) ∷ [])
unfolding push_frame
push_pushes s ts payload now ev e = ground arith

-- A sender that no longer streams pushes no frame.
over_run :
    (s : XferSender) (calls : List (Call × Instant))
    → is_streaming s.state ≡ false
    → s.next_seq + length calls ≤ u32_max
    → pushed (run s calls).1 ≡ []
unfolding run
over_run s [] over h = refl
over_run s ((c, now) ∷ calls) over h =
    let t : XferSender = (step s c now).0 in
    let out : List SendEvent = (step s c now).1 in
    elim (step_cases s c now (omega arith)) [
      | inl (ts, payload, e, streams, moved) ↦ absurd (cc (over, streams))
      | inr (inl (seq, e, fits, same, stopped)) ↦
          rw (pushed-append out (run t calls).1, e) (over_run t calls stopped (omega (arith, same)))
      | inr (inr (quiet, same, stays)) ↦
          pushed-append out (run t calls).1
          ∙ rw (nothing_pushed out quiet) (over_run t calls (stays over) (omega (arith, same)))
    ]

-- What a run emits from a state on, and the number that the next frame gets.
run_from-IsStream :
    (s : XferSender) (calls : List (Call × Instant))
    → 1 ≤ s.next_seq
    → s.next_seq + length calls ≤ u32_max
    → let (t, out) = run s calls in
      let n = length (pushed out) in
      IsStream s.next_seq (s.next_seq - 1 + n) out × (t.next_seq ≡ s.next_seq + n)
unfolding run
run_from-IsStream s [] low h = (tt, omega arith)
run_from-IsStream s ((c, now) ∷ calls) low h =
    let t : XferSender = (step s c now).0 in
    let out : List SendEvent = (step s c now).1 in
    let rest : List SendEvent = (run t calls).1 in
    elim (step_cases s c now (omega arith)) [
      | inl (ts, payload, e, streams, moved) ↦
          let (a, b) = run_from-IsStream t calls (omega (arith, moved)) (omega (arith, moved)) in
          let p : suc s.next_seq - 1 + length (pushed rest)
              ≡ s.next_seq - 1 + suc (length (pushed rest)) =
            omega arith in
          rw e ((refl, omega arith, rw (moved, p) at a), omega (arith, b, moved))
      | inr (inl (seq, e, fits, same, stopped)) ↦
          let none_more : pushed rest ≡ [] = over_run t calls stopped (omega (arith, same)) in
          let (a, b) = run_from-IsStream t calls (omega (arith, same)) (omega (arith, same)) in
          let p : s.next_seq - 1 ≡ s.next_seq - 1 + length (pushed rest) =
            rw none_more (omega arith) in
          rw e ((p, fits, rw same at a), omega (arith, b, same))
      | inr (inr (quiet, same, stays)) ↦
          let (a, b) = run_from-IsStream t calls (omega (arith, same)) (omega (arith, same)) in
          let d : pushed (out ++ rest) ≡ pushed rest =
            pushed-append out rest ∙ rw (nothing_pushed out quiet) refl in
          let n : ℕ = length (pushed rest) in
          rw d (
            front-IsStream s.next_seq (s.next_seq - 1 + n) out rest quiet (rw same at a),
            omega (arith, b, same),
          )
    ]

-- Over any run of a new sender with fewer than 2 ^ 32 - 1 calls, in whatever order they come: the
-- packets that it emits are frames numbered 1, 2, 3, …, keepalives, and ends that announce the
-- number of all frames of the run, those emitted after the end included; all their numbers are
-- 32-bit; and the next frame's number is one more than the frames.
pub run-IsStream :
    (cfg : SenderConfig) (calls : List (Call × Instant))
    → length calls < u32_max
    → let (t, out) = run (new cfg) calls in
      IsStream 1 (length (pushed out)) out × (t.next_seq ≡ 1 + length (pushed out))
unfolding new
run-IsStream cfg calls h =
    let out : List SendEvent = (run (new cfg) calls).1 in
    let (a, b) = run_from-IsStream (new cfg) calls (omega arith) (omega arith) in
    let p : 1 - 1 + length (pushed out) ≡ length (pushed out) = omega arith in
    (subst (λ (n : ℕ). IsStream 1 n out) p a, b)

-- ===== src/Sender/Runs.antt =====
-- A sender of protofish4-proto/src/xfer/sender.rs driven by any sequence of calls.
use protofish4_rs.Base.{
  ℕ, ◌≡◌, refl, sym, ap, ◌∙◌, List, [], ◌∷◌, ◌++◌, append_assoc, Option, none, some,
}
use protofish4_rs.Types.{XferSeq, TimestampMs, Instant}
use protofish4_rs.Frame.{Body}
use protofish4_rs.Sender.{XferSender, SendEvent, push_frame, record_sealed, finish, handle, tick}

-- A call of one of the public methods.
pub data Call : Type 0 where
  push_call : TimestampMs → List ℕ → Call
  sealed_call : XferSeq → List ℕ → Call
  finish_call : Call
  handle_call : Body → Call
  tick_call : Call

abbrev pub to_list {ℓ} : {A : Type ℓ} → Option A → List A
to_list none = []
to_list (some a) = a ∷ []

unfoldable pub step : XferSender → Call → Instant → XferSender × List SendEvent
step s (push_call ts payload) now = let (s', ev) = push_frame s ts payload now in (s', to_list ev)
step s (sealed_call seq datagram) now = (record_sealed s seq datagram, [])
step s finish_call now = let (s', ev) = finish s now in (s', to_list ev)
step s (handle_call body) now = handle s body
step s tick_call now = tick s now

unfoldable pub run : XferSender → List (Call × Instant) → XferSender × List SendEvent
run s [] = (s, [])
run s ((call, now) ∷ calls) =
    let (s', out) = step s call now in let (s'', rest) = run s' calls in (s'', out ++ rest)

-- One run after another.
pub run-append :
    (s : XferSender) (calls calls' : List (Call × Instant))
    → let r = run s calls in
      ((run s (calls ++ calls')).0 ≡ (run r.0 calls').0)
      × ((run s (calls ++ calls')).1 ≡ r.1 ++ (run r.0 calls').1)
unfolding run
run-append s [] calls' = (refl, refl)
run-append s ((c, now) ∷ calls) calls' =
    let t : XferSender × List SendEvent = step s c now in
    let (p, q) = run-append t.0 calls calls' in
    (p, ap (λ (es : List SendEvent). t.1 ++ es) q ∙ sym (append_assoc t.1 (run t.0 calls).1 _))

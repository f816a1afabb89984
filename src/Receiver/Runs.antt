-- ===== src/Receiver/Runs.antt =====
-- A receiver of protofish4-proto/src/xfer/receiver.rs driven by any sequence of calls.
use protofish4_rs.Base.{ℕ, ◌<◌, List, [], ◌∷◌, ◌++◌}
use protofish4_rs.Types.{XferSeq, Instant, u32_mod}
use protofish4_rs.Frame.{Body}
use protofish4_rs.Receiver.{XferReceiver, Step, set_buffered_ms, handle, tick}

-- A call of one of the public methods.
pub data Call : Type 0 where
  handle_call : XferSeq → Body → Call
  tick_call : Call
  buffered_call : ℕ → Call

unfoldable pub step : XferReceiver → Call → Instant → Step
step r (handle_call seq body) now = handle r seq body now
step r tick_call now = tick r now
step r (buffered_call ms) now = (set_buffered_ms r ms, [])

unfoldable pub run : XferReceiver → List (Call × Instant) → Step
run r [] = (r, [])
run r ((call, now) ∷ calls) =
    let (r', out) = step r call now in let (r'', rest) = run r' calls in (r'', out ++ rest)

-- The sequence number of a packet is a `u32`.
abbrev pub Fits : Call → Type 0
Fits (handle_call seq body) = seq < u32_mod
Fits tick_call = Unit
Fits (buffered_call ms) = Unit

abbrev pub AllFit : List (Call × Instant) → Type 0
AllFit [] = Unit
AllFit ((call, now) ∷ calls) = Fits call × AllFit calls

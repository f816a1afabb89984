-- ===== src/Runtime/Transfer.antt =====
-- A tap of protofish4/src/sender.rs and the endpoint of protofish4/src/receiver.rs at the other end of
-- one transfer: the frames of the one as the other has to deliver them.
pub mod Prefix
pub mod Opening
pub mod Origins
pub mod Entries
pub mod Arrivals
pub mod Ending
pub mod Heard
pub mod Tapped
pub mod Delivered
use protofish4_rs.Base.{ℕ, suc, ◌≤◌, ◌≡◌, ◌⊎◌, List, [], ◌∷◌, All, Any, length, take}
use protofish4_rs.Types.{XferSeq, TimestampMs, RelAbortReason, complete, aborted}
use protofish4_rs.Frame.{Body, body_data, body_end}
use protofish4_rs.Runtime.Entry.{Frame, Delivery}
use protofish4_rs.Runtime.Entry.Runs.{told_outcomes}
use protofish4_rs.Runtime.Entry.Shown.{stored_frames, shown_frames}

-- These frames, numbered from `e` on.
abbrev pub numbered : ℕ → List (TimestampMs × List ℕ) → List Frame
numbered e [] = []
numbered e ((ts, payload) ∷ fs) =
    record { seq = e; ts = ts; payload = payload } ∷ numbered (suc e) fs

-- The frame is one of these.
abbrev pub IsOne : List Frame → Frame → Type 0
IsOne fs f = Any (λ (g : Frame). f ≡ g) fs

-- A packet of the transfer: one of the frames, the end of all `n` of them, or what carries neither.
abbrev pub Carries : List Frame → ℕ → XferSeq → Body → Type 0
Carries fs n seq (body_data ts payload) =
    IsOne fs (record { seq = seq; ts = ts; payload = payload })
Carries fs n seq (body_end f) = f ≡ n
Carries fs n seq _ = Unit

-- What a request delivered of these frames: the first ones of them, in order and unchanged, on the
-- reliable channel; nothing else on either channel; and no outcome, or that the transfer was aborted,
-- or that it is complete with all of them, and then all are on the reliable channel.
abbrev pub Faithful : List (TimestampMs × List ℕ) → List Delivery → Type 0
Faithful frames ds =
    ((k : ℕ) × (k ≤ length frames) × (stored_frames ds ≡ numbered 1 (take k frames)))
    × All (IsOne (numbered 1 frames)) (shown_frames ds)
    × ((told_outcomes ds ≡ [])
        ⊎ (((reason : RelAbortReason) × (told_outcomes ds ≡ aborted reason ∷ []))
            ⊎ ((told_outcomes ds ≡ complete (length frames) ∷ [])
                × (stored_frames ds ≡ numbered 1 frames))))

-- ===== src/Receiver/Events.antt =====
-- What a list of `RecvEvent`s (protofish4-proto/src/xfer/receiver.rs) says of the two streams.
use protofish4_rs.Base.{◌≡◌, refl, ap, List, [], ◌∷◌, ◌++◌}
use protofish4_rs.Types.{XferSeq, RelOutcome}
use protofish4_rs.Receiver.{Frame, RecvEvent, reliable, rel_finished}

-- The frames of the reliable stream, and their sequence numbers.
abbrev pub reliable_frames : List RecvEvent → List Frame
reliable_frames [] = []
reliable_frames (reliable f ∷ evs) = f ∷ reliable_frames evs
reliable_frames (_ ∷ evs) = reliable_frames evs

abbrev pub reliable_seqs : List RecvEvent → List XferSeq
reliable_seqs [] = []
reliable_seqs (reliable f ∷ evs) = f.seq ∷ reliable_seqs evs
reliable_seqs (_ ∷ evs) = reliable_seqs evs

-- How the reliable stream was said to end.
abbrev pub outcomes : List RecvEvent → List RelOutcome
outcomes [] = []
outcomes (rel_finished o ∷ evs) = o ∷ outcomes evs
outcomes (_ ∷ evs) = outcomes evs

pub reliable_seqs-append :
    (xs ys : List RecvEvent) → reliable_seqs (xs ++ ys) ≡ reliable_seqs xs ++ reliable_seqs ys
reliable_seqs-append [] ys = refl
reliable_seqs-append (reliable f ∷ xs) ys =
    ap (λ (t : List XferSeq). f.seq ∷ t) (reliable_seqs-append xs ys)
reliable_seqs-append (_ ∷ xs) ys = reliable_seqs-append xs ys

pub outcomes-append : (xs ys : List RecvEvent) → outcomes (xs ++ ys) ≡ outcomes xs ++ outcomes ys
outcomes-append [] ys = refl
outcomes-append (rel_finished o ∷ xs) ys =
    ap (λ (t : List RelOutcome). o ∷ t) (outcomes-append xs ys)
outcomes-append (_ ∷ xs) ys = outcomes-append xs ys

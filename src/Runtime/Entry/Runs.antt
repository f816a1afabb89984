-- ===== src/Runtime/Entry/Runs.antt =====
-- An `Entry` of protofish4/src/receiver.rs driven by any sequence of calls, and
-- what these deliver.
use protofish4_rs.Base.{ℕ, ◌≡◌, refl, ap, List, [], ◌∷◌, ◌++◌, Bool, true, false}
use protofish4_rs.Types.{XferSeq, Instant, RelOutcome, UuidApi}
use protofish4_rs.Frame.{Body}
use protofish4_rs.Crypto.{AeadApi}
use protofish4_rs.Receiver.Runs
use protofish4_rs.Runtime.Entry.{
  World, Delivery, stored, told, Entry, Applied, on_packet, on_tick, on_report,
}

-- What an endpoint does with an entry: an authenticated packet from an address, a tick, a report.
pub data Call (Addr : Type 0) : Type 0 where
  packet_call : XferSeq → Body → Addr → World → Call Addr
  tick_call : World → Call Addr
  report_call : ℕ → Call Addr

-- The calls of the receiver that this makes.
abbrev pub receiver_calls :
    {Addr : Type 0} → List (Call Addr × Instant) → List (Runs.Call × Instant)
receiver_calls [] = []
receiver_calls ((packet_call seq body from w, now) ∷ calls) =
    (Runs.handle_call seq body, now) ∷ receiver_calls calls
receiver_calls ((tick_call w, now) ∷ calls) = (Runs.tick_call, now) ∷ receiver_calls calls
receiver_calls ((report_call ms, now) ∷ calls) = receiver_calls calls

-- The application keeps the reliable channel open.
abbrev pub IsOpen : World → Type 0
IsOpen w = (i : ℕ) → w.rel_open i ≡ true

abbrev pub AllOpen : {Addr : Type 0} → List (Call Addr × Instant) → Type 0
AllOpen [] = Unit
AllOpen ((packet_call seq body from w, now) ∷ calls) = IsOpen w × AllOpen calls
AllOpen ((tick_call w, now) ∷ calls) = IsOpen w × AllOpen calls
AllOpen ((report_call ms, now) ∷ calls) = AllOpen calls

-- The numbers of the frames on the reliable channel, and the outcomes.
abbrev pub stored_seqs : List Delivery → List XferSeq
stored_seqs [] = []
stored_seqs (stored f ∷ ds) = f.seq ∷ stored_seqs ds
stored_seqs (_ ∷ ds) = stored_seqs ds

abbrev pub told_outcomes : List Delivery → List RelOutcome
told_outcomes [] = []
told_outcomes (told o ∷ ds) = o ∷ told_outcomes ds
told_outcomes (_ ∷ ds) = told_outcomes ds

pub stored_seqs-append :
    (xs ys : List Delivery) → stored_seqs (xs ++ ys) ≡ stored_seqs xs ++ stored_seqs ys
stored_seqs-append [] ys = refl
stored_seqs-append (stored f ∷ xs) ys =
    ap (λ (t : List XferSeq). f.seq ∷ t) (stored_seqs-append xs ys)
stored_seqs-append (_ ∷ xs) ys = stored_seqs-append xs ys

pub told_outcomes-append :
    (xs ys : List Delivery) → told_outcomes (xs ++ ys) ≡ told_outcomes xs ++ told_outcomes ys
told_outcomes-append [] ys = refl
told_outcomes-append (told o ∷ xs) ys =
    ap (λ (t : List RelOutcome). o ∷ t) (told_outcomes-append xs ys)
told_outcomes-append (_ ∷ xs) ys = told_outcomes-append xs ys

-- The first outcome, if the sender of it is still there.
abbrev pub first_if : Bool → List RelOutcome → List RelOutcome
first_if true [] = []
first_if true (o ∷ os) = o ∷ []
first_if false os = []

abbrev pub still_there : Bool → List RelOutcome → Bool
still_there b [] = b
still_there b (o ∷ os) = false

pub first_if-append :
    (b : Bool) (xs ys : List RelOutcome)
    → first_if b (xs ++ ys) ≡ first_if b xs ++ first_if (still_there b xs) ys
first_if-append true [] ys = refl
first_if-append true (o ∷ xs) ys = refl
first_if-append false [] ys = refl
first_if-append false (o ∷ xs) ys = refl

pub first_if_nil : (b : Bool) → first_if b [] ≡ []
first_if_nil true = refl
first_if_nil false = refl

pub still_there-append :
    (b : Bool) (xs ys : List RelOutcome)
    → still_there b (xs ++ ys) ≡ still_there (still_there b xs) ys
still_there-append b [] ys = refl
still_there-append b (o ∷ xs) [] = refl
still_there-append b (o ∷ xs) (p ∷ ys) = refl

module _ {Uuid Key Addr : Type 0} (uuid : UuidApi Uuid) (aead : AeadApi Key) where
  unfoldable pub step : Entry Key Addr → Uuid → Call Addr → Instant → Applied Key Addr
  step e id (packet_call seq body from w) now = on_packet uuid aead e id seq body from now w
  step e id (tick_call w) now = on_tick uuid aead e id now w
  step e id (report_call ms) now = (on_report uuid aead e ms now, [], [])

  unfoldable pub run : Entry Key Addr → Uuid → List (Call Addr × Instant) → Applied Key Addr
  run e id [] = (e, [], [])
  run e id ((call, now) ∷ calls) =
      let (e', ds, out) = step e id call now in
      let (e'', ds', out') = run e' id calls in (e'', ds ++ ds', out ++ out')

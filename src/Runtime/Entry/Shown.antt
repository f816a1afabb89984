-- ===== src/Runtime/Entry/Shown.antt =====
-- The frames that an `Entry` of protofish4/src/receiver.rs puts on the two channels of its streams,
-- beside those of the events that it applies.
use protofish4_rs.Base.{
  ℕ, suc, ◌≡◌, refl, sym, ap, ◌∙◌, inl, inr, List, [], ◌∷◌, ◌++◌, map, Option, none, some, arith,
  Any, Any-left, Any-right, Any-split,
}
use protofish4_rs.Types.{XferSeq, UuidApi}
use protofish4_rs.Frame.{body_nack, body_ack, body_end_ack}
use protofish4_rs.Crypto.{AeadApi}
use protofish4_rs.Receiver
use protofish4_rs.Receiver.{
  RecvEvent, unreliable, reliable, send_nack, send_ack, send_end_ack, rel_finished, closed_event,
}
use protofish4_rs.Receiver.Events.{reliable_frames, reliable_seqs}
use protofish4_rs.Receiver.Genuine.{delivered}
use protofish4_rs.Runtime.Entry.{
  World, Frame, to_frame, Delivery, played, stored, told, Entry, Applied, reply_if, take_outcome,
  seal_body, apply_event, apply_from,
}
use protofish4_rs.Runtime.Entry.Runs.{IsOpen, stored_seqs}

-- The frames on the reliable channel, and on either.
abbrev pub stored_frames : List Delivery → List Frame
stored_frames [] = []
stored_frames (stored f ∷ ds) = f ∷ stored_frames ds
stored_frames (_ ∷ ds) = stored_frames ds

abbrev pub shown_frames : List Delivery → List Frame
shown_frames [] = []
shown_frames (stored f ∷ ds) = f ∷ shown_frames ds
shown_frames (played f ∷ ds) = f ∷ shown_frames ds
shown_frames (told o ∷ ds) = shown_frames ds

pub stored_frames-append :
    (xs ys : List Delivery) → stored_frames (xs ++ ys) ≡ stored_frames xs ++ stored_frames ys
stored_frames-append [] ys = refl
stored_frames-append (stored f ∷ xs) ys =
    ap (λ (t : List Frame). f ∷ t) (stored_frames-append xs ys)
stored_frames-append (_ ∷ xs) ys = stored_frames-append xs ys

pub shown_frames-append :
    (xs ys : List Delivery) → shown_frames (xs ++ ys) ≡ shown_frames xs ++ shown_frames ys
shown_frames-append [] ys = refl
shown_frames-append (stored f ∷ xs) ys = ap (λ (t : List Frame). f ∷ t) (shown_frames-append xs ys)
shown_frames-append (played f ∷ xs) ys = ap (λ (t : List Frame). f ∷ t) (shown_frames-append xs ys)
shown_frames-append (told o ∷ xs) ys = shown_frames-append xs ys

pub stored_seqs_lem : (ds : List Delivery) → stored_seqs ds ≡ map (λ f. f.seq) (stored_frames ds)
stored_seqs_lem [] = refl
stored_seqs_lem (stored f ∷ ds) = ap (λ (t : List XferSeq). f.seq ∷ t) (stored_seqs_lem ds)
stored_seqs_lem (_ ∷ ds) = stored_seqs_lem ds

-- The frames of the reliable stream, as the application gets them.
abbrev pub released_frames : List RecvEvent → List Frame
released_frames evs = map to_frame (reliable_frames evs)

pub reliable_seqs_lem :
    (evs : List RecvEvent) → reliable_seqs evs ≡ map (λ f. f.seq) (released_frames evs)
reliable_seqs_lem [] = refl
reliable_seqs_lem (reliable f ∷ evs) = ap (λ (t : List XferSeq). f.seq ∷ t) (reliable_seqs_lem evs)
reliable_seqs_lem (_ ∷ evs) = reliable_seqs_lem evs

pub released_frames-append :
    (xs ys : List RecvEvent) → released_frames (xs ++ ys) ≡ released_frames xs ++ released_frames ys
released_frames-append [] ys = refl
released_frames-append (reliable f ∷ xs) ys =
    ap (λ (t : List Frame). to_frame f ∷ t) (released_frames-append xs ys)
released_frames-append (_ ∷ xs) ys = released_frames-append xs ys

-- One of the frames that the events deliver is this one.
abbrev pub DeliveredAs : List RecvEvent → Frame → Type 0
DeliveredAs evs f = Any (λ (g : Receiver.Frame). f ≡ to_frame g) (delivered evs)

delivered-append : (xs ys : List RecvEvent) → delivered (xs ++ ys) ≡ delivered xs ++ delivered ys
delivered-append [] ys = refl
delivered-append (reliable f ∷ xs) ys =
    ap (λ (t : List Receiver.Frame). f ∷ t) (delivered-append xs ys)
delivered-append (unreliable f ∷ xs) ys =
    ap (λ (t : List Receiver.Frame). f ∷ t) (delivered-append xs ys)
delivered-append (_ ∷ xs) ys = delivered-append xs ys

-- Every frame on the channels is one of the events'.
abbrev pub Shows : List Delivery → List RecvEvent → Type 0
Shows ds evs = (f : Frame) → Any (λ (g : Frame). f ≡ g) (shown_frames ds) → DeliveredAs evs f

pub Shows-append :
    (xs ys : List Delivery) (us vs : List RecvEvent)
    → Shows xs us
    → Shows ys vs
    → Shows (xs ++ ys) (us ++ vs)
Shows-append xs ys us vs h k f e =
    rw (delivered-append us vs)
      (elim (Any-split (λ g. f ≡ g) (shown_frames xs) (shown_frames ys)
        (rw (shown_frames-append xs ys) at e)) [
          | inl p ↦ Any-left (λ g. f ≡ to_frame g) (delivered us) (delivered vs) (h f p)
          | inr p ↦ Any-right (λ g. f ≡ to_frame g) (delivered us) (delivered vs) (k f p)
        ])

module _ {Uuid Key Addr : Type 0} (uuid : UuidApi Uuid) (aead : AeadApi Key) where
  reply_if-Shows :
      (p : Entry Key Addr × Option (List ℕ)) (evs : List RecvEvent) → Shows (reply_if p).1 evs
  reply_if-Shows (e, none) evs f h = elim h [ ]
  reply_if-Shows (e, some d) evs f h = elim h [ ]

  apply_event-Shows :
      (e : Entry Key Addr) (id : Uuid) (ev : RecvEvent) (w : World) (i : ℕ)
      → Shows (apply_event uuid aead e id ev w i).1 (ev ∷ [])
  unfolding apply_event take_outcome
  apply_event-Shows e id (unreliable g) w i f h = ground (arith, h)
  apply_event-Shows e id (reliable g) w i f h = ground (arith, h)
  apply_event-Shows e id (send_nack m) w i f h =
      reply_if-Shows (seal_body uuid aead e id (body_nack m)) (send_nack m ∷ []) f h
  apply_event-Shows e id (send_ack c g b) w i f h =
      reply_if-Shows (seal_body uuid aead e id (body_ack c g _)) (send_ack c g b ∷ []) f h
  apply_event-Shows e id send_end_ack w i f h =
      reply_if-Shows (seal_body uuid aead e id body_end_ack) (send_end_ack ∷ []) f h
  apply_event-Shows e id (rel_finished o) w i f h = ground (arith, h)
  apply_event-Shows e id closed_event w i f h = elim h [ ]

  pub apply_from-Shows :
      (e : Entry Key Addr) (id : Uuid) (events : List RecvEvent) (w : World) (i : ℕ)
      → Shows (apply_from uuid aead e id events w i).1 events
  unfolding apply_from
  apply_from-Shows e id [] w i = λ f h. h
  apply_from-Shows e id (ev ∷ events) w i =
      let r : Applied Key Addr = apply_event uuid aead e id ev w i in
      let q : Applied Key Addr = apply_from uuid aead r.0 id events w (suc i) in
      Shows-append r.1 q.1 (ev ∷ []) events (apply_event-Shows e id ev w i)
        (apply_from-Shows r.0 id events w (suc i))

  reply_if-stored : (p : Entry Key Addr × Option (List ℕ)) → stored_frames (reply_if p).1 ≡ []
  reply_if-stored (e, none) = refl
  reply_if-stored (e, some d) = refl

  apply_event-stored :
      (e : Entry Key Addr) (id : Uuid) (ev : RecvEvent) (w : World) (i : ℕ)
      → IsOpen w
      → stored_frames (apply_event uuid aead e id ev w i).1 ≡ released_frames (ev ∷ [])
  unfolding apply_event take_outcome
  apply_event-stored e id (unreliable f) w i h = ground arith
  apply_event-stored e id (reliable f) w i h = ground (arith, h i)
  apply_event-stored e id (send_nack m) w i h =
      reply_if-stored (seal_body uuid aead e id (body_nack m))
  apply_event-stored e id (send_ack c g b) w i h =
      reply_if-stored (seal_body uuid aead e id (body_ack c g _))
  apply_event-stored e id send_end_ack w i h =
      reply_if-stored (seal_body uuid aead e id body_end_ack)
  apply_event-stored e id (rel_finished o) w i h = ground arith
  apply_event-stored e id closed_event w i h = refl

  pub apply_from-stored :
      (e : Entry Key Addr) (id : Uuid) (events : List RecvEvent) (w : World) (i : ℕ)
      → IsOpen w
      → stored_frames (apply_from uuid aead e id events w i).1 ≡ released_frames events
  unfolding apply_from
  apply_from-stored e id [] w i h = refl
  apply_from-stored e id (ev ∷ events) w i h =
      let r : Applied Key Addr = apply_event uuid aead e id ev w i in
      let q : Applied Key Addr = apply_from uuid aead r.0 id events w (suc i) in
      stored_frames-append r.1 q.1
      ∙ rw (apply_event-stored e id ev w i h, apply_from-stored r.0 id events w (suc i) h)
          (sym (released_frames-append (ev ∷ []) events))

-- ===== src/Runtime/Tap/Dispatching.antt =====
-- What `dispatch` of protofish4/src/sender.rs leaves as it is, and how it fails.
use protofish4_rs.Base.{
  ℕ, suc, length, ◌+◌, ◌≡◌, refl, ◌∙◌, ◌⊎◌, inl, inr, List, [], ◌∷◌, Option, some, Bool, true,
  false, ok, err, Option-cases, Result-cases,
}
use protofish4_rs.Types.{XferSeq, UuidApi}
use protofish4_rs.Frame.{Body}
use protofish4_rs.Failure as Proto
use protofish4_rs.Crypto.{AeadApi}
use protofish4_rs.Sender as Xfer
use protofish4_rs.Sender.{
  XferSender, SendEvent, emit, resend, completed, failed, streaming, finalizing, done,
  held_datagrams, resend_if_any,
}
use protofish4_rs.Runtime.Failure.{Error, io, proto, Fallible}
use protofish4_rs.Runtime.Tap.{
  Sender, Step, Loop, is_data, send_each, and_then, and_loop, record_if, seal_packet, dispatch_from,
}

-- What `dispatch` leaves as it is: everything but the ring.
pub record Kept {Uuid Key Addr : Type 0} (s s' : Sender Uuid Key Addr) : Type 0 where
  pub key : s'.key ≡ s.key
  pub peer : s'.peer ≡ s.peer
  pub state : s'.state.state ≡ s.state.state
  pub finalize_at : s'.state.finalize_at ≡ s.state.finalize_at
  pub cfg : s'.state.cfg ≡ s.state.cfg
  pub next_seq : s'.state.next_seq ≡ s.state.next_seq
  pub request_id : s'.request_id ≡ s.request_id
  pub got_ack : s'.state.got_ack ≡ s.state.got_ack
  pub first_data_at : s'.state.first_data_at ≡ s.state.first_data_at

pub Kept-refl : {Uuid Key Addr : Type 0} (s : Sender Uuid Key Addr) → Kept s s
Kept-refl s = record {
  key = refl;
  peer = refl;
  state = refl;
  finalize_at = refl;
  cfg = refl;
  next_seq = refl;
  request_id = refl;
  got_ack = refl;
  first_data_at = refl;
}

pub Kept-trans :
    {Uuid Key Addr : Type 0} (s t u : Sender Uuid Key Addr) → Kept s t → Kept t u → Kept s u
Kept-trans s t u a b = record {
  key = b.key ∙ a.key;
  peer = b.peer ∙ a.peer;
  state = b.state ∙ a.state;
  finalize_at = b.finalize_at ∙ a.finalize_at;
  cfg = b.cfg ∙ a.cfg;
  next_seq = b.next_seq ∙ a.next_seq;
  request_id = b.request_id ∙ a.request_id;
  got_ack = b.got_ack ∙ a.got_ack;
  first_data_at = b.first_data_at ∙ a.first_data_at;
}

pub record_if-Kept :
    {Uuid Key Addr : Type 0} (b : Bool) (s : Sender Uuid Key Addr) (seq : XferSeq) (sealed : List ℕ)
    → Kept s (record_if b s seq sealed)
unfolding record_if Xfer.record_sealed
record_if-Kept true s seq sealed = record {
  key = refl;
  peer = refl;
  state = refl;
  finalize_at = refl;
  cfg = refl;
  next_seq = refl;
  request_id = refl;
  got_ack = refl;
  first_data_at = refl;
}
record_if-Kept false s seq sealed = Kept-refl s

abbrev pub NoFail : List SendEvent → Type 0
NoFail [] = Unit
NoFail (failed why ∷ events) = ⊥
NoFail (_ ∷ events) = NoFail events

send_each_failed :
    {Io : Type 0} (ds : List (List ℕ)) (sends : ℕ → Option Io) (i : ℕ) (e : Io)
    → (send_each ds sends i).1 ≡ some e
    → (j : ℕ) × (sends j ≡ some e)
unfolding send_each
send_each_failed [] sends i e h = let none_is_some = h in cc
send_each_failed (d ∷ ds) sends i e h = elim (Option-cases (sends i)) [
  | inr (e', q) ↦ (i, q ∙ (rw (q, send_each) at h))
  | inl q ↦ send_each_failed ds sends (suc i) e (rw (q, send_each) at h)
]

-- Sealing or the socket failed.
abbrev pub Broken : {Uuid Addr Io : Type 0} → Error Uuid Addr Io → Type 0
Broken {Uuid} {Addr} {Io} e = ((x : Io) × (e ≡ io x)) ⊎ ((x : Proto.Error Uuid) × (e ≡ proto x))

-- A call that went well, or that sealing or the socket ended.
abbrev pub Fares : {Uuid Addr Io : Type 0} → Fallible Uuid Addr Io Unit → Type 0
Fares {Uuid} {Addr} {Io} r = (r ≡ ok tt) ⊎ ((e : Error Uuid Addr Io) × (r ≡ err e) × Broken e)

module _ {Uuid Key Addr Io : Type 0} (uuid : UuidApi Uuid) (aead : AeadApi Key) where
  pub dispatch-Kept :
      (s : Sender Uuid Key Addr) (events : List SendEvent) (sends : ℕ → Option Io) (i : ℕ)
      → Kept s (dispatch_from uuid aead s events sends i).0
  unfolding dispatch_from
  dispatch-Kept s [] sends i = Kept-refl s
  dispatch-Kept s (emit seq body ∷ events) sends i =
      elim (Result-cases (seal_packet uuid aead s.key s.request_id seq body)) [
        | inr (e, p) ↦ rw (p, dispatch_from) (Kept-refl s)
        | inl (sealed, p) ↦ elim (Option-cases (sends i)) [
          | inr (e, q) ↦ rw (p, dispatch_from) (rw q (Kept-refl s))
          | inl q ↦
              rw (p, dispatch_from)
                (rw q (
                  let s' : Sender Uuid Key Addr = record_if (is_data body) s seq sealed in
                  Kept-trans s s' _ (record_if-Kept (is_data body) s seq sealed)
                    (dispatch-Kept s' events sends (suc i))))
        ]
      ]
  dispatch-Kept s (resend ds ∷ events) sends i = elim (Option-cases (send_each ds sends i).1) [
    | inr (e, p) ↦ rw (p, dispatch_from) (Kept-refl s)
    | inl p ↦ rw (p, dispatch_from) (dispatch-Kept s events sends (i + length ds))
  ]
  dispatch-Kept s (completed ∷ events) sends i = dispatch-Kept s events sends i
  dispatch-Kept s (failed Xfer.no_ack ∷ events) sends i = Kept-refl s
  dispatch-Kept s (failed Xfer.finalize_timed_out ∷ events) sends i = Kept-refl s

  -- A packet of the request could not be sealed under the key, or one of the sends failed.
  abbrev pub Breaks : Key → Uuid → (ℕ → Option Io) → Error Uuid Addr Io → Type 0
  Breaks key id sends e =
      ((x : Io) × (i : ℕ) × (sends i ≡ some x) × (e ≡ io x))
      ⊎ ((x : Proto.Error Uuid) × (seq : XferSeq) × (body : Body) × (seal_packet uuid aead key id
              seq body
            ≡ err x)
          × (e ≡ proto x))

  -- A call that went well, or that sealing or one of these sends ended.
  abbrev pub Goes : Key → Uuid → (ℕ → Option Io) → Fallible Uuid Addr Io Unit → Type 0
  Goes key id sends r =
      (r ≡ ok tt) ⊎ ((e : Error Uuid Addr Io) × (r ≡ err e) × Breaks key id sends e)

  pub dispatch-Goes :
      (key : Key) (id : Uuid) (s : Sender Uuid Key Addr) (events : List SendEvent)
      (sends : ℕ → Option Io) (i : ℕ)
      → s.key ≡ key
      → s.request_id ≡ id
      → NoFail events
      → Goes key id sends (dispatch_from uuid aead s events sends i).2
  unfolding dispatch_from
  dispatch-Goes key id s [] sends i k n h = inl refl
  dispatch-Goes key id s (emit seq body ∷ events) sends i k n h =
      elim (Result-cases (seal_packet uuid aead s.key s.request_id seq body)) [
        | inr (e, p) ↦
            let sealing : seal_packet uuid aead key id seq body ≡ err e = rw (← k, ← n) p in
            rw (p, dispatch_from) (inr (proto e, refl, inr (e, seq, body, sealing, refl)))
        | inl (sealed, p) ↦ elim (Option-cases (sends i)) [
          | inr (e, q) ↦ rw (p, dispatch_from) (rw q (inr (io e, refl, inl (e, i, q, refl))))
          | inl q ↦
              let kept = record_if-Kept (is_data body) s seq sealed in
              rw (p, dispatch_from)
                (rw q (
                  dispatch-Goes key id (record_if (is_data body) s seq sealed) events sends (suc i)
                    (kept.key ∙ k) (kept.request_id ∙ n) h))
        ]
      ]
  dispatch-Goes key id s (resend ds ∷ events) sends i k n h =
      elim (Option-cases (send_each ds sends i).1) [
        | inr (e, p) ↦
            let (j, q) = send_each_failed ds sends i e p in
            rw (p, dispatch_from) (inr (io e, refl, inl (e, j, q, refl)))
        | inl p ↦ rw (p, dispatch_from) (dispatch-Goes key id s events sends (i + length ds) k n h)
      ]
  dispatch-Goes key id s (failed why ∷ events) sends i k n h = elim h [ ]
  dispatch-Goes key id s (completed ∷ events) sends i k n h =
      dispatch-Goes key id s events sends i k n h

  pub dispatch-Fares :
      (s : Sender Uuid Key Addr) (events : List SendEvent) (sends : ℕ → Option Io) (i : ℕ)
      → NoFail events
      → Fares (dispatch_from uuid aead s events sends i).2
  dispatch-Fares s events sends i h =
      elim (dispatch-Goes s.key s.request_id s events sends i refl refl h) [
        | inl fine ↦ inl fine
        | inr (e, q, inl (x, j, sent, is)) ↦ inr (e, q, inl (x, is))
        | inr (e, q, inr (x, seq, body, sealing, is)) ↦ inr (e, q, inr (x, is))
      ]

pub and_then-cases :
    {Uuid Key Addr Io : Type 0} (p : Step Uuid Key Addr Io)
    (f : Sender Uuid Key Addr → Step Uuid Key Addr Io)
    → ((e : Error Uuid Addr Io) × (p.2 ≡ err e) × ((and_then p f).2 ≡ err e))
      ⊎ ((p.2 ≡ ok tt) × ((and_then p f).0 ≡ (f p.0).0) × ((and_then p f).2 ≡ (f p.0).2))
and_then-cases (s, out, err e) f = inl (e, refl, refl)
and_then-cases (s, out, ok u) f = inr (refl, refl, refl)

pub and_loop-cases :
    {Uuid Key Addr Io : Type 0} (p : Step Uuid Key Addr Io)
    (f : Sender Uuid Key Addr → Loop Uuid Key Addr Io)
    → ((e : Error Uuid Addr Io) × (p.2 ≡ err e) × ((and_loop p f).2 ≡ some (err e)))
      ⊎ ((p.2 ≡ ok tt) × ((and_loop p f).0 ≡ (f p.0).0) × ((and_loop p f).2 ≡ (f p.0).2))
and_loop-cases (s, out, err e) f = inl (e, refl, refl)
and_loop-cases (s, out, ok u) f = inr (refl, refl, refl)

-- ===== src/Runtime/Tap/Complete.antt =====
-- What `dispatch` of protofish4/src/sender.rs has done when it returns well.
use protofish4_rs.Base.{
  ℕ, suc, ◌+◌, ◌≡◌, refl, ap, ◌⊎◌, inl, inr, List, [], ◌∷◌, ◌++◌, Option, none, some, ok, err,
  length, Option-cases, Result-cases, subst,
}
use protofish4_rs.Types.{XferSeq, UuidApi}
use protofish4_rs.Frame.{
  Body, body_data, body_end, body_end_ack, body_ack, body_nack, body_keepalive,
}
use protofish4_rs.Crypto.{AeadApi}
use protofish4_rs.Ring
use protofish4_rs.Sender as Xfer
use protofish4_rs.Sender.{XferSender, SendEvent, emit, resend, completed, failed}
use protofish4_rs.Runtime.Failure.{Error}
use protofish4_rs.Runtime.Tap.{
  Sender, Step, is_data, send_each, record_if, seal_packet, dispatch_from,
}

send_each_all :
    {Io : Type 0} (ds : List (List ℕ)) (sends : ℕ → Option Io) (i : ℕ)
    → (send_each ds sends i).1 ≡ none
    → (send_each ds sends i).0 ≡ ds
unfolding send_each
send_each_all [] sends i h = refl
send_each_all (d ∷ ds) sends i h = elim (Option-cases (sends i)) [
  | inl q ↦
      rw (q, send_each)
        (ap (λ (xs : List (List ℕ)). d ∷ xs)
          (send_each_all ds sends (suc i) (rw (q, send_each) at h)))
  | inr (e, q) ↦ absurd (none_some (rw (q, send_each) at h))
]
  where
    none_some : {A : Type 0} {a : A} → some a ≡ none → ⊥
    none_some e = cc

-- The tap after this packet went out: the ring has taken it if it carries a payload frame, and only
-- then.
abbrev pub after_send :
    {Uuid Key Addr : Type 0} → Sender Uuid Key Addr → XferSeq → Body → List ℕ → Sender Uuid Key Addr
after_send s seq (body_data ts payload) d = record s {
  state = record s.state { ring = Ring.push s.state.ring seq d };
}
after_send s seq (body_end final_seq) d = s
after_send s seq body_end_ack d = s
after_send s seq (body_ack contiguous highest ms) d = s
after_send s seq (body_nack missing) d = s
after_send s seq (body_keepalive lost_below) d = s

module _ {Uuid Key Addr : Type 0} (uuid : UuidApi Uuid) (aead : AeadApi Key) where
  -- Exactly these datagrams went out for the events: every emitted packet, sealed under the key, the
  -- request and its number, and all that was to be sent again; and from the first state to the
  -- second, the ring took each packet with a payload frame as it went out, and nothing else. No event
  -- is a failure.
  abbrev pub Exactly :
      Sender Uuid Key Addr → List SendEvent → List (List ℕ) → Sender Uuid Key Addr → Type 0
  Exactly s [] out s' = (out ≡ []) × (s' ≡ s)
  Exactly s (emit seq body ∷ events) out s' =
      (d : List ℕ) × (rest : List (List ℕ)) × (out ≡ d ∷ rest)
      × (seal_packet uuid aead s.key s.request_id seq body ≡ ok d)
      × Exactly (after_send s seq body d) events rest s'
  Exactly s (resend ds ∷ events) out s' =
      (rest : List (List ℕ)) × (out ≡ ds ++ rest) × Exactly s events rest s'
  Exactly s (completed ∷ events) out s' = Exactly s events out s'
  Exactly s (failed why ∷ events) out s' = ⊥

record_if-is_data :
    {Uuid Key Addr : Type 0} (body : Body) (s : Sender Uuid Key Addr) (seq : XferSeq) (d : List ℕ)
    → record_if (is_data body) s seq d ≡ after_send s seq body d
unfolding record_if Xfer.record_sealed
record_if-is_data (body_data ts payload) s seq d = refl
record_if-is_data (body_end final_seq) s seq d = refl
record_if-is_data body_end_ack s seq d = refl
record_if-is_data (body_ack contiguous highest ms) s seq d = refl
record_if-is_data (body_nack missing) s seq d = refl
record_if-is_data (body_keepalive lost_below) s seq d = refl

module _ {Uuid Key Addr Io : Type 0} (uuid : UuidApi Uuid) (aead : AeadApi Key) where
  -- `dispatch` either fails, or it has sent exactly what its events ask for, in their order, has put
  -- each packet with a payload frame, and no other, into the ring as it went out, and no event was a
  -- failure.
  pub dispatch_lem :
      (events : List SendEvent) (s : Sender Uuid Key Addr) (sends : ℕ → Option Io) (i : ℕ)
      → let r = dispatch_from uuid aead s events sends i in
        ((e : Error Uuid Addr Io) × (r.2 ≡ err e))
        ⊎ ((r.2 ≡ ok tt) × Exactly uuid aead s events r.1 r.0)
  unfolding dispatch_from
  dispatch_lem [] s sends i = inr (refl, (refl, refl))
  dispatch_lem (emit seq body ∷ events) s sends i =
      elim (Result-cases (seal_packet uuid aead s.key s.request_id seq body)) [
        | inr (e, p) ↦ rw (p, dispatch_from) (inl (_, refl))
        | inl (d, p) ↦ elim (Option-cases (sends i)) [
          | inr (e, q) ↦ rw (p, dispatch_from) (rw q (inl (_, refl)))
          | inl q ↦
              let s' : Sender Uuid Key Addr = record_if (is_data body) s seq d in
              let rest : Step Uuid Key Addr Io = dispatch_from uuid aead s' events sends (suc i) in
              elim (dispatch_lem events s' sends (suc i)) [
                | inl (e, r) ↦ rw (p, dispatch_from) (rw q (inl (e, r)))
                | inr (fine, all) ↦
                    rw (p, dispatch_from)
                      (rw q (
                        inr (
                          fine,
                          (
                            d,
                            _,
                            refl,
                            refl,
                            subst
                                (λ (x : Sender Uuid Key Addr).
                                  Exactly uuid aead x events rest.1 rest.0)
                                (record_if-is_data body s seq d) all,
                          ),
                        )))
              ]
        ]
      ]
  dispatch_lem (resend ds ∷ events) s sends i = elim (Option-cases (send_each ds sends i).1) [
    | inr (e, p) ↦ rw (p, dispatch_from) (inl (_, refl))
    | inl p ↦ elim (dispatch_lem events s sends (i + length ds)) [
      | inl (e, r) ↦ rw (p, dispatch_from) (inl (e, r))
      | inr (fine, all) ↦
          rw (p, dispatch_from)
            (inr (
              fine,
              (
                _,
                ap
                    (λ (xs : List (List ℕ)).
                      xs ++ (dispatch_from uuid aead s events sends (i + length ds)).1)
                    (send_each_all ds sends i p),
                all,
              ),
            ))
    ]
  ]
  dispatch_lem (completed ∷ events) s sends i = dispatch_lem events s sends i
  dispatch_lem (failed Xfer.no_ack ∷ events) s sends i = inl (_, refl)
  dispatch_lem (failed Xfer.finalize_timed_out ∷ events) s sends i = inl (_, refl)

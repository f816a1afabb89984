-- ===== src/Runtime/Tap/Turns.antt =====
-- One turn of `finish` of protofish4/src/sender.rs while it waits for the receiver's `EndAck`.
use protofish4_rs.Base.{
  ◌+◌, ◌≤◌, ◌<◌, ◌≡◌, false, err, refl, ap, ◌∙◌, ◌⊎◌, inl, inr, List, ok, Result-cases,
}
use protofish4_rs.Types.{Instant, Duration, UuidApi}
use protofish4_rs.Crypto.{AeadApi}
use protofish4_rs.Config.{SenderConfig}
use protofish4_rs.Sender as Xfer
use protofish4_rs.Sender.{
  XferSender, SendEvent, emit, resend, completed, failed, streaming, finalizing, done,
}
use protofish4_rs.Runtime.Failure.{Error, io, no_ack, finalize_timeout}
use protofish4_rs.Runtime.Tap.{
  Sender, Step, Turn, dispatch_from, open_reply, pump_packet, pump_timers, pump_once,
}
use protofish4_rs.Runtime.Tap.Dispatching.{Kept, dispatch-Kept, Breaks, dispatch-Goes}
use protofish4_rs.Runtime.Tap.Declared.{Waits, handle_cases, tick_cases}
use protofish4_rs.Sender.Deadlines.{Overdue}
use protofish4_rs.Runtime.Tap.Answered.{
  Overdue-same, Breaks-same, Input-cases, Confirms, TurnBreaks, TurnFails, Follows, packet-Follows,
  timers-Follows,
}

pub Waits-Kept :
    {Uuid Key Addr : Type 0} (start : Instant) (limit : Duration) (s s' : Sender Uuid Key Addr)
    → Kept s s'
    → Waits start limit s.state
    → Waits start limit s'.state
Waits-Kept start limit s s' k w = record {
  state = k.state ∙ w.state;
  finalize_at = k.finalize_at ∙ w.finalize_at;
  limit_is = ap (λ (c : SenderConfig). c.finalize_timeout) k.cfg ∙ w.limit_is;
}

module _ {Uuid Key Addr Io : Type 0} (uuid : UuidApi Uuid) (aead : AeadApi Key) where
  -- The packet of a turn of a sender that waits.
  packet_cases :
      (start : Instant) (limit : Duration) (s : Sender Uuid Key Addr) (t : Turn Io)
      → Waits start limit s.state
      → let p = pump_packet uuid aead s t in
        ((e : Error Uuid Addr Io) × (p.2 ≡ err e) × TurnBreaks uuid aead s.key s.request_id t e)
        ⊎ ((p.2 ≡ ok tt)
            × (Waits start limit p.0.state
                ⊎ ((p.0.state.state ≡ done) × Confirms uuid aead s.key t)))
  unfolding pump_packet
  packet_cases start limit s t w = elim (Input-cases t.input) [
    | inr (inl (e, q)) ↦ rw (q, pump_packet) (inl (io e, refl, inl (e, refl, refl)))
    | inr (inr q) ↦ rw (q, pump_packet) (inr (refl, inl w))
    | inl (d, q) ↦ elim (Result-cases (open_reply uuid aead s.key d)) [
      | inr (e, r) ↦ rw (q, pump_packet) (rw r (inr (refl, inl w)))
      | inl (body, r) ↦
          rw (q, pump_packet)
            (rw r (
              let x : XferSender = (Xfer.handle s.state body).0 in
              let events : List SendEvent = (Xfer.handle s.state body).1 in
              let k = dispatch-Kept uuid aead (record s { state = x }) events t.handle_sends 0 in
              let (quiet, after) = handle_cases start limit s.state body w in
              elim (dispatch-Goes uuid aead s.key s.request_id (record s { state = x }) events
                t.handle_sends 0 refl refl quiet) [
                  | inr (e, failed_so, why) ↦ inl (e, failed_so, inr (inl why))
                  | inl fine ↦ inr (
                    fine,
                    elim after [
                      | inl w' ↦ inl (Waits-Kept start limit (record s { state = x }) _ k w')
                      | inr (over, is_end) ↦ inr (k.state ∙ over, (d, refl, r ∙ ap ok is_end))
                    ],
                  )
                ]))
    ]
  ]

  -- The timers of a turn of a sender that waits.
  timers_cases :
      (start : Instant) (limit : Duration) (s : Sender Uuid Key Addr) (t : Turn Io)
      → Waits start limit s.state
      → let p = pump_timers uuid aead t s in
        ((e : Error Uuid Addr Io) × (p.2 ≡ err e)
          × (((e ≡ finalize_timeout) × (start + limit < t.ticked_at))
              ⊎ (((e ≡ no_ack s.peer)
                    × (s.state.got_ack ≡ false)
                    × Overdue s.state.first_data_at s.state.cfg.first_ack_timeout t.ticked_at)
                  ⊎ Breaks uuid aead s.key s.request_id t.tick_sends e)))
        ⊎ ((p.2 ≡ ok tt) × Waits start limit p.0.state × (t.ticked_at ≤ start + limit))
  unfolding dispatch_from
  timers_cases start limit s t w =
      let x : XferSender = (Xfer.tick s.state t.ticked_at).0 in
      elim (tick_cases start limit s.state t.ticked_at w) [
        | inl (p, quiet, late) ↦ rw p (inl (no_ack s.peer, refl, inr (inl (refl, quiet, late))))
        | inr (inl (p, late)) ↦ rw p (inl (finalize_timeout, refl, inl (refl, late)))
        | inr (inr (quiet, early, w')) ↦
            let events : List SendEvent = (Xfer.tick s.state t.ticked_at).1 in
            let k = dispatch-Kept uuid aead (record s { state = x }) events t.tick_sends 0 in
            elim (dispatch-Goes uuid aead s.key s.request_id (record s { state = x }) events
              t.tick_sends 0 refl refl quiet) [
                | inr (e, p, why) ↦ inl (e, p, inr (inr why))
                | inl fine ↦
                    inr (fine, Waits-Kept start limit (record s { state = x }) _ k w', early)
              ]
      ]

  pub timers_done :
      (s : Sender Uuid Key Addr) (t : Turn Io)
      → s.state.state ≡ done
      → let p = pump_timers uuid aead t s in
        (p.2 ≡ ok tt) × (p.0.key ≡ s.key) × (p.0.peer ≡ s.peer) × (p.0.state.state ≡ done)
  unfolding Xfer.tick dispatch_from
  timers_done s t h = rw h (refl, refl, refl, refl)

  -- Why the timers failed after that packet.
  timers-TurnFails :
      (start : Instant) (limit : Duration) (s p : Sender Uuid Key Addr) (t : Turn Io)
      (e : Error Uuid Addr Io)
      → Follows uuid aead s t p
      → ((e ≡ finalize_timeout) × (start + limit < t.ticked_at))
        ⊎ (((e ≡ no_ack p.peer)
              × (p.state.got_ack ≡ false)
              × Overdue p.state.first_data_at p.state.cfg.first_ack_timeout t.ticked_at)
            ⊎ Breaks uuid aead p.key p.request_id t.tick_sends e)
      → TurnFails uuid aead start limit s t e
  timers-TurnFails start limit s p t e f why = elim why [
    | inl late ↦ inl late
    | inr (inl (is, quiet, late)) ↦ inr (
        inl (
          is ∙ ap no_ack f.peer,
          (f.unheard quiet).0,
          (f.unheard quiet).1,
          Overdue-same f.first_data_at (ap (λ (c : SenderConfig). c.first_ack_timeout) f.cfg) late,
        ))
    | inr (inr broken) ↦
        inr (inr (inr (inr (Breaks-same uuid aead t.tick_sends e f.key f.request_id broken))))
  ]

  -- One turn of a sender that waits.
  pub turn_cases :
      (start : Instant) (limit : Duration) (s : Sender Uuid Key Addr) (t : Turn Io)
      → Waits start limit s.state
      → let p = pump_once uuid aead s t in
        ((e : Error Uuid Addr Io) × (p.2 ≡ err e) × TurnFails uuid aead start limit s t e)
        ⊎ ((p.2 ≡ ok tt)
            × ((Follows uuid aead s t p.0
                  × Waits start limit p.0.state
                  × (t.ticked_at ≤ start + limit))
                ⊎ ((p.0.state.state ≡ done) × Confirms uuid aead s.key t)))
  unfolding pump_once
  turn_cases start limit s t w =
      let p : Step Uuid Key Addr Io = pump_packet uuid aead s t in
      let f : Follows uuid aead s t p.0 = packet-Follows uuid aead s t in
      elim (packet_cases start limit s t w) [
        | inl (e, q, broken) ↦ rw q (inl (e, refl, inr (inr broken)))
        | inr (fine, inl w') ↦
            let f' : Follows uuid aead s t (pump_timers uuid aead t p.0).0 =
              timers-Follows uuid aead s p.0 t f in
            rw fine (elim (timers_cases start limit p.0 t w') [
              | inl (e, q, why) ↦ inl (e, q, timers-TurnFails start limit s p.0 t e f why)
              | inr (fine', w'', early) ↦ inr (fine', inl (f', w'', early))
            ])
        | inr (fine, inr (over, confirmed)) ↦
            let (fine', key', peer', over') = timers_done p.0 t over in
            rw fine (inr (fine', inr (over', confirmed)))
      ]

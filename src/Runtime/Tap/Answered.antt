-- ===== src/Runtime/Tap/Answered.antt =====
-- What one turn of protofish4/src/sender.rs leaves of a tap, and whether it brought an answer.
use protofish4_rs.Base.{
  ℕ, ◌+◌, ◌<◌, ◌≡◌, false, subst, sym, err, refl, ap, ◌∙◌, ◌⊎◌, inl, inr, List, Option, ok,
  Result-cases,
}
use protofish4_rs.Types.{Instant, Duration, UuidApi}
use protofish4_rs.Frame.{Body, body_end_ack}
use protofish4_rs.Failure as Proto
use protofish4_rs.Crypto.{AeadApi}
use protofish4_rs.Sender as Xfer
use protofish4_rs.Sender.{
  XferSender, SendEvent, emit, resend, completed, failed, streaming, finalizing, done,
}
use protofish4_rs.Runtime.Failure.{Error, io, no_ack, finalize_timeout}
use protofish4_rs.Runtime.Tap.{
  Sender, dispatch, Input, arrived, recv_failed, timed_out, Turn, open_reply, pump_packet,
  pump_timers,
}
use protofish4_rs.Runtime.Tap.Dispatching.{dispatch-Kept, Breaks}
use protofish4_rs.Runtime.Tap.Declared.{IsAnswer, handle-Steady, tick-Steady}
use protofish4_rs.Sender.Deadlines.{Overdue}

pub Overdue-same :
    {at at' : Option Instant} {limit limit' now : Instant}
    → at' ≡ at
    → limit' ≡ limit
    → Overdue at' limit' now
    → Overdue at limit now
Overdue-same p q (start, same, late) = (start, sym p ∙ same, rw (← q) late)

pub Breaks-same :
    {Uuid Key Addr Io : Type 0} (uuid : UuidApi Uuid) (aead : AeadApi Key) (sends : ℕ → Option Io)
    (e : Error Uuid Addr Io) {key key' : Key} {id id' : Uuid}
    → key' ≡ key
    → id' ≡ id
    → Breaks uuid aead key' id' sends e
    → Breaks uuid aead key id sends e
Breaks-same uuid aead sends e p q broken = elim broken [
  | inl why ↦ inl why
  | inr (x, seq, body, sealing, is) ↦ inr (x, seq, body, rw (← p, ← q) sealing, is)
]

pub Input-cases :
    {Io : Type 0} (i : Input Io)
    → ((d : List ℕ) × (i ≡ arrived d)) ⊎ (((e : Io) × (i ≡ recv_failed e)) ⊎ (i ≡ timed_out))
Input-cases (arrived d) = inl (d, refl)
Input-cases (recv_failed e) = inr (inl (e, refl))
Input-cases timed_out = inr (inr refl)

module _ {Uuid Key Io : Type 0} (uuid : UuidApi Uuid) (aead : AeadApi Key) where
  -- The turn receives an `EndAck` that opens under the key.
  abbrev pub Confirms : Key → Turn Io → Type 0
  Confirms key t =
      (d : List ℕ) × (t.input ≡ arrived d) × (open_reply uuid aead key d ≡ ok body_end_ack)

  -- The turn receives an `Ack` or a `Nack` that opens under the key.
  abbrev pub Answers : Key → Turn Io → Type 0
  Answers key t =
      (d : List ℕ) × (body : Body) × (t.input ≡ arrived d)
      × (open_reply uuid aead key d ≡ ok body)
      × IsAnswer body

  no_reply :
      (key : Key) (t : Turn Io) (d : List ℕ) (x : Proto.Error Uuid)
      → t.input ≡ arrived d
      → open_reply uuid aead key d ≡ err x
      → ¬ Answers key t
  no_reply key t d x q r (d', body', q', r', answer) =
      let same : d' ≡ d = let e = sym q' ∙ q in cc in
      let opened : ok body' ≡ err x = sym r' ∙ ap (open_reply uuid aead key) same ∙ r in cc

  not_answer :
      (key : Key) (t : Turn Io) (d : List ℕ) (body : Body)
      → t.input ≡ arrived d
      → open_reply uuid aead key d ≡ ok body
      → ¬ IsAnswer body
      → ¬ Answers key t
  not_answer key t d body q r no_answer (d', body', q', r', answer) =
      let same : d' ≡ d = let e = sym q' ∙ q in cc in
      let opened : ok body' ≡ ok body = sym r' ∙ ap (open_reply uuid aead key) same ∙ r in
      let same_body : body' ≡ body = cc in no_answer (subst IsAnswer same_body answer)

module _ {Uuid Key Addr Io : Type 0} (uuid : UuidApi Uuid) (aead : AeadApi Key) where
  -- In the turn the socket failed to receive, or sealing or a send failed.
  abbrev pub TurnBreaks : Key → Uuid → Turn Io → Error Uuid Addr Io → Type 0
  TurnBreaks key id t e =
      ((x : Io) × (t.input ≡ recv_failed x) × (e ≡ io x))
      ⊎ (Breaks uuid aead key id t.handle_sends e ⊎ Breaks uuid aead key id t.tick_sends e)

  -- Why a turn ended with an error.
  abbrev pub TurnFails :
      Instant → Duration → Sender Uuid Key Addr → Turn Io → Error Uuid Addr Io → Type 0
  TurnFails start limit s t e =
      ((e ≡ finalize_timeout) × (start + limit < t.ticked_at))
      ⊎ (((e ≡ no_ack s.peer)
            × (s.state.got_ack ≡ false)
            × (¬ Answers uuid aead s.key t)
            × Overdue s.state.first_data_at s.state.cfg.first_ack_timeout t.ticked_at)
          ⊎ TurnBreaks s.key s.request_id t e)

  -- The tap after a turn: where the peer was not heard it was not before, and not in the turn.
  pub record Follows (s : Sender Uuid Key Addr) (t : Turn Io) (s' : Sender Uuid Key Addr)
      : Type 0 where
    pub key : s'.key ≡ s.key
    pub peer : s'.peer ≡ s.peer
    pub request_id : s'.request_id ≡ s.request_id
    pub cfg : s'.state.cfg ≡ s.state.cfg
    pub first_data_at : s'.state.first_data_at ≡ s.state.first_data_at
    pub unheard :
        s'.state.got_ack ≡ false → (s.state.got_ack ≡ false) × (¬ Answers uuid aead s.key t)

  silent-Follows :
      (s : Sender Uuid Key Addr) (t : Turn Io) → ¬ Answers uuid aead s.key t → Follows s t s
  silent-Follows s t silent = record {
    key = refl;
    peer = refl;
    request_id = refl;
    cfg = refl;
    first_data_at = refl;
    unheard = λ h. (h, silent);
  }

  silent_turn :
      (s p : Sender Uuid Key Addr) (t : Turn Io)
      → p ≡ s
      → ¬ Answers uuid aead s.key t
      → Follows s t p
  silent_turn s p t same silent =
      subst (λ (u : Sender Uuid Key Addr). Follows s t u) (sym same) (silent-Follows s t silent)

  answered_turn :
      (s : Sender Uuid Key Addr) (t : Turn Io) (d : List ℕ) (body : Body)
      → t.input ≡ arrived d
      → open_reply uuid aead s.key d ≡ ok body
      → Follows s t (dispatch uuid aead s (Xfer.handle s.state body) t.handle_sends).0
  answered_turn s t d body q r =
      let (x, events) = Xfer.handle s.state body in
      let k = dispatch-Kept uuid aead (record s { state = x }) events t.handle_sends 0 in
      let (steady, silent) = handle-Steady s.state body in
      record {
        key = k.key;
        peer = k.peer;
        request_id = k.request_id;
        cfg = k.cfg ∙ steady.cfg;
        first_data_at = k.first_data_at ∙ steady.first_data_at;
        unheard = λ h.
            let quiet = sym k.got_ack ∙ h in
            (steady.unheard quiet, not_answer uuid aead s.key t d body q r (silent quiet));
      }

  pub packet-Follows :
      (s : Sender Uuid Key Addr) (t : Turn Io) → Follows s t (pump_packet uuid aead s t).0
  unfolding pump_packet
  packet-Follows s t = elim (Input-cases t.input) [
    | inr (inl (e, q)) ↦
        silent_turn s _ t (rw (q, pump_packet) refl) (λ a. let e' = sym a.2 ∙ q in cc)
    | inr (inr q) ↦ silent_turn s _ t (rw (q, pump_packet) refl) (λ a. let e' = sym a.2 ∙ q in cc)
    | inl (d, q) ↦ elim (Result-cases (open_reply uuid aead s.key d)) [
      | inr (e, r) ↦
          silent_turn s _ t (rw (q, pump_packet) (rw r refl)) (no_reply uuid aead s.key t d e q r)
      | inl (body, r) ↦
          subst (λ (u : Sender Uuid Key Addr). Follows s t u)
            (sym (rw (q, pump_packet) (rw r refl))) (answered_turn s t d body q r)
    ]
  ]

  -- The timers of a turn leave what its packet left.
  pub timers-Follows :
      (s p : Sender Uuid Key Addr) (t : Turn Io)
      → Follows s t p
      → Follows s t (pump_timers uuid aead t p).0
  timers-Follows s p t f =
      let (x, events) = Xfer.tick p.state t.ticked_at in
      let k = dispatch-Kept uuid aead (record p { state = x }) events t.tick_sends 0 in
      let steady = tick-Steady p.state t.ticked_at in
      record {
        key = k.key ∙ f.key;
        peer = k.peer ∙ f.peer;
        request_id = k.request_id ∙ f.request_id;
        cfg = k.cfg ∙ steady.cfg ∙ f.cfg;
        first_data_at = k.first_data_at ∙ steady.first_data_at ∙ f.first_data_at;
        unheard = λ h. f.unheard (steady.unheard (sym k.got_ack ∙ h));
      }

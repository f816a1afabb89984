-- ===== src/Runtime/Entry/Numbering.antt =====
-- The control numbers under which an entry of protofish4/src/receiver.rs seals its replies.
use protofish4_rs.Base.{
  ℕ, suc, ◌+◌, ◌≤◌, ◌<◌, ◌≡◌, refl, sym, ap, ◌∙◌, inl, inr, List, [], ◌∷◌, ◌++◌, arith, ok, err,
  ◌>>=◌, length, length-append, Result-cases, Option-cases, subst,
}
use protofish4_rs.Types.{Instant, UuidApi, recv, u32_mod, u32_max, next_control_seq}
use protofish4_rs.Frame.{
  Body, body_kind, body_nack, body_ack, body_end_ack, kind_direction, kind_seq_class,
}
use protofish4_rs.Codec.{encode_body}
use protofish4_rs.Failure.{Fallible}
use protofish4_rs.Header.{Header, parse, to_bytes}
use protofish4_rs.Header.RoundTrip.{IsRequestId, parse-to_bytes}
use protofish4_rs.Crypto.{AeadApi, seal, nonce_for}
use protofish4_rs.Config.{ReceiverConfig}
use protofish4_rs.Receiver
use protofish4_rs.Receiver.{
  XferReceiver, RecvEvent, unreliable, reliable, send_nack, send_ack, send_end_ack, rel_finished,
  closed_event,
}
use protofish4_rs.Receiver.Runs
use protofish4_rs.Runtime.Entry.{
  World, Entry, Applied, armed, note_drop, reply_if, take_outcome, seal_body, apply_event,
  apply_from, apply, on_packet, on_tick, on_report, to_option, learn_peer,
}
use protofish4_rs.Runtime.Entry.Runs.{
  Call, packet_call, tick_call, report_call, receiver_calls, step, run,
}
use protofish4_rs.Runtime.Entry.Applying.{apply-state}

module _ {Uuid : Type 0} (uuid : UuidApi Uuid) where
  -- Datagrams of that request, with headers of the sink's kinds and numbers that ascend from `lo`
  -- to below `hi`.
  abbrev pub Replies : Uuid → ℕ → ℕ → List (List ℕ) → Type 0
  Replies id lo hi [] = lo ≤ hi
  Replies id lo hi (d ∷ ds) =
      (h : Header Uuid) × (rest : List ℕ) × (parse uuid d ≡ ok (h, rest))
      × (h.request_id ≡ id)
      × (kind_direction h.kind ≡ recv)
      × (lo ≤ h.seq)
      × Replies id (suc h.seq) hi ds

  Replies-weaken :
      (id : Uuid) (lo mid hi : ℕ) (ds : List (List ℕ))
      → lo ≤ mid
      → Replies id mid hi ds
      → Replies id lo hi ds
  Replies-weaken id lo mid hi [] h r = omega arith
  Replies-weaken id lo mid hi (d ∷ ds) h (x, rest, p, i, k, le, r) =
      (x, rest, p, i, k, omega arith, r)

  Replies-top :
      (id : Uuid) (lo mid hi : ℕ) (ds : List (List ℕ))
      → mid ≤ hi
      → Replies id lo mid ds
      → Replies id lo hi ds
  Replies-top id lo mid hi [] h r = omega arith
  Replies-top id lo mid hi (d ∷ ds) h (x, rest, p, i, k, le, r) =
      (x, rest, p, i, k, le, Replies-top id (suc x.seq) mid hi ds h r)

  Replies-append :
      (id : Uuid) (lo mid hi : ℕ) (xs ys : List (List ℕ))
      → Replies id lo mid xs
      → Replies id mid hi ys
      → Replies id lo hi (xs ++ ys)
  Replies-append id lo mid hi [] ys r q = Replies-weaken id lo mid hi ys r q
  Replies-append id lo mid hi (d ∷ ds) ys (x, rest, p, i, k, le, r) q =
      (x, rest, p, i, k, le, Replies-append id (suc x.seq) mid hi ds ys r q)

module _ {Uuid Key : Type 0} (uuid : UuidApi Uuid) (aead : AeadApi Key) where
  -- One sealed reply.
  seal-parse :
      (key : Key) (h : Header Uuid) (plaintext d : List ℕ)
      → IsRequestId uuid h.request_id
      → h.seq < u32_mod
      → seal uuid aead key h recv plaintext ≡ ok d
      → (rest : List ℕ) × (parse uuid d ≡ ok (h, rest))
  unfolding seal
  seal-parse key h plaintext d v fits e =
      elim (Option-cases (
        aead.encrypt key (nonce_for recv (kind_seq_class h.kind) h.seq) plaintext
          (to_bytes uuid h))) [
            | inl p ↦ absurd (ground arith)
            | inr (c, p) ↦ (c, ground (arith, parse-to_bytes uuid h c v fits))
          ]

module _ {Uuid Key Addr : Type 0} (uuid : UuidApi Uuid) (aead : AeadApi Key) where
  -- What a call does to the counter and the replies, with `n` events at most.
  abbrev Numbers : Uuid → ℕ → ℕ → Applied Key Addr → Type 0
  Numbers id from n r =
      (r.0.control_seq ≤ from + n)
      × (from ≤ r.0.control_seq)
      × Replies uuid id from r.0.control_seq r.2

  reply_if-Numbers :
      (e e' : Entry Key Addr) (id : Uuid) (h : Header Uuid) (plaintext : Fallible Uuid (List ℕ))
      → IsRequestId uuid id
      → h.request_id ≡ id
      → kind_direction h.kind ≡ recv
      → h.seq ≡ e.control_seq
      → e'.control_seq ≡ suc e.control_seq
      → e.control_seq < u32_mod
      → Numbers id e.control_seq 1
          (reply_if (e', to_option (plaintext >>= seal uuid aead e.key h recv)))
  reply_if-Numbers e e' id h (err x) v a dir b c fits = (omega arith, omega arith, omega arith)
  reply_if-Numbers e e' id h (ok plaintext) v a dir b c fits =
      elim (Result-cases (seal uuid aead e.key h recv plaintext)) [
        | inr (x, p) ↦ rw p (omega arith, omega arith, omega arith)
        | inl (d, p) ↦
            let (rest, parsed) =
              seal-parse uuid aead e.key h plaintext d (subst (IsRequestId uuid) (sym a) v)
                (omega arith) p in
            rw p (omega arith, omega arith, (h, rest, parsed, a, dir, omega arith, omega arith))
      ]

  seal_body-Numbers :
      (e : Entry Key Addr) (id : Uuid) (body : Body)
      → IsRequestId uuid id
      → kind_direction (body_kind body) ≡ recv
      → e.control_seq < u32_max
      → Numbers id e.control_seq 1 (reply_if (seal_body uuid aead e id body))
  unfolding seal_body
  seal_body-Numbers e id body v dir fits =
      reply_if-Numbers e (record e { control_seq = next_control_seq e.control_seq }) id
        (record { kind = body_kind body; request_id = id; seq = e.control_seq }) (encode_body body)
        v refl dir refl (omega arith) (omega arith)

  apply_event-Numbers :
      (e : Entry Key Addr) (id : Uuid) (ev : RecvEvent) (w : World) (i : ℕ)
      → IsRequestId uuid id
      → e.control_seq < u32_max
      → Numbers id e.control_seq 1 (apply_event uuid aead e id ev w i)
  unfolding apply_event note_drop take_outcome
  apply_event-Numbers e id (unreliable f) w i v fits = ground arith
  apply_event-Numbers e id (reliable f) w i v fits = ground arith
  apply_event-Numbers e id (send_nack m) w i v fits =
      seal_body-Numbers e id (body_nack m) v refl fits
  apply_event-Numbers e id (send_ack c g b) w i v fits =
      seal_body-Numbers e id (body_ack c g _) v refl fits
  apply_event-Numbers e id send_end_ack w i v fits = seal_body-Numbers e id body_end_ack v refl fits
  apply_event-Numbers e id (rel_finished o) w i v fits = ground arith
  apply_event-Numbers e id closed_event w i v fits = ground arith

  Numbers-append :
      (id : Uuid) (from n m : ℕ) (r q : Applied Key Addr)
      → Numbers id from n r
      → Numbers id r.0.control_seq m q
      → Numbers id from (n + m) (q.0, r.1 ++ q.1, r.2 ++ q.2)
  Numbers-append id from n m r q (a, b, c) (x, y, z) = (
    omega arith,
    omega arith,
    Replies-append uuid id from r.0.control_seq q.0.control_seq r.2 q.2 c z,
  )

  apply_from-Numbers :
      (e : Entry Key Addr) (id : Uuid) (events : List RecvEvent) (w : World) (i : ℕ)
      → IsRequestId uuid id
      → e.control_seq + length events < u32_mod
      → Numbers id e.control_seq (length events) (apply_from uuid aead e id events w i)
  unfolding apply_from
  apply_from-Numbers e id [] w i v fits = (omega arith, omega arith, omega arith)
  apply_from-Numbers e id (ev ∷ events) w i v fits =
      let r : Applied Key Addr = apply_event uuid aead e id ev w i in
      let first = apply_event-Numbers e id ev w i v (omega arith) in
      let n : 1 + length events ≡ suc (length events) = omega arith in
      subst (λ (k : ℕ). Numbers id e.control_seq k (apply_from uuid aead e id (ev ∷ events) w i)) n
        (Numbers-append id e.control_seq 1 (length events) r
          (apply_from uuid aead r.0 id events w (suc i)) first
          (apply_from-Numbers r.0 id events w (suc i) v (omega (arith, first.0))))

  -- One step of the receiver and the calls after it.
  step-Numbers :
      (e : Entry Key Addr) (id : Uuid) (s : Receiver.Step) (w : World)
      (calls : List (Call Addr × Instant))
      → IsRequestId uuid id
      → e.state ≡ s.0
      → let r = apply uuid aead e id s.1 w in
        let more = length (Runs.run r.0.state (receiver_calls calls)).1 in
        let events = s.1 ++ (Runs.run s.0 (receiver_calls calls)).1 in
        let q = run uuid aead r.0 id calls in
        (r.0.control_seq + more < u32_mod → Numbers id r.0.control_seq more q)
        → e.control_seq + length events < u32_mod
        → Numbers id e.control_seq (length events) (q.0, r.1 ++ q.1, r.2 ++ q.2)
  step-Numbers e id s w calls v same ih fits =
      let r : Applied Key Addr = apply uuid aead e id s.1 w in
      let q : Applied Key Addr = run uuid aead r.0 id calls in
      let more : ℕ = length (Runs.run r.0.state (receiver_calls calls)).1 in
      let whole : length (s.1 ++ (Runs.run s.0 (receiver_calls calls)).1) ≡ length s.1 + more =
        length-append s.1 (Runs.run s.0 (receiver_calls calls)).1
        ∙ ap (λ (t : XferReceiver). length s.1 + length (Runs.run t (receiver_calls calls)).1)
            (sym (apply-state uuid aead e id s.1 w ∙ same)) in
      let first : Numbers id e.control_seq (length s.1) r =
        unfold apply in apply_from-Numbers e id s.1 w 0 v (omega arith) in
      subst (λ (k : ℕ). Numbers id e.control_seq k (q.0, r.1 ++ q.1, r.2 ++ q.2)) (sym whole)
        (Numbers-append id e.control_seq (length s.1) more r q first (ih (omega (arith, first.0))))

  run-Numbers :
      (e : Entry Key Addr) (id : Uuid) (calls : List (Call Addr × Instant))
      → IsRequestId uuid id
      → e.control_seq + length (Runs.run e.state (receiver_calls calls)).1 < u32_mod
      → Numbers id e.control_seq
          (length (Runs.run e.state (receiver_calls calls)).1)
          (run uuid aead e id calls)
  unfolding run Runs.run step Runs.step on_packet on_tick
  run-Numbers e id [] v fits = (omega arith, omega arith, omega arith)
  run-Numbers e id ((packet_call seq body from w, now) ∷ calls) v fits =
      let s : Receiver.Step = Receiver.handle e.state seq body now in
      let e' : Entry Key Addr = record e { peer = learn_peer e.peer from; state = s.0 } in
      step-Numbers e' id s w calls v refl (run-Numbers (apply uuid aead e' id s.1 w).0 id calls v)
        fits
  run-Numbers e id ((tick_call w, now) ∷ calls) v fits =
      let s : Receiver.Step = Receiver.tick e.state now in
      let e' : Entry Key Addr = record e { state = s.0 } in
      step-Numbers e' id s w calls v refl (run-Numbers (apply uuid aead e' id s.1 w).0 id calls v)
        fits
  run-Numbers e id ((report_call ms, now) ∷ calls) v fits =
      run-Numbers (on_report uuid aead e ms now) id calls v fits

  -- Over a run of an entry since it was armed, with fewer than 2 ^ 32 events of its receiver, every
  -- reply is a datagram of its request whose header has a kind that only a sink sends, and the
  -- control numbers of the replies ascend from 0, none used twice.
  pub run-Replies :
      (key : Key) (cfg : ReceiverConfig) (start : Instant) (id : Uuid)
      (calls : List (Call Addr × Instant))
      → IsRequestId uuid id
      → length (Runs.run (Receiver.new cfg start) (receiver_calls calls)).1 < u32_mod
      → Replies uuid id 0 u32_mod (run uuid aead (armed key cfg start) id calls).2
  unfolding armed
  run-Replies key cfg start id calls v fits =
      let (few, grows, replies) = run-Numbers (armed key cfg start) id calls v (omega arith) in
      Replies-top uuid id 0 _ u32_mod _ (omega arith) replies

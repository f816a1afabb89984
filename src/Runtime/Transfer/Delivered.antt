-- ===== src/Runtime/Transfer/Delivered.antt =====
-- One transfer from end to end: a tap of protofish4/src/sender.rs from `connect` on, whatever it is
-- called with, and the endpoint of protofish4/src/receiver.rs from `arm` on, under any
-- interleaving of its tasks, behind a network that loses, repeats and reorders datagrams.
use Prim.Native.String.{String}
use protofish4_rs.Base.{
  ℕ, ◌+◌, ◌≤◌, ◌<◌, ◌≡◌, inl, inr, List, [], ◌∷◌, ok, arith, All, length, Sublist, subst, suc, ◌⊎◌,
}
use protofish4_rs.Types.{
  TimestampMs, Instant, UuidApi, u32_mod, u32_max, XferSeq, RelOutcome, RelAbortReason, complete,
  aborted,
}
use protofish4_rs.Header.RoundTrip.{IsRequestId}
use protofish4_rs.Crypto.{AeadApi}
use protofish4_rs.Crypto.Sealing.{Decrypts}
use protofish4_rs.Config.{SenderConfig, ReceiverConfig}
use protofish4_rs.Collections.Tables.{Eq}
use protofish4_rs.Runtime.Entry.{Delivery, Entry, armed, Frame}
use protofish4_rs.Runtime.Tap.{Sender, NetApi, connect}
use protofish4_rs.Runtime.Tap.Verbatim.{Op, weight, offered, run_ops}
use protofish4_rs.Runtime.Tap.Counting.{AllTaken}
use protofish4_rs.Runtime.Endpoint.{Endpoint, arm}
use protofish4_rs.Runtime.Endpoint.Sections.{Section, received, run, for_id}
use protofish4_rs.Runtime.Endpoint.Reaching.{Reaches}
use protofish4_rs.Runtime.Endpoint.Requests.{AllFair, Lives, armed_there, run_independent}
use protofish4_rs.Runtime.Transfer.{numbered, Faithful}
use protofish4_rs.Runtime.Transfer.Opening.{AllStamped, Genuine}
use protofish4_rs.Runtime.Transfer.Arrivals.{Authentic, calls-AllCarry}
use protofish4_rs.Runtime.Transfer.Entries.{entry-Faithful}
use protofish4_rs.Frame.{body_data, body_end}
use protofish4_rs.Runtime.Entry.Runs.{told_outcomes}
use protofish4_rs.Runtime.Entry.Shown.{stored_frames}
use protofish4_rs.Runtime.Transfer.Ending.{entry_ends}
use protofish4_rs.Runtime.Transfer.Heard.{Came, heard-All, heard_last}
use protofish4_rs.Runtime.Transfer.Tapped.{offered_light, tap_sends, tap_sends-All}

module _ {Uuid Key Addr : Type 0} (uuid : UuidApi Uuid) (aead : AeadApi Key) (key : Key)
    (id : Uuid) where
  reached-Faithful :
      (cfg : ReceiverConfig) (start : Instant) (y : Entry Key Addr) (rx : List (List ℕ))
      (ds : List Delivery) (frames : List (TimestampMs × List ℕ))
      → Reaches uuid aead id (armed key cfg start) y rx ds
      → All (Genuine uuid aead key (numbered 1 frames) (length frames)) rx
      → Faithful frames ds
  unfolding armed
  reached-Faithful cfg start y rx ds frames r all = subst (Faithful frames) r.delivered (
      entry-Faithful uuid aead key cfg start id r.calls frames r.fits r.opened
        (calls-AllCarry uuid aead key rx (numbered 1 frames) (length frames) r.calls all r.opens))

  -- Everything came.
  reached_ends :
      (cfg : ReceiverConfig) (start : Instant) (y : Entry Key Addr) (rx : List (List ℕ))
      (ds : List Delivery) (frames : List (TimestampMs × List ℕ)) (end_seq : XferSeq)
      → Decrypts uuid aead
      → IsRequestId uuid id
      → suc (length frames) ≤ u32_mod
      → AllStamped frames
      → end_seq < u32_mod
      → Reaches uuid aead id (armed key cfg start) y rx ds
      → All (Genuine uuid aead key (numbered 1 frames) (length frames)) rx
      → All
          (λ (f : Frame). Came uuid aead key id f.seq (body_data f.ts f.payload) rx)
          (numbered 1 frames)
      → Came uuid aead key id end_seq (body_end (length frames)) rx
      → (o : RelOutcome) × (told_outcomes ds ≡ o ∷ [])
  unfolding armed
  reached_ends cfg start y rx ds frames end_seq decrypts is_id small stamped fits r all came ended =
      let carry =
        calls-AllCarry uuid aead key rx (numbered 1 frames) (length frames) r.calls all r.opens in
      let brought =
        heard-All uuid aead key id 1 frames rx r.calls decrypts is_id (omega (arith, small)) stamped
          r.hears came in
      let finished =
        heard_last uuid aead key id end_seq (length frames) rx r.calls decrypts is_id fits
          (omega (arith, small)) r.hears ended in
      subst (λ (t : List Delivery). (o : RelOutcome) × (told_outcomes t ≡ o ∷ [])) r.delivered
        (entry_ends uuid aead key cfg start id r.calls frames end_seq r.fits carry brought finished)

module _ {Uuid Key Addr Peer Io : Type 0} ⦃e : Eq Uuid⦄ (net : NetApi Peer Io) (uuid : UuidApi Uuid)
    (aead : AeadApi Key) where
  -- From `connect` and `arm` on, under one key and request id, over any calls of the tap, as long as
  -- three for each and nine for each of its turns stay below 2 ^ 32 - 1 in all, and any interleaving
  -- of the sections of the endpoint, while the application holds its reliable channels open and the
  -- request is in the table: when the cipher decrypts what it encrypted, and every datagram that
  -- reaches the endpoint either went out from the tap, in whatever order, as often or as late as the
  -- network likes, or does not open under the key, then the request delivers faithfully the frames
  -- that the tap took, which are some of those handed to `send_frame`, in their order, as many as its
  -- counter says. That is: the reliable channel gets the first of them, numbered from 1, unchanged
  -- and in order; the other channel only frames of them; and the outcome is `complete` only with the
  -- number of them all, and after all were delivered.
  pub transfer_delivers :
      (deliver_to : List String) (id : Uuid) (key : Key) (send_cfg : SenderConfig)
      (s : Sender Uuid Key Peer) (ops : List (Op Io)) (es es' : Endpoint Uuid Key Addr)
      (recv_cfg : ReceiverConfig) (start : Instant)
      (sections : List (Section Uuid Key Addr × Instant))
      → Decrypts uuid aead
      → IsRequestId uuid id
      → connect net deliver_to id key send_cfg ≡ ok s
      → weight ops < u32_max
      → AllStamped (offered ops)
      → arm {Io = Io} es id key recv_cfg start ≡ ok es'
      → AllFair sections
      → Lives uuid aead id es' sections
      → Authentic uuid aead key (run_ops uuid aead s ops).1 (received sections)
      → let t = (run_ops uuid aead s ops).0 in
        (frames : List (TimestampMs × List ℕ)) × Sublist frames (offered ops)
        × (t.state.next_seq ≡ 1 + length frames)
        × Faithful frames (for_id id (run uuid aead es' sections).1)
  transfer_delivers deliver_to id key send_cfg s ops es es' recv_cfg start sections decrypts is_id
        connected light stamped is_armed fair lives authentic =
      let (frames, some_of, next, genuine) =
        tap_sends net uuid aead deliver_to id key send_cfg s ops (received sections) decrypts is_id
          connected light stamped authentic in
      let (y, reach, after) =
        run_independent uuid aead id (armed key recv_cfg start) es' sections
          (armed_there uuid aead es es' id key recv_cfg start is_armed) fair lives in
      (
        frames,
        some_of,
        next,
        reached-Faithful uuid aead key id recv_cfg start y (received sections) _ frames reach
            genuine,
      )

  -- In the same situation, when every `send_frame` returned well: the request delivers faithfully the
  -- very frames handed to them: a prefix of them on the reliable channel, in order and unchanged, and
  -- all of them when the outcome is `complete`.
  pub transfer_whole :
      (deliver_to : List String) (id : Uuid) (key : Key) (send_cfg : SenderConfig)
      (s : Sender Uuid Key Peer) (ops : List (Op Io)) (es es' : Endpoint Uuid Key Addr)
      (recv_cfg : ReceiverConfig) (start : Instant)
      (sections : List (Section Uuid Key Addr × Instant))
      → Decrypts uuid aead
      → IsRequestId uuid id
      → connect net deliver_to id key send_cfg ≡ ok s
      → weight ops < u32_max
      → AllStamped (offered ops)
      → AllTaken uuid aead s ops
      → arm {Io = Io} es id key recv_cfg start ≡ ok es'
      → AllFair sections
      → Lives uuid aead id es' sections
      → Authentic uuid aead key (run_ops uuid aead s ops).1 (received sections)
      → Faithful (offered ops) (for_id id (run uuid aead es' sections).1)
  transfer_whole deliver_to id key send_cfg s ops es es' recv_cfg start sections decrypts is_id
        connected light stamped taken is_armed fair lives authentic =
      let (y, reach, after) =
        run_independent uuid aead id (armed key recv_cfg start) es' sections
          (armed_there uuid aead es es' id key recv_cfg start is_armed) fair lives in
      reached-Faithful uuid aead key id recv_cfg start y (received sections) _ (offered ops) reach (
        tap_sends-All net uuid aead deliver_to id key send_cfg s ops (received sections) decrypts
          is_id connected light stamped taken authentic)

  -- In that situation, when also a datagram of every frame, and of an end that announces their
  -- number, has come to the endpoint, in any order and among any others: one outcome was told, and
  -- either the transfer was aborted, or it is complete, and the reliable channel has got all the
  -- frames handed to `send_frame`, in order and unchanged.
  pub transfer_ends :
      (deliver_to : List String) (id : Uuid) (key : Key) (send_cfg : SenderConfig)
      (s : Sender Uuid Key Peer) (ops : List (Op Io)) (es es' : Endpoint Uuid Key Addr)
      (recv_cfg : ReceiverConfig) (start : Instant)
      (sections : List (Section Uuid Key Addr × Instant)) (end_seq : XferSeq)
      → Decrypts uuid aead
      → IsRequestId uuid id
      → connect net deliver_to id key send_cfg ≡ ok s
      → weight ops < u32_max
      → AllStamped (offered ops)
      → AllTaken uuid aead s ops
      → arm {Io = Io} es id key recv_cfg start ≡ ok es'
      → AllFair sections
      → Lives uuid aead id es' sections
      → Authentic uuid aead key (run_ops uuid aead s ops).1 (received sections)
      → All
          (λ (f : Frame).
            Came uuid aead key id f.seq (body_data f.ts f.payload) (received sections))
          (numbered 1 (offered ops))
      → end_seq < u32_mod
      → Came uuid aead key id end_seq (body_end (length (offered ops))) (received sections)
      → let ds = for_id id (run uuid aead es' sections).1 in
        ((reason : RelAbortReason) × (told_outcomes ds ≡ aborted reason ∷ []))
        ⊎ ((told_outcomes ds ≡ complete (length (offered ops)) ∷ [])
            × (stored_frames ds ≡ numbered 1 (offered ops)))
  transfer_ends deliver_to id key send_cfg s ops es es' recv_cfg start sections end_seq decrypts
        is_id connected light stamped taken is_armed fair lives authentic came fits ended =
      let (y, reach, after) =
        run_independent uuid aead id (armed key recv_cfg start) es' sections
          (armed_there uuid aead es es' id key recv_cfg start is_armed) fair lives in
      let genuine =
        tap_sends-All net uuid aead deliver_to id key send_cfg s ops (received sections) decrypts
          is_id connected light stamped taken authentic in
      let faithful =
        reached-Faithful uuid aead key id recv_cfg start y (received sections) _ (offered ops) reach
          genuine in
      let (o, told) =
        reached_ends uuid aead key id recv_cfg start y (received sections) _ (offered ops) end_seq
          decrypts is_id (omega (arith, light, offered_light ops)) stamped fits reach genuine came
          ended in
      elim faithful.2 [ inl e ↦ absurd (ground (arith, e, told)) | inr h ↦ h ]

-- ===== src/Runtime/Transfer/Tapped.antt =====
-- What reaches an endpoint from a tap of protofish4/src/sender.rs, over any calls of the tap.
use Prim.Native.String.{String}
use protofish4_rs.Base.{
  ℕ, ◌+◌, ◌≤◌, ◌<◌, ◌≡◌, sym, ap, ◌∙◌, inl, inr, List, [], ◌∷◌, ok, arith, All, length, Sublist,
  Sublist-length, subst,
}
use protofish4_rs.Types.{TimestampMs, UuidApi, u32_mod, u32_max}
use protofish4_rs.Header.RoundTrip.{IsRequestId}
use protofish4_rs.Crypto.{AeadApi}
use protofish4_rs.Crypto.Sealing.{Decrypts}
use protofish4_rs.Config.{SenderConfig}
use protofish4_rs.Sender as Xfer
use protofish4_rs.Sender.{XferSender, SendEvent}
use protofish4_rs.Sender.Runs
use protofish4_rs.Sender.Frames.{pushed, run-IsStream}
use protofish4_rs.Runtime.Tap.{Sender, NetApi, connect}
use protofish4_rs.Runtime.Tap.Verbatim.{
  Op, frame_op, finish_op, weight, offered, run_ops, run_ops-Sends, connect_first-new,
}
use protofish4_rs.Runtime.Tap.Counting.{AllTaken, ops_count}
use protofish4_rs.Runtime.Transfer.{numbered}
use protofish4_rs.Runtime.Transfer.Opening.{AllStamped, Genuine}
use protofish4_rs.Runtime.Transfer.Origins.{sent-Genuine}
use protofish4_rs.Runtime.Transfer.Arrivals.{Authentic, arrived-Genuine}

sub-AllStamped :
    (fs gs : List (TimestampMs × List ℕ)) → Sublist fs gs → AllStamped gs → AllStamped fs
sub-AllStamped [] gs s h = tt
sub-AllStamped (f ∷ fs) [] s h = elim s [ ]
sub-AllStamped (f ∷ fs) (g ∷ gs) (inl (e, s)) h = (rw e h.0, sub-AllStamped fs gs s h.1)
sub-AllStamped (f ∷ fs) (g ∷ gs) (inr s) h = sub-AllStamped (f ∷ fs) gs s h.1

pub offered_light : {Io : Type 0} (ops : List (Op Io)) → length (offered ops) ≤ weight ops
offered_light [] = omega arith
offered_light (frame_op ts payload d ∷ ops) = omega (arith, offered_light ops)
offered_light (finish_op d ∷ ops) = omega (arith, offered_light ops)

module _ {Uuid Key Peer Io : Type 0} (net : NetApi Peer Io) (uuid : UuidApi Uuid)
    (aead : AeadApi Key) where
  -- What a tap took, and what any datagrams that are authentic open to.
  pub tap_sends :
      (deliver_to : List String) (id : Uuid) (key : Key) (cfg : SenderConfig)
      (s : Sender Uuid Key Peer) (ops : List (Op Io)) (rx : List (List ℕ))
      → Decrypts uuid aead
      → IsRequestId uuid id
      → connect net deliver_to id key cfg ≡ ok s
      → weight ops < u32_max
      → AllStamped (offered ops)
      → Authentic uuid aead key (run_ops uuid aead s ops).1 rx
      → let t = (run_ops uuid aead s ops).0 in
        (frames : List (TimestampMs × List ℕ)) × Sublist frames (offered ops)
        × (t.state.next_seq ≡ 1 + length frames)
        × All (Genuine uuid aead key (numbered 1 frames) (length frames)) rx
  tap_sends deliver_to id key cfg s ops rx decrypts is_id connected light stamped authentic =
      let (calls, state, few, some_of, sends, distinct) =
        run_ops-Sends net uuid aead deliver_to id key cfg s ops connected light in
      let events : List SendEvent = (Runs.run (Xfer.new cfg) calls).1 in
      let frames : List (TimestampMs × List ℕ) = pushed events in
      let (stream, next) = run-IsStream cfg calls (omega (arith, few)) in
      let small : length frames < u32_mod =
        omega (arith, (Sublist-length frames (offered ops) some_of).0, offered_light ops) in
      let sent =
        sent-Genuine uuid aead key id (length frames) events (run_ops uuid aead s ops).1 decrypts
          is_id small stream (sub-AllStamped frames (offered ops) some_of stamped) sends in
      (
        frames,
        some_of,
        sym (ap (λ (x : XferSender). x.next_seq) state) ∙ next,
        arrived-Genuine uuid aead key (run_ops uuid aead s ops).1 rx (numbered 1 frames)
            (length frames) sent authentic,
      )

  -- When every `send_frame` returned well, it took all of them.
  pub tap_sends-All :
      (deliver_to : List String) (id : Uuid) (key : Key) (cfg : SenderConfig)
      (s : Sender Uuid Key Peer) (ops : List (Op Io)) (rx : List (List ℕ))
      → Decrypts uuid aead
      → IsRequestId uuid id
      → connect net deliver_to id key cfg ≡ ok s
      → weight ops < u32_max
      → AllStamped (offered ops)
      → AllTaken uuid aead s ops
      → Authentic uuid aead key (run_ops uuid aead s ops).1 rx
      → All (Genuine uuid aead key (numbered 1 (offered ops)) (length (offered ops))) rx
  unfolding Xfer.new
  tap_sends-All deliver_to id key cfg s ops rx decrypts is_id connected light stamped taken
        authentic =
      let (frames, some_of, next, genuine) =
        tap_sends deliver_to id key cfg s ops rx decrypts is_id connected light stamped authentic in
      let (same_key, same_id, is_new) =
        connect_first-new net uuid aead deliver_to deliver_to id key cfg s connected in
      let first : s.state.next_seq ≡ 1 = ap (λ (x : XferSender). x.next_seq) is_new in
      let counted = ops_count uuid aead ops s (omega (arith, first, offered_light ops)) taken in
      let all : frames ≡ offered ops =
        (Sublist-length frames (offered ops) some_of).1 (omega (arith, next, counted, first)) in
      subst (λ fs. All (Genuine uuid aead key (numbered 1 fs) (length fs)) rx) all genuine

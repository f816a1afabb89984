-- ===== src/Runtime/Tap/Verbatim.antt =====
-- Everything that a tap of protofish4/src/sender.rs sends, over any sequence of calls.
use Prim.Native.String.{String}
use protofish4_rs.Base.{
  ℕ, ◌+◌, ◌*◌, ◌≤◌, ◌<◌, Sublist, ◌≡◌, sym, List, [], ◌∷◌, ◌++◌, ok, arith, length, subst,
}
use protofish4_rs.Types.{TimestampMs, Instant, UuidApi, u32_max}
use protofish4_rs.Crypto.{AeadApi}
use protofish4_rs.Config.{SenderConfig}
use protofish4_rs.Ring
use protofish4_rs.Ring.Entries.{Each}
use protofish4_rs.Sender as Xfer
use protofish4_rs.Sender.{XferSender, SendEvent}
use protofish4_rs.Sender.Runs.{Call, run}
use protofish4_rs.Sender.Frames.{pushed}
use protofish4_rs.Sender.Nonces.{nonces, Distinct, run-nonces-Distinct}
use protofish4_rs.Runtime.Tap.{
  Sender, Loop, Drive, NetApi, send_frame, finish, connect, connect_first,
}
use protofish4_rs.Runtime.Tap.Sending.{In, Sends}
use protofish4_rs.Runtime.Tap.Dispatched.{Tied}
use protofish4_rs.Runtime.Tap.Calls.{Frames, Ran, Ran-refl, Ran-trans}
use protofish4_rs.Runtime.Tap.Loops.{frame-Ran, finish-Ran}

-- A call of one of the public methods.
pub data Op (Io : Type 0) : Type 0 where
  frame_op : TimestampMs → List ℕ → Drive Io → Op Io
  finish_op : Drive Io → Op Io

-- A bound on the calls of the state machine that these make.
abbrev pub weight : {Io : Type 0} → List (Op Io) → ℕ
weight [] = 0
weight (frame_op ts payload d ∷ ops) = 3 + length d.turns * 9 + weight ops
weight (finish_op d ∷ ops) = 3 + length d.turns * 9 + weight ops

-- The frames that these hand over.
abbrev pub offered : {Io : Type 0} → List (Op Io) → Frames
offered [] = []
offered (frame_op ts payload d ∷ ops) = (ts, payload) ∷ offered ops
offered (finish_op d ∷ ops) = offered ops

module _ {Uuid Key Addr Io : Type 0} (uuid : UuidApi Uuid) (aead : AeadApi Key) where
  abbrev pub act : Sender Uuid Key Addr → Op Io → Loop Uuid Key Addr Io
  act s (frame_op ts payload d) = send_frame uuid aead s ts payload d.start d.sends d.turns
  act s (finish_op d) = finish uuid aead s d.start d.sends d.turns

  -- One call after another, whatever each returns, and all that they send.
  unfoldable pub run_ops :
      Sender Uuid Key Addr → List (Op Io) → Sender Uuid Key Addr × List (List ℕ)
  run_ops s [] = (s, [])
  run_ops s (op ∷ ops) =
      let (s', out, r) = act s op in let (s'', out') = run_ops s' ops in (s'', out ++ out')

module _ {Uuid Key Addr Io : Type 0} (uuid : UuidApi Uuid) (aead : AeadApi Key) (key : Key)
    (id : Uuid) where
  ops-Ran :
      (ops : List (Op Io)) (s : Sender Uuid Key Addr) (log : List (List ℕ))
      → Tied uuid aead key id log s
      → let p = run_ops uuid aead s ops in
        Ran uuid aead key id (weight ops) (offered ops) s log p.0 p.1
  unfolding run_ops
  ops-Ran [] s log tied = Ran-refl uuid aead key id 0 [] s log tied
  ops-Ran (frame_op ts payload d ∷ ops) s log tied =
      let r = frame-Ran uuid aead key id d.turns s log ts payload d.start d.sends tied in
      Ran-trans uuid aead key id (3 + length d.turns * 9) (weight ops) ((ts, payload) ∷ [])
        (offered ops) s _ _ log _ _ r (ops-Ran ops _ _ r.tied)
  ops-Ran (finish_op d ∷ ops) s log tied =
      let r = finish-Ran uuid aead key id s log d.start d.sends d.turns tied in
      Ran-trans uuid aead key id (3 + length d.turns * 9) (weight ops) [] (offered ops) s _ _ log _
        _ r (ops-Ran ops _ _ r.tied)

module _ {Uuid Key Addr Io : Type 0} (net : NetApi Addr Io) (uuid : UuidApi Uuid)
    (aead : AeadApi Key) where
  pub connect_first-new :
      (all rest : List String) (id : Uuid) (key : Key) (cfg : SenderConfig)
      (s : Sender Uuid Key Addr)
      → connect_first net all rest id key cfg ≡ ok s
      → (s.key ≡ key) × (s.request_id ≡ id) × (s.state ≡ Xfer.new cfg)
  unfolding connect_first
  connect_first-new all [] id key cfg s e = absurd (ground arith)
  connect_first-new all (authority ∷ rest) id key cfg s e =
      ground (arith, connect_first-new all rest id key cfg s)

  -- From `connect` on, over any calls of a tap, however the network behaves and whatever the calls
  -- return, as long as three for each call and nine for each of its turns stay below 2 ^ 32 - 1 in
  -- all: some run of a new state machine, of at most that many
  -- calls, ends in the tap's state, takes some of the frames that the
  -- calls of `send_frame` hand over, in their order, and what went out are, in order,
  -- packets that this run emitted, each sealed once at most, under its own number and with a nonce
  -- that no other has, and retransmissions, each byte for byte a datagram that went out before.
  pub run_ops-Sends :
      (deliver_to : List String) (id : Uuid) (key : Key) (cfg : SenderConfig)
      (s : Sender Uuid Key Addr) (ops : List (Op Io))
      → connect net deliver_to id key cfg ≡ ok s
      → weight ops < u32_max
      → let r = run_ops uuid aead s ops in
        (calls : List (Call × Instant)) × ((run (Xfer.new cfg) calls).0 ≡ r.0.state)
        × (length calls ≤ weight ops)
        × Sublist (pushed (run (Xfer.new cfg) calls).1) (offered ops)
        × Sends uuid aead key id [] (run (Xfer.new cfg) calls).1 r.1
        × Distinct (nonces (run (Xfer.new cfg) calls).1)
  run_ops-Sends deliver_to id key cfg s ops e small =
      let (same_key, same_id, is_new) = connect_first-new deliver_to deliver_to id key cfg s e in
      let tied : Tied uuid aead key id [] s = record {
        same_key = same_key;
        same_id = same_id;
        held =
            subst (λ (x : XferSender). Each (λ (d : List ℕ). In d []) x.ring.entries) (sym is_new)
              (unfold Xfer.new in unfold Ring.new in tt);
      } in
      let r = ops-Ran uuid aead key id ops s [] tied in
      (
        r.calls,
        subst (λ (x : XferSender). (run x r.calls).0 ≡ (run_ops uuid aead s ops).0.state) is_new
            r.state,
        r.few,
        subst (λ (x : XferSender). Sublist (pushed (run x r.calls).1) (offered ops)) is_new
            r.pushes,
        subst
            (λ (x : XferSender).
              Sends uuid aead key id [] (run x r.calls).1 (run_ops uuid aead s ops).1)
            is_new r.sends,
        run-nonces-Distinct cfg r.calls (omega (arith, r.few)),
      )

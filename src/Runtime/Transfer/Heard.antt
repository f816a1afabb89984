-- ===== src/Runtime/Transfer/Heard.antt =====
-- Packets of a tap of protofish4/src/sender.rs that come to an endpoint of
-- protofish4/src/receiver.rs, as calls of the entry.
use protofish4_rs.Base.{
  ℕ, suc, ◌+◌, ◌≤◌, ◌<◌, ◌≡◌, inl, inr, List, [], ◌∷◌, arith, All, length, ok, Any,
}
use protofish4_rs.Types.{XferSeq, TimestampMs, Instant, UuidApi, u32_mod}
use protofish4_rs.Frame.{Body, body_data, body_end}
use protofish4_rs.Header.RoundTrip.{IsRequestId}
use protofish4_rs.Crypto.{AeadApi, request_id_of}
use protofish4_rs.Crypto.Sealing.{Decrypts}
use protofish4_rs.Runtime.Entry.{Frame, open_body}
use protofish4_rs.Runtime.Entry.Runs.{Call}
use protofish4_rs.Runtime.Tap.{seal_packet}
use protofish4_rs.Runtime.Endpoint.Reaching.{Brings, Hears}
use protofish4_rs.Runtime.Transfer.{numbered}
use protofish4_rs.Runtime.Transfer.Opening.{AllStamped, data_opens, end_opens}

module _ {Uuid Key : Type 0} (uuid : UuidApi Uuid) (aead : AeadApi Key) (key : Key)
    (id : Uuid) where
  -- A datagram to which this packet is sealed is among these.
  abbrev pub Came : XferSeq → Body → List (List ℕ) → Type 0
  Came seq body rx = Any (λ (d : List ℕ). seal_packet uuid aead key id seq body ≡ ok d) rx

module _ {Uuid Key Addr : Type 0} (uuid : UuidApi Uuid) (aead : AeadApi Key) (key : Key)
    (id : Uuid) where
  heard_first :
      (seq : XferSeq) (body : Body) (rx : List (List ℕ)) (calls : List (Call Addr × Instant))
      → ((d : List ℕ)
          → seal_packet uuid aead key id seq body ≡ ok d
          → (request_id_of uuid aead d ≡ ok id) × (open_body uuid aead key d ≡ ok (seq, body)))
      → Hears uuid aead id key rx calls
      → Came uuid aead key id seq body rx
      → Brings uuid aead seq body calls
  heard_first seq body [] calls opens hears h = elim h [ ]
  heard_first seq body (d ∷ rx) calls opens hears (inl sealed) =
      let (named, opened) = opens d sealed in hears.0 seq body named opened
  heard_first seq body (d ∷ rx) calls opens hears (inr h) =
      heard_first seq body rx calls opens hears.1 h

  pub heard-All :
      (e : ℕ) (frames : List (TimestampMs × List ℕ)) (rx : List (List ℕ))
      (calls : List (Call Addr × Instant))
      → Decrypts uuid aead
      → IsRequestId uuid id
      → e + length frames ≤ u32_mod
      → AllStamped frames
      → Hears uuid aead id key rx calls
      → All
          (λ (f : Frame). Came uuid aead key id f.seq (body_data f.ts f.payload) rx)
          (numbered e frames)
      → All
          (λ (f : Frame). Brings {Addr = Addr} uuid aead f.seq (body_data f.ts f.payload) calls)
          (numbered e frames)
  heard-All e [] rx calls decrypts is_id small stamped hears h = tt
  heard-All e ((ts, payload) ∷ frames) rx calls decrypts is_id small stamped hears h = (
    heard_first e (body_data ts payload) rx calls
        (λ d sealed.
          data_opens uuid aead key id e ts payload d decrypts is_id (omega (arith, small)) stamped.0
            sealed)
        hears h.0,
    heard-All (suc e) frames rx calls decrypts is_id (omega (arith, small)) stamped.1 hears h.1,
  )

  pub heard_last :
      (seq f : XferSeq) (rx : List (List ℕ)) (calls : List (Call Addr × Instant))
      → Decrypts uuid aead
      → IsRequestId uuid id
      → seq < u32_mod
      → f < u32_mod
      → Hears uuid aead id key rx calls
      → Came uuid aead key id seq (body_end f) rx
      → Brings uuid aead seq (body_end f) calls
  heard_last seq f rx calls decrypts is_id fits small hears h =
      heard_first seq (body_end f) rx calls
        (λ d sealed. end_opens uuid aead key id seq f d decrypts is_id fits small sealed) hears h

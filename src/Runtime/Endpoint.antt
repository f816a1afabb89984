-- ===== src/Runtime/Endpoint.antt =====
-- `Endpoint` of protofish4/src/receiver.rs: the table of its entries, behind one lock. Each function
-- is one section under the lock, with what it delivers on the channels of a request and what it
-- then sends on the socket.
pub mod Sections
pub mod Reaching
pub mod Independent
pub mod Requests
pub mod Routing
pub mod Serving
pub mod Live
use protofish4_rs.Base.{
  ℕ, List, [], ◌∷◌, ◌++◌, map, Option, none, some, Bool, true, false, ok, err, if◌then◌else◌,
}
use protofish4_rs.Types.{Instant, UuidApi}
use protofish4_rs.Crypto.{AeadApi, request_id_of}
use protofish4_rs.Config.{ReceiverConfig}
use protofish4_rs.Collections.Tables
use protofish4_rs.Collections.Tables.{Eq}
use protofish4_rs.Runtime.Failure.{duplicate_request, Fallible}
use protofish4_rs.Runtime.Entry.{
  World, Delivery, Entry, armed, open_body, on_packet, on_tick, on_report,
}

abbrev pub Endpoint : Type 0 → Type 0 → Type 0 → Type 0
Endpoint Uuid Key Addr = List (Uuid × Entry Key Addr)

-- The table after a section, what is delivered for which request, and what is sent to whom.
abbrev pub Outcome : Type 0 → Type 0 → Type 0 → Type 0
Outcome Uuid Key Addr = Endpoint Uuid Key Addr × List (Uuid × Delivery) × List (List ℕ × Addr)

-- `if let Some(peer) = peer { … }` on the replies.
abbrev pub address {ℓ} : {Addr : Type ℓ} → Option Addr → List (List ℕ) → List (List ℕ × Addr)
address none out = []
address (some peer) [] = []
address (some peer) (d ∷ out) = (d, peer) ∷ address (some peer) out

abbrev pub tag : {Uuid : Type 0} → Uuid → List Delivery → List (Uuid × Delivery)
tag id [] = []
tag id (d ∷ ds) = (id, d) ∷ tag id ds

module _ {Uuid Key Addr : Type 0} ⦃e : Eq Uuid⦄ where
  -- `arm`, at that instant; the handle and the streams that it returns are the caller's.
  unfoldable pub arm :
      {Io : Type 0}
      → Endpoint Uuid Key Addr
      → Uuid
      → Key
      → ReceiverConfig
      → Instant
      → Fallible Uuid Addr Io (Endpoint Uuid Key Addr)
  arm es id key cfg now = elim (Tables.get id es) [
    | some entry ↦ err (duplicate_request id)
    | none ↦ ok (Tables.insert id (armed key cfg now) es)
  ]

  unfoldable pub disarm : Endpoint Uuid Key Addr → Uuid → Endpoint Uuid Key Addr
  disarm es id = Tables.remove id es

  abbrev pub disarm_if : Option Uuid → Endpoint Uuid Key Addr → Endpoint Uuid Key Addr
  disarm_if none es = es
  disarm_if (some id) es = disarm es id

  -- `for id in &done { entries.remove(id); }`.
  unfoldable pub remove_all : List Uuid → Endpoint Uuid Key Addr → Endpoint Uuid Key Addr
  remove_all [] es = es
  remove_all (id ∷ done) es = remove_all done (Tables.remove id es)

  -- The sink of that request reports its play head, on the clone that `Streams` holds.
  unfoldable pub report :
      UuidApi Uuid
      → AeadApi Key
      → Endpoint Uuid Key Addr
      → Uuid
      → ℕ
      → Instant
      → Endpoint Uuid Key Addr
  report uuid aead es id ms now = elim (Tables.get id es) [
    | none ↦ es
    | some entry ↦ Tables.insert id (on_report uuid aead entry ms now) es
  ]

module _ {Uuid Key Addr : Type 0} ⦃e : Eq Uuid⦄ (uuid : UuidApi Uuid) (aead : AeadApi Key) where
  -- `on_datagram` up to where it lets the lock go, and the request to disarm then.
  unfoldable pub receive :
      Endpoint Uuid Key Addr → List ℕ → Addr → Instant → World → Outcome Uuid Key Addr × Option Uuid
  receive es datagram from now w = elim (request_id_of uuid aead datagram) [
    | err x ↦ ((es, [], []), none)
    | ok id ↦ elim (Tables.get id es) [
      | none ↦ ((es, [], []), none)
      | some entry ↦ elim (open_body uuid aead entry.key datagram) [
        | err x ↦ ((es, [], []), none)
        | ok (seq, body) ↦
            (let (entry', ds, out) = on_packet uuid aead entry id seq body from now w in
              (
                (Tables.insert id entry' es, tag id ds, address entry'.peer out),
                if entry'.state.closed then some id else none,
              ))
      ]
    ]
  ]

  -- The whole of it, when no other section comes between.
  unfoldable pub on_datagram :
      Endpoint Uuid Key Addr → List ℕ → Addr → Instant → World → Outcome Uuid Key Addr
  on_datagram es datagram from now w =
      let ((es', ds, out), finished) = receive es datagram from now w in
      (disarm_if finished es', ds, out)

  -- The loop of `tick` over the keys, and the requests that it finds done.
  unfoldable pub tick_loop :
      Endpoint Uuid Key Addr
      → List Uuid
      → Instant
      → (Uuid → World)
      → Outcome Uuid Key Addr × List Uuid
  tick_loop es [] now ws = ((es, [], []), [])
  tick_loop es (id ∷ ids) now ws = elim (Tables.get id es) [
    | none ↦ tick_loop es ids now ws
    | some entry ↦
        (let (entry', ds, out) = on_tick uuid aead entry id now (ws id) in
          let ((es', ds', out'), done) = tick_loop (Tables.insert id entry' es) ids now ws in
          (
            (es', tag id ds ++ ds', address entry'.peer out ++ out'),
            if entry'.state.closed then id ∷ done else done,
          ))
  ]

  -- `ids` are the keys of the table, in the order in which the `HashMap` iterates.
  unfoldable pub tick :
      Endpoint Uuid Key Addr → List Uuid → Instant → (Uuid → World) → Outcome Uuid Key Addr
  tick es ids now ws =
      let ((es', ds, out), done) = tick_loop es ids now ws in (remove_all done es', ds, out)

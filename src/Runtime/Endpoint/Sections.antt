-- ===== src/Runtime/Endpoint/Sections.antt =====
-- The sections under the lock of protofish4/src/receiver.rs, in any order, and what each does to one
-- request. Tasks run them concurrently, one at a time: a run is any sequence of them.
use protofish4_rs.Base.{ℕ, ◌≡◌, refl, List, [], ◌∷◌, ◌++◌, Result, ok, err, arith, if◌then◌else◌}
use protofish4_rs.Types.{Instant, UuidApi}
use protofish4_rs.Types.Bytes.{IsBytes}
use protofish4_rs.Crypto.{AeadApi}
use protofish4_rs.Config.{ReceiverConfig}
use protofish4_rs.Collections.Tables.{Eq, ◌=?◌}
use protofish4_rs.Runtime.Entry.{World, Delivery}
use protofish4_rs.Runtime.Entry.Runs.{IsOpen}
use protofish4_rs.Runtime.Endpoint.{Endpoint, Outcome, tag, arm, disarm, report, receive, tick}

pub data Section (Uuid Key Addr : Type 0) : Type 0 where
  arm_section : Uuid → Key → ReceiverConfig → Section Uuid Key Addr
  receive_section : List ℕ → Addr → World → Section Uuid Key Addr
  disarm_section : Uuid → Section Uuid Key Addr
  tick_section : List Uuid → (Uuid → World) → Section Uuid Key Addr
  report_section : Uuid → ℕ → Section Uuid Key Addr

-- Datagrams are bytes, and the application keeps its reliable channels open.
abbrev pub IsFair : {Uuid Key Addr : Type 0} → Section Uuid Key Addr → Type 0
IsFair (receive_section datagram from w) = IsBytes datagram × IsOpen w
IsFair {Uuid} (tick_section ids ws) = (id : Uuid) → IsOpen (ws id)
IsFair _ = Unit

-- The datagrams that arrive, of any request.
abbrev pub datagrams : {Uuid Key Addr : Type 0} → Section Uuid Key Addr → List (List ℕ)
datagrams (receive_section datagram from w) = datagram ∷ []
datagrams _ = []

abbrev pub received :
    {Uuid Key Addr : Type 0} → List (Section Uuid Key Addr × Instant) → List (List ℕ)
received [] = []
received ((section, now) ∷ sections) = datagrams section ++ received sections

-- An `arm` that fails leaves the table as it is.
abbrev pub or_before {ℓ μ} : {E : Type μ} {A : Type ℓ} → Result E A → A → A
or_before (ok a) b = a
or_before (err e) b = b

module _ {Uuid : Type 0} ⦃e : Eq Uuid⦄ where
  -- What is delivered for one request.
  abbrev pub for_id : Uuid → List (Uuid × Delivery) → List Delivery
  for_id id [] = []
  for_id id ((j, d) ∷ ds) = if id =? j then d ∷ for_id id ds else for_id id ds

  pub for_id-append :
      (id : Uuid) (xs ys : List (Uuid × Delivery))
      → for_id id (xs ++ ys) ≡ for_id id xs ++ for_id id ys
  for_id-append id [] ys = refl
  for_id-append id ((j, d) ∷ xs) ys = ground (arith, for_id-append id xs ys)

  pub for_id-tag :
      (id j : Uuid) (ds : List Delivery) → for_id id (tag j ds) ≡ (if id =? j then ds else [])
  for_id-tag id j [] = ground arith
  for_id-tag id j (d ∷ ds) = ground (arith, for_id-tag id j ds)

module _ {Uuid Key Addr : Type 0} ⦃e : Eq Uuid⦄ (uuid : UuidApi Uuid) (aead : AeadApi Key) where
  unfoldable pub step :
      Endpoint Uuid Key Addr → Section Uuid Key Addr → Instant → Outcome Uuid Key Addr
  step es (arm_section id key cfg) now = (or_before (arm {Io = ℕ} es id key cfg now) es, [], [])
  step es (receive_section datagram from w) now = (receive uuid aead es datagram from now w).0
  step es (disarm_section id) now = (disarm es id, [], [])
  step es (tick_section ids ws) now = tick uuid aead es ids now ws
  step es (report_section id ms) now = (report uuid aead es id ms now, [], [])

  unfoldable pub run :
      Endpoint Uuid Key Addr → List (Section Uuid Key Addr × Instant) → Outcome Uuid Key Addr
  run es [] = (es, [], [])
  run es ((section, now) ∷ sections) =
      let (es', ds, out) = step es section now in
      let (es'', ds', out') = run es' sections in (es'', ds ++ ds', out ++ out')

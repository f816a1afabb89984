-- ===== src/Runtime/Endpoint/Independent.antt =====
-- What a section of protofish4/src/receiver.rs does to the entry of one request.
use protofish4_rs.Base.{
  false, true, arith, ℕ, ◌≡◌, refl, sym, ◌∙◌, ◌⊎◌, inl, inr, List, [], ◌∷◌, Option, none, some, ok,
  err, if◌then◌else◌, Bool-cases, Option-cases, Result-cases, subst,
}
use protofish4_rs.Types.{Instant, UuidApi, XferSeq}
use protofish4_rs.Types.Bytes.{IsBytes}
use protofish4_rs.Crypto.{AeadApi, request_id_of}
use protofish4_rs.Config.{ReceiverConfig}
use protofish4_rs.Collections.Tables
use protofish4_rs.Collections.Tables.{Eq, ◌=?◌, get-insert, get-remove}
use protofish4_rs.Receiver.Runs.{AllFit}
use protofish4_rs.Runtime.Entry.{
  World, Delivery, Entry, Applied, armed, open_body, on_packet, on_tick,
}
use protofish4_rs.Runtime.Entry.Runs
use protofish4_rs.Runtime.Entry.Runs.{
  Call, packet_call, tick_call, report_call, receiver_calls, IsOpen, AllOpen,
}
use protofish4_rs.Runtime.Endpoint.{
  Endpoint, Outcome, address, tag, arm, disarm, remove_all, report, receive, tick_loop, tick,
}
use protofish4_rs.Runtime.Endpoint.Sections.{
  datagrams, Section, arm_section, receive_section, disarm_section, tick_section, report_section,
  IsFair, or_before, step, for_id, for_id-append, for_id-tag,
}
use protofish4_rs.Frame.{Body}
use protofish4_rs.Runtime.Endpoint.Reaching.{
  Reaches, OpensTo, Hears, Reaches-refl, Reaches-trans, Reaches-one, open_body-fits,
}

module _ {Uuid Key Addr : Type 0} ⦃e : Eq Uuid⦄ (uuid : UuidApi Uuid) (aead : AeadApi Key) where
  -- The request of `x` after the datagrams `rx`: still in the table, as calls of its own left it, of
  -- packets that those open to, or gone.
  abbrev pub After :
      Uuid
      → Entry Key Addr
      → List (List ℕ)
      → Endpoint Uuid Key Addr
      → List (Uuid × Delivery)
      → Type 0
  After id x rx es ds =
      (y : Entry Key Addr) × Reaches uuid aead id x y rx (for_id id ds)
      × ((Tables.get id es ≡ some y) ⊎ (Tables.get id es ≡ none))

  -- Of no known request, or not under its key.
  -- The request that a datagram names, its entry, and what the datagram opens to under its key.
  unfoldable pub accepted :
      Endpoint Uuid Key Addr → List ℕ → Option (Uuid × Entry Key Addr × XferSeq × Body)
  accepted es d = elim (request_id_of uuid aead d) [
    | err e ↦ none
    | ok id ↦ elim (Tables.get id es) [
      | none ↦ none
      | some x ↦ elim (open_body uuid aead x.key d) [
        | err e ↦ none
        | ok (seq, body) ↦ some (id, x, seq, body)
      ]
    ]
  ]

  abbrev pub Refused : Endpoint Uuid Key Addr → List ℕ → Type 0
  Refused es d = accepted es d ≡ none

  -- A datagram that is accepted, and one that is not.
  pub receive_cases :
      (es : Endpoint Uuid Key Addr) (d : List ℕ) (from : Addr) (now : Instant) (w : World)
      → ((receive uuid aead es d from now w ≡ ((es, [], []), none)) × Refused es d)
        ⊎ ((j : Uuid) × (x : Entry Key Addr) × (seq : XferSeq) × (body : Body) × (request_id_of uuid
                aead d
              ≡ ok j)
            × (Tables.get j es ≡ some x)
            × (open_body uuid aead x.key d ≡ ok (seq, body))
            × (let r = on_packet uuid aead x j seq body from now w in
                receive uuid aead es d from now w ≡ (
                  (Tables.insert j r.0 es, tag j r.1, address r.0.peer r.2),
                  if r.0.state.closed then some j else none,
                )))
  unfolding receive accepted
  receive_cases es d from now w = elim (Result-cases (request_id_of uuid aead d)) [
    | inr (x, p) ↦ inl (rw (p, receive) refl, rw (p, accepted) refl)
    | inl (j, p) ↦ elim (Option-cases (Tables.get j es)) [
      | inl q ↦
          inl (rw (p, receive) (rw (q, receive) refl), rw (p, accepted) (rw (q, accepted) refl))
      | inr (x, q) ↦ elim (Result-cases (open_body uuid aead x.key d)) [
        | inr (z, r) ↦ inl (
          rw (p, receive) (rw (q, receive) (rw (r, receive) refl)),
          rw (p, accepted) (rw (q, accepted) (rw (r, accepted) refl)),
        )
        | inl ((seq, body), r) ↦
            inr (j, x, seq, body, p, q, r, rw (p, receive) (rw (q, receive) (rw (r, receive) refl)))
      ]
    ]
  ]

  -- A section that leaves the request alone.
  After-same :
      (id : Uuid) (x : Entry Key Addr) (rx : List (List ℕ)) (es : Endpoint Uuid Key Addr)
      (ds : List (Uuid × Delivery))
      → Tables.get id es ≡ some x
      → for_id id ds ≡ []
      → Hears {Addr = Addr} uuid aead id x.key rx []
      → After id x rx es ds
  After-same id x rx es ds h k l = (x, rw k (Reaches-refl uuid aead id x rx l), inl h)

  -- One call of one entry, the table with it put back.
  After-put :
      (id j : Uuid) (x y : Entry Key Addr) (rx : List (List ℕ)) (es : Endpoint Uuid Key Addr)
      (c : Call Addr) (now : Instant)
      → Tables.get id es ≡ some x
      → Tables.get j es ≡ some y
      → AllFit (receiver_calls ((c, now) ∷ []))
      → AllOpen ((c, now) ∷ [])
      → OpensTo uuid aead y.key rx ((c, now) ∷ [])
      → Hears uuid aead j y.key rx ((c, now) ∷ [])
      → (id =? j ≡ false → Hears {Addr = Addr} uuid aead id x.key rx [])
      → let r = Runs.step uuid aead y j c now in
        (z : Entry Key Addr) × Reaches uuid aead id x z rx (for_id id (tag j r.1))
        × (Tables.get id (Tables.insert j r.0 es) ≡ some z)
  After-put id j x y rx es c now h k fits opened opens hears others =
      let r : Applied Key Addr = Runs.step uuid aead y j c now in
      elim (Bool-cases (id =? j)) [
        | inl p ↦
            let same : id ≡ j = (e.beq_iff id j).0 p in
            let entry : x ≡ y = cc (h, k, same) in
            let one : Reaches uuid aead j y r.0 rx r.1 =
              Reaches-one uuid aead j y rx c now fits opened opens hears in
            (
              r.0,
              rw (for_id-tag id j r.1, p)
                  (subst (λ (i : Uuid). Reaches uuid aead i x r.0 rx r.1) (sym same)
                    (subst (λ (t : Entry Key Addr). Reaches uuid aead j t r.0 rx r.1) (sym entry)
                      one)),
              rw (get-insert j id r.0 es, p) refl,
            )
        | inr p ↦ (
          x,
          rw (for_id-tag id j r.1, p) (Reaches-refl uuid aead id x rx (others p)),
          rw (get-insert j id r.0 es, p) h,
        )
      ]

  -- A datagram that is refused, or of another request, is not for this one; an accepted one is heard.
  Refused-Hears :
      (id : Uuid) (x : Entry Key Addr) (es : Endpoint Uuid Key Addr) (d : List ℕ)
      → Tables.get id es ≡ some x
      → Refused es d
      → Hears {Addr = Addr} uuid aead id x.key (d ∷ []) []
  unfolding accepted
  Refused-Hears id x es d h refused = (
    λ seq body named opened.
        let found : accepted es d ≡ some (id, x, seq, body) =
          rw (named, accepted) (rw (h, accepted) (rw (opened, accepted) refl)) in
        ground (arith, found, refused),
    tt,
  )

  own-Hears :
      (j : Uuid) (y : Entry Key Addr) (d : List ℕ) (seq : XferSeq) (body : Body) (from : Addr)
      (w : World) (now : Instant)
      → open_body uuid aead y.key d ≡ ok (seq, body)
      → Hears uuid aead j y.key (d ∷ []) ((packet_call seq body from w, now) ∷ [])
  own-Hears j y d seq body from w now c =
      (λ s b named opened. inl (ground (arith, c, opened), ground (arith, c, opened)), tt)

  other-Hears :
      (id j : Uuid) (x : Entry Key Addr) (d : List ℕ)
      → request_id_of uuid aead d ≡ ok j
      → id =? j ≡ false
      → Hears {Addr = Addr} uuid aead id x.key (d ∷ []) []
  other-Hears id j x d a e' = (
    λ seq body named opened.
        let same : id ≡ j = ground (arith, a, named) in
        let yes : id =? j ≡ true = (e.beq_iff id j).1 same in absurd (ground (arith, yes, e')),
    tt,
  )

  receive-After :
      (id : Uuid) (x : Entry Key Addr) (es : Endpoint Uuid Key Addr) (d : List ℕ) (from : Addr)
      (now : Instant) (w : World)
      → Tables.get id es ≡ some x
      → IsBytes d
      → IsOpen w
      → let r = (receive uuid aead es d from now w).0 in After id x (d ∷ []) r.0 r.1
  unfolding Runs.step
  receive-After id x es d from now w h bytes opened = elim (receive_cases es d from now w) [
    | inl (p, refused) ↦
        rw p (After-same id x (d ∷ []) es [] h refl (Refused-Hears id x es d h refused))
    | inr (j, y, seq, body, a, b, c, p) ↦
        let (z, reach, there) =
          After-put id j x y (d ∷ []) es (packet_call seq body from w) now h b
            (open_body-fits uuid aead y.key d seq body bytes c, tt) (opened, tt) (inl c, tt)
            (own-Hears j y d seq body from w now c) (other-Hears id j x d a) in
        rw p (z, reach, inl there)
  ]

  tick_loop-After :
      (id : Uuid) (x : Entry Key Addr) (es : Endpoint Uuid Key Addr) (ids : List Uuid)
      (now : Instant) (ws : Uuid → World)
      → Tables.get id es ≡ some x
      → ((j : Uuid) → IsOpen (ws j))
      → let r = (tick_loop uuid aead es ids now ws).0 in
        (y : Entry Key Addr) × Reaches uuid aead id x y [] (for_id id r.1)
        × (Tables.get id r.0 ≡ some y)
  unfolding tick_loop Runs.step
  tick_loop-After id x es [] now ws h opened = (x, Reaches-refl uuid aead id x [] tt, h)
  tick_loop-After id x es (j ∷ ids) now ws h opened = elim (Option-cases (Tables.get j es)) [
    | inl p ↦ rw (p, tick_loop) (tick_loop-After id x es ids now ws h opened)
    | inr (y, p) ↦
        let r : Applied Key Addr = on_tick uuid aead y j now (ws j) in
        let es' : Endpoint Uuid Key Addr = Tables.insert j r.0 es in
        let rest : Outcome Uuid Key Addr = (tick_loop uuid aead es' ids now ws).0 in
        let (z, reach, there) =
          After-put id j x y [] es (tick_call (ws j)) now h p (tt, tt) (opened j, tt) tt tt
            (λ e. tt) in
        let (z', reach', there') = tick_loop-After id z es' ids now ws there opened in
        rw (p, tick_loop)
          (
            z',
            rw (for_id-append id (tag j r.1) rest.1) (
                Reaches-trans uuid aead id x z z' [] [] (for_id id (tag j r.1)) (for_id id rest.1)
                  reach reach'),
            there',
          )
  ]

  remove_all-get :
      (id : Uuid) (done : List Uuid) (es : Endpoint Uuid Key Addr)
      → (Tables.get id (remove_all done es) ≡ Tables.get id es)
        ⊎ (Tables.get id (remove_all done es) ≡ none)
  unfolding remove_all
  remove_all-get id [] es = inl refl
  remove_all-get id (j ∷ done) es = elim (remove_all-get id done (Tables.remove j es)) [
    | inr p ↦ inr p
    | inl p ↦ elim (Bool-cases (id =? j)) [
      | inl q ↦ inr (p ∙ get-remove j id es ∙ rw q refl)
      | inr q ↦ inl (p ∙ get-remove j id es ∙ rw q refl)
    ]
  ]

  arm-After :
      (id j : Uuid) (x : Entry Key Addr) (es : Endpoint Uuid Key Addr) (key : Key)
      (cfg : ReceiverConfig) (now : Instant)
      → Tables.get id es ≡ some x
      → Tables.get id (or_before (arm {Io = ℕ} es j key cfg now) es) ≡ some x
  unfolding arm
  arm-After id j x es key cfg now h = elim (Option-cases (Tables.get j es)) [
    | inr (y, p) ↦ rw (p, arm) h
    | inl p ↦ elim (Bool-cases (id =? j)) [
      | inl q ↦ let same : id ≡ j = (e.beq_iff id j).0 q in absurd (cc (h, p, same))
      | inr q ↦ rw (p, arm) (rw (get-insert j id (armed key cfg now) es, q) h)
    ]
  ]

  report-After :
      (id j : Uuid) (x : Entry Key Addr) (es : Endpoint Uuid Key Addr) (ms : ℕ) (now : Instant)
      → Tables.get id es ≡ some x
      → After id x [] (report uuid aead es j ms now) []
  unfolding report Runs.step
  report-After id j x es ms now h = elim (Option-cases (Tables.get j es)) [
    | inl p ↦ rw (p, report) (After-same id x [] es [] h refl tt)
    | inr (y, p) ↦
        let (z, reach, there) =
          After-put id j x y [] es (report_call ms) now h p tt tt tt tt (λ e. tt) in
        rw (p, report) (z, reach, inl there)
  ]

  -- One section, whatever it is.
  pub step-After :
      (id : Uuid) (x : Entry Key Addr) (es : Endpoint Uuid Key Addr) (s : Section Uuid Key Addr)
      (now : Instant)
      → Tables.get id es ≡ some x
      → IsFair s
      → let r = step uuid aead es s now in After id x (datagrams s) r.0 r.1
  unfolding step disarm tick
  step-After id x es (arm_section j key cfg) now h fair =
      After-same id x [] _ [] (arm-After id j x es key cfg now h) refl tt
  step-After id x es (receive_section d from w) now h fair =
      receive-After id x es d from now w h fair.0 fair.1
  step-After id x es (disarm_section j) now h fair = elim (Bool-cases (id =? j)) [
    | inl q ↦ (x, Reaches-refl uuid aead id x [] tt, inr (get-remove j id es ∙ rw q refl))
    | inr q ↦ (x, Reaches-refl uuid aead id x [] tt, inl (get-remove j id es ∙ rw q h))
  ]
  step-After id x es (tick_section ids ws) now h fair =
      let (z, reach, there) = tick_loop-After id x es ids now ws h fair in
      let (r, done) = tick_loop uuid aead es ids now ws in
      (z, reach, elim (remove_all-get id done r.0) [ inl p ↦ inl (p ∙ there) | inr p ↦ inr p ])
  step-After id x es (report_section j ms) now h fair = report-After id j x es ms now h

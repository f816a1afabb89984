-- ===== src/Runtime/Endpoint/Requests.antt =====
-- One request on an endpoint of protofish4/src/receiver.rs, over any interleaving of sections.
use protofish4_rs.Base.{
  ℕ, ◌≡◌, ◌≢◌, refl, ◌∙◌, inl, inr, List, [], ◌∷◌, ◌++◌, none, some, arith, append-nil, ok,
  Option-cases, subst,
}
use protofish4_rs.Types.{Instant, UuidApi}
use protofish4_rs.Crypto.{AeadApi}
use protofish4_rs.Config.{ReceiverConfig}
use protofish4_rs.Collections.Tables
use protofish4_rs.Collections.Tables.{Eq, get-insert}
use protofish4_rs.Runtime.Entry.{Entry, armed}
use protofish4_rs.Runtime.Entry.Runs
use protofish4_rs.Runtime.Endpoint.{Endpoint, Outcome, arm}
use protofish4_rs.Runtime.Endpoint.Sections.{
  datagrams, received, Section, IsFair, step, run, for_id, for_id-append,
}
use protofish4_rs.Runtime.Endpoint.Reaching.{Reaches, Reaches-refl, Reaches-trans}
use protofish4_rs.Runtime.Endpoint.Independent.{After, step-After}

abbrev pub AllFair : {Uuid Key Addr : Type 0} → List (Section Uuid Key Addr × Instant) → Type 0
AllFair [] = Unit
AllFair ((s, now) ∷ sections) = IsFair s × AllFair sections

module _ {Uuid Key Addr : Type 0} ⦃e : Eq Uuid⦄ (uuid : UuidApi Uuid) (aead : AeadApi Key) where
  -- The request is in the table before each of the sections.
  abbrev pub Lives : Uuid → Endpoint Uuid Key Addr → List (Section Uuid Key Addr × Instant) → Type 0
  Lives id es [] = Unit
  Lives id es ((s, now) ∷ sections) =
      (Tables.get id es ≢ none) × Lives id (step uuid aead es s now).0 sections

  -- Whatever tasks do with the other requests of an endpoint, an entry ends up where calls of its own
  -- lead: every packet of these calls is what a datagram received meanwhile opens to under its key,
  -- and every such datagram that names the request is among them; and what is delivered for the
  -- request is what these calls deliver. This holds for any sections, of datagrams that are bytes,
  -- while the application holds the reliable channels open, as long as the request is in the table
  -- before each of them.
  pub run_independent :
      (id : Uuid) (x : Entry Key Addr) (es : Endpoint Uuid Key Addr)
      (sections : List (Section Uuid Key Addr × Instant))
      → Tables.get id es ≡ some x
      → AllFair sections
      → Lives id es sections
      → let r = run uuid aead es sections in After uuid aead id x (received sections) r.0 r.1
  unfolding run
  run_independent id x es [] h fair lives = (x, Reaches-refl uuid aead id x [] tt, inl h)
  run_independent id x es ((s, now) ∷ sections) h fair lives =
      let r : Outcome Uuid Key Addr = step uuid aead es s now in
      let q : Outcome Uuid Key Addr = run uuid aead r.0 sections in
      let (y, reach, after) = step-After uuid aead id x es s now h fair.0 in
      elim after [
        | inl there ↦
            let (z, reach', after') = run_independent id y r.0 sections there fair.1 lives.1 in
            (
              z,
              rw (for_id-append id r.1 q.1) (
                  Reaches-trans uuid aead id x y z (datagrams s) (received sections) (for_id id r.1)
                    (for_id id q.1) reach reach'),
              after',
            )
        | inr gone ↦ gone_at_end id x y (datagrams s) r sections gone reach lives.1
      ]
    where
      gone_at_end :
          (id : Uuid) (x y : Entry Key Addr) (rx : List (List ℕ)) (r : Outcome Uuid Key Addr)
          (sections : List (Section Uuid Key Addr × Instant))
          → Tables.get id r.0 ≡ none
          → Reaches uuid aead id x y rx (for_id id r.1)
          → Lives id r.0 sections
          → let q = run uuid aead r.0 sections in
            After uuid aead id x (rx ++ received sections) q.0 (r.1 ++ q.1)
      gone_at_end id x y rx r [] gone reach lives =
          (y, rw (append-nil r.1, append-nil rx) reach, inr gone)
      gone_at_end id x y rx r ((s, now) ∷ sections) gone reach lives = absurd (lives.0 gone)

  pub armed_there :
      {Io : Type 0} (es es' : Endpoint Uuid Key Addr) (id : Uuid) (key : Key) (cfg : ReceiverConfig)
      (start : Instant)
      → arm {Io = Io} es id key cfg start ≡ ok es'
      → Tables.get id es' ≡ some (armed key cfg start)
  unfolding arm
  armed_there es es' id key cfg start h = elim (Option-cases (Tables.get id es)) [
    | inr (x, p) ↦ absurd (ground arith)
    | inl p ↦
        let put : Tables.insert id (armed key cfg start) es ≡ es' = ground arith in
        subst (λ (t : Endpoint Uuid Key Addr). Tables.get id t ≡ some (armed key cfg start)) put
          (get-insert id id (armed key cfg start) es ∙ rw ((e.beq_iff id id).1 refl) refl)
  ]

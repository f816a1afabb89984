-- ===== src/Runtime/Endpoint/Live.antt =====
-- What an endpoint of protofish4/src/receiver.rs keeps: no entry of a transfer that closed.
use protofish4_rs.Base.{
  ◌≡◌, refl, sym, ap, ◌∙◌, ◌⊎◌, inl, inr, List, [], ◌∷◌, Option, none, some, Bool, true, false, Any,
  arith, Option-cases, Bool-cases, Result, ok, err, subst, if◌then◌else◌, ℕ,
}
use protofish4_rs.Types.{Instant, UuidApi}
use protofish4_rs.Crypto.{AeadApi}
use protofish4_rs.Config.{ReceiverConfig}
use protofish4_rs.Receiver
use protofish4_rs.Collections.Tables
use protofish4_rs.Collections.Tables.{Eq, ◌=?◌, get-insert, get-remove}
use protofish4_rs.Runtime.Failure.{Error, io}
use protofish4_rs.Runtime.Entry.{World, Entry, armed, on_tick}
use protofish4_rs.Runtime.Endpoint.{Endpoint, arm, on_datagram, remove_all, tick_loop, tick}
use protofish4_rs.Runtime.Endpoint.Routing.{on_datagram_lem}
use protofish4_rs.Runtime.Endpoint.Serving.{
  Round, arrived, recv_failed, serve, served, IsServable, ServedBy, serve-ServedBy,
}

module _ {Uuid Key Addr : Type 0} ⦃e : Eq Uuid⦄ where
  -- Every entry is of a transfer that is not closed.
  abbrev pub IsLive : Endpoint Uuid Key Addr → Type 0
  IsLive es = (j : Uuid) (x : Entry Key Addr) → Tables.get j es ≡ some x → x.state.closed ≡ false

  pub empty-IsLive : IsLive []
  unfolding Tables.get
  empty-IsLive j x h = absurd (none_some h)
    where
      none_some : {A : Type 0} {a : A} → none ≡ some a → ⊥
      none_some q = cc

  put-IsLive :
      (id : Uuid) (y : Entry Key Addr) (es : Endpoint Uuid Key Addr)
      → y.state.closed ≡ false
      → IsLive es
      → IsLive (Tables.insert id y es)
  put-IsLive id y es fresh live j x h = elim (Bool-cases (j =? id)) [
    | inl p ↦
        let same : y ≡ x = some_same (sym (get-insert id j y es ∙ rw p refl) ∙ h) in
        ap (λ (z : Entry Key Addr). z.state.closed) (sym same) ∙ fresh
    | inr p ↦ live j x (sym (get-insert id j y es ∙ rw p refl) ∙ h)
  ]
    where
      some_same : {A : Type 0} {a b : A} → some a ≡ some b → a ≡ b
      some_same q = cc

  -- A request that is armed is not closed.
  pub arm-IsLive :
      {Io : Type 0} (es es' : Endpoint Uuid Key Addr) (id : Uuid) (key : Key) (cfg : ReceiverConfig)
      (now : Instant)
      → arm {Io = Io} es id key cfg now ≡ ok es'
      → IsLive es
      → IsLive es'
  unfolding arm armed Receiver.new
  arm-IsLive es es' id key cfg now h live = elim (Option-cases (Tables.get id es)) [
    | inr (entry, p) ↦ absurd (err_ok (rw (p, arm) at h))
    | inl p ↦
        subst (λ (t : Endpoint Uuid Key Addr). IsLive t) (ok_same (rw (p, arm) at h))
          (put-IsLive id (armed key cfg now) es refl live)
  ]
    where
      err_ok : {E A : Type 0} {a : A} {x : E} → ◌≡◌ {A = Result E A} (err x) (ok a) → ⊥
      err_ok q = cc

      ok_same : {E A : Type 0} {a b : A} → ◌≡◌ {A = Result E A} (ok a) (ok b) → a ≡ b
      ok_same q = cc

  -- What is left after a removal is none of those removed, and was there before.
  remove_all_cases :
      (done : List Uuid) (es : Endpoint Uuid Key Addr) (j : Uuid) (x : Entry Key Addr)
      → Tables.get j (remove_all done es) ≡ some x
      → (Tables.get j es ≡ some x) × (¬ Any (λ (i : Uuid). j ≡ i) done)
  unfolding remove_all
  remove_all_cases [] es j x h = (h, λ a. a)
  remove_all_cases (id ∷ done) es j x h =
      let (there, others) = remove_all_cases done (Tables.remove id es) j x h in
      let both : (Tables.get j es ≡ some x) × (¬ j ≡ id) =
        ground (arith, there, get-remove id j es, e.beq_iff j id) in
      (both.0, other_than both.1 others)
    where
      other_than :
          ¬ j ≡ id → ¬ Any (λ (i : Uuid). j ≡ i) done → ¬ Any (λ (i : Uuid). j ≡ i) (id ∷ done)
      other_than p q (inl a) = p a
      other_than p q (inr a) = q a

  -- The same with the entry that was ticked first, and that is to be removed if it closed.
  ticked_cases :
      (id j : Uuid) (x y : Entry Key Addr) (es : Endpoint Uuid Key Addr) (done : List Uuid)
      (closed : Bool)
      → y.state.closed ≡ closed
      → Any (λ (i : Uuid). j ≡ i) done
        ⊎ ((x.state.closed ≡ false) ⊎ (Tables.get j (Tables.insert id y es) ≡ some x))
      → Any (λ (i : Uuid). j ≡ i) (if closed then id ∷ done else done)
        ⊎ ((x.state.closed ≡ false) ⊎ (Tables.get j es ≡ some x))
  ticked_cases id j x y es done true p (inl among) = inl (inr among)
  ticked_cases id j x y es done false p (inl among) = inl among
  ticked_cases id j x y es done closed p (inr (inl live)) = inr (inl live)
  ticked_cases id j x y es done true p (inr (inr there)) =
      ground (arith, there, get-insert id j y es, e.beq_iff j id)
  ticked_cases id j x y es done false p (inr (inr there)) =
      ground (arith, there, get-insert id j y es)

module _ {Uuid Key Addr : Type 0} ⦃e : Eq Uuid⦄ (uuid : UuidApi Uuid) (aead : AeadApi Key) where
  -- An entry after the loop of `tick` is to be removed, or not closed, or as it was before.
  tick_loop_cases :
      (es : Endpoint Uuid Key Addr) (ids : List Uuid) (now : Instant) (ws : Uuid → World) (j : Uuid)
      (x : Entry Key Addr)
      → let r = tick_loop uuid aead es ids now ws in
        Tables.get j r.0.0 ≡ some x
        → Any (λ (i : Uuid). j ≡ i) r.1 ⊎ ((x.state.closed ≡ false) ⊎ (Tables.get j es ≡ some x))
  unfolding tick_loop
  tick_loop_cases es [] now ws j x h = inr (inr h)
  tick_loop_cases es (id ∷ ids) now ws j x h = elim (Option-cases (Tables.get id es)) [
    | inl p ↦ rw (p, tick_loop) (tick_loop_cases es ids now ws j x (rw (p, tick_loop) at h))
    | inr (entry, p) ↦
        let y : Entry Key Addr = (on_tick uuid aead entry id now (ws id)).0 in
        let rest = tick_loop uuid aead (Tables.insert id y es) ids now ws in
        rw (p, tick_loop)
          (ticked_cases id j x y es rest.1 y.state.closed refl
            (tick_loop_cases (Tables.insert id y es) ids now ws j x (rw (p, tick_loop) at h)))
  ]

  on_datagram-IsLive :
      (es : Endpoint Uuid Key Addr) (d : List ℕ) (from : Addr) (now : Instant) (w : World)
      → IsLive es
      → IsLive (on_datagram uuid aead es d from now w).0
  on_datagram-IsLive es d from now w live j x h = elim (on_datagram_lem uuid aead es d from now w) [
    | inl (same, refused) ↦ live j x (rw same at h)
    | inr b ↦ ground (arith, b.table j, live j x, h)
  ]

  tick-IsLive :
      (es : Endpoint Uuid Key Addr) (ids : List Uuid) (now : Instant) (ws : Uuid → World)
      → IsLive es
      → IsLive (tick uuid aead es ids now ws).0
  unfolding tick
  tick-IsLive es ids now ws live j x h =
      let r = tick_loop uuid aead es ids now ws in
      let (there, kept) = remove_all_cases r.1 r.0.0 j x h in
      elim (tick_loop_cases es ids now ws j x there) [
        | inl gone ↦ absurd (kept gone)
        | inr (inl open_still) ↦ open_still
        | inr (inr before) ↦ live j x before
      ]

-- The first failure to receive.
abbrev pub first_failure :
    {Uuid Addr Io : Type 0} → List (Round Addr Io) → Option (Error Uuid Addr Io)
first_failure [] = none
first_failure (recv_failed failure ∷ rounds) = some (io failure)
first_failure (arrived datagram from now w ∷ rounds) = first_failure rounds

module _ {Uuid Key Addr Io : Type 0} ⦃e : Eq Uuid⦄ (uuid : UuidApi Uuid) (aead : AeadApi Key) where
  serve-IsLive :
      (rounds : List (Round Addr Io)) (es : Endpoint Uuid Key Addr)
      → IsLive es
      → IsLive (serve uuid aead es rounds).0.0
        × ((serve uuid aead es rounds).1 ≡ first_failure rounds)
  unfolding serve
  serve-IsLive [] es live = (live, refl)
  serve-IsLive (recv_failed failure ∷ rounds) es live = (live, refl)
  serve-IsLive (arrived d from now w ∷ rounds) es live =
      serve-IsLive rounds (on_datagram uuid aead es d from now w).0
        (on_datagram-IsLive uuid aead es d from now w live)

  -- The loop that receives, while no other task comes between, over any datagrams that are bytes and
  -- while the application holds its reliable channels open. It returns with the first failure of the
  -- socket. Until then it does what some sections under the lock do, one after another, which receive
  -- the same datagrams. If no entry of the table was of a closed transfer, none is then, nor is one
  -- after a tick that follows, over whatever keys.
  pub serve_lem :
      (rounds : List (Round Addr Io)) (es : Endpoint Uuid Key Addr)
      → IsServable rounds
      → IsLive es
      → let (r, failure) = serve uuid aead es rounds in
        (failure ≡ first_failure rounds)
        × ServedBy uuid aead es (served rounds) r
        × IsLive r.0
        × ((ids : List Uuid) (now : Instant) (ws : Uuid → World)
            → IsLive (tick uuid aead r.0 ids now ws).0)
  serve_lem rounds es fair live =
      let (live', failure) = serve-IsLive rounds es live in
      (
        failure,
        serve-ServedBy uuid aead rounds es fair,
        live',
        λ ids now ws. tick-IsLive uuid aead _ ids now ws live',
      )

-- ===== src/Runtime/Endpoint/Serving.antt =====
-- `Endpoint::run` of protofish4/src/receiver.rs, the loop that receives, as sections under the lock.
use protofish4_rs.Base.{
  ℕ, ◌≡◌, refl, ap, ◌∙◌, inl, inr, List, [], ◌∷◌, ◌++◌, append-nil, append_assoc, Option, none,
  some, Option-cases,
}
use protofish4_rs.Types.{Instant, UuidApi}
use protofish4_rs.Types.Bytes.{IsBytes}
use protofish4_rs.Crypto.{AeadApi}
use protofish4_rs.Collections.Tables.{Eq}
use protofish4_rs.Runtime.Failure.{Error, io}
use protofish4_rs.Runtime.Entry.{World}
use protofish4_rs.Runtime.Entry.Runs.{IsOpen}
use protofish4_rs.Runtime.Endpoint.{Endpoint, Outcome, receive, on_datagram}
use protofish4_rs.Runtime.Endpoint.Sections.{
  Section, receive_section, disarm_section, received, step, run,
}
use protofish4_rs.Runtime.Endpoint.Requests.{AllFair}

-- How one `recv_from` ends: with what it wrote to the buffer and the sender's address, handled at that
-- instant and in that world, or with a failure.
pub data Round (Addr Io : Type 0) : Type 0 where
  arrived : List ℕ → Addr → Instant → World → Round Addr Io
  recv_failed : Io → Round Addr Io

module _ {Uuid Key Addr Io : Type 0} ⦃e : Eq Uuid⦄ (uuid : UuidApi Uuid) (aead : AeadApi Key) where
  -- `Endpoint::run`, and the error with which it returns, if it does.
  unfoldable pub serve :
      Endpoint Uuid Key Addr
      → List (Round Addr Io)
      → Outcome Uuid Key Addr × Option (Error Uuid Addr Io)
  serve es [] = ((es, [], []), none)
  serve es (recv_failed failure ∷ rounds) = ((es, [], []), some (io failure))
  serve es (arrived datagram from now w ∷ rounds) =
      let (es', ds, out) = on_datagram uuid aead es datagram from now w in
      let ((es'', ds', out'), failure) = serve es' rounds in
      ((es'', ds ++ ds', out ++ out'), failure)

-- The datagrams that come before the first failure.
abbrev pub served : {Addr Io : Type 0} → List (Round Addr Io) → List (List ℕ)
served [] = []
served (recv_failed failure ∷ rounds) = []
served (arrived datagram from now w ∷ rounds) = datagram ∷ served rounds

-- What is handled is bytes, and the application keeps its channels open.
abbrev pub IsServable : {Addr Io : Type 0} → List (Round Addr Io) → Type 0
IsServable [] = Unit
IsServable (recv_failed failure ∷ rounds) = Unit
IsServable (arrived datagram from now w ∷ rounds) =
    (IsBytes datagram × IsOpen w) × IsServable rounds

module _ {Uuid Key Addr : Type 0} ⦃e : Eq Uuid⦄ (uuid : UuidApi Uuid) (aead : AeadApi Key) where
  pub run_append :
      (es : Endpoint Uuid Key Addr) (xs ys : List (Section Uuid Key Addr × Instant))
      → let r = run uuid aead es xs in
        let q = run uuid aead r.0 ys in run uuid aead es (xs ++ ys) ≡ (q.0, r.1 ++ q.1, r.2 ++ q.2)
  unfolding run
  run_append es [] ys = refl
  run_append es ((s, now) ∷ xs) ys =
      let r : Outcome Uuid Key Addr = step uuid aead es s now in
      let p : Outcome Uuid Key Addr = run uuid aead r.0 xs in
      let q : Outcome Uuid Key Addr = run uuid aead p.0 ys in
      rw (run_append r.0 xs ys, append_assoc r.1 p.1 q.1, append_assoc r.2 p.2 q.2) refl

  -- The sections of one datagram.
  abbrev of_datagram :
      Option Uuid → List ℕ → Addr → Instant → World → List (Section Uuid Key Addr × Instant)
  of_datagram none d from now w = (receive_section d from w, now) ∷ []
  of_datagram (some id) d from now w =
      (receive_section d from w, now) ∷ (disarm_section id, now) ∷ []

  on_datagram_sections :
      (es : Endpoint Uuid Key Addr) (d : List ℕ) (from : Addr) (now : Instant) (w : World)
      → let finished = (receive uuid aead es d from now w).1 in
        run uuid aead es (of_datagram finished d from now w) ≡ on_datagram uuid aead es d from now w
  unfolding run step on_datagram
  on_datagram_sections es d from now w =
      let r : Outcome Uuid Key Addr = (receive uuid aead es d from now w).0 in
      elim (Option-cases (receive uuid aead es d from now w).1) [
        | inl p ↦ rw p (rw (append-nil r.1, append-nil r.2) refl)
        | inr (id, p) ↦ rw p (rw (append-nil r.1, append-nil r.2) refl)
      ]

  of_datagram-received :
      (finished : Option Uuid) (d : List ℕ) (from : Addr) (now : Instant) (w : World)
      (sections : List (Section Uuid Key Addr × Instant))
      → IsBytes d × IsOpen w
      → AllFair sections
      → (received (of_datagram finished d from now w ++ sections) ≡ d ∷ received sections)
        × AllFair (of_datagram finished d from now w ++ sections)
  of_datagram-received none d from now w sections h k = (refl, (h, k))
  of_datagram-received (some id) d from now w sections h k = (refl, (h, (tt, k)))

  -- Some sections, of these datagrams, whose run is the outcome.
  abbrev pub ServedBy : Endpoint Uuid Key Addr → List (List ℕ) → Outcome Uuid Key Addr → Type 0
  ServedBy es rx r =
      (sections : List (Section Uuid Key Addr × Instant)) × (run uuid aead es sections ≡ r)
      × (received sections ≡ rx)
      × AllFair sections

  serve_one :
      (es : Endpoint Uuid Key Addr) (d : List ℕ) (from : Addr) (now : Instant) (w : World)
      (rx : List (List ℕ)) (q : Outcome Uuid Key Addr)
      → IsBytes d × IsOpen w
      → ServedBy (on_datagram uuid aead es d from now w).0 rx q
      → let r = on_datagram uuid aead es d from now w in
        ServedBy es (d ∷ rx) (q.0, r.1 ++ q.1, r.2 ++ q.2)
  serve_one es d from now w rx q h (sections, same, those, fair) =
      let finished : Option Uuid = (receive uuid aead es d from now w).1 in
      let (heard, fair') = of_datagram-received finished d from now w sections h fair in
      (
        of_datagram finished d from now w ++ sections,
        run_append es (of_datagram finished d from now w) sections
            ∙ rw (on_datagram_sections es d from now w, same) refl,
        heard ∙ ap (λ (t : List (List ℕ)). d ∷ t) those,
        fair',
      )

module _ {Uuid Key Addr Io : Type 0} ⦃e : Eq Uuid⦄ (uuid : UuidApi Uuid) (aead : AeadApi Key) where
  -- The loop that receives, while no other task comes between, over any datagrams that are bytes and
  -- while the application holds its reliable channels open: until the socket fails it does what some
  -- sections under the lock do, one after another, which receive the same datagrams. So what holds of
  -- any interleaving of sections holds of it.
  pub serve-ServedBy :
      (rounds : List (Round Addr Io)) (es : Endpoint Uuid Key Addr)
      → IsServable rounds
      → ServedBy uuid aead es (served rounds) (serve uuid aead es rounds).0
  unfolding serve run
  serve-ServedBy [] es h = ([], refl, refl, tt)
  serve-ServedBy (recv_failed failure ∷ rounds) es h = ([], refl, refl, tt)
  serve-ServedBy (arrived d from now w ∷ rounds) es h =
      let es' : Endpoint Uuid Key Addr = (on_datagram uuid aead es d from now w).0 in
      serve_one uuid aead es d from now w (served rounds) (serve uuid aead es' rounds).0 h.0
        (serve-ServedBy rounds es' h.1)

-- ===== src/Runtime/Endpoint/Routing.antt =====
-- Which datagrams an endpoint of protofish4/src/receiver.rs believes, and where it replies.
use protofish4_rs.Base.{
  ℕ, ◌≡◌, refl, sym, ap, ◌∙◌, ◌⊎◌, inl, inr, List, [], ◌∷◌, Option, none, some, Bool, true, false,
  ok, All, if◌then◌else◌, arith, subst,
}
use protofish4_rs.Types.{Instant, XferSeq, UuidApi}
use protofish4_rs.Frame.{Body}
use protofish4_rs.Crypto.{AeadApi, request_id_of}
use protofish4_rs.Collections.Tables
use protofish4_rs.Collections.Tables.{Eq, ◌=?◌, get-insert, get-remove}
use protofish4_rs.Runtime.Entry.{World, Entry, Applied, open_body, on_packet, apply, learn_peer}
use protofish4_rs.Runtime.Entry.Applying.{apply_from-Applies}
use protofish4_rs.Runtime.Endpoint.{Endpoint, Outcome, address, disarm, disarm_if, on_datagram}
use protofish4_rs.Runtime.Endpoint.Independent.{Refused, receive_cases}

address-All :
    {Addr : Type 0} (peer : Option Addr) (out : List (List ℕ))
    → All (λ (s : List ℕ × Addr). peer ≡ some s.1) (address peer out)
address-All none out = tt
address-All (some a) [] = tt
address-All (some a) (d ∷ out) = (refl, address-All (some a) out)

sent_to :
    {Addr : Type 0} (peer known : Option Addr)
    → peer ≡ known
    → (out : List (List ℕ)) → All (λ (s : List ℕ × Addr). known ≡ some s.1) (address peer out)
sent_to peer known p out =
    subst (λ q. All (λ s. q ≡ some s.1) (address peer out)) p (address-All peer out)

first_peer :
    {Addr : Type 0} (known : Option Addr) (from a : Addr)
    → learn_peer known from ≡ some a
    → (known ≡ some a) ⊎ ((known ≡ none) × (a ≡ from))
first_peer none from a e = inr (refl, cc)
first_peer (some peer) from a e = inl e

All-first :
    {Addr : Type 0} (known : Option Addr) (from : Addr) (out : List (List ℕ × Addr))
    → All (λ (s : List ℕ × Addr). learn_peer known from ≡ some s.1) out
    → All (λ (s : List ℕ × Addr). (known ≡ some s.1) ⊎ ((known ≡ none) × (s.1 ≡ from))) out
All-first known from [] h = tt
All-first known from ((d, a) ∷ out) h = (first_peer known from a h.0, All-first known from out h.1)

module _ {Uuid Key Addr : Type 0} ⦃e : Eq Uuid⦄ (uuid : UuidApi Uuid) (aead : AeadApi Key) where
  on_packet-peer :
      (x : Entry Key Addr) (id : Uuid) (seq : XferSeq) (body : Body) (from : Addr) (now : Instant)
      (w : World)
      → (on_packet uuid aead x id seq body from now w).0.peer ≡ learn_peer x.peer from
  unfolding on_packet apply
  on_packet-peer x id seq body from now w = (apply_from-Applies uuid aead _ id _ w 0).peer

  -- The table after an accepted datagram, at every request.
  put_or_gone :
      (j id : Uuid) (y : Entry Key Addr) (es : Endpoint Uuid Key Addr) (closed : Bool)
      → Tables.get j (disarm_if (if closed then some id else none) (Tables.insert id y es))
        ≡ (if j =? id then (if closed then none else some y) else Tables.get j es)
  unfolding disarm
  put_or_gone j id y es true =
      get-remove id j (Tables.insert id y es) ∙ ground (arith, get-insert id j y es)
  put_or_gone j id y es false = get-insert id j y es

  -- The request that the datagram names, its entry, and what the datagram opened to.
  pub record Believed (es : Endpoint Uuid Key Addr) (d : List ℕ) (from : Addr) (now : Instant)
      (w : World) (r : Outcome Uuid Key Addr) : Type 0 where
    pub id : Uuid
    pub x : Entry Key Addr
    pub seq : XferSeq
    pub body : Body
    pub named : request_id_of uuid aead d ≡ ok id
    pub known : Tables.get id es ≡ some x
    pub opened : open_body uuid aead x.key d ≡ ok (seq, body)
    pub table :
        (j : Uuid)
        → Tables.get j r.0 ≡ (
            let y = (on_packet uuid aead x id seq body from now w).0 in
            if j =? id then (if y.state.closed then none else some y) else Tables.get j es)
    pub replied :
        All (λ (s : List ℕ × Addr). (x.peer ≡ some s.1) ⊎ ((x.peer ≡ none) × (s.1 ≡ from))) r.2

  abbrev pub Routed :
      Endpoint Uuid Key Addr → List ℕ → Addr → Instant → World → Outcome Uuid Key Addr → Type 0
  Routed es d from now w r =
      ((r ≡ (es, [], [])) × Refused uuid aead es d) ⊎ Believed es d from now w r

  -- A datagram is either refused, because its request is unknown or it does not open under the
  -- request's key, and then it changes nothing and nothing is delivered or sent; or it opens under
  -- the key of the request that it names, and then no other request changes, this one is gone if
  -- its transfer closed, and every reply goes to the address that the entry knew before, or to the one
  -- that the datagram came from if it knew none.
  pub on_datagram_lem :
      (es : Endpoint Uuid Key Addr) (d : List ℕ) (from : Addr) (now : Instant) (w : World)
      → Routed es d from now w (on_datagram uuid aead es d from now w)
  unfolding on_datagram
  on_datagram_lem es d from now w = elim (receive_cases uuid aead es d from now w) [
    | inl (p, refused) ↦ subst (Routed es d from now w) (sym (ap release p)) (inl (refl, refused))
    | inr (id, x, seq, body, a, b, c, p) ↦
        let y : Applied Key Addr = on_packet uuid aead x id seq body from now w in
        subst (Routed es d from now w) (sym (ap release p)) (
          inr (record {
            id = id;
            x = x;
            seq = seq;
            body = body;
            named = a;
            known = b;
            opened = c;
            table = λ j. put_or_gone j id y.0 es y.0.state.closed;
            replied = All-first x.peer from _ (
                sent_to y.0.peer (learn_peer x.peer from) (on_packet-peer x id seq body from now w)
                  y.2);
          }))
  ]
    where
      release : Outcome Uuid Key Addr × Option Uuid → Outcome Uuid Key Addr
      release ((es', ds, out), finished) = (disarm_if finished es', ds, out)

-- ===== src/Runtime/Endpoint/Reaching.antt =====
-- From one state of an entry of protofish4/src/receiver.rs to another by calls of its own.
use protofish4_rs.Base.{
  ◌⊎◌, ℕ, ◌≡◌, refl, sym, ap, ◌∙◌, inl, inr, List, [], ◌∷◌, ◌++◌, append-nil, append_assoc, ok,
  arith, Result-cases, subst, Any, Any-left, Any-right, take, drop, All-take, All-drop, length-take,
  ◌<◌,
}
use protofish4_rs.Types.{Instant, UuidApi, XferSeq, u32_mod, send}
use protofish4_rs.Types.Bytes.{IsBytes, IsByte, from_be_bytes-lt}
use protofish4_rs.Crypto.{AeadApi, open_datagram, open_sealed, request_id_of}
use protofish4_rs.Receiver.Runs.{AllFit}
use protofish4_rs.Runtime.Entry.{Delivery, Entry, Applied, open_body}
use protofish4_rs.Runtime.Entry.Runs
use protofish4_rs.Runtime.Entry.Runs.{
  Call, packet_call, tick_call, report_call, receiver_calls, IsOpen, AllOpen,
}
use protofish4_rs.Frame.{Body}
use protofish4_rs.Runtime.Entry.Following.{run-RunsTo}
use protofish4_rs.Header.{Header, parse}
use protofish4_rs.Codec.{decode_body}

module _ {Uuid Key Addr : Type 0} (uuid : UuidApi Uuid) (aead : AeadApi Key) where
  -- Every packet of the calls is what one of these datagrams opens to under the key.
  abbrev pub OpensTo : Key → List (List ℕ) → List (Call Addr × Instant) → Type 0
  OpensTo key rx [] = Unit
  OpensTo key rx ((packet_call seq body from w, now) ∷ calls) =
      Any (λ (d : List ℕ). open_body uuid aead key d ≡ ok (seq, body)) rx × OpensTo key rx calls
  OpensTo key rx (_ ∷ calls) = OpensTo key rx calls

  OpensTo-append :
      (key : Key) (rx ry : List (List ℕ)) (cs ds : List (Call Addr × Instant))
      → OpensTo key rx cs
      → OpensTo key ry ds
      → OpensTo key (rx ++ ry) (cs ++ ds)
  OpensTo-append key rx ry [] [] h k = tt
  OpensTo-append key rx ry [] ((packet_call seq body from w, now) ∷ ds) h k = (
    Any-right (λ (d : List ℕ). open_body uuid aead key d ≡ ok (seq, body)) rx ry k.0,
    OpensTo-append key rx ry [] ds h k.1,
  )
  OpensTo-append key rx ry [] ((tick_call w, now) ∷ ds) h k = OpensTo-append key rx ry [] ds h k
  OpensTo-append key rx ry [] ((report_call ms, now) ∷ ds) h k = OpensTo-append key rx ry [] ds h k
  OpensTo-append key rx ry ((packet_call seq body from w, now) ∷ cs) ds h k = (
    Any-left (λ (d : List ℕ). open_body uuid aead key d ≡ ok (seq, body)) rx ry h.0,
    OpensTo-append key rx ry cs ds h.1 k,
  )
  OpensTo-append key rx ry ((tick_call w, now) ∷ cs) ds h k = OpensTo-append key rx ry cs ds h k
  OpensTo-append key rx ry ((report_call ms, now) ∷ cs) ds h k = OpensTo-append key rx ry cs ds h k

  -- The calls bring in this packet.
  abbrev pub Brings : XferSeq → Body → List (Call Addr × Instant) → Type 0
  Brings seq body [] = ⊥
  Brings seq body ((packet_call s b from w, now) ∷ calls) =
      ((s ≡ seq) × (b ≡ body)) ⊎ Brings seq body calls
  Brings seq body (_ ∷ calls) = Brings seq body calls

  Brings-left :
      (seq : XferSeq) (body : Body) (cs ds : List (Call Addr × Instant))
      → Brings seq body cs
      → Brings seq body (cs ++ ds)
  Brings-left seq body [] ds h = elim h [ ]
  Brings-left seq body ((packet_call s b from w, now) ∷ cs) ds (inl e) = inl e
  Brings-left seq body ((packet_call s b from w, now) ∷ cs) ds (inr h) =
      inr (Brings-left seq body cs ds h)
  Brings-left seq body ((tick_call w, now) ∷ cs) ds h = Brings-left seq body cs ds h
  Brings-left seq body ((report_call ms, now) ∷ cs) ds h = Brings-left seq body cs ds h

  Brings-right :
      (seq : XferSeq) (body : Body) (cs ds : List (Call Addr × Instant))
      → Brings seq body ds
      → Brings seq body (cs ++ ds)
  Brings-right seq body [] ds h = h
  Brings-right seq body ((packet_call s b from w, now) ∷ cs) ds h =
      inr (Brings-right seq body cs ds h)
  Brings-right seq body ((tick_call w, now) ∷ cs) ds h = Brings-right seq body cs ds h
  Brings-right seq body ((report_call ms, now) ∷ cs) ds h = Brings-right seq body cs ds h

  -- Every one of these datagrams that names the request and opens under the key is brought in.
  abbrev pub Hears : Uuid → Key → List (List ℕ) → List (Call Addr × Instant) → Type 0
  Hears id key [] calls = Unit
  Hears id key (d ∷ rx) calls =
      ((seq : XferSeq) (body : Body)
        → request_id_of uuid aead d ≡ ok id
        → open_body uuid aead key d ≡ ok (seq, body)
        → Brings seq body calls)
      × Hears id key rx calls

  Hears-append :
      (id : Uuid) (key : Key) (rx ry : List (List ℕ)) (cs ds : List (Call Addr × Instant))
      → Hears id key rx cs
      → Hears id key ry ds
      → Hears id key (rx ++ ry) (cs ++ ds)
  Hears-append id key [] [] cs ds h k = tt
  Hears-append id key [] (d ∷ ry) cs ds h k = (
    λ seq body named opened. Brings-right seq body cs ds (k.0 seq body named opened),
    Hears-append id key [] ry cs ds h k.1,
  )
  Hears-append id key (d ∷ rx) ry cs ds h k = (
    λ seq body named opened. Brings-left seq body cs ds (h.0 seq body named opened),
    Hears-append id key rx ry cs ds h.1 k,
  )

  -- Some calls of the entry's own, of the packets that the datagrams `rx` open to, lead from `x` to `y`
  -- and deliver `ds`.
  pub record Reaches (id : Uuid) (x y : Entry Key Addr) (rx : List (List ℕ)) (ds : List Delivery)
      : Type 0 where
    pub calls : List (Call Addr × Instant)
    pub fits : AllFit (receiver_calls calls)
    pub opens : OpensTo x.key rx calls
    pub hears : Hears id x.key rx calls
    pub same_key : y.key ≡ x.key
    pub opened : AllOpen calls
    pub entry : (Runs.run uuid aead x id calls).0 ≡ y
    pub delivered : (Runs.run uuid aead x id calls).1 ≡ ds

  pub Reaches-refl :
      (id : Uuid) (x : Entry Key Addr) (rx : List (List ℕ))
      → Hears id x.key rx []
      → Reaches id x x rx []
  unfolding Runs.run
  Reaches-refl id x rx h = record {
    calls = [];
    fits = tt;
    opens = tt;
    hears = h;
    same_key = refl;
    opened = tt;
    entry = refl;
    delivered = refl;
  }

  run-append :
      (id : Uuid) (x : Entry Key Addr) (cs ds : List (Call Addr × Instant))
      → let r = Runs.run uuid aead x id cs in
        let q = Runs.run uuid aead r.0 id ds in
        ((Runs.run uuid aead x id (cs ++ ds)).0 ≡ q.0)
        × ((Runs.run uuid aead x id (cs ++ ds)).1 ≡ r.1 ++ q.1)
  unfolding Runs.run
  run-append id x [] ds = (refl, refl)
  run-append id x ((c, now) ∷ cs) ds =
      let r : Applied Key Addr = Runs.step uuid aead x id c now in
      let (p, q) = run-append id r.0 cs ds in (p, rw q (sym (append_assoc r.1 _ _)))

  AllFit-append :
      (cs ds : List (Call Addr × Instant))
      → AllFit (receiver_calls cs)
      → AllFit (receiver_calls ds)
      → AllFit (receiver_calls (cs ++ ds))
  AllFit-append [] ds h k = k
  AllFit-append ((packet_call seq body from w, now) ∷ cs) ds h k = (h.0, AllFit-append cs ds h.1 k)
  AllFit-append ((tick_call w, now) ∷ cs) ds h k = (h.0, AllFit-append cs ds h.1 k)
  AllFit-append ((report_call ms, now) ∷ cs) ds h k = AllFit-append cs ds h k

  AllOpen-append :
      (cs ds : List (Call Addr × Instant)) → AllOpen cs → AllOpen ds → AllOpen (cs ++ ds)
  AllOpen-append [] ds h k = k
  AllOpen-append ((packet_call seq body from w, now) ∷ cs) ds h k =
      (h.0, AllOpen-append cs ds h.1 k)
  AllOpen-append ((tick_call w, now) ∷ cs) ds h k = (h.0, AllOpen-append cs ds h.1 k)
  AllOpen-append ((report_call ms, now) ∷ cs) ds h k = AllOpen-append cs ds h k

  pub Reaches-trans :
      (id : Uuid) (x y z : Entry Key Addr) (rx ry : List (List ℕ)) (xs ys : List Delivery)
      → Reaches id x y rx xs
      → Reaches id y z ry ys
      → Reaches id x z (rx ++ ry) (xs ++ ys)
  Reaches-trans id x y z rx ry xs ys a b =
      let (p, q) = run-append id x a.calls b.calls in
      record {
        calls = a.calls ++ b.calls;
        fits = AllFit-append a.calls b.calls a.fits b.fits;
        opens =
            OpensTo-append x.key rx ry a.calls b.calls a.opens
              (subst (λ (key : Key). OpensTo key ry b.calls) a.same_key b.opens);
        hears =
            Hears-append id x.key rx ry a.calls b.calls a.hears
              (subst (λ (key : Key). Hears id key ry b.calls) a.same_key b.hears);
        same_key = b.same_key ∙ a.same_key;
        opened = AllOpen-append a.calls b.calls a.opened b.opened;
        entry = p ∙ ap (λ t. (Runs.run uuid aead t id b.calls).0) a.entry ∙ b.entry;
        delivered = q ∙ rw (a.delivered, a.entry) (ap (λ (t : List Delivery). xs ++ t) b.delivered);
      }

  -- One call of the entry.
  pub Reaches-one :
      (id : Uuid) (x : Entry Key Addr) (rx : List (List ℕ)) (c : Call Addr) (now : Instant)
      → AllFit (receiver_calls ((c, now) ∷ []))
      → AllOpen ((c, now) ∷ [])
      → OpensTo x.key rx ((c, now) ∷ [])
      → Hears id x.key rx ((c, now) ∷ [])
      → let r = Runs.step uuid aead x id c now in Reaches id x r.0 rx r.1
  unfolding Runs.run
  Reaches-one id x rx c now h k o l =
      let r : Applied Key Addr = Runs.step uuid aead x id c now in
      record {
        calls = (c, now) ∷ [];
        fits = h;
        opens = o;
        hears = l;
        same_key = (run-RunsTo uuid aead x id ((c, now) ∷ [])).key;
        opened = k;
        entry = refl;
        delivered = append-nil r.1;
      }

module _ {Uuid Key : Type 0} (uuid : UuidApi Uuid) (aead : AeadApi Key) where
  parse-fits :
      (d rest : List ℕ) (h : Header Uuid)
      → IsBytes d
      → parse uuid d ≡ ok (h, rest)
      → h.seq < u32_mod
  unfolding parse
  parse-fits d rest h bytes e =
      let field : List ℕ = take 4 (drop 18 d) in
      ground (
        arith,
        from_be_bytes-lt field (All-take IsByte 4 (drop 18 d) (All-drop IsByte 18 d bytes)),
        length-take 4 (drop 18 d),
      )

  pub open_body-fits :
      (key : Key) (d : List ℕ) (seq : XferSeq) (body : Body)
      → IsBytes d
      → open_body uuid aead key d ≡ ok (seq, body)
      → seq < u32_mod
  unfolding open_body open_datagram
  open_body-fits key d seq body bytes e = elim (Result-cases (parse uuid d)) [
    | inr (x, p) ↦ ground arith
    | inl ((h, rest), p) ↦ elim (Result-cases (open_sealed uuid aead key h send rest)) [
      | inr (x, q) ↦ ground arith
      | inl (plaintext, q) ↦ elim (Result-cases (decode_body {Uuid = Uuid} h.kind plaintext)) [
        | inr (x, r) ↦ ground arith
        | inl (b, r) ↦ ground (arith, parse-fits d rest h bytes p)
      ]
    ]
  ]

-- ===== src/Runtime/Tap/Sending.antt =====
-- What `dispatch` of protofish4/src/sender.rs sends for the events of its state machine.
use protofish4_rs.Base.{
  ℕ, ◌≡◌, refl, ◌⊎◌, inl, inr, List, [], ◌∷◌, ◌++◌, append-nil, append_assoc, ok, All, Any, subst,
}
use protofish4_rs.Types.{XferSeq, UuidApi}
use protofish4_rs.Crypto.{AeadApi}
use protofish4_rs.Ring.Entries.{Each}
use protofish4_rs.Sender.{SendEvent, emit, resend, completed, failed}
use protofish4_rs.Runtime.Tap.{seal_packet}

-- The datagram is one of these.
abbrev pub In : List ℕ → List (List ℕ) → Type 0
In d = Any (λ (y : List ℕ). d ≡ y)

pub In-left : (d : List ℕ) (xs ys : List (List ℕ)) → In d xs → In d (xs ++ ys)
In-left d [] ys h = elim h [ ]
In-left d (x ∷ xs) ys (inl e) = inl e
In-left d (x ∷ xs) ys (inr h) = inr (In-left d xs ys h)

pub In-right : (d : List ℕ) (xs ys : List (List ℕ)) → In d ys → In d (xs ++ ys)
In-right d [] ys h = h
In-right d (x ∷ xs) ys h = inr (In-right d xs ys h)

All-In-left :
    (ds xs ys : List (List ℕ))
    → All (λ (d : List ℕ). In d xs) ds
    → All (λ (d : List ℕ). In d (xs ++ ys)) ds
All-In-left [] xs ys h = tt
All-In-left (d ∷ ds) xs ys h = (In-left d xs ys h.0, All-In-left ds xs ys h.1)

pub Each-In-left :
    (es : List (XferSeq × List ℕ)) (xs ys : List (List ℕ))
    → Each (λ (d : List ℕ). In d xs) es
    → Each (λ (d : List ℕ). In d (xs ++ ys)) es
Each-In-left [] xs ys h = tt
Each-In-left ((seq, d) ∷ es) xs ys h = (In-left d xs ys h.0, Each-In-left es xs ys h.1)

-- The retransmissions among the events are of datagrams of the log.
abbrev pub Copies : List (List ℕ) → List SendEvent → Type 0
Copies log [] = Unit
Copies log (resend ds ∷ events) = All (λ (d : List ℕ). In d log) ds × Copies log events
Copies log (_ ∷ events) = Copies log events

pub Copies-left :
    (log out : List (List ℕ)) (events : List SendEvent)
    → Copies log events
    → Copies (log ++ out) events
Copies-left log out [] h = tt
Copies-left log out (emit seq body ∷ events) h = Copies-left log out events h
Copies-left log out (resend ds ∷ events) h =
    (All-In-left ds log out h.0, Copies-left log out events h.1)
Copies-left log out (completed ∷ events) h = Copies-left log out events h
Copies-left log out (failed why ∷ events) h = Copies-left log out events h

module _ {Uuid Key : Type 0} (uuid : UuidApi Uuid) (aead : AeadApi Key) (key : Key)
    (id : Uuid) where
  -- These datagrams went out for these events, after those of the log: for an emitted packet the one
  -- datagram that it is sealed to under its number, or nothing; for a retransmission datagrams that
  -- all went out before, byte for byte.
  abbrev pub Sends : List (List ℕ) → List SendEvent → List (List ℕ) → Type 0
  Sends log [] out = out ≡ []
  Sends log (emit seq body ∷ events) out =
      Sends log events out
      ⊎ ((d : List ℕ) × (rest : List (List ℕ)) × (out ≡ d ∷ rest)
          × (seal_packet uuid aead key id seq body ≡ ok d)
          × Sends (log ++ (d ∷ [])) events rest)
  Sends log (resend ds ∷ events) out =
      (copies : List (List ℕ)) × (rest : List (List ℕ)) × (out ≡ copies ++ rest)
      × All (λ (d : List ℕ). In d log) copies
      × Sends (log ++ copies) events rest
  Sends log (_ ∷ events) out = Sends log events out

  pub Sends-append :
      (events events' : List SendEvent) (log out out' : List (List ℕ))
      → Sends log events out
      → Sends (log ++ out) events' out'
      → Sends log (events ++ events') (out ++ out')
  Sends-append [] events' log out out' h k =
      rw h (subst (λ (l : List (List ℕ)). Sends l events' out') (append-nil log) (rw h at k))
  Sends-append (emit seq body ∷ events) events' log out out' (inl h) k =
      inl (Sends-append events events' log out out' h k)
  Sends-append (emit seq body ∷ events) events' log out out' (inr (d, rest, e, sealed, h)) k = inr (
    d,
    rest ++ out',
    rw e refl,
    sealed,
    Sends-append events events' (log ++ (d ∷ [])) rest out' h
        (rw (append_assoc log (d ∷ []) rest) (rw e at k)),
  )
  Sends-append (resend ds ∷ events) events' log out out' (copies, rest, e, all, h) k = (
    copies,
    rest ++ out',
    rw e (append_assoc copies rest out'),
    all,
    Sends-append events events' (log ++ copies) rest out' h
        (rw (append_assoc log copies rest) (rw e at k)),
  )
  Sends-append (completed ∷ events) events' log out out' h k =
      Sends-append events events' log out out' h k
  Sends-append (failed why ∷ events) events' log out out' h k =
      Sends-append events events' log out out' h k

  pub nothing_sent : (log : List (List ℕ)) (events : List SendEvent) → Sends log events []
  nothing_sent log [] = refl
  nothing_sent log (emit seq body ∷ events) = inl (nothing_sent log events)
  nothing_sent log (resend ds ∷ events) = ([], [], refl, tt, nothing_sent (log ++ []) events)
  nothing_sent log (completed ∷ events) = nothing_sent log events
  nothing_sent log (failed why ∷ events) = nothing_sent log events

-- ===== src/Sender/Nonces.antt =====
-- The nonces of a sender (xfer/sender.rs and `nonce_for` of crypto.rs in protofish4-proto/src).
use protofish4_rs.Base.{
  ℕ, zero, suc, ◌+◌, ◌≤◌, ◌<◌, ◌≢◌, List, [], ◌∷◌, arith, count_up, length, All,
}
use protofish4_rs.Types.{
  XferSeq, Instant, SeqClass, payload_class, control_class, send, u32_mod, u32_max,
}
use protofish4_rs.Collections.Sets.{Above, Below, Above-weaken}
use protofish4_rs.Frame.{body_kind, kind_seq_class}
use protofish4_rs.Crypto.{nonce_for}
use protofish4_rs.Crypto.Nonce.{nonce_for_inj}
use protofish4_rs.Config.{SenderConfig}
use protofish4_rs.Sender.{new, SendEvent, emit, resend, completed, failed}
use protofish4_rs.Sender.Runs.{Call, run}
use protofish4_rs.Sender.Numbering.{if_class, sent, run_numbers}

-- The nonces under which the packets of a list of events are sealed. A resend seals nothing.
abbrev pub nonces : List SendEvent → List (List ℕ)
nonces [] = []
nonces (emit seq body ∷ evs) = nonce_for send (kind_seq_class (body_kind body)) seq ∷ nonces evs
nonces (_ ∷ evs) = nonces evs

abbrev pub NotIn : List ℕ → List (List ℕ) → Type 0
NotIn x = All (λ (y : List ℕ). x ≢ y)

abbrev pub Distinct : List (List ℕ) → Type 0
Distinct [] = Unit
Distinct (x ∷ xs) = NotIn x xs × Distinct xs

other_nonce :
    (c k : SeqClass) (s seq : XferSeq) (rest : List XferSeq)
    → s < u32_mod
    → Above s (if_class c k seq rest)
    → Below u32_max (if_class c k seq rest)
    → nonce_for send c s ≢ nonce_for send k seq
other_nonce payload_class payload_class s seq rest h a b e =
    omega (arith, nonce_for_inj send send payload_class payload_class s seq h (omega arith) e)
other_nonce control_class control_class s seq rest h a b e =
    omega (arith, nonce_for_inj send send control_class control_class s seq h (omega arith) e)
other_nonce payload_class control_class s seq rest h a b e = unfold nonce_for in ground arith
other_nonce control_class payload_class s seq rest h a b e = unfold nonce_for in ground arith

Above-if_class :
    (c k : SeqClass) (lo seq : ℕ) (rest : List XferSeq)
    → Above lo (if_class c k seq rest)
    → Above lo rest
Above-if_class payload_class payload_class lo seq rest a =
    Above-weaken lo seq rest (omega arith) a.1
Above-if_class control_class control_class lo seq rest a =
    Above-weaken lo seq rest (omega arith) a.1
Above-if_class payload_class control_class lo seq rest a = a
Above-if_class control_class payload_class lo seq rest a = a

Below-if_class :
    (c k : SeqClass) (hi seq : ℕ) (rest : List XferSeq)
    → Below hi (if_class c k seq rest)
    → Below hi rest
Below-if_class payload_class payload_class hi seq rest b = b.1
Below-if_class control_class control_class hi seq rest b = b.1
Below-if_class payload_class control_class hi seq rest b = b
Below-if_class control_class payload_class hi seq rest b = b

-- The nonce of a number below all that are still to come in its class is fresh.
nonces-NotIn :
    (c : SeqClass) (s : XferSeq) (evs : List SendEvent)
    → s < u32_mod
    → Above s (sent c evs)
    → Below u32_max (sent c evs)
    → NotIn (nonce_for send c s) (nonces evs)
nonces-NotIn c s [] h a b = tt
nonces-NotIn c s (emit seq body ∷ evs) h a b =
    let k : SeqClass = kind_seq_class (body_kind body) in
    (
      other_nonce c k s seq (sent c evs) h a b,
      nonces-NotIn c s evs h (Above-if_class c k s seq (sent c evs) a)
          (Below-if_class c k u32_max seq (sent c evs) b),
    )
nonces-NotIn c s (resend ds ∷ evs) h a b = nonces-NotIn c s evs h a b
nonces-NotIn c s (completed ∷ evs) h a b = nonces-NotIn c s evs h a b
nonces-NotIn c s (failed f ∷ evs) h a b = nonces-NotIn c s evs h a b

head-NotIn :
    (k : SeqClass) (seq lo : ℕ) (evs : List SendEvent)
    → ((c : SeqClass) → Above lo (if_class c k seq (sent c evs)))
    → ((c : SeqClass) → Below u32_max (if_class c k seq (sent c evs)))
    → NotIn (nonce_for send k seq) (nonces evs)
head-NotIn payload_class seq lo evs a b =
    let x = a payload_class in
    let y = b payload_class in nonces-NotIn payload_class seq evs (omega arith) x.1 y.1
head-NotIn control_class seq lo evs a b =
    let x = a control_class in
    let y = b control_class in nonces-NotIn control_class seq evs (omega arith) x.1 y.1

nonces-Distinct :
    (lo : ℕ) (evs : List SendEvent)
    → ((c : SeqClass) → Above lo (sent c evs))
    → ((c : SeqClass) → Below u32_max (sent c evs))
    → Distinct (nonces evs)
nonces-Distinct lo [] a b = tt
nonces-Distinct lo (emit seq body ∷ evs) a b =
    let k : SeqClass = kind_seq_class (body_kind body) in
    (
      head-NotIn k seq lo evs a b,
      nonces-Distinct lo evs (λ c. Above-if_class c k lo seq (sent c evs) (a c))
          (λ c. Below-if_class c k u32_max seq (sent c evs) (b c)),
    )
nonces-Distinct lo (resend ds ∷ evs) a b = nonces-Distinct lo evs a b
nonces-Distinct lo (completed ∷ evs) a b = nonces-Distinct lo evs a b
nonces-Distinct lo (failed f ∷ evs) a b = nonces-Distinct lo evs a b

count_up-Above : (lo e n : ℕ) → lo < e → Above lo (count_up e n)
count_up-Above lo e zero h = tt
count_up-Above lo e (suc n) h = (h, count_up-Above e (suc e) n (omega arith))

count_up-Below : (hi e n : ℕ) → e + n ≤ suc hi → Below hi (count_up e n)
count_up-Below hi e zero h = tt
count_up-Below hi e (suc n) h = (omega arith, count_up-Below hi (suc e) n (omega arith))

-- Over any run of a new sender with fewer than 2 ^ 32 - 1 calls, the packets that it seals, of both
-- classes together, have pairwise different nonces.
pub run-nonces-Distinct :
    (cfg : SenderConfig) (calls : List (Call × Instant))
    → length calls < u32_max
    → Distinct (nonces (run (new cfg) calls).1)
run-nonces-Distinct cfg calls h =
    let (n, m, p, q, b, d) = run_numbers cfg calls h in
    nonces-Distinct 0 (run (new cfg) calls).1
      (elim [
        | payload_class ↦ rw p (count_up-Above 0 1 n (omega arith))
        | control_class ↦ rw q (count_up-Above 0 1 m (omega arith))
      ])
      (elim [
        | payload_class ↦ rw p (count_up-Below u32_max 1 n (omega arith))
        | control_class ↦ rw q (count_up-Below u32_max 1 m (omega arith))
      ])

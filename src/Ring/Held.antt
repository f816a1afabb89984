-- ===== src/Ring/Held.antt =====
-- The datagrams that the ring holds (protofish4-proto/src/xfer/retrans.rs).
use protofish4_rs.Base.{
  ℕ, zero, suc, ◌+◌, ◌-◌, ◌≤◌, ◌<◌, ◌≡◌, refl, ap, ◌∙◌, List, [], ◌∷◌, ◌++◌, Option, none, some,
  ◌||◌, ◌==◌, ltb, leb, if◌then◌else◌, length, arith, Bool-cases, inl, inr, lt→ltb, ltb→lt,
  ltb-false, ◌⊎◌,
}
use protofish4_rs.Types.{XferSeq}
use protofish4_rs.Ring.{
  RetransRing, evict_oldest, shrink, push, find_seq, get, ack_loop, ack_through,
}
use protofish4_rs.Ring.Budget.{ring}

-- Sequence numbers in ascending order, the first above `lo`.
abbrev pub KeysAbove : ℕ → List (XferSeq × List ℕ) → Type 0
KeysAbove lo [] = Unit
KeysAbove lo ((s, d) ∷ rest) = (lo < s) × KeysAbove s rest

abbrev pub KeysBelow : ℕ → List (XferSeq × List ℕ) → Type 0
KeysBelow hi [] = Unit
KeysBelow hi ((s, d) ∷ rest) = (s ≤ hi) × KeysBelow hi rest

-- The entries ascend from above `lost_below`, and `hi` bounds all.
pub record IsOrdered (hi : ℕ) (r : RetransRing) : Type 0 where
  pub ascending : KeysAbove r.lost_below r.entries
  pub bounded : KeysBelow hi r.entries
  pub lost_le : r.lost_below ≤ hi

find_seq_below :
    (t lo : ℕ) (es : List (XferSeq × List ℕ)) → t ≤ lo → KeysAbove lo es → find_seq t es ≡ none
unfolding find_seq
find_seq_below t lo [] h k = refl
find_seq_below t lo ((s, d) ∷ rest) h k = ground (arith, find_seq_below t s rest)

find_seq-append :
    (t seq : XferSeq) (d : List ℕ) (es : List (XferSeq × List ℕ)) (hi : ℕ)
    → KeysBelow hi es
    → hi < seq
    → find_seq t (es ++ ((seq, d) ∷ [])) ≡ (if seq == t then some d else find_seq t es)
unfolding find_seq
find_seq-append t seq d [] hi b h = refl
find_seq-append t seq d ((s, e) ∷ rest) hi b h = ground (arith, find_seq-append t seq d rest hi)

KeysAbove-append :
    (lo seq hi : ℕ) (d : List ℕ) (es : List (XferSeq × List ℕ))
    → KeysAbove lo es
    → KeysBelow hi es
    → lo < seq
    → hi < seq
    → KeysAbove lo (es ++ ((seq, d) ∷ []))
KeysAbove-append lo seq hi d [] a b p q = (p, tt)
KeysAbove-append lo seq hi d ((s, e) ∷ rest) a b p q =
    (a.0, KeysAbove-append s seq hi d rest a.1 b.1 (omega arith) q)

KeysBelow-append :
    (lo seq : ℕ) (d : List ℕ) (es : List (XferSeq × List ℕ))
    → KeysBelow lo es
    → lo ≤ seq
    → KeysBelow seq (es ++ ((seq, d) ∷ []))
KeysBelow-append lo seq d [] b h = (omega arith, tt)
KeysBelow-append lo seq d ((s, e) ∷ rest) b h = (omega arith, KeysBelow-append lo seq d rest b.1 h)

-- `r` holds those of the entries that lie above its `lost_below`, which has not fallen.
record Holds (lost hi : ℕ) (es : List (XferSeq × List ℕ)) (r : RetransRing) : Type 0 where
  ordered : IsOrdered hi r
  found : (t : XferSeq) → get r t ≡ (if leb t r.lost_below then none else find_seq t es)
  lost_grows : lost ≤ r.lost_below

Holds-whole :
    (es : List (XferSeq × List ℕ)) (b mf mb lost hi : ℕ)
    → KeysAbove lost es
    → KeysBelow hi es
    → lost ≤ hi
    → Holds lost hi es (ring es b mf mb lost)
unfolding get
Holds-whole es b mf mb lost hi a k h = record {
  ordered = record { ascending = a; bounded = k; lost_le = h };
  found = λ t. ground (arith, find_seq_below t lost es);
  lost_grows = omega arith;
}

-- Evicting the oldest entry.
Holds-tail :
    (s : XferSeq) (d : List ℕ) (rest : List (XferSeq × List ℕ)) (lost hi : ℕ) {r : RetransRing}
    → lost < s
    → Holds (if ltb lost s then s else lost) hi rest r
    → Holds lost hi ((s, d) ∷ rest) r
unfolding find_seq
Holds-tail s d rest lost hi h held = record {
  ordered = held.ordered;
  found = λ t. held.found t ∙ ground (arith, held.lost_grows);
  lost_grows = ground (arith, held.lost_grows);
}

newer :
    (lost s hi : ℕ) (rest : List (XferSeq × List ℕ))
    → lost < s
    → KeysAbove s rest
    → KeysAbove (if ltb lost s then s else lost) rest
newer lost s hi rest h a = rw (lt→ltb lost s h) a

shrink-Holds :
    (fuel : ℕ) (es : List (XferSeq × List ℕ)) (b mf mb lost hi : ℕ)
    → KeysAbove lost es
    → KeysBelow hi es
    → lost ≤ hi
    → Holds lost hi es (shrink fuel (ring es b mf mb lost))
unfolding shrink evict_oldest
shrink-Holds zero es b mf mb lost hi a k h = Holds-whole es b mf mb lost hi a k h
shrink-Holds (suc fuel) [] b mf mb lost hi a k h = elim (Bool-cases (ltb mf 0 || ltb mb b)) [
  | inl e ↦ rw (e, shrink) (Holds-whole [] b mf mb lost hi a k h)
  | inr e ↦ rw (e, shrink) (Holds-whole [] b mf mb lost hi a k h)
]
shrink-Holds (suc fuel) ((s, d) ∷ rest) b mf mb lost hi a k h =
    elim (Bool-cases (ltb mf (suc (length rest)) || ltb mb b)) [
      | inl e ↦
          rw (e, shrink)
            (Holds-tail s d rest lost hi a.0 (
              shrink-Holds fuel rest (b - length d) mf mb (if ltb lost s then s else lost) hi
                (newer lost s hi rest a.0 a.1) k.1 (ground arith)))
      | inr e ↦ rw (e, shrink) (Holds-whole _ b mf mb lost hi a k h)
    ]

-- What a push of a number above all held ones leaves: everything above `lost_below` is held, the new datagram and the old ones
-- byte for byte, and nothing at or below it.
pub push-Held :
    (r : RetransRing) (seq : XferSeq) (sealed : List ℕ) (hi : ℕ)
    → IsOrdered hi r
    → hi < seq
    → let r' = push r seq sealed in
      IsOrdered seq r'
      × (r.lost_below ≤ r'.lost_below)
      × ((t : XferSeq)
          → get r' t
            ≡ (if leb t r'.lost_below then none else if seq == t then some sealed else get r t))
unfolding push get
push-Held r seq sealed hi o h =
    let es : List (XferSeq × List ℕ) = r.entries ++ ((seq, sealed) ∷ []) in
    let held : Holds r.lost_below seq es (push r seq sealed) =
      shrink-Holds (suc (length es)) es (r.bytes + length sealed) r.max_frames r.max_bytes
        r.lost_below seq
        (KeysAbove-append r.lost_below seq hi sealed r.entries o.ascending o.bounded
          (omega (arith, o.lost_le)) h)
        (KeysBelow-append hi seq sealed r.entries o.bounded (omega arith))
        (omega (arith, o.lost_le)) in
    (
      held.ordered,
      held.lost_grows,
      λ t.
          held.found t
          ∙ ap (λ (x : Option (List ℕ)). if leb t (push r seq sealed).lost_below then none else x)
              (find_seq-append t seq sealed r.entries hi o.bounded h),
    )

-- The loop of `ack_through` drops what lies up to `c` and keeps the rest.
record Acked (c lost hi : ℕ) (es : List (XferSeq × List ℕ)) (r : RetransRing) : Type 0 where
  holds : Holds lost hi es r
  past : KeysAbove c r.entries
  not_past : (r.lost_below ≤ lost) ⊎ (r.lost_below ≤ c)

Acked-tail :
    (s c : XferSeq) (d : List ℕ) (rest : List (XferSeq × List ℕ)) (lost hi : ℕ) {r : RetransRing}
    → lost < s
    → s ≤ c
    → Acked c (if ltb lost s then s else lost) hi rest r
    → Acked c lost hi ((s, d) ∷ rest) r
Acked-tail s c d rest lost hi h le acked = record {
  holds = Holds-tail s d rest lost hi h acked.holds;
  past = acked.past;
  not_past = ground (arith, acked.not_past);
}

Acked-whole :
    (c : XferSeq) (es : List (XferSeq × List ℕ)) (b mf mb lost hi : ℕ)
    → KeysAbove lost es
    → KeysAbove c es
    → KeysBelow hi es
    → lost ≤ hi
    → Acked c lost hi es (ring es b mf mb lost)
Acked-whole c es b mf mb lost hi a past k h = record {
  holds = Holds-whole es b mf mb lost hi a k h;
  past = past;
  not_past = inl (omega arith);
}

ack_loop-Acked :
    (fuel c : ℕ) (es : List (XferSeq × List ℕ)) (b mf mb lost hi : ℕ)
    → length es < fuel
    → KeysAbove lost es
    → KeysBelow hi es
    → lost ≤ hi
    → Acked c lost hi es (ack_loop fuel c (ring es b mf mb lost))
unfolding ack_loop evict_oldest
ack_loop-Acked zero c es b mf mb lost hi f a k h = absurd (omega arith)
ack_loop-Acked (suc fuel) c [] b mf mb lost hi f a k h = Acked-whole c [] b mf mb lost hi a tt k h
ack_loop-Acked (suc fuel) c ((s, d) ∷ rest) b mf mb lost hi f a k h = elim (Bool-cases (ltb c s)) [
  | inl e ↦
      rw (e, ack_loop) (Acked-whole c ((s, d) ∷ rest) b mf mb lost hi a (ltb→lt c s e, a.1) k h)
  | inr e ↦
      rw (e, ack_loop)
        (Acked-tail s c d rest lost hi a.0 (ltb-false c s e) (
          ack_loop-Acked fuel c rest (b - length d) mf mb (if ltb lost s then s else lost) hi
            (omega arith) (newer lost s hi rest a.0 a.1) k.1 (ground arith)))
]

KeysAbove-max :
    (a b : ℕ) (es : List (XferSeq × List ℕ))
    → KeysAbove a es
    → KeysAbove b es
    → KeysAbove (if ltb a b then b else a) es
KeysAbove-max a b [] p q = tt
KeysAbove-max a b ((s, d) ∷ rest) p q = (ground arith, p.1)

-- What an acknowledgement of a number up to the last one pushed leaves of a ring in ascending
-- order: exactly the entries above it, and a `lost_below` raised to it.
pub ack_through-Held :
    (r : RetransRing) (c : XferSeq) (hi : ℕ)
    → IsOrdered hi r
    → c ≤ hi
    → let r' = ack_through r c in
      IsOrdered hi r'
      × (r'.lost_below ≡ (if ltb r.lost_below c then c else r.lost_below))
      × ((t : XferSeq) → get r' t ≡ (if leb t r'.lost_below then none else get r t))
unfolding ack_through get
ack_through-Held r c hi o h =
    let l : RetransRing = ack_loop (suc (length r.entries)) c r in
    let acked : Acked c r.lost_below hi r.entries l =
      ack_loop-Acked (suc (length r.entries)) c r.entries r.bytes r.max_frames r.max_bytes
        r.lost_below hi (omega arith) o.ascending o.bounded o.lost_le in
    let held : Holds r.lost_below hi r.entries l = acked.holds in
    (
      record {
        ascending = KeysAbove-max l.lost_below c l.entries held.ordered.ascending acked.past;
        bounded = held.ordered.bounded;
        lost_le = ground (arith, held.ordered.lost_le);
      },
      ground (arith, acked.not_past, held.lost_grows),
      λ t. ground (arith, held.found t, find_seq_below t c l.entries, acked.past),
    )

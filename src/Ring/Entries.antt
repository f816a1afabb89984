-- ===== src/Ring/Entries.antt =====
-- What holds of each datagram of a ring (protofish4-proto/src/xfer/retrans.rs), call by call.
use protofish4_rs.Base.{
  ℕ, zero, suc, ◌-◌, ◌≡◌, List, [], ◌∷◌, ◌++◌, some, ltb, if◌then◌else◌, length, arith, ◌==◌,
  Bool-cases, inl, inr, subst,
}
use protofish4_rs.Types.{XferSeq}
use protofish4_rs.Ring.{
  RetransRing, evict_oldest, shrink, push, find_seq, get, ack_loop, ack_through,
}
use protofish4_rs.Ring.Budget.{ring}

module _ (P : List ℕ → Type 0) where
  abbrev pub Each : List (XferSeq × List ℕ) → Type 0
  Each [] = Unit
  Each ((seq, d) ∷ es) = P d × Each es

  Each-append : (es fs : List (XferSeq × List ℕ)) → Each es → Each fs → Each (es ++ fs)
  Each-append [] fs h k = k
  Each-append ((seq, d) ∷ es) fs h k = (h.0, Each-append es fs h.1 k)

  shrink-Each :
      (fuel : ℕ) (es : List (XferSeq × List ℕ)) (b mf mb lost : ℕ)
      → Each es
      → Each (shrink fuel (ring es b mf mb lost)).entries
  unfolding shrink evict_oldest
  shrink-Each zero es b mf mb lost h = h
  shrink-Each (suc fuel) [] b mf mb lost h = ground arith
  shrink-Each (suc fuel) ((s, d) ∷ rest) b mf mb lost h =
      ground (arith, h, shrink-Each fuel rest (b - length d) mf mb (if ltb lost s then s else lost))

  pub push-Each :
      (r : RetransRing) (seq : XferSeq) (d : List ℕ)
      → Each r.entries
      → P d
      → Each (push r seq d).entries
  unfolding push
  push-Each r seq d h p =
      shrink-Each _ (r.entries ++ ((seq, d) ∷ [])) _ r.max_frames r.max_bytes r.lost_below
        (Each-append r.entries ((seq, d) ∷ []) h (p, tt))

  ack_loop-Each :
      (fuel contiguous : ℕ) (es : List (XferSeq × List ℕ)) (b mf mb lost : ℕ)
      → Each es
      → Each (ack_loop fuel contiguous (ring es b mf mb lost)).entries
  unfolding ack_loop evict_oldest
  ack_loop-Each zero c es b mf mb lost h = h
  ack_loop-Each (suc fuel) c [] b mf mb lost h = tt
  ack_loop-Each (suc fuel) c ((s, d) ∷ rest) b mf mb lost h =
      ground
        (arith, h, ack_loop-Each fuel c rest (b - length d) mf mb (if ltb lost s then s else lost))

  pub ack_through-Each :
      (r : RetransRing) (contiguous : ℕ) → Each r.entries → Each (ack_through r contiguous).entries
  unfolding ack_through
  ack_through-Each r c h =
      ack_loop-Each _ c r.entries r.bytes r.max_frames r.max_bytes r.lost_below h

  find_seq-Each :
      (seq : XferSeq) (es : List (XferSeq × List ℕ)) (d : List ℕ)
      → Each es
      → find_seq seq es ≡ some d
      → P d
  unfolding find_seq
  find_seq-Each seq [] d h e = absurd (ground arith)
  find_seq-Each seq ((s, x) ∷ rest) d h e = elim (Bool-cases (s == seq)) [
    | inl p ↦ subst P (ground arith) h.0
    | inr p ↦ find_seq-Each seq rest d h.1 (ground arith)
  ]

  pub get-Each :
      (r : RetransRing) (seq : XferSeq) (d : List ℕ) → Each r.entries → get r seq ≡ some d → P d
  unfolding get
  get-Each r seq d h e = find_seq-Each seq r.entries d h e

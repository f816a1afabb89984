-- ===== src/Runtime/Transfer/Prefix.antt =====
-- Frames in order without a gap, out of a numbered list of frames.
use protofish4_rs.Base.{
  ℕ, zero, suc, ◌≤◌, ◌<◌, ◌≡◌, refl, ap, inl, inr, List, [], ◌∷◌, map, arith, All, length, take,
  count_up,
}
use protofish4_rs.Types.{TimestampMs}
use protofish4_rs.Runtime.Entry.{Frame}
use protofish4_rs.Runtime.Transfer.{numbered, IsOne}

one_later :
    (e : ℕ) (fs : List (TimestampMs × List ℕ)) (f : Frame) → IsOne (numbered e fs) f → e ≤ f.seq
one_later e [] f h = elim h [ ]
one_later e ((ts, payload) ∷ fs) f (inl p) = rw p (omega arith)
one_later e ((ts, payload) ∷ fs) f (inr h) = omega (arith, one_later (suc e) fs f h)

cons_eq : (x y : ℕ) (xs ys : List ℕ) → x ∷ xs ≡ y ∷ ys → (x ≡ y) × (xs ≡ ys)
cons_eq x y xs ys e = (ground arith, ground arith)

-- Later frames are not the first.
later_ones :
    (e k : ℕ) (ts : TimestampMs) (payload : List ℕ) (fs : List (TimestampMs × List ℕ))
    (gs : List Frame) (m : ℕ)
    → e < m
    → map (λ (f : Frame). f.seq) gs ≡ count_up m k
    → All (IsOne (numbered e ((ts, payload) ∷ fs))) gs
    → All (IsOne (numbered (suc e) fs)) gs
later_ones e k ts payload fs [] m h p all = tt
later_ones e zero ts payload fs (g ∷ gs) m h p all = absurd (ground arith)
later_ones e (suc k) ts payload fs (g ∷ gs) m h p all =
    let (a, b) = cons_eq _ _ _ _ p in
    (
      elim all.0 [
        | inl same ↦ absurd (omega (arith, a, ap (λ (f : Frame). f.seq) same))
        | inr there ↦ there
      ],
      later_ones e k ts payload fs gs (suc m) (omega arith) b all.1,
    )

-- Frames that are numbered without a gap, each one of a numbered list, are the first ones of it.
pub in_order_lem :
    (gs : List Frame) (e k : ℕ) (fs : List (TimestampMs × List ℕ))
    → map (λ (f : Frame). f.seq) gs ≡ count_up e k
    → All (IsOne (numbered e fs)) gs
    → (gs ≡ numbered e (take k fs)) × (k ≤ length fs)
in_order_lem [] e zero fs p all = (refl, omega arith)
in_order_lem [] e (suc k) fs p all = absurd (ground arith)
in_order_lem (g ∷ gs) e zero fs p all = absurd (ground arith)
in_order_lem (g ∷ gs) e (suc k) [] p all = elim all.0 [ ]
in_order_lem (g ∷ gs) e (suc k) ((ts, payload) ∷ fs) p all =
    let (a, b) = cons_eq _ _ _ _ p in
    let first : g ≡ record { seq = e; ts = ts; payload = payload } = elim all.0 [
      | inl same ↦ same
      | inr there ↦ absurd (omega (arith, a, one_later (suc e) fs g there))
    ] in
    let (q, few) =
      in_order_lem gs (suc e) k fs b
        (later_ones e k ts payload fs gs (suc e) (omega arith) b all.1) in
    (rw (first, q) refl, omega (arith, few))

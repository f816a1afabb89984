-- ===== src/Gap/Counted.antt =====
-- What a tracker of protofish4-proto/src/xfer/gap_tracker.rs counts is what was recorded, also after
-- it was abandoned.
use protofish4_rs.Base.{
  ℕ, zero, suc, ◌+◌, ◌%◌, ◌≤◌, ◌<◌, ◌≡◌, ◌⊎◌, inl, inr, List, [], ◌∷◌, true, arith, Bool-cases,
  ◌==◌, ==_iff, ◌||◌, leb, length, subst,
}
use native.Mathlib.Decide.{dec_lt}
use protofish4_rs.Types.{XferSeq, u32_mod}
use protofish4_rs.Collections.Sets.{contains, insert, remove, contains-insert}
use protofish4_rs.Gap.{GapTracker, advance, record_seq}

contains_removed : (t s : ℕ) (xs : List ℕ) → contains t (remove s xs) ≡ true → contains t xs ≡ true
unfolding remove
contains_removed t s [] h = h
contains_removed t s (x ∷ xs) h = ground (arith, contains_removed t s xs)

inserted :
    (t s : ℕ) (xs : List ℕ) → contains t (insert s xs) ≡ true → (s ≡ t) ⊎ (contains t xs ≡ true)
inserted t s xs h = ground (arith, contains-insert t s xs, ==_iff t s)

module _ (P : XferSeq → Type 0) where
  -- What the tracker counts has arrived.
  abbrev pub GapsOk : GapTracker → Type 0
  GapsOk g =
      ((t : XferSeq) → 0 < t → t ≤ g.contiguous → P t)
      × ((t : XferSeq) → contains t g.ahead ≡ true → P t)

  advance-Ok :
      (fuel c : ℕ) (ahead : List ℕ)
      → ((t : XferSeq) → 0 < t → t ≤ c → P t)
      → ((t : XferSeq) → contains t ahead ≡ true → P t)
      → let (c', ahead') = advance fuel c ahead in
        ((t : XferSeq) → 0 < t → t ≤ c' → P t) × ((t : XferSeq) → contains t ahead' ≡ true → P t)
  unfolding advance
  advance-Ok zero c ahead h k = (h, k)
  advance-Ok (suc fuel) c ahead h k =
      let next : ℕ = (c + 1) % u32_mod in
      elim (Bool-cases (contains next ahead)) [
        | inr e ↦ rw (e, advance) (h, k)
        | inl e ↦
            rw (e, advance)
              (advance-Ok fuel next (remove next ahead)
                (λ t low high. elim (dec_lt t next) [
                  | yes p ↦ h t low (omega (arith, p))
                  | no p ↦ let same : next ≡ t = omega (arith, p, high) in subst P same (k next e)
                ])
                (λ t there. k t (contains_removed t next ahead there)))
      ]

  pub record_seq-Ok : (g : GapTracker) (s : XferSeq) → P s → GapsOk g → GapsOk (record_seq g s).0
  unfolding record_seq
  record_seq-Ok g s p h = elim (Bool-cases (s == 0 || leb s g.contiguous)) [
    | inl e ↦ rw e h
    | inr e ↦ elim (Bool-cases (contains s g.ahead)) [
      | inl e' ↦ rw (e, e') h
      | inr e' ↦
          rw (e, e')
            (advance-Ok (length (insert s g.ahead)) g.contiguous (insert s g.ahead) h.0 (λ t there.
              elim (inserted t s g.ahead there) [
                | inl same ↦ subst P same p
                | inr before ↦ h.1 t before
              ]))
    ]
  ]

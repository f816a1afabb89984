-- ===== src/Receiver/Asking.antt =====
-- The loop of `emit_nacks` of protofish4-proto/src/xfer/receiver.rs: which gaps it asks for.
use protofish4_rs.Base.{
  ℕ, zero, suc, ◌+◌, ◌-◌, ◌≤◌, ◌≡◌, refl, sym, ◌∙◌, ◌⊎◌, inl, inr, List, [], ◌∷◌, ◌++◌, Option,
  none, some, Bool, true, false, arith, All, Any, ◌==◌, if◌then◌else◌, length, min, append_assoc,
  append-nil, subst,
}
use protofish4_rs.Types.{XferSeq, Instant, Duration, from_secs, from_millis}
use protofish4_rs.Config.{ReceiverConfig, delay_at, nack_delay}
use protofish4_rs.Collections.Maps
use protofish4_rs.Collections.Sets.{contains, contains_below, Above}
use protofish4_rs.Receiver.{nack_loop}

get-insert :
    {V : Type 0} (j k : ℕ) (v : V) (m : List (ℕ × V))
    → Maps.get j (Maps.insert k v m) ≡ (if j == k then some v else Maps.get j m)
unfolding Maps.insert
get-insert j k v [] = refl
get-insert j k v ((i, w) ∷ m) = ground (arith, get-insert j k v m)

-- How often a gap was asked for, and when last.
abbrev pub Asked : Type 0
Asked = Option (ℕ × Instant)

abbrev pub attempts : Asked → ℕ
attempts none = 0
attempts (some (n, at)) = n

-- The delay after that many attempts: the last one of the list goes on, and 100 ms stand for none.
abbrev pub delay_after : List Duration → ℕ → Duration
delay_after [] n = from_millis 100
delay_after (d ∷ []) n = d
delay_after (d ∷ d' ∷ ds) zero = d
delay_after (d ∷ d' ∷ ds) (suc n) = delay_after (d' ∷ ds) n

-- A gap that cannot be filled any more: its sender has let it go, or it was asked for too often.
abbrev pub Spent : ReceiverConfig → XferSeq → XferSeq → Asked → Type 0
Spent cfg lost seq asked = (seq ≤ lost) ⊎ (cfg.max_nack_attempts ≤ attempts asked)

-- What counts as the last time that a gap was asked for.
abbrev pub last_asked : Asked → Instant → Instant
last_asked none now = now - from_secs 3600
last_asked (some (n, at)) now = at

-- A gap whose delay is over.
abbrev pub Due : ReceiverConfig → Instant → Asked → Type 0
Due cfg now asked = delay_after cfg.nack_backoff (attempts asked) ≤ now - last_asked asked now

-- From the missing numbers to those asked for, and what is noted of each.
abbrev pub Asks :
    ReceiverConfig
    → Instant
    → List (ℕ × (ℕ × Instant))
    → List (ℕ × (ℕ × Instant))
    → List XferSeq
    → List XferSeq
    → Type 0
Asks cfg now old noted [] ask = ask ≡ []
Asks cfg now old noted (seq ∷ missing) ask =
    (Due cfg now (Maps.get seq old)
      × (Maps.get seq noted ≡ some (attempts (Maps.get seq old) + 1, now))
      × (rest : List XferSeq) × (ask ≡ seq ∷ rest)
      × Asks cfg now old noted missing rest)
    ⊎ ((¬ Due cfg now (Maps.get seq old))
        × (Maps.get seq noted
            ≡ some (attempts (Maps.get seq old), last_asked (Maps.get seq old) now))
        × Asks cfg now old noted missing ask)

-- The delay of the configuration.
nack_delay_lem : (cfg : ReceiverConfig) (n : ℕ) → nack_delay cfg n ≡ delay_after cfg.nack_backoff n
nack_delay_lem cfg n = go cfg.nack_backoff n
  where
    go : (ds : List Duration) (n : ℕ) → delay_at ds (min n (length ds - 1)) ≡ delay_after ds n
    go [] n = refl
    go (d ∷ []) n = let first : min n (1 - 1) ≡ 0 = omega arith in rw first refl
    go (d ∷ d' ∷ ds) zero =
        let first : min 0 (suc (suc (length ds)) - 1) ≡ 0 = omega arith in rw first refl
    go (d ∷ d' ∷ ds) (suc n) =
        let next : min (suc n) (suc (suc (length ds)) - 1) ≡ suc (min n (suc (length ds) - 1)) =
          omega arith in
        rw next (go (d' ∷ ds) n)

module _ (cfg : ReceiverConfig) (lost : XferSeq) (now : Instant) where
  -- One round of the loop.
  round_cases :
      (seq : XferSeq) (missing : List XferSeq) (nacks : List (ℕ × (ℕ × Instant)))
      (ask : List XferSeq) (asked : Asked)
      → Maps.get seq nacks ≡ asked
      → let r = nack_loop cfg lost now (seq ∷ missing) nacks ask in
        (Spent cfg lost seq asked × (r.2 ≡ true))
        ⊎ ((¬ Spent cfg lost seq asked)
            × ((Due cfg now asked
                  × (r
                      ≡ nack_loop cfg lost now missing
                          (Maps.insert seq (attempts asked + 1, now) nacks)
                          (ask ++ (seq ∷ []))))
                ⊎ ((¬ Due cfg now asked)
                    × (r
                        ≡ nack_loop cfg lost now missing
                            (Maps.insert seq (attempts asked, last_asked asked now) nacks)
                            ask))))
  unfolding nack_loop
  round_cases seq missing nacks ask none h = rw h (rw (nack_delay_lem cfg 0) (ground arith))
  round_cases seq missing nacks ask (some (n, at)) h =
      rw h (rw (nack_delay_lem cfg n) (ground arith))

  -- The map agrees with the one at the start on the numbers that are still to be looked at.
  abbrev pub Agrees : List XferSeq → List (ℕ × (ℕ × Instant)) → List (ℕ × (ℕ × Instant)) → Type 0
  Agrees missing old nacks = All (λ (s : XferSeq). Maps.get s nacks ≡ Maps.get s old) missing

  Agrees-insert :
      (lo seq : XferSeq) (missing : List XferSeq) (old nacks : List (ℕ × (ℕ × Instant)))
      (v : ℕ × Instant)
      → seq ≤ lo
      → Above lo missing
      → Agrees missing old nacks
      → Agrees missing old (Maps.insert seq v nacks)
  Agrees-insert lo seq [] old nacks v h a k = tt
  Agrees-insert lo seq (s ∷ missing) old nacks v h a k = (
    get-insert s seq v nacks ∙ ground (arith, k.0),
    Agrees-insert s seq missing old nacks v (omega arith) a.1 k.1,
  )

  -- What the loop leaves.
  abbrev pub Looped :
      List (ℕ × (ℕ × Instant))
      → List XferSeq
      → List (ℕ × (ℕ × Instant))
      → List XferSeq
      → List (ℕ × (ℕ × Instant)) × List XferSeq × Bool
      → Type 0
  Looped old missing nacks ask r =
      ((r.2 ≡ true) × Any (λ (s : XferSeq). Spent cfg lost s (Maps.get s old)) missing)
      ⊎ ((r.2 ≡ false)
          × All (λ (s : XferSeq). ¬ Spent cfg lost s (Maps.get s old)) missing
          × ((j : XferSeq) → contains j missing ≡ false → Maps.get j r.0 ≡ Maps.get j nacks)
          × (more : List XferSeq) × (r.1 ≡ ask ++ more)
          × Asks cfg now old r.0 missing more)

  pub nack_loop_lem :
      (missing : List XferSeq) (lo : XferSeq) (old nacks : List (ℕ × (ℕ × Instant)))
      (ask : List XferSeq)
      → Above lo missing
      → Agrees missing old nacks
      → Looped old missing nacks ask (nack_loop cfg lost now missing nacks ask)
  nack_loop_lem [] lo old nacks ask a k =
      unfold nack_loop in inr (refl, tt, λ j h. refl, [], sym (append-nil ask), refl)
  nack_loop_lem (seq ∷ missing) lo old nacks ask a k =
      let asked : Asked = Maps.get seq old in
      elim (round_cases seq missing nacks ask asked k.0) [
        | inl (spent, over) ↦ inl (over, inl spent)
        | inr (fine, inl (due, same)) ↦
            let v : ℕ × Instant = (attempts asked + 1, now) in
            let nacks' = Maps.insert seq v nacks in
            subst (Looped old (seq ∷ missing) nacks ask) (sym same)
              (elim (nack_loop_lem missing seq old nacks' (ask ++ (seq ∷ [])) a.1
                (Agrees-insert seq seq missing old nacks v (omega arith) a.1 k.1)) [
                  | inl (over, spent) ↦ inl (over, inr spent)
                  | inr (quiet, all, others, more, is, asks) ↦ inr (
                    quiet,
                    (fine, all),
                    others_kept seq missing nacks v _ others,
                    seq ∷ more,
                    is ∙ append_assoc ask (seq ∷ []) more,
                    inl (due, head_noted seq missing nacks v _ a.1 others, more, refl, asks),
                  )
                ])
        | inr (fine, inr (early, same)) ↦
            let v : ℕ × Instant = (attempts asked, last_asked asked now) in
            let nacks' = Maps.insert seq v nacks in
            subst (Looped old (seq ∷ missing) nacks ask) (sym same)
              (elim (nack_loop_lem missing seq old nacks' ask a.1
                (Agrees-insert seq seq missing old nacks v (omega arith) a.1 k.1)) [
                  | inl (over, spent) ↦ inl (over, inr spent)
                  | inr (quiet, all, others, more, is, asks) ↦ inr (
                    quiet,
                    (fine, all),
                    others_kept seq missing nacks v _ others,
                    more,
                    is,
                    inr (early, head_noted seq missing nacks v _ a.1 others, asks),
                  )
                ])
      ]
    where
      others_kept :
          (seq : XferSeq) (missing : List XferSeq) (nacks : List (ℕ × (ℕ × Instant)))
          (v : ℕ × Instant) (noted : List (ℕ × (ℕ × Instant)))
          → ((j : XferSeq)
              → contains j missing ≡ false
              → Maps.get j noted ≡ Maps.get j (Maps.insert seq v nacks))
          → (j : XferSeq) → contains j (seq ∷ missing) ≡ false
          → Maps.get j noted ≡ Maps.get j nacks
      others_kept seq missing nacks v noted others j h =
          let apart : ((j == seq) ≡ false) × (contains j missing ≡ false) = ground arith in
          others j apart.1 ∙ get-insert j seq v nacks ∙ rw apart.0 refl

      head_noted :
          (seq : XferSeq) (missing : List XferSeq) (nacks : List (ℕ × (ℕ × Instant)))
          (v : ℕ × Instant) (noted : List (ℕ × (ℕ × Instant)))
          → Above seq missing
          → ((j : XferSeq)
              → contains j missing ≡ false
              → Maps.get j noted ≡ Maps.get j (Maps.insert seq v nacks))
          → Maps.get seq noted ≡ some v
      head_noted seq missing nacks v noted a others =
          let itself : (seq == seq) ≡ true = ground arith in
          others seq (contains_below seq seq missing (omega arith) a)
          ∙ get-insert seq seq v nacks
          ∙ rw itself refl

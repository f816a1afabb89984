-- ===== src/Gap/Missing.antt =====
-- `GapTracker::missing` of protofish4-proto/src/xfer/gap_tracker.rs.
use native.Mathlib.Decide.{dec_lt, dec_le}
use protofish4_rs.Base.{
  take_all, count_up, ℕ, zero, suc, ◌+◌, ◌-◌, ◌%◌, ◌≤◌, ◌<◌, ◌≡◌, refl, sym, ap, ap₂, ◌∙◌, List, [],
  ◌∷◌, ◌++◌, true, false, ◌&&◌, arith, ltb, leb, le→leb, if◌then◌else◌, length, length-append, take,
  append-nil, append_assoc, length-take,
}
use protofish4_rs.Types.{XferSeq, u32_mod}
use protofish4_rs.Collections.Sets.{contains, Above, Above-weaken, Below, contains_below}
use protofish4_rs.Gap.{GapTracker, fill, missing_loop, missing}
use protofish4_rs.Gap.Arrivals.{IsTracker}

-- The numbers from `e` on, `n` of them, that are not in `xs`.
abbrev pub absent : ℕ → ℕ → List ℕ → List ℕ
absent e zero xs = []
absent e (suc n) xs = let rest = absent (suc e) n xs in if contains e xs then rest else e ∷ rest

-- The greatest element, or `d`.
abbrev pub last_or : ℕ → List ℕ → ℕ
last_or d [] = d
last_or d (x ∷ xs) = last_or x xs

-- The inner loop appends the numbers up to `have`, as far as there is room.
fill_lem :
    (fuel expect have limit : ℕ) (out : List XferSeq)
    → expect + fuel ≡ have
    → fill fuel expect have limit out ≡ out ++ take (limit - length out) (count_up expect fuel)
unfolding fill
fill_lem zero expect have limit out e =
    ground (arith, append-nil out, take_all {A = ℕ} (limit - length out) [])
fill_lem (suc fuel) expect have limit out e = elim (dec_lt (length out) limit) [
  | yes p ↦
      let left : limit - length out ≡ suc (limit - length (out ++ (expect ∷ []))) =
        omega (arith, length-append {0} out (expect ∷ [])) in
      let hit : (ltb expect have && ltb (length out) limit) ≡ true = ground arith in
      let one : expect + 1 ≡ suc expect = omega arith in
      rw left (
        rw (hit, fill, one)
          (fill_lem fuel (suc expect) have limit (out ++ (expect ∷ [])) (omega arith)
            ∙ append_assoc out (expect ∷ []) _))
  | no p ↦
      let miss : (ltb expect have && ltb (length out) limit) ≡ false = ground arith in
      let full : limit - length out ≡ 0 = omega arith in
      rw full (rw (miss, fill) (sym (append-nil out)))
]

absent-Above :
    (e n lo : ℕ) (xs : List ℕ) → e + n ≤ suc lo → Above lo xs → absent e n xs ≡ count_up e n
absent-Above e zero lo xs h a = refl
absent-Above e (suc n) lo xs h a =
    ground (arith, contains_below e lo xs, absent-Above (suc e) n lo xs)

absent_past : (e n x : ℕ) (xs : List ℕ) → x < e → absent e n (x ∷ xs) ≡ absent e n xs
absent_past e zero x xs h = refl
absent_past e (suc n) x xs h = ground (arith, absent_past (suc e) n x xs)

pub absent-add :
    (e f m n k : ℕ) (xs : List ℕ)
    → f ≡ e + m
    → k ≡ m + n
    → absent e k xs ≡ absent e m xs ++ absent f n xs
absent-add e f zero n k xs p q =
    let a : f ≡ e = omega arith in let b : k ≡ n = omega arith in rw (a, b)
absent-add e f (suc m) n zero xs p q = absurd (omega arith)
absent-add e f (suc m) n (suc k) xs p q = ground (arith, absent-add (suc e) f m n k xs)

take-append : (k : ℕ) (xs ys : List ℕ) → take k (xs ++ ys) ≡ take k xs ++ take (k - length xs) ys
take-append zero [] ys = refl
take-append zero (x ∷ xs) ys = let none_left : 0 - suc (length xs) ≡ 0 = omega arith in rw none_left
take-append (suc k) [] ys = let all_left : suc k - 0 ≡ suc k = omega arith in rw all_left
take-append (suc k) (x ∷ xs) ys =
    let both : suc k - suc (length xs) ≡ k - length xs = omega arith in
    rw both (ap (λ (t : List ℕ). x ∷ t) (take-append k xs ys))

pub last_or-le : (x : ℕ) (xs : List ℕ) → Above x xs → x ≤ last_or x xs
last_or-le x [] a = omega arith
last_or-le x (y ∷ xs) a = omega (arith, last_or-le y xs a.1)

-- From one element of the set to the next and on.
absent-cons :
    (e x : ℕ) (xs : List ℕ)
    → e < x
    → Above x xs
    → absent (suc e) (last_or x xs - e) (x ∷ xs)
      ≡ count_up (suc e) (x - suc e) ++ absent (suc x) (last_or x xs - x) xs
absent-cons e x xs h a =
    let m : ℕ = x - suc e in
    let n : ℕ = last_or x xs - x in
    let low : Above (x - 1) (x ∷ xs) = (omega arith, a) in
    let here : absent x (suc n) (x ∷ xs) ≡ absent (suc x) n xs =
      ground (arith, absent_past (suc x) n x xs) in
    absent-add (suc e) x m (suc n) (last_or x xs - e) (x ∷ xs) (omega arith)
      (omega (arith, last_or-le x xs a))
    ∙ ap₂ ◌++◌ (absent-Above (suc e) m (x - 1) (x ∷ xs) (omega arith) low) here

-- After the break at `limit` there is no room for the rest.
stop :
    (limit : ℕ) (out rest looped : List ℕ)
    → looped ≡ out ++ take (limit - length out) rest
    → (if leb limit (length out) then out else looped) ≡ out ++ take (limit - length out) rest
stop limit out rest looped e = elim (dec_le limit (length out)) [
  | yes p ↦
      let full : limit - length out ≡ 0 = omega arith in
      rw full (rw (le→leb limit (length out) p) (sym (append-nil out)))
  | no p ↦ let less : leb limit (length out) ≡ false = ground arith in rw less e
]

-- `expect = have + 1` wraps only behind the last element, where nothing reads it.
after_last :
    (x hi : ℕ) (xs : List ℕ) (limit : ℕ) (out : List XferSeq)
    → Above x xs
    → Below hi xs
    → hi < u32_mod
    → missing_loop xs ((x + 1) % u32_mod) limit out ≡ missing_loop xs (suc x) limit out
after_last x hi [] limit out a b fits = unfold missing_loop in refl
after_last x hi (y ∷ xs) limit out a b fits =
    let wrap : (x + 1) % u32_mod ≡ suc x = omega arith in rw wrap

missing_loop_lem :
    (ahead : List ℕ) (e hi limit : ℕ) (out : List XferSeq)
    → Above e ahead
    → Below hi ahead
    → hi < u32_mod
    → missing_loop ahead (suc e) limit out
      ≡ out ++ take (limit - length out) (absent (suc e) (last_or e ahead - e) ahead)
unfolding missing_loop
missing_loop_lem [] e hi limit out a b fits =
    let z : e - e ≡ 0 = omega arith in
    rw z (ground (arith, append-nil out, take_all {A = ℕ} (limit - length out) []))
missing_loop_lem (x ∷ xs) e hi limit out a b fits =
    let run : List ℕ = count_up (suc e) (x - suc e) in
    let rest : List ℕ = absent (suc x) (last_or x xs - x) xs in
    let room : ℕ = limit - length out in
    let out' : List ℕ = out ++ take room run in
    let room' : limit - length out' ≡ room - length run =
      omega (arith, length-append {0} out (take room run), length-take {0} room run) in
    let filled : fill (x - suc e) (suc e) x limit out ≡ out' =
      fill_lem (x - suc e) (suc e) x limit out (omega arith) in
    let ih : missing_loop xs (suc x) limit out' ≡ out' ++ take (limit - length out') rest =
      missing_loop_lem xs x hi limit out' a.1 b.1 fits in
    let split : out' ++ take (limit - length out') rest
        ≡ out ++ take room (absent (suc e) (last_or x xs - e) (x ∷ xs)) =
      rw room' (
        append_assoc out (take room run) (take (room - length run) rest)
        ∙ ap (λ (t : List ℕ). out ++ t)
            (sym (take-append room run rest)
              ∙ ap (take room) (sym (absent-cons e x xs a.0 a.1)))) in
    rw filled (stop (limit) out' rest _ (after_last x hi xs limit out' a.1 b.1 fits ∙ ih) ∙ split)

missing_top :
    (g : GapTracker) (limit : ℕ)
    → Above g.contiguous g.ahead
    → IsTracker g
    → missing g limit
      ≡ take limit (absent (suc g.contiguous) (last_or g.contiguous g.ahead - g.contiguous) g.ahead)
unfolding missing
missing_top g limit a i =
    let whole : limit - 0 ≡ limit = omega arith in
    after_last g.contiguous g.highest g.ahead limit [] a i.below i.fits
    ∙ (rw whole at (missing_loop_lem g.ahead g.contiguous g.highest limit [] a i.below i.fits))

-- The `missing` of a well-formed tracker is exactly the numbers above the prefix and up to the last
-- one that is recorded ahead of it that are not recorded, in ascending order, cut at the limit.
pub missing_lem :
    (g : GapTracker) (limit : ℕ)
    → IsTracker g
    → missing g limit
      ≡ take limit (absent (suc g.contiguous) (last_or g.contiguous g.ahead - g.contiguous) g.ahead)
missing_lem g limit i =
    missing_top g limit (Above-weaken g.contiguous (suc g.contiguous) g.ahead (omega arith) i.above)
      i

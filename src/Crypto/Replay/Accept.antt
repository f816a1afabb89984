-- ===== src/Crypto/Replay/Accept.antt =====
-- What `ReplayWindow::accept` of protofish4-proto/src/crypto.rs refuses, and what it does not.
use native.Mathlib.Nat.{add-div_right, one-le-pow}
use protofish4_rs.Base.{
  ℕ, zero, suc, ◌+◌, ◌-◌, ◌/◌, ◌%◌, ◌^◌, ◌<◌, ◌≡◌, refl, List, [], ◌∷◌, true, ok, err, length,
  replicate, set, get_or, arith,
}
use protofish4_rs.Failure.{replay}
use protofish4_rs.Crypto.Replay.{
  width, ReplayWindow, test_bit, set_bit, get_seen, set_seen, shift_by, accept,
}

pow_pos : (i : ℕ) → 0 < 2 ^ i
pow_pos i = one-le-pow i 2 (omega arith)

test_bit-set_bit : (word i : ℕ) → test_bit (set_bit word i) i ≡ true
test_bit-set_bit word i = ground (arith, add-div_right word (pow_pos i))

get_or-set : (xs : List ℕ) (i v : ℕ) → i < length xs → get_or (set xs i v) i 0 ≡ v
get_or-set [] i v h = absurd (omega arith)
get_or-set (x ∷ xs) zero v h = refl
get_or-set (x ∷ xs) (suc i) v h = get_or-set xs i v (omega arith)

get_seen-set_seen :
    (seen : List ℕ) (bit : ℕ)
    → length seen ≡ 16
    → bit < width
    → get_seen (set_seen seen bit) bit ≡ true
unfolding get_seen set_seen
get_seen-set_seen seen bit h fits = ground (
  arith,
  get_or-set seen (bit / 64) (set_bit (get_or seen (bit / 64) 0) (bit % 64)) (omega arith),
  test_bit-set_bit (get_or seen (bit / 64) 0) (bit % 64),
)

get_or-replicate : (n i : ℕ) → ◌≡◌ {A = ℕ} (get_or (replicate n 0) i 0) 0
get_or-replicate zero i = refl
get_or-replicate (suc n) zero = refl
get_or-replicate (suc n) (suc i) = get_or-replicate n i

module _ {Uuid : Type 0} where
  -- A counter that a window of sixteen words accepted is refused when it comes again at once.
  pub accept_again :
      (w : ReplayWindow) (c : ℕ)
      → length w.seen ≡ 16
      → (accept {Uuid = Uuid} w c).1 ≡ ok tt
      → (accept {Uuid = Uuid} (accept {Uuid = Uuid} w c).0 c).1 ≡ err (replay c)
  unfolding accept
  accept_again w c h e = ground (arith, get_seen-set_seen w.seen (w.highest - c - 1) h)

  -- After a jump of exactly the width of the window, the highest counter before the jump, which had
  -- been accepted, is accepted a second time.
  pub accept_twice :
      (w : ReplayWindow)
      → w.started ≡ true
      → let w' = (accept {Uuid = Uuid} w (w.highest + width)).0 in
        ((accept {Uuid = Uuid} w (w.highest + width)).1 ≡ ok tt)
        × ((accept {Uuid = Uuid} w w.highest).1 ≡ err (replay w.highest))
        × ((accept {Uuid = Uuid} w' w.highest).1 ≡ ok tt)
  unfolding accept shift_by get_seen
  accept_twice w s =
      let jump : w.highest + width - w.highest ≡ width = omega arith in
      ground (arith, jump, get_or-replicate (length w.seen) 15)

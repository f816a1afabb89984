-- ===== src/Crypto/Replay.antt =====
-- `ReplayWindow` of protofish4-proto/src/crypto.rs.
pub mod Accept
use protofish4_rs.Base.{
  ℕ, zero, suc, ◌+◌, ◌-◌, ◌*◌, ◌/◌, ◌%◌, ◌^◌, List, [], ◌∷◌, ◌++◌, Bool, true, false, not, ◌||◌,
  ◌==◌, ltb, leb, if◌then◌else◌, ok, err, length, take, replicate, set, get_or,
}
use protofish4_rs.Types.{u64_mod}
use protofish4_rs.Failure.{replay, Fallible}

-- The constant `WIDTH`.
abbrev pub width : ℕ
width = 1024

-- `seen` is the array of sixteen u64 words.
pub record ReplayWindow : Type 0 where
  pub highest : ℕ
  pub seen : List ℕ
  pub started : Bool

unfoldable pub new : ReplayWindow
new = record { highest = 0; seen = replicate 16 0; started = false }

-- `word & (1 << i) != 0` and `word | (1 << i)`.
abbrev pub test_bit : ℕ → ℕ → Bool
test_bit word i = (word / 2 ^ i) % 2 == 1

abbrev pub set_bit : ℕ → ℕ → ℕ
set_bit word i = if test_bit word i then word else word + 2 ^ i

unfoldable pub get_seen : List ℕ → ℕ → Bool
get_seen seen bit = if leb width bit then false else test_bit (get_or seen (bit / 64) 0) (bit % 64)

unfoldable pub set_seen : List ℕ → ℕ → List ℕ
set_seen seen bit =
    if leb width bit
    then seen
    else set seen (bit / 64) (set_bit (get_or seen (bit / 64) 0) (bit % 64))

-- The loop over whole words, from the last down: `seen[i - words]`, or 0.
abbrev pub shift_words : ℕ → List ℕ → List ℕ
shift_words words seen = take (length seen) (replicate words 0 ++ seen)

-- The loop over bits: `(w << bits) | carry`, whose low bits are free, and the next carry.
abbrev pub shift_bits : ℕ → ℕ → List ℕ → List ℕ
shift_bits bits carry [] = []
shift_bits bits carry (w ∷ seen) =
    ((w * 2 ^ bits) % u64_mod + carry) ∷ shift_bits bits (w / 2 ^ (64 - bits)) seen

unfoldable pub shift_by : List ℕ → ℕ → List ℕ
unfolding set_seen
shift_by seen shift =
    let words = shift / 64 in
    let bits = shift % 64 in
    let moved = if ltb 0 words then shift_words words seen else seen in
    let shifted = if ltb 0 bits then shift_bits bits 0 moved else moved in
    if leb width shift
    then replicate (length seen) 0
    else if ltb (shift - 1) width
    then set_seen shifted (shift - 1)
    else shifted

module _ {Uuid : Type 0} where
  unfoldable pub accept : ReplayWindow → ℕ → ReplayWindow × Fallible Uuid (Unit {0})
  accept w c =
      if not w.started
      then (record w { started = true; highest = c }, ok tt)
      else if ltb w.highest c
      then (record w { seen = shift_by w.seen (c - w.highest); highest = c }, ok tt)
      else if w.highest - c == 0 || ltb width (w.highest - c)
      then (w, err (replay c))
      else if get_seen w.seen (w.highest - c - 1)
      then (w, err (replay c))
      else (record w { seen = set_seen w.seen (w.highest - c - 1) }, ok tt)

-- ===== src/Gap.antt =====
-- protofish4-proto/src/xfer/gap_tracker.rs.
pub mod Arrivals
pub mod Missing
pub mod Wanted
pub mod Counted
pub mod Runs
use protofish4_rs.Base.{
  ℕ, zero, suc, ◌+◌, ◌-◌, ◌%◌, List, [], ◌∷◌, ◌++◌, Bool, true, false, ◌||◌, ◌&&◌, ◌==◌, ltb, leb,
  if◌then◌else◌, length,
}
use protofish4_rs.Types.{XferSeq, u32_mod}
use protofish4_rs.Collections.Sets.{contains, insert, remove}

pub record GapTracker : Type 0 where
  pub contiguous : ℕ
  pub ahead : List ℕ
  pub highest : ℕ

unfoldable pub new : GapTracker
new = record { contiguous = 0; ahead = []; highest = 0 }

-- `while self.ahead.remove(&(self.contiguous + 1)) { self.contiguous += 1; }`. Each round takes an
-- element out of `ahead`, so its length is enough fuel.
unfoldable pub advance : ℕ → ℕ → List ℕ → ℕ × List ℕ
advance zero c ahead = (c, ahead)
advance (suc fuel) c ahead = elim (contains ((c + 1) % u32_mod) ahead) [
  | true ↦ advance fuel ((c + 1) % u32_mod) (remove ((c + 1) % u32_mod) ahead)
  | false ↦ (c, ahead)
]

unfoldable pub record_seq : GapTracker → XferSeq → GapTracker × Bool
record_seq g s =
    if s == 0 || leb s g.contiguous
    then (g, false)
    else if contains s g.ahead
    then (g, false)
    else (let ahead = insert s g.ahead in
        let (c, rest) = advance (length ahead) g.contiguous ahead in
        (
          record {
            contiguous = c;
            ahead = rest;
            highest = if ltb g.highest s then s else g.highest;
          },
          true,
        ))

abbrev pub is_complete : GapTracker → XferSeq → Bool
is_complete g final_seq = leb final_seq g.contiguous

-- The inner `while` of `missing`; `have - expect` is enough fuel. It returns `out`.
unfoldable pub fill : ℕ → ℕ → ℕ → ℕ → List XferSeq → List XferSeq
fill zero expect have limit out = out
fill (suc fuel) expect have limit out = elim (ltb expect have && ltb (length out) limit) [
  | true ↦ fill fuel (expect + 1) have limit (out ++ (expect ∷ []))
  | false ↦ out
]

-- The `for` of `missing`. After the break at `limit` nothing more is pushed.
unfoldable pub missing_loop : List ℕ → ℕ → ℕ → List XferSeq → List XferSeq
missing_loop [] expect limit out = out
missing_loop (have ∷ ahead) expect limit out =
    let out' = fill (have - expect) expect have limit out in
    let rest = missing_loop ahead ((have + 1) % u32_mod) limit out' in
    if leb limit (length out') then out' else rest

unfoldable pub missing : GapTracker → ℕ → List XferSeq
missing g limit = missing_loop g.ahead ((g.contiguous + 1) % u32_mod) limit []

abbrev pub window_span : GapTracker → ℕ
window_span g = g.highest - g.contiguous

abbrev pub abandon : GapTracker → GapTracker
abandon g = record g { ahead = [] }

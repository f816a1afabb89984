-- ===== src/Tests/Replaying.antt =====
-- The replay window at a concrete counter (`ReplayWindow` of protofish4-proto/src/crypto.rs).
use protofish4_rs.Base.{ℕ, ◌+◌, ◌≡◌, refl, List, true, ok, err, replicate}
use protofish4_rs.Failure.{replay}
use protofish4_rs.Crypto.Replay.{width, ReplayWindow, accept}
use protofish4_rs.Crypto.Replay.Accept.{accept_again, accept_twice}

-- A window whose highest counter is 10, with nothing seen below it.
abbrev some_window : ReplayWindow
some_window = record { highest = 10; seen = replicate 16 0; started = true }

some_window_accepts : (accept {Uuid = List ℕ} some_window 7).1 ≡ ok tt
unfolding accept protofish4_rs.Crypto.Replay.get_seen
some_window_accepts = refl

accept_again_example :
    (accept {Uuid = List ℕ} (accept {Uuid = List ℕ} some_window 7).0 7).1 ≡ err (replay 7)
accept_again_example = accept_again some_window 7 refl some_window_accepts

accept_twice_example :
    let w' = (accept {Uuid = List ℕ} some_window (10 + width)).0 in
    ((accept {Uuid = List ℕ} some_window (10 + width)).1 ≡ ok tt)
    × ((accept {Uuid = List ℕ} some_window 10).1 ≡ err (replay 10))
    × ((accept {Uuid = List ℕ} w' 10).1 ≡ ok tt)
accept_twice_example = accept_twice some_window refl

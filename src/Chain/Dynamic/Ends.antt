-- ===== src/Chain/Dynamic/Ends.antt =====
-- Every run of the dynamic path of a chain ends.
use citor.Prelude.{ℕ, ◌+◌, ◌*◌, ◌≤◌, ◌<◌, ◌≡◌, true}
use citor.Chain.Defs.{Call}
use citor.Chain.Dynamic.Defs.{Chain, Reach}
use citor.Chain.Dynamic.Progress.{Moves, live, dynamic_chain_progress}
use citor.Chain.Dynamic.Bound.{dynamic_chain_terminates}

-- In every state that any interleaving of the slots reaches, also after throws of the bodies and after a stop of
-- the token, if some slot is still at work then some slot has a step, and with `p` participants, `m` stages and
-- `b` blocks at most p * (2 + m * (p + 9)) + 3 * m * b steps have been made: the barriers never block each
-- other, no loop over the blocks runs for ever, and every run ends with no slot at work.
pub dynamic_chain_ends :
    (c : Call) (n_blocks : ℕ) {n : ℕ} {s : Chain} (i : ℕ)
    → Reach c n_blocks n s
    → i < c.participants
    → live (s.place i) ≡ true
    → Moves c n_blocks s
      × (n ≤ c.participants * (2 + c.n_stages * (c.participants + 9)) + c.n_stages * (n_blocks * 3))
dynamic_chain_ends c n_blocks i r l w =
    (dynamic_chain_progress c n_blocks i r l w, dynamic_chain_terminates c n_blocks r)

-- ===== src/Chain/Ends.antt =====
-- Every run of a chain ends.
use citor.Prelude.{ℕ, ◌+◌, ◌*◌, ◌≤◌, ◌<◌, ◌≡◌, true}
use citor.Chain.Defs.{Call, Chain, Reach}
use citor.Chain.Progress.{Moves, live, chain_progress}
use citor.Chain.Bound.{chain_terminates}

-- In every state that any interleaving of the slots reaches, for any stages, also after throws of the
-- bodies and after a stop of the token, if some slot is still at work then some slot has a step, and with
-- `p` participants and `m` stages at most p * (2 + m * (p + 8)) steps have been made: the barriers never
-- block each other, and every run ends with no slot at work.
pub chain_ends :
    (c : Call) {n : ℕ} {s : Chain} (i : ℕ)
    → Reach c n s
    → i < c.participants
    → live (s.place i) ≡ true
    → Moves c s × (n ≤ c.participants * (2 + c.n_stages * (c.participants + 8)))
chain_ends c i r l w = (chain_progress c i r l w, chain_terminates c r)

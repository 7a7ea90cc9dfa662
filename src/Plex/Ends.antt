-- ===== src/Plex/Ends.antt =====
-- Every run of a plex ends.
use citor.Prelude.{ℕ, suc, ◌+◌, ◌*◌, ◌≤◌, ◌<◌, ◌≡◌, true}
use citor.Plex.Defs.{Call, Plex, Reach}
use citor.Plex.Progress.{Moves, live, plex_progress}
use citor.Plex.Bound.{plex_terminates}

-- In every state that any interleaving of the slots reaches, also after throws of the bodies and the hook
-- and after a stop of the token, if some slot is still at work then the producer or a worker has a step, and
-- with `p` participants and `m` phases at most (p + 1) * (4 + m * (p + 8)) steps have been made: the waits
-- never block each other, and every run ends with no slot at work.
pub plex_ends :
    (c : Call) {n : ℕ} {s : Plex} (i : ℕ)
    → Reach c n s
    → i < c.participants
    → live s i ≡ true
    → Moves c s × (n ≤ suc c.participants * (4 + c.n_phases * (c.participants + 8)))
plex_ends c i r l w = (plex_progress c i r l w, plex_terminates c r)

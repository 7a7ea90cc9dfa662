-- ===== src/Scan/TwoPass/Ends.antt =====
-- Every run of the two passes of a scan ends.
use citor.Prelude.{ℕ, ◌+◌, ◌*◌, ◌≤◌, ◌<◌, ◌≢◌}
use citor.Scan.TwoPass.Defs.{Call, Scan, finished, Reach}
use citor.Scan.TwoPass.Progress.{Moves, scan_progress}
use citor.Scan.TwoPass.Bound.{scan_terminates}

-- In every state that any interleaving of the slots reaches, also after throws of the body or of `prefix`
-- and after a stop of the token, if some slot is not done then some slot has a step, and with `p`
-- participants at most p * (p + 7) steps have been made: no waits of the two passes block each other, and
-- every run ends with all slots done.
pub scan_ends {ℓ} :
    {A : Type ℓ} (c : Call A) {n : ℕ} {s : Scan A} (i : ℕ)
    → Reach c n s
    → i < c.participants
    → s.place i ≢ finished
    → Moves c s × (n ≤ c.participants * (c.participants + 7))
scan_ends c i r l e = (scan_progress c i r l e, scan_terminates c r)

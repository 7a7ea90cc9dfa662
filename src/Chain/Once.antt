-- ===== src/Chain/Once.antt =====
-- Which bodies a slot has run at its end.
use citor.Prelude.{ℕ, ◌<◌, ◌≡◌, refl, ◌||◌, ◌==◌, not, lt→ltb, ◌∙◌, if◌then◌else◌}
use citor.Chain.Defs.{Call, finished, Chain, prev_barrier, is_serial, Reach}
use citor.Chain.Roles.{at_own}
use citor.Chain.Steps.{Reach-Roles}

-- In every state that any interleaving of the slots reaches, a slot that has left the last stage has run
-- the body of each stage exactly once, but for slots other than 0 at a stage after one with barrier
-- ProducerSerial, whose body they have not run. So the body of a stage with that barrier is itself run by
-- every slot, unless the stage before it has that barrier too.
pub chain_complete :
    (c : Call) {n : ℕ} {s : Chain} (i m : ℕ)
    → Reach c n s
    → s.place i ≡ finished
    → m < c.n_stages
    → s.ran i m ≡ (if not (is_serial (prev_barrier c m)) || (i == 0) then 1 else 0)
chain_complete c {s = s} i m r e l =
    let h = at_own c s i (Reach-Roles c r) e in h.did m ∙ rw (lt→ltb m c.n_stages l) refl

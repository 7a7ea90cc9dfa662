-- ===== src/Plex/Tests.antt =====
-- Runs of a plex at concrete inputs.
use citor.Prelude.{ℕ, ◌≤◌, ◌≡◌, ◌⊎◌, refl, arith, false, none, ltb, ◌&&◌, if◌then◌else◌}
use citor.Failure.{failed}
use citor.Plex.Defs.{
  Call, opening, awaiting, Plex, open_phase, hook_done, publish, lead_done, lead_stamp, join_next,
  join_over, lead_leave, see_phase, go_on, body_done, body_threw, stamp, lead, work, IsFresh, Reach,
  start, next,
}
use citor.Plex.Phases.{work_body, body_of, plex_phase, plex_hook}
use citor.Plex.Progress.{lead_live, live, Moves}
use citor.Plex.Ends.{plex_ends}
use citor.Plex.Once.{has_finished, plex_once}

-- The producer and one worker, with two phases.
abbrev two_phases : Call
two_phases = record { participants = 2; n_phases = 2; epoch_base = 4 }

abbrev fresh : Plex
fresh = record {
  done = λ k. 4;
  current_phase = 0;
  phase_cancelled = false;
  first_exception = none;
  prepared = 0;
  ran = λ k m. 0;
  producer = opening 1;
  worker = λ k. awaiting 1;
}

fresh-IsFresh : IsFresh two_phases fresh
unfolding failed
fresh-IsFresh = record {
  stamps = λ k. omega arith;
  unpublished = refl;
  going = refl;
  clean = refl;
  unprepared = refl;
  unrun = λ k m. refl;
  leads = refl;
  all_wait = λ k. refl;
}

-- Phase 1 is over, and the hook of phase 2 runs.
abbrev second_hook : (s : Plex) × Reach two_phases 12 s
second_hook =
    let a = next (start fresh-IsFresh) (lead (open_phase refl (omega arith) refl)) in
    let b = next a (lead (hook_done refl)) in
    let d = next b (lead (publish refl)) in
    let e = next d (lead (lead_done refl)) in
    let f = next e (lead (lead_stamp refl)) in
    let g =
      next f (work 1 (omega arith) (omega arith) (see_phase refl (omega arith) (omega arith))) in
    let h = next g (work 1 (omega arith) (omega arith) (go_on refl refl)) in
    let i = next h (work 1 (omega arith) (omega arith) (body_done refl)) in
    let j = next i (work 1 (omega arith) (omega arith) (stamp refl)) in
    let k = next j (lead (join_next refl (omega arith) (omega arith))) in
    let l = next k (lead (join_over refl (omega arith))) in
    (_, next l (lead (open_phase refl (omega arith) refl)))

plex_hook_example :
    (second_hook.0.phase_cancelled ≡ false)
    × (failed second_hook.0.first_exception ≡ false)
    × (body_of second_hook.0 1 ≡ none)
    × ((◌≡◌ {A = ℕ} 2 1) ⊎ (5 ≤ second_hook.0.done 1))
plex_hook_example =
    plex_hook two_phases 2 1 1 second_hook.1 refl (omega arith) (omega arith) (omega arith)

-- The worker runs phase 2, the producer has run it.
abbrev second_phase : (s : Plex) × Reach two_phases 18 s
second_phase =
    let a = next second_hook.1 (lead (hook_done refl)) in
    let b = next a (lead (publish refl)) in
    let d =
      next b (work 1 (omega arith) (omega arith) (see_phase refl (omega arith) (omega arith))) in
    let e = next d (work 1 (omega arith) (omega arith) (go_on refl refl)) in
    let f = next e (lead (lead_done refl)) in (_, next f (lead (lead_stamp refl)))

plex_phase_example :
    (second_phase.0.current_phase ≡ 2)
    × (2 ≤ second_phase.0.prepared)
    × ((◌≡◌ {A = ℕ} 2 1) ⊎ (5 ≤ second_phase.0.done 1))
unfolding body_of work_body
plex_phase_example =
    plex_phase two_phases 1 2 1 second_phase.1 (omega arith) refl (omega arith) (omega arith)

-- The worker has thrown, and the producer waits for its stamp.
abbrev thrown : (s : Plex) × Reach two_phases 19 s
thrown = (_, next second_phase.1 (work 1 (omega arith) (omega arith) (body_threw 7 refl)))

plex_ends_example : Moves two_phases thrown.0 × (19 ≤ 72)
unfolding live lead_live
plex_ends_example = plex_ends two_phases 0 thrown.1 (omega arith) refl

-- The producer has left after both phases.
abbrev over : (s : Plex) × Reach two_phases 23 s
over =
    let a = next second_phase.1 (work 1 (omega arith) (omega arith) (body_done refl)) in
    let b = next a (work 1 (omega arith) (omega arith) (stamp refl)) in
    let d = next b (lead (join_next refl (omega arith) (omega arith))) in
    let e = next d (lead (join_over refl (omega arith))) in
    (_, next e (lead (lead_leave refl (omega arith))))

plex_once_example :
    (p : ℕ) × ((m : ℕ) → over.0.ran 0 m ≡ (if ltb 0 m && ltb m p then 1 else 0))
    × ((has_finished over.0 0 ≡ false) ⊎ (p ≡ 3))
plex_once_example = plex_once two_phases 0 over.1 (omega arith)

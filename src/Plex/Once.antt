-- ===== src/Plex/Once.antt =====
-- Which bodies a slot of a plex has run.
use citor.Prelude.{
  ℕ, zero, suc, ◌<◌, ◌≡◌, arith, Bool, true, false, refl, ◌⊎◌, inl, inr, ◌&&◌, ltb, if◌then◌else◌,
}
use citor.Plex.Defs.{
  Call, Lead, opening, in_hook, publishing, abandoning, leading, lead_stamping, last_stamping,
  joining, lead_finished, lead_stopped, Place, awaiting, seen, running, stamping, draining,
  stopping, stopped, finished, Plex, Reach,
}
use citor.Plex.Counted.{LeadUpto, WorkUpto, Reach-Once}

unfoldable pub lead_has_finished : Lead → Bool
lead_has_finished (opening p) = false
lead_has_finished (in_hook p) = false
lead_has_finished (publishing p) = false
lead_has_finished (abandoning p threw) = false
lead_has_finished (leading p) = false
lead_has_finished (lead_stamping p) = false
lead_has_finished (last_stamping p) = false
lead_has_finished (joining p step last) = false
lead_has_finished lead_finished = true
lead_has_finished lead_stopped = false

unfoldable pub work_has_finished : Place → Bool
work_has_finished (awaiting p) = false
work_has_finished (seen p) = false
work_has_finished (running p) = false
work_has_finished (stamping p) = false
work_has_finished (draining p) = false
work_has_finished stopping = false
work_has_finished stopped = false
work_has_finished finished = true

lead_end :
    (c : Call) (l : Lead) (p : ℕ) → LeadUpto c l p → lead_has_finished l ≡ true → p ≡ suc c.n_phases
unfolding lead_has_finished
lead_end c lead_finished p u e = u
lead_end c l p u e = absurd (cc e)

work_end :
    (c : Call) (w : Place) (p : ℕ)
    → WorkUpto c w p
    → work_has_finished w ≡ true
    → p ≡ suc c.n_phases
unfolding work_has_finished
work_end c finished p u e = u
work_end c w p u e = absurd (cc e)

-- A slot that has left after the last phase.
unfoldable pub has_finished : Plex → (slot : ℕ) → Bool
has_finished s zero = lead_has_finished s.producer
has_finished s (suc i) = work_has_finished (s.worker (suc i))

unless {ℓ} : {A : Type ℓ} (b : Bool) → (b ≡ true → A) → (b ≡ false) ⊎ A
unless true h = inr (h refl)
unless false h = inl refl

-- In every state that any interleaving of the slots reaches, also after throws and stops, each slot has run
-- the bodies of the phases before some phase, each exactly once and of the others none; when the slot has
-- finished these are all the phases.
pub plex_once :
    (c : Call) {n : ℕ} {s : Plex} (i : ℕ)
    → Reach c n s
    → i < c.participants
    → (p : ℕ) × ((m : ℕ) → s.ran i m ≡ (if ltb 0 m && ltb m p then 1 else 0))
      × ((has_finished s i ≡ false) ⊎ (p ≡ suc c.n_phases))
unfolding has_finished
plex_once c {s = s} zero r l =
    let (p, u, h) = (Reach-Once c r).lead_ran in
    (p, h, unless (lead_has_finished s.producer) (lead_end c s.producer p u))
plex_once c {s = s} (suc i) r l =
    let (p, u, h) = (Reach-Once c r).work_ran (suc i) (omega arith) l in
    (p, h, unless (work_has_finished (s.worker (suc i))) (work_end c (s.worker (suc i)) p u))

-- ===== src/Plex/Defs.antt =====
-- The wrapper body of `runPlexParallel` with `waitPlexSlotsReachStamp` as steps of the producer and of
-- the workers. A step is one access to an atomic, with the private work before it: a wait has a step only
-- when its condition holds. The stores of the exception and of the cancellation are one step. A worker
-- that finds the plex cancelled may have read an older `currentPhase` before. Memory is sequentially consistent.
use citor.Prelude.{
  ℕ, suc, ◌+◌, ◌≤◌, ◌<◌, ◌≡◌, Bool, true, false, ◌||◌, ltb, if◌then◌else◌, Option, put,
}
use citor.Failure.{capture, failed}

-- What a plex is called with. Slot 0 is the producer's.
pub record Call : Type 0 where
  pub participants : ℕ
  pub n_phases : ℕ
  pub epoch_base : ℕ

-- Where the producer stands; `p` counts the phases from 1.
pub data Lead : Type 0 where
  opening : (p : ℕ) → Lead  -- at the head of the loop
  in_hook : (p : ℕ) → Lead  -- in `prePhaseFn(p - 1)`
  publishing : (p : ℕ) → Lead  -- before the store of `currentPhase`
  abandoning : (p : ℕ) (threw : Bool) → Lead  -- before that store in a cancelled plex
  leading : (p : ℕ) → Lead  -- in `phaseFn(p - 1, 0, …)`
  lead_stamping : (p : ℕ) → Lead
  last_stamping : (p : ℕ) → Lead  -- before the stamp of slot 0 after a throw
  joining : (p step : ℕ) (last : Bool) → Lead  -- in waitPlexSlotsReachStamp
  lead_finished : Lead
  lead_stopped : Lead

-- Where a worker stands.
pub data Place : Type 0 where
  awaiting : (p : ℕ) → Place  -- at the head of the loop
  seen : (p : ℕ) → Place  -- before the look at `phaseCancelled`
  running : (p : ℕ) → Place  -- in `phaseFn(p - 1, slot, …)`
  stamping : (p : ℕ) → Place
  draining : (p : ℕ) → Place  -- before the stamp of a cancelled phase
  stopping : Place  -- before the final stamp
  stopped : Place
  finished : Place

-- `prepared` counts the hooks that have returned, `ran` for each slot and phase the bodies that have.
pub record Plex : Type 0 where
  pub done : ℕ → ℕ
  pub current_phase : ℕ
  pub phase_cancelled : Bool
  pub first_exception : Option ℕ
  pub prepared : ℕ
  pub ran : ℕ → ℕ → ℕ
  pub producer : Lead
  pub worker : ℕ → Place

abbrev pub lead_to : Plex → Lead → Plex
lead_to s l = record s { producer = l }

abbrev pub go : Plex → ℕ → Place → Plex
go s i p = record s { worker = put s.worker i p }

-- The exception and `phaseCancelled`.
abbrev pub record_failure : Plex → ℕ → Plex
record_failure s e = record s {
  first_exception = capture s.first_exception e;
  phase_cancelled = true;
}

abbrev pub count_body : Plex → (slot phase : ℕ) → Plex
count_body s i p = record s { ran = put s.ran i (put (s.ran i) p (suc (s.ran i p))) }

abbrev pub stamp_slot : Plex → (slot value : ℕ) → Plex
stamp_slot s i v = record s { done = put s.done i v }

-- A step of the producer. The token may be found stopped at any poll, which is `stop`.
pub data LeadStep (c : Call) (s : Plex) : Plex → Type 0 where
  open_phase :
      {p : ℕ}
      → s.producer ≡ opening p
      → p ≤ c.n_phases
      → s.phase_cancelled ≡ false
      → LeadStep c s (lead_to s (in_hook p))
  abandon :
      {p : ℕ} (stop : Bool)
      → s.producer ≡ opening p
      → p ≤ c.n_phases
      → (stop || s.phase_cancelled) ≡ true
      → LeadStep c s (record s { phase_cancelled = true; producer = abandoning p false })
  hook_done :
      {p : ℕ}
      → s.producer ≡ in_hook p
      → LeadStep c s (record s { prepared = suc s.prepared; producer = publishing p })
  hook_threw :
      {p : ℕ} (e : ℕ)
      → s.producer ≡ in_hook p
      → LeadStep c s (lead_to (record_failure s e) (abandoning p true))
  publish :
      {p : ℕ}
      → s.producer ≡ publishing p
      → LeadStep c s (record s { current_phase = p; producer = leading p })
  publish_last :
      {p : ℕ} {threw : Bool}
      → s.producer ≡ abandoning p threw
      → LeadStep c s (record s {
        current_phase = p;
        producer = if threw then last_stamping p else joining p 1 true;
      })
  lead_done :
      {p : ℕ} → s.producer ≡ leading p → LeadStep c s (lead_to (count_body s 0 p) (lead_stamping p))
  lead_threw :
      {p : ℕ} (e : ℕ)
      → s.producer ≡ leading p
      → LeadStep c s (lead_to (record_failure s e) (last_stamping p))
  lead_stamp :
      {p : ℕ}
      → s.producer ≡ lead_stamping p
      → LeadStep c s (lead_to (stamp_slot s 0 (c.epoch_base + p)) (joining p 1 false))
  last_stamp :
      {p : ℕ}
      → s.producer ≡ last_stamping p
      → LeadStep c s (lead_to (stamp_slot s 0 (c.epoch_base + p)) (joining p 1 true))
  join_next :
      {p step : ℕ} {last : Bool}
      → s.producer ≡ joining p step last
      → step < c.participants
      → c.epoch_base + p ≤ s.done step
      → LeadStep c s (lead_to s (joining p (suc step) last))
  join_over :
      {p step : ℕ} {last : Bool}
      → s.producer ≡ joining p step last
      → c.participants ≤ step
      → LeadStep c s (lead_to s (if last then lead_stopped else opening (suc p)))
  lead_leave :
      {p : ℕ} → s.producer ≡ opening p → c.n_phases < p → LeadStep c s (lead_to s lead_finished)

-- A step of the worker of slot `i`.
pub data WorkStep (c : Call) (s : Plex) (i : ℕ) : Plex → Type 0 where
  see_phase :
      {p : ℕ}
      → s.worker i ≡ awaiting p
      → p ≤ c.n_phases
      → p ≤ s.current_phase
      → WorkStep c s i (go s i (seen p))
  see_cancelled :
      {p : ℕ}
      → s.worker i ≡ awaiting p
      → p ≤ c.n_phases
      → s.phase_cancelled ≡ true
      → WorkStep c s i (go s i stopping)
  go_on :
      {p : ℕ}
      → s.worker i ≡ seen p
      → s.phase_cancelled ≡ false
      → WorkStep c s i (go s i (running p))
  drain :
      {p : ℕ}
      → s.worker i ≡ seen p
      → s.phase_cancelled ≡ true
      → WorkStep c s i (go s i (draining p))
  body_done :
      {p : ℕ} → s.worker i ≡ running p → WorkStep c s i (go (count_body s i p) i (stamping p))
  body_threw :
      {p : ℕ} (e : ℕ) → s.worker i ≡ running p → WorkStep c s i (go (record_failure s e) i stopping)
  stamp :
      {p : ℕ}
      → s.worker i ≡ stamping p
      → WorkStep c s i (go (stamp_slot s i (c.epoch_base + p)) i (awaiting (suc p)))
  stamp_drained :
      {p : ℕ}
      → s.worker i ≡ draining p
      → WorkStep c s i (
          go (stamp_slot s i (c.epoch_base + p)) i (if ltb p c.n_phases then stopping else stopped))
  stamp_final :
      s.worker i ≡ stopping
      → WorkStep c s i (go (stamp_slot s i (c.epoch_base + c.n_phases)) i stopped)
  leave : {p : ℕ} → s.worker i ≡ awaiting p → c.n_phases < p → WorkStep c s i (go s i finished)

pub data Step (c : Call) (s : Plex) : Plex → Type 0 where
  lead : {s' : Plex} → LeadStep c s s' → Step c s s'
  work : (i : ℕ) {s' : Plex} → 0 < i → i < c.participants → WorkStep c s i s' → Step c s s'

-- A state before the dispatch: the stamps of earlier calls are at most the base of the epochs.
pub record IsFresh (c : Call) (s : Plex) : Type 0 where
  pub stamps : (k : ℕ) → s.done k ≤ c.epoch_base
  pub unpublished : s.current_phase ≡ 0
  pub going : s.phase_cancelled ≡ false
  pub clean : failed s.first_exception ≡ false
  pub unprepared : s.prepared ≡ 0
  pub unrun : (k m : ℕ) → s.ran k m ≡ 0
  pub leads : s.producer ≡ opening 1
  pub all_wait : (k : ℕ) → s.worker k ≡ awaiting 1

-- `Reach c n s`: `s` is reached by `n` steps of the producer and the workers.
pub data Reach (c : Call) : ℕ → Plex → Type 0 where
  start : {s : Plex} → IsFresh c s → Reach c 0 s
  next : {n : ℕ} {s s' : Plex} → Reach c n s → Step c s s' → Reach c (suc n) s'

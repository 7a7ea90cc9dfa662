-- ===== src/Chain/Defs.antt =====
-- `runChainStageForSlot` with `waitAllSlotsDone` and `waitProducerSerialBarrier` as steps of the slots,
-- for any list of stages. A step is one access to an atomic, with the private work before it: a wait has a
-- step only when its condition holds. The two stores after a throw, and the two loads before a
-- stage, are one step. Memory is sequentially consistent.
use citor.Prelude.{
  ℕ, zero, suc, ◌+◌, ◌-◌, ◌≤◌, ◌<◌, ◌≡◌, Bool, true, false, ◌&&◌, ◌||◌, ◌==◌, ltb, if◌then◌else◌,
  Option, put,
}
use citor.Failure.{capture, failed}

pub data BarrierKind : Type 0 where
  no_barrier : BarrierKind  -- `None`
  global : BarrierKind
  deterministic_reduce : BarrierKind
  producer_serial : BarrierKind

-- What a chain is called with. `barrier` is the kind of each stage, which acts after it.
pub record Call : Type 0 where
  pub participants : ℕ
  pub n_stages : ℕ
  pub epoch_base : ℕ
  pub barrier : ℕ → BarrierKind

-- Where a slot stands.
pub data Place : Type 0 where
  arriving : (stage : ℕ) → Place
  scanning : (stage step : ℕ) → Place  -- in waitAllSlotsDone
  serial_waiting : (stage : ℕ) → Place  -- in waitProducerSerialBarrier
  at_gate : (stage : ℕ) (runs_body : Bool) → Place  -- before the look at `chainCancelled`
  running : (stage : ℕ) → Place  -- in the body of the stage
  stamping : (stage : ℕ) → Place  -- before the stamp of the stage
  bailing : Place  -- before the stamp of a slot that leaves early
  bailed : Place
  finished : Place

-- `ran` counts, for each slot and stage, the bodies that have returned.
pub record Chain : Type 0 where
  pub done : ℕ → ℕ
  pub chain_cancelled : Bool
  pub first_exception : Option ℕ
  pub ran : ℕ → ℕ → ℕ
  pub place : ℕ → Place

-- The barrier before a stage.
abbrev pub prev_barrier : Call → ℕ → BarrierKind
prev_barrier c zero = no_barrier
prev_barrier c (suc k) = c.barrier k

abbrev pub is_rendezvous : BarrierKind → Bool
is_rendezvous no_barrier = false
is_rendezvous global = true
is_rendezvous deterministic_reduce = true
is_rendezvous producer_serial = false

abbrev pub is_serial : BarrierKind → Bool
is_serial no_barrier = false
is_serial global = false
is_serial deterministic_reduce = false
is_serial producer_serial = true

-- kThisStampNeeded, or kPrevWasProducerSerial in slot 0
abbrev pub stamp_needed : Call → (slot stage : ℕ) → Bool
stamp_needed c slot stage =
    (is_rendezvous (c.barrier stage) || is_serial (c.barrier stage))
    || (is_serial (prev_barrier c stage) && (slot == 0))

-- The slot that a step of the scan looks at.
abbrev pub peer : Call → (self step : ℕ) → ℕ
peer c self step =
    if ltb (self + step) c.participants then self + step else self + step - c.participants

abbrev pub go : Chain → ℕ → Place → Chain
go s i p = record s { place = put s.place i p }

-- The exception and `chainCancelled`.
abbrev pub record_failure : Chain → ℕ → Chain
record_failure s e = record s {
  first_exception = capture s.first_exception e;
  chain_cancelled = true;
}

-- A step of slot `i`. A body may throw, and a token may be found stopped at any poll, which is
-- `stopped`.
pub data Step (c : Call) (s : Chain) (i : ℕ) : Chain → Type 0 where
  pass :
      {k : ℕ}
      → s.place i ≡ arriving k
      → k < c.n_stages
      → prev_barrier c k ≡ no_barrier
      → Step c s i (go s i (at_gate k true))
  begin_scan :
      {k : ℕ}
      → s.place i ≡ arriving k
      → k < c.n_stages
      → is_rendezvous (prev_barrier c k) ≡ true
      → Step c s i (go s i (scanning k 1))
  scan_next :
      {k step : ℕ}
      → s.place i ≡ scanning k step
      → step < c.participants
      → c.epoch_base + k ≤ s.done (peer c i step)
      → Step c s i (go s i (scanning k (suc step)))
  scan_over :
      {k step : ℕ}
      → s.place i ≡ scanning k step
      → c.participants ≤ step
      → Step c s i (go s i (at_gate k true))
  begin_serial :
      {k : ℕ}
      → s.place i ≡ arriving k
      → k < c.n_stages
      → is_serial (prev_barrier c k) ≡ true
      → Step c s i (go s i (if i == 0 then at_gate k true else serial_waiting k))
  serial_over :
      {k : ℕ}
      → s.place i ≡ serial_waiting k
      → c.epoch_base + (k + 1) ≤ s.done 0
      → Step c s i (go s i (at_gate k false))
  go_on :
      {k : ℕ} {runs_body : Bool}
      → s.place i ≡ at_gate k runs_body
      → s.chain_cancelled ≡ false
      → Step c s i (go s i (if runs_body then running k else stamping k))
  bail :
      {k : ℕ} {runs_body : Bool} (stopped : Bool)
      → s.place i ≡ at_gate k runs_body
      → (s.chain_cancelled || stopped) ≡ true
      → Step c s i (record s {
        chain_cancelled = s.chain_cancelled || stopped;
        place = put s.place i bailing;
      })
  body_done :
      {k : ℕ}
      → s.place i ≡ running k
      → Step c s i (record s {
        ran = put s.ran i (put (s.ran i) k (suc (s.ran i k)));
        place = put s.place i (stamping k);
      })
  body_threw :
      {k : ℕ} (e : ℕ) → s.place i ≡ running k → Step c s i (go (record_failure s e) i bailing)
  stamp :
      {k : ℕ}
      → s.place i ≡ stamping k
      → Step c s i (record s {
        done = if stamp_needed c i k then put s.done i (c.epoch_base + (k + 1)) else s.done;
        place = put s.place i (arriving (suc k));
      })
  stamp_bailed :
      s.place i ≡ bailing
      → Step c s i (record s {
        done = put s.done i (c.epoch_base + c.n_stages);
        place = put s.place i bailed;
      })
  leave : {k : ℕ} → s.place i ≡ arriving k → c.n_stages ≤ k → Step c s i (go s i finished)

-- A state before the dispatch: the stamps of earlier calls are at most the base of the epochs.
pub record IsFresh (c : Call) (s : Chain) : Type 0 where
  pub stamps : (k : ℕ) → s.done k ≤ c.epoch_base
  pub going : s.chain_cancelled ≡ false
  pub clean : failed s.first_exception ≡ false
  pub unrun : (k m : ℕ) → s.ran k m ≡ 0
  pub all_first : (k : ℕ) → s.place k ≡ arriving 0

-- `Reach c n s`: `s` is reached by `n` steps of the slots.
pub data Reach (c : Call) : ℕ → Chain → Type 0 where
  start : {s : Chain} → IsFresh c s → Reach c 0 s
  next :
      {n : ℕ} {s : Chain} (i : ℕ) {s' : Chain}
      → Reach c n s
      → i < c.participants
      → Step c s i s'
      → Reach c (suc n) s'

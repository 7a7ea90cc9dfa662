-- ===== src/Chain/Dynamic/Defs.antt =====
-- `runDynamicChainStageForSlot` with `waitAllSlotsDone` as steps of the slots. A step is one access to an
-- atomic, with the private work before it. Memory is sequentially consistent.
use citor.Prelude.{
  ℕ, suc, ◌+◌, ◌≤◌, ◌<◌, ◌≡◌, Bool, true, false, ◌||◌, ltb, if◌then◌else◌, Option, put,
}
use citor.Failure.{capture, failed}
use citor.Chain.Defs.{Call, peer}

-- Where a slot stands.
pub data Place : Type 0 where
  arriving : (stage : ℕ) → Place
  scanning : (stage step : ℕ) → Place  -- in waitAllSlotsDone
  at_gate : (stage : ℕ) → Place  -- before the look at `chainCancelled` that ends the slot
  looping : (stage : ℕ) → Place  -- before the look at `chainCancelled` that ends the loop
  claiming : (stage : ℕ) → Place  -- before the `fetch_add`
  running : (stage block : ℕ) → Place
  stamping : (stage : ℕ) → Place
  bailing : Place
  bailed : Place
  finished : Place

-- `next_block` is the counter of each stage; `ran` counts, for each stage and block, the bodies that have returned.
pub record Chain : Type 0 where
  pub done : ℕ → ℕ
  pub chain_cancelled : Bool
  pub first_exception : Option ℕ
  pub next_block : ℕ → ℕ
  pub ran : ℕ → ℕ → ℕ
  pub place : ℕ → Place

abbrev pub go : Chain → ℕ → Place → Chain
go s i p = record s { place = put s.place i p }

-- The exception and `chainCancelled`.
abbrev pub record_failure : Chain → ℕ → Chain
record_failure s e = record s {
  first_exception = capture s.first_exception e;
  chain_cancelled = true;
}

-- What the loop does with the block that it has got.
abbrev pub claimed : (n_blocks stage block : ℕ) → Place
claimed n_blocks stage block = if ltb block n_blocks then running stage block else stamping stage

-- A step of slot `i`. A body may throw, and a token may be found stopped at any poll, which is
-- `stopped`. `n_blocks` is `dynamicBlockCount`.
pub data Step (c : Call) (n_blocks : ℕ) (s : Chain) (i : ℕ) : Chain → Type 0 where
  first : s.place i ≡ arriving 0 → 0 < c.n_stages → Step c n_blocks s i (go s i (at_gate 0))
  begin_scan :
      {k : ℕ}
      → s.place i ≡ arriving (suc k)
      → suc k < c.n_stages
      → Step c n_blocks s i (go s i (scanning (suc k) 1))
  scan_next :
      {k step : ℕ}
      → s.place i ≡ scanning k step
      → step < c.participants
      → c.epoch_base + k ≤ s.done (peer c i step)
      → Step c n_blocks s i (go s i (scanning k (suc step)))
  scan_over :
      {k step : ℕ}
      → s.place i ≡ scanning k step
      → c.participants ≤ step
      → Step c n_blocks s i (go s i (at_gate k))
  go_on :
      {k : ℕ}
      → s.place i ≡ at_gate k
      → s.chain_cancelled ≡ false
      → Step c n_blocks s i (go s i (looping k))
  bail :
      {k : ℕ} (stopped : Bool)
      → s.place i ≡ at_gate k
      → (s.chain_cancelled || stopped) ≡ true
      → Step c n_blocks s i (record s {
        chain_cancelled = s.chain_cancelled || stopped;
        place = put s.place i bailing;
      })
  look :
      {k : ℕ}
      → s.place i ≡ looping k
      → s.chain_cancelled ≡ false
      → Step c n_blocks s i (go s i (claiming k))
  drain :
      {k : ℕ}
      → s.place i ≡ looping k
      → s.chain_cancelled ≡ true
      → Step c n_blocks s i (go s i (stamping k))
  claim :
      {k : ℕ}
      → s.place i ≡ claiming k
      → Step c n_blocks s i (record s {
        next_block = put s.next_block k (suc (s.next_block k));
        place = put s.place i (claimed n_blocks k (s.next_block k));
      })
  body_done :
      {k b : ℕ}
      → s.place i ≡ running k b
      → Step c n_blocks s i (record s {
        ran = put s.ran k (put (s.ran k) b (suc (s.ran k b)));
        place = put s.place i (looping k);
      })
  body_threw :
      {k b : ℕ} (e : ℕ)
      → s.place i ≡ running k b
      → Step c n_blocks s i (go (record_failure s e) i bailing)
  stamp :
      {k : ℕ}
      → s.place i ≡ stamping k
      → Step c n_blocks s i (record s {
        done = put s.done i (c.epoch_base + (k + 1));
        place = put s.place i (arriving (suc k));
      })
  stamp_bailed :
      s.place i ≡ bailing
      → Step c n_blocks s i (record s {
        done = put s.done i (c.epoch_base + c.n_stages);
        place = put s.place i bailed;
      })
  leave : {k : ℕ} → s.place i ≡ arriving k → c.n_stages ≤ k → Step c n_blocks s i (go s i finished)

-- A state before the dispatch: the stamps of earlier calls are at most the base of the epochs.
pub record IsFresh (c : Call) (s : Chain) : Type 0 where
  pub stamps : (k : ℕ) → s.done k ≤ c.epoch_base
  pub going : s.chain_cancelled ≡ false
  pub clean : failed s.first_exception ≡ false
  pub unclaimed : (k : ℕ) → s.next_block k ≡ 0
  pub unrun : (k b : ℕ) → s.ran k b ≡ 0
  pub all_first : (k : ℕ) → s.place k ≡ arriving 0

-- `Reach c n_blocks n s`: `s` is reached by `n` steps of the slots.
pub data Reach (c : Call) (n_blocks : ℕ) : ℕ → Chain → Type 0 where
  start : {s : Chain} → IsFresh c s → Reach c n_blocks 0 s
  next :
      {n : ℕ} {s : Chain} (i : ℕ) {s' : Chain}
      → Reach c n_blocks n s
      → i < c.participants
      → Step c n_blocks s i s'
      → Reach c n_blocks (suc n) s'

-- ===== src/Scan/TwoPass/Defs.antt =====
-- The body wrapper of `runScanParallel`, without the hierarchical path, as steps of the slots. Slot 0
-- is the producer. A step is one access to an atomic, with the private work before it: a wait has a
-- step only when its condition holds, and the calls of `body` and of `prefix` are part of the
-- step that publishes what they did. The stores of recordFailure are one step, as are the two
-- loads before Pass 2. Memory is sequentially consistent.
use citor.Prelude.{
  ℕ, zero, suc, ◌+◌, ◌≤◌, ◌<◌, ◌≡◌, Bool, true, false, ◌||◌, ◌==◌, if◌then◌else◌, Option, none,
  some, put,
}
use citor.Failure.{capture, failed}

-- How a call of the user's code ends.
pub data Ended {ℓ} (A : Type ℓ) : Type ℓ where
  returned : (a : A) → Ended A
  raised : (e : ℕ) → Ended A

-- What a scan is called with. `body slot initial` is the call on the range of a slot, in Pass 1.
pub record Call {ℓ} (A : Type ℓ) : Type ℓ where
  pub participants : ℕ
  pub epoch_base : ℕ
  pub identity : A
  pub body : ℕ → A → Ended A
  pub prefix : A → A → Ended A

-- Where a slot stands in the wrapper.
pub data Place : Type 0 where
  pass_one : Place
  failing : Place  -- Pass 1 threw, before the store on `done`
  releasing : Place  -- then slot 0, before the store on `prefixesPublished`
  abandoned : (slot : ℕ) → Place  -- then slot 0, waiting for the end of a slot
  joining : (slot : ℕ) → Place  -- slot 0, waiting for Pass 1 of a slot
  publishing : Place  -- slot 0 after the sequential reduce
  waiting : Place  -- another slot, waiting for `prefixesPublished`
  choosing : Place  -- before Pass 2
  second : Place  -- in Pass 2
  stamping : Place  -- before the last store on `done`
  finished : Place

-- `seeds` keeps the initial values that Pass 2 was given. `acc` is slot 0's.
pub record Scan {ℓ} (A : Type ℓ) : Type ℓ where
  pub partials : ℕ → A
  pub done : ℕ → ℕ
  pub published : Bool
  pub cancelled : Bool
  pub first_exception : Option ℕ
  pub seeds : ℕ → Option A
  pub acc : A
  pub inclusive_total : A
  pub place : ℕ → Place

module _ {ℓ} {A : Type ℓ} where
  abbrev pub go : Scan A → ℕ → Place → Scan A
  go s i p = record s { place = put s.place i p }

  abbrev pub record_failure : Scan A → ℕ → Scan A
  record_failure s e = record s { first_exception = capture s.first_exception e; cancelled = true }

  -- The loop of the sequential reduce, with `left` slots to go.
  unfoldable pub reduce_from : Call A → (left slot : ℕ) → A → (ℕ → A) → (ℕ → A) × Ended A
  reduce_from c zero slot acc partials = (partials, returned acc)
  reduce_from c (suc left) slot acc partials = elim (c.prefix acc (partials slot)) [
    | returned next ↦ reduce_from c left (suc slot) next (put partials slot acc)
    | raised e ↦ (put partials slot acc, raised e)
  ]

  -- What the call of parallelScan gives when every slot is done.
  abbrev pub scan_result : Scan A → Ended A
  scan_result s = elim s.first_exception [ none ↦ returned s.inclusive_total | some e ↦ raised e ]

-- A step of slot `i`. After a throw of `prefix` what it left in `acc` is not known. Pass 2 may
-- throw whatever Pass 1 did, and a token may be found stopped at any time, which is `stopped`.
pub data Step {ℓ} {A : Type ℓ} (c : Call A) (s : Scan A) (i : ℕ) : Scan A → Type ℓ where
  one_done :
      {t : A}
      → s.place i ≡ pass_one
      → c.body i c.identity ≡ returned t
      → Step c s i (record s {
        partials = put s.partials i t;
        done = put s.done i (c.epoch_base + 1);
        place = put s.place i (if i == 0 then joining 1 else waiting);
      })
  one_threw :
      {e : ℕ}
      → s.place i ≡ pass_one
      → c.body i c.identity ≡ raised e
      → Step c s i (go (record_failure s e) i failing)
  stamp_failed :
      s.place i ≡ failing
      → Step c s i (record s {
        done = put s.done i (c.epoch_base + 2);
        place = put s.place i (if i == 0 then releasing else finished);
      })
  release :
      s.place i ≡ releasing
      → Step c s i (record s { published = true; place = put s.place i (abandoned 1) })
  abandon_next :
      {k : ℕ}
      → s.place i ≡ abandoned k
      → k < c.participants
      → c.epoch_base + 2 ≤ s.done k
      → Step c s i (go s i (abandoned (suc k)))
  abandon_over :
      {k : ℕ} → s.place i ≡ abandoned k → c.participants ≤ k → Step c s i (go s i finished)
  join_next :
      {k : ℕ}
      → s.place i ≡ joining k
      → k < c.participants
      → c.epoch_base + 1 ≤ s.done k
      → Step c s i (go s i (joining (suc k)))
  skip_reduce :
      {k : ℕ}
      → s.place i ≡ joining k
      → c.participants ≤ k
      → failed s.first_exception ≡ true
      → Step c s i (record s { acc = c.identity; place = put s.place i publishing })
  reduce_done :
      {k : ℕ} {ps : ℕ → A} {total : A}
      → s.place i ≡ joining k
      → c.participants ≤ k
      → failed s.first_exception ≡ false
      → reduce_from c c.participants 0 c.identity s.partials ≡ (ps, returned total)
      → Step c s i (record s { partials = ps; acc = total; place = put s.place i publishing })
  reduce_threw :
      {k : ℕ} {ps : ℕ → A} {e : ℕ} (rest : A)
      → s.place i ≡ joining k
      → c.participants ≤ k
      → failed s.first_exception ≡ false
      → reduce_from c c.participants 0 c.identity s.partials ≡ (ps, raised e)
      → Step c s i (record (record_failure s e) {
        partials = ps;
        acc = rest;
        place = put s.place i publishing;
      })
  publish :
      s.place i ≡ publishing
      → Step c s i (record s { published = true; place = put s.place i choosing })
  see_published : s.place i ≡ waiting → s.published ≡ true → Step c s i (go s i choosing)
  go_two :
      s.place i ≡ choosing
      → s.cancelled ≡ false
      → Step c s i
          (record s { seeds = put s.seeds i (some (s.partials i)); place = put s.place i second })
  skip_two :
      (stopped : Bool)
      → s.place i ≡ choosing
      → (s.cancelled || stopped) ≡ true
      → Step c s i (record s { cancelled = s.cancelled || stopped; place = put s.place i stamping })
  two_done : s.place i ≡ second → Step c s i (go s i stamping)
  two_threw : (e : ℕ) → s.place i ≡ second → Step c s i (go (record_failure s e) i stamping)
  stamp :
      s.place i ≡ stamping
      → Step c s i (record s {
        done = put s.done i (c.epoch_base + 2);
        inclusive_total = if i == 0 then s.acc else s.inclusive_total;
        place = put s.place i finished;
      })

-- A state before the dispatch: the stamps of earlier calls are at most the base of the epochs.
pub record IsFresh {ℓ} {A : Type ℓ} (c : Call A) (s : Scan A) : Type ℓ where
  pub producer : 0 < c.participants
  pub stamps : (k : ℕ) → s.done k ≤ c.epoch_base
  pub unpublished : s.published ≡ false
  pub going : s.cancelled ≡ false
  pub clean : failed s.first_exception ≡ false
  pub unseeded : (k : ℕ) → s.seeds k ≡ none
  pub all_one : (k : ℕ) → s.place k ≡ pass_one

-- `Reach c n s`: `s` is reached by `n` steps of the slots.
pub data Reach {ℓ} {A : Type ℓ} (c : Call A) : ℕ → Scan A → Type ℓ where
  start : {s : Scan A} → IsFresh c s → Reach c 0 s
  next :
      {n : ℕ} {s : Scan A} (i : ℕ) {s' : Scan A}
      → Reach c n s
      → i < c.participants
      → Step c s i s'
      → Reach c (suc n) s'

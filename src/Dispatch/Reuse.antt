-- ===== src/Dispatch/Reuse.antt =====
-- The reuse of a published descriptor: the key test of `parallelFor` and the publication of
-- `dispatchOneStaticLockedBody` in include/citor/thread_pool.h, the worker's caches in
-- include/citor/detail/worker_loop.h, and the cache of `typedWorkerEntry` in
-- include/citor/detail/dispatch_static.h. Producers, pointers and entries are named by numbers.
use citor.Prelude.{
  ℕ, ◌-◌, Bool, false, not, ◌&&◌, ◌||◌, ◌==◌, leb, if◌then◌else◌, Option, none, some, List, [], ◌∷◌,
}
use citor.Blocks.Shape.{Shape, fill_block_shape}

-- The fields of a descriptor that parallelFor compares with the call's.
pub record Key : Type 0 where
  pub first : ℕ
  pub last : ℕ
  pub participants : ℕ
  pub priority : ℕ
  pub fn_ptr : ℕ
  pub worker_entry : ℕ
  pub worker_state_base : ℕ

-- A descriptor: the key with the shape that it was filled with.
pub record Desc : Type 0 where
  pub key : Key
  pub shape : Shape

-- What a worker keeps: `mailboxDesc`, `cachedDesc` and `cachedWorkerEntry` of its loop, and the
-- cache of each entry, if primed.
pub record Worker : Type 0 where
  pub mailbox_desc : ℕ
  pub cached_desc : Option ℕ
  pub cached_worker_entry : ℕ
  pub cached_for : ℕ → Option Desc

-- Each producer's thread-local descriptor, the workers, and `m_lastPublishedDesc`.
pub record Pool : Type 0 where
  pub descs : ℕ → Desc
  pub worker : ℕ → Worker
  pub last_published : Option ℕ

-- The compile-time hints of an entry: the grain, and whether the balance is dynamic.
pub record Hints : Type 0 where
  pub chunk : ℕ → ℕ
  pub oversubscribe : ℕ → Bool

-- `keyMatches`
unfoldable pub key_matches : Key → Key → Bool
key_matches a b =
    a.first == b.first
    && (a.last == b.last
        && (a.participants == b.participants
            && (a.priority == b.priority
                && (a.fn_ptr == b.fn_ptr
                    && (a.worker_entry == b.worker_entry
                        && a.worker_state_base == b.worker_state_base)))))

unfoldable pub points_to : Option ℕ → ℕ → Bool
points_to none producer = false
points_to (some other) producer = other == producer

-- `reuseSafe`, where `eligible` is the call's `kReuseEligible`, for the descriptor that `producer` has before the call.
unfoldable pub reuse_safe : Pool → (producer : ℕ) → (eligible : Bool) → Key → Bool
reuse_safe s producer eligible key =
    eligible && (key_matches (s.descs producer).key key && points_to s.last_published producer)

-- The parameters that `typedWorkerEntry` takes from its cache, which it fills first where the phase
-- is not a reuse or the cache is not primed.
unfoldable pub typed_worker_entry : (desc : Desc) → (reuse : Bool) → (cache : Option Desc) → Desc
typed_worker_entry desc reuse cache =
    if reuse then elim cache [ none ↦ desc | some c ↦ c ] else desc

-- The worker's loop on a published phase: its caches, and the parameters that the blocks are run
-- with.
unfoldable pub run_phase : (ℕ → Desc) → (reuse : Bool) → Worker → Worker × Desc
run_phase descs reuse w =
    let raw =
      if reuse then elim w.cached_desc [ none ↦ w.mailbox_desc | some d ↦ d ] else w.mailbox_desc in
    let entry =
      if not reuse || not (points_to w.cached_desc raw)
      then (descs raw).key.worker_entry
      else w.cached_worker_entry in
    let used = typed_worker_entry (descs raw) reuse (w.cached_for entry) in
    (
      record w {
        cached_desc = some raw;
        cached_worker_entry = entry;
        cached_for = λ e. if e == entry then some used else w.cached_for e;
      },
      used,
    )

module _ (hints : Hints) where
  -- The shape that fillBlockShape gives a key; the entry names the hints.
  unfoldable pub shape_of : Key → Shape
  shape_of key =
      fill_block_shape (key.last - key.first) key.participants (hints.chunk key.worker_entry)
        (hints.oversubscribe key.worker_entry)

  -- The producer's descriptor after the guarded writes and the filling of the shape.
  unfoldable pub write_desc : Desc → Key → Desc
  write_desc old key =
      if not (key_matches old.key key) || (old.shape.chunk == 0 || old.shape.block_count == 0)
      then record { key = key; shape = shape_of key }
      else record { key = key; shape = old.shape }

  -- The pool once `producer` has written its descriptor for a call.
  unfoldable pub written : Pool → (producer : ℕ) → Key → Pool
  written s producer key = record s {
    descs = λ p. if p == producer then write_desc (s.descs producer) key else s.descs p;
  }

  -- The publication to worker `i`, and what it runs.
  unfoldable pub publish : Pool → (producer : ℕ) → (eligible : Bool) → Key → (i : ℕ) → Worker × Desc
  publish s producer eligible key i =
      let reuse = reuse_safe s producer eligible key in
      let w = s.worker i in
      run_phase (written s producer key).descs reuse
        (if reuse then w else record w { mailbox_desc = producer })

  -- One call of parallelFor that is not inlined before its descriptor is written.
  unfoldable pub dispatch : Pool → (producer : ℕ) → (eligible : Bool) → Key → Pool
  dispatch s producer eligible key =
      let s' = written s producer key in
      if leb (s'.descs producer).shape.block_count 1 then s' else record s' {
        worker = λ i. (publish s producer eligible key i).0;
        last_published =
            if reuse_safe s producer eligible key then s.last_published else some producer;
      }

  -- The calls of all producers in the order in which they hold the dispatch gate.
  unfoldable pub run_calls : Pool → List (ℕ × Bool × Key) → Pool
  run_calls s [] = s
  run_calls s ((producer, eligible, key) ∷ calls) =
      run_calls (dispatch s producer eligible key) calls

-- A new pool: no descriptor is filled, and no worker has cached one.
abbrev pub new_pool : Pool
new_pool = record {
  descs = λ p. record {
    key = record {
      first = 0;
      last = 0;
      participants = 0;
      priority = 0;
      fn_ptr = 0;
      worker_entry = 0;
      worker_state_base = 0;
    };
    shape = record { chunk = 0; block_count = 0 };
  };
  worker = λ i. record {
    mailbox_desc = 0;
    cached_desc = none;
    cached_worker_entry = 0;
    cached_for = λ e. none;
  };
  last_published = none;
}

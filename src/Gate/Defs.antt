-- ===== src/Gate/Defs.antt =====
-- `dispatchGateTryLock`, `dispatchGateLock` and `dispatchGateUnlock` of include/citor/thread_pool.h,
-- as built for Windows: one access to the lock word a step, by any number of threads. WaitOnAddress
-- sleeps if the word still has the value given to it, and may return at any time;
-- WakeByAddressSingle wakes one sleeper, if there is one. Memory is sequentially consistent.
use citor.Prelude.{ℕ, zero, suc, ◌+◌, ◌/◌, ◌%◌, ◌≡◌, ◌≢◌, Bool, true, false, ◌==◌, put}

-- Where a thread stands.
pub data Place : Type 0 where
  outside : Place
  trying : Place  -- before the compare-exchange at the start of the lock
  spinning : (rounds : ℕ) → Place  -- `rounds` of the spin are left
  looping : Place  -- before the load of the loop after the spin
  loaded : (cur : ℕ) → Place  -- before the compare-exchange on `cur`
  parking : (cur : ℕ) → Place  -- before WaitOnAddress
  parked : Place  -- asleep
  holding : Place
  waking : Place  -- after the exchange of the unlock, before WakeByAddressSingle

-- `m_dispatchMutex`, with the held bit 1 and the waiter bit 2.
pub record Gate : Type 0 where
  pub word : ℕ
  pub place : ℕ → Place

abbrev pub held : ℕ
held = 1

abbrev pub has_waiter : ℕ → Bool
has_waiter w = w / 2 % 2 == 1

abbrev pub spin_iters : ℕ
spin_iters = 64

abbrev pub go : Gate → ℕ → Place → Gate
go s i p = record s { place = put s.place i p }

abbrev pub write : Gate → ℕ → ℕ → Place → Gate
write s w i p = record { word = w; place = put s.place i p }

-- A step of thread `i`. A compare-exchange of the loop may fail for no reason; the load and the
-- compare-exchange in a round of the spin are one step, which may fail at any word.
pub data Step (s : Gate) (i : ℕ) : Gate → Type 0 where
  call_lock : s.place i ≡ outside → Step s i (go s i trying)
  try_won : s.place i ≡ trying → s.word ≡ 0 → Step s i (write s held i holding)
  try_lost : s.place i ≡ trying → s.word ≢ 0 → Step s i (go s i (spinning spin_iters))
  spin_won : {n : ℕ} → s.place i ≡ spinning (suc n) → s.word ≡ 0 → Step s i (write s held i holding)
  spin_lost : {n : ℕ} → s.place i ≡ spinning (suc n) → Step s i (go s i (spinning n))
  spin_over : s.place i ≡ spinning zero → Step s i (go s i looping)
  load : s.place i ≡ looping → Step s i (go s i (loaded s.word))
  take : s.place i ≡ loaded 0 → s.word ≡ 0 → Step s i (write s 3 i holding)
  mark :
      {cur : ℕ}
      → s.place i ≡ loaded cur
      → cur ≢ 0
      → has_waiter cur ≡ false
      → s.word ≡ cur
      → Step s i (write s (cur + 2) i (parking (cur + 2)))
  retry : {cur : ℕ} → s.place i ≡ loaded cur → has_waiter cur ≡ false → Step s i (go s i looping)
  skip_mark :
      {cur : ℕ} → s.place i ≡ loaded cur → has_waiter cur ≡ true → Step s i (go s i (parking cur))
  sleep : {cur : ℕ} → s.place i ≡ parking cur → s.word ≡ cur → Step s i (go s i parked)
  no_sleep : {cur : ℕ} → s.place i ≡ parking cur → s.word ≢ cur → Step s i (go s i looping)
  wake_up : s.place i ≡ parked → Step s i (go s i looping)
  unlock : s.place i ≡ holding → has_waiter s.word ≡ false → Step s i (write s 0 i outside)
  unlock_waiter : s.place i ≡ holding → has_waiter s.word ≡ true → Step s i (write s 0 i waking)
  wake_one :
      {j : ℕ} → s.place i ≡ waking → s.place j ≡ parked → Step s i (go (go s j looping) i outside)
  wake_none : s.place i ≡ waking → ((j : ℕ) → s.place j ≢ parked) → Step s i (go s i outside)

abbrev pub free_gate : Gate
free_gate = record { word = 0; place = λ i. outside }

pub data Reach : Gate → Type 0 where
  start : Reach free_gate
  next : {s : Gate} (i : ℕ) {s' : Gate} → Reach s → Step s i s' → Reach s'

-- ===== src/Blocks/Cutoff.antt =====
-- What an exception or a stop request cuts off a rank's loop.
use citor.Prelude.{
  ℕ, zero, suc, ◌+◌, ◌%◌, ◌^◌, ◌<◌, ◌≤◌, ◌≡◌, refl, ap, arith, Bool, true, false, Option, none,
  some, ◌==◌, dec_lt, ne→==, lt→ltb, le→ltb, if◌then◌else◌, List, [], ◌∷◌, ◌++◌, map, All,
}
use citor.Blocks.Shape.{block_range}
use citor.Blocks.Defs.{
  JobDescriptor, Surroundings, Outcome, drained, saw_exception, saw_stop, threw, out_of_fuel,
  no_block, static_next, run_static, run_static_partition,
}
use citor.Blocks.Static.{IsReady}

module _ (env : Surroundings) (d : JobDescriptor) where
  abbrev pub range_of : ℕ → ℕ × ℕ
  range_of b = block_range d.first d.last d.chunk b

  -- `n` blocks of a rank, from block `b` on, and the block after them.
  unfoldable pub stride : (n b : ℕ) → List ℕ
  stride zero b = []
  stride (suc n) b = b ∷ stride n (b + d.participants)

  unfoldable pub after_stride : (n b : ℕ) → ℕ
  after_stride zero b = b
  after_stride (suc n) b = after_stride n (b + d.participants)

  -- Neither an exception nor a stop is seen before the block.
  abbrev pub IsClear : ℕ → Type 0
  IsClear b = (b < d.block_count) × (env.exception_seen b ≡ false) × (env.stop_seen b ≡ false)

  -- The loop is not cut off at the block: its body runs and returns.
  abbrev pub Returns : ℕ → Type 0
  Returns b = IsClear b × (env.body (range_of b).0 (range_of b).1 ≡ none)

  -- How the loop ends at block `b`, after the body has returned on the blocks `bs`.
  unfoldable pub EndsAt : (bs : List ℕ) (b : ℕ) → List (ℕ × ℕ) × Outcome → Type 0
  EndsAt bs b (calls, drained) = (calls ≡ map range_of bs) × (d.block_count ≤ b)
  EndsAt bs b (calls, saw_exception) =
      (calls ≡ map range_of bs) × (b < d.block_count) × (env.exception_seen b ≡ true)
  EndsAt bs b (calls, saw_stop) =
      (calls ≡ map range_of bs)
      × (b < d.block_count)
      × (env.exception_seen b ≡ false)
      × (env.stop_seen b ≡ true)
  EndsAt bs b (calls, threw e) =
      (calls ≡ map range_of bs ++ (range_of b ∷ []))
      × IsClear b
      × (env.body (range_of b).0 (range_of b).1 ≡ some e)
  EndsAt bs b (calls, out_of_fuel) = ⊥

  -- From block `c` on, what the loop does.
  abbrev Runs : ℕ → List (ℕ × ℕ) × Outcome → Type 0
  Runs c r = (n : ℕ) × All Returns (stride n c) × EndsAt (stride n c) (after_stride n c) r

  -- One more block before what the loop does.
  longer :
      (c : ℕ) (r : List (ℕ × ℕ) × Outcome)
      → Returns c
      → Runs (c + d.participants) r
      → Runs c (range_of c ∷ r.0, r.1)
  unfolding stride after_stride EndsAt
  longer c (calls, drained) h (n, a, (e, z)) = (suc n, (h, a), (ap (λ l. range_of c ∷ l) e, z))
  longer c (calls, saw_exception) h (n, a, (e, z, y)) =
      (suc n, (h, a), (ap (λ l. range_of c ∷ l) e, z, y))
  longer c (calls, saw_stop) h (n, a, (e, z, y, x)) =
      (suc n, (h, a), (ap (λ l. range_of c ∷ l) e, z, y, x))
  longer c (calls, threw x) h (n, a, (e, z, y)) =
      (suc n, (h, a), (ap (λ l. range_of c ∷ l) e, z, y))
  longer c (calls, out_of_fuel) h (n, a, e) = absurd e

  -- One round of the loop on a block, given what the rounds after it do.
  cut_by :
      (c : ℕ) (rest : List (ℕ × ℕ) × Outcome) (seen stopped : Bool) (thrown : Option ℕ)
      → c < d.block_count
      → env.exception_seen c ≡ seen
      → env.stop_seen c ≡ stopped
      → env.body (range_of c).0 (range_of c).1 ≡ thrown
      → Runs (c + d.participants) rest
      → Runs c (
          if seen then ([], saw_exception) else if stopped then ([], saw_stop) else elim thrown [
            | none ↦ (range_of c ∷ rest.0, rest.1)
            | some e ↦ (range_of c ∷ [], threw e)
          ])
  unfolding stride after_stride EndsAt
  cut_by c rest true stopped thrown l e o b h = (0, tt, (refl, l, e))
  cut_by c rest false true thrown l e o b h = (0, tt, (refl, l, e, o))
  cut_by c rest false false (some x) l e o b h = (0, tt, (refl, (l, e, o), b))
  cut_by c rest false false none l e o b h = longer c rest ((l, e, o), b) h

  module _ (ready : IsReady d) where
    cand : ℕ → ℕ → ℕ
    cand rank prev = if prev == no_block then rank else (prev + d.participants) % 2 ^ 64

    run_static-Runs :
        (fuel rank prev c : ℕ)
        → cand rank prev ≡ c
        → 0 < fuel
        → d.block_count < c + fuel
        → Runs c (run_static env d fuel rank prev)
    unfolding run_static static_next cand stride after_stride EndsAt
    run_static-Runs zero rank prev c e some_fuel enough = absurd (omega arith)
    run_static-Runs (suc fuel) rank prev c e some_fuel enough = elim (dec_lt c d.block_count) [
      | yes p ↦
          let next : cand rank c ≡ c + d.participants =
            rw (ne→== c no_block (omega (arith, ready.room))) (omega (arith, ready.room)) in
          rw (e, lt→ltb c d.block_count p, ne→== c no_block (omega (arith, ready.room)))
            (cut_by c (run_static env d fuel rank c) (env.exception_seen c) (env.stop_seen c) _ p
              refl refl refl
              (run_static-Runs fuel rank c (c + d.participants) next (omega (arith, p, enough))
                (omega (arith, ready.staffed, enough))))
      | no p ↦ rw (e, le→ltb c d.block_count (omega arith)) (0, tt, (refl, omega (arith, p)))
    ]

-- For a job that is ready (its blocks cut the range, it has a rank, and no block number wraps around),
-- whatever a rank meets (a body that throws, another rank's exception, a stop request), its static loop
-- calls the body on the ranges of its blocks, every participants-th from its own number on, in order, up to
-- the first one before which an exception or a stop is seen or whose body throws, which ends the loop
-- there: before the body for the first two, after it for a throw, with that exception. The loop ends for
-- want of blocks only past the last one, and always ends.
pub run_static_partition_lem :
    (env : Surroundings) (d : JobDescriptor) (rank : ℕ)
    → IsReady d
    → (n : ℕ) × All (Returns env d) (stride env d n rank)
      × EndsAt env d
          (stride env d n rank)
          (after_stride env d n rank)
          (run_static_partition env d rank)
unfolding run_static_partition cand
run_static_partition_lem env d rank ready =
    run_static-Runs env d ready (d.block_count + 1) rank no_block rank refl (omega arith)
      (omega arith)

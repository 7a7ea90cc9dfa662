-- ===== src/Blocks/Dynamic.antt =====
-- The dynamic schedule: ranks race for blocks on one counter, in any order of their claims.
use citor.Prelude.{
  put, ℕ, suc, ◌+◌, ◌^◌, ◌<◌, ◌≤◌, ◌≡◌, ◌≢◌, arith, Bool, true, false, refl, sym, ◌∙◌, ap, Option,
  none, some, ◌==◌, ltb, if◌then◌else◌, List, [], ◌∷◌, length, ◌++◌, ◌⊎◌, inl, inr, Bool-cases, All,
}
use citor.Blocks.Defs.{JobDescriptor, no_block, dynamic_next}

-- What a rank meets once it has claimed a block: its body returns, or the loop is cut off, by another rank's
-- exception or a stop of the token before the body, or by a throw of the body.
pub data Met : Type 0 where
  body_returned : Met
  met_exception : Met
  met_stop : Met
  body_threw : Met

-- The counter, and each rank's `blockId` and whether its loop has ended; whether any loop was cut off; the
-- blocks claimed so far, and those whose bodies were called, the last first.
pub record Claims : Type 0 where
  pub counter : ℕ
  pub prev : ℕ → ℕ
  pub ended : ℕ → Bool
  pub cut_off : Bool
  pub log : List ℕ
  pub called : List ℕ

pub count : ℕ → List ℕ → ℕ
count b [] = 0
count b (x ∷ xs) = (if b == x then 1 else 0) + count b xs

module _ (d : JobDescriptor) where
  -- The checks of the loop and the body, after the claim of block `b`.
  unfoldable pub meet : (rank block : ℕ) → Met → Claims → Claims
  meet r b body_returned s = record s { called = b ∷ s.called }
  meet r b met_exception s = record s { ended = put s.ended r true; cut_off = true }
  meet r b met_stop s = record s { ended = put s.ended r true; cut_off = true }
  meet r b body_threw s = record s {
    ended = put s.ended r true;
    cut_off = true;
    called = b ∷ s.called;
  }

  -- One call of `next` by rank `r`, with the claim of the block or the end of its loop.
  unfoldable pub claim : (rank : ℕ) → Claims → Claims × Option ℕ
  claim r s =
      if b == no_block
      then (record s { counter = d'.next_block; ended = put s.ended r true }, none)
      else (record s { counter = d'.next_block; prev = put s.prev r b; log = b ∷ s.log }, some b)
    where
      next : ℕ × JobDescriptor
      next = dynamic_next (record d { next_block = s.counter }) r (s.prev r)

      b : ℕ
      b = next.0

      d' : JobDescriptor
      d' = next.1

  -- What follows a claim: the body of its block, if it gave one.
  unfoldable pub carry_out : ℕ → Met → Claims × Option ℕ → Claims
  carry_out r m (s, none) = s
  carry_out r m (s, some b) = meet r b m s

  -- One round of the loop of a rank, if the loop has not ended.
  unfoldable pub take_turn : ℕ × Met → Claims → Claims
  take_turn (r, m) s = if s.ended r then s else carry_out r m (claim r s)

  -- The rounds in the order of a schedule of ranks.
  unfoldable pub run_schedule : List (ℕ × Met) → Claims → Claims
  run_schedule [] s = s
  run_schedule (e ∷ es) s = run_schedule es (take_turn e s)

  -- The dispatcher starts the counter at `participants`, where there are more blocks than that.
  abbrev pub begin_claims : ℕ → Claims
  begin_claims counter = record {
    counter = counter;
    prev = λ r. no_block;
    ended = λ r. false;
    cut_off = false;
    log = [];
    called = [];
  }

  -- How often block `b` has been claimed.
  abbrev tally : Claims → ℕ → ℕ
  tally s b =
      if ltb b d.participants
      then (if s.prev b == no_block then 0 else 1)
      else (if ltb b s.counter then 1 else 0)

  -- What holds of the claims alone; `k` is how many claims the counter may still count without wrapping.
  record Claiming (k : ℕ) (s : Claims) : Type 0 where
    bound : d.participants < d.block_count → s.counter + k < 2 ^ 64
    started : d.participants < d.block_count → d.participants ≤ s.counter
    counted : (b : ℕ) → b < d.block_count → count b s.log ≡ tally s b
    ends :
        s.cut_off ≡ false
        → (r : ℕ) → r < d.participants
        → s.ended r ≡ true
        → (r < d.block_count → s.prev r ≢ no_block)
          × (d.participants < d.block_count → d.block_count ≤ s.counter)

  -- What holds of the bodies called, where `uncalled` has been claimed and its body not yet called.
  record Calling (uncalled : List ℕ) (s : Claims) : Type 0 where
    no_more : (c : ℕ) → count c s.called + count c uncalled ≤ count c s.log
    all_called : s.cut_off ≡ false → uncalled ++ s.called ≡ s.log

  meet-Calling : (r b : ℕ) (m : Met) (s : Claims) → Calling (b ∷ []) s → Calling [] (meet r b m s)
  unfolding meet count
  meet-Calling r b body_returned s v = record {
    no_more = λ c. let h = v.no_more c in omega (arith, h);
    all_called = v.all_called;
  }
  meet-Calling r b met_exception s v = record {
    no_more = λ c. let h = v.no_more c in omega (arith, h);
    all_called = λ e. absurd (cc e);
  }
  meet-Calling r b met_stop s v = record {
    no_more = λ c. let h = v.no_more c in omega (arith, h);
    all_called = λ e. absurd (cc e);
  }
  meet-Calling r b body_threw s v = record {
    no_more = λ c. let h = v.no_more c in omega (arith, h);
    all_called = λ e. absurd (cc e);
  }

  meet-Claiming : (k r b : ℕ) (m : Met) (s : Claims) → Claiming k s → Claiming k (meet r b m s)
  unfolding meet
  meet-Claiming k r b body_returned s v = record {
    bound = v.bound;
    started = v.started;
    counted = v.counted;
    ends = v.ends;
  }
  meet-Claiming k r b met_exception s v = record {
    bound = v.bound;
    started = v.started;
    counted = v.counted;
    ends = λ e. absurd (cc e);
  }
  meet-Claiming k r b met_stop s v = record {
    bound = v.bound;
    started = v.started;
    counted = v.counted;
    ends = λ e. absurd (cc e);
  }
  meet-Claiming k r b body_threw s v = record {
    bound = v.bound;
    started = v.started;
    counted = v.counted;
    ends = λ e. absurd (cc e);
  }

  -- The block of a claim has no body called yet.
  Claimed : Claims × Option ℕ → Type 0
  Claimed (s, none) = Calling [] s
  Claimed (s, some b) = Calling (b ∷ []) s

  claim-cut_off : (r : ℕ) (s : Claims) → (claim r s).0.cut_off ≡ s.cut_off
  unfolding claim
  claim-cut_off r s = ground arith

  grows :
      (q : Bool) (s t u : Claims) (b : ℕ)
      → Calling [] t
      → Calling (b ∷ []) u
      → Claimed (if q then (t, none) else (u, some b))
  unfolding Claimed
  grows true s t u b h g = h
  grows false s t u b h g = g

  claim-Claimed : (r : ℕ) (s : Claims) → Calling [] s → Claimed (claim r s)
  unfolding claim count
  claim-Claimed r s v =
      grows (n.0 == no_block) s _ _ n.0 (record { no_more = v.no_more; all_called = v.all_called })
        (record {
          no_more = λ c. let h = v.no_more c in omega (arith, h);
          all_called = λ e. ap (λ l. n.0 ∷ l) (v.all_called e);
        })
    where
      n : ℕ × JobDescriptor
      n = dynamic_next (record d { next_block = s.counter }) r (s.prev r)

  module _ (small : d.block_count < no_block) where
    claim-Claiming :
        (k r : ℕ) (s : Claims) → r < d.participants → Claiming (suc k) s → Claiming k (claim r s).0
    unfolding claim dynamic_next count
    claim-Claiming k r s h inv = record {
      bound = ground (arith, inv.bound);
      started = ground (arith, inv.started, inv.bound);
      counted = λ b lt. ground (arith, inv.counted b lt, inv.started, inv.bound);
      ends = λ f q lt e. (
        λ l p. ground (arith, inv.ends (sym (claim-cut_off r s) ∙ f) q lt, inv.bound),
        λ l. ground (arith, inv.ends (sym (claim-cut_off r s) ∙ f) q lt, inv.bound),
      );
    }

    carry_out-Claiming :
        (k r : ℕ) (m : Met) (p : Claims × Option ℕ) → Claiming k p.0 → Claiming k (carry_out r m p)
    unfolding carry_out
    carry_out-Claiming k r m (s, none) v = v
    carry_out-Claiming k r m (s, some b) v = meet-Claiming k r b m s v

    take_turn-Claiming :
        (k : ℕ) (e : ℕ × Met) (s : Claims)
        → e.0 < d.participants
        → Claiming (suc k) s
        → Claiming k (take_turn e s)
    unfolding take_turn
    take_turn-Claiming k (r, m) s h v =
        either (s.ended r)
          (record {
            bound = λ l. let i = v.bound l in omega (arith, i);
            started = v.started;
            counted = v.counted;
            ends = v.ends;
          })
          (carry_out-Claiming k r m (claim r s) (claim-Claiming k r s h v))
      where
        either :
            {t u : Claims} (q : Bool)
            → Claiming k t
            → Claiming k u
            → Claiming k (if q then t else u)
        either true x y = x
        either false x y = y

    run_schedule-Claiming :
        (es : List (ℕ × Met)) (s : Claims)
        → All (λ e. e.0 < d.participants) es
        → Claiming (length es) s
        → Claiming 0 (run_schedule es s)
    unfolding run_schedule
    run_schedule-Claiming [] s h v = v
    run_schedule-Claiming (e ∷ es) s h v =
        run_schedule-Claiming es (take_turn e s) h.1 (take_turn-Claiming (length es) e s h.0 v)

  carry_out-Calling :
      (r : ℕ) (m : Met) (p : Claims × Option ℕ) → Claimed p → Calling [] (carry_out r m p)
  unfolding carry_out Claimed
  carry_out-Calling r m (s, none) v = v
  carry_out-Calling r m (s, some b) v = meet-Calling r b m s v

  take_turn-Calling : (e : ℕ × Met) (s : Claims) → Calling [] s → Calling [] (take_turn e s)
  unfolding take_turn
  take_turn-Calling (r, m) s v =
      either (s.ended r) v (carry_out-Calling r m (claim r s) (claim-Claimed r s v))
    where
      either :
          {t u : Claims} (q : Bool) → Calling [] t → Calling [] u → Calling [] (if q then t else u)
      either true x y = x
      either false x y = y

  run_schedule-Calling :
      (es : List (ℕ × Met)) (s : Claims) → Calling [] s → Calling [] (run_schedule es s)
  unfolding run_schedule
  run_schedule-Calling [] s v = v
  run_schedule-Calling (e ∷ es) s v =
      run_schedule-Calling es (take_turn e s) (take_turn-Calling e s v)

  begin-Claiming :
      (k counter : ℕ)
      → (d.participants < d.block_count → (counter ≡ d.participants) × (counter + k < 2 ^ 64))
      → Claiming k (begin_claims counter)
  unfolding count
  begin-Claiming k counter h = record {
    bound = λ l. (h l).1;
    started = λ l. omega (arith, (h l).0);
    counted = λ b l. ground (arith, h);
    ends = λ f r l e. cc;
  }

  begin-Calling : (counter : ℕ) → Calling [] (begin_claims counter)
  unfolding count
  begin-Calling counter = record { no_more = λ c. omega arith; all_called = λ e. refl }

  module _ (small : d.block_count < no_block) (es : List (ℕ × Met)) (counter : ℕ)
      (staffed : All (λ e. e.0 < d.participants) es)
      (start : d.participants < d.block_count
        → (counter ≡ d.participants) × (counter + length es < 2 ^ 64)) where
    final : Claims
    final = run_schedule es (begin_claims counter)

    claims : Claiming 0 final
    unfolding final
    claims =
        run_schedule-Claiming small es (begin_claims counter) staffed
          (begin-Claiming (length es) counter start)

    calls : Calling [] final
    unfolding final
    calls = run_schedule-Calling es (begin_claims counter) (begin-Calling counter)

    called-at_most_once : (b : ℕ) → b < d.block_count → count b final.called ≤ 1
    unfolding count
    called-at_most_once b l = let h = calls.no_more b in ground (arith, claims.counted b l, h)

    -- All loops have ended, and none was cut off.
    claimed-once :
        0 < d.participants
        → ((r : ℕ) → r < d.participants → final.ended r ≡ true)
        → final.cut_off ≡ false
        → (b : ℕ) → b < d.block_count
        → count b final.log ≡ 1
    claimed-once some_rank over whole b l = ground (
      arith,
      claims.counted b l,
      claims.ends whole b,
      over b,
      claims.ends whole 0 some_rank (over 0 some_rank),
    )

    called-once :
        0 < d.participants
        → ((r : ℕ) → r < d.participants → final.ended r ≡ true)
        → (b : ℕ) → b < d.block_count
        → (count b final.called ≡ 1) ⊎ (final.cut_off ≡ true)
    called-once some_rank over b l = elim (Bool-cases final.cut_off) [
      | inl cut ↦ inr cut
      | inr whole ↦
          inl (ap (count b) (calls.all_called whole) ∙ claimed-once some_rank over whole b l)
    ]

    -- In whatever order the ranks take their rounds, and whatever each meets after a claim (its body returns or
    -- throws, or it sees an exception or a stop before the body): once the loop of every rank has ended, each
    -- block's body has been called at most once, and exactly once unless some loop was cut off by an exception,
    -- a stop or a throw. There is a rank, there are fewer blocks than the mark `no_block`,
    -- and where there are more blocks than participants, the counter starts at the
    -- number of participants and does not wrap in the rounds taken.
    pub dynamic_exactly_once :
        0 < d.participants
        → ((r : ℕ) → r < d.participants → (run_schedule es (begin_claims counter)).ended r ≡ true)
        → (b : ℕ) → b < d.block_count
        → (count b (run_schedule es (begin_claims counter)).called ≤ 1)
          × ((count b (run_schedule es (begin_claims counter)).called ≡ 1)
              ⊎ ((run_schedule es (begin_claims counter)).cut_off ≡ true))
    unfolding final
    dynamic_exactly_once some_rank over b l =
        (called-at_most_once b l, called-once some_rank over b l)

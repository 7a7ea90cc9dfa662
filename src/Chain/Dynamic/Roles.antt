-- ===== src/Chain/Dynamic/Roles.antt =====
-- What holds at each place of the dynamic path of a chain.
use citor.Prelude.{
  ℕ, suc, ◌+◌, ◌≤◌, ◌<◌, ◌≡◌, ◌≢◌, refl, sym, subst, arith, true, false, ◌==◌, put, put_other,
  at_put, Bool-cases, ==_iff, inl, inr, ◌⊎◌,
}
use citor.Chain.Defs.{Call, peer}
use citor.Chain.Dynamic.Defs.{
  Place, arriving, scanning, at_gate, looping, claiming, running, stamping, bailing, bailed,
  finished, Chain, go,
}

module _ (c : Call) (n_blocks : ℕ) where
  -- The loop of the stage is over.
  abbrev pub Drained : Chain → ℕ → Type 0
  Drained s m = (n_blocks ≤ s.next_block m) ⊎ (s.chain_cancelled ≡ true)

  -- Slot `i` has stamped the stages before `k` and has left the loops of those before `r`.
  abbrev pub Here : Chain → (i k r : ℕ) → Type 0
  Here s i k r =
      (s.done i ≤ c.epoch_base + k)
      × ((m : ℕ) → m < r → Drained s m)
      × (0 < k → c.epoch_base + k ≤ s.done i)

  -- The slots that the wait before stage `k` has seen.
  abbrev pub Entered : Chain → (i k : ℕ) → Type 0
  Entered s i k = 0 < k → (j : ℕ) → j < c.participants → i ≢ j → c.epoch_base + k ≤ s.done j

  abbrev pub Fits : Chain → ℕ → Place → Type 0
  Fits s i (arriving k) = (k ≤ c.n_stages) × Here s i k k
  Fits s i (scanning k step) =
      (k < c.n_stages)
      × Here s i k k
      × (0 < k)
      × (0 < step)
      × ((t : ℕ) → 0 < t → t < step → c.epoch_base + k ≤ s.done (peer c i t))
  Fits s i (at_gate k) = (k < c.n_stages) × Here s i k k × Entered s i k
  Fits s i (looping k) = (k < c.n_stages) × Here s i k k × Entered s i k
  Fits s i (claiming k) = (k < c.n_stages) × Here s i k k × Entered s i k
  Fits s i (running k b) = (k < c.n_stages) × Here s i k k × Entered s i k
  Fits s i (stamping k) = (k < c.n_stages) × Here s i k (suc k) × Entered s i k
  Fits s i bailing = (s.chain_cancelled ≡ true) × (s.done i ≤ c.epoch_base + c.n_stages)
  Fits s i bailed = (s.chain_cancelled ≡ true) × (c.epoch_base + c.n_stages ≤ s.done i)
  Fits s i finished =
      ((m : ℕ) → m < c.n_stages → Drained s m)
      × (0 < c.n_stages → c.epoch_base + c.n_stages ≤ s.done i)

  pub record Roles (s : Chain) : Type 0 where
    pub fits : (i : ℕ) → Fits s i (s.place i)

  -- What a step of slot `i` never takes back.
  pub record Later (i : ℕ) (s s' : Chain) : Type 0 where
    pub cancelled_on : s.chain_cancelled ≡ true → s'.chain_cancelled ≡ true
    pub counters_on : (k : ℕ) → s.next_block k ≤ s'.next_block k
    pub done_on : (j : ℕ) → s.done j ≤ s'.done j
    pub done_same : (j : ℕ) → (i == j) ≡ false → s'.done j ≡ s.done j

  pub later-Drained : {i : ℕ} (s s' : Chain) (m : ℕ) → Later i s s' → Drained s m → Drained s' m
  later-Drained s s' m l (inl h) = inl (let a = l.counters_on m in omega (arith, a, h))
  later-Drained s s' m l (inr x) = inr (l.cancelled_on x)

  later-Here :
      {i : ℕ} (s s' : Chain) (j k r : ℕ)
      → Later i s s'
      → (i == j) ≡ false
      → Here s j k r
      → Here s' j k r
  later-Here s s' j k r l o (u, d, b) =
      (rw (l.done_same j o) u, λ m w. later-Drained s s' m l (d m w), rw (l.done_same j o) b)

  later-Entered : {i : ℕ} (s s' : Chain) (j k : ℕ) → Later i s s' → Entered s j k → Entered s' j k
  later-Entered s s' j k l h z m w n =
      let a = h z m w n in let b = l.done_on m in omega (arith, a, b)

  later-Fits :
      {i : ℕ} (s s' : Chain) (j : ℕ) (p : Place)
      → Later i s s'
      → (i == j) ≡ false
      → Fits s j p
      → Fits s' j p
  later-Fits s s' j (arriving k) l o (n, h) = (n, later-Here s s' j k k l o h)
  later-Fits s s' j (scanning k step) l o (n, h, g, f, seen) = (
    n,
    later-Here s s' j k k l o h,
    g,
    f,
    λ t z m. let a = seen t z m in let b = l.done_on (peer c j t) in omega (arith, a, b),
  )
  later-Fits s s' j (at_gate k) l o (n, h, e) =
      (n, later-Here s s' j k k l o h, later-Entered s s' j k l e)
  later-Fits s s' j (looping k) l o (n, h, e) =
      (n, later-Here s s' j k k l o h, later-Entered s s' j k l e)
  later-Fits s s' j (claiming k) l o (n, h, e) =
      (n, later-Here s s' j k k l o h, later-Entered s s' j k l e)
  later-Fits s s' j (running k b) l o (n, h, e) =
      (n, later-Here s s' j k k l o h, later-Entered s s' j k l e)
  later-Fits s s' j (stamping k) l o (n, h, e) =
      (n, later-Here s s' j k (suc k) l o h, later-Entered s s' j k l e)
  later-Fits s s' j bailing l o (x, u) = (l.cancelled_on x, rw (l.done_same j o) u)
  later-Fits s s' j bailed l o (x, u) = (l.cancelled_on x, rw (l.done_same j o) u)
  later-Fits s s' j finished l o (d, b) =
      (λ m w. later-Drained s s' m l (d m w), rw (l.done_same j o) b)

  -- After a step of slot `i`, it is enough to look at its new place.
  pub move :
      (s s' : Chain) (i : ℕ) (q : Place)
      → Roles s
      → Later i s s'
      → ((j : ℕ) → s'.place j ≡ put s.place i q j)
      → Fits s' i q
      → Roles s'
  move s s' i q roles l at new = record { fits = λ j. subst (Fits s' j) (sym (at j)) (moved j) }
    where
      moved : (j : ℕ) → Fits s' j (put s.place i q j)
      moved j = elim (Bool-cases (i == j)) [
        | inl e ↦ rw e (subst (λ k. Fits s' k q) ((==_iff i j).0 e) new)
        | inr e ↦ rw e (later-Fits s s' j (s.place j) l e (roles.fits j))
      ]

  pub at_own : (s : Chain) (i : ℕ) {p : Place} → Roles s → s.place i ≡ p → Fits s i p
  at_own s i r e = subst (Fits s i) e (r.fits i)

  -- A step that leaves the stamps and the counters alone.
  pub quiet :
      (s s' : Chain) (i : ℕ)
      → (s.chain_cancelled ≡ true → s'.chain_cancelled ≡ true)
      → s'.done ≡ s.done
      → s'.next_block ≡ s.next_block
      → Later i s s'
  quiet s s' i x d n = record {
    cancelled_on = x;
    counters_on = λ k. rw n (omega arith);
    done_on = λ j. rw d (omega arith);
    done_same = λ j o. rw d refl;
  }

  pub calm : (s : Chain) (i : ℕ) (q : Place) → Roles s → Fits (go s i q) i q → Roles (go s i q)
  calm s i q r new = move s _ i q r (quiet s _ i (λ h. h) refl refl) (λ j. refl) new

  pub stamped :
      (s : Chain) (i d : ℕ) (q : Place)
      → s.done i ≤ d
      → Later i s (record s { done = put s.done i d; place = put s.place i q })
  stamped s i d q up = record {
    cancelled_on = λ z. z;
    counters_on = λ k. omega arith;
    done_on = at_put (λ k w. s.done k ≤ w) s.done i d up (λ k. omega arith);
    done_same = λ j o. put_other s.done i j d o;
  }

  pub counted :
      (s : Chain) (i k : ℕ) (q : Place)
      → Later i s (record s {
        next_block = put s.next_block k (suc (s.next_block k));
        place = put s.place i q;
      })
  counted s i k q = record {
    cancelled_on = λ z. z;
    counters_on =
        at_put (λ k w. s.next_block k ≤ w) s.next_block k (suc (s.next_block k)) (omega arith)
          (λ k. omega arith);
    done_on = λ j. omega arith;
    done_same = λ j o. refl;
  }

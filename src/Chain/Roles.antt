-- ===== src/Chain/Roles.antt =====
-- What holds at each place of a chain.
use citor.Prelude.{
  ℕ, suc, ◌+◌, ◌-◌, ◌≤◌, ◌<◌, ◌≡◌, ◌≢◌, refl, sym, ap, subst, arith, Bool, true, false, not, ◌&&◌,
  ◌||◌, ◌==◌, ltb, lt→ltb, le→ltb, ltb→lt, ltb→le, if◌then◌else◌, put, Bool-cases, ==_iff, ==_ne,
  inl, inr,
}
use citor.Chain.Defs.{
  BarrierKind, no_barrier, deterministic_reduce, producer_serial, Call, Place, arriving, scanning,
  serial_waiting, at_gate, running, stamping, bailing, bailed, finished, Chain, prev_barrier,
  is_rendezvous, is_serial, stamp_needed, peer, go,
}

pub not_both : (b : BarrierKind) → is_rendezvous b ≡ true → is_serial b ≡ true → ⊥
not_both no_barrier r z = cc r
not_both BarrierKind.global r z = cc z
not_both deterministic_reduce r z = cc z
not_both producer_serial r z = cc r

lt_of_le : (j i : ℕ) → j ≤ i → i ≢ j → j < i
lt_of_le j i l d = ground arith

module _ (c : Call) where
  -- Whether a slot runs the body of a stage.
  abbrev pub runs : (slot stage : ℕ) → Bool
  runs slot stage = not (is_serial (prev_barrier c stage)) || (slot == 0)

  -- Slot `i` has stamped the stages before `k`, and run the bodies of those before `r`.
  pub record Here (done : ℕ) (ran : ℕ → ℕ) (i k r : ℕ) : Type 0 where
    pub up : done ≤ c.epoch_base + k
    pub low : (m : ℕ) → m < k → stamp_needed c i m ≡ true → c.epoch_base + (m + 1) ≤ done
    pub did : (m : ℕ) → ran m ≡ (if ltb m r && runs i m then 1 else 0)

  -- What the wait before stage `k` has seen.
  pub record Entered (done : ℕ → ℕ) (i k : ℕ) : Type 0 where
    pub all_there :
        is_rendezvous (prev_barrier c k) ≡ true
        → (j : ℕ) → j < c.participants
        → i ≢ j
        → c.epoch_base + k ≤ done j
    pub producer_done :
        is_serial (prev_barrier c k) ≡ true → i ≢ 0 → c.epoch_base + (k + 1) ≤ done 0

  abbrev pub Fits : Chain → ℕ → Place → Type 0
  Fits s i (arriving k) = (k ≤ c.n_stages) × Here (s.done i) (s.ran i) i k k
  Fits s i (scanning k step) =
      (k < c.n_stages)
      × Here (s.done i) (s.ran i) i k k
      × (is_rendezvous (prev_barrier c k) ≡ true)
      × ((t : ℕ) → 0 < t → t < step → c.epoch_base + k ≤ s.done (peer c i t))
      × (0 < step)
  Fits s i (serial_waiting k) =
      (k < c.n_stages)
      × Here (s.done i) (s.ran i) i k k
      × (is_serial (prev_barrier c k) ≡ true)
      × (i ≢ 0)
  Fits s i (at_gate k runs_body) =
      (k < c.n_stages)
      × Here (s.done i) (s.ran i) i k k
      × Entered s.done i k
      × (runs i k ≡ runs_body)
  Fits s i (running k) =
      (k < c.n_stages) × Here (s.done i) (s.ran i) i k k × Entered s.done i k × (runs i k ≡ true)
  Fits s i (stamping k) =
      (k < c.n_stages) × Here (s.done i) (s.ran i) i k (suc k) × Entered s.done i k
  Fits s i bailing = (s.chain_cancelled ≡ true) × (s.done i ≤ c.epoch_base + c.n_stages)
  Fits s i bailed = (s.chain_cancelled ≡ true) × (c.epoch_base + c.n_stages ≤ s.done i)
  Fits s i finished = Here (s.done i) (s.ran i) i c.n_stages c.n_stages

  pub record Roles (s : Chain) : Type 0 where
    pub fits : (i : ℕ) → Fits s i (s.place i)

  -- What a step of slot `i` leaves as it was.
  pub record Later (i : ℕ) (s s' : Chain) : Type 0 where
    pub cancelled_on : s.chain_cancelled ≡ true → s'.chain_cancelled ≡ true
    pub done_on : (j : ℕ) → s.done j ≤ s'.done j
    pub done_same : (j : ℕ) → (i == j) ≡ false → s'.done j ≡ s.done j
    pub ran_same : (j : ℕ) → (i == j) ≡ false → s'.ran j ≡ s.ran j

  later-Here :
      {i : ℕ} (s s' : Chain) (j k r : ℕ)
      → Later i s s'
      → (i == j) ≡ false
      → Here (s.done j) (s.ran j) j k r
      → Here (s'.done j) (s'.ran j) j k r
  later-Here s s' j k r l o h = rw (l.done_same j o) (rw (l.ran_same j o) h)

  later-Entered :
      (done done' : ℕ → ℕ) (j k : ℕ)
      → ((m : ℕ) → done m ≤ done' m)
      → Entered done j k
      → Entered done' j k
  later-Entered done done' j k l h = record {
    all_there = λ r m n d. let a = h.all_there r m n d in let b = l m in omega (arith, a, b);
    producer_done = λ r d. let a = h.producer_done r d in let b = l 0 in omega (arith, a, b);
  }

  later-Fits :
      {i : ℕ} (s s' : Chain) (j : ℕ) (p : Place)
      → Later i s s'
      → (i == j) ≡ false
      → Fits s j p
      → Fits s' j p
  later-Fits s s' j (arriving k) l o (n, h) = (n, later-Here s s' j k k l o h)
  later-Fits s s' j (scanning k step) l o (n, h, r, seen, f) = (
    n,
    later-Here s s' j k k l o h,
    r,
    λ t z m. let a = seen t z m in let b = l.done_on (peer c j t) in omega (arith, a, b),
    f,
  )
  later-Fits s s' j (serial_waiting k) l o (n, h, r, d) = (n, later-Here s s' j k k l o h, r, d)
  later-Fits s s' j (at_gate k runs_body) l o (n, h, e, r) =
      (n, later-Here s s' j k k l o h, later-Entered s.done s'.done j k l.done_on e, r)
  later-Fits s s' j (running k) l o (n, h, e, r) =
      (n, later-Here s s' j k k l o h, later-Entered s.done s'.done j k l.done_on e, r)
  later-Fits s s' j (stamping k) l o (n, h, e) =
      (n, later-Here s s' j k (suc k) l o h, later-Entered s.done s'.done j k l.done_on e)
  later-Fits s s' j bailing l o (x, h) = (l.cancelled_on x, rw (l.done_same j o) h)
  later-Fits s s' j bailed l o (x, h) = (l.cancelled_on x, rw (l.done_same j o) h)
  later-Fits s s' j finished l o h = later-Here s s' j c.n_stages c.n_stages l o h

  -- After a step of slot `i`, it is enough to look at its new place.
  pub move :
      (s s' : Chain) (i : ℕ) (q : Place)
      → Roles s
      → Later i s s'
      → ((j : ℕ) → s'.place j ≡ put s.place i q j)
      → Fits s' i q
      → Roles s'
  move s s' i q roles l at new = record { fits = λ j. subst (Fits s' j) (sym (at j)) (moved j) }
    where
      moved : (j : ℕ) → Fits s' j (put s.place i q j)
      moved j = elim (Bool-cases (i == j)) [
        | inl e ↦ rw e (subst (λ k. Fits s' k q) ((==_iff i j).0 e) new)
        | inr e ↦ rw e (later-Fits s s' j (s.place j) l e (roles.fits j))
      ]

  pub at_own : (s : Chain) (i : ℕ) {p : Place} → Roles s → s.place i ≡ p → Fits s i p
  at_own s i r e = subst (Fits s i) e (r.fits i)

  -- A step that leaves the stamps and the bodies alone.
  pub quiet :
      (s s' : Chain) (i : ℕ)
      → (s.chain_cancelled ≡ true → s'.chain_cancelled ≡ true)
      → s'.done ≡ s.done
      → s'.ran ≡ s.ran
      → Later i s s'
  quiet s s' i x d r = record {
    cancelled_on = x;
    done_on = λ j. rw d (omega arith);
    done_same = λ j o. rw d refl;
    ran_same = λ j o. rw r refl;
  }

  pub calm-Roles :
      (s : Chain) (i : ℕ) (q : Place) → Roles s → Fits (go s i q) i q → Roles (go s i q)
  calm-Roles s i q r new = move s _ i q r (quiet s _ i (λ h. h) refl refl) (λ j. refl) new

  pub at_zero :
      (P : Place → Type 0) (i : ℕ) {p q : Place}
      → (i ≡ 0 → P p)
      → (i ≢ 0 → P q)
      → P (if i == 0 then p else q)
  at_zero P i h k = elim (Bool-cases (i == 0)) [
    | inl e ↦ rw e (h ((==_iff i 0).0 e))
    | inr e ↦ rw e (k (==_ne i 0 e))
  ]

  peer_up : (i j : ℕ) → i < j → j < c.participants → peer c i (j - i) ≡ j
  peer_up i j m l =
      rw (lt→ltb (i + (j - i)) c.participants (omega (arith, m, l))) (omega (arith, m))

  peer_down : (i j : ℕ) → j < i → i < c.participants → peer c i (j + c.participants - i) ≡ j
  peer_down i j m own =
      rw (le→ltb (i + (j + c.participants - i)) c.participants (omega (arith, m, own)))
        (omega (arith, m, own))

  -- Every slot but one's own is met in the scan.
  pub met :
      (d : ℕ → ℕ) (i v step : ℕ)
      → i < c.participants
      → c.participants ≤ step
      → ((t : ℕ) → 0 < t → t < step → v ≤ d (peer c i t))
      → (j : ℕ) → j < c.participants
      → i ≢ j
      → v ≤ d j
  met d i v step own over seen j l apart = elim (Bool-cases (ltb i j)) [
    | inl e ↦
        let m = ltb→lt i j e in
        subst (λ k. v ≤ d k) (peer_up i j m l)
          (seen (j - i) (omega (arith, m)) (omega (arith, l, over)))
    | inr e ↦
        let m = lt_of_le j i (ltb→le i j e) apart in
        subst (λ k. v ≤ d k) (peer_down i j m own)
          (seen (j + c.participants - i) (omega (arith, own)) (omega (arith, m, over)))
  ]

  -- A stage before which there is no wait.
  pub no_wait :
      (k i : ℕ) (d : ℕ → ℕ) → prev_barrier c k ≡ no_barrier → Entered d i k × (runs i k ≡ true)
  no_wait k i d e = (
    record {
      all_there = λ r. absurd (cc (ap is_rendezvous e, r));
      producer_done = λ r. absurd (cc (ap is_serial e, r));
    },
    rw e refl,
  )

  pub rendezvous_runs : (k i : ℕ) → is_rendezvous (prev_barrier c k) ≡ true → runs i k ≡ true
  rendezvous_runs k i e = elim (Bool-cases (is_serial (prev_barrier c k))) [
    | inl z ↦ absurd (not_both (prev_barrier c k) e z)
    | inr z ↦ rw z refl
  ]

  pub serial_runs :
      (k i : ℕ) {b : Bool} → is_serial (prev_barrier c k) ≡ true → (i == 0) ≡ b → runs i k ≡ b
  serial_runs k i e z = rw e z

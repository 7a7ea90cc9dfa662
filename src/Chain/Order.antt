-- ===== src/Chain/Order.antt =====
-- What has happened before a body of a stage runs.
use citor.Prelude.{
  ℕ, suc, ◌+◌, ◌≤◌, ◌<◌, ◌≡◌, ◌≢◌, refl, sym, ap, subst, ◌∙◌, arith, Bool, true, false, ◌==◌, ltb,
  lt→ltb, ltb→lt, put, at_put, if◌then◌else◌, Bool-cases, ==_iff, ==_ne, inl, inr, ◌⊎◌,
}
use citor.Prelude.Sums.{lt_of}
use citor.Chain.Defs.{
  Call, Place, arriving, scanning, serial_waiting, at_gate, running, stamping, bailing, bailed,
  finished, Chain, prev_barrier, is_rendezvous, is_serial, stamp_needed, Step, pass, begin_scan,
  scan_next, scan_over, begin_serial, serial_over, go_on, bail, body_done, body_threw, stamp,
  stamp_bailed, leave, Reach, start, next,
}
use citor.Chain.Roles.{Here, Entered, Fits, Roles, at_own}
use citor.Chain.Steps.{Reach-Roles}

-- Past stage `m`: its body, if the slot runs one, has returned.
unfoldable pub past : ℕ → Place → Bool
past m (arriving k) = ltb m k
past m (scanning k step) = ltb m k
past m (serial_waiting k) = ltb m k
past m (at_gate k runs_body) = ltb m k
past m (running k) = ltb m k
past m (stamping k) = ltb m k
past m bailing = false
past m bailed = false
past m finished = true

module _ (c : Call) (s : Chain) where
  beyond :
      (j k r m : ℕ)
      → Here c (s.done j) (s.ran j) j k r
      → c.epoch_base + (m + 1) ≤ s.done j
      → ltb m k ≡ true
  beyond j k r m h d = let u = h.up in lt→ltb m k (omega (arith, u, d))

  -- A slot with the stamp of a stage is past it, or the chain is cancelled.
  stamped_past :
      (j m : ℕ) (p : Place)
      → Fits c s j p
      → c.epoch_base + (m + 1) ≤ s.done j
      → (past m p ≡ true) ⊎ (s.chain_cancelled ≡ true)
  unfolding past
  stamped_past j m (arriving k) f d = inl (beyond j k k m f.1 d)
  stamped_past j m (scanning k step) f d = inl (beyond j k k m f.1 d)
  stamped_past j m (serial_waiting k) f d = inl (beyond j k k m f.1 d)
  stamped_past j m (at_gate k runs_body) f d = inl (beyond j k k m f.1 d)
  stamped_past j m (running k) f d = inl (beyond j k k m f.1 d)
  stamped_past j m (stamping k) f d = inl (beyond j k (suc k) m f.1 d)
  stamped_past j m bailing f d = inr f.0
  stamped_past j m bailed f d = inr f.0
  stamped_past j m finished f d = inl refl

-- In every state that any interleaving of the slots reaches, while a slot runs the body of the stage
-- after one with barrier Global or DeterministicReduce, every slot is past that stage, unless the
-- chain is cancelled.
pub chain_barrier :
    (c : Call) {n : ℕ} {s : Chain} (i j k : ℕ)
    → Reach c n s
    → s.place i ≡ running (suc k)
    → is_rendezvous (c.barrier k) ≡ true
    → j < c.participants
    → (past k (s.place j) ≡ true) ⊎ (s.chain_cancelled ≡ true)
unfolding past
chain_barrier c {s = s} i j k r e b l =
    let roles = Reach-Roles c r in
    elim (Bool-cases (i == j)) [
      | inl q ↦ inl (
          subst (λ p. past k p ≡ true)
            (sym (subst (λ m. s.place m ≡ running (suc k)) ((==_iff i j).0 q) e))
            (lt→ltb k (suc k) (omega arith)))
      | inr q ↦
          let there = (at_own c s i roles e).2.all_there b j l (==_ne i j q) in
          stamped_past c s j k (s.place j) (roles.fits j) (omega (arith, there))
    ]

module _ (c : Call) where
  -- A slot other than 0 that is past a serial stage has seen the stamp of slot 0.
  pub record Served (s : Chain) : Type 0 where
    pub served :
        (i m : ℕ)
        → i ≢ 0
        → m < c.n_stages
        → is_serial (prev_barrier c m) ≡ true
        → past m (s.place i) ≡ true
        → c.epoch_base + (m + 1) ≤ s.done 0

  move-Served :
      (s s' : Chain) (i : ℕ) (q : Place)
      → Served s
      → s.done 0 ≤ s'.done 0
      → ((j : ℕ) → s'.place j ≡ put s.place i q j)
      → ((m : ℕ)
          → m < c.n_stages
          → past m q ≡ true
          → (past m (s.place i) ≡ true)
            ⊎ (is_serial (prev_barrier c m) ≡ true → i ≢ 0 → c.epoch_base + (m + 1) ≤ s.done 0))
      → Served s'
  move-Served s s' i q h up at new = record {
    served = λ j m z l e g.
        let d = moved j m z l e (subst (λ p. past m p ≡ true) (at j) g) in omega (arith, d, up);
  }
    where
      moved :
          (j m : ℕ)
          → j ≢ 0
          → m < c.n_stages
          → is_serial (prev_barrier c m) ≡ true
          → past m (put s.place i q j) ≡ true
          → c.epoch_base + (m + 1) ≤ s.done 0
      moved j m z l e g = elim (Bool-cases (i == j)) [
        | inl o ↦
            let same = (==_iff i j).0 o in
            elim (new m l (rw o at g)) [
              | inl g ↦ h.served i m (λ w. z (sym same ∙ w)) l e g
              | inr d ↦ d e (λ w. z (sym same ∙ w))
            ]
        | inr o ↦ h.served j m z l e (rw o at g)
      ]

  -- A step that stamps nothing, to a place of the same stage.
  same_stage :
      (s s' : Chain) (i : ℕ) {p : Place} (q : Place)
      → Served s
      → s'.done ≡ s.done
      → ((j : ℕ) → s'.place j ≡ put s.place i q j)
      → s.place i ≡ p
      → ((m : ℕ) → past m q ≡ true → past m p ≡ true)
      → Served s'
  same_stage s s' i q h d at e g =
      move-Served s s' i q h (rw d (omega arith)) at (λ m l w. inl (ap (past m) e ∙ g m w))

  stamp_up :
      (s : Chain) (i d : ℕ) (written : Bool)
      → s.done i ≤ d
      → s.done 0 ≤ (if written then put s.done i d else s.done) 0
  stamp_up s i d true u = at_put (λ k w. s.done k ≤ w) s.done i d u (λ k. omega arith) 0
  stamp_up s i d false u = omega arith

  stage_over :
      (s : Chain) (i m k : ℕ)
      → s.place i ≡ stamping k
      → Entered c s.done i k
      → m < suc k
      → (past m (s.place i) ≡ true)
        ⊎ (is_serial (prev_barrier c m) ≡ true → i ≢ 0 → c.epoch_base + (m + 1) ≤ s.done 0)
  unfolding past
  stage_over s i m k p w l = elim (Bool-cases (m == k)) [
    | inl e ↦ inr (
        subst (λ m. is_serial (prev_barrier c m) ≡ true → i ≢ 0 → c.epoch_base + (m + 1) ≤ s.done 0)
          (sym ((==_iff m k).0 e)) w.producer_done)
    | inr e ↦ inl (ap (past m) p ∙ lt→ltb m k (lt_of m k l (==_ne m k e)))
  ]

  Step-Served : {s : Chain} (i : ℕ) {s' : Chain} → Step c s i s' → Roles c s → Served s → Served s'
  unfolding past
  Step-Served {s} i {s'} (pass p l b) r h = same_stage s s' i _ h refl (λ j. refl) p (λ m w. w)
  Step-Served {s} i {s'} (begin_scan p l b) r h =
      same_stage s s' i _ h refl (λ j. refl) p (λ m w. w)
  Step-Served {s} i {s'} (scan_next p l b) r h = same_stage s s' i _ h refl (λ j. refl) p (λ m w. w)
  Step-Served {s} i {s'} (scan_over p l) r h = same_stage s s' i _ h refl (λ j. refl) p (λ m w. w)
  Step-Served {s} i {s'} (begin_serial {k = k} p l b) r h = elim (Bool-cases (i == 0)) [
    | inl e ↦ same_stage s _ i (at_gate k true) h refl (λ j. rw e refl) p (λ m w. w)
    | inr e ↦ same_stage s _ i (serial_waiting k) h refl (λ j. rw e refl) p (λ m w. w)
  ]
  Step-Served {s} i {s'} (serial_over p d) r h = same_stage s s' i _ h refl (λ j. refl) p (λ m w. w)
  Step-Served {s} i {s'} (go_on {k = k} {runs_body = true} p x) r h =
      same_stage s s' i (running k) h refl (λ j. refl) p (λ m w. w)
  Step-Served {s} i {s'} (go_on {k = k} {runs_body = false} p x) r h =
      same_stage s s' i (stamping k) h refl (λ j. refl) p (λ m w. w)
  Step-Served {s} i {s'} (bail stopped p x) r h =
      same_stage s s' i bailing h refl (λ j. refl) p (λ m w. absurd (cc w))
  Step-Served {s} i {s'} (body_done {k = k} p) r h =
      same_stage s s' i (stamping k) h refl (λ j. refl) p (λ m w. w)
  Step-Served {s} i {s'} (body_threw e p) r h =
      same_stage s s' i bailing h refl (λ j. refl) p (λ m w. absurd (cc w))
  Step-Served {s} i {s'} (stamp {k = k} p) r h =
      let (n, u, w) = at_own c s i r p in
      let up = u.up in
      move-Served s s' i (arriving (suc k)) h
        (stamp_up s i (c.epoch_base + (k + 1)) (stamp_needed c i k) (omega (arith, up))) (λ j. refl)
        (λ m l g. stage_over s i m k p w (ltb→lt m (suc k) g))
  Step-Served {s} i {s'} (stamp_bailed p) r h =
      move-Served s s' i bailed h
        (stamp_up s i (c.epoch_base + c.n_stages) true ((at_own c s i r p).1)) (λ j. refl)
        (λ m l w. absurd (cc w))
  Step-Served {s} i {s'} (leave {k = k} p l) r h =
      move-Served s s' i finished h (omega arith) (λ j. refl)
        (λ m n w. inl (ap (past m) p ∙ lt→ltb m k (omega (arith, l, n))))

  Reach-Served : {n : ℕ} {s : Chain} → Reach c n s → Served s
  unfolding past
  Reach-Served (start f) = record {
    served = λ i m z l e g.
        absurd
          (let h = ltb→lt m 0 (subst (λ p. past m p ≡ true) (f.all_first i) g) in omega (arith, h));
  }
  Reach-Served (next i r l st) = Step-Served i st (Reach-Roles c r) (Reach-Served r)

-- In every state that any interleaving of the slots reaches, while a slot other than 0 is past the
-- stage after one with barrier ProducerSerial, which it skips, slot 0 is past that stage too, so that
-- its serial body has returned, unless the chain is cancelled.
pub chain_serial :
    (c : Call) {n : ℕ} {s : Chain} (i k : ℕ)
    → Reach c n s
    → is_serial (c.barrier k) ≡ true
    → i ≢ 0
    → suc k < c.n_stages
    → past (suc k) (s.place i) ≡ true
    → (past (suc k) (s.place 0) ≡ true) ⊎ (s.chain_cancelled ≡ true)
chain_serial c {s = s} i k r b z l g =
    let there = (Reach-Served c r).served i (suc k) z l b g in
    stamped_past c s 0 (suc k) (s.place 0) ((Reach-Roles c r).fits 0) there

-- ===== src/Scan/TwoPass/Seeds.antt =====
-- What Pass 2 is given, and what the call returns.
use citor.Prelude.{
  ℕ, suc, ◌+◌, ◌≤◌, ◌<◌, ◌≡◌, ◌≢◌, refl, sym, ap, ◌∙◌, arith, Bool, true, false, ◌==◌,
  if◌then◌else◌, Option, none, some, put, put_self, at_put, ==_iff, ne→==, inl, inr, ◌⊎◌,
}
use citor.Failure.{capture, failed, failed-capture}
use citor.Scan.TwoPass.Defs.{
  returned, raised, Call, Place, pass_one, failing, releasing, abandoned, joining, publishing,
  waiting, choosing, second, stamping, finished, Scan, go, record_failure, Step, one_done,
  one_threw, stamp_failed, release, abandon_next, abandon_over, join_next, skip_reduce, reduce_done,
  reduce_threw, publish, see_published, go_two, skip_two, two_done, two_threw, stamp, Reach, start,
  next, scan_result, reduce_from,
}
use citor.Scan.TwoPass.Reduce.{exclusive, reduce_from_lem}
use citor.Scan.TwoPass.Roles.{Fits, Roles, Reach-Roles, at_own, at_zero}
use citor.Scan.TwoPass.Values.{before, passed, Seeded, Valued, zeroth}
use citor.Scan.TwoPass.Moves.{one-Valued, reduce-Valued, keep-Valued}

clash : {b : Bool} → b ≡ false → b ≡ true → ⊥
clash h k = cc (h, k)

total_of {ℓ} :
    {A : Type ℓ} (o : Option ℕ) (inclusive acc total : A)
    → (failed o ≡ true) ⊎ (inclusive ≡ acc)
    → elim o [ none ↦ returned inclusive | some e ↦ raised e ] ≡ returned total
    → (failed o ≡ false) × (returned acc ≡ returned total)
unfolding failed
total_of none inclusive acc total (inl f) h = absurd (cc f)
total_of none inclusive acc total (inr e) h = (refl, ap returned (sym e) ∙ h)
total_of (some x) inclusive acc total f h = absurd (cc h)

module _ {ℓ} {A : Type ℓ} (c : Call A) where
  -- A step that stamps and publishes nothing, to a place after the reduce.
  move-Valued :
      (s : Scan A) (v : Valued c s) (i : ℕ) (l : i < c.participants) (q : Place) (x : Bool)
      (o : Option ℕ)
      → passed q ≡ true
      → before q ≡ false
      → q ≢ second
      → q ≢ finished
      → (before (s.place i) ≡ false) ⊎ (failed o ≡ true)
      → (failed s.first_exception ≡ true → failed o ≡ true)
      → (failed o ≡ true → x ≡ true)
      → Valued c (record s { cancelled = x; first_exception = o; place = put s.place i q })
  move-Valued s v i l q x o pass late busy more from mono alarm =
      keep-Valued c s v i l q s.done s.published x o s.seeds s.inclusive_total pass
        (λ h. absurd (clash late h)) (λ _ _. from) mono alarm inl (λ k d. inr (inr d))
        (λ h. absurd (busy h)) v.seeded (λ h. absurd (more h)) (λ _. refl)

  raised-Valued :
      (s : Scan A) (v : Valued c s) (i : ℕ) (l : i < c.participants) (q : Place) (e : ℕ)
      → passed q ≡ true
      → before q ≡ false
      → q ≢ second
      → q ≢ finished
      → Valued c (go (record_failure s e) i q)
  raised-Valued s v i l q e pass late busy more =
      move-Valued s v i l q true (capture s.first_exception e) pass late busy more
        (inr (failed-capture s.first_exception e)) (λ _. failed-capture s.first_exception e)
        (λ _. refl)

  past :
      (s : Scan A) (k : ℕ) (p : Place)
      → Fits c s k p
      → c.epoch_base + 1 ≤ s.done k
      → passed p ≡ true
  unfolding passed
  past s k pass_one f d = absurd (omega (arith, f, d))
  past s k failing f d = refl
  past s k releasing f d = refl
  past s k (abandoned m) f d = refl
  past s k (joining m) f d = refl
  past s k publishing f d = refl
  past s k waiting f d = refl
  past s k choosing f d = refl
  past s k second f d = refl
  past s k stamping f d = refl
  past s k finished f d = refl

  -- What the reduce leaves, when no slot has thrown before.
  reduced :
      (s : Scan A) (v : Valued c s) (r : Roles c s) (i k : ℕ) (ps : ℕ → A) (total : A)
      → s.place i ≡ joining k
      → c.participants ≤ k
      → failed s.first_exception ≡ false
      → reduce_from c c.participants 0 c.identity s.partials ≡ (ps, returned total)
      → Seeded c (record s { partials = ps; acc = total; place = put s.place i publishing })
  unfolding before passed exclusive
  reduced s v r i k ps total p m f h = record {
    over = ap before (ap (put s.place i publishing) (sym z) ∙ put_self s.place i publishing);
    all =
        at_put (λ k p. k < c.participants → passed p ≡ true) s.place i publishing (λ _. refl)
          (λ k l. past s k (s.place k) (r.fits k) (done k l));
    prefixes = run.0;
    whole = run.1;
  }
    where
      z : i ≡ 0
      z = (at_own c s i r p).0

      done : (k : ℕ) → k < c.participants → c.epoch_base + 1 ≤ s.done k
      done k l = (at_own c s i r p).1 k (omega arith)

      gave : (k : ℕ) → k < c.participants → c.body k c.identity ≡ returned (s.partials k)
      gave k l = elim (v.wrote (ap before (zeroth s i p z)) k (done k l)) [
        | inl x ↦ cc (x, f)
        | inr b ↦ b
      ]

      run :
          ((k : ℕ) → k < c.participants → exclusive c k ≡ returned (ps k))
          × (exclusive c c.participants ≡ returned total)
      run =
          reduce_from_lem c c.participants 0 c.participants c.identity s.partials ps total
            (omega arith) (λ k _ l. gave k l) (λ k l. absurd (omega (arith, l))) refl h

  -- A slot that finds no cancellation has a prefix for its Pass 2.
  ready : (s : Scan A) (v : Valued c s) → s.published ≡ true → s.cancelled ≡ false → Seeded c s
  ready s v b x = elim (v.good (v.over b)) [ inl f ↦ cc (v.alarm f, x) | inr g ↦ g ]

  given : {a y : A} → some a ≡ some y → returned a ≡ returned y
  given e = ap (λ o. elim o [ none ↦ raised 0 | some a ↦ returned a ]) e

  Step-Valued :
      {s : Scan A} (i : ℕ) {s' : Scan A}
      → Step c s i s'
      → i < c.participants
      → Roles c s
      → Valued c s
      → Valued c s'
  unfolding before passed
  Step-Valued {s} i (one_done {t = t} p b) l r v =
      one-Valued c s v i l t _ p b
        (at_zero c (λ q. i ≡ 0 → before q ≡ true) i (λ _ _. refl) (λ n z. absurd (n z)))
        (at_zero c (λ q. q ≢ second) i (λ _ e. cc) (λ _ e. cc))
        (at_zero c (λ q. q ≢ finished) i (λ _ e. cc) (λ _ e. cc))
  Step-Valued {s} i (one_threw {e = e} p b) l r v =
      raised-Valued s v i l failing e refl refl (λ e. cc) (λ e. cc)
  Step-Valued {s} i (stamp_failed p) l r v =
      keep-Valued c s v i l _ _ s.published s.cancelled s.first_exception s.seeds s.inclusive_total
        (at_zero c (λ q. passed q ≡ true) i (λ _. refl) (λ _. refl))
        (λ h. absurd (clash (at_zero c (λ q. before q ≡ false) i (λ _. refl) (λ _. refl)) h))
        (λ _ _. inl (ap before p)) (λ h. h) v.alarm inl (λ k d. inl (at_own c s i r p))
        (λ h. absurd (at_zero c (λ q. q ≢ second) i (λ _ e. cc) (λ _ e. cc) h)) v.seeded
        (λ _ _. inl (at_own c s i r p)) (λ _. refl)
  Step-Valued {s} i (release p) l r v =
      keep-Valued c s v i l (abandoned 1) s.done true s.cancelled s.first_exception s.seeds
        s.inclusive_total refl (λ h. absurd (cc h)) (λ _ _. inl (ap before p)) (λ h. h) v.alarm
        (λ _. inr ((at_own c s i r p).0, refl)) (λ k d. inr (inr d)) (λ h. absurd (cc h)) v.seeded
        (λ h. absurd (cc h)) (λ _. refl)
  Step-Valued {s} i (abandon_next {k = k} p m d) l r v =
      move-Valued s v i l (abandoned (suc k)) s.cancelled s.first_exception refl refl (λ e. cc)
        (λ e. cc) (inl (ap before p)) (λ h. h) v.alarm
  Step-Valued {s} i (abandon_over p m) l r v =
      keep-Valued c s v i l finished s.done s.published s.cancelled s.first_exception s.seeds
        s.inclusive_total refl (λ h. absurd (cc h)) (λ _ _. inl (ap before p)) (λ h. h) v.alarm inl
        (λ k d. inr (inr d)) (λ h. absurd (cc h)) v.seeded (λ _ _. inl (at_own c s i r p).1)
        (λ _. refl)
  Step-Valued {s} i (join_next {k = k} p m d) l r v =
      keep-Valued c s v i l (joining (suc k)) s.done s.published s.cancelled s.first_exception
        s.seeds s.inclusive_total refl (λ _. ((at_own c s i r p).0, ap before p))
        (λ _ h. absurd (cc h)) (λ h. h) v.alarm inl (λ k d. inr (inr d)) (λ h. absurd (cc h))
        v.seeded (λ h. absurd (cc h)) (λ _. refl)
  Step-Valued {s} i (skip_reduce p m f) l r v =
      reduce-Valued c s v i l s.partials c.identity s.cancelled s.first_exception
        (at_own c s i r p).0 (ap before p) v.alarm (inl f)
  Step-Valued {s} i (reduce_done {ps = ps} {total = t} p m f h) l r v =
      reduce-Valued c s v i l ps t s.cancelled s.first_exception (at_own c s i r p).0 (ap before p)
        v.alarm (inr (reduced s v r i _ ps t p m f h))
  Step-Valued {s} i (reduce_threw {ps = ps} {e = e} rest p m f h) l r v =
      reduce-Valued c s v i l ps rest true (capture s.first_exception e) (at_own c s i r p).0
        (ap before p) (λ _. refl) (inl (failed-capture s.first_exception e))
  Step-Valued {s} i (publish p) l r v =
      keep-Valued c s v i l choosing s.done true s.cancelled s.first_exception s.seeds
        s.inclusive_total refl (λ h. absurd (cc h)) (λ _ _. inl (ap before p)) (λ h. h) v.alarm
        (λ _. inr (at_own c s i r p, refl)) (λ k d. inr (inr d)) (λ h. absurd (cc h)) v.seeded
        (λ h. absurd (cc h)) (λ _. refl)
  Step-Valued {s} i (see_published p h) l r v =
      move-Valued s v i l choosing s.cancelled s.first_exception refl refl (λ e. cc) (λ e. cc)
        (inl (ap before p)) (λ h. h) v.alarm
  Step-Valued {s} i (go_two p x) l r v =
      let g = ready s v (at_own c s i r p) x in
      keep-Valued c s v i l second s.done s.published s.cancelled s.first_exception
        (put s.seeds i (some (s.partials i))) s.inclusive_total refl (λ h. absurd (cc h))
        (λ _ _. inl (ap before p)) (λ h. h) v.alarm inl (λ k d. inr (inr d)) (λ _. g)
        (λ k y h.
          at_put (λ k o. o ≡ some y → exclusive c k ≡ returned y) s.seeds i (some (s.partials i))
            (λ e. g.prefixes i l ∙ given e) (λ k. v.seeded k y) k h)
        (λ h. absurd (cc h)) (λ _. refl)
  Step-Valued {s} i (skip_two stopped p x) l r v =
      move-Valued s v i l stamping _ s.first_exception refl refl (λ e. cc) (λ e. cc)
        (inl (ap before p)) (λ h. h) (λ _. x)
  Step-Valued {s} i (two_done p) l r v =
      move-Valued s v i l stamping s.cancelled s.first_exception refl refl (λ e. cc) (λ e. cc)
        (inl (ap before p)) (λ h. h) v.alarm
  Step-Valued {s} i (two_threw e p) l r v =
      raised-Valued s v i l stamping e refl refl (λ e. cc) (λ e. cc)
  Step-Valued {s} i (stamp p) l r v =
      keep-Valued c s v i l finished (put s.done i (c.epoch_base + 2)) s.published s.cancelled
        s.first_exception s.seeds (if i == 0 then s.acc else s.inclusive_total) refl
        (λ h. absurd (cc h)) (λ _ _. inl (ap before p)) (λ h. h) v.alarm inl
        (λ k d. inr (inl (at_own c s i r p))) (λ h. absurd (cc h)) v.seeded
        (λ _ z. inr (rw ((==_iff i 0).1 z) refl)) (λ n. rw (ne→== i 0 n) refl)

  Reach-Valued : {n : ℕ} {s : Scan A} → Reach c n s → Valued c s
  unfolding before
  Reach-Valued (start {s = s} f) = record {
    wrote = λ h k d. absurd (omega (arith, f.stamps k, d));
    alarm = λ h. cc (f.clean, h);
    good = λ h. absurd (clash h (ap before (f.all_one 0)));
    over = λ h. absurd (clash f.unpublished h);
    running = λ i h. absurd (cc (f.all_one i, h));
    seeded = λ i x h. absurd (cc (f.unseeded i, h));
    result = λ h. absurd (cc (f.all_one 0, h));
  }
  Reach-Valued (next i r l st) = Step-Valued i st l (Reach-Roles c r) (Reach-Valued r)

-- In every state that any interleaving of the slots reaches, the initial value that a slot's Pass 2
-- has been run with is the exclusive prefix of the slot: `prefix` over the identity and what the body
-- gave in Pass 1 for the slots before it, none of which has thrown.
pub scan_seeds {ℓ} :
    {A : Type ℓ} (c : Call A) {n : ℕ} {s : Scan A} (i : ℕ) (x : A)
    → Reach c n s
    → s.seeds i ≡ some x
    → exclusive c i ≡ returned x
scan_seeds c i x r h = (Reach-Valued c r).seeded i x h

-- When slot 0 is done and a call on the two-pass path returns a total, it is `prefix` over the identity and
-- what the body gave in Pass 1 for all slots, also when the token is stopped before or during the call.
pub scan_total {ℓ} :
    {A : Type ℓ} (c : Call A) {n : ℕ} {s : Scan A} (total : A)
    → Reach c n s
    → s.place 0 ≡ finished
    → scan_result s ≡ returned total
    → exclusive c c.participants ≡ returned total
unfolding before
scan_total c {s = s} total r p h =
    let v = Reach-Valued c r in
    let (quiet, same) = total_of s.first_exception s.inclusive_total s.acc total (v.result p) h in
    elim (v.good (ap before p)) [ inl f ↦ absurd (clash quiet f) | inr g ↦ g.whole ∙ same ]

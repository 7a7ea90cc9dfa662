-- ===== src/Scan/TwoPass/Roles.antt =====
-- What holds at each place of the wrapper, whatever values the slots compute.
use citor.Prelude.{
  ℕ, suc, ◌+◌, ◌≤◌, ◌<◌, ◌≡◌, ◌≢◌, refl, sym, subst, arith, Bool, true, false, ◌==◌, if◌then◌else◌,
  Option, put, put_self, put_other, at_put, Bool-cases, ==_iff, ==_ne, inl, inr,
}
use citor.Prelude.Sums.{lt_of}
use citor.Failure.{failed, failed-capture}
use citor.Scan.TwoPass.Defs.{
  Call, Place, pass_one, failing, releasing, abandoned, joining, publishing, waiting, choosing,
  second, stamping, finished, Scan, record_failure, Step, one_done, one_threw, stamp_failed,
  release, abandon_next, abandon_over, join_next, skip_reduce, reduce_done, reduce_threw, publish,
  see_published, go_two, skip_two, two_done, two_threw, stamp, Reach, start, next,
}

module _ {ℓ} {A : Type ℓ} (c : Call A) where
  abbrev pub Fits : Scan A → ℕ → Place → Type 0
  Fits s i pass_one = s.done i ≤ c.epoch_base
  Fits s i failing = failed s.first_exception ≡ true
  Fits s i releasing = (i ≡ 0) × (failed s.first_exception ≡ true) × (c.epoch_base + 2 ≤ s.done i)
  Fits s i (abandoned k) =
      (i ≡ 0)
      × (failed s.first_exception ≡ true)
      × (c.epoch_base + 2 ≤ s.done i)
      × (s.published ≡ true)
      × (0 < k)
  Fits s i (joining k) = (i ≡ 0) × ((j : ℕ) → j < k → c.epoch_base + 1 ≤ s.done j) × (0 < k)
  Fits s i publishing = i ≡ 0
  Fits s i waiting = (i ≢ 0) × (c.epoch_base + 1 ≤ s.done i)
  Fits s i choosing = s.published ≡ true
  Fits s i second = s.published ≡ true
  Fits s i stamping = s.published ≡ true
  Fits s i finished = (c.epoch_base + 2 ≤ s.done i) × (i ≡ 0 → s.published ≡ true)

  pub record Roles (s : Scan A) : Type 0 where
    pub fits : (i : ℕ) → Fits s i (s.place i)

  -- What a step of slot `i` leaves as it was.
  pub record Later (i : ℕ) (s s' : Scan A) : Type 0 where
    pub failed_on : failed s.first_exception ≡ true → failed s'.first_exception ≡ true
    pub published_on : s.published ≡ true → s'.published ≡ true
    pub done_on : (j v : ℕ) → v ≤ c.epoch_base + 2 → v ≤ s.done j → v ≤ s'.done j
    pub done_same : (j : ℕ) → (i == j) ≡ false → s'.done j ≡ s.done j

  Fits_later :
      {i : ℕ} {s s' : Scan A} (j : ℕ) (p : Place)
      → Later i s s'
      → (i == j) ≡ false
      → Fits s j p
      → Fits s' j p
  Fits_later j pass_one l o h = rw (l.done_same j o) h
  Fits_later j failing l o h = l.failed_on h
  Fits_later j releasing l o (z, h, d) = (z, l.failed_on h, l.done_on j _ (omega arith) d)
  Fits_later j (abandoned k) l o (z, h, d, b, n) =
      (z, l.failed_on h, l.done_on j _ (omega arith) d, l.published_on b, n)
  Fits_later j (joining k) l o (z, h, n) = (z, λ m e. l.done_on m _ (omega arith) (h m e), n)
  Fits_later j publishing l o h = h
  Fits_later j waiting l o (z, h) = (z, l.done_on j _ (omega arith) h)
  Fits_later j choosing l o h = l.published_on h
  Fits_later j second l o h = l.published_on h
  Fits_later j stamping l o h = l.published_on h
  Fits_later j finished l o (h, b) = (l.done_on j _ (omega arith) h, λ z. l.published_on (b z))

  -- After a step of slot `i`, it is enough to look at its new place.
  move :
      (s s' : Scan A) (i : ℕ) (q : Place)
      → Roles s
      → Later i s s'
      → ((j : ℕ) → s'.place j ≡ put s.place i q j)
      → Fits s' i q
      → Roles s'
  move s s' i q roles l at new = record { fits = λ j. subst (Fits s' j) (sym (at j)) (moved j) }
    where
      moved : (j : ℕ) → Fits s' j (put s.place i q j)
      moved j = elim (Bool-cases (i == j)) [
        | inl e ↦ rw e (subst (λ k. Fits s' k q) ((==_iff i j).0 e) new)
        | inr e ↦ rw e (Fits_later j (s.place j) l e (roles.fits j))
      ]

  -- The steps that leave the stamps alone.
  quiet :
      (s : Scan A) {ps : ℕ → A} {b x : Bool} {o : Option ℕ} {z : ℕ → Option A} {a : A} (i : ℕ)
      (q : Place)
      → (failed s.first_exception ≡ true → failed o ≡ true)
      → (s.published ≡ true → b ≡ true)
      → Later i s (record s {
        partials = ps;
        published = b;
        cancelled = x;
        first_exception = o;
        seeds = z;
        acc = a;
        place = put s.place i q;
      })
  quiet s i q f p = record {
    failed_on = f;
    published_on = p;
    done_on = λ j v low h. h;
    done_same = λ j o. refl;
  }

  -- The steps that write the stamp of slot `i`.
  stamped :
      (s : Scan A) {ps : ℕ → A} {n : A} (i d : ℕ) (q : Place)
      → ((v : ℕ) → v ≤ c.epoch_base + 2 → v ≤ s.done i → v ≤ d)
      → Later i s (record s {
        partials = ps;
        done = put s.done i d;
        inclusive_total = n;
        place = put s.place i q;
      })
  stamped s i d q up = record {
    failed_on = λ h. h;
    published_on = λ h. h;
    done_on = λ j v low. at_put (λ k w. v ≤ s.done k → v ≤ w) s.done i d (up v low) (λ k h. h) j;
    done_same = λ j o. put_other s.done i j d o;
  }

  stamp_le : (f : ℕ → ℕ) (i d : ℕ) → d ≤ put f i d i
  stamp_le f i d = rw (put_self f i d) (omega arith)

  pub at_zero :
      (P : Place → Type 0) (i : ℕ) {p q : Place}
      → (i ≡ 0 → P p)
      → (i ≢ 0 → P q)
      → P (if i == 0 then p else q)
  at_zero P i h k = elim (Bool-cases (i == 0)) [
    | inl e ↦ rw e (h ((==_iff i 0).0 e))
    | inr e ↦ rw e (k (==_ne i 0 e))
  ]

  pub at_own : (s : Scan A) (i : ℕ) {p : Place} → Roles s → s.place i ≡ p → Fits s i p
  at_own s i roles e = subst (Fits s i) e (roles.fits i)

  raised-Roles :
      (s : Scan A) {ps : ℕ → A} {a : A} (i e : ℕ) (q : Place)
      → Roles s
      → Fits (record (record_failure s e) { partials = ps; acc = a; place = put s.place i q }) i q
      → Roles (record (record_failure s e) { partials = ps; acc = a; place = put s.place i q })
  raised-Roles s i e q r new =
      move s _ i q r (quiet s i q (λ h. failed-capture s.first_exception e) (λ h. h)) (λ j. refl)
        new

  -- The steps that only move a slot, as far as the roles go.
  calm-Roles :
      (s : Scan A) {ps : ℕ → A} {x : Bool} {z : ℕ → Option A} {a : A} (i : ℕ) (q : Place)
      → Roles s
      → Fits
          (record s { partials = ps; cancelled = x; seeds = z; acc = a; place = put s.place i q })
          i
          q
      → Roles
          (record s { partials = ps; cancelled = x; seeds = z; acc = a; place = put s.place i q })
  calm-Roles s i q r new = move s _ i q r (quiet s i q (λ h. h) (λ h. h)) (λ j. refl) new

  stamped-Roles :
      (s : Scan A) {ps : ℕ → A} {n : A} (i d : ℕ) (q : Place)
      → Roles s
      → ((v : ℕ) → v ≤ c.epoch_base + 2 → v ≤ s.done i → v ≤ d)
      → Fits
          (record s {
            partials = ps;
            done = put s.done i d;
            inclusive_total = n;
            place = put s.place i q;
          })
          i
          q
      → Roles (record s {
        partials = ps;
        done = put s.done i d;
        inclusive_total = n;
        place = put s.place i q;
      })
  stamped-Roles s i d q r up new = move s _ i q r (stamped s i d q up) (λ j. refl) new

  joined : (f : ℕ → ℕ) (i d j : ℕ) → i ≡ 0 → j < 1 → d ≤ put f i d j
  joined f i d j z l = subst (λ k. d ≤ put f i d k) (omega arith) (stamp_le f i d)

  Step-Roles : {s : Scan A} (i : ℕ) {s' : Scan A} → Step c s i s' → Roles s → Roles s'
  Step-Roles {s} i {s'} (one_done {t = t} p b) r =
      stamped-Roles s i (c.epoch_base + 1) _ r (λ v low h. omega (arith, h, at_own s i r p))
        (at_zero (Fits s' i) i (λ z. (z, λ j. joined s.done i _ j z, omega arith))
          (λ z. (z, stamp_le s.done i _)))
  Step-Roles {s} i (one_threw {e = e} p b) r =
      raised-Roles s i e failing r (failed-capture s.first_exception e)
  Step-Roles {s} i {s'} (stamp_failed p) r =
      stamped-Roles s i (c.epoch_base + 2) _ r (λ v low h. low)
        (at_zero (Fits s' i) i (λ z. (z, at_own s i r p, stamp_le s.done i _))
          (λ z. (stamp_le s.done i _, λ e. absurd (z e))))
  Step-Roles {s} i (release p) r =
      let (z, h, d) = at_own s i r p in
      move s _ i (abandoned 1) r (quiet s i _ (λ h. h) (λ h. refl)) (λ j. refl)
        (z, h, d, refl, omega arith)
  Step-Roles {s} i (abandon_next p l d) r =
      let (z, h, d, b, n) = at_own s i r p in
      calm-Roles s i (abandoned _) r (z, h, d, b, omega arith)
  Step-Roles {s} i (abandon_over p l) r =
      let (z, h, d, b, n) = at_own s i r p in calm-Roles s i finished r (d, λ _. b)
  Step-Roles {s} i (join_next {k = k} p l d) r =
      let (z, h, n) = at_own s i r p in
      calm-Roles s i (joining (suc k)) r (z, λ j m. one_more s k h d j m, omega arith)
    where
      one_more :
          (s : Scan A) (k : ℕ)
          → ((j : ℕ) → j < k → c.epoch_base + 1 ≤ s.done j)
          → c.epoch_base + 1 ≤ s.done k
          → (j : ℕ) → j < suc k
          → c.epoch_base + 1 ≤ s.done j
      one_more s k h d j m = elim (Bool-cases (j == k)) [
        | inl e ↦ subst (λ m. c.epoch_base + 1 ≤ s.done m) (sym ((==_iff j k).0 e)) d
        | inr e ↦ h j (lt_of j k m (==_ne j k e))
      ]
  Step-Roles {s} i (skip_reduce p l f) r = calm-Roles s i publishing r (at_own s i r p).0
  Step-Roles {s} i (reduce_done p l f h) r = calm-Roles s i publishing r (at_own s i r p).0
  Step-Roles {s} i (reduce_threw {e = e} rest p l f h) r =
      raised-Roles s i e publishing r (at_own s i r p).0
  Step-Roles {s} i (publish p) r =
      move s _ i choosing r (quiet s i _ (λ h. h) (λ h. refl)) (λ j. refl) refl
  Step-Roles {s} i (see_published p h) r = calm-Roles s i choosing r h
  Step-Roles {s} i (go_two p x) r = calm-Roles s i second r (at_own s i r p)
  Step-Roles {s} i (skip_two stopped p x) r = calm-Roles s i stamping r (at_own s i r p)
  Step-Roles {s} i (two_done p) r = calm-Roles s i stamping r (at_own s i r p)
  Step-Roles {s} i (two_threw e p) r = raised-Roles s i e stamping r (at_own s i r p)
  Step-Roles {s} i (stamp p) r =
      stamped-Roles s i (c.epoch_base + 2) finished r (λ v low h. low)
        (stamp_le s.done i _, λ z. at_own s i r p)

  pub Reach-Roles : {n : ℕ} {s : Scan A} → Reach c n s → Roles s
  Reach-Roles (start {s = s} f) = record {
    fits = λ i. subst (Fits s i) (sym (f.all_one i)) (f.stamps i);
  }
  Reach-Roles (next i r l st) = Step-Roles i st (Reach-Roles r)

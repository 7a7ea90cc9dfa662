-- ===== src/Gate/Exclusion.antt =====
-- At most one thread holds the gate.
use citor.Prelude.{
  ℕ, ◌+◌, ◌≤◌, ◌≡◌, ◌≢◌, refl, sym, ap, subst, ◌∙◌, arith, Bool, true, false, ◌==◌, put, at_put,
  Bool-cases, ==_ne, ◌⊎◌, inl, inr, ==_iff,
}
use citor.Gate.Defs.{
  Place, outside, trying, spinning, looping, loaded, parking, parked, holding, waking, Gate, go,
  write, has_waiter, Step, call_lock, try_won, try_lost, spin_won, spin_lost, spin_over, load, take,
  mark, retry, skip_mark, sleep, no_sleep, wake_up, unlock, unlock_waiter, wake_one, wake_none,
  Reach, start, next,
}

unfoldable pub holds : Place → Bool
holds holding = true
holds outside = false
holds trying = false
holds (spinning n) = false
holds looping = false
holds (loaded cur) = false
holds (parking cur) = false
holds parked = false
holds waking = false

-- The values of the word that a thread may keep.
abbrev pub Keeps : Place → Type 0
Keeps (loaded cur) = (cur ≤ 1) ⊎ (cur ≡ 3)
Keeps (parking cur) = cur ≡ 3
Keeps outside = Unit
Keeps trying = Unit
Keeps (spinning n) = Unit
Keeps looping = Unit
Keeps parked = Unit
Keeps holding = Unit
Keeps waking = Unit

pub record Exclusive (s : Gate) : Type 0 where
  pub values : (s.word ≤ 1) ⊎ (s.word ≡ 3)
  pub taken : (i : ℕ) → holds (s.place i) ≡ true → s.word ≢ 0
  pub single : (i j : ℕ) → holds (s.place i) ≡ true → holds (s.place j) ≡ true → i ≡ j
  pub keeps : (i : ℕ) → Keeps (s.place i)

-- A holder other than the thread that has moved.
held_before :
    (f : ℕ → Place) (i j : ℕ) (q : Place)
    → holds q ≡ false
    → holds (put f i q j) ≡ true
    → (holds (f j) ≡ true) × ((i == j) ≡ false)
held_before f i j q out h = elim (Bool-cases (i == j)) [
  | inl e ↦ cc (rw e at h)
  | inr e ↦ (rw e at h, e)
]

module _ (s : Gate) (inv : Exclusive s) (i : ℕ) where
  -- A step that leaves the word alone and does not end with the gate.
  go-Exclusive : (q : Place) → holds q ≡ false → Keeps q → Exclusive (go s i q)
  go-Exclusive q out k = record {
    values = inv.values;
    taken = λ j h. inv.taken j (held_before s.place i j q out h).0;
    single = λ j k h h'.
        inv.single j k (held_before s.place i j q out h).0 (held_before s.place i k q out h').0;
    keeps = at_put (λ k. Keeps) s.place i q k inv.keeps;
  }

  -- A step that takes the free gate.
  win-Exclusive : (w : ℕ) → s.word ≡ 0 → (w ≡ 1) ⊎ (w ≡ 3) → Exclusive (write s w i holding)
  win-Exclusive w free k = record {
    values = elim k [ inl e ↦ inl (omega arith) | inr e ↦ inr e ];
    taken = λ j h e. elim k [ inl a ↦ omega arith | inr a ↦ omega arith ];
    single = λ j k h h'. sym (only j h) ∙ only k h';
    keeps = at_put (λ k. Keeps) s.place i holding tt inv.keeps;
  }
    where
      only : (j : ℕ) → holds (put s.place i holding j) ≡ true → i ≡ j
      only j h = elim (Bool-cases (i == j)) [
        | inl e ↦ (==_iff i j).0 e
        | inr e ↦ absurd (inv.taken j (rw e at h) free)
      ]

  -- The holder gives the gate back.
  leave-Exclusive :
      (q : Place) → holds (s.place i) ≡ true → holds q ≡ false → Keeps q → Exclusive (write s 0 i q)
  leave-Exclusive q mine out k = record {
    values = inl (omega arith);
    taken = λ j h. absurd (nobody j h);
    single = λ j k h h'. absurd (nobody j h);
    keeps = at_put (λ k. Keeps) s.place i q k inv.keeps;
  }
    where
      nobody : (j : ℕ) → holds (put s.place i q j) ≢ true
      nobody j h =
          let (before, other) = held_before s.place i j q out h in
          ==_ne i j other (inv.single i j mine before)

  -- The waiter bit is set beside the held one.
  mark-Exclusive :
      (cur : ℕ)
      → s.place i ≡ loaded cur
      → cur ≢ 0
      → has_waiter cur ≡ false
      → s.word ≡ cur
      → Exclusive (write s (cur + 2) i (parking (cur + 2)))
  unfolding holds
  mark-Exclusive cur p some bare same = record {
    values = inr three;
    taken = λ j h e. omega arith;
    single = λ j k h h'.
        inv.single j k (held_before s.place i j _ refl h).0 (held_before s.place i k _ refl h').0;
    keeps = at_put (λ k. Keeps) s.place i _ three inv.keeps;
  }
    where
      three : cur + 2 ≡ 3
      three = elim inv.values [ inl low ↦ ground arith | inr high ↦ ground arith ]

full_word : (w : ℕ) → has_waiter w ≡ true → (w ≤ 1) ⊎ (w ≡ 3) → w ≡ 3
full_word w h (inl low) = ground arith
full_word w h (inr e) = e

Step-Exclusive : {s : Gate} (i : ℕ) {s' : Gate} → Step s i s' → Exclusive s → Exclusive s'
unfolding holds
Step-Exclusive i (call_lock p) v = go-Exclusive _ v i trying refl tt
Step-Exclusive i (try_won p free) v = win-Exclusive _ v i 1 free (inl refl)
Step-Exclusive i (try_lost p busy) v = go-Exclusive _ v i _ refl tt
Step-Exclusive i (spin_won p free) v = win-Exclusive _ v i 1 free (inl refl)
Step-Exclusive i (spin_lost p) v = go-Exclusive _ v i _ refl tt
Step-Exclusive i (spin_over p) v = go-Exclusive _ v i _ refl tt
Step-Exclusive i (load p) v = go-Exclusive _ v i _ refl v.values
Step-Exclusive i (take p free) v = win-Exclusive _ v i 3 free (inr refl)
Step-Exclusive i (mark p some bare same) v = mark-Exclusive _ v i _ p some bare same
Step-Exclusive i (retry p bare) v = go-Exclusive _ v i _ refl tt
Step-Exclusive {s} i (skip_mark {cur = cur} p full) v =
    go-Exclusive s v i _ refl (full_word cur full (subst Keeps p (v.keeps i)))
Step-Exclusive i (sleep p same) v = go-Exclusive _ v i _ refl tt
Step-Exclusive i (no_sleep p other) v = go-Exclusive _ v i _ refl tt
Step-Exclusive i (wake_up p) v = go-Exclusive _ v i _ refl tt
Step-Exclusive i (unlock p bare) v = leave-Exclusive _ v i _ (ap holds p) refl tt
Step-Exclusive i (unlock_waiter p full) v = leave-Exclusive _ v i _ (ap holds p) refl tt
Step-Exclusive i (wake_one {j = j} p q) v =
    go-Exclusive _ (go-Exclusive _ v j _ refl tt) i _ refl tt
Step-Exclusive i (wake_none p h) v = go-Exclusive _ v i _ refl tt

pub Reach-Exclusive : {s : Gate} → Reach s → Exclusive s
unfolding holds
Reach-Exclusive start = record {
  values = inl (omega arith);
  taken = λ i h. cc;
  single = λ i j h k. cc;
  keeps = λ i. tt;
}
Reach-Exclusive (next i r st) = Step-Exclusive i st (Reach-Exclusive r)

-- In every state that any interleaving of any threads reaches from a free gate, at most one thread
-- holds the gate.
pub mutual_exclusion :
    {s : Gate} (i j : ℕ) → Reach s → s.place i ≡ holding → s.place j ≡ holding → i ≡ j
unfolding holds
mutual_exclusion i j r h k = (Reach-Exclusive r).single i j (ap holds h) (ap holds k)

-- ===== src/Gate/Wake.antt =====
-- No sleeper is forgotten: while a thread sleeps, the waiter bit is set or another thread is on its
-- way to see to it.
use citor.Prelude.{
  ℕ, ◌+◌, ◌≤◌, ◌≡◌, ◌≢◌, refl, sym, ap, subst, ◌∙◌, arith, Bool, true, false, ◌==◌, ◌⊎◌, put,
  put_self, put_other, Bool-cases, inl, inr, ==_iff, ne→==,
}
use citor.Gate.Defs.{
  Place, outside, trying, spinning, looping, loaded, parking, parked, holding, waking, Gate, go,
  write, has_waiter, Step, call_lock, try_won, try_lost, spin_won, spin_lost, spin_over, load, take,
  mark, retry, skip_mark, sleep, no_sleep, wake_up, unlock, unlock_waiter, wake_one, wake_none,
  Reach, start, next,
}
use citor.Gate.Exclusion.{holds, Keeps, Exclusive, Reach-Exclusive}

unfoldable pub sleeps : Place → Bool
sleeps parked = true
sleeps outside = false
sleeps trying = false
sleeps (spinning n) = false
sleeps looping = false
sleeps (loaded cur) = false
sleeps (parking cur) = false
sleeps holding = false
sleeps waking = false

-- In the loop after the spin, or about to wake a sleeper.
unfoldable pub contends : Place → Bool
contends looping = true
contends (loaded cur) = true
contends (parking cur) = true
contends waking = true
contends outside = false
contends trying = false
contends (spinning n) = false
contends parked = false
contends holding = false

abbrev pub Watched : Gate → Type 0
Watched s = (s.word ≡ 3) ⊎ ((j : ℕ) × (contends (s.place j) ≡ true))

pub record Awake (s : Gate) : Type 0 where
  pub owner : s.word ≢ 0 → (i : ℕ) × (holds (s.place i) ≡ true)
  pub watched : (i : ℕ) → sleeps (s.place i) ≡ true → Watched s

-- A thread other than `i` is where it was.
elsewhere :
    (P : Place → Bool) (f : ℕ → Place) (i j : ℕ) (q : Place)
    → P (f i) ≡ false
    → P (f j) ≡ true
    → P (put f i q j) ≡ true
elsewhere P f i j q h k = elim (Bool-cases (i == j)) [
  | inl e ↦ cc (ap (λ n. P (f n)) ((==_iff i j).0 e), h, k)
  | inr e ↦ rw e k
]

here : (P : Place → Bool) (f : ℕ → Place) (i : ℕ) (q : Place) → P q ≡ true → P (put f i q i) ≡ true
here P f i q h = ap P (put_self f i q) ∙ h

-- Only the thread that has moved may be a new sleeper.
slept_before :
    (f : ℕ → Place) (i j : ℕ) (q : Place)
    → sleeps q ≡ false
    → sleeps (put f i q j) ≡ true
    → sleeps (f j) ≡ true
slept_before f i j q h k = elim (Bool-cases (i == j)) [ inl e ↦ cc (rw e at k) | inr e ↦ rw e at k ]

module _ (s : Gate) (awake : Awake s) (i : ℕ) where
  owner_elsewhere :
      (q : Place)
      → holds (s.place i) ≡ false
      → s.word ≢ 0
      → (j : ℕ) × (holds (put s.place i q j) ≡ true)
  owner_elsewhere q free busy =
      let (j, h) = awake.owner busy in (j, elsewhere holds s.place i j q free h)

  -- A step that leaves the word alone, and leaves a thread in the loop unless the waiter bit is set.
  go-Awake :
      (q : Place)
      → holds (s.place i) ≡ false
      → (contends (s.place i) ≡ false) ⊎ ((contends q ≡ true) ⊎ (s.word ≡ 3))
      → (sleeps q ≡ true → s.word ≡ 3)
      → Awake (go s i q)
  go-Awake q free stays down = record {
    owner = owner_elsewhere q free;
    watched = λ k h. elim (Bool-cases (i == k)) [
      | inl e ↦ inl (down (rw e at h))
      | inr e ↦ still (awake.watched k (rw e at h))
    ];
  }
    where
      still : Watched s → Watched (go s i q)
      still (inl full) = inl full
      still (inr (j, c)) = elim stays [
        | inl out ↦ inr (j, elsewhere contends s.place i j q out c)
        | inr (inl on) ↦ inr (i, here contends s.place i q on)
        | inr (inr full) ↦ inl full
      ]

  win-Awake :
      (w : ℕ) → s.word ≡ 0 → (w ≡ 3) ⊎ (contends (s.place i) ≡ false) → Awake (write s w i holding)
  unfolding holds sleeps
  win-Awake w free how = record {
    owner = λ busy. (i, here holds s.place i holding refl);
    watched = λ k h. still (awake.watched k (slept_before s.place i k holding refl h)) how;
  }
    where
      still : Watched s → (w ≡ 3) ⊎ (contends (s.place i) ≡ false) → Watched (write s w i holding)
      still watch (inl full) = inl full
      still (inl full) (inr out) = absurd (omega (arith, full, free))
      still (inr (j, c)) (inr out) = inr (j, elsewhere contends s.place i j holding out c)

  leave-Awake :
      (q : Place)
      → contends (s.place i) ≡ false
      → sleeps q ≡ false
      → (s.word ≢ 3) ⊎ (contends q ≡ true)
      → Awake (write s 0 i q)
  leave-Awake q out up how = record {
    owner = λ busy. absurd (busy refl);
    watched = λ k h. still (awake.watched k (slept_before s.place i k q up h)) how;
  }
    where
      still : Watched s → (s.word ≢ 3) ⊎ (contends q ≡ true) → Watched (write s 0 i q)
      still watch (inr on) = inr (i, here contends s.place i q on)
      still (inl full) (inl bare) = absurd (bare full)
      still (inr (j, c)) (inl bare) = inr (j, elsewhere contends s.place i j q out c)

  mark-Awake :
      (w : ℕ) (q : Place) → w ≡ 3 → s.word ≢ 0 → holds (s.place i) ≡ false → Awake (write s w i q)
  mark-Awake w q full busy free = record {
    owner = λ _. owner_elsewhere q free busy;
    watched = λ k h. inl full;
  }

  wake_one-Awake :
      (j : ℕ) → s.place i ≡ waking → s.place j ≡ parked → Awake (go (go s j looping) i outside)
  unfolding holds sleeps contends
  wake_one-Awake j p q = record {
    owner = λ busy.
        let (k, h) = awake.owner busy in
        (
          k,
          elsewhere holds (put s.place j looping) i k outside
              (ap holds (put_other s.place j i looping apart') ∙ ap holds p)
              (elsewhere holds s.place j k looping (ap holds q) h),
        );
    watched = λ k h. inr (
      j,
      ap contends (put_other (put s.place j looping) i j outside apart)
          ∙ ap contends (put_self s.place j looping),
    );
  }
    where
      different : i ≢ j
      different e = distinct (sym p ∙ ap s.place e ∙ q)
        where
          distinct : waking ≢ parked
          distinct e = cc

      apart : (i == j) ≡ false
      apart = ne→== i j different

      apart' : (j == i) ≡ false
      apart' = ne→== j i (λ e. different (sym e))

asleep : (p : Place) → sleeps p ≡ true → p ≡ parked
unfolding sleeps
asleep parked h = refl
asleep outside h = cc
asleep trying h = cc
asleep (spinning n) h = cc
asleep looping h = cc
asleep (loaded cur) h = cc
asleep (parking cur) h = cc
asleep holding h = cc
asleep waking h = cc

wake_none-Awake :
    (s : Gate) (i : ℕ)
    → s.place i ≡ waking
    → ((j : ℕ) → s.place j ≢ parked)
    → Awake s
    → Awake (go s i outside)
unfolding holds sleeps
wake_none-Awake s i p nobody a = record {
  owner = owner_elsewhere s a i outside (ap holds p);
  watched = λ k h. absurd (nobody k (asleep (s.place k) (slept_before s.place i k outside refl h)));
}

full_mark : (w : ℕ) → (w ≤ 1) ⊎ (w ≡ 3) → w ≢ 0 → has_waiter w ≡ false → w + 2 ≡ 3
full_mark w (inl low) some bare = ground arith
full_mark w (inr high) some bare = ground arith

bare_word : (w : ℕ) → has_waiter w ≡ false → w ≢ 3
bare_word w bare full = ground arith

Step-Awake : {s : Gate} (i : ℕ) {s' : Gate} → Step s i s' → Exclusive s → Awake s → Awake s'
unfolding holds sleeps contends
Step-Awake i (call_lock p) v a = go-Awake _ a i trying (ap holds p) (inl (ap contends p)) (λ h. cc)
Step-Awake i (try_won p free) v a = win-Awake _ a i 1 free (inr (ap contends p))
Step-Awake i (try_lost p busy) v a = go-Awake _ a i _ (ap holds p) (inl (ap contends p)) (λ h. cc)
Step-Awake i (spin_won p free) v a = win-Awake _ a i 1 free (inr (ap contends p))
Step-Awake i (spin_lost p) v a = go-Awake _ a i _ (ap holds p) (inl (ap contends p)) (λ h. cc)
Step-Awake i (spin_over p) v a = go-Awake _ a i _ (ap holds p) (inl (ap contends p)) (λ h. cc)
Step-Awake i (load p) v a = go-Awake _ a i _ (ap holds p) (inr (inl refl)) (λ h. cc)
Step-Awake i (take p free) v a = win-Awake _ a i 3 free (inl refl)
Step-Awake {s} i (mark {cur = cur} p some bare same) v a =
    mark-Awake s a i (cur + 2) _
      (full_mark cur (subst (λ w. (w ≤ 1) ⊎ (w ≡ 3)) same v.values) some bare)
      (λ e. some (sym same ∙ e)) (ap holds p)
Step-Awake i (retry p bare) v a = go-Awake _ a i _ (ap holds p) (inr (inl refl)) (λ h. cc)
Step-Awake i (skip_mark p full) v a = go-Awake _ a i _ (ap holds p) (inr (inl refl)) (λ h. cc)
Step-Awake {s} i (sleep p same) v a =
    let full = same ∙ subst Keeps p (v.keeps i) in
    go-Awake s a i _ (ap holds p) (inr (inr full)) (λ h. full)
Step-Awake i (no_sleep p other) v a = go-Awake _ a i _ (ap holds p) (inr (inl refl)) (λ h. cc)
Step-Awake i (wake_up p) v a = go-Awake _ a i _ (ap holds p) (inl (ap contends p)) (λ h. cc)
Step-Awake {s} i (unlock p bare) v a =
    leave-Awake _ a i _ (ap contends p) refl (inl (bare_word s.word bare))
Step-Awake i (unlock_waiter p full) v a = leave-Awake _ a i _ (ap contends p) refl (inr refl)
Step-Awake i (wake_one {j = j} p q) v a = wake_one-Awake _ a i j p q
Step-Awake {s} i (wake_none p h) v a = wake_none-Awake s i p h a

pub Reach-Awake : {s : Gate} → Reach s → Awake s
unfolding sleeps
Reach-Awake start = record { owner = λ busy. absurd (busy refl); watched = λ i h. cc }
Reach-Awake (next i r st) = Step-Awake i st (Reach-Exclusive r) (Reach-Awake r)

-- In every state that any interleaving reaches from a free gate, while a thread sleeps, either the
-- word is 3, held with its waiter bit, and some thread holds the gate, or a thread is in the loop
-- after the spin or about to wake a sleeper.
pub no_lost_wake :
    {s : Gate} (i : ℕ)
    → Reach s
    → s.place i ≡ parked
    → ((s.word ≡ 3) × ((j : ℕ) × (holds (s.place j) ≡ true)))
      ⊎ ((j : ℕ) × (contends (s.place j) ≡ true))
unfolding sleeps
no_lost_wake {s} i r p = elim ((Reach-Awake r).watched i (ap sleeps p)) [
  | inl full ↦ inl (full, (Reach-Awake r).owner (λ e. omega (arith, full, e)))
  | inr on ↦ inr on
]

-- ===== src/Gate/Tests.antt =====
-- A run of the gate at which one thread holds it and another one sleeps.
use citor.Prelude.{ℕ, zero, suc, ◌+◌, ◌≡◌, refl, ◌∙◌, arith, true, ◌⊎◌, put, put_self, put_other}
use citor.Gate.Defs.{
  Place, outside, trying, spinning, looping, loaded, parking, parked, holding, Gate, go, Step,
  call_lock, try_won, try_lost, spin_lost, spin_over, load, mark, sleep, Reach, start, next,
}
use citor.Gate.Exclusion.{holds, mutual_exclusion}
use citor.Gate.Wake.{contends, no_lost_wake}

-- Thread 0 has the gate and thread 1 stands at `p`.
abbrev Contended : Place → Type 0
Contended p = (s : Gate) × Reach s × (s.word ≡ 1) × (s.place 0 ≡ holding) × (s.place 1 ≡ p)

moved : (q p : Place) (run : Contended q) → Step run.0 1 (go run.0 1 p) → Contended p
moved q p (s, r, w, h, k) st =
    (go s 1 p, next 1 r st, w, put_other s.place 1 0 p refl ∙ h, put_self s.place 1 p)

first_lock : Contended outside
first_lock = (_, next 0 (next 0 start (call_lock refl)) (try_won refl refl), refl, refl, refl)

spin_out : (n : ℕ) → Contended (spinning n) → Contended looping
spin_out zero run = moved _ _ run (spin_over run.4)
spin_out (suc n) run = spin_out n (moved _ _ run (spin_lost run.4))

in_loop : Contended looping
in_loop =
    let called = moved _ trying first_lock (call_lock first_lock.4) in
    spin_out 64 (moved _ _ called (try_lost called.4 (λ e. omega (arith, called.2, e))))

sleeper : (s : Gate) × Reach s × (s.place 0 ≡ holding) × (s.place 1 ≡ parked)
sleeper =
    let (s, r, w, h, k) = in_loop in
    let a = next 1 r (load k) in
    let b =
      next 1 a
        (mark (put_self s.place 1 (loaded s.word)) (λ e. omega (arith, w, e)) (rw w refl) refl) in
    let c =
      next 1 b (sleep (put_self (put s.place 1 (loaded s.word)) 1 (parking (s.word + 2))) refl) in
    (_, c, h, refl)

abbrev zeroth : ℕ
zeroth = 0

mutual_exclusion_example : zeroth ≡ zeroth
mutual_exclusion_example = mutual_exclusion zeroth zeroth sleeper.1 sleeper.2 sleeper.2

no_lost_wake_example :
    ((sleeper.0.word ≡ 3) × ((j : ℕ) × (holds (sleeper.0.place j) ≡ true)))
    ⊎ ((j : ℕ) × (contends (sleeper.0.place j) ≡ true))
no_lost_wake_example = no_lost_wake 1 sleeper.1 sleeper.3

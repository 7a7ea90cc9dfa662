-- ===== src/Deque/Tests.antt =====
-- Runs of the deque at concrete inputs.
use mathlib.Core.List.{Perm}
use citor.Prelude.{ℕ, ◌<◌, ◌^◌, ◌≡◌, refl, arith, none, List, [], ◌∷◌, ℕ_discrete}
use citor.Deque.Array.{allocate_array, store, load}
use citor.Deque.Spec.{Label, silent, pushes, pops, steals, Replays, push_back, pop_back, pop_front}
use citor.Deque.Defs.{Deque, make, round_up_pow2, push, pop, steal}
use citor.Deque.Refine.{IsValid, contents, push_refines}
use citor.Deque.Alone.{alone_refines}
use citor.Deque.Protocol.{
  System, Reach, start, next, push_load, push_room, push_store, push_publish, pop_claim, pop_last,
  pop_lost, steal_top, steal_bottom, steal_array, steal_slot, steal_won,
}
use citor.Deque.Protocol.Refine.{held, linearizable}
use citor.Deque.Protocol.Conserve.{exactly_once}

abbrev race_labels : List (Label ℕ)
race_labels =
    pops none
    ∷ steals 7
    ∷ silent
    ∷ silent
    ∷ silent
    ∷ silent
    ∷ silent
    ∷ silent
    ∷ pushes 7
    ∷ silent
    ∷ silent
    ∷ silent
    ∷ []

-- One element is pushed; thief 3 and the owner race for it, and the thief wins.
race : (s : System ℕ) × Reach 0 6 race_labels s
unfolding allocate_array store load ℕ_discrete
race = (
  _,
  next _
      (next _
        (next _
          (next _
            (next _
              (next _
                (next _
                  (next _
                    (next _
                      (next _ (next _ (next _ start (push_load 7 refl)) (push_room refl refl))
                        (push_store refl))
                      (push_publish refl))
                    (steal_top 3 refl))
                  (steal_bottom 3 refl refl))
                (pop_claim refl))
              (pop_last refl refl refl))
            (steal_array 3 refl))
          (steal_slot 3 refl))
        (steal_won 3 refl refl))
      (pop_lost refl (omega arith)),
)

linearizable_example : Replays race_labels (held 0 race.0)
linearizable_example = linearizable 0 race.1

exactly_once_example : Perm (7 ∷ []) (7 ∷ held 0 race.0)
exactly_once_example = exactly_once {empty = 0} race.1

abbrev fresh_deque : Deque ℕ
fresh_deque = make 0 0

fresh-IsValid : IsValid fresh_deque 0
unfolding make allocate_array round_up_pow2
fresh-IsValid = record {
  at = refl;
  ordered = omega arith;
  fits = omega arith;
  ring = record { log = 6; power = refl; masked = refl; sized = refl };
}

small_capacity : fresh_deque.array.capacity < 2 ^ 63
unfolding make allocate_array round_up_pow2
small_capacity = omega arith

still_small : (push 0 5 fresh_deque).array.capacity < 2 ^ 63
unfolding make allocate_array round_up_pow2 push store
still_small = omega arith

push_refines_lem :
    IsValid (push 0 5 fresh_deque) 1
    × (contents 0 (push 0 5 fresh_deque) ≡ push_back 5 (contents 0 fresh_deque))
push_refines_lem = push_refines 0 5 fresh-IsValid small_capacity

alone_refines_example :
    (IsValid (push 0 6 (push 0 5 fresh_deque)) 2
      × (contents 0 (push 0 6 (push 0 5 fresh_deque))
          ≡ push_back 6 (contents 0 (push 0 5 fresh_deque))))
    × (let (r, d) = pop 0 (push 0 5 fresh_deque) in
        ((m : ℕ) × IsValid d m)
        × ((r, contents 0 d) ≡ pop_back (contents 0 (push 0 5 fresh_deque))))
    × (let (r, d) = steal 0 (push 0 5 fresh_deque) in
        IsValid d 1 × ((r, contents 0 d) ≡ pop_front (contents 0 (push 0 5 fresh_deque))))
alone_refines_example = alone_refines 0 6 push_refines_lem.0 still_small

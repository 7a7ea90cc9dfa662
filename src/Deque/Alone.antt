-- ===== src/Deque/Alone.antt =====
-- The operations of the deque, run alone.
use citor.Prelude.{ℕ, suc, ◌^◌, ◌<◌, ◌≡◌}
use citor.Deque.Defs.{Deque, push, pop, steal}
use citor.Deque.Spec.{push_back, pop_back, pop_front}
use citor.Deque.Refine.{IsValid, contents, push_refines, pop_refines, steal_refines}

-- Run alone on a valid deque of fewer than 2 ^ 63 slots, push keeps the deque valid and appends its value to the
-- list of live elements, also where it grows the array; pop leaves a valid deque and returns and removes the
-- newest live element, or nothing from an empty deque; steal leaves a valid deque with the same bottom
-- and returns and removes the oldest live element, or nothing from an empty deque.
pub alone_refines {ℓ} :
    {A : Type ℓ} (empty : A) {d : Deque A} {n : ℕ} (x : A)
    → IsValid d n
    → d.array.capacity < 2 ^ 63
    → (IsValid (push empty x d) (suc n)
        × (contents empty (push empty x d) ≡ push_back x (contents empty d)))
      × (let (r, d') = pop empty d in
          ((m : ℕ) × IsValid d' m) × ((r, contents empty d') ≡ pop_back (contents empty d)))
      × (let (r, d') = steal empty d in
          IsValid d' n × ((r, contents empty d') ≡ pop_front (contents empty d)))
alone_refines empty x v small =
    (push_refines empty x v small, pop_refines empty v, steal_refines empty v)

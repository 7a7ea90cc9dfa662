-- ===== src/Blocks/Exceptions.antt =====
-- Which exception a dispatch keeps, of those that its ranks throw.
use citor.Prelude.{ℕ, ◌≡◌, refl, ap, ◌∙◌, Option, none, some, List, [], ◌∷◌}
use citor.Blocks.Defs.{
  JobDescriptor, Outcome, drained, saw_exception, saw_stop, threw, out_of_fuel, capture_exception,
}

-- The end of a rank's loop: a thrown exception goes to the descriptor.
unfoldable pub settle : JobDescriptor → ℕ × Outcome → JobDescriptor
settle d (rank, threw e) = capture_exception d rank e
settle d (rank, drained) = d
settle d (rank, saw_exception) = d
settle d (rank, saw_stop) = d
settle d (rank, out_of_fuel) = d

-- The ranks' loops end in the order of the list.
unfoldable pub settle_all : JobDescriptor → List (ℕ × Outcome) → JobDescriptor
settle_all d [] = d
settle_all d (o ∷ os) = settle_all (settle d o) os

-- The first of the thrown exceptions, with its rank.
pub first_thrown : List (ℕ × Outcome) → Option (ℕ × ℕ)
first_thrown [] = none
first_thrown ((rank, threw e) ∷ os) = some (rank, e)
first_thrown ((rank, drained) ∷ os) = first_thrown os
first_thrown ((rank, saw_exception) ∷ os) = first_thrown os
first_thrown ((rank, saw_stop) ∷ os) = first_thrown os
first_thrown ((rank, out_of_fuel) ∷ os) = first_thrown os

-- What the dispatcher rethrows, and whose it is.
unfoldable pub rethrown : JobDescriptor → Option (ℕ × ℕ)
rethrown d = elim d.first_exception [ none ↦ none | some e ↦ some (d.exception_worker_id, e) ]

capture_early :
    (d : JobDescriptor) (rank e : ℕ)
    → d.first_exception ≡ none
    → capture_exception d rank e ≡ record d { first_exception = some e; exception_worker_id = rank }
unfolding capture_exception
capture_early d rank e h =
    ap
      (λ x. elim x [
        | none ↦ record d { first_exception = some e; exception_worker_id = rank }
        | some other ↦ d
      ])
      h

capture_late :
    (d : JobDescriptor) (rank e other : ℕ)
    → d.first_exception ≡ some other
    → capture_exception d rank e ≡ d
unfolding capture_exception
capture_late d rank e other h =
    ap
      (λ x. elim x [
        | none ↦ record d { first_exception = some e; exception_worker_id = rank }
        | some other ↦ d
      ])
      h

kept :
    (d : JobDescriptor) (e : ℕ)
    → d.first_exception ≡ some e
    → (os : List (ℕ × Outcome)) → rethrown (settle_all d os) ≡ some (d.exception_worker_id, e)
unfolding settle_all settle rethrown
kept d e h [] = rw h refl
kept d e h ((rank, threw f) ∷ os) =
    ap (λ c. rethrown (settle_all c os)) (capture_late d rank f e h) ∙ kept d e h os
kept d e h ((rank, drained) ∷ os) = kept d e h os
kept d e h ((rank, saw_exception) ∷ os) = kept d e h os
kept d e h ((rank, saw_stop) ∷ os) = kept d e h os
kept d e h ((rank, out_of_fuel) ∷ os) = kept d e h os

-- In whatever order the ranks' loops end, the exception that the descriptor keeps is the first that
-- was thrown, with the rank that threw it, and there is none if no rank threw.
pub first_exception_wins :
    (d : JobDescriptor) (os : List (ℕ × Outcome))
    → d.first_exception ≡ none
    → rethrown (settle_all d os) ≡ first_thrown os
unfolding settle_all settle rethrown first_thrown
first_exception_wins d [] h = rw h refl
first_exception_wins d ((rank, threw e) ∷ os) h =
    ap (λ c. rethrown (settle_all c os)) (capture_early d rank e h)
    ∙ kept (record d { first_exception = some e; exception_worker_id = rank }) e refl os
first_exception_wins d ((rank, drained) ∷ os) h = first_exception_wins d os h
first_exception_wins d ((rank, saw_exception) ∷ os) h = first_exception_wins d os h
first_exception_wins d ((rank, saw_stop) ∷ os) h = first_exception_wins d os h
first_exception_wins d ((rank, out_of_fuel) ∷ os) h = first_exception_wins d os h

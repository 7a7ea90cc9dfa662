-- ===== src/Deque/Spec.antt =====
-- What the deque promises: a list whose back the owner pushes and pops and whose front is stolen.
use citor.Prelude.{Option, none, some, List, [], ◌∷◌, ◌++◌, ◌≡◌, refl}

-- What a step does to the list, where that shows.
pub data Label {ℓ} (A : Type ℓ) : Type ℓ where
  silent : Label A
  pushes : A → Label A
  pops : Option A → Label A
  steals : A → Label A

module _ {ℓ} {A : Type ℓ} where
  unfoldable pub push_back : A → List A → List A
  push_back x l = l ++ (x ∷ [])

  unfoldable pub pop_front : List A → Option A × List A
  pop_front [] = (none, [])
  pop_front (x ∷ l) = (some x, l)

  unfoldable pub pop_back : List A → Option A × List A
  pop_back [] = (none, [])
  pop_back (x ∷ []) = (some x, [])
  pop_back (x ∷ y ∷ l) = let (r, rest) = pop_back (y ∷ l) in (r, x ∷ rest)

  pub pop_back-push_back : (l : List A) (x : A) → pop_back (l ++ (x ∷ [])) ≡ (some x, l)
  unfolding pop_back
  pop_back-push_back [] x = refl
  pop_back-push_back (y ∷ []) x = refl
  pop_back-push_back (y ∷ z ∷ l) x =
      λ i. let (r, rest) = pop_back-push_back (z ∷ l) x i in (r, y ∷ rest)

  -- What each label allows. A theft that fails is silent: the source lets it fail at any time.
  abbrev pub Legal : List A → Label A → List A → Type ℓ
  Legal l silent l' = l ≡ l'
  Legal l (pushes x) l' = push_back x l ≡ l'
  Legal l (pops r) l' = pop_back l ≡ (r, l')
  Legal l (steals x) l' = pop_front l ≡ (some x, l')

  -- The labels, the last first, lead from the empty list to `l`.
  abbrev pub Replays : List (Label A) → List A → Type ℓ
  Replays [] l = [] ≡ l
  Replays (a ∷ tr) l = (k : List A) × Replays tr k × Legal k a l

-- ===== src/Deque/Protocol/Invariant.antt =====
-- What holds between the steps of the deque's protocol, with `n` the bottom that thieves may rely on.
use citor.Prelude.{ℕ, suc, ◌+◌, ◌<◌, ◌≤◌, ◌≡◌}
use citor.Prelude.Int.{pos, dec}
use citor.Deque.Array.{IsArray, load}
use citor.Deque.Protocol.{
  Owner, idle, pushing, storing, publishing, popping, racing, restoring, Thief, resting, saw_top,
  saw_bottom, has_array, has_value, System, array,
}

module _ {ℓ} {A : Type ℓ} (empty : A) where
  -- What the owner's locals say of shared memory.
  abbrev pub OwnerHolds : System A → ℕ → Owner A → Type ℓ
  OwnerHolds s n idle = (s.bottom ≡ pos n) × Unit
  OwnerHolds s n (pushing x t) =
      (s.bottom ≡ pos n) × (t ≤ s.top) × (n < t + (array s).capacity) × Unit
  OwnerHolds s n (storing x) = (s.bottom ≡ pos n) × (n + 1 < s.top + (array s).capacity) × Unit
  OwnerHolds s n (publishing x) =
      (s.bottom ≡ pos n) × (n + 1 < s.top + (array s).capacity) × (load empty (array s) (pos n) ≡ x)
  OwnerHolds s n popping = (s.bottom ≡ dec (pos n)) × Unit
  OwnerHolds s n (racing x t) =
      (s.bottom ≡ dec (pos n)) × (n ≡ suc t) × (t ≤ s.top) × (load empty (array s) (pos t) ≡ x)
  OwnerHolds s n (restoring r) = (s.bottom ≡ dec (pos n)) × (n ≡ s.top) × Unit

  -- A thief past its test of `m_bottom` holds a live element, unless `m_top` has moved on.
  abbrev pub ThiefHolds : System A → ℕ → Thief A → Type ℓ
  ThiefHolds s n resting = Unit
  ThiefHolds s n (saw_top t) = (t ≤ s.top) × Unit
  ThiefHolds s n (saw_bottom t) = (t ≤ s.top) × (s.top ≡ t → t < n) × Unit
  ThiefHolds s n (has_array t a) =
      (t ≤ s.top)
      × (s.top ≡ t → t < n)
      × (a < s.fresh)
      × (s.top ≡ t → load empty (s.heap a) (pos t) ≡ load empty (array s) (pos t))
  ThiefHolds s n (has_value t x) =
      (t ≤ s.top) × (s.top ≡ t → t < n) × (s.top ≡ t → load empty (array s) (pos t) ≡ x)

  pub record Inv (s : System A) (n : ℕ) : Type ℓ where
    pub ordered : s.top ≤ n
    pub fits : n < s.top + (array s).capacity
    pub ring : IsArray (array s)
    pub placed : s.active < s.fresh
    pub owner_holds : OwnerHolds s n s.owner
    pub thief_holds : (i : ℕ) → ThiefHolds s n (s.thieves i)

-- ===== src/Deque/Protocol/Frame.antt =====
-- Steps keep what each thief relies on.
use mathlib.Core.Logic.{ite}
use citor.Prelude.{ℕ, ◌<◌, ◌≤◌, ◌≡◌, ◌≢◌, sym, subst, ◌∙◌, arith, ℕ_discrete}
use citor.Prelude.Int.{pos}
use citor.Deque.Array.{load}
use citor.Deque.Protocol.{
  Thief, resting, saw_top, saw_bottom, has_array, has_value, System, array, update,
}
use citor.Deque.Protocol.Invariant.{ThiefHolds}

module _ {ℓ κ} {A : Type ℓ} (P : A → Type κ) where
  ite-holds : {X : Type 0} (d : Dec X) {a b : A} → P a → P b → P (ite d a b)
  ite-holds (yes h) p q = p
  ite-holds (no h) p q = q

  pub update-holds :
      (f : ℕ → A) (i : ℕ) (a : A) → P a → ((j : ℕ) → P (f j)) → (j : ℕ) → P (update f i a j)
  update-holds f i a p q j = ite-holds (ℕ_discrete i j) p (q j)

pub update_self {ℓ} : {A : Type ℓ} (f : ℕ → A) (i : ℕ) (a : A) → update f i a i ≡ a
update_self f i a = ground arith

pub update_ne {ℓ} : {A : Type ℓ} (f : ℕ → A) (i j : ℕ) (a : A) → i ≢ j → update f i a j ≡ f j
update_ne f i j a h = ground arith

module _ {ℓ} {A : Type ℓ} (empty : A) where
  -- A step that leaves `m_top` alone, keeps its element if it is live, and writes to no array that a
  -- thief may hold but there.
  pub record Framed (s s' : System A) (n n' : ℕ) : Type ℓ where
    pub top : s'.top ≡ s.top
    pub fresh : s.fresh ≤ s'.fresh
    pub bound : s.top < n → s.top < n'
    pub active : s.top < n → load empty (array s') (pos s.top) ≡ load empty (array s) (pos s.top)
    pub heap :
        (a : ℕ)
        → a < s.fresh
        → s.top < n
        → load empty (s'.heap a) (pos s.top) ≡ load empty (s.heap a) (pos s.top)

  module _ {s s' : System A} {n n' : ℕ} (f : Framed s s' n n') (t : ℕ) (e : s'.top ≡ t) where
    old_top : s.top ≡ t
    old_top = sym f.top ∙ e

    active_at : t < n → load empty (array s') (pos t) ≡ load empty (array s) (pos t)
    active_at h =
        subst (λ u. load empty (array s') (pos u) ≡ load empty (array s) (pos u)) old_top
          (f.active (omega (arith, old_top)))

    heap_at :
        (a : ℕ)
        → a < s.fresh
        → t < n
        → load empty (s'.heap a) (pos t) ≡ load empty (s.heap a) (pos t)
    heap_at a b h =
        subst (λ u. load empty (s'.heap a) (pos u) ≡ load empty (s.heap a) (pos u)) old_top
          (f.heap a b (omega (arith, old_top)))

    bound_at : t < n → t < n'
    bound_at h = omega (arith, old_top, f.bound (omega (arith, old_top)))

  pub Framed-ThiefHolds :
      {s s' : System A} {n n' : ℕ}
      → Framed s s' n n'
      → (th : Thief A) → ThiefHolds empty s n th
      → ThiefHolds empty s' n' th
  Framed-ThiefHolds f resting h = tt
  Framed-ThiefHolds f (saw_top t) h = (omega (arith, f.top), tt)
  Framed-ThiefHolds f (saw_bottom t) h =
      (omega (arith, f.top), λ e. bound_at f t e (h.1 (old_top f t e)), tt)
  Framed-ThiefHolds {s} {s'} {n} f (has_array t a) h = (
    omega (arith, f.top),
    λ e. bound_at f t e (h.1 (old_top f t e)),
    omega (arith, f.fresh),
    λ e.
        let lt : t < n = h.1 (old_top f t e) in
        heap_at f t e a h.2 lt ∙ h.3 (old_top f t e) ∙ sym (active_at f t e lt),
  )
  Framed-ThiefHolds {s} {s'} {n} f (has_value t x) h = (
    omega (arith, f.top),
    λ e. bound_at f t e (h.1 (old_top f t e)),
    λ e. active_at f t e (h.1 (old_top f t e)) ∙ h.2 (old_top f t e),
  )

  -- Once `m_top` has moved on, a thief holds nothing.
  pub advance-ThiefHolds :
      (s s' : System A) (n n' : ℕ)
      → s.top < s'.top
      → s.fresh ≤ s'.fresh
      → (th : Thief A) → ThiefHolds empty s n th
      → ThiefHolds empty s' n' th
  advance-ThiefHolds s s' n n' lt fr resting h = tt
  advance-ThiefHolds s s' n n' lt fr (saw_top t) h = (omega arith, tt)
  advance-ThiefHolds s s' n n' lt fr (saw_bottom t) h = (omega arith, λ e. absurd (omega arith), tt)
  advance-ThiefHolds s s' n n' lt fr (has_array t a) h =
      (omega arith, λ e. absurd (omega arith), omega arith, λ e. absurd (omega arith))
  advance-ThiefHolds s s' n n' lt fr (has_value t x) h =
      (omega arith, λ e. absurd (omega arith), λ e. absurd (omega arith))

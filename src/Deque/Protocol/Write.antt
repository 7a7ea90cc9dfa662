-- ===== src/Deque/Protocol/Write.antt =====
-- The steps of `push` that write an array: `grow` publishes a larger copy, `arr->store` fills the
-- slot at the bottom. No thief can tell, whichever array it holds.
use native.Mathlib.Nat.{pow-suc}
use citor.Prelude.{
  ℕ, suc, ◌+◌, ◌-◌, ◌*◌, ◌%◌, ◌^◌, ◌<◌, ◌≤◌, ◌≡◌, refl, sym, ap, ap₂, subst, ◌∙◌, arith, ◌∷◌,
  ℕ_discrete,
}
use citor.Prelude.Int.{pos, rounds}
use citor.Deque.Array.{Array, IsArray, allocate_array, store, load, copy_range, mod-ne}
use citor.Deque.Array.{store-IsArray, load-store_self, load-store_ne, capacity_pos}
use citor.Deque.Window.{
  span, span-store_ne, span-grown_from, grown, grown-IsArray, capacity-grown, capacity-store,
  load-grown,
}
use citor.Deque.Spec.{silent}
use citor.Deque.Protocol.{pushing, storing, publishing, System, array, bigger, update}
use citor.Deque.Protocol.Invariant.{OwnerHolds, Inv}
use citor.Deque.Protocol.Frame.{Framed, Framed-ThiefHolds, update_self, update_ne}
use citor.Deque.Protocol.Push.{Kept, holds_at}

module _ {ℓ} {A : Type ℓ} (empty : A) {s : System A} {n : ℕ} (inv : Inv empty s n) where
  module _ (x : A) (t : ℕ) (e : s.owner ≡ pushing x t) (small : (array s).capacity < 2 ^ 63) where
    o : OwnerHolds empty s n (pushing x t)
    o = holds_at empty inv e

    log : ℕ
    log = inv.ring.log

    copied : Array A
    copied = grown empty (suc log) (n - t) t (array s)

    bigger-eq : bigger empty s t ≡ copied
    unfolding copied log
    bigger-eq =
        ap₂ (λ b c. copy_range empty (rounds t b) t (array s) (allocate_array empty c)) o.0
          (doubled inv.ring.power (pow-suc 2 log))
      where
        doubled :
            (array s).capacity ≡ 2 ^ log
            → 2 ^ suc log ≡ 2 ^ log * 2
            → (array s).capacity * 2 % 2 ^ 64 ≡ 2 ^ suc log
        doubled p q = omega arith

    room : (n - t ≤ 2 ^ suc log) × (n + 1 < s.top + 2 ^ suc log)
    unfolding log
    room = omega (arith, o.1, o.2, inv.ring.power, pow-suc 2 log, inv.fits, capacity_pos inv.ring)

    after_grow : System A
    after_grow = record s {
      owner = storing x;
      heap = update s.heap s.fresh (bigger empty s t);
      active = s.fresh;
      fresh = suc s.fresh;
      freelist = s.active ∷ s.freelist;
    }

    array-grow : array after_grow ≡ copied
    unfolding after_grow
    array-grow = update_self s.heap s.fresh (bigger empty s t) ∙ bigger-eq

    capacity-copied : copied.capacity ≡ 2 ^ suc log
    unfolding copied
    capacity-copied = capacity-grown empty (suc log) (n - t) t (array s)

    capacity-grow : (array after_grow).capacity ≡ 2 ^ suc log
    capacity-grow = ap (λ (a : Array A). a.capacity) array-grow ∙ capacity-copied

    grow-Framed : Framed empty s after_grow n n
    unfolding after_grow copied
    grow-Framed = record {
      top = refl;
      fresh = omega arith;
      bound = λ h. h;
      active = λ h.
          ap (λ a. load empty a (pos s.top)) array-grow
          ∙ load-grown empty (suc log) (n - t) t s.top (array s) room.0 o.1 (omega arith);
      heap =
          λ a h k. ap (λ a. load empty a (pos s.top)) (update_ne s.heap s.fresh a _ (omega arith));
    }

    pub push_grow_keeps : Kept empty s n silent (record s {
      owner = storing x;
      heap = update s.heap s.fresh (bigger empty s t);
      active = s.fresh;
      fresh = suc s.fresh;
      freelist = s.active ∷ s.freelist;
    })
    unfolding after_grow copied
    push_grow_keeps = record {
      end = n;
      inv = record {
        ordered = inv.ordered;
        fits = omega (arith, capacity-grow, room.1);
        ring = subst IsArray (sym array-grow) (grown-IsArray empty (suc log) (n - t) t (array s));
        placed = omega arith;
        owner_holds = (o.0, omega (arith, capacity-grow, room.1), tt);
        thief_holds = λ i. Framed-ThiefHolds empty grow-Framed (s.thieves i) (inv.thief_holds i);
      };
      legal = sym (
          ap (λ a. span empty a s.top n) array-grow
          ∙ span-grown_from empty (suc log) (n - t) t s.top n (array s) o.1 (omega arith) room.0);
    }

  module _ (x : A) (e : s.owner ≡ storing x) where
    p : OwnerHolds empty s n (storing x)
    p = holds_at empty inv e

    after_store : System A
    after_store = record s {
      owner = publishing x;
      heap = update s.heap s.active (store (array s) s.bottom x);
    }

    array-store : array after_store ≡ store (array s) (pos n) x
    unfolding after_store
    array-store = update_self s.heap s.active _ ∙ ap (λ b. store (array s) b x) p.0

    capacity-after : (array after_store).capacity ≡ (array s).capacity
    capacity-after =
        ap (λ (a : Array A). a.capacity) array-store ∙ capacity-store empty (array s) n x

    -- A live element is less than a capacity below the slot that is written.
    load-after :
        s.top < n → load empty (array after_store) (pos s.top) ≡ load empty (array s) (pos s.top)
    load-after h =
        ap (λ a. load empty a (pos s.top)) array-store
        ∙ load-store_ne inv.ring empty x n s.top
            (λ q. mod-ne s.top n (array s).capacity h (omega (arith, p.1)) (sym q))

    store-Framed : Framed empty s after_store n n
    unfolding after_store
    store-Framed = record {
      top = refl;
      fresh = omega arith;
      bound = λ h. h;
      active = load-after;
      heap = λ a h k. elim (ℕ_discrete s.active a) [
        | yes q ↦
            subst
              (λ a.
                load empty (update s.heap s.active (store (array s) s.bottom x) a) (pos s.top)
                ≡ load empty (s.heap a) (pos s.top))
              q (load-after k)
        | no q ↦ ap (λ a. load empty a (pos s.top)) (update_ne s.heap s.active a _ q)
      ];
    }

    pub push_store_keeps : Kept empty s n silent (record s {
      owner = publishing x;
      heap = update s.heap s.active (store (array s) s.bottom x);
    })
    unfolding after_store
    push_store_keeps = record {
      end = n;
      inv = record {
        ordered = inv.ordered;
        fits = omega (arith, capacity-after, inv.fits);
        ring = subst IsArray (sym array-store) (store-IsArray inv.ring (pos n) x);
        placed = inv.placed;
        owner_holds = (
          p.0,
          omega (arith, capacity-after, p.1),
          ap (λ a. load empty a (pos n)) array-store ∙ load-store_self inv.ring empty x n,
        );
        thief_holds = λ i. Framed-ThiefHolds empty store-Framed (s.thieves i) (inv.thief_holds i);
      };
      legal = sym (
          ap (λ a. span empty a s.top n) array-store
          ∙ span-store_ne empty inv.ring x s.top n inv.fits);
    }

-- ===== src/Deque/Refine.antt =====
-- Run without interleaving, the operations of the deque act on the list of its live elements.
use native.Mathlib.Nat.{pow-suc}
use citor.Prelude.{
  ℕ, zero, suc, ◌+◌, ◌*◌, ◌%◌, ◌^◌, ◌≤◌, ◌<◌, ◌≡◌, refl, sym, ap, subst, ◌∙◌, false, Bool-cases,
  inl, inr, lt→ltb, le→ltb, ne→==, ==_self, lt→leb, le→leb, List, [], ◌∷◌, ◌++◌, arith, dec_lt,
}
use citor.Prelude.Int.{ℤ, pos, inc, rounds}
use citor.Deque.Array.{Array, IsArray, store, store-IsArray, capacity_pos}
use citor.Deque.Window.{
  window, span, span-empty, span-cons, span-snoc, span-store, span-grown, grown-IsArray,
  capacity-grown, capacity-store,
}
use citor.Deque.Defs.{Deque, replace_array, grow, push, pop, steal, is_full}
use citor.Deque.Spec.{push_back, pop_back, pop_front, pop_back-push_back}

-- Between operations, with bottom at `n`: top ≤ bottom, fewer elements than slots, a power of two
-- of slots.
pub record IsValid {ℓ} {A : Type ℓ} (d : Deque A) (n : ℕ) : Type 0 where
  pub at : d.bottom ≡ pos n
  pub ordered : d.top ≤ n
  pub fits : n < d.top + d.array.capacity
  pub ring : IsArray d.array

module _ {ℓ} {A : Type ℓ} (empty : A) where
  -- The live elements, the oldest (stolen first) at the front.
  unfoldable pub contents : Deque A → List A
  contents d = window empty d.array d.top (rounds d.top d.bottom)

  contents-at : (d : Deque A) (n : ℕ) → d.bottom ≡ pos n → contents d ≡ span empty d.array d.top n
  unfolding contents
  contents-at d n e = ap (λ b. window empty d.array d.top (rounds d.top b)) e

  -- A new array of 2 ^ m slots that has room for the live elements keeps them.
  pub replace_array_keeps :
      {d : Deque A} {n : ℕ}
      → IsValid d n
      → (m : ℕ) → n < d.top + 2 ^ m
      → IsValid (replace_array empty (2 ^ m) d) n
        × (contents (replace_array empty (2 ^ m) d) ≡ contents d)
  unfolding replace_array
  replace_array_keeps {d} {n} v m room = (
    record {
      at = v.at;
      ordered = v.ordered;
      fits = omega (arith, capacity-grown empty m k d.top d.array);
      ring = grown-IsArray empty m k d.top d.array;
    },
    contents-at _ n v.at
        ∙ span-grown empty m k d.top n d.array (ap (rounds d.top) v.at)
            (omega (arith, ap (rounds d.top) v.at))
        ∙ sym (contents-at d n v.at),
  )
    where
      k : ℕ
      k = rounds d.top d.bottom

  capacity-replace_array :
      (m : ℕ) (d : Deque A) → (replace_array empty (2 ^ m) d).array.capacity ≡ 2 ^ m
  unfolding replace_array
  capacity-replace_array m d = capacity-grown empty m (rounds d.top d.bottom) d.top d.array

  counters-replace_array :
      (c : ℕ) (d : Deque A)
      → ((replace_array empty c d).top ≡ d.top) × ((replace_array empty c d).bottom ≡ d.bottom)
  unfolding replace_array
  counters-replace_array c d = (refl, refl)

  -- A deque with room for one more, as `push` makes it before it stores.
  record Roomy (d d' : Deque A) (n : ℕ) : Type ℓ where
    valid : IsValid d' n
    same : contents d' ≡ contents d
    kept : (d'.top ≡ d.top) × (d'.bottom ≡ d.bottom)
    room : n + 1 < d'.top + d'.array.capacity

  grow-Roomy :
      {d : Deque A} {n : ℕ} → IsValid d n → d.array.capacity < 2 ^ 63 → Roomy d (grow empty d) n
  unfolding grow
  grow-Roomy {d} {n} v small =
      subst (λ c. Roomy d (replace_array empty c d) n) (sym doubled)
        (record {
          valid = (replace_array_keeps v (suc m) room').0;
          same = (replace_array_keeps v (suc m) room').1;
          kept = counters-replace_array (2 ^ suc m) d;
          room = room-replace;
        })
    where
      m : ℕ
      m = v.ring.log

      doubled : d.array.capacity * 2 % 2 ^ 64 ≡ 2 ^ suc m
      doubled = omega (arith, v.ring.power, pow-suc 2 m)

      room' : n < d.top + 2 ^ suc m
      room' = omega (arith, v.ring.power, v.fits, pow-suc 2 m)

      room-replace :
          n + 1
          < (replace_array empty (2 ^ suc m) d).top
            + (replace_array empty (2 ^ suc m) d).array.capacity
      room-replace = omega (
        arith,
        (counters-replace_array (2 ^ suc m) d).0,
        capacity-replace_array (suc m) d,
        pow-suc 2 m,
        capacity_pos v.ring,
      )

  is_full-Roomy : {d : Deque A} {n : ℕ} → IsValid d n → is_full d ≡ false → Roomy d d n
  is_full-Roomy {d} {n} v e = record {
    valid = v;
    same = refl;
    kept = (refl, refl);
    room = ground (arith, v.at, capacity_pos v.ring);
  }

  -- `push` stores at the bottom of a deque that has room.
  push-Roomy :
      {d d' : Deque A} {n : ℕ} (x : A)
      → Roomy d d' n
      → (b : ℤ) → b ≡ pos n
      → let p = record d' { array = store d'.array b x; bottom = inc b } in
        IsValid p (suc n) × (contents p ≡ push_back x (contents d))
  unfolding push_back
  push-Roomy {d} {d'} {n} x r b e = rw e (
    record {
      at = refl;
      ordered = omega (arith, r.valid.ordered);
      fits = omega (arith, r.room, capacity-store empty d'.array n x);
      ring = store-IsArray r.valid.ring (pos n) x;
    },
    contents-at (record d' { array = store d'.array (pos n) x; bottom = pos (suc n) }) (suc n) refl
        ∙ span-store empty r.valid.ring x d'.top n r.valid.ordered r.valid.fits
        ∙ ap (λ l. l ++ (x ∷ [])) (sym (contents-at d' n r.valid.at) ∙ r.same),
  )

  -- On a valid deque of fewer than 2 ^ 63 slots, push appends its value to the live elements and
  -- leaves the deque valid, also where it grows the array.
  pub push_refines :
      {d : Deque A} {n : ℕ} (x : A)
      → IsValid d n
      → d.array.capacity < 2 ^ 63
      → IsValid (push empty x d) (suc n) × (contents (push empty x d) ≡ push_back x (contents d))
  unfolding push
  push_refines {d} {n} x v small = elim (Bool-cases (is_full d)) [
    | inl e ↦ rw e (push-Roomy x (grow-Roomy v small) d.bottom v.at)
    | inr e ↦ rw e (push-Roomy x (is_full-Roomy v e) d.bottom v.at)
  ]

  -- A deque whose bottom is the number `n`.
  abbrev deque : ℕ → ℕ → Array A → List (Array A) → Deque A
  deque n t a f = record { bottom = pos n; top = t; array = a; freelist = f }

  rooted : (d : Deque A) (n : ℕ) → d.bottom ≡ pos n → deque n d.top d.array d.freelist ≡ d
  rooted d n e i = record d { bottom = sym e i }

  -- The newest element is popped, or the deque is found empty.
  Pops : Deque A → Type ℓ
  Pops d =
      let (r, d') = pop empty d in
      ((m : ℕ) × IsValid d' m) × ((r, contents d') ≡ pop_back (contents d))

  Steals : Deque A → ℕ → Type ℓ
  Steals d n =
      let (r, d') = steal empty d in IsValid d' n × ((r, contents d') ≡ pop_front (contents d))

  module _ (t : ℕ) (a : Array A) (f : List (Array A)) where
    pop-at : (n : ℕ) → t ≤ n → n < t + a.capacity → IsArray a → Pops (deque n t a f)
    unfolding Pops pop contents pop_back
    pop-at zero le fit v = (
      (0, record { at = refl; ordered = le; fits = fit; ring = v }),
      rw (span-empty empty a t 0 (omega arith)),
    )
    pop-at (suc m) le fit v = elim (dec_lt m t) [
      | yes p ↦ rw (lt→ltb m t p) (
        (suc m, record { at = refl; ordered = le; fits = fit; ring = v }),
        rw (span-empty empty a t (suc m) (omega arith)),
      )
      | no p ↦ rw (le→ltb m t (omega arith)) (elim (dec_lt t m) [
        | yes q ↦ rw (ne→== t m (omega arith)) (
          (m, record { at = refl; ordered = omega arith; fits = omega arith; ring = v }),
          rw (span-snoc empty a t m (omega arith), pop_back-push_back),
        )
        | no q ↦
            let e : t ≡ m = omega arith in
            rw (e, ==_self m)
              (
                (suc m, record { at = refl; ordered = omega arith; fits = omega arith; ring = v }),
                rw (
                  span-snoc empty a m m (omega arith),
                  pop_back-push_back,
                  span-empty empty a m m (omega arith),
                  span-empty empty a (m + 1) (suc m) (omega arith),
                ),
              )
      ])
    ]

    steal-at : (n : ℕ) → t ≤ n → n < t + a.capacity → IsArray a → Steals (deque n t a f) n
    unfolding Steals steal contents pop_front
    steal-at n le fit v = elim (dec_lt t n) [
      | yes p ↦ rw (lt→leb n t p) (
        record { at = refl; ordered = omega arith; fits = omega arith; ring = v },
        rw (span-cons empty a t n p),
      )
      | no p ↦ rw (le→leb n t (omega arith)) (
        record { at = refl; ordered = le; fits = fit; ring = v },
        rw (span-empty empty a t n (omega arith)),
      )
    ]

  -- The owner takes the newest element, or finds the deque empty.
  pub pop_refines :
      {d : Deque A} {n : ℕ}
      → IsValid d n
      → let (r, d') = pop empty d in
        ((m : ℕ) × IsValid d' m) × ((r, contents d') ≡ pop_back (contents d))
  unfolding Pops
  pop_refines {d} {n} v =
      subst Pops (rooted d n v.at) (pop-at d.top d.array d.freelist n v.ordered v.fits v.ring)

  -- A thief takes the oldest element, or finds the deque empty.
  pub steal_refines :
      {d : Deque A} {n : ℕ}
      → IsValid d n
      → let (r, d') = steal empty d in IsValid d' n × ((r, contents d') ≡ pop_front (contents d))
  unfolding Steals
  steal_refines {d} {n} v =
      subst (λ d. Steals d n) (rooted d n v.at)
        (steal-at d.top d.array d.freelist n v.ordered v.fits v.ring)

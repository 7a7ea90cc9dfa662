-- ===== src/Deque/Protocol/Steal.antt =====
-- The steps of `steal` keep the invariant; a compare-exchange that succeeds acts as `pop_front`.
use citor.Prelude.{
  ℕ, suc, ◌+◌, ◌<◌, ◌≡◌, refl, sym, ap, ap₂, subst, ◌∙◌, arith, false, some, leb→lt,
}
use citor.Prelude.Int.{pos, dec, int_leb, leb-dec}
use citor.Deque.Array.{load}
use citor.Deque.Window.{span, span-cons}
use citor.Deque.Spec.{silent, steals, pop_front}
use citor.Deque.Protocol.{
  Owner, idle, pushing, storing, publishing, popping, racing, restoring, Thief, resting, saw_top,
  saw_bottom, has_array, has_value, System, array, update,
}
use citor.Deque.Protocol.Invariant.{OwnerHolds, ThiefHolds, Inv}
use citor.Deque.Protocol.Frame.{advance-ThiefHolds, update-holds}
use citor.Deque.Protocol.Push.{Kept}

module _ {ℓ} {A : Type ℓ} (empty : A) where
  -- A thief that reads `m_bottom` above `t` may rely on `t` being below `n`.
  lt-bottom :
      (s : System A) (n : ℕ) (o : Owner A)
      → OwnerHolds empty s n o
      → (t : ℕ) → int_leb s.bottom (pos t) ≡ false
      → t < n
  lt-bottom s n o h t e = go o h
    where
      at : s.bottom ≡ pos n → t < n
      at p = leb→lt n t (subst (λ b. int_leb b (pos t) ≡ false) p e)

      before : s.bottom ≡ dec (pos n) → t < n
      before p =
          let q : suc t < n =
            leb→lt n (suc t) (sym (leb-dec n t) ∙ subst (λ b. int_leb b (pos t) ≡ false) p e) in
          omega arith

      go : (o : Owner A) → OwnerHolds empty s n o → t < n
      go idle h = at h.0
      go (pushing x u) h = at h.0
      go (storing x) h = at h.0
      go (publishing x) h = at h.0
      go popping h = before h.0
      go (racing x u) h = before h.0
      go (restoring r) h = before h.0

  -- The owner's locals stay true when a thief advances `m_top` past a live element.
  advance-OwnerHolds :
      (s s' : System A) (n : ℕ)
      → s'.bottom ≡ s.bottom
      → array s' ≡ array s
      → s'.top ≡ suc s.top
      → s.top < n
      → (o : Owner A) → OwnerHolds empty s n o
      → OwnerHolds empty s' n o
  advance-OwnerHolds s s' n eb ea et lt idle h = (eb ∙ h.0, tt)
  advance-OwnerHolds s s' n eb ea et lt (pushing x u) h =
      (eb ∙ h.0, omega (arith, h.1), omega (arith, h.2, ap (λ a. a.capacity) ea), tt)
  advance-OwnerHolds s s' n eb ea et lt (storing x) h =
      (eb ∙ h.0, omega (arith, h.1, ap (λ a. a.capacity) ea), tt)
  advance-OwnerHolds s s' n eb ea et lt (publishing x) h = (
    eb ∙ h.0,
    omega (arith, h.1, ap (λ a. a.capacity) ea),
    ap (λ a. load empty a (pos n)) ea ∙ h.2,
  )
  advance-OwnerHolds s s' n eb ea et lt popping h = (eb ∙ h.0, tt)
  advance-OwnerHolds s s' n eb ea et lt (racing x u) h =
      (eb ∙ h.0, h.1, omega (arith, h.2), ap (λ a. load empty a (pos u)) ea ∙ h.3)
  advance-OwnerHolds s s' n eb ea et lt (restoring r) h = absurd (omega (arith, h.1))

  module _ {s : System A} {n : ℕ} (inv : Inv empty s n) (i : ℕ) where
    -- Thief `i` moves on; memory is left alone.
    thief_moves :
        (th : Thief A)
        → ThiefHolds empty s n th
        → Kept empty s n silent (record s { thieves = update s.thieves i th })
    thief_moves th h = record {
      end = n;
      inv = record {
        ordered = inv.ordered;
        fits = inv.fits;
        ring = inv.ring;
        placed = inv.placed;
        owner_holds = inv.owner_holds;
        thief_holds = update-holds (ThiefHolds empty s n) s.thieves i th h inv.thief_holds;
      };
      legal = refl;
    }

    pub stands : {th : Thief A} → s.thieves i ≡ th → ThiefHolds empty s n th
    stands e = subst (ThiefHolds empty s n) e (inv.thief_holds i)

    pub rest_keeps : Kept empty s n silent (record s { thieves = update s.thieves i resting })
    rest_keeps = thief_moves resting tt

    pub steal_top_keeps :
        Kept empty s n silent (record s { thieves = update s.thieves i (saw_top s.top) })
    steal_top_keeps = thief_moves (saw_top s.top) (omega arith, tt)

    pub steal_bottom_keeps :
        (t : ℕ)
        → s.thieves i ≡ saw_top t
        → int_leb s.bottom (pos t) ≡ false
        → Kept empty s n silent (record s { thieves = update s.thieves i (saw_bottom t) })
    steal_bottom_keeps t e h =
        thief_moves (saw_bottom t)
          ((stands e).0, λ _. lt-bottom s n s.owner inv.owner_holds t h, tt)

    pub steal_array_keeps :
        (t : ℕ)
        → s.thieves i ≡ saw_bottom t
        → Kept empty s n silent (record s { thieves = update s.thieves i (has_array t s.active) })
    steal_array_keeps t e =
        let h : ThiefHolds empty s n (saw_bottom t) = stands e in
        thief_moves (has_array t s.active) (h.0, h.1, inv.placed, λ _. refl)

    pub steal_slot_keeps :
        (t a : ℕ)
        → s.thieves i ≡ has_array t a
        → Kept empty s n silent (record s {
          thieves = update s.thieves i (has_value t (load empty (s.heap a) (pos t)));
        })
    steal_slot_keeps t a e =
        let h : ThiefHolds empty s n (has_array t a) = stands e in
        thief_moves (has_value t (load empty (s.heap a) (pos t))) (h.0, h.1, λ p. sym (h.3 p))

    pub steal_won_keeps :
        (t : ℕ) (x : A)
        → s.thieves i ≡ has_value t x
        → s.top ≡ t
        → Kept empty s n (steals x) (record s { top = t + 1; thieves = update s.thieves i resting })
    unfolding pop_front
    steal_won_keeps t x e w = record {
      end = n;
      inv = record {
        ordered = omega (arith, lt);
        fits = omega (arith, inv.fits);
        ring = inv.ring;
        placed = inv.placed;
        owner_holds =
            advance-OwnerHolds s s' n refl refl (omega arith) (omega (arith, lt)) s.owner
              inv.owner_holds;
        thief_holds = update-holds (ThiefHolds empty s' n) s.thieves i resting tt (λ j.
            advance-ThiefHolds empty s s' n n (omega arith) (omega arith) (s.thieves j)
              (inv.thief_holds j));
      };
      legal =
          ap pop_front (span-cons empty (array s) s.top n (omega (arith, lt)))
          ∙ ap₂ (λ y k. (some y, span empty (array s) k n))
              (ap (λ m. load empty (array s) (pos m)) w ∙ (stands e).2 w) (ap (λ m. m + 1) w);
    }
      where
        s' : System A
        s' = record s { top = t + 1; thieves = update s.thieves i resting }

        lt : t < n
        lt = (stands e).1 w

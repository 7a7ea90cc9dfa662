-- ===== src/Deque/Protocol/Pop.antt =====
-- The steps of `pop` keep the invariant; where `pop` settles its result it acts as `pop_back`.
use citor.Prelude.{
  ℕ, suc, ◌+◌, ◌-◌, ◌<◌, ◌≤◌, ◌≡◌, ◌≢◌, refl, sym, ap, ap₂, subst, ◌∙◌, arith, true, false, none,
  some, Option, ◌==◌, ==_iff, ==_ne, leb→lt, leb→le,
}
use citor.Prelude.Int.{pos, inc, dec, inc-dec, int_ltb, int_eqb, ltb-dec, eqb-dec}
use citor.Deque.Array.{load}
use citor.Deque.Window.{span-snoc, span-empty}
use citor.Deque.Spec.{silent, pops, pop_back, pop_back-push_back}
use citor.Deque.Protocol.{idle, popping, racing, restoring, System, array}
use citor.Deque.Protocol.Invariant.{OwnerHolds, Inv}
use citor.Deque.Protocol.Frame.{advance-ThiefHolds}
use citor.Deque.Protocol.Push.{live, Kept, holds_at, owner_moves}

module _ {ℓ} {A : Type ℓ} (empty : A) where
  -- Popping the newest of a span.
  pop_back-live :
      (s : System A) (b : ℕ)
      → s.top ≤ b
      → pop_back (live empty s (suc b)) ≡ (some (load empty (array s) (pos b)), live empty s b)
  pop_back-live s b h =
      ap pop_back (span-snoc empty (array s) s.top b h) ∙ pop_back-push_back (live empty s b) _

  pop_back-none :
      (s : System A) (n : ℕ) → n ≤ s.top → pop_back (live empty s n) ≡ (none, live empty s n)
  unfolding pop_back
  pop_back-none s n h = rw (span-empty empty (array s) s.top n h)

  module _ {s : System A} {n : ℕ} (inv : Inv empty s n) where
    pub pop_claim_keeps :
        s.owner ≡ idle → Kept empty s n silent (record s { owner = popping; bottom = dec s.bottom })
    pop_claim_keeps e = record {
      end = n;
      inv =
          owner_moves empty inv popping (dec s.bottom) n inv.ordered inv.fits (λ h. h)
            (ap dec (holds_at empty inv e).0, tt);
      legal = refl;
    }

    module _ (e : s.owner ≡ popping) where
      at : s.bottom ≡ dec (pos n)
      at = (holds_at empty inv e).0

      below : (c : _) → int_ltb s.bottom (pos s.top) ≡ c → int_ltb (dec (pos n)) (pos s.top) ≡ c
      below c h = subst (λ b. int_ltb b (pos s.top) ≡ c) at h

      meets : (c : _) → int_eqb (pos s.top) s.bottom ≡ c → (n == suc s.top) ≡ c
      meets c h = sym (eqb-dec n s.top) ∙ subst (λ b. int_eqb (pos s.top) b ≡ c) at h

      pub pop_empty_keeps :
          int_ltb s.bottom (pos s.top) ≡ true
          → Kept empty s n (pops none) (record s { owner = restoring none })
      pop_empty_keeps h = record {
        end = n;
        inv =
            owner_moves empty inv (restoring none) s.bottom n inv.ordered inv.fits (λ h. h)
              (at, omega (arith, inv.ordered, le), tt);
        legal = pop_back-none s n le;
      }
        where
          le : n ≤ s.top
          le = leb→le n s.top (sym (ltb-dec n s.top) ∙ below true h)

      pub pop_many_keeps :
          int_ltb s.bottom (pos s.top) ≡ false
          → int_eqb (pos s.top) s.bottom ≡ false
          → Kept empty s n (pops (some (load empty (array s) s.bottom))) (record s { owner = idle })
      pop_many_keeps h k = record {
        end = n - 1;
        inv =
            owner_moves empty inv idle s.bottom (n - 1) (omega (arith, above))
              (omega (arith, inv.fits)) (λ p. omega (arith, above, ==_ne _ _ (meets false k)))
              (at', tt);
        legal =
            ap (λ m. pop_back (live empty s m)) last
            ∙ pop_back-live s (n - 1) (omega (arith, above))
            ∙ ap (λ b. (some (load empty (array s) b), live empty s (n - 1))) (sym at');
      }
        where
          above : s.top < n
          above = leb→lt n s.top (sym (ltb-dec n s.top) ∙ below false h)

          last : n ≡ suc (n - 1)
          last = omega (arith, above)

          at' : s.bottom ≡ pos (n - 1)
          at' = at ∙ ap (λ m. dec (pos m)) last

      pub pop_last_keeps :
          int_ltb s.bottom (pos s.top) ≡ false
          → int_eqb (pos s.top) s.bottom ≡ true
          → Kept empty s n silent
              (record s { owner = racing (load empty (array s) s.bottom) s.top })
      pop_last_keeps h k = record {
        end = n;
        inv =
            owner_moves empty inv (racing _ s.top) s.bottom n inv.ordered inv.fits (λ h. h)
              (at, last, omega arith, ap (load empty (array s)) (sym at'));
        legal = refl;
      }
        where
          last : n ≡ suc s.top
          last = (==_iff _ _).0 (meets true k)

          at' : s.bottom ≡ pos s.top
          at' = at ∙ ap (λ m. dec (pos m)) last

    pub pop_won_keeps :
        (x : A) (t : ℕ)
        → s.owner ≡ racing x t
        → s.top ≡ t
        → Kept empty s n (pops (some x)) (record s { owner = restoring (some x); top = t + 1 })
    pop_won_keeps x t e w = record {
      end = n;
      inv = record {
        ordered = omega (arith, o.1);
        fits = omega (arith, inv.fits, w);
        ring = inv.ring;
        placed = inv.placed;
        owner_holds = (o.0, omega (arith, o.1), tt);
        thief_holds = λ i.
            advance-ThiefHolds empty s (record s { owner = restoring (some x); top = t + 1 }) n n
              (omega (arith, w)) (omega arith) (s.thieves i) (inv.thief_holds i);
      };
      legal =
          ap (λ m. pop_back (live empty s m)) (o.1 ∙ ap suc (sym w))
          ∙ pop_back-live s s.top (omega arith)
          ∙ ap₂ (λ y l. (some y, l)) (ap (λ m. load empty (array s) (pos m)) w ∙ o.3)
              (span-empty empty (array s) s.top s.top (omega arith)
                ∙ sym (span-empty empty (array s) (t + 1) n (omega (arith, o.1))));
    }
      where
        o : OwnerHolds empty s n (racing x t)
        o = holds_at empty inv e

    pub pop_lost_keeps :
        (x : A) (t : ℕ)
        → s.owner ≡ racing x t
        → s.top ≢ t
        → Kept empty s n (pops none) (record s { owner = restoring none })
    pop_lost_keeps x t e l = record {
      end = n;
      inv =
          owner_moves empty inv (restoring none) s.bottom n inv.ordered inv.fits (λ h. h)
            (o.0, gone, tt);
      legal = pop_back-none s n (omega (arith, gone));
    }
      where
        o : OwnerHolds empty s n (racing x t)
        o = holds_at empty inv e

        gone : n ≡ s.top
        gone = omega (arith, o.1, o.2, inv.ordered)

    pub pop_restore_keeps :
        (r : Option A)
        → s.owner ≡ restoring r
        → Kept empty s n silent (record s { owner = idle; bottom = inc s.bottom })
    pop_restore_keeps r e = record {
      end = n;
      inv =
          owner_moves empty inv idle (inc s.bottom) n inv.ordered inv.fits (λ h. h)
            (ap inc (holds_at empty inv e).0 ∙ inc-dec (pos n), tt);
      legal = refl;
    }

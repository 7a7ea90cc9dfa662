-- ===== src/Deque/Protocol/Push.antt =====
-- The steps of `push` keep the invariant and act on the list of live elements as `push_back`.
use citor.Prelude.{
  ℕ, suc, ◌+◌, ◌-◌, ◌<◌, ◌≤◌, ◌≡◌, refl, sym, ap, subst, ◌∙◌, arith, false, List, [], ◌∷◌, ◌++◌,
  leb→lt,
}
use citor.Prelude.Int.{ℤ, pos, inc, int_leb}
use citor.Deque.Array.{capacity_pos}
use citor.Deque.Window.{span, span-snoc}
use citor.Deque.Spec.{Label, silent, pushes, Legal, push_back}
use citor.Deque.Protocol.{Owner, idle, pushing, storing, publishing, System, array}
use citor.Deque.Protocol.Invariant.{OwnerHolds, Inv}
use citor.Deque.Protocol.Frame.{Framed, Framed-ThiefHolds}

module _ {ℓ} {A : Type ℓ} (empty : A) where
  -- The live elements while thieves may rely on bottom `n`.
  abbrev pub live : System A → ℕ → List A
  live s n = span empty (array s) s.top n

  -- What a step from `s` with bottom `n` shows: the invariant again, and a legal change.
  pub record Kept (s : System A) (n : ℕ) (l : Label A) (s' : System A) : Type ℓ where
    pub end : ℕ
    pub inv : Inv empty s' end
    pub legal : Legal (live s n) l (live s' end)

  -- The owner moves on and may write `m_bottom`; memory is left alone.
  pub owner_moves :
      {s : System A} {n : ℕ}
      → Inv empty s n
      → (o : Owner A) (b : ℤ) (n' : ℕ) → s.top ≤ n'
      → n' < s.top + (array s).capacity
      → (s.top < n → s.top < n')
      → OwnerHolds empty (record s { owner = o; bottom = b }) n' o
      → Inv empty (record s { owner = o; bottom = b }) n'
  owner_moves {s} {n} inv o b n' le fit keep holds = record {
    ordered = le;
    fits = fit;
    ring = inv.ring;
    placed = inv.placed;
    owner_holds = holds;
    thief_holds = λ i. Framed-ThiefHolds empty framed (s.thieves i) (inv.thief_holds i);
  }
    where
      framed : Framed empty s (record s { owner = o; bottom = b }) n n'
      framed = record {
        top = refl;
        fresh = omega arith;
        bound = keep;
        active = λ h. refl;
        heap = λ a h k. refl;
      }

  module _ {s : System A} {n : ℕ} (inv : Inv empty s n) where
    pub holds_at : {o : Owner A} → s.owner ≡ o → OwnerHolds empty s n o
    holds_at e = subst (OwnerHolds empty s n) e inv.owner_holds

    pub push_load_keeps :
        (x : A) → s.owner ≡ idle → Kept s n silent (record s { owner = pushing x s.top })
    push_load_keeps x e = record {
      end = n;
      inv =
          owner_moves inv (pushing x s.top) s.bottom n inv.ordered inv.fits (λ h. h)
            ((holds_at e).0, omega arith, inv.fits, tt);
      legal = refl;
    }

    pub push_room_keeps :
        (x : A) (t : ℕ)
        → s.owner ≡ pushing x t
        → int_leb (pos ((array s).capacity - 1 + t)) s.bottom ≡ false
        → Kept s n silent (record s { owner = storing x })
    push_room_keeps x t e full = record {
      end = n;
      inv =
          owner_moves inv (storing x) s.bottom n inv.ordered inv.fits (λ h. h)
            (o.0, omega (arith, leb→lt _ _ room, o.1, capacity_pos inv.ring), tt);
      legal = refl;
    }
      where
        o : OwnerHolds empty s n (pushing x t)
        o = holds_at e

        room : int_leb (pos ((array s).capacity - 1 + t)) (pos n) ≡ false
        room = subst (λ b. int_leb (pos ((array s).capacity - 1 + t)) b ≡ false) o.0 full

    pub push_publish_keeps :
        (x : A)
        → s.owner ≡ publishing x
        → Kept s n (pushes x) (record s { owner = idle; bottom = inc s.bottom })
    unfolding push_back
    push_publish_keeps x e = record {
      end = suc n;
      inv =
          owner_moves inv idle (inc s.bottom) (suc n) (omega (arith, inv.ordered))
            (omega (arith, o.1)) (λ h. omega arith) (ap inc o.0, tt);
      legal =
          sym (span-snoc empty (array s) s.top n inv.ordered ∙ ap (λ y. live s n ++ (y ∷ [])) o.2);
    }
      where
        o : OwnerHolds empty s n (publishing x)
        o = holds_at e

-- ===== src/Deque/Protocol/Refine.antt =====
-- Every run of the deque's protocol is a run of the list that it promises.
use citor.Prelude.{ℕ, ◌≡◌, refl, sym, ap, subst, ◌∙◌, arith, List, two-pow_pos}
use citor.Prelude.Int.{ℤ, pos, inc, dec, inc-dec, to_nat}
use citor.Deque.Array.{allocate_array, allocate_array-IsArray}
use citor.Deque.Window.{span, span-empty}
use citor.Deque.Spec.{Label, Replays}
use citor.Deque.Protocol.{
  Owner, idle, pushing, storing, publishing, popping, racing, restoring, System, array, Step,
  push_load, push_room, push_grow, push_store, push_publish, pop_claim, pop_empty, pop_many,
  pop_last, pop_won, pop_lost, pop_restore, steal_top, steal_none, steal_bottom, steal_array,
  steal_slot, steal_won, steal_lost, init, Reach, start, next,
}
use citor.Deque.Protocol.Invariant.{OwnerHolds, Inv}
use citor.Deque.Protocol.Push.{live, Kept, push_load_keeps, push_room_keeps, push_publish_keeps}
use citor.Deque.Protocol.Write.{push_grow_keeps, push_store_keeps}
use citor.Deque.Protocol.Pop.{
  pop_claim_keeps, pop_empty_keeps, pop_many_keeps, pop_last_keeps, pop_won_keeps, pop_lost_keeps,
  pop_restore_keeps,
}
use citor.Deque.Protocol.Steal.{
  rest_keeps, steal_top_keeps, steal_bottom_keeps, steal_array_keeps, steal_slot_keeps,
  steal_won_keeps,
}

module _ {ℓ} {A : Type ℓ} (empty : A) where
  pub Step-keeps :
      {s s' : System A} {l : Label A} {n : ℕ}
      → Step empty s l s'
      → Inv empty s n
      → Kept empty s n l s'
  Step-keeps (push_load x e) inv = push_load_keeps empty inv x e
  Step-keeps (push_room e h) inv = push_room_keeps empty inv _ _ e h
  Step-keeps (push_grow e h k) inv = push_grow_keeps empty inv _ _ e k
  Step-keeps (push_store e) inv = push_store_keeps empty inv _ e
  Step-keeps (push_publish e) inv = push_publish_keeps empty inv _ e
  Step-keeps (pop_claim e) inv = pop_claim_keeps empty inv e
  Step-keeps (pop_empty e h) inv = pop_empty_keeps empty inv e h
  Step-keeps (pop_many e h k) inv = pop_many_keeps empty inv e h k
  Step-keeps (pop_last e h k) inv = pop_last_keeps empty inv e h k
  Step-keeps (pop_won e w) inv = pop_won_keeps empty inv _ _ e w
  Step-keeps (pop_lost e w) inv = pop_lost_keeps empty inv _ _ e w
  Step-keeps (pop_restore e) inv = pop_restore_keeps empty inv _ e
  Step-keeps (steal_top i e) inv = steal_top_keeps empty inv i
  Step-keeps (steal_none i e h) inv = rest_keeps empty inv i
  Step-keeps (steal_bottom i e h) inv = steal_bottom_keeps empty inv i _ e h
  Step-keeps (steal_array i e) inv = steal_array_keeps empty inv i _ e
  Step-keeps (steal_slot i e) inv = steal_slot_keeps empty inv i _ _ e
  Step-keeps (steal_won i e w) inv = steal_won_keeps empty inv i _ _ e w
  Step-keeps (steal_lost i e w) inv = rest_keeps empty inv i

  Inv-init : (log : ℕ) → Inv empty (init empty log) 0
  unfolding allocate_array
  Inv-init log = record {
    ordered = omega arith;
    fits = omega (arith, two-pow_pos log);
    ring = allocate_array-IsArray empty (log);
    placed = omega arith;
    owner_holds = (refl, tt);
    thief_holds = λ i. tt;
  }

  -- The elements in the deque, read off memory: `pop` has lowered `m_bottom` by one from its first
  -- store on.
  abbrev pub bottom_of : Owner A → ℤ → ℤ
  bottom_of popping b = inc b
  bottom_of (racing x t) b = inc b
  bottom_of (restoring r) b = inc b
  bottom_of _ b = b

  abbrev pub held : System A → List A
  held s = span empty (array s) s.top (to_nat (bottom_of s.owner s.bottom))

  held-live : (s : System A) (n : ℕ) → Inv empty s n → held s ≡ live empty s n
  held-live s n inv = ap (span empty (array s) s.top) (go s.owner inv.owner_holds)
    where
      lowered : {b : ℤ} → b ≡ dec (pos n) → to_nat (inc b) ≡ n
      lowered p = ap (λ b. to_nat (inc b)) p ∙ ap to_nat (inc-dec (pos n))

      go : (o : Owner A) → OwnerHolds empty s n o → to_nat (bottom_of o s.bottom) ≡ n
      go popping h = lowered h.0
      go (racing x t) h = lowered h.0
      go (restoring r) h = lowered h.0
      go idle h = ap to_nat h.0
      go (pushing x t) h = ap to_nat h.0
      go (storing x) h = ap to_nat h.0
      go (publishing x) h = ap to_nat h.0

  -- In every reachable state the invariant holds for some `n`, and the labels so far make the list
  -- of live elements.
  pub Reach-keeps :
      {log : ℕ} {tr : List (Label A)} {s : System A}
      → Reach empty log tr s
      → (n : ℕ) × Inv empty s n × Replays tr (live empty s n)
  Reach-keeps {log} start =
      (0, Inv-init log, sym (span-empty empty (array (init empty log)) 0 0 (omega arith)))
  Reach-keeps (next {s = t} l r st) =
      let (n, inv, tr) = Reach-keeps r in
      let k = Step-keeps st inv in (k.end, k.inv, (live empty t n, tr, k.legal))

  -- Linearizability: in every state that any interleaving of one owner and any number of thieves
  -- reaches from a new deque of 2 ^ log slots, the completed operations, in the order in which they
  -- took effect, are a run of the list specification that ends in the elements that memory holds.
  -- So `pop` returns the newest element or finds the list empty, and a theft that succeeds returns
  -- the oldest.
  pub linearizable :
      {log : ℕ} {tr : List (Label A)} {s : System A} → Reach empty log tr s → Replays tr (held s)
  linearizable {log} {tr} {s} r =
      let (n, inv, run) = Reach-keeps r in subst (Replays tr) (sym (held-live s n inv)) run

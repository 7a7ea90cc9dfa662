-- ===== src/Deque/Protocol/Conserve.antt =====
-- No element is lost and none is taken twice.
use mathlib.Core.List.{Perm, perm_middle, perm_append_singleton, append_assoc}
use mathlib.Core.List.Perm
use citor.Prelude.{ℕ, ◌≡◌, refl, sym, ap, subst, ◌∙◌, Option, none, some, List, [], ◌∷◌, ◌++◌}
use citor.Deque.Spec.{Label, silent, pushes, pops, steals, Replays, push_back, pop_back, pop_front}
use citor.Deque.Protocol.{System, Reach}
use citor.Deque.Protocol.Refine.{held, linearizable}

module _ {ℓ} {A : Type ℓ} where
  -- The elements that the labels push, the last first.
  abbrev pub pushed : List (Label A) → List A
  pushed [] = []
  pushed (pushes x ∷ tr) = x ∷ pushed tr
  pushed (silent ∷ tr) = pushed tr
  pushed (pops r ∷ tr) = pushed tr
  pushed (steals x ∷ tr) = pushed tr

  -- The elements that the labels hand out, the last first.
  abbrev pub taken : List (Label A) → List A
  taken [] = []
  taken (pops (some x) ∷ tr) = x ∷ taken tr
  taken (steals x ∷ tr) = x ∷ taken tr
  taken (pops none ∷ tr) = taken tr
  taken (silent ∷ tr) = taken tr
  taken (pushes x ∷ tr) = taken tr

  -- What `pop_back` leaves, with what it takes at the end.
  abbrev put_back : Option A × List A → List A
  put_back (none, l) = l
  put_back (some x, l) = l ++ (x ∷ [])

  put_back-cons : (x : A) (p : Option A × List A) → put_back (p.0, x ∷ p.1) ≡ x ∷ put_back p
  put_back-cons x (none, l) = refl
  put_back-cons x (some y, l) = refl

  put_back-pop_back : (l : List A) → put_back (pop_back l) ≡ l
  unfolding pop_back
  put_back-pop_back [] = refl
  put_back-pop_back (x ∷ []) = refl
  put_back-pop_back (x ∷ y ∷ l) =
      put_back-cons x (pop_back (y ∷ l)) ∙ ap (λ m. x ∷ m) (put_back-pop_back (y ∷ l))

  pop_front-some : (k : List A) {x : A} {l : List A} → pop_front k ≡ (some x, l) → k ≡ x ∷ l
  unfolding pop_front
  pop_front-some [] e = cc
  pop_front-some (y ∷ k) e = cc

  -- An element at the end of the second list, brought to the front.
  to_front : (x : A) (t k : List A) → Perm (t ++ (k ++ (x ∷ []))) (x ∷ (t ++ k))
  to_front x t k =
      subst (λ l. Perm l (x ∷ (t ++ k))) (append_assoc t k (x ∷ []))
        (perm_append_singleton x (t ++ k))

  Replays-perm :
      (tr : List (Label A)) (l : List A) → Replays tr l → Perm (pushed tr) (taken tr ++ l)
  unfolding push_back
  Replays-perm [] l e = subst (Perm []) e (Perm.refl [])
  Replays-perm (silent ∷ tr) l (k, run, e) =
      subst (λ m. Perm (pushed tr) (taken tr ++ m)) e (Replays-perm tr k run)
  Replays-perm (pushes x ∷ tr) l (k, run, e) =
      subst (λ m. Perm (x ∷ pushed tr) (taken tr ++ m)) e
        (Perm.trans (Perm.cons x (Replays-perm tr k run)) (Perm.symm (to_front x (taken tr) k)))
  Replays-perm (pops none ∷ tr) l (k, run, e) =
      subst (λ m. Perm (pushed tr) (taken tr ++ m)) (sym (put_back-pop_back k) ∙ ap put_back e)
        (Replays-perm tr k run)
  Replays-perm (pops (some x) ∷ tr) l (k, run, e) =
      Perm.trans
        (subst (λ m. Perm (pushed tr) (taken tr ++ m)) (sym (put_back-pop_back k) ∙ ap put_back e)
          (Replays-perm tr k run))
        (to_front x (taken tr) l)
  Replays-perm (steals x ∷ tr) l (k, run, e) =
      Perm.trans
        (subst (λ m. Perm (pushed tr) (taken tr ++ m)) (pop_front-some k e) (Replays-perm tr k run))
        (perm_middle (taken tr) l)

  -- In every state that any interleaving reaches, the elements pushed so far are, as often, the
  -- elements that `pop` and `steal` have handed out together with those that the deque still holds.
  pub exactly_once :
      {empty : A} {log : ℕ} {tr : List (Label A)} {s : System A}
      → Reach empty log tr s
      → Perm (pushed tr) (taken tr ++ held empty s)
  exactly_once {empty} {tr} {s} r = Replays-perm tr (held empty s) (linearizable empty r)

-- ===== src/Token/Stops.antt =====
-- Requests to stop, seen through every copy of a token.
use citor.Prelude.{
  ℕ, suc, ◌≡◌, refl, ap, Bool, true, false, not, ◌&&◌, ◌||◌, ◌==◌, if◌then◌else◌, none, some, List,
  [], ◌∷◌, put_self, put_other, Bool-cases, ==_iff, inl, inr,
}
use citor.Token.Defs.{
  CancellationToken, Store, stop_requested, same_state, request_stop, request_all, wins, asked,
}

-- A request on another token changes nothing.
stop_requested-other :
    (s : Store) (u : CancellationToken) (a : ℕ)
    → same_state u (some a) ≡ false
    → stop_requested (request_stop s u).1 (some a) ≡ stop_requested s (some a)
unfolding stop_requested same_state request_stop
stop_requested-other s none a h = refl
stop_requested-other s (some b) a h = elim (Bool-cases (s.flags b == 0)) [
  | inl e ↦ rw e (ap (λ v. not (v == 0)) (put_other s.flags b a 1 h))
  | inr e ↦ rw e refl
]

-- A request on a copy stops the token, and returns whether it was going.
stop_requested-same :
    (s : Store) (a : ℕ)
    → (stop_requested (request_stop s (some a)).1 (some a) ≡ true)
      × ((request_stop s (some a)).0 ≡ not (stop_requested s (some a)))
unfolding stop_requested request_stop
stop_requested-same s a = elim (Bool-cases (s.flags a == 0)) [
  | inl e ↦ rw e (ap (λ v. not (v == 0)) (put_self s.flags a 1), refl)
  | inr e ↦ rw e (ap not e, refl)
]

same_state_iff : (u : CancellationToken) (a : ℕ) → same_state u (some a) ≡ true → u ≡ some a
unfolding same_state
same_state_iff none a h = absurd (cc h)
same_state_iff (some b) a h = ap some ((==_iff b a).0 h)

going_on : (b : Bool) → (b ≡ (b || false)) × (◌≡◌ {A = ℕ} 0 (if not b && false then 1 else 0))
going_on true = (refl, refl)
going_on false = (refl, refl)

-- The first request on a copy, with what the later ones do.
first_request :
    (b won more last : Bool) (w : ℕ)
    → won ≡ not b
    → last ≡ (true || more)
    → w ≡ (if not true && more then 1 else 0)
    → (last ≡ (b || true)) × ((if won then suc w else w) ≡ (if not b && true then 1 else 0))
first_request true won more last w h k e = (k, rw h e)
first_request false won more last w h k e = (k, rw h (ap suc e))

same_request :
    (s : Store) (u : CancellationToken) (a : ℕ)
    → same_state u (some a) ≡ true
    → (stop_requested (request_stop s u).1 (some a) ≡ true)
      × ((request_stop s u).0 ≡ not (stop_requested s (some a)))
same_request s u a e = rw (same_state_iff u a e) (stop_requested-same s a)

-- For a token with a state, whatever requests on whatever tokens are made: it is stopped in the end if and
-- only if it was before or some copy of it was asked to stop; and of the requests on its copies
-- one returns true if it was going and one was made, and otherwise none does.
pub request_all_lem :
    (ts : List CancellationToken) (s : Store) (a : ℕ)
    → (stop_requested (request_all s ts) (some a)
        ≡ (stop_requested s (some a) || asked ts (some a)))
      × (wins s ts (some a)
          ≡ (if not (stop_requested s (some a)) && asked ts (some a) then 1 else 0))
unfolding request_all wins asked
request_all_lem [] s a = going_on (stop_requested s (some a))
request_all_lem (u ∷ ts) s a =
    let rest = request_all_lem ts (request_stop s u).1 a in
    elim (Bool-cases (same_state u (some a))) [
      | inl e ↦
          let (stops, won) = same_request s u a e in
          let now = rw stops at rest in
          rw e (first_request (stop_requested s (some a)) _ (asked ts (some a)) _ _ won now.0 now.1)
      | inr e ↦ rw e (rw (stop_requested-other s u a e) at rest)
    ]

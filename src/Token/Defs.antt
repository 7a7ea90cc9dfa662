-- ===== src/Token/Defs.antt =====
-- The class `CancellationToken` of include/citor/cancellation.h. A copy of a token shares its state, so
-- that a token is the address of its state, and the states stand in a store.
use citor.Prelude.{
  ℕ, suc, Bool, true, false, not, ◌==◌, if◌then◌else◌, Option, none, some, List, [], ◌∷◌, put,
}

-- `m_state`
abbrev pub CancellationToken : Type 0
CancellationToken = Option ℕ

-- The flags on the heap, and the first address that is free.
pub record Store : Type 0 where
  pub next : ℕ
  pub flags : ℕ → ℕ

abbrev pub make_owned : Store → CancellationToken × Store
make_owned s = (some s.next, record { next = suc s.next; flags = put s.flags s.next 0 })

unfoldable pub stop_requested : Store → CancellationToken → Bool
stop_requested s none = false
stop_requested s (some a) = not (s.flags a == 0)

unfoldable pub can_stop : CancellationToken → Bool
can_stop none = false
can_stop (some a) = true

-- `operator==`
unfoldable pub same_state : CancellationToken → CancellationToken → Bool
same_state none none = true
same_state none (some b) = false
same_state (some a) none = false
same_state (some a) (some b) = a == b

unfoldable pub request_stop : Store → CancellationToken → Bool × Store
request_stop s none = (false, s)
request_stop s (some a) =
    if s.flags a == 0 then (true, record s { flags = put s.flags a 1 }) else (false, s)

-- Requests in any order: the store in the end.
unfoldable pub request_all : Store → List CancellationToken → Store
request_all s [] = s
request_all s (t ∷ ts) = request_all (request_stop s t).1 ts

-- How many of the requests on copies of a token return true.
unfoldable pub wins : Store → List CancellationToken → CancellationToken → ℕ
wins s [] t = 0
wins s (u ∷ ts) t =
    let rest = wins (request_stop s u).1 ts t in
    if same_state u t then (if (request_stop s u).0 then suc rest else rest) else rest

-- Whether a copy of the token is among the requests.
unfoldable pub asked : List CancellationToken → CancellationToken → Bool
asked [] t = false
asked (u ∷ ts) t = if same_state u t then true else asked ts t

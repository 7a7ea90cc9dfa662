-- ===== src/Token/Tests.antt =====
-- Two tokens with a state and requests on copies of them.
use citor.Prelude.{◌≡◌, refl, true, false, none, some, List, [], ◌∷◌}
use citor.Token.Defs.{
  CancellationToken, Store, make_owned, stop_requested, can_stop, same_state, request_stop,
  request_all, wins, asked,
}
use citor.Token.Stops.{request_all_lem}

abbrev two_tokens : Store
two_tokens = (make_owned (make_owned (record { next = 0; flags = λ a. 7 })).1).1

abbrev requests : List CancellationToken
requests = some 1 ∷ none ∷ some 1 ∷ []

untouched : stop_requested (request_all two_tokens requests) (some 0) ≡ false
unfolding stop_requested request_all request_stop
untouched = refl

no_state : can_stop none ≡ false
unfolding can_stop
no_state = refl

request_all_lem_example :
    (stop_requested (request_all two_tokens requests) (some 1) ≡ true)
    × (wins two_tokens requests (some 1) ≡ 1)
unfolding stop_requested asked same_state
request_all_lem_example = request_all_lem requests two_tokens 1

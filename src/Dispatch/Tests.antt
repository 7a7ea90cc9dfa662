-- ===== src/Dispatch/Tests.antt =====
-- Runs of the dispatch at concrete inputs.
use citor.Prelude.{ℕ, ◌≡◌, refl, Bool, true, false, leb, List, [], ◌∷◌}
use citor.Blocks.Shape.{ceil_div, fill_block_shape}
use citor.Dispatch.Reuse.{
  Key, Hints, key_matches, points_to, shape_of, write_desc, reuse_safe, written, publish, dispatch,
  run_calls, new_pool,
}
use citor.Dispatch.Fresh.{fresh, publish_fresh}

abbrev auto : Hints
auto = record { chunk = λ e. 0; oversubscribe = λ e. true }

abbrev sum_key : Key
sum_key = record {
  first = 0;
  last = 100;
  participants = 4;
  priority = 1;
  fn_ptr = 71;
  worker_entry = 5;
  worker_state_base = 90;
}

-- Producer 1 makes the same call twice, and producer 2 makes one of another body between them.
abbrev history : List (ℕ × Bool × Key)
history = (1, true, sum_key) ∷ (1, true, sum_key) ∷ (2, true, record sum_key { fn_ptr = 72 }) ∷ []

sum_many : leb (shape_of auto sum_key).block_count 1 ≡ false
unfolding shape_of fill_block_shape ceil_div
sum_many = refl

second_call_reuses :
    reuse_safe (run_calls auto new_pool ((1, true, sum_key) ∷ [])) 1 true sum_key ≡ true
unfolding reuse_safe run_calls dispatch written write_desc shape_of fill_block_shape ceil_div
    key_matches points_to
second_call_reuses = refl

publish_fresh_example :
    (publish auto (run_calls auto new_pool history) 1 true sum_key 3).1 ≡ fresh auto sum_key
publish_fresh_example = publish_fresh auto history 1 true sum_key 3 sum_many

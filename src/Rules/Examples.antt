-- ===== src/Rules/Examples.antt =====
-- A table with two routes.
use axio_emulator.Prelude.{
  ℕ, ◌+◌, ◌%◌, ◌≤◌, ◌<◌, ◌≡◌, refl, true, ◌^◌, List, some, length, get_or, arith,
}
use axio_emulator.Rules.{
  RuleTable, init, add_route, budget, apply_infly_budget, infly_message_budget,
}
use axio_emulator.Rules.Budget.{Client, start, next, sent, Reach-budget}
use axio_emulator.Rules.RoundRobin.{select_n, select_n-in_turn}

abbrev two_routes : RuleTable
two_routes = add_route (add_route init 1 5) 1 6

two_routes-positive : 0 < length (two_routes.table 1)
unfolding add_route init
two_routes-positive = omega arith

two_routes-low : two_routes.select_idx + 3 < 2 ^ 64
unfolding add_route init
two_routes-low = omega arith

select_n_example :
    (out : List ℕ) × (select_n 3 two_routes 1
      ≡ some (out, record two_routes { select_idx = two_routes.select_idx + 3 }))
    × ((j : ℕ)
        → j < 3
        → get_or out j 0
          ≡ get_or
              (two_routes.table 1)
              ((two_routes.select_idx + j) % length (two_routes.table 1))
              0)
select_n_example = select_n-in_turn 3 two_routes 1 two_routes-positive two_routes-low

abbrev begun : RuleTable
begun = add_route init 1 5

abbrev after_batch : Client
after_batch = record { rules = (apply_infly_budget begun 1 16).1; in_flight = 0 + 16 }

granted : (apply_infly_budget begun 1 16).0 ≡ true
unfolding apply_infly_budget add_route init
granted = refl

Reach-budget_example : budget after_batch.rules 1 + after_batch.in_flight ≤ infly_message_budget
Reach-budget_example =
    Reach-budget {type = 1} {ws_id = 5} {c = after_batch} (next start (sent 16 granted))

-- ===== src/Rules/RoundRobin.antt =====
-- `rr_select` called for one type (src/util/rule_table.h): the destinations take turns.
use axio_emulator.Prelude.{
  ℕ, zero, suc, ◌+◌, ◌%◌, ◌^◌, ◌<◌, ◌≡◌, ap, ◌∙◌, List, [], ◌∷◌, Option, none, some, length, get_or,
  arith,
}
use axio_emulator.Rules.{RuleTable, rr_select}

-- `n` selections in a row; `none` where one of them divides by zero.
pub select_n : ℕ → RuleTable → ℕ → Option (List ℕ × RuleTable)
select_n zero r type = some ([], r)
select_n (suc n) r type = elim (rr_select r type) [
  | none ↦ none
  | some (ws_id, r') ↦ elim (select_n n r' type) [
    | none ↦ none
    | some (ws_ids, r'') ↦ some (ws_id ∷ ws_ids, r'')
  ]
]

-- The destinations in turn, from the `k`-th selection on.
pub turns : List ℕ → ℕ → ℕ → List ℕ
turns ws_ids k zero = []
turns ws_ids k (suc n) = get_or ws_ids (k % length ws_ids) 0 ∷ turns ws_ids (k + 1) n

rr_select-some :
    (r : RuleTable) (type : ℕ)
    → 0 < length (r.table type)
    → r.select_idx + 1 < 2 ^ 64
    → rr_select r type
      ≡ some (
        get_or (r.table type) (r.select_idx % length (r.table type)) 0,
        record r { select_idx = r.select_idx + 1 },
      )
unfolding rr_select
rr_select-some r type h w = ground arith

get-turns :
    (ws_ids : List ℕ) (n k j : ℕ)
    → j < n
    → get_or (turns ws_ids k n) j 0 ≡ get_or ws_ids ((k + j) % length ws_ids) 0
unfolding turns
get-turns ws_ids zero k j h = absurd (omega arith)
get-turns ws_ids (suc n) k zero h = ap (λ i. get_or ws_ids (i % length ws_ids) 0) (omega arith)
get-turns ws_ids (suc n) k (suc j) h =
    get-turns ws_ids n (k + 1) j (omega arith)
    ∙ ap (λ i. get_or ws_ids (i % length ws_ids) 0) (omega arith)

select_n-eq :
    (n : ℕ) (r : RuleTable) (type : ℕ)
    → 0 < length (r.table type)
    → r.select_idx + n < 2 ^ 64
    → select_n n r type
      ≡ some (turns (r.table type) r.select_idx n, record r { select_idx = r.select_idx + n })
unfolding select_n turns
select_n-eq zero r type h w = ap (λ k. some ([], record r { select_idx = k })) (omega arith)
select_n-eq (suc n) r type h w =
    let one = rr_select-some r type h (omega arith) in
    let rest = select_n-eq n (record r { select_idx = r.select_idx + 1 }) type h (omega arith) in
    rw (one, select_n, rest)
      (ap (λ k. some (turns (r.table type) r.select_idx (suc n), record r { select_idx = k }))
        (omega arith))

-- While the counter does not wrap, `n` selections in a row for a type that has `len` destinations
-- all succeed, the `j`-th of them gives the destination in position `(select_idx + j) % len`, and
-- routes and budgets stay as they are.
pub select_n-in_turn :
    (n : ℕ) (r : RuleTable) (type : ℕ)
    → 0 < length (r.table type)
    → r.select_idx + n < 2 ^ 64
    → (out : List ℕ) × (select_n n r type ≡ some (out, record r { select_idx = r.select_idx + n }))
      × ((j : ℕ)
          → j < n
          → get_or out j 0 ≡ get_or (r.table type) ((r.select_idx + j) % length (r.table type)) 0)
select_n-in_turn n r type h w = (
  turns (r.table type) r.select_idx n,
  select_n-eq n r type h w,
  get-turns (r.table type) n r.select_idx,
)

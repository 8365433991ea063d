-- ===== src/Rules.antt =====
-- src/util/rule_table.h: the destinations of a workload, chosen in turn, and its budget of messages
-- in flight. A workload type, a `uint8_t` there, is any number here; the code does not compute with it.
-- `unordered_map::operator[]` makes a missing entry, so a read may change the table.
pub mod RoundRobin
pub mod Budget
mod Examples
use axio_emulator.Prelude.{
  ℕ, ◌+◌, ◌-◌, ◌%◌, ◌^◌, List, [], ◌∷◌, ◌++◌, Bool, true, false, Option, none, some, length, get_or,
  leb, ◌==◌, if◌then◌else◌,
}

-- `kInflyMessageBudget`.
abbrev pub infly_message_budget : ℕ
infly_message_budget = 1024

-- Missing entries of `table` are empty vectors; `infly_budget.count` tells those of the budget.
pub record RuleTable : Type 0 where
  pub table : ℕ → List ℕ
  pub infly_budget : ℕ → Option ℕ
  pub select_idx : ℕ

abbrev pub update {ℓ} : {A : Type ℓ} → (ℕ → A) → ℕ → A → ℕ → A
update f i a j = if j == i then a else f j

unfoldable pub init : RuleTable
init = record { table = λ t. []; infly_budget = λ t. none; select_idx = 0 }

abbrev pub budget_or_zero : Option ℕ → ℕ
budget_or_zero none = 0
budget_or_zero (some b) = b

-- `infly_budget[type]`.
abbrev pub budget : RuleTable → ℕ → ℕ
budget r type = budget_or_zero (r.infly_budget type)

abbrev pub first_budget : Option ℕ → ℕ
first_budget none = infly_message_budget
first_budget (some b) = b

unfoldable pub add_route : RuleTable → ℕ → ℕ → RuleTable
add_route r type ws_id = record r {
  table = update r.table type (r.table type ++ (ws_id ∷ []));
  infly_budget = update r.infly_budget type (some (first_budget (r.infly_budget type)));
}

pub apply_infly_budget : RuleTable → ℕ → ℕ → Bool × RuleTable
apply_infly_budget r type apply_size =
    let b = budget r type in
    let has_budget = leb apply_size b in
    (
      has_budget,
      record r {
        infly_budget = update r.infly_budget type (some (if has_budget then b - apply_size else b));
      },
    )

pub get_infly_budget : RuleTable → ℕ → ℕ × RuleTable
get_infly_budget r type =
    let b = budget r type in (b, record r { infly_budget = update r.infly_budget type (some b) })

pub return_infly_budget : RuleTable → ℕ → ℕ → RuleTable
return_infly_budget r type return_size = record r {
  infly_budget = update r.infly_budget type (some ((budget r type + return_size) % 2 ^ 64));
}

-- `std::find` and `erase` of the first match.
pub erase_first : ℕ → List ℕ → List ℕ
erase_first ws_id [] = []
erase_first ws_id (x ∷ xs) = if x == ws_id then xs else x ∷ erase_first ws_id xs

pub remove_route : RuleTable → ℕ → ℕ → RuleTable
remove_route r type ws_id = record r {
  table = update r.table type (erase_first ws_id (r.table type));
}

pub get_ws_ids : RuleTable → ℕ → List ℕ
get_ws_ids r type = r.table type

-- `none` is the division by zero for a type with no route.
unfoldable pub rr_select : RuleTable → ℕ → Option (ℕ × RuleTable)
rr_select r type =
    let ws_ids = r.table type in
    if length ws_ids == 0
    then none
    else some (
      get_or ws_ids (r.select_idx % length ws_ids) 0,
      record r { select_idx = (r.select_idx + 1) % 2 ^ 64 },
    )

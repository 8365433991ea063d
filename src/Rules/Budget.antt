-- ===== src/Rules/Budget.antt =====
-- The budget of messages in flight (src/util/rule_table.h): `apply_infly_budget` when a batch is
-- sent (apply_mbufs, src/workspace.h), `return_infly_budget` when replies come (msg_handler_client).
use axio_emulator.Prelude.{
  ℕ, ◌+◌, ◌-◌, ◌%◌, ◌^◌, ◌≤◌, ◌≡◌, refl, true, false, leb, if◌then◌else◌, arith,
}
use axio_emulator.Rules.{
  RuleTable, infly_message_budget, budget, init, add_route, apply_infly_budget, return_infly_budget,
}

-- A client's table, and how many of its messages of `type` are in flight.
pub record Client : Type 0 where
  pub rules : RuleTable
  pub in_flight : ℕ

pub data Step (type : ℕ) (c : Client) : Client → Type 0 where
  -- A batch is let through: its messages are in flight.
  sent :
      (n : ℕ)
      → (apply_infly_budget c.rules type n).0 ≡ true
      → Step type c
          (record { rules = (apply_infly_budget c.rules type n).1; in_flight = c.in_flight + n })
  -- A batch is held back.
  held :
      (n : ℕ)
      → (apply_infly_budget c.rules type n).0 ≡ false
      → Step type c (record c { rules = (apply_infly_budget c.rules type n).1 })
  -- Replies to messages in flight come.
  replied :
      (n : ℕ)
      → n ≤ c.in_flight
      → Step type c
          (record { rules = return_infly_budget c.rules type n; in_flight = c.in_flight - n })
  -- A message is lost on the way: its budget is not returned.
  lost : (n : ℕ) → n ≤ c.in_flight → Step type c (record c { in_flight = c.in_flight - n })

pub data Reach (type ws_id : ℕ) : Client → Type 0 where
  start : Reach type ws_id (record { rules = add_route init type ws_id; in_flight = 0 })
  next : {c d : Client} → Reach type ws_id c → Step type c d → Reach type ws_id d

apply-budget :
    (r : RuleTable) (type n : ℕ)
    → budget (apply_infly_budget r type n).1 type
      ≡ (if leb n (budget r type) then budget r type - n else budget r type)
unfolding apply_infly_budget
apply-budget r type n = ground arith

apply-flag : (r : RuleTable) (type n : ℕ) → (apply_infly_budget r type n).0 ≡ leb n (budget r type)
unfolding apply_infly_budget
apply-flag r type n = refl

-- A return adds to the budget of its type, in 64 bits.
pub return_infly_budget-budget :
    (r : RuleTable) (type n : ℕ)
    → budget (return_infly_budget r type n) type ≡ (budget r type + n) % 2 ^ 64
unfolding return_infly_budget
return_infly_budget-budget r type n = ground arith

start-budget : (type ws_id : ℕ) → budget (add_route init type ws_id) type ≡ infly_message_budget
unfolding add_route init
start-budget type ws_id = ground arith

-- What is left of the budget and the messages in flight never exceed the budget together.
pub Reach-budget :
    {type ws_id : ℕ} {c : Client}
    → Reach type ws_id c
    → budget c.rules type + c.in_flight ≤ infly_message_budget
Reach-budget {type} {ws_id} start = omega (arith, start-budget type ws_id)
Reach-budget {type} (next {c} r (sent n e)) =
    ground (arith, Reach-budget r, apply-budget c.rules type n, apply-flag c.rules type n)
Reach-budget {type} (next {c} r (held n e)) =
    ground (arith, Reach-budget r, apply-budget c.rules type n, apply-flag c.rules type n)
Reach-budget {type} (next {c} r (replied n h)) =
    ground (arith, Reach-budget r, return_infly_budget-budget c.rules type n)
Reach-budget (next r (lost n h)) = omega (arith, Reach-budget r)

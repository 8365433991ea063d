-- ===== src/Setup/Steps.antt =====
-- What a dispatcher is told of the workspaces, one after the other.
use mathlib.Core.List.{append_assoc, append-nil}
use axio_emulator.Prelude.{
  ℕ, ◌≡◌, refl, sym, ap, ◌∙◌, List, [], ◌∷◌, ◌++◌, map, Bool, true, ◌&&◌, some, ◌==◌, if◌then◌else◌,
  Bool-cases, inl, inr, arith,
}
use axio_emulator.Rules.{update, add_route}
use axio_emulator.Setup.{
  Member, Context, Wiring, is_worker, assigned_to, connect, connect_member, connect_all,
}
use axio_emulator.Setup.Registered.{find, tx_of, rx_of, dispatcher_of, Knows}

-- The workers of the dispatcher `self`.
abbrev pub mine : ℕ → Member → Bool
mine self w = is_worker w && (w.dispatcher_ws_id == self)

-- Their transmit queues, and the ids of those with a type of workload, in the order of the list.
abbrev pub queues_of : ℕ → List Member → List ℕ
queues_of self [] = []
queues_of self (w ∷ ws) = if mine self w then w.tx_queue ∷ queues_of self ws else queues_of self ws

abbrev pub workers_of : ℕ → ℕ → List Member → List ℕ
workers_of self type [] = []
workers_of self type (w ∷ ws) =
    if mine self w && (w.workload_type == type)
    then w.ws_id ∷ workers_of self type ws
    else workers_of self type ws

-- Each workspace of the list is the one that the context has under its id.
pub data Found (all : List Member) : List Member → Type 0 where
  found_none : Found all []
  found :
      {w : Member} {ws : List Member}
      → find w.ws_id all ≡ some w
      → Found all ws
      → Found all (w ∷ ws)

pub record IsWired (self : ℕ) (ws : List Member) (d out : Wiring) : Type 0 where
  pub queues : out.ws_tx_queues ≡ d.ws_tx_queues ++ queues_of self ws
  pub routes : (t : ℕ) → out.rx_rule_table.table t ≡ d.rx_rule_table.table t ++ workers_of self t ws

pub step : ℕ → Member → Wiring → Wiring
step self w d =
    if mine self w
    then record {
      ws_tx_queues = d.ws_tx_queues ++ (w.tx_queue ∷ []);
      ws_rx_queues = update d.ws_rx_queues w.ws_id w.rx_queue;
      rx_rule_table = add_route d.rx_rule_table w.workload_type w.ws_id;
    }
    else d

-- One turn of the loop.
pub connect-step :
    (self : ℕ) (w : Member) (all : List Member) (ctx : Context) (d : Wiring)
    → Knows all ctx
    → find w.ws_id all ≡ some w
    → (if assigned_to self (ctx.ws_id_dispatcher_map w.ws_id)
        then connect_member ctx w.ws_id (ctx.ws w.ws_id) d
        else d)
      ≡ step self w d
unfolding connect step
connect-step self w all ctx d k e =
    let slot = k.slot w.ws_id ∙ e in
    let tx = k.tx w.ws_id ∙ ap tx_of e in
    let rx = k.rx w.ws_id ∙ ap rx_of e in
    let dispatcher = k.dispatcher w.ws_id ∙ ap dispatcher_of e in
    rw (slot, tx, rx, dispatcher) (ground arith)

pub step-IsWired : (self : ℕ) (w : Member) (d : Wiring) → IsWired self (w ∷ []) d (step self w d)
unfolding step add_route
step-IsWired self w d = record {
  queues = ground (arith, append-nil d.ws_tx_queues);
  routes = λ t. ground (arith, append-nil (d.rx_rule_table.table t));
}

pub IsWired-suc :
    (self : ℕ) (w : Member) (ws : List Member) (d mid out : Wiring)
    → IsWired self (w ∷ []) d mid
    → IsWired self ws mid out
    → IsWired self (w ∷ ws) d out
IsWired-suc self w ws d mid out a b = record {
  queues =
      b.queues
      ∙ ap (λ xs. xs ++ queues_of self ws) a.queues
      ∙ append_assoc d.ws_tx_queues (queues_of self (w ∷ [])) (queues_of self ws)
      ∙ ap (λ xs. d.ws_tx_queues ++ xs) (ground arith);
  routes = λ t.
      b.routes t
      ∙ ap (λ xs. xs ++ workers_of self t ws) (a.routes t)
      ∙ append_assoc (d.rx_rule_table.table t) (workers_of self t (w ∷ [])) (workers_of self t ws)
      ∙ ap (λ xs. d.rx_rule_table.table t ++ xs) (ground arith);
}

-- The loop on the members themselves.
pub steps : ℕ → List Member → Wiring → Wiring
steps self [] d = d
steps self (w ∷ ws) d = steps self ws (step self w d)

pub connect_all-steps :
    (self : ℕ) (all : List Member) (ctx : Context) (ws : List Member) (d : Wiring)
    → Knows all ctx
    → Found all ws
    → connect_all self ctx (map (λ (w : Member). w.ws_id) ws) d ≡ steps self ws d
unfolding connect_all steps
connect_all-steps self all ctx [] d k found_none = refl
connect_all-steps self all ctx (w ∷ ws) d k (found e f) =
    ap (connect_all self ctx (map (λ (x : Member). x.ws_id) ws)) (connect-step self w all ctx d k e)
    ∙ connect_all-steps self all ctx ws (step self w d) k f

pub steps-IsWired : (self : ℕ) (ws : List Member) (d : Wiring) → IsWired self ws d (steps self ws d)
unfolding steps
steps-IsWired self [] d = record {
  queues = sym (append-nil d.ws_tx_queues);
  routes = λ t. sym (append-nil (d.rx_rule_table.table t));
}
steps-IsWired self (w ∷ ws) d =
    IsWired-suc self w ws d (step self w d) _ (step-IsWired self w d)
      (steps-IsWired self ws (step self w d))

-- The receive queue of a worker stays once it is there.
pub step-rx :
    (self i : ℕ) (v w : Member) (all : List Member) (d : Wiring)
    → find i all ≡ some v
    → find w.ws_id all ≡ some w
    → d.ws_rx_queues i ≡ v.rx_queue
    → (step self w d).ws_rx_queues i ≡ v.rx_queue
unfolding step
step-rx self i v w all d here found_w e = elim (Bool-cases (i == w.ws_id)) [
  | inl same ↦
      let at : i ≡ w.ws_id = ground arith in
      let one : some v ≡ some w = sym here ∙ ap (λ j. find j all) at ∙ found_w in
      let eq : v ≡ w = ground (arith, one) in
      let q = ap (λ (x : Member). x.rx_queue) eq in ground (arith, same, q, e)
  | inr other ↦ ground (arith, other, e)
]

pub steps-rx :
    (self i : ℕ) (v : Member) (all ws : List Member) (d : Wiring)
    → find i all ≡ some v
    → Found all ws
    → d.ws_rx_queues i ≡ v.rx_queue
    → (steps self ws d).ws_rx_queues i ≡ v.rx_queue
unfolding steps
steps-rx self i v all [] d here found_none e = e
steps-rx self i v all (w ∷ ws) d here (found found_w f) e =
    steps-rx self i v all ws (step self w d) here f (step-rx self i v w all d here found_w e)

pub step_self :
    (self : ℕ) (w : Member) (d : Wiring)
    → mine self w ≡ true
    → (step self w d).ws_rx_queues w.ws_id ≡ w.rx_queue
unfolding step
step_self self w d m = ground (arith, m)

pub steps-rx_own :
    (self i : ℕ) (v : Member) (all ws : List Member) (d : Wiring)
    → find i all ≡ some v
    → mine self v ≡ true
    → Found all ws
    → find i ws ≡ some v
    → (steps self ws d).ws_rx_queues i ≡ v.rx_queue
unfolding steps
steps-rx_own self i v all [] d here m found_none e = absurd (ground (arith, e))
steps-rx_own self i v all (w ∷ ws) d here m (found found_w f) e = elim (Bool-cases (w.ws_id == i)) [
  | inl same ↦
      let one : some w ≡ some v = sym (ground (arith, same)) ∙ e in
      let eq : w ≡ v = ground (arith, one) in
      let at : w.ws_id ≡ i = ground arith in
      let own = step_self self w d (ap (mine self) eq ∙ m) in
      let q : (step self w d).ws_rx_queues i ≡ v.rx_queue =
        ap (step self w d).ws_rx_queues (sym at) ∙ own ∙ ap (λ (x : Member). x.rx_queue) eq in
      steps-rx self i v all ws (step self w d) here f q
  | inr other ↦
      steps-rx_own self i v all ws (step self w d) here m f (sym (ground (arith, other)) ∙ e)
]

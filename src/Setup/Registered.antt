-- ===== src/Setup/Registered.antt =====
-- What the context knows once workspaces have registered.
use mathlib.Core.List.{append_assoc, append-nil}
use mathlib.Core.Path.{subst}
use axio_emulator.Prelude.{
  ℕ, ◌≡◌, refl, sym, ap, ◌∙◌, List, [], ◌∷◌, ◌++◌, map, true, Option, none, some, ◌==◌,
  if◌then◌else◌, arith,
}
use axio_emulator.Rules.{update}
use axio_emulator.Setup.{
  Member, Context, is_worker, is_dispatcher, init, register_worker, register_dispatcher,
  register_ws, register_all,
}

-- The first workspace of a list with an id.
abbrev pub find : ℕ → List Member → Option Member
find i [] = none
find i (w ∷ ws) = if w.ws_id == i then some w else find i ws

-- What the maps hold of a workspace.
abbrev pub tx_of : Option Member → Option ℕ
tx_of none = none
tx_of (some w) = if is_worker w then some w.tx_queue else none

abbrev pub rx_of : Option Member → Option ℕ
rx_of none = none
rx_of (some w) = if is_worker w then some w.rx_queue else none

abbrev pub dispatcher_of : Option Member → Option ℕ
dispatcher_of none = none
dispatcher_of (some w) = if is_worker w then some w.dispatcher_ws_id else none

abbrev pub reg_of : Option Member → Option ℕ
reg_of none = none
reg_of (some w) = if is_dispatcher w then some w.mem_reg else none

-- The context agrees with the list of the workspaces that have registered.
pub record Knows (ws : List Member) (ctx : Context) : Type 0 where
  pub active : ctx.active_ws_id ≡ map (λ (w : Member). w.ws_id) ws
  pub slot : (i : ℕ) → ctx.ws i ≡ find i ws
  pub tx : (i : ℕ) → ctx.ws_tx_queue_map i ≡ tx_of (find i ws)
  pub rx : (i : ℕ) → ctx.ws_rx_queue_map i ≡ rx_of (find i ws)
  pub dispatcher : (i : ℕ) → ctx.ws_id_dispatcher_map i ≡ dispatcher_of (find i ws)
  pub reg : (i : ℕ) → ctx.mem_reg_map i ≡ reg_of (find i ws)

find-append :
    (i : ℕ) (ws : List Member) (w : Member)
    → find w.ws_id ws ≡ none
    → find i (ws ++ (w ∷ [])) ≡ (if w.ws_id == i then some w else find i ws)
find-append i [] w free = ground arith
find-append i (x ∷ xs) w free = ground (arith, free, find-append i xs w)

map-append_one :
    (ws : List Member) (w : Member)
    → map (λ (x : Member). x.ws_id) (ws ++ (w ∷ []))
      ≡ map (λ (x : Member). x.ws_id) ws ++ (w.ws_id ∷ [])
map-append_one [] w = refl
map-append_one (x ∷ xs) w = ap (◌∷◌ x.ws_id) (map-append_one xs w)

pub init-Knows : Knows [] init
unfolding init
init-Knows = record {
  active = refl;
  slot = λ i. refl;
  tx = λ i. refl;
  rx = λ i. refl;
  dispatcher = λ i. refl;
  reg = λ i. refl;
}

find_free :
    (i : ℕ) (ws : List Member) (w : Member)
    → find w.ws_id ws ≡ none
    → (w.ws_id == i) ≡ true
    → find i ws ≡ none
find_free i ws w free e =
    let same : w.ws_id ≡ i = ground arith in ap (λ j. find j ws) (sym same) ∙ free

-- A workspace whose id is free registers, and the context knows it too.
register_ws-Knows :
    (w : Member) (ws : List Member) (ctx : Context)
    → Knows ws ctx
    → find w.ws_id ws ≡ none
    → (out : Context) × (register_ws w ctx ≡ some out) × Knows (ws ++ (w ∷ [])) out
unfolding register_ws register_worker register_dispatcher
register_ws-Knows w ws ctx k free =
    let out = register_dispatcher w (
      register_worker w (record ctx {
        ws = update ctx.ws w.ws_id (some w);
        active_ws_id = ctx.active_ws_id ++ (w.ws_id ∷ []);
      })) in
    let none_yet = k.slot w.ws_id ∙ free in
    (
      out,
      rw (none_yet, register_ws) refl,
      record {
        active = ground (arith, k.active, map-append_one ws w);
        slot = λ i. rw (find-append i ws w free) (ground (arith, k.slot i));
        tx = λ i. rw (find-append i ws w free) (ground (arith, k.tx i, find_free i ws w free));
        rx = λ i. rw (find-append i ws w free) (ground (arith, k.rx i, find_free i ws w free));
        dispatcher = λ i.
            rw (find-append i ws w free) (ground (arith, k.dispatcher i, find_free i ws w free));
        reg = λ i.
            rw (find-append i ws w free)
              (ground (arith, k.reg i, k.reg w.ws_id, find_free i ws w free, free));
      },
    )

-- Each workspace has an id that those before it do not have.
pub data Distinct : List Member → List Member → Type 0 where
  no_more : {before : List Member} → Distinct before []
  another :
      {before : List Member} {w : Member} {ws : List Member}
      → find w.ws_id before ≡ none
      → Distinct (before ++ (w ∷ [])) ws
      → Distinct before (w ∷ ws)

pub register_all-Knows :
    (before ws : List Member) (ctx : Context)
    → Knows before ctx
    → Distinct before ws
    → (out : Context) × (register_all ws ctx ≡ some out) × Knows (before ++ ws) out
unfolding register_all
register_all-Knows before [] ctx k no_more =
    (ctx, refl, subst (λ xs. Knows xs ctx) (sym (append-nil before)) k)
register_all-Knows before (w ∷ ws) ctx k (another free d) =
    let (mid, e, k') = register_ws-Knows w before ctx k free in
    let (out, e', k'') = register_all-Knows (before ++ (w ∷ [])) ws mid k' d in
    (out, rw (e, register_all) e', subst (λ xs. Knows xs out) (append_assoc before (w ∷ []) ws) k'')

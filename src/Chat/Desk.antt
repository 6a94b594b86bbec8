-- ===== src/Chat/Desk.antt =====
-- What staff do from the chat (src/control_plane/telegram_consumer.py: set_saleable, catalog_ctx,
-- toggle_catalog, create_shelf, save_plan, bot_panel, run_panel_operation, NODE_OPERATIONS,
-- node_action). The client of a server is an argument: `run` is what it answers to a call for a
-- node.
use pasarguard_control_plane.Base.{
  ℕ, String, str_eq, Bool, not, ◌&&◌, Option, some, none, List, [], ◌∷◌, ◌==◌, ltb, leb,
  if◌then◌else◌, find, update_where, permission_error, validation_error, Action, pure, gets, lift,
  modify, or_raise, raise_if, ◌>>=◌, ◌>>◌,
}
use Prim.Native.String.{count}
use pasarguard_control_plane.Rbac.{Permission}
use pasarguard_control_plane.Store.{Db, Env, audit, request}
use pasarguard_control_plane.Store.Rows.{is_active, Panel, PlanCategory, Plan, Detail}
use pasarguard_control_plane.Identity.{owns_panel}
use pasarguard_control_plane.Catalog.{
  PlanCategoryIn, PlanIn, Kind, create_plan_category, create_catalog_plan, set_catalog_status,
}
use pasarguard_control_plane.Servers.{Upstream, panel_operation}
use pasarguard_control_plane.Chat.Context.{Context, permitted, require_context, as_refusal}
use pasarguard_control_plane.Chat.Digits.{Script, int}

-- a server that the organization owns, active or not
unfoldable pub linked_panel : ℕ → ℕ → Action Db Panel
unfolding owns_panel
linked_panel panel_id organization = do
  own ← gets (owns_panel panel_id organization)
  raise_if (not own) permission_error
  gets (λ d. find (λ p. p.id == panel_id) d.panels) >>= λ p. or_raise p permission_error

unfoldable pub set_saleable : Env → ℕ → ℕ → Bool → Action Db Bool
unfolding permitted linked_panel
set_saleable env chat panel_id saleable = request (do
  ctx ← permitted env chat Permission.manage_servers
  p ← linked_panel panel_id ctx.organization.id
  modify (λ d. record d {
    panels = update_where (λ x. x.id == p.id) (λ x. record x { saleable = saleable }) d.panels;
  })
  audit "panel.saleable" "panel" (some p.id) (some ctx.actor_id) (some ctx.organization.id)
      (("saleable", Detail.flag saleable) ∷ [])
  pure saleable)

unfoldable pub catalog_ctx : Env → ℕ → Action Db Context
unfolding permitted
catalog_ctx env chat = permitted env chat Permission.manage_catalog

-- whether the row is open now, or none without a row: any seller's, the call below checks whose
unfoldable pub row_is_open : Kind → ℕ → Db → Option Bool
row_is_open Kind.category target d = elim (find (λ c. c.id == target) d.categories) [
  | none ↦ none
  | some c ↦ some (is_active c.status)
]
row_is_open Kind.plan target d = elim (find (λ p. p.id == target) d.plans) [
  | none ↦ none
  | some p ↦ some (is_active p.status)
]

-- true where the row has been opened
unfoldable pub toggle_catalog : Env → ℕ → Kind → ℕ → Action Db Bool
unfolding catalog_ctx row_is_open
toggle_catalog env chat kind target = request (do
  ctx ← catalog_ctx env chat
  open_now ← gets (row_is_open kind target) >>= λ o. or_raise o permission_error
  as_refusal (
      set_catalog_status ctx.organization.id ctx.actor_id kind target
        (if open_now then "inactive" else "active"))
  pure (not open_now))

abbrev pub fits : ℕ → ℕ → String → Bool
fits least most s = leb least (count s) && leb (count s) most

-- the bounds of the web form PlanCategoryIn
unfoldable pub category_is_valid : PlanCategoryIn → Bool
category_is_valid x = fits 2 80 x.name && leb (count x.description) 500

unfoldable pub create_shelf : Env → ℕ → PlanCategoryIn → Action Db PlanCategory
unfolding catalog_ctx category_is_valid
create_shelf env chat x = request (do
  ctx ← catalog_ctx env chat
  raise_if (not (category_is_valid x)) validation_error
  as_refusal (create_plan_category ctx.organization.id ctx.actor_id x))

abbrev pub within : ℕ → ℕ → Bool
within most n = ltb 0 n && leb n most

-- the bounds of the web form PlanIn
unfoldable pub plan_is_valid : PlanIn → Bool
plan_is_valid x =
    fits 2 120 x.name
    && leb (count x.description) 1000
    && within 10_000_000_000_000 x.price_per_gib_irr
    && within 100_000 x.daily_gib
    && within 3650 x.duration_days
    && within 100_000 x.user_count
    && leb (count x.payment_instructions) 2000

unfoldable pub save_plan : Env → ℕ → PlanIn → Action Db Plan
unfolding catalog_ctx plan_is_valid
save_plan env chat x = request (do
  ctx ← catalog_ctx env chat
  raise_if (not (plan_is_valid x)) validation_error
  as_refusal (create_catalog_plan ctx.organization.id ctx.actor_id x))

-- the caller, and an active server that its organization owns
unfoldable pub bot_panel : Env → ℕ → ℕ → Action Db (Context × Panel)
unfolding require_context linked_panel
bot_panel env chat panel_id = do
  ctx ← require_context env chat
  p ← linked_panel panel_id ctx.organization.id
  raise_if (not (is_active p.status)) permission_error
  pure (ctx, p)

-- the calls of the client for one node
pub data NodeCall : Type 0 where
  enable disable reconnect reset status : NodeCall

-- the audited action, and its name where the call fails
abbrev pub node_audit : NodeCall → String × String
node_audit NodeCall.enable = ("node.enable", "node.enable.failed")
node_audit NodeCall.disable = ("node.disable", "node.disable.failed")
node_audit NodeCall.reconnect = ("node.reconnect", "node.reconnect.failed")
node_audit NodeCall.reset = ("node.reset", "node.reset.failed")
node_audit NodeCall.status = ("node.status.read", "node.status.read.failed")

-- `NODE_OPERATIONS` and the status page, by the last part of the callback data
unfoldable pub node_call : String → Option NodeCall
node_call action =
    if str_eq action "status"
    then some NodeCall.status
    else if str_eq action "enable"
    then some NodeCall.enable
    else if str_eq action "disable"
    then some NodeCall.disable
    else if str_eq action "reconnect"
    then some NodeCall.reconnect
    else if str_eq action "reset"
    then some NodeCall.reset
    else none

unfoldable pub run_panel_operation :
    {A : Type 0}
    → Context
    → Panel
    → String × String
    → (Panel → Upstream A)
    → List (String × Detail)
    → Action Db A
run_panel_operation ctx p names run metadata =
    as_refusal
      (panel_operation p ctx.organization.id names.0 names.1 run (some ctx.actor_id) metadata)

-- No permission is asked for beyond the ownership of the server.
unfoldable pub node_action :
    Env
    → Script
    → (NodeCall → ℕ → Panel → Upstream String)
    → ℕ
    → ℕ
    → String
    → String
    → Action Db String
unfolding bot_panel run_panel_operation node_call
node_action env script run chat panel_id node_id action = do
  call ← or_raise (node_call action) permission_error
  found ← bot_panel env chat panel_id
  node ← lift (int script node_id)
  run_panel_operation found.0 found.1 (node_audit call) (run call node)
      (("node_id", Detail.num node) ∷ [])

-- ===== src/Chat/Agrees.antt =====
-- Operations of the bot against the endpoints of the web app that share their work
-- (telegram_consumer.py, web_api.py).
use pasarguard_control_plane.Base.{
  ℕ, ◌≡◌, refl, sym, ap, ◌∙◌, String, Bool, true, false, not, Option, Result, ok, err, http, ◌==◌,
  permission_error, validation_error, Action, pure, gets, or_raise, raise_if, follow, if◌then◌else◌,
  Post, Post-weaken, ◌>>=◌, ◌>>◌, inl, inr, Bool-cases, Option-cases,
}
use pasarguard_control_plane.Rbac.{Permission}
use pasarguard_control_plane.Store.{Db, Env, audit}
use pasarguard_control_plane.Store.Rows.{PanelOrder, OrderStatus}
use pasarguard_control_plane.Identity.{find_actor, order_permission}
use pasarguard_control_plane.Orders.{may_become, require_transition, locked_order, put_order}
use pasarguard_control_plane.Orders.Customer.{owned_order, advance_customer_order, customer_step}
use pasarguard_control_plane.Orders.Reads.{locked_order-Reads}
use pasarguard_control_plane.Orders.Seller.{
  OrderQuoteIn, OrderApproveIn, quote_panel_order, quote_order, approve_panel_order, approve_order,
  reject_panel_order, reject_order,
}
use pasarguard_control_plane.Catalog.{
  PlanCategoryIn, PlanIn, create_plan_category, create_catalog_plan, keeper, web_create_category,
  web_create_plan,
}
use pasarguard_control_plane.Chat.Deals.{
  seller_of, customer_order_action, reviewer_order_action, quote_is_valid, apply_quote,
}
use pasarguard_control_plane.Chat.Desk.{
  catalog_ctx, category_is_valid, create_shelf, plan_is_valid, save_plan,
}
use pasarguard_control_plane.Chat.Context.{refusal, as_refusal}
use pasarguard_control_plane.Chat.AsWeb.{IsQuery, HasOneMembership, close, request-close, as_web}

-- the decision of a reviewer in the web app
abbrev pub web_decision : Env → ℕ → ℕ → ℕ → Bool → String → OrderApproveIn → Action Db PanelOrder
web_decision env now chat order_id true reason attach = approve_order env now chat order_id attach
web_decision env now chat order_id false reason attach = reject_order env now chat order_id reason

module _ (env : Env) (query : IsQuery env) (chat : ℕ) (d : Db) (one : HasOneMembership chat d) where
  -- For somebody with at most one active membership, and a database that gives back the only row of a
  -- query that has one and nothing for a query that has none: a reviewer's decision in the chat does
  -- to the tables what the approval or the rejection of the web app does, returns the same order, and
  -- is refused exactly when the web app answers with an HTTP error; any other error leaves as it is.
  pub reviewer_order_action-as_web :
      (now order_id : ℕ) (accepts : Bool) (reason : String) (attach : OrderApproveIn)
      → reviewer_order_action env now chat order_id accepts reason attach d
        ≡ refusal (web_decision env now chat order_id accepts reason attach d)
  unfolding reviewer_order_action approve_order reject_order
  reviewer_order_action-as_web now order_id true reason attach =
      as_web env query chat d one Permission.decide_orders (λ actor organization.
        locked_order order_id OrderStatus.approved >>= λ order.
        approve_panel_order env now order actor organization attach)
  reviewer_order_action-as_web now order_id false reason attach =
      as_web env query chat d one Permission.decide_orders (λ actor organization.
        locked_order order_id OrderStatus.rejected >>= λ order.
        reject_panel_order now order actor organization reason)

  -- The same holds of a quote whose numbers the web form would take; any other is refused before
  -- anything is read.
  pub apply_quote-as_web :
      (order_id : ℕ) (x : OrderQuoteIn)
      → apply_quote env chat order_id x d ≡ (
          if quote_is_valid x
          then refusal (quote_order env chat order_id x d)
          else (err validation_error, d))
  unfolding apply_quote quote_order
  apply_quote-as_web order_id x = elim (Bool-cases (quote_is_valid x)) [
    | inl f ↦ rw f (
        as_web env query chat d one Permission.decide_orders (λ actor organization.
          locked_order order_id OrderStatus.quoted >>= λ order.
          quote_panel_order order x actor organization))
    | inr f ↦ rw f refl
  ]

  -- For somebody with at most one active membership, and a database that gives back the only row of a
  -- query that has one and nothing for a query that has none: a shelf and a plan that the chat makes
  -- of valid answers are those that the web app makes of the same forms, and the chat refuses where
  -- the web app does.
  pub catalog-as_web :
      (category : PlanCategoryIn) (plan : PlanIn)
      → category_is_valid category ≡ true
      → plan_is_valid plan ≡ true
      → (create_shelf env chat category d ≡ refusal (web_create_category env chat category d))
        × (save_plan env chat plan d ≡ refusal (web_create_plan env chat plan d))
  unfolding create_shelf save_plan web_create_category web_create_plan catalog_ctx keeper
  catalog-as_web category plan c p = (
    rw c (
        as_web env query chat d one Permission.manage_catalog
          (λ actor organization. create_plan_category organization actor category)),
    rw p (
        as_web env query chat d one Permission.manage_catalog
          (λ actor organization. create_catalog_plan organization actor plan)),
  )

abbrev pub forget : {A B : Type 0} → Result (A × B) × Db → Result A × Db
forget (ok (a, b), d) = (ok a, d)
forget (err e, d) = (err e, d)

module _ (env : Env) (chat order_id : ℕ) (to : OrderStatus) (d : Db) where
  own : PanelOrder → Action Db PanelOrder
  own order = do
    actor ← gets (λ d. find_actor chat d.actors) >>= λ a. or_raise a (http 403)
    raise_if (not (order.actor_id == actor.id)) (http 403)
    pure order

  step : PanelOrder → Action Db (PanelOrder × Option ℕ)
  step order = do
    actor ← gets (λ d. find_actor chat d.actors) >>= λ a. or_raise a permission_error
    raise_if (not (order.actor_id == actor.id)) permission_error
    seller ← gets (seller_of order.panel_id)
    moved ← advance_customer_order order to
    pure (moved, seller)

  step_own :
      (r : Result PanelOrder × Db)
      → Post (λ order _. may_become order.status to ≡ true) r
      → forget (close d (follow step (refusal r)))
        ≡ refusal (close d (follow (λ o. advance_customer_order o to) (follow own r)))
  unfolding step own advance_customer_order require_transition put_order audit
  step_own (err (http n), d') h = refl
  step_own (err _, d') h = refl
  step_own (ok order, d') h = elim (Option-cases (find_actor chat d'.actors)) [
    | inl e ↦ rw e refl
    | inr (a, e) ↦
        rw e (elim (Bool-cases (order.actor_id == a.id)) [
          | inl f ↦ rw (f, h) refl
          | inr f ↦ rw f refl
        ])
  ]

  -- A step that a requester takes in the chat does what the endpoint of the web app does, where the
  -- endpoint's own permission check passes; the seller that the chat adds to the answer changes
  -- nothing.
  pub customer_order_action-as_web :
      order_permission env chat Permission.order_panel d ≡ (ok tt, d)
      → forget (customer_order_action chat order_id to d)
        ≡ refusal (customer_step env chat order_id to d)
  unfolding customer_order_action customer_step owned_order as_refusal step own
  customer_order_action-as_web allowed =
      ap forget (request-close _ d)
      ∙ step_own (locked_order order_id to d) (
          Post-weaken _ _ (locked_order order_id to d) (locked_order-Reads d order_id to)
            (λ o s h. h.1.allowed))
      ∙ ap (λ z. refusal (close d (follow rest z))) (sym allowed)
      ∙ ap refusal (sym (request-close _ d))
    where
      rest : Unit {0} → Action Db PanelOrder
      rest _ = owned_order chat order_id to >>= λ o. advance_customer_order o to

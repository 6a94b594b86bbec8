-- ===== src/Chat/Balanced.antt =====
-- Every call of the bot on the tables keeps the ledger sound, and so does every request of the web
-- app that shares its core (telegram_consumer.py, web_api.py).
use pasarguard_control_plane.Base.{
  ℕ, refl, Option, some, none, Result, ok, err, String, List, [], ◌∷◌, ℤ, zero, suc, find,
  Option-cases, Bool-cases, inl, inr, ◌==◌,
}
use pasarguard_control_plane.Tenancy.{Organization}
use pasarguard_control_plane.Ledger.Rows.{Books, Transaction}
use pasarguard_control_plane.Ledger.Sound.{IsSound, transfer-IsSound}
use pasarguard_control_plane.Store.{Env, audit, on_books}
use pasarguard_control_plane.Store.Rows.{Detail, OrderStatus, PanelOrder, Panel, ApprovalRequest}
use pasarguard_control_plane.Rbac.{Permission}
use pasarguard_control_plane.Identity.{find_actor, create_requester, owned_panel, owns_panel}
use pasarguard_control_plane.Servers.{Upstream, record_answer}
use pasarguard_control_plane.Catalog.{
  PlanCategoryIn, PlanIn, Kind, create_plan_category, create_catalog_plan, set_catalog_status,
  catalog_shelf, catalog_plan, validated_plan,
}
use pasarguard_control_plane.Network.{insert_child, OrgIn}
use pasarguard_control_plane.Approvals.{
  adjust, apply_wallet_adjustment, as_conflict, put_approval, locked_pending_approval,
}
use pasarguard_control_plane.Orders.{
  OrderIn, create_panel_order, locked_order, put_order, saleable_panel, priced_plan,
  unique_order_slug, slug_is_free,
}
use pasarguard_control_plane.Orders.Customer.{advance_customer_order}
use pasarguard_control_plane.Orders.Seller.{
  OrderQuoteIn, OrderApproveIn, assert_order_seller, quote_panel_order, reject_panel_order,
  open_customer, bind_account, fund_order, record_approval, equip, open_account,
  approve_panel_order,
}
use pasarguard_control_plane.Chat.Context.{require_context, permitted}
use pasarguard_control_plane.Chat.Books.{Sound, same, sound_steps, on_books-Sound}

pub permitted-Sound : (env : Env) (chat : ℕ) (p : Permission) → Sound (permitted env chat p)
unfolding permitted require_context
permitted-Sound env chat p = search sound_steps

pub locked_order-Sound : (id : ℕ) (to : OrderStatus) → Sound (locked_order id to)
unfolding locked_order
locked_order-Sound id to = search sound_steps depth 10

put_order-Sound : (o : PanelOrder) → Sound (put_order o)
unfolding put_order
put_order-Sound o = same (λ d. refl)

assert_order_seller-Sound : (o : PanelOrder) (s : ℕ) → Sound (assert_order_seller o s)
unfolding assert_order_seller
assert_order_seller-Sound o s = search sound_steps depth 10

pub reject_panel_order-Sound :
    (now : ℕ) (o : PanelOrder) (r s : ℕ) (reason : String)
    → Sound (reject_panel_order now o r s reason)
unfolding reject_panel_order
reject_panel_order-Sound now o r s reason =
    search (assert_order_seller-Sound, put_order-Sound, sound_steps) depth 12

open_customer-Sound : (o : PanelOrder) (p : Organization) → Sound (open_customer o p)
unfolding open_customer
open_customer-Sound o p = search sound_steps depth 12

bind_account-Sound :
    (a : Option ℕ) (name : String) (child panel : ℕ) → Sound (bind_account a name child panel)
unfolding bind_account
bind_account-Sound none name child panel = same (λ d. refl)
bind_account-Sound (some a) name child panel = same (λ d. refl)

equip-Sound : (now : ℕ) (o : PanelOrder) (r p c : ℕ) → Sound (equip now o r p c)
unfolding equip fund_order record_approval
equip-Sound now o r p c = search (bind_account-Sound, put_order-Sound, sound_steps) depth 16

open_account-Sound :
    (env : Env) (now : ℕ) (o : PanelOrder) (r s : ℕ) → Sound (open_account env now o r s)
unfolding open_account
open_account-Sound env now o r s = search (open_customer-Sound, equip-Sound, sound_steps) depth 16

pub approve_panel_order-Sound :
    (env : Env) (now : ℕ) (o : PanelOrder) (r s : ℕ) (x : OrderApproveIn)
    → Sound (approve_panel_order env now o r s x)
unfolding approve_panel_order
approve_panel_order-Sound env now o r s x =
    search (assert_order_seller-Sound, open_account-Sound, sound_steps) depth 10

pub quote_panel_order-Sound :
    (o : PanelOrder) (x : OrderQuoteIn) (r s : ℕ) → Sound (quote_panel_order o x r s)
unfolding quote_panel_order
quote_panel_order-Sound o x r s =
    search (assert_order_seller-Sound, put_order-Sound, sound_steps) depth 12

pub advance_customer_order-Sound :
    (o : PanelOrder) (to : OrderStatus) → Sound (advance_customer_order o to)
unfolding advance_customer_order
advance_customer_order-Sound o to = search (put_order-Sound, sound_steps) depth 10

pub create_requester-Sound : (chat : ℕ) (name : String) → Sound (create_requester chat name)
unfolding create_requester
create_requester-Sound chat name = record {
  run = λ d s. elim (Option-cases (find_actor chat d.actors)) [
    | inl e ↦ rw (e, create_requester) s
    | inr (a, e) ↦ rw (e, create_requester) s
  ];
}

pub record_answer-Sound :
    {A : Type 0} (p : Panel) (organization : ℕ) (names : String × String) (actor : Option ℕ)
    (metadata : List (String × Detail)) (u : Upstream A)
    → Sound (record_answer p organization names.0 names.1 actor metadata u)
unfolding record_answer audit
record_answer-Sound p organization names actor metadata (Upstream.answered a) = same (λ d. refl)
record_answer-Sound p organization names actor metadata (Upstream.refused n) = same (λ d. refl)
record_answer-Sound p organization names actor metadata Upstream.unreachable = same (λ d. refl)

adjust-IsSound :
    (orgs : List Organization) (organization : ℕ) (amount : ℤ) (id actor : ℕ) (b : Books)
    → IsSound b
    → IsSound (as_conflict (adjust orgs organization amount id actor b)).1
unfolding adjust
adjust-IsSound orgs organization amount id actor b s = told _ (kept amount)
  where
    kept : (n : ℤ) → IsSound (adjust orgs organization n id actor b).1
    kept (ℤ.pos zero) = transfer-IsSound orgs _ _ _ _ _ _ _ _ b s
    kept (ℤ.pos (suc n)) = transfer-IsSound orgs _ _ _ _ _ _ _ _ b s
    kept (ℤ.negsuc n) = transfer-IsSound orgs _ _ _ _ _ _ _ _ b s

    told : (r : Result Transaction × Books) → IsSound r.1 → IsSound (as_conflict r).1
    told (ok t, b') h = h
    told (err e, b') h = h

pub apply_wallet_adjustment-Sound :
    (a : ApprovalRequest) (actor : ℕ) → Sound (apply_wallet_adjustment a actor)
unfolding apply_wallet_adjustment
apply_wallet_adjustment-Sound a actor = search (adjusted, sound_steps) depth 10
  where
    adjusted :
        (orgs : List Organization) (o : Organization)
        → Sound (on_books (λ b. as_conflict (adjust orgs o.id a.amount_irr a.id actor b)))
    adjusted orgs o = on_books-Sound _ (adjust-IsSound orgs o.id a.amount_irr a.id actor)

pub put_approval-Sound : (a : ApprovalRequest) → Sound (put_approval a)
unfolding put_approval
put_approval-Sound a = same (λ d. refl)

pub locked_pending_approval-Sound : (id now : ℕ) → Sound (locked_pending_approval id now)
unfolding locked_pending_approval
locked_pending_approval-Sound id now = search (put_approval-Sound, sound_steps) depth 14

saleable_panel-Sound : (id : ℕ) → Sound (saleable_panel id)
unfolding saleable_panel
saleable_panel-Sound id = record {
  run = λ d s. elim (Option-cases (find (λ p. p.id == id) d.panels)) [
    | inl e ↦ rw (e, saleable_panel) s
    | inr (p, e) ↦ rw (e, saleable_panel) s
  ];
}

priced_plan-Sound : (p : Panel) (id : Option ℕ) → Sound (priced_plan p id)
unfolding priced_plan
priced_plan-Sound p none = same (λ d. refl)
priced_plan-Sound p (some id) = record {
  run = λ d s. elim (Option-cases (find (λ x. x.id == id) d.plans)) [
    | inl e ↦ rw (e, priced_plan) s
    | inr (x, e) ↦ rw (e, priced_plan) s
  ];
}

unique_order_slug-Sound : (draws : List String) → Sound (unique_order_slug draws)
unfolding unique_order_slug
unique_order_slug-Sound [] = same (λ d. refl)
unique_order_slug-Sound (slug ∷ draws) = record {
  run = λ d s. elim (Bool-cases (slug_is_free slug d)) [
    | inl e ↦ rw (e, unique_order_slug) s
    | inr e ↦ rw (e, unique_order_slug) ((unique_order_slug-Sound draws).run d s)
  ];
}

pub create_panel_order-Sound :
    (chat : ℕ) (name via : String) (draws : List String) (x : OrderIn)
    → Sound (create_panel_order chat name via draws x)
unfolding create_panel_order
create_panel_order-Sound chat name via draws x =
    search
      (
        saleable_panel-Sound, priced_plan-Sound, unique_order_slug-Sound, create_requester-Sound,
        sound_steps,
      )
      depth 16

owned_panel-Sound : (id organization : ℕ) → Sound (owned_panel id organization)
unfolding owned_panel
owned_panel-Sound id organization = record {
  run = λ d s. elim (Bool-cases (owns_panel id organization d)) [
    | inl e ↦ elim (Option-cases (find (λ p. p.id == id) d.panels)) [
      | inl f ↦ rw (e, f, owned_panel) s
      | inr (p, f) ↦ rw (e, f, owned_panel) s
    ]
    | inr e ↦ rw (e, owned_panel) s
  ];
}

validated_plan-Sound : (x : PlanIn) (organization : ℕ) → Sound (validated_plan x organization)
unfolding validated_plan catalog_shelf
validated_plan-Sound x organization = elim (Option-cases x.category_id) [
  | inl e ↦ rw (e, validated_plan) (search (owned_panel-Sound, sound_steps) depth 12)
  | inr (c, e) ↦ rw (e, validated_plan) (search (owned_panel-Sound, sound_steps) depth 14)
]

-- the rest of a shelf's or a plan's operations
pub set_catalog_status-Sound :
    (organization actor : ℕ) (kind : Kind) (target : ℕ) (status : String)
    → Sound (set_catalog_status organization actor kind target status)
unfolding set_catalog_status catalog_shelf catalog_plan
set_catalog_status-Sound organization actor Kind.category target status =
    search sound_steps depth 16
set_catalog_status-Sound organization actor Kind.plan target status = search sound_steps depth 16

pub create_plan_category-Sound :
    (organization actor : ℕ) (x : PlanCategoryIn)
    → Sound (create_plan_category organization actor x)
unfolding create_plan_category
create_plan_category-Sound organization actor x = search sound_steps depth 16

pub create_catalog_plan-Sound :
    (organization actor : ℕ) (x : PlanIn) → Sound (create_catalog_plan organization actor x)
unfolding create_catalog_plan
create_catalog_plan-Sound organization actor x = search (validated_plan-Sound, sound_steps) depth 16

pub insert_child-Sound : (x : OrgIn) (parent price : ℕ) → Sound (insert_child x parent price)
unfolding insert_child
insert_child-Sound x parent price = search sound_steps depth 12

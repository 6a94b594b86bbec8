-- ===== src/Orders/Seller.antt =====
-- The steps of an order that the owner of its server takes (web_api.py: assert_order_seller,
-- quote_panel_order, reject_panel_order, approve_panel_order and their endpoints). `now` is the
-- time of the request.
use pasarguard_control_plane.Base.{
  attribute_error, ℕ, ◌+◌, String, str_eq, false, Option, some, none, List, [], ◌∷◌, ◌++◌ as append,
  ◌==◌, if◌then◌else◌, find, any, is_some, http, ok, err, Action, pure, gets, lift, or_raise,
  raise_if, modify, ◌>>=◌, ◌>>◌,
}
use pasarguard_control_plane.Rbac.{Permission}
use pasarguard_control_plane.Tenancy.{
  Organization, OrgStatus, get_org, assert_depth_allowed, add_child,
}
use pasarguard_control_plane.Ledger.{account, transfer}
use pasarguard_control_plane.Ledger.Rows.{Owner, Key, Kind}
use pasarguard_control_plane.Outbox.Rows.{Topic, Payload}
use pasarguard_control_plane.Store.{Db, Env, uid, audit, on_books, on_outbox, request}
use pasarguard_control_plane.Store.Rows.{Status, OrderStatus, PanelOrder, Detail}
use pasarguard_control_plane.Identity.{manager, owns_panel}
use pasarguard_control_plane.Orders.{require_transition, locked_order, put_order}
use pasarguard_control_plane.Orders.Names.{attach_account, show}
use Prim.Native.String.{◌++◌}

pub record OrderQuoteIn : Type 0 where
  pub amount_irr : ℕ
  pub credit_limit_irr : ℕ
  pub price_per_gib_irr : ℕ
  pub payment_instructions : String
  pub pg_admin_id : Option ℕ

pub record OrderApproveIn : Type 0 where
  pub pg_admin_id : Option ℕ
  pub admin_username : Option String

unfoldable pub assert_order_seller : PanelOrder → ℕ → Action Db (Unit {0})
unfolding owns_panel
assert_order_seller order organization d =
    (if owns_panel order.panel_id organization d then ok tt else err (http 403), d)

-- the terms that a quote sets
unfoldable pub quoted_order : OrderQuoteIn → PanelOrder → PanelOrder
quoted_order x order = record order {
  credit_limit_irr = x.credit_limit_irr;
  price_per_gib_irr = x.price_per_gib_irr;
  amount_irr = x.amount_irr;
  payment_instructions = x.payment_instructions;
  admin_username =
      if str_eq order.admin_username "" then "admin-" ++ order.slug else order.admin_username;
  pg_admin_id = x.pg_admin_id;
  status = OrderStatus.quoted;
}

abbrev pub detail_of : Option ℕ → Detail
detail_of none = Detail.null
detail_of (some n) = Detail.num n

abbrev pub quote_details : OrderQuoteIn → List (String × Detail)
quote_details x =
    ("amount_irr", Detail.num x.amount_irr)
    ∷ ("credit_limit_irr", Detail.num x.credit_limit_irr)
    ∷ ("price_per_gib_irr", Detail.num x.price_per_gib_irr)
    ∷ ("pg_admin_id", detail_of x.pg_admin_id)
    ∷ []

unfoldable pub quote_panel_order : PanelOrder → OrderQuoteIn → ℕ → ℕ → Action Db PanelOrder
unfolding quoted_order
quote_panel_order order x reviewer organization = do
  assert_order_seller order organization
  lift (require_transition order OrderStatus.quoted)
  put_order (quoted_order x order)
  audit "panel_order.quote" "panel_order" (some order.id) (some reviewer) (some organization)
      (quote_details x)
  pure (quoted_order x order)

unfoldable pub quote_order : Env → ℕ → ℕ → OrderQuoteIn → Action Db PanelOrder
unfolding quote_panel_order
quote_order env telegram_id order_id x = request (do
  caller ← manager env telegram_id Permission.decide_orders
  order ← locked_order order_id OrderStatus.quoted
  quote_panel_order order x caller.actor.id caller.organization.id)

unfoldable pub rejected_order : ℕ → ℕ → String → PanelOrder → PanelOrder
rejected_order now reviewer reason order = record order {
  status = OrderStatus.rejected;
  rejection_reason = reason;
  decided_by = some reviewer;
  decided_at = some now;
}

unfoldable pub reject_panel_order : ℕ → PanelOrder → ℕ → ℕ → String → Action Db PanelOrder
unfolding rejected_order
reject_panel_order now order reviewer organization reason = do
  assert_order_seller order organization
  lift (require_transition order OrderStatus.rejected)
  put_order (rejected_order now reviewer reason order)
  audit "panel_order.reject" "panel_order" (some order.id) (some reviewer) (some organization)
      (("reason", Detail.text reason) ∷ [])
  pure (rejected_order now reviewer reason order)

unfoldable pub reject_order : Env → ℕ → ℕ → ℕ → String → Action Db PanelOrder
unfolding reject_panel_order
reject_order env now telegram_id order_id reason = request (do
  caller ← manager env telegram_id Permission.decide_orders
  order ← locked_order order_id OrderStatus.rejected
  reject_panel_order now order caller.actor.id caller.organization.id reason)

-- the organization that a paid order becomes
unfoldable pub customer_org : ℕ → ℕ → PanelOrder → Organization
customer_org id parent order = record {
  id = id;
  parent_id = some parent;
  name = order.business_name;
  slug = order.slug;
  status = OrgStatus.active;
  credit_limit_irr = order.credit_limit_irr;
  max_depth = 5;
}

-- the contract, the wallet and the membership of a new customer
unfoldable pub open_customer : PanelOrder → Organization → Action Db ℕ
unfolding customer_org add_child
open_customer order parent = do
  id ← uid
  modify (λ d. record d {
    tenants =
        add_child (customer_org id parent.id order) parent.id order.price_per_gib_irr d.tenants;
  })
  on_books (account (Owner.org id))
  modify (λ d. record d {
    memberships = append d.memberships (
        record {
          organization_id = id;
          actor_id = order.actor_id;
          role = "customer";
          status = Status.active;
        }
        ∷ []);
  })
  pure id

-- the panel account becomes the binding of the new organization
unfoldable pub bind_account : Option ℕ → String → ℕ → ℕ → Action Db (Unit {0})
unfolding show
bind_account none username child panel d = (ok tt, d)
bind_account (some pg_admin_id) username child panel d = (
  ok tt,
  record d {
    next_id = d.next_id + 1;
    bindings =
        record {
          id = d.next_id;
          organization_id = child;
          panel_id = panel;
          pg_admin_id = pg_admin_id;
          username = if str_eq username "" then show pg_admin_id else username;
          status = Status.active;
        }
        ∷ d.bindings;
  },
)

unfoldable pub approved_order : ℕ → ℕ → ℕ → PanelOrder → PanelOrder
approved_order now reviewer child order = record order {
  status = OrderStatus.approved;
  organization_id = some child;
  decided_by = some reviewer;
  decided_at = some now;
}

-- the funding of a new customer's wallet
unfoldable pub fund_order : PanelOrder → ℕ → ℕ → Action Db (Unit {0})
fund_order order child reviewer = do
  orgs ← gets (λ d. d.tenants.organizations)
  on_books (
      transfer orgs Owner.system (Owner.org child) order.amount_irr (Key.panel_order order.id)
        Kind.order_funded (some order.id) false (some reviewer))
  pure tt

-- the order closed, its audit row and its event
unfoldable pub record_approval : ℕ → PanelOrder → ℕ → ℕ → ℕ → Action Db PanelOrder
unfolding approved_order
record_approval now order reviewer child panel = do
  put_order (approved_order now reviewer child order)
  audit "panel_order.approve" "panel_order" (some order.id) (some reviewer) (some child) (
      ("amount_irr", Detail.num order.amount_irr)
      ∷ ("credit_limit_irr", Detail.num order.credit_limit_irr)
      ∷ ("price_per_gib_irr", Detail.num order.price_per_gib_irr)
      ∷ ("panel_id", Detail.num panel)
      ∷ ("slug", Detail.text order.slug)
      ∷ ("bound", Detail.flag (is_some order.pg_admin_id))
      ∷ [])
  on_outbox now Topic.panel_order_approved order.id (Payload.order child order.actor_id)
  pure (approved_order now reviewer child order)

-- what makes the customer, once its organization is in the tree
unfoldable pub equip : ℕ → PanelOrder → ℕ → ℕ → ℕ → Action Db PanelOrder
unfolding bind_account fund_order record_approval
equip now order reviewer panel child = do
  bind_account order.pg_admin_id order.admin_username child panel
  fund_order order child reviewer
  record_approval now order reviewer child panel

-- The guards on the place in the tree and the slug, and the account. A seller or a server without a
-- row would be None in the source, and the access to its id raises an AttributeError: the foreign
-- keys rule both out.
unfoldable pub open_account : Env → ℕ → PanelOrder → ℕ → ℕ → Action Db PanelOrder
unfolding open_customer equip
open_account env now order reviewer seller = do
  panel ←
      gets (λ d. find (λ p. p.id == order.panel_id) d.panels) >>= λ p. or_raise p attribute_error
  parent ← gets (λ d. get_org seller d.tenants.organizations) >>= λ o. or_raise o attribute_error
  (λ d. (assert_depth_allowed env.max_tree_depth d.tenants parent, d))
  (λ d. raise_if (any (λ o. str_eq o.slug order.slug) d.tenants.organizations) (http 409) d)
  child ← open_customer order parent
  equip now order reviewer panel.id child

-- A paid order turned into an organization with a contract, a funded wallet and access.
unfoldable pub approve_panel_order :
    Env → ℕ → PanelOrder → ℕ → ℕ → OrderApproveIn → Action Db PanelOrder
unfolding attach_account assert_order_seller open_account
approve_panel_order env now order reviewer seller attach = do
  assert_order_seller order seller
  lift (require_transition order OrderStatus.approved)
  open_account env now
      (attach_account attach.pg_admin_id order.pg_admin_id attach.admin_username order) reviewer
      seller

unfoldable pub approve_order : Env → ℕ → ℕ → ℕ → OrderApproveIn → Action Db PanelOrder
unfolding approve_panel_order
approve_order env now telegram_id order_id x = request (do
  caller ← manager env telegram_id Permission.decide_orders
  order ← locked_order order_id OrderStatus.approved
  approve_panel_order env now order caller.actor.id caller.organization.id x)

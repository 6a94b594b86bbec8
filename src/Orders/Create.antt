-- ===== src/Orders/Create.antt =====
-- What the registration of an order does when it returns (web_api.py: create_panel_order,
-- create_order).
use pasarguard_control_plane.Base.{
  take, str_eq, if◌then◌else◌, ℕ, String, ◌≡◌, refl, ap, true, ◌&&◌, Option, some, none, List, [],
  ◌∷◌, ◌++◌, ◌==◌, inl, inr, find, find-passes, ==_refl, Action, Post, Reads, Post-follow,
  Reads-follow, pure, Bool-cases, Option-cases, ◌>>=◌, ◌>>◌, modify,
}
use pasarguard_control_plane.Rbac.{Permission}
use pasarguard_control_plane.Store.{Db, Env, uid, audit}
use pasarguard_control_plane.Store.Rows.{is_active, Panel, Plan, PanelOrder, Actor}
use pasarguard_control_plane.Identity.{Identity, order_permission, find_actor, create_requester}
use pasarguard_control_plane.Orders.{
  on_open_shelf, priced_plan, OrderIn, blank_order, apply_plan, saleable_panel, slug_is_free,
  unique_order_slug, order_details, create_panel_order, create_order,
}
use pasarguard_control_plane.Orders.Reads.{order_permission-Reads}
use pasarguard_control_plane.Orders.Moves.{request-Post}

-- no plan, or one that is on sale on the server
pub data IsOffer (d : Db) (panel : Panel) : Option ℕ → Option Plan → Type 0 where
  by_hand : IsOffer d panel none none
  listed :
      {plan_id : ℕ} {plan : Plan}
      → find (λ p. p.id == plan_id) d.plans ≡ some plan
      → (is_active plan.status && plan.panel_id == panel.id && on_open_shelf plan d) ≡ true
      → IsOffer d panel (some plan_id) (some plan)

abbrev pub IsOnSale : Db → ℕ → Panel → Type 0
IsOnSale d panel_id panel =
    (find (λ p. p.id == panel_id) d.panels ≡ some panel)
    × ((is_active panel.status && panel.saleable) ≡ true)

-- the tables that a registration leaves to its last step
record SameRows (d d' : Db) : Type 0 where
  orders : d'.orders ≡ d.orders
  books : d'.books ≡ d.books
  tenants : d'.tenants ≡ d.tenants

module _ (d : Db) where
  saleable_panel-Reads : (panel_id : ℕ) → Reads d (IsOnSale d panel_id) (saleable_panel panel_id d)
  unfolding saleable_panel
  saleable_panel-Reads panel_id = elim (Option-cases (find (λ p. p.id == panel_id) d.panels)) [
    | inl e ↦ rw (e, saleable_panel) tt
    | inr (p, e) ↦
        rw (e, saleable_panel)
          (elim (Bool-cases (is_active p.status && p.saleable)) [
            | inl f ↦ rw f (refl, (refl, f))
            | inr f ↦ rw f tt
          ])
  ]

  priced_plan-Reads :
      (panel : Panel) (plan_id : Option ℕ)
      → Reads d (IsOffer d panel plan_id) (priced_plan panel plan_id d)
  unfolding priced_plan
  priced_plan-Reads panel none = (refl, by_hand)
  priced_plan-Reads panel (some plan_id) =
      elim (Option-cases (find (λ p. p.id == plan_id) d.plans)) [
        | inl e ↦ rw (e, priced_plan) tt
        | inr (p, e) ↦
            rw (e, priced_plan)
              (elim (Bool-cases
                (is_active p.status && p.panel_id == panel.id && on_open_shelf p d)) [
                  | inl f ↦ rw f (refl, listed e f)
                  | inr f ↦ rw f tt
                ])
      ]

  create_requester-Post :
      (telegram_id : ℕ) (name : String)
      → Post
          (λ a d'. ((a.telegram_id == telegram_id) ≡ true) × SameRows d d')
          (create_requester telegram_id name d)
  unfolding create_requester find_actor
  create_requester-Post telegram_id name = elim (Option-cases (find_actor telegram_id d.actors)) [
    | inl e ↦
        rw (e, create_requester)
          (==_refl telegram_id, record { orders = refl; books = refl; tenants = refl })
    | inr (a, e) ↦
        rw (e, create_requester)
          (
            find-passes (λ a. a.telegram_id == telegram_id) d.actors a e,
            record { orders = refl; books = refl; tenants = refl },
          )
  ]

  unique_order_slug-Reads :
      (draws : List String)
      → Reads d (λ slug. slug_is_free slug d ≡ true) (unique_order_slug draws d)
  unfolding unique_order_slug
  unique_order_slug-Reads [] = tt
  unique_order_slug-Reads (slug ∷ draws) = elim (Bool-cases (slug_is_free slug d)) [
    | inl e ↦ rw (e, unique_order_slug) (refl, e)
    | inr e ↦ rw (e, unique_order_slug) (unique_order_slug-Reads draws)
  ]

-- A new order of the caller's, behind the others: its terms are those of the plan, if it names
-- one, and of the form otherwise. Nothing is paid.
pub record Created (telegram_id : ℕ) (x : OrderIn) (d : Db) (order : PanelOrder) (d' : Db)
    : Type 0 where
  pub panel : Panel
  pub on_sale : IsOnSale d x.panel_id panel
  pub plan : Option Plan
  pub offer : IsOffer d panel x.plan_id plan
  pub actor : Actor
  pub requester : (actor.telegram_id == telegram_id) ≡ true
  pub id : ℕ
  pub slug : String
  pub terms : order ≡ apply_plan plan (blank_order id actor.id panel.id slug x)
  pub orders : d'.orders ≡ d.orders ++ order ∷ []
  pub books : d'.books ≡ d.books
  pub tenants : d'.tenants ≡ d.tenants

module _ (telegram_id : ℕ) (display_name via : String) (draws : List String) (x : OrderIn)
    (d : Db) where
  abbrev Done : PanelOrder → Db → Type 0
  Done = Created telegram_id x d

  abbrev write : Panel → Option Plan → Actor → String → ℕ → Action Db PanelOrder
  write panel plan actor slug id =
      let order = apply_plan plan (blank_order id actor.id panel.id slug x) in
      modify (λ d. record d { orders = d.orders ++ order ∷ [] })
      >> (audit "panel_order.create" "panel_order" none (some actor.id) none
            (order_details via panel order)
          >> pure order)

  abbrev shown : String
  shown = if str_eq x.business_name "" then display_name else x.business_name

  create_panel_order-Created : Post Done (create_panel_order telegram_id display_name via draws x d)
  unfolding create_panel_order uid audit
  create_panel_order-Created =
      let number : Panel → Option Plan → Actor → String → Action Db PanelOrder =
        λ p plan a slug. uid >>= write p plan a slug in
      let name : Panel → Option Plan → Actor → Action Db PanelOrder =
        λ p plan a. unique_order_slug (take 20 draws) >>= number p plan a in
      let who : Panel → Option Plan → Action Db PanelOrder =
        λ p plan. create_requester telegram_id shown >>= name p plan in
      let price : Panel → Action Db PanelOrder = λ p. priced_plan p x.plan_id >>= who p in
      Reads-follow price d (IsOnSale d x.panel_id) Done (saleable_panel x.panel_id d)
        (saleable_panel-Reads d x.panel_id)
        (λ p on_sale.
          Reads-follow (who p) d (IsOffer d p x.plan_id) Done (priced_plan p x.plan_id d)
            (priced_plan-Reads d p x.plan_id)
            (λ plan offer.
              Post-follow (name p plan)
                (λ a d'. ((a.telegram_id == telegram_id) ≡ true) × SameRows d d') Done
                (create_requester telegram_id shown d) (create_requester-Post d telegram_id shown)
                (λ a d1 (requester, same).
                  Reads-follow (number p plan a) d1 (λ slug. slug_is_free slug d1 ≡ true) Done
                    (unique_order_slug (take 20 draws) d1)
                    (unique_order_slug-Reads d1 (take 20 draws))
                    (λ slug _. record {
                      panel = p;
                      on_sale = on_sale;
                      plan = plan;
                      offer = offer;
                      actor = a;
                      requester = requester;
                      id = d1.next_id;
                      slug = slug;
                      terms = refl;
                      orders =
                          ap
                            (λ z.
                              z ++ apply_plan plan (blank_order d1.next_id a.id p.id slug x) ∷ [])
                            same.orders;
                      books = same.books;
                      tenants = same.tenants;
                    }))))

pub create_order-Created :
    (env : Env) (identity : Identity) (draws : List String) (x : OrderIn) (d : Db)
    → Post (Created identity.user_id x d) (create_order env identity draws x d)
unfolding create_order
create_order-Created env identity draws x d =
    let Q : PanelOrder → Db → Type 0 = Created identity.user_id x d in
    let register : Action Db PanelOrder =
      create_panel_order identity.user_id identity.first_name "webapp" draws x in
    request-Post Q (order_permission env identity.user_id Permission.order_panel >> register) d (
      Reads-follow (λ _. register) d (λ _. Unit {0}) Q
        (order_permission env identity.user_id Permission.order_panel d)
        (order_permission-Reads d env identity.user_id Permission.order_panel)
        (λ _ _. create_panel_order-Created identity.user_id identity.first_name "webapp" draws x d))

-- ===== src/Orders/Reads.antt =====
-- What the guards of the order handlers establish: each of them only reads.
use pasarguard_control_plane.Base.{
  ℕ, ◌≡◌, refl, true, false, not, Option, some, find, ◌==◌, Action, pure, raise_if, ◌>>=◌, ◌>>◌,
  gets, or_raise, Error, arith, inl, inr, http, lift, Bool-cases, Option-cases, Reads, Post-weaken,
  Reads-follow, lift_if_Reads, or_raise-Reads, raise_if-Reads,
}
use pasarguard_control_plane.Tenancy.{get_org}
use pasarguard_control_plane.Rbac.{Permission, may}
use pasarguard_control_plane.Store.{Db, Env}
use pasarguard_control_plane.Store.Rows.{OrderStatus, PanelOrder, Actor}
use pasarguard_control_plane.Identity.{
  Caller, active_actor, pick_membership, membership_for, role_of, manager, linked_role,
  order_permission, find_actor, owns_panel,
}
use pasarguard_control_plane.Orders.{may_become, require_transition, locked_order}
use pasarguard_control_plane.Orders.Customer.{owned_order}
use pasarguard_control_plane.Orders.Seller.{assert_order_seller}

-- the row of an order, and that it may become `to`
pub record IsLocked (d : Db) (order_id : ℕ) (to : OrderStatus) (order : PanelOrder) : Type 0 where
  pub found : find (λ o. o.id == order_id) d.orders ≡ some order
  pub allowed : may_become order.status to ≡ true

-- the caller is the requester of the order
abbrev pub IsRequester : ℕ → Db → PanelOrder → Type 0
IsRequester telegram_id d order =
    (a : Actor) × (find_actor telegram_id d.actors ≡ some a) × ((order.actor_id == a.id) ≡ true)

module _ (d : Db) where
  pub require_transition-Reads :
      (order : PanelOrder) (to : OrderStatus)
      → Reads d (λ _. may_become order.status to ≡ true) (lift (require_transition order to) d)
  unfolding require_transition
  require_transition-Reads order to = lift_if_Reads d (http 409) (may_become order.status to)

  pub locked_order-Reads :
      (order_id : ℕ) (to : OrderStatus)
      → Reads d (IsLocked d order_id to) (locked_order order_id to d)
  unfolding locked_order
  locked_order-Reads order_id to =
      let R : PanelOrder → Type 0 = λ o. find (λ x. x.id == order_id) d.orders ≡ some o in
      let Q : PanelOrder → Db → Type 0 = λ o s. (s ≡ d) × IsLocked d order_id to o in
      Reads-follow (λ o. lift (require_transition o to) >> pure o) d R Q _
        (or_raise-Reads d (http 404) _)
        (λ o found.
          Reads-follow (λ _. pure o) d (λ _. may_become o.status to ≡ true) Q _
            (require_transition-Reads o to)
            (λ _ allowed. (refl, record { found = found; allowed = allowed })))

  pub owned_order-Reads :
      (telegram_id order_id : ℕ) (to : OrderStatus)
      → Reads d
          (λ o. IsLocked d order_id to o × IsRequester telegram_id d o)
          (owned_order telegram_id order_id to d)
  unfolding owned_order
  owned_order-Reads telegram_id order_id to =
      let Q : PanelOrder → Db → Type 0 =
        λ o s. (s ≡ d) × (IsLocked d order_id to o × IsRequester telegram_id d o) in
      let check : PanelOrder → Actor → Action Db PanelOrder =
        λ o a. raise_if (not (o.actor_id == a.id)) (http 403) >> pure o in
      let look : Action Db Actor =
        gets (λ d. find_actor telegram_id d.actors) >>= λ a. or_raise a (http 403) in
      Reads-follow (λ o. look >>= check o) d (IsLocked d order_id to) Q (locked_order order_id to d)
        (locked_order-Reads order_id to)
        (λ o locked.
          Reads-follow (check o) d (λ a. find_actor telegram_id d.actors ≡ some a) Q (look d)
            (or_raise-Reads d (http 403) _)
            (λ a known.
              Reads-follow (λ _. pure o) d (λ _. not (o.actor_id == a.id) ≡ false) Q _
                (raise_if-Reads d (http 403) _)
                (λ _ same. (refl, (locked, (a, known, ground (arith, same)))))))

  pub order_permission-Reads :
      (env : Env) (telegram_id : ℕ) (p : Permission)
      → Reads d (λ _. Unit {0}) (order_permission env telegram_id p d)
  unfolding order_permission
  order_permission-Reads env telegram_id p = elim (Option-cases (linked_role env telegram_id d)) [
    | inl e ↦ rw (e, order_permission) (refl, tt)
    | inr (r, e) ↦
        rw (e, order_permission)
          (elim (Bool-cases (may r p)) [ inl f ↦ rw f (refl, tt) | inr f ↦ rw f tt ])
  ]

  Reads-any : {A : Type 0} (e : Error) (o : Option A) → Reads d (λ _. Unit {0}) (or_raise o e d)
  Reads-any e o = Post-weaken _ _ (or_raise o e d) (or_raise-Reads d e o) (λ a s h. (h.0, tt))

  pub membership_for-Reads :
      (env : Env) (telegram_id : ℕ) → Reads d (λ _. Unit {0}) (membership_for env telegram_id d)
  unfolding membership_for
  membership_for-Reads env telegram_id = elim (Option-cases (active_actor telegram_id d.actors)) [
    | inl e ↦ rw (e, membership_for) tt
    | inr (a, e) ↦
        rw (e, membership_for)
          (elim (Option-cases (pick_membership env a.id telegram_id d)) [
            | inl f ↦ rw f tt
            | inr (m, f) ↦
                rw f (elim (Option-cases (get_org m.organization_id d.tenants.organizations)) [
                  | inl g ↦ rw g tt
                  | inr (o, g) ↦ rw g (refl, tt)
                ])
          ])
  ]

  -- the caller has the permission by the role of its membership
  pub manager-Reads :
      (env : Env) (telegram_id : ℕ) (p : Permission)
      → Reads d
          (λ c. may (role_of env telegram_id c.membership) p ≡ true)
          (manager env telegram_id p d)
  unfolding manager
  manager-Reads env telegram_id p =
      let Q : Caller → Db → Type 0 =
        λ c s. (s ≡ d) × (may (role_of env telegram_id c.membership) p ≡ true) in
      let check : Caller → Action Db Caller =
        λ c. raise_if (not (may (role_of env telegram_id c.membership) p)) (http 403) >> pure c in
      Reads-follow check d (λ _. Unit {0}) Q (membership_for env telegram_id d)
        (membership_for-Reads env telegram_id)
        (λ c _.
          Reads-follow (λ _. pure c) d
            (λ _. not (may (role_of env telegram_id c.membership) p) ≡ false) Q _
            (raise_if-Reads d (http 403) _) (λ _ e. (refl, ground (arith, e))))

  pub assert_order_seller-Reads :
      (order : PanelOrder) (organization : ℕ)
      → Reads d
          (λ _. owns_panel order.panel_id organization d ≡ true)
          (assert_order_seller order organization d)
  unfolding assert_order_seller
  assert_order_seller-Reads order organization =
      lift_if_Reads d (http 403) (owns_panel order.panel_id organization d)

-- ===== src/Tests/Kernel.antt =====
-- Runs of the ledger, the pricing, the tree and the roles.
use pasarguard_control_plane.Base.{
  ℕ, zero, suc, ◌+◌, ◌*◌, ◌≤◌, ◌<◌, ◌≡◌, ◌≢◌, ◌⊎◌, refl, inl, true, false, Option, some, none, List,
  [], ◌∷◌, arith, map, any, str_eq, String, ok, pos, negsuc, int_laws, ◌↔◌,
}
use pasarguard_control_plane.Tenancy.{add_child, edges}
use pasarguard_control_plane.Tenancy.Tree.{IsTree, has_row, is_id, ancestor_at, add_child-IsTree}
use pasarguard_control_plane.Tenancy.Walk.{IsChain, edges-IsChain}
use pasarguard_control_plane.Domain.{price_usage, Edge, cascade}
use pasarguard_control_plane.Domain.Pricing.{price, price_nearest, settled, cascade_rows}
use pasarguard_control_plane.Ledger.{transfer}
use pasarguard_control_plane.Ledger.Rows.{Owner, Key, Kind, Books, Transaction}
use pasarguard_control_plane.Ledger.Sound.{IsSound, transfer-IsSound}
use pasarguard_control_plane.Ledger.Replay.{Call, run_call, after_calls, transfer-replay}
use pasarguard_control_plane.Ledger.Credit.{IsSolvent, Ended, transfer-Ended, transfer-IsSolvent}
use pasarguard_control_plane.Rbac.{
  Role, role_name, effective_role, Permission, may, assignable_roles,
}
use pasarguard_control_plane.Rbac.Access.{effective_role-system_admin, root_only}
use pasarguard_control_plane.Approvals.{adjust}
use pasarguard_control_plane.Approvals.Adjust.{adjust-IsSolvent}
use pasarguard_control_plane.Tests.Data.{reseller, network, tenants, lone_tenants, no_books, env}

pub no_books-IsSound : IsSound no_books
no_books-IsSound = record { distinct = tt; balanced = λ o. refl; zero_sum = refl }

pub no_books-IsSolvent : IsSolvent network no_books
no_books-IsSolvent o x found = omega int_laws

abbrev north : Owner
north = Owner.org 2

abbrev shop : Owner
shop = Owner.org 3

-- the reseller buys what its credit allows, and no more
transfer-IsSound_example :
    IsSound
      (transfer network north
        (Owner.org 1)
        400
        (Key.client "a")
        Kind.usage
        none
        true
        none
        no_books).1
transfer-IsSound_example =
    transfer-IsSound network north (Owner.org 1) 400 (Key.client "a") Kind.usage none true none
      no_books no_books-IsSound

transfer-Ended_example :
    Ended network north
      (Owner.org 1)
      600
      (Key.client "a")
      Kind.usage
      none
      true
      none
      no_books
      (transfer network north (Owner.org 1) 600 (Key.client "a") Kind.usage none true none no_books)
transfer-Ended_example =
    transfer-Ended network north (Owner.org 1) 600 (Key.client "a") Kind.usage none true none
      no_books

transfer-IsSolvent_example :
    IsSolvent network
      (transfer network north
        (Owner.org 1)
        400
        (Key.client "a")
        Kind.usage
        none
        true
        none
        no_books).1
transfer-IsSolvent_example =
    transfer-IsSolvent network north (Owner.org 1) 400 (Key.client "a") Kind.usage none true none
      no_books (inl refl) no_books-IsSolvent

abbrev gift : Transaction
gift = record {
  id = 1;
  idempotency_key = Key.client "g";
  kind = Kind.fund;
  reference = none;
  actor_id = none;
}

abbrev after_gift : Books
after_gift =
    (transfer network Owner.system north 500 (Key.client "g") Kind.fund none false none no_books).1

gift_posts :
    transfer network Owner.system north 500 (Key.client "g") Kind.fund none false none no_books
    ≡ (ok gift, after_gift)
unfolding transfer
gift_posts = refl

abbrev first_gift : Call
first_gift = record {
  orgs = network;
  source = Owner.system;
  target = north;
  amount = 500;
  key = Key.client "g";
  kind = Kind.fund;
  ref = none;
  enforce = false;
  actor = none;
}

-- another posting, under a key of its own
abbrev other_gift : Call
other_gift = record first_gift { key = Key.client "h" }

-- the first key once more, from and to others
abbrev repeated : Call
repeated = record first_gift { source = north; target = shop; amount = 9; kind = Kind.usage }

transfer-replay_example :
    run_call repeated (after_calls (other_gift ∷ []) after_gift)
    ≡ (ok gift, after_calls (other_gift ∷ []) after_gift)
transfer-replay_example =
    transfer-replay first_gift repeated (other_gift ∷ []) no_books gift_posts refl (ground arith)

adjust-IsSolvent_example :
    let b' = (adjust network 2 (negsuc 299) 70 50 no_books).1 in IsSound b' × IsSolvent network b'
adjust-IsSolvent_example =
    adjust-IsSolvent network 2 70 50 no_books (negsuc 299) no_books-IsSound no_books-IsSolvent

price_nearest_example :
    (price_usage (pos 536870912) (pos 1001) (pos 10000) ≡ ok (price 536870912 1001 10000))
    × (price 536870912 1001 10000 * (2 * 10737418240000)
        ≤ 2 * (536870912 * 1001 * 10000) + 10737418240000)
    × (2 * (536870912 * 1001 * 10000)
        < price 536870912 1001 10000 * (2 * 10737418240000) + 10737418240000)
price_nearest_example = price_nearest 536870912 1001 10000

abbrev route : List Edge
route =
    record { child_id = 3; parent_id = 2; rate_irr = 1500 }
    ∷ record { child_id = 2; parent_id = 1; rate_irr = 1000 }
    ∷ []

cascade_rows_example :
    (0 < 1073741824
      → cascade (pos 1073741824) route (pos 10000) ≡ ok (map (settled 1073741824 10000) route))
    × (cascade (pos 0) route (pos 10000) ≡ ok [])
cascade_rows_example = cascade_rows 1073741824 10000 route

edges-IsChain_example :
    (edges tenants 3 ≢ none)
    × ((es : List Edge) → edges tenants 3 ≡ some (ok es) → IsChain tenants 3 es)
edges-IsChain_example = edges-IsChain tenants 3

pub lone_tenants-IsTree : IsTree lone_tenants
lone_tenants-IsTree = record { parents = λ o p x found up. ground arith; rows = all_rows }
  where
    all_rows :
        (a d k : ℕ)
        → has_row a d k lone_tenants.closure ≡ is_id (ancestor_at k lone_tenants.organizations d) a
    all_rows a d zero = ground arith
    all_rows a d (suc k) = ground arith

add_child-IsTree_example : IsTree (add_child reseller 1 1000 lone_tenants)
add_child-IsTree_example =
    add_child-IsTree reseller 1 1000 lone_tenants lone_tenants-IsTree refl refl refl

abbrev stored : Option String
stored = some "system_admin"

effective_role-system_admin_example :
    (effective_role env.root_telegram_id 8 stored ≡ Role.system_admin)
    ↔ ((env.root_telegram_id ≡ some 8) ⊎ (stored ≡ some "system_admin"))
effective_role-system_admin_example = effective_role-system_admin env.root_telegram_id 8 stored

root_only_example :
    (may Role.finance Permission.decide_adjustment ≡ false)
    × (may Role.finance Permission.change_billing_coefficient ≡ false)
    × (any (λ a. str_eq (role_name a) (role_name Role.finance)) assignable_roles ≡ true)
root_only_example = root_only Role.finance

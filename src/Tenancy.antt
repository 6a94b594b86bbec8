-- ===== src/Tenancy.antt =====
-- Organizations, the closure table and contracts (src/control_plane/app.py).
pub mod Walk
pub mod Tree
use pasarguard_control_plane.Base.{
  ℕ, zero, suc, ◌+◌, String, Bool, true, false, ◌&&◌, Option, none, some, List, [], ◌∷◌, ◌++◌, ◌==◌,
  ltb, if◌then◌else◌, find, any, get_or, min, max, Error, http, hierarchy_cycle, contract_missing,
  Result, ok, err, length,
}
use pasarguard_control_plane.Domain.{Edge}

-- The values that the check constraint on organizations.status admits.
pub data OrgStatus : Type 0 where
  active suspended closed : OrgStatus

pub record Organization : Type 0 where
  pub id : ℕ
  pub parent_id : Option ℕ
  pub name : String
  pub slug : String
  pub status : OrgStatus
  pub credit_limit_irr : ℕ
  pub max_depth : ℕ

pub record Closure : Type 0 where
  pub ancestor_id : ℕ
  pub descendant_id : ℕ
  pub depth : ℕ

pub data ContractStatus : Type 0 where
  active inactive : ContractStatus

pub record Contract : Type 0 where
  pub parent_id : ℕ
  pub child_id : ℕ
  pub price_per_gib_irr : ℕ
  pub status : ContractStatus

pub record Tenants : Type 0 where
  pub organizations : List Organization
  pub closure : List Closure
  pub contracts : List Contract

-- `s.get(Organization, id)`
abbrev pub get_org : ℕ → List Organization → Option Organization
get_org o = find (λ x. x.id == o)

pub contract_is_active : ContractStatus → Bool
contract_is_active ContractStatus.active = true
contract_is_active ContractStatus.inactive = false

-- the one contract that prices an organization's own usage
pub active_contract : ℕ → List Contract → Option Contract
unfolding contract_is_active
active_contract child = find (λ c. c.child_id == child && contract_is_active c.status)

-- the largest depth of the rows of a descendant
pub depth_of : ℕ → List Closure → ℕ
depth_of o [] = 0
depth_of o (c ∷ rows) =
    let rest = depth_of o rows in if c.descendant_id == o then max c.depth rest else rest

-- ORDER BY depth DESC LIMIT 1, over the rows of a descendant
pub top_row : ℕ → List Closure → Option Closure
top_row o [] = none
top_row o (c ∷ rows) =
    let rest = top_row o rows in
    if c.descendant_id == o
    then some (elim rest [ none ↦ c | some r ↦ if ltb c.depth r.depth then r else c ])
    else rest

-- the root of the parent's tree; without closure rows the parent itself
pub root_of : Tenants → Organization → Organization
unfolding top_row
root_of t parent = elim (top_row parent.id t.closure) [
  | none ↦ parent
  | some row ↦ get_or (get_org row.ancestor_id t.organizations) parent
]

module _ (max_tree_depth : ℕ) (t : Tenants) (parent : Organization) where
  pub effective_depth_limit : ℕ
  unfolding root_of
  effective_depth_limit = min max_tree_depth (root_of t parent).max_depth

  -- 409 where one more level would pass the limit
  unfoldable pub assert_depth_allowed : Result (Unit {0})
  unfolding effective_depth_limit depth_of
  assert_depth_allowed =
      if ltb effective_depth_limit (depth_of parent.id t.closure + 1) then err (http 409) else ok tt

-- the closure rows of a new child: its own, and one for each row of its parent
pub lifted_rows : ℕ → ℕ → List Closure → List Closure
lifted_rows child parent [] = []
lifted_rows child parent (c ∷ rows) =
    let rest = lifted_rows child parent rows in
    if c.descendant_id == parent
    then record { ancestor_id = c.ancestor_id; descendant_id = child; depth = c.depth + 1 } ∷ rest
    else rest

pub self_row : ℕ → Closure
self_row o = record { ancestor_id = o; descendant_id = o; depth = 0 }

-- An organization under a parent, as the four handlers that create one insert it.
unfoldable pub add_child : Organization → ℕ → ℕ → Tenants → Tenants
unfolding lifted_rows self_row
add_child child parent price t = record {
  organizations = child ∷ t.organizations;
  closure = self_row child.id ∷ (lifted_rows child.id parent t.closure ++ t.closure);
  contracts =
      record {
        parent_id = parent;
        child_id = child.id;
        price_per_gib_irr = price;
        status = ContractStatus.active;
      }
      ∷ t.contracts;
}

-- a root organization, as the bootstrap and POST /v1/organizations insert it
unfoldable pub add_root : Organization → Tenants → Tenants
unfolding self_row
add_root o t = record t { organizations = o ∷ t.organizations; closure = self_row o.id ∷ t.closure }

-- what `edges` adds in front of the rest of its walk
pub add_edge : Edge → Option (Result (List Edge)) → Option (Result (List Edge))
add_edge e none = none
add_edge e (some (ok rest)) = some (ok (e ∷ rest))
add_edge e (some (err x)) = some (err x)

-- The loop of `edges`: from an organization up to its root, with the ids that it has seen. `none`
-- means that the fuel ran out.
pub walk : ℕ → Tenants → List ℕ → Option Organization → Option (Result (List Edge))
unfolding active_contract add_edge
walk zero t seen cur = none
walk (suc fuel) t seen none = some (ok [])
walk (suc fuel) t seen (some x) = elim x.parent_id [
  | none ↦ some (ok [])
  | some p ↦ elim (any (λ y. y == x.id) seen) [
    | true ↦ some (err hierarchy_cycle)
    | false ↦ elim (active_contract x.id t.contracts) [
      | none ↦ some (err contract_missing)
      | some c ↦
          add_edge (record { child_id = x.id; parent_id = p; rate_irr = c.price_per_gib_irr })
            (walk fuel t (x.id ∷ seen) (get_org p t.organizations))
    ]
  ]
]

-- The fuel is one more than there are organizations.
unfoldable pub edges : Tenants → ℕ → Option (Result (List Edge))
unfolding walk
edges t o = walk (suc (suc (length t.organizations))) t [] (get_org o t.organizations)

-- ===== src/Tenancy/Tree.antt =====
-- The closure table against the parent pointers (app.py: Closure, depth_of, assert_depth_allowed;
-- the inserts of api.py and web_api.py that create an organization).
use pasarguard_control_plane.Base.{
  ℕ, zero, suc, ◌+◌, ◌≤◌, ◌≡◌, refl, ◌≢◌, Bool, true, false, ◌&&◌, ◌||◌, Option, none, some, List,
  [], ◌∷◌, ◌++◌, arith, ◌==◌, any, ok, Option-cases, Bool-cases, inl, inr, is_some, ==_iff, max,
  ◌∙◌, ap, subst,
}
use pasarguard_control_plane.Tenancy.{
  Organization, Closure, Tenants, get_org, depth_of, lifted_rows, self_row, add_child,
  assert_depth_allowed, effective_depth_limit,
}

-- The organization that stands so many levels above another.
abbrev pub ancestor_at : ℕ → List Organization → ℕ → Option ℕ
ancestor_at zero orgs o = elim (get_org o orgs) [ none ↦ none | some _ ↦ some o ]
ancestor_at (suc k) orgs o = elim (get_org o orgs) [
  | none ↦ none
  | some x ↦ elim x.parent_id [ none ↦ none | some p ↦ ancestor_at k orgs p ]
]

abbrev is_row : ℕ → ℕ → ℕ → Closure → Bool
is_row a d k c = c.ancestor_id == a && (c.descendant_id == d && c.depth == k)

abbrev pub has_row : ℕ → ℕ → ℕ → List Closure → Bool
has_row a d k rows = any (is_row a d k) rows

abbrev pub is_id : Option ℕ → ℕ → Bool
is_id none a = false
is_id (some b) a = b == a

-- Parents are on the table, and the closure holds a row exactly where the parent pointers put an
-- ancestor at that depth.
pub record IsTree (t : Tenants) : Type 0 where
  pub parents :
      (o p : ℕ) (x : Organization)
      → get_org o t.organizations ≡ some x
      → x.parent_id ≡ some p
      → is_some (get_org p t.organizations) ≡ true
  pub rows : (a d k : ℕ) → has_row a d k t.closure ≡ is_id (ancestor_at k t.organizations d) a

module _ (child : Organization) (parent : ℕ) where
  has_row-append :
      (a d k : ℕ) (xs ys : List Closure)
      → has_row a d k (xs ++ ys) ≡ (has_row a d k xs || has_row a d k ys)
  has_row-append a d k [] ys = refl
  has_row-append a d k (c ∷ xs) ys = ground (arith, has_row-append a d k xs ys)

  -- the new rows name only the child, one level further up than its parent's
  lifted_self :
      (a k : ℕ) (rows : List Closure)
      → has_row a child.id (suc k) (lifted_rows child.id parent rows) ≡ has_row a parent k rows
  unfolding lifted_rows
  lifted_self a k [] = refl
  lifted_self a k (c ∷ rows) = ground (arith, lifted_self a k rows)

  lifted_zero :
      (a d : ℕ) (rows : List Closure) → has_row a d zero (lifted_rows child.id parent rows) ≡ false
  unfolding lifted_rows
  lifted_zero a d [] = refl
  lifted_zero a d (c ∷ rows) = ground (arith, lifted_zero a d rows)

  lifted_other :
      (a d k : ℕ) (rows : List Closure)
      → child.id ≢ d
      → has_row a d k (lifted_rows child.id parent rows) ≡ false
  unfolding lifted_rows
  lifted_other a d k [] h = refl
  lifted_other a d k (c ∷ rows) h = ground (arith, lifted_other a d k rows h)

ancestor_at-absent :
    (k d : ℕ) (orgs : List Organization) → get_org d orgs ≡ none → ancestor_at k orgs d ≡ none
ancestor_at-absent zero d orgs h = rw (h, ancestor_at)
ancestor_at-absent (suc k) d orgs h = rw (h, ancestor_at)

tail_absent :
    (o : ℕ) (c : Closure) (rows : List Closure) (a k : ℕ)
    → has_row a o k (c ∷ rows) ≡ false
    → has_row a o k rows ≡ false
tail_absent o c rows a k h = ground arith

module _ (child : Organization) (parent price : ℕ) (t : Tenants) (tree : IsTree t)
    (new : get_org child.id t.organizations ≡ none) (under : child.parent_id ≡ some parent)
    (known : is_some (get_org parent t.organizations) ≡ true) where
  known_ne : (p : ℕ) → is_some (get_org p t.organizations) ≡ true → child.id ≢ p
  known_ne p h e = cc (rw (← e, new) at h)

  ancestor_old :
      (k d : ℕ)
      → child.id ≢ d
      → ancestor_at k (child ∷ t.organizations) d ≡ ancestor_at k t.organizations d
  ancestor_old zero d h = ground arith
  ancestor_old (suc k) d h = elim (Option-cases (get_org d t.organizations)) [
    | inl gone ↦ ground arith
    | inr (x, found) ↦ elim (Option-cases x.parent_id) [
      | inl root ↦ ground arith
      | inr (p, up) ↦ ground (arith, ancestor_old k p (known_ne p (tree.parents d p x found up)))
    ]
  ]

  ancestor_child :
      (k : ℕ)
      → ancestor_at (suc k) (child ∷ t.organizations) child.id
        ≡ ancestor_at k t.organizations parent
  ancestor_child k = ground (arith, ancestor_old k parent (known_ne parent known))

  fresh_rows : (a k : ℕ) → has_row a child.id k t.closure ≡ false
  fresh_rows a k = tree.rows a child.id k ∙ rw (ancestor_at-absent k child.id t.organizations new)

  -- the rows of the table with the child in it
  rows_child :
      (a k : ℕ)
      → has_row a child.id k (add_child child parent price t).closure
        ≡ is_id (ancestor_at k (child ∷ t.organizations) child.id) a
  unfolding add_child
  rows_child a zero = ground (
    arith,
    has_row-append child parent a child.id zero (lifted_rows child.id parent t.closure) t.closure,
    lifted_zero child parent a child.id t.closure,
    fresh_rows a zero,
  )
  rows_child a (suc k) = ground (
    arith,
    has_row-append child parent a child.id (suc k) (lifted_rows child.id parent t.closure)
        t.closure,
    lifted_self child parent a k t.closure,
    fresh_rows a (suc k),
    ancestor_child k,
    tree.rows a parent k,
  )

  rows_other :
      (a d k : ℕ)
      → child.id ≢ d
      → has_row a d k (add_child child parent price t).closure
        ≡ is_id (ancestor_at k (child ∷ t.organizations) d) a
  unfolding add_child
  rows_other a d k h = ground (
    arith,
    has_row-append child parent a d k (lifted_rows child.id parent t.closure) t.closure,
    lifted_other child parent a d k t.closure h,
    ancestor_old k d h,
    tree.rows a d k,
  )

  rows_all :
      (a d k : ℕ)
      → has_row a d k (add_child child parent price t).closure
        ≡ is_id (ancestor_at k (child ∷ t.organizations) d) a
  rows_all a d k = elim (Bool-cases (child.id == d)) [
    | inl same ↦
        subst
          (λ z.
            has_row a z k (add_child child parent price t).closure
            ≡ is_id (ancestor_at k (child ∷ t.organizations) z) a)
          ((==_iff child.id d).0 same) (rows_child a k)
    | inr other ↦ rows_other a d k (λ e. cc ((==_iff child.id d).1 e))
  ]

  child_parents :
      (o p : ℕ) (x : Organization)
      → get_org o (child ∷ t.organizations) ≡ some x
      → x.parent_id ≡ some p
      → is_some (get_org p (child ∷ t.organizations)) ≡ true
  child_parents o p x found up = ground (arith, tree.parents o p x)

  -- A new organization under a known parent keeps the closure table equal to the parent pointers:
  -- a row (ancestor, descendant, depth) is there exactly where climbing that many parents from the
  -- descendant meets the ancestor.
  pub add_child-IsTree : IsTree (add_child child parent price t)
  unfolding add_child
  add_child-IsTree = record { parents = child_parents; rows = rows_all }

  depth_lifted :
      (rows : List Closure)
      → depth_of child.id (lifted_rows child.id parent rows) ≤ depth_of parent rows + 1
  unfolding lifted_rows depth_of
  depth_lifted [] = omega arith
  depth_lifted (c ∷ rows) = ground (arith, depth_lifted rows)

  depth_absent :
      (o : ℕ) (rows : List Closure) → ((a k : ℕ) → has_row a o k rows ≡ false) → depth_of o rows ≡ 0
  unfolding depth_of
  depth_absent o [] h = refl
  depth_absent o (c ∷ rows) h = ground (
    arith,
    h c.ancestor_id c.depth,
    depth_absent o rows (λ a k. tail_absent o c rows a k (h a k)),
  )

  depth_append :
      (o : ℕ) (xs ys : List Closure) → depth_of o (xs ++ ys) ≡ max (depth_of o xs) (depth_of o ys)
  unfolding depth_of
  depth_append o [] ys = omega arith
  depth_append o (c ∷ xs) ys = ground (arith, depth_append o xs ys)

  allowed_le :
      (max_tree_depth : ℕ) (u : Tenants) (p : Organization)
      → assert_depth_allowed max_tree_depth u p ≡ ok tt
      → depth_of p.id u.closure + 1 ≤ effective_depth_limit max_tree_depth u p
  unfolding assert_depth_allowed
  allowed_le max_tree_depth u p h = ground arith

  -- An organization that `assert_depth_allowed` lets in stands no deeper than the limit of its tree.
  pub add_child-depth :
      (max_tree_depth : ℕ) (parent_org : Organization)
      → assert_depth_allowed max_tree_depth t parent_org ≡ ok tt
      → parent_org.id ≡ parent
      → depth_of child.id (add_child child parent price t).closure
        ≤ effective_depth_limit max_tree_depth t parent_org
  unfolding add_child depth_of self_row assert_depth_allowed
  add_child-depth max_tree_depth parent_org allowed same =
      let rows = t.closure in
      let lifted = lifted_rows child.id parent rows in
      ground (
        arith,
        allowed_le max_tree_depth t parent_org allowed,
        ap (λ z. depth_of z rows) same,
        depth_append child.id lifted rows,
        depth_lifted rows,
        depth_absent child.id rows fresh_rows,
      )

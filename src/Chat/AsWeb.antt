-- ===== src/Chat/AsWeb.antt =====
-- A handler of the bot against one of the web app with the same work
-- (src/control_plane/telegram_consumer.py: require_context; web_api.py: manager).
use pasarguard_control_plane.Base.{
  ℕ, ◌≡◌, refl, sym, ap, ◌∙◌, not, Result, ok, err, http, find, where_rows, length, Bool, Option,
  some, none, List, [], ◌∷◌, ◌&&◌, ◌==◌, ◌≤◌, arith, permission_error, Action, pure, raise_if,
  follow, ◌>>=◌, ◌>>◌, inl, inr, Bool-cases, Option-cases,
}
use pasarguard_control_plane.Rbac.{Permission, may}
use pasarguard_control_plane.Tenancy.{get_org}
use pasarguard_control_plane.Store.{Db, Env, request}
use pasarguard_control_plane.Store.Rows.{Actor, Membership}
use pasarguard_control_plane.Identity.{
  Caller, is_root, active_actor, active_member, pick_membership, membership_for, role_of, manager,
}
use pasarguard_control_plane.Chat.Context.{
  Context, context, require_context, permitted, refusal, as_refusal,
}

-- what the bot knows of a caller of the web app
abbrev context_of : Env → ℕ → Caller → Context
context_of env chat c = record {
  actor_id = c.actor.id;
  organization = c.organization;
  role = role_of env chat c.membership;
}

-- an answer of the web app's guard as the bot's
abbrev told : Env → ℕ → Result Caller × Db → Result Context × Db
told env chat (ok c, d) = (ok (context_of env chat c), d)
told env chat (err (http _), d) = (err permission_error, d)
told env chat (err e, d) = (err e, d)

-- the end of a request, as a function of what its handler has come to
abbrev pub close : {A : Type 0} → Db → Result A × Db → Result A × Db
close d (ok a, d') = (ok a, d')
close d (err e, d') = (err e, d)

pub request-close : {A : Type 0} (m : Action Db A) (d : Db) → request m d ≡ close d (m d)
unfolding request
request-close {A} m d = split (m d)
  where
    split : (r : Result A × Db) → (elim r.0 [ ok a ↦ (ok a, r.1) | err e ↦ (err e, d) ]) ≡ close d r
    split (ok a, d') = refl
    split (err e, d') = refl

close-refusal :
    {A : Type 0} (d : Db) (r : Result A × Db) → close d (refusal r) ≡ refusal (close d r)
close-refusal d (ok a, d') = refl
close-refusal d (err (http n), d') = refl
close-refusal d (err _, d') = refl

-- A query without an order gives back a row if it has one: nothing of no rows, and the only row of
-- one.
pub record IsQuery (env : Env) : Type 0 where
  pub nothing : env.first_row [] ≡ none
  pub only : (m : Membership) → env.first_row (m ∷ []) ≡ some m

-- the actor of the chat has at most one active membership
abbrev pub HasOneMembership : ℕ → Db → Type 0
HasOneMembership chat d =
    (a : Actor)
    → active_actor chat d.actors ≡ some a
    → length (where_rows (active_member a.id) d.memberships) ≤ 1

no_other :
    {A : Type 0} (p : A → Bool) (xs : List A) → length (where_rows p xs) ≤ 0 → find p xs ≡ none
no_other p [] h = refl
no_other p (x ∷ xs) h = elim (Bool-cases (p x)) [
  | inl e ↦ ground (arith, rw e at h)
  | inr e ↦ rw e (no_other p xs (rw e at h))
]

only_row :
    {A : Type 0} (p : A → Bool) (first : List A → Option A) (xs : List A)
    → first [] ≡ none
    → ((x : A) → first (x ∷ []) ≡ some x)
    → length (where_rows p xs) ≤ 1
    → first (where_rows p xs) ≡ find p xs
only_row p first [] n o h = n
only_row {A} p first (x ∷ xs) n o h = elim (Bool-cases (p x)) [
  | inl e ↦
      rw e
        (ap (λ rows. first (x ∷ rows)) (empty (where_rows p xs) (ground (arith, rw e at h))) ∙ o x)
  | inr e ↦ rw e (only_row p first xs n o (rw e at h))
]
  where
    empty : (rows : List A) → length rows ≤ 0 → rows ≡ []
    empty [] h = refl
    empty (y ∷ ys) h = ground arith

still_none :
    {A : Type 0} (p q : A → Bool) (xs : List A)
    → find p xs ≡ none
    → find (λ y. p y && q y) xs ≡ none
still_none p q [] h = refl
still_none p q (y ∷ ys) h = elim (Bool-cases (p y)) [
  | inl f ↦ cc (rw f at h)
  | inr f ↦ rw f (still_none p q ys (rw f at h))
]

narrower :
    {A : Type 0} (p q : A → Bool) (xs : List A) {x : A}
    → length (where_rows p xs) ≤ 1
    → find (λ y. p y && q y) xs ≡ some x
    → find p xs ≡ some x
narrower p q [] h e = cc
narrower p q (y ∷ ys) h e = elim (Bool-cases (p y)) [
  | inr f ↦ rw f (narrower p q ys (rw f at h) (rw f at e))
  | inl f ↦ rw f (elim (Bool-cases (q y)) [
    | inl g ↦ rw (f, g) at e
    | inr g ↦
        let gone : find (λ z. p z && q z) ys ≡ none =
          still_none p q ys (no_other p ys (ground (arith, rw f at h))) in
        cc (rw (f, g) at e)
  ])
]

module _ (env : Env) (query : IsQuery env) (chat : ℕ) (d : Db) (one : HasOneMembership chat d) where
  pick_membership_only :
      (a : Actor)
      → active_actor chat d.actors ≡ some a
      → pick_membership env a.id chat d ≡ find (active_member a.id) d.memberships
  unfolding pick_membership
  pick_membership_only a known = elim (Bool-cases (is_root env chat)) [
    | inr e ↦ rw e refl
    | inl e ↦ rw e (elim (Option-cases d.bootstrap_complete) [
      | inl b ↦ rw b refl
      | inr (root_org, b) ↦
          rw b
            (elim (Option-cases
              (find (λ m. active_member a.id m && m.organization_id == root_org) d.memberships)) [
                | inl f ↦ rw f refl
                | inr (m, f) ↦ rw f (
                    sym (
                      narrower (active_member a.id) (λ m. m.organization_id == root_org)
                        d.memberships (one a known) f))
              ])
    ])
  ]

  require_context-membership_for :
      require_context env chat d ≡ told env chat (membership_for env chat d)
  unfolding require_context context membership_for
  require_context-membership_for = elim (Option-cases (active_actor chat d.actors)) [
    | inl e ↦ rw (e, context, membership_for) refl
    | inr (a, e) ↦
        rw
          (
            e,
            context,
            membership_for,
            pick_membership_only a e,
            only_row (active_member a.id) env.first_row d.memberships query.nothing query.only
                (one a e),
          )
          (elim (Option-cases (find (active_member a.id) d.memberships)) [
            | inl f ↦ rw f refl
            | inr (m, f) ↦
                rw f (elim (Option-cases (get_org m.organization_id d.tenants.organizations)) [
                  | inl g ↦ rw g refl
                  | inr (o, g) ↦ rw g refl
                ])
          ])
  ]

  permitted-manager :
      (p : Permission) → permitted env chat p d ≡ told env chat (manager env chat p d)
  unfolding permitted manager
  permitted-manager p =
      ap (follow allowed) require_context-membership_for ∙ split (membership_for env chat d)
    where
      allowed : Context → Action Db Context
      allowed ctx = raise_if (not (may ctx.role p)) permission_error >> pure ctx

      trusted : Caller → Action Db Caller
      trusted c = raise_if (not (may (role_of env chat c.membership) p)) (http 403) >> pure c

      split :
          (r : Result Caller × Db)
          → follow allowed (told env chat r) ≡ told env chat (follow trusted r)
      split (ok c, d') = elim (Bool-cases (may (role_of env chat c.membership) p)) [
        | inl f ↦ rw f refl
        | inr f ↦ rw f refl
      ]
      split (err (http n), d') = refl
      split (err _, d') = refl

  -- a handler of the bot whose work is that of the web app's does what the web app's does
  pub as_web :
      {A : Type 0} (p : Permission) (work : ℕ → ℕ → Action Db A)
      → request
          (do ctx ← permitted env chat p; as_refusal (work ctx.actor_id ctx.organization.id))
          d
        ≡ refusal (
            request (do caller ← manager env chat p; work caller.actor.id caller.organization.id) d)
  unfolding as_refusal
  as_web {A} p work =
      request-close _ d
      ∙ ap (λ z. close d (follow bot z)) (permitted-manager p)
      ∙ ap (close d) (split (manager env chat p d))
      ∙ close-refusal d (follow web (manager env chat p d))
      ∙ ap refusal (sym (request-close _ d))
    where
      bot : Context → Action Db A
      bot ctx = as_refusal (work ctx.actor_id ctx.organization.id)

      web : Caller → Action Db A
      web c = work c.actor.id c.organization.id

      split : (r : Result Caller × Db) → follow bot (told env chat r) ≡ refusal (follow web r)
      split (ok c, d') = refl
      split (err (http n), d') = refl
      split (err _, d') = refl

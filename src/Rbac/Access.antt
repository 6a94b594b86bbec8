-- ===== src/Rbac/Access.antt =====
-- Who may do what (rbac.py), and where the role of the system administrator comes from.
use pasarguard_control_plane.Base.{
  ℕ, ◌≡◌, refl, ◌≢◌, ◌⊎◌, ◌↔◌, inl, inr, Bool, true, false, Option, some, none, List, [], ◌∷◌,
  arith, ◌==◌, String, str_eq, eq_iff, Bool-cases, Option-cases, sym, ap, ◌∙◌, any, not,
}
use pasarguard_control_plane.Rbac.{
  Role, role_name, roles, assignable_roles, Permission, role_named, normalize, effective_role, may,
}

role_named_complete : (r : Role) → role_named roles (role_name r) ≡ some r
unfolding role_named
role_named_complete Role.system_admin = refl
role_named_complete _ = refl

role_named_sound :
    (s : String) (r : Role) (rs : List Role) → role_named rs s ≡ some r → role_name r ≡ s
unfolding role_named
role_named_sound s r [] h = cc
role_named_sound s r (x ∷ rs) h = ground (arith, eq_iff (role_name x) s, role_named_sound s r rs)

abbrev is_root : Role → Bool
is_root Role.system_admin = true
is_root _ = false

-- A stored text is read as the role of that name, and any other text, like none, as a viewer.
pub normalize_lem :
    (s : String)
    → (normalize none ≡ Role.viewer)
      × (((r : Role) × (role_name r ≡ s) × (normalize (some s) ≡ r))
          ⊎ (((r : Role) → role_name r ≢ s) × (normalize (some s) ≡ Role.viewer)))
unfolding normalize
normalize_lem s = (
  refl,
  elim (Option-cases (role_named roles s)) [
    | inr (r, found) ↦ inl (r, role_named_sound s r roles found, rw (found, normalize))
    | inl unknown ↦ inr (
      (λ r e. cc (role_named_complete r, rw e at (role_named_complete r), unknown)),
      rw (unknown, normalize),
    )
  ],
)

normalize-system_admin :
    (stored : Option String)
    → (normalize stored ≡ Role.system_admin) ↔ (stored ≡ some "system_admin")
unfolding normalize
normalize-system_admin none = ((λ h. cc), (λ h. cc))
normalize-system_admin (some s) = (
  (λ h. elim (normalize_lem s).1 [
    | inl (r, named, read) ↦ ap (λ z. some z) (sym named ∙ ap role_name (sym read ∙ h))
    | inr (_, viewer) ↦ cc (viewer, h)
  ]),
  (λ h. rw h refl),
)

-- The role of the system administrator comes from the root Telegram identity or from a membership
-- row that stores its name, and from nothing else.
pub effective_role-system_admin :
    (root : Option ℕ) (telegram_id : ℕ) (stored : Option String)
    → (effective_role root telegram_id stored ≡ Role.system_admin)
      ↔ ((root ≡ some telegram_id) ⊎ (stored ≡ some "system_admin"))
unfolding effective_role
effective_role-system_admin none telegram_id stored = (
  (λ h. inr ((normalize-system_admin stored).0 h)),
  (λ h. elim h [ inl e ↦ cc | inr e ↦ (normalize-system_admin stored).1 e ]),
)
effective_role-system_admin (some root) telegram_id stored =
    elim (Bool-cases (telegram_id == root)) [
      | inl same ↦ rw same ((λ h. inl (ground arith)), (λ h. refl))
      | inr other ↦ rw other (
        (λ h. inr ((normalize-system_admin stored).0 h)),
        (λ h. elim h [ inl e ↦ ground arith | inr e ↦ (normalize-system_admin stored).1 e ]),
      )
    ]

-- Correcting a balance and changing the billing coefficient are held by the system administrator,
-- and by no role that can be assigned.
pub root_only :
    (r : Role)
    → (may r Permission.decide_adjustment ≡ is_root r)
      × (may r Permission.change_billing_coefficient ≡ is_root r)
      × (any (λ a. str_eq (role_name a) (role_name r)) assignable_roles ≡ not (is_root r))
unfolding may
root_only Role.system_admin = (refl, refl, refl)
root_only _ = (refl, refl, refl)

-- Whatever any role may do, the system administrator may do.
pub system_admin_may : (r : Role) (p : Permission) → may r p ≡ true → may Role.system_admin p ≡ true
unfolding may
system_admin_may r Permission.view_dashboard h = refl
system_admin_may r _ h = refl

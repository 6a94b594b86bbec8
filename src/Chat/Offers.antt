-- ===== src/Chat/Offers.antt =====
-- What the keyboards offer, and what the bot then serves (telegram_consumer.py).
use pasarguard_control_plane.Base.{
  ◌≡◌, refl, String, str_eq, true, some, All, eq_iff, find-passes, where_rows-passes, ◌↔◌, subst,
}
use pasarguard_control_plane.Rbac.{Role}
use pasarguard_control_plane.Chat.Menus.{
  Section, sections, section_name, label, audience_for, sections_for, has, top, top_for,
  label_to_section, section_named,
}

-- The keyboard of a role holds only sections that are then opened for it.
pub top_for-served : (r : Role) → All (λ s. has (sections_for r) s ≡ true) (top_for r)
unfolding top_for
top_for-served r = where_rows-passes (has (sections_for r)) (top (audience_for r))

label_round_trip : (s : Section) → label_to_section (label s) ≡ some s
unfolding label_to_section
label_round_trip Section.dashboard = refl
label_round_trip _ = refl

section_name_round_trip : (s : Section) → section_named (section_name s) ≡ some s
unfolding section_named
section_name_round_trip Section.dashboard = refl
section_name_round_trip _ = refl

-- A text of a keyboard is read as the section whose label it is, and a callback's text as the
-- section whose name it is; any other text is read as none.
pub sections_round_trip :
    (text : String) (s : Section)
    → ((label_to_section text ≡ some s) ↔ (label s ≡ text))
      × ((section_named text ≡ some s) ↔ (section_name s ≡ text))
unfolding label_to_section section_named
sections_round_trip text s = (
  (
    (λ h. (eq_iff (label s) text).0 (find-passes (λ x. str_eq (label x) text) sections s h)),
    (λ h. subst (λ t. label_to_section t ≡ some s) h (label_round_trip s)),
  ),
  (
    (λ h.
        (eq_iff (section_name s) text).0
          (find-passes (λ x. str_eq (section_name x) text) sections s h)),
    (λ h. subst (λ t. section_named t ≡ some s) h (section_name_round_trip s)),
  ),
)

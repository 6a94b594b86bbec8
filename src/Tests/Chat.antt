-- ===== src/Tests/Chat.antt =====
-- Runs of the bot's menus, buttons and numbers, and of its calls on the core.
use pasarguard_control_plane.Base.{
  ℕ, zero, suc, ◌-◌, ◌≡◌, refl, String, ◌↔◌, true, false, not, ◌&&◌, ◌||◌, some, none, [], ◌∷◌, All,
  ok, leb, ◌==◌, if◌then◌else◌, arith, str_eq, length,
}
use Prim.Native.String.compare
use pasarguard_control_plane.Rbac.{Role, may}
use pasarguard_control_plane.Store.{Db}
use pasarguard_control_plane.Store.Rows.{OrderStatus}
use pasarguard_control_plane.Orders.{may_become}
use pasarguard_control_plane.Orders.Names.{show, decimal_from, digit}
use pasarguard_control_plane.Orders.Lists.{saleable_plan_rows, plan_rows}
use pasarguard_control_plane.Orders.Shown.{IsBuyable, IsCatalog, saleable_plan_rows-IsBuyable}
use pasarguard_control_plane.Chat.Menus.{
  Section, label, section_name, label_to_section, section_named, audience_for, sections_for, has,
}
use pasarguard_control_plane.Chat.Offers.{sections_round_trip}
use pasarguard_control_plane.Chat.Callbacks.{Ids, Callback, callback_text, read_callback}
use pasarguard_control_plane.Chat.Presses.{HasNoBar, IsIds, read_callback-callback_text}
use pasarguard_control_plane.Chat.Digits.{Script, number, whole, money}
use pasarguard_control_plane.Chat.Spelling.{whole-Spells}
use pasarguard_control_plane.Chat.Spells.{ReadsAscii, Spells}
use pasarguard_control_plane.Chat.Deals.{OrderAction, order_buttons}
use pasarguard_control_plane.Chat.Buttons.{
  offered, leads_to, is_theirs, is_waiting, order_buttons-offered,
}
use pasarguard_control_plane.Tests.Data.{db_with, plan}

servers_run : has (sections_for Role.reseller_admin) Section.servers ≡ true
unfolding has sections_for may audience_for
servers_run = refl

-- ids written as so many marks
unfoldable marks : ℕ → String
marks zero = "a"
marks (suc n) = String.◌∷◌ "a" (marks n)

unfoldable tally : String → ℕ
tally String.[] = 0
tally (String.◌∷◌ c s) = suc (tally s)

abbrev ids : Ids
ids = record { id_text = marks; id_of = λ s. tally s - 1 }

marks-HasNoBar : (n : ℕ) → HasNoBar (marks n)
unfolding marks HasNoBar
marks-HasNoBar zero = ground arith
marks-HasNoBar (suc n) = (refl, marks-HasNoBar n)

tally-marks : (n : ℕ) → tally (marks n) ≡ suc n
unfolding marks tally
tally-marks zero = refl
tally-marks (suc n) = rw (tally-marks n) refl

marks-IsSome : (n : ℕ) → str_eq (marks n) "" ≡ false
unfolding marks
marks-IsSome zero = refl
marks-IsSome (suc n) = rw (compare.cons-nil "a" (marks n)) refl

ids-IsIds : IsIds ids
ids-IsIds = record {
  no_bar = marks-HasNoBar;
  some_text = marks-IsSome;
  back = λ n. omega (arith, tally-marks n);
}

read_callback-callback_text_example :
    read_callback ids (callback_text ids (Callback.order 3 "quote"))
    ≡ some (Callback.order 3 "quote")
unfolding HasNoBar
read_callback-callback_text_example =
    read_callback-callback_text ids (Callback.order 3 "quote") ids-IsIds (ground arith)

-- the digits of ASCII, and a superscript two, which `isdigit` takes and `int` does not
abbrev ascii_script : Script
ascii_script = record {
  is_digit = λ c. (leb 48 c && leb c 57) || c == 178;
  decimal = λ c. if leb 48 c && leb c 57 then some (c - 48) else none;
}

ascii-ReadsAscii : ReadsAscii ascii_script
ascii-ReadsAscii = record { digits = λ k h. ground (arith, h); values = λ k h. ground (arith, h) }

twelve : Spells "۱,2" (show 12)
unfolding show decimal_from digit
twelve =
    Spells.persian "۱" 1 (ground arith) refl
      (Spells.comma "," refl (Spells.ascii "2" 2 (ground arith) refl Spells.done))

-- a Persian one, a comma and an ASCII two
whole-Spells_example : whole ascii_script (number "۱,2") ≡ some (ok 12)
whole-Spells_example = whole-Spells ascii-ReadsAscii 12 "۱,2" twelve

money_run : money 60000 ≡ "60,000"
unfolding money
money_run = refl

-- a reviewer decides a paid order
order_buttons-offered_example :
    offered OrderAction.ok (order_buttons OrderStatus.payment_declared false true) ≡ (
      is_theirs OrderAction.ok false true
      && may_become OrderStatus.payment_declared (leads_to OrderAction.ok)
      && not (is_waiting OrderAction.ok OrderStatus.payment_declared))
order_buttons-offered_example =
    order_buttons-offered OrderAction.ok OrderStatus.payment_declared false true

abbrev db : Db
db = db_with OrderStatus.payment_declared

db-IsCatalog : IsCatalog db
db-IsCatalog = record {
  plans = ((refl, λ c shelf h found. cc), tt);
  panels = (refl, tt);
  shelves = tt;
}

saleable_plan_rows-IsBuyable_example : All (λ r. IsBuyable db r.plan) (saleable_plan_rows db)
saleable_plan_rows-IsBuyable_example = saleable_plan_rows-IsBuyable db db-IsCatalog

plan_rows_run : length (plan_rows db (plan ∷ [])) ≡ 1
unfolding plan_rows
plan_rows_run = refl

-- the label of the servers names that section and no other
sections_round_trip_example :
    ((label_to_section (label Section.servers) ≡ some Section.orders)
      ↔ (label Section.orders ≡ label Section.servers))
    × ((section_named (label Section.servers) ≡ some Section.orders)
        ↔ (section_name Section.orders ≡ label Section.servers))
sections_round_trip_example = sections_round_trip (label Section.servers) Section.orders

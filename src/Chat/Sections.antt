-- ===== src/Chat/Sections.antt =====
-- The sections of the bot and the texts outside of a dialogue
-- (src/control_plane/telegram_consumer.py: open_section, section_menu, handle_message). A page is
-- sent by its name, with the buttons that its rows have.
use pasarguard_control_plane.Base.{
  ℕ, String, str_eq, Option, some, none, List, [], ◌∷◌, if◌then◌else◌, is_some, Action, gets, ◌>>=◌,
  ◌>>◌, map, ◌++◌,
}
use pasarguard_control_plane.Rbac.{Role, Permission}
use pasarguard_control_plane.Orders.Lists.{OrderRow}
use pasarguard_control_plane.Chat.Menus.{
  Section, section_name, section_permission, sections_for, pairs, has, label_to_section, Target,
  alias_of,
}
use pasarguard_control_plane.Chat.Callbacks.{Callback}
use pasarguard_control_plane.Chat.Digits.{strip}
use pasarguard_control_plane.Chat.Context.{context, require_context}
use pasarguard_control_plane.Chat.Deals.{customer_order_rows, order_queue}
use pasarguard_control_plane.Chat.Pages.{
  back_to, to_menu, server_list, finance_menu, funding_requests, funding_buttons, approval_requests,
  approval_buttons, order_panels, queue_buttons, own_order_buttons,
}
use pasarguard_control_plane.Chat.State.{
  Dialogue, Question, Notice, Keyboard, Bot, World, on_db, set_state, get_state, send,
}
use pasarguard_control_plane.Chat.Dialogues.{current_role, send_menu, ask, to_section}
use pasarguard_control_plane.Chat.Shelves.{show_catalog}
use pasarguard_control_plane.Chat.Forms.{begin_reseller, continue_state}

abbrev pub linked : World → ℕ → Section → Keyboard → Action Bot (Unit {0})
linked w chat s keyboard = do
  ctx ← on_db (require_context w.env chat)
  send w chat (Notice.page s) keyboard

-- a page with the buttons that it is given
unfoldable pub show_buttons : World → ℕ → Section → List (List Callback) → Action Bot (Unit {0})
unfolding send
show_buttons w chat s buttons = send w chat (Notice.page s) (Keyboard.buttons buttons)

-- where a page of requests leads back to
abbrev pub below : Section → List (List Callback)
below Section.funding = back_to Section.finance
below _ = to_menu

-- a page of requests, or the menu without one
unfoldable pub show_requests :
    World → ℕ → Role → Section → List (List Callback) → Action Bot (Unit {0})
unfolding show_buttons send
show_requests w chat role s [] = send w chat (Notice.page s) (Keyboard.menu role)
show_requests w chat role s (b ∷ bs) = show_buttons w chat s ((b ∷ bs) ++ below s)

unfoldable pub show_funding : World → ℕ → Role → Action Bot (Unit {0})
unfolding funding_requests show_requests
show_funding w chat role = do
  rows ← on_db (funding_requests w.env chat)
  show_requests w chat role Section.funding (map funding_buttons rows)

unfoldable pub show_approvals : World → ℕ → Role → Action Bot (Unit {0})
unfolding approval_requests show_requests
show_approvals w chat role = do
  rows ← on_db (approval_requests w.env chat)
  show_requests w chat role Section.approvals (map approval_buttons rows)

unfoldable pub show_servers : World → ℕ → Action Bot (Unit {0})
unfolding server_list show_buttons
show_servers w chat = on_db (server_list w.env chat) >>= show_buttons w chat Section.servers

unfoldable pub show_queue : World → ℕ → String → Action Bot (Unit {0})
unfolding order_queue send
show_queue w chat status = do
  rows ← on_db (order_queue w.env chat status)
  send w chat (Notice.orders_page rows) (Keyboard.buttons (queue_buttons status rows))

-- the own orders, or the news that there is none
unfoldable pub show_orders : World → ℕ → List OrderRow → Action Bot (Unit {0})
unfolding send_menu send
show_orders w chat [] = send_menu w chat Notice.no_orders
show_orders w chat (r ∷ rows) =
    send w chat (Notice.orders_page (r ∷ rows)) (Keyboard.buttons (own_order_buttons (r ∷ rows)))

unfoldable pub show_own_orders : World → ℕ → Action Bot (Unit {0})
unfolding customer_order_rows show_orders
show_own_orders w chat = gets (λ b. customer_order_rows chat b.db) >>= show_orders w chat

unfoldable pub ask_credit : World → ℕ → Action Bot (Unit {0})
unfolding set_state send
ask_credit w chat = set_state chat Dialogue.credit >> ask w chat Question.credit

-- the customer's sections that need an account
unfoldable pub with_account : World → ℕ → Action Bot (Unit {0}) → Action Bot (Unit {0})
unfolding send_menu context
with_account w chat page b =
    if is_some (context w.env chat b.db) then page b else send_menu w chat Notice.no_account b

unfoldable pub show_section : World → ℕ → Role → Section → Action Bot (Unit {0})
unfolding show_funding show_approvals show_servers finance_menu order_panels show_buttons show_queue
    show_own_orders show_catalog ask_credit with_account begin_reseller send
show_section w chat role Section.dashboard = linked w chat Section.dashboard (Keyboard.menu role)
show_section w chat role Section.servers = show_servers w chat
show_section w chat role Section.orders = show_queue w chat "pending"
show_section w chat role Section.catalog = show_catalog w chat (Notice.page Section.catalog)
show_section w chat role Section.resellers = linked w chat Section.resellers (
    Keyboard.buttons
      ((to_section Section.new_reseller ∷ to_section Section.funding ∷ []) ∷ to_menu))
show_section w chat role Section.finance =
    (on_db (finance_menu w.env chat) >>= show_buttons w chat Section.finance)
show_section w chat role Section.new_order =
    gets (λ b. order_panels b.db) >>= show_buttons w chat Section.new_order
show_section w chat role Section.my_orders = show_own_orders w chat
show_section w chat role Section.my_panel = with_account w chat (
    linked w chat Section.my_panel (
      Keyboard.buttons (
        (to_section Section.my_webapp ∷ to_section Section.usage ∷ [])
        ∷ (to_section Section.topup ∷ to_section Section.my_orders ∷ [])
        ∷ to_menu)))
show_section w chat role Section.usage =
    with_account w chat (linked w chat Section.usage (Keyboard.menu role))
show_section w chat role Section.topup = with_account w chat (ask_credit w chat)
show_section w chat role Section.my_webapp =
    with_account w chat (send w chat (Notice.page Section.my_webapp) Keyboard.webapp)
show_section w chat role Section.new_reseller = begin_reseller w chat
show_section w chat role Section.funding = show_funding w chat role
show_section w chat role Section.transactions =
    linked w chat Section.transactions (Keyboard.buttons (back_to Section.finance))
show_section w chat role Section.credit = ask_credit w chat
show_section w chat role Section.approvals = show_approvals w chat role
show_section w chat role Section.system = send w chat (Notice.page Section.system) Keyboard.webapp
show_section w chat role Section.support = send w chat Notice.ticket_sent (Keyboard.menu role)
show_section w chat role Section.webapp = send w chat (Notice.page Section.webapp) Keyboard.webapp

-- the section of a name that the role may open
unfoldable pub opens : Role → Option Section → Option Section
unfolding has sections_for
opens role none = none
opens role (some s) = if has (sections_for role) s then some s else none

abbrev pub denied_permission : Option Section → Permission
denied_permission none = Permission.view_dashboard
denied_permission (some s) = section_permission s

-- the role decides both the entry and the refusal
unfoldable pub open_section : World → ℕ → Option Section → Action Bot (Unit {0})
unfolding current_role opens show_section send
open_section w chat section = do
  role ← current_role w chat
  elim (opens role section) [
    | none ↦ send w chat (Notice.denial (denied_permission section)) (Keyboard.menu role)
    | some s ↦ show_section w chat role s
  ]

-- "/start": a welcome and the first section of the role
abbrev pub home : Role → Section
home Role.customer = Section.new_order
home _ = Section.dashboard

unfoldable pub start : World → ℕ → Role → Action Bot (Unit {0})
unfolding open_section send context
start w chat role = do
  known ← gets (λ b. is_some (context w.env chat b.db))
  send w chat (if known then Notice.welcome_back else Notice.welcome) (Keyboard.menu role)
  open_section w chat (some (home role))

unfoldable pub section_menu : World → ℕ → Role → Action Bot (Unit {0})
unfolding send sections_for pairs
section_menu w chat role = send w chat Notice.choose_section (
    Keyboard.buttons
      (pairs (map (λ s. Callback.section (section_name s)) (sections_for role)) ++ to_menu))

-- a command or a label, outside of any dialogue
unfoldable pub read_text : World → ℕ → String → Role → Action Bot (Unit {0})
unfolding start section_menu open_section opens label_to_section alias_of
read_text w chat value role =
    if str_eq value "/start" then start w chat role else elim (alias_of value) [
      | some Target.menu ↦ section_menu w chat role
      | some (Target.to s) ↦ open_section w chat (some s)
      | none ↦ elim (opens role (label_to_section value)) [
        | none ↦ send w chat Notice.choose_from_menu (Keyboard.menu role)
        | some s ↦ open_section w chat (some s)
      ]
    ]

-- a text within a dialogue, or outside of one
unfoldable pub take_text : World → ℕ → String → Option Dialogue → Action Bot (Unit {0})
unfolding continue_state current_role read_text
take_text w chat value (some dialogue) = continue_state w chat value dialogue
take_text w chat value none = current_role w chat >>= read_text w chat value

unfoldable pub handle_message : World → ℕ → String → Action Bot (Unit {0})
unfolding get_state take_text strip
handle_message w chat text =
    if str_eq (strip text) "/id"
    then send w chat (Notice.own_id chat) Keyboard.bare
    else get_state chat >>= take_text w chat (strip text)

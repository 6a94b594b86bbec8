-- ===== src/Chat/Updates.antt =====
-- Whatever reaches the bot, the dialogues that it stores are ready (telegram_consumer.py:
-- handle_message, handle_callback).
use pasarguard_control_plane.Base.{
  ℕ, ◌≡◌, String, Option, some, none, List, [], ◌∷◌, ◌==◌, str_eq, subst, Action, ◌>>=◌,
  Option-cases, Bool-cases, inl, inr, is_some,
}
use pasarguard_control_plane.Rbac.{Role}
use pasarguard_control_plane.Chat.Callbacks.{Callback}
use pasarguard_control_plane.Chat.Menus.{Section, Target, alias_of, label_to_section}
use pasarguard_control_plane.Chat.Context.{context}
use pasarguard_control_plane.Chat.Digits.{strip}
use pasarguard_control_plane.Orders.Lists.{OrderRow}
use pasarguard_control_plane.Chat.State.{
  Dialogue, Notice, Keyboard, Bot, World, get_state, state_of, send,
}
use pasarguard_control_plane.Chat.Shelves.{show_catalog}
use pasarguard_control_plane.Chat.Forms.{begin_reseller}
use pasarguard_control_plane.Chat.Sections.{
  show_buttons, show_requests, show_funding, show_approvals, show_servers, show_queue, show_orders,
  show_own_orders, ask_credit, with_account, show_section, opens, open_section, start, section_menu,
  read_text, take_text, handle_message,
}
use pasarguard_control_plane.Chat.Stored.{
  States, Safe, bind, safe_steps, send-Safe, send_menu-Safe, current_role-Safe, if_Safe,
}
use pasarguard_control_plane.Chat.Ends.{show_catalog-Safe}
use pasarguard_control_plane.Chat.Ready.{
  Ready, AllReady, clear_state-Ready, set_state-Ready, go_on-Ready,
}
use pasarguard_control_plane.Chat.Steps.{continue_state-Ready}

module _ (w : World) (chat : ℕ) where
  pub show_catalog-Ready : (n : Notice) → Safe AllReady (show_catalog w chat n)
  show_catalog-Ready n = show_catalog-Safe AllReady clear_state-Ready w chat n

  show_requests-Ready :
      (role : Role) (s : Section) (bs : List (List Callback))
      → Safe AllReady (show_requests w chat role s bs)
  unfolding show_requests show_buttons
  show_requests-Ready role s [] = search safe_steps
  show_requests-Ready role s (b ∷ bs) = search safe_steps

  show_orders-Ready : (rows : List OrderRow) → Safe AllReady (show_orders w chat rows)
  unfolding show_orders
  show_orders-Ready [] = search safe_steps
  show_orders-Ready (r ∷ rows) = search safe_steps

  show_own_orders-Ready : Safe AllReady (show_own_orders w chat)
  unfolding show_own_orders
  show_own_orders-Ready = search (show_orders-Ready, safe_steps)

  ask_credit-Ready : Safe AllReady (ask_credit w chat)
  unfolding ask_credit
  ask_credit-Ready = search ((set_state-Ready chat Dialogue.credit tt), safe_steps)

  with_account-Ready :
      (m : Action Bot (Unit {0})) → Safe AllReady m → Safe AllReady (with_account w chat m)
  unfolding with_account
  with_account-Ready m h = record {
    run = λ s p. elim (Bool-cases (is_some (context w.env chat s.db))) [
      | inl e ↦ rw (e, with_account) (h.run s p)
      | inr e ↦ rw (e, with_account) ((send_menu-Safe AllReady w chat Notice.no_account).run s p)
    ];
  }

  begin_reseller-Ready : Safe AllReady (begin_reseller w chat)
  unfolding begin_reseller
  begin_reseller-Ready = go_on-Ready w chat _ _ tt

  show_section-Ready : (role : Role) (s : Section) → Safe AllReady (show_section w chat role s)
  unfolding show_section show_funding show_approvals show_servers show_queue show_buttons
  show_section-Ready role Section.dashboard = search safe_steps
  show_section-Ready role Section.servers = search safe_steps
  show_section-Ready role Section.orders = search safe_steps
  show_section-Ready role Section.catalog = show_catalog-Ready _
  show_section-Ready role Section.resellers = search safe_steps
  show_section-Ready role Section.finance = search safe_steps
  show_section-Ready role Section.new_order = search safe_steps
  show_section-Ready role Section.my_orders = show_own_orders-Ready
  show_section-Ready role Section.my_panel = with_account-Ready _ (search safe_steps)
  show_section-Ready role Section.usage = with_account-Ready _ (search safe_steps)
  show_section-Ready role Section.topup = with_account-Ready _ ask_credit-Ready
  show_section-Ready role Section.my_webapp = with_account-Ready _ (search safe_steps)
  show_section-Ready role Section.new_reseller = begin_reseller-Ready
  show_section-Ready role Section.funding = search (show_requests-Ready, safe_steps)
  show_section-Ready role Section.transactions = search safe_steps
  show_section-Ready role Section.credit = ask_credit-Ready
  show_section-Ready role Section.approvals = search (show_requests-Ready, safe_steps)
  show_section-Ready role Section.system = search safe_steps
  show_section-Ready role Section.support = search safe_steps
  show_section-Ready role Section.webapp = search safe_steps

  pub open_section-Ready : (s : Option Section) → Safe AllReady (open_section w chat s)
  unfolding open_section
  open_section-Ready s = bind AllReady (current_role-Safe AllReady w chat) (λ role.
      elim (Option-cases (opens role s)) [
        | inl e ↦ rw e (send-Safe AllReady w chat _ _)
        | inr (x, e) ↦ rw e (show_section-Ready role x)
      ])

  pub section_menu-Ready : (role : Role) → Safe AllReady (section_menu w chat role)
  unfolding section_menu
  section_menu-Ready role = search safe_steps

  start-Ready : (role : Role) → Safe AllReady (start w chat role)
  unfolding start
  start-Ready role = search (open_section-Ready, safe_steps)

  read_text-Ready : (value : String) (role : Role) → Safe AllReady (read_text w chat value role)
  unfolding read_text
  read_text-Ready value role =
      if_Safe AllReady (str_eq value "/start") (start-Ready role) (target (alias_of value))
    where
      labelled :
          (s : Option Section)
          → Safe AllReady (elim s [
            | none ↦ send w chat Notice.choose_from_menu (Keyboard.menu role)
            | some s ↦ open_section w chat (some s)
          ])
      labelled none = send-Safe AllReady w chat _ _
      labelled (some s) = open_section-Ready (some s)

      target :
          (t : Option Target)
          → Safe AllReady (elim t [
            | some Target.menu ↦ section_menu w chat role
            | some (Target.to s) ↦ open_section w chat (some s)
            | none ↦ elim (opens role (label_to_section value)) [
              | none ↦ send w chat Notice.choose_from_menu (Keyboard.menu role)
              | some s ↦ open_section w chat (some s)
            ]
          ])
      target (some Target.menu) = section_menu-Ready role
      target (some (Target.to s)) = open_section-Ready (some s)
      target none = labelled (opens role (label_to_section value))

  -- the dialogue of a chat is one of those that are stored
  state_of-Ready :
      (states : States) (d : Dialogue) → AllReady states → state_of chat states ≡ some d → Ready d
  unfolding state_of AllReady
  state_of-Ready [] d h e = cc
  state_of-Ready ((c, x) ∷ rest) d h e = elim (Bool-cases (c == chat)) [
    | inl f ↦
        let here : some x ≡ some d = rw f at e in let same : x ≡ d = cc in subst Ready same h.0
    | inr f ↦ state_of-Ready rest d h.1 (rw f at e)
  ]

  -- what the stored dialogues allow a call to be given
  pub with_state :
      {A : Type 0} (k : Option Dialogue → Action Bot A)
      → Safe AllReady (k none)
      → ((d : Dialogue) → Ready d → Safe AllReady (k (some d)))
      → Safe AllReady (get_state chat >>= k)
  unfolding get_state
  with_state k h g = record {
    run = λ s p. elim (Option-cases (state_of chat s.states)) [
      | inl e ↦ rw e (h.run s p)
      | inr (d, e) ↦ rw e ((g d (state_of-Ready s.states d p e)).run s p)
    ];
  }

  take_none : (value : String) → Safe AllReady (take_text w chat value none)
  unfolding take_text
  take_none value =
      bind AllReady (current_role-Safe AllReady w chat) (λ role. read_text-Ready value role)

  pub handle_message-Ready : (text : String) → Safe AllReady (handle_message w chat text)
  unfolding handle_message take_text
  handle_message-Ready text =
      if_Safe AllReady (str_eq (strip text) "/id") (send-Safe AllReady w chat _ _) (
        with_state (take_text w chat (strip text)) (take_none (strip text))
          (λ d r. continue_state-Ready w chat (strip text) d r))

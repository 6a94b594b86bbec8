-- ===== src/Chat/Forms.antt =====
-- The dialogues for credit and for a new reseller, and the answer to any dialogue
-- (src/control_plane/telegram_consumer.py: begin_reseller, continue_state).
use pasarguard_control_plane.Base.{
  ℕ, String, str_eq, Bool, false, not, ◌&&◌, ◌||◌, some, none, ◌∷◌, ◌==◌, ltb, leb, if◌then◌else◌,
  Result, ok, err, Action, gets, lift, modify, ◌>>=◌, ◌>>◌,
}
use Prim.Native.Char.{code}
use Prim.Native.String.{count}
use pasarguard_control_plane.Store.{Db, uid, request}
use pasarguard_control_plane.Store.Rows.{FundingStatus}
use pasarguard_control_plane.Chat.Context.{Context, require_context}
use pasarguard_control_plane.Chat.Digits.{number, isdigit}
use pasarguard_control_plane.Chat.Deals.{staff_chats, money_staff}
use pasarguard_control_plane.Chat.Money.{create_reseller}
use pasarguard_control_plane.Chat.State.{
  ResellerStep, ResellerData, Dialogue, Question, Notice, Keyboard, Bot, World, on_db, clear_state,
  notify_others,
}
use pasarguard_control_plane.Chat.Dialogues.{
  send_menu, ask_again, with_number, go_on, continue_order,
}
use pasarguard_control_plane.Chat.Quotes.{is_positive, continue_quote, continue_attach}
use pasarguard_control_plane.Chat.Shelves.{continue_category, given, continue_plan}

unfoldable pub begin_reseller : World → ℕ → Action Bot (Unit {0})
unfolding go_on
begin_reseller w chat =
    go_on w chat
      (Dialogue.reseller ResellerStep.name
        (record { name = none; slug = none; telegram_id = none; price = none }))
      (Question.reseller ResellerStep.name)

-- the row that a request for credit writes; nothing is audited
unfoldable pub add_request : Context → ℕ → Action Db (Unit {0})
add_request ctx amount = request (do
  id ← uid
  modify (λ d. record d {
    funding_requests =
        record {
          id = id;
          organization_id = ctx.organization.id;
          actor_id = ctx.actor_id;
          amount_irr = amount;
          status = FundingStatus.pending;
          decided_by = none;
          decided_at = none;
        }
        ∷ d.funding_requests;
  }))

unfoldable pub finish_credit : World → ℕ → ℕ → Action Bot (Unit {0})
unfolding require_context add_request clear_state send_menu notify_others staff_chats
finish_credit w chat amount = do
  ctx ← on_db (require_context w.env chat)
  on_db (add_request ctx amount)
  clear_state chat
  send_menu w chat Notice.credit_requested
  chats ← gets (λ b. staff_chats (some ctx.organization.id) money_staff b.db)
  notify_others w chat chats (Notice.credit_wanted ctx.organization.name amount) Keyboard.bare

unfoldable pub continue_credit : World → ℕ → String → Action Bot (Unit {0})
unfolding with_number finish_credit
continue_credit w chat value =
    with_number w value is_positive (ask_again w chat Question.credit) (finish_credit w chat)

abbrev pub is_slug_char : ℕ → Bool
is_slug_char c = (leb b'a' c && leb c b'z') || (leb b'0' c && leb c b'9')

-- the inner characters, with the last one held against the narrower class
slug_rest : String → Bool
slug_rest String.[] = false
slug_rest (String.◌∷◌ c s) =
    let rest = slug_rest s in
    if str_eq s "" then is_slug_char (code c) else (is_slug_char (code c) || code c == b'-') && rest

-- `[a-z0-9][a-z0-9-]{1,78}[a-z0-9]`, the whole text
unfoldable pub is_slug : String → Bool
unfolding slug_rest
is_slug String.[] = false
is_slug (String.◌∷◌ c s) =
    is_slug_char (code c) && (leb 2 (count s) && leb (count s) 79) && slug_rest s

-- any exception ends the dialogue with the news that it failed
abbrev pub after_reseller : World → ℕ → Result String × Bot → Result (Unit {0}) × Bot
after_reseller w chat (ok name, b) =
    (clear_state chat >> send_menu w chat (Notice.reseller_made name)) b
after_reseller w chat (err e, b) = (clear_state chat >> send_menu w chat Notice.reseller_failed) b

unfoldable pub or_failed : World → ℕ → Action Db String → Action Bot (Unit {0})
or_failed w chat m b = after_reseller w chat (on_db m b)

unfoldable pub finish_reseller : World → ℕ → ResellerData → String → Action Bot (Unit {0})
unfolding create_reseller or_failed
finish_reseller w chat x credit = or_failed w chat (do
  slug ← lift (given x.slug)
  name ← lift (given x.name)
  price ← lift (given x.price)
  telegram_id ← lift (given x.telegram_id)
  create_reseller w.env w.script chat (record {
    name = name;
    slug = slug;
    telegram_id = telegram_id;
    price = price;
    credit = credit;
  }))

abbrev pub reseller_step : World → ℕ → ResellerStep → ResellerData → Action Bot (Unit {0})
unfolding go_on
reseller_step w chat step x = go_on w chat (Dialogue.reseller step x) (Question.reseller step)

unfoldable pub continue_reseller :
    World → ℕ → String → ResellerStep → ResellerData → Action Bot (Unit {0})
unfolding with_number go_on finish_reseller is_slug
continue_reseller w chat value ResellerStep.name x =
    if ltb (count value) 2
    then ask_again w chat (Question.reseller ResellerStep.name)
    else reseller_step w chat ResellerStep.slug (record x { name = some value })
continue_reseller w chat value ResellerStep.slug x =
    if not (is_slug value)
    then ask_again w chat (Question.reseller ResellerStep.slug)
    else reseller_step w chat ResellerStep.telegram_id (record x { slug = some value })
continue_reseller w chat value ResellerStep.telegram_id x =
    if not (isdigit w.script value)
    then ask_again w chat (Question.reseller ResellerStep.telegram_id)
    else reseller_step w chat ResellerStep.price (record x { telegram_id = some value })
continue_reseller w chat value ResellerStep.price x =
    with_number w value is_positive (ask_again w chat (Question.reseller ResellerStep.price))
      (λ n. reseller_step w chat ResellerStep.credit (record x { price = some (number value) }))
continue_reseller w chat value ResellerStep.credit x =
    if not (isdigit w.script (number value))
    then ask_again w chat (Question.reseller ResellerStep.credit)
    else finish_reseller w chat x (number value)

-- an answer in a dialogue
unfoldable pub answer : World → ℕ → String → Dialogue → Action Bot (Unit {0})
unfolding continue_order continue_quote continue_category continue_plan continue_attach
    continue_credit continue_reseller
answer w chat value (Dialogue.order step x) = continue_order w chat value step x
answer w chat value (Dialogue.quote step x) = continue_quote w chat value step x
answer w chat value (Dialogue.category step x) = continue_category w chat value step x
answer w chat value (Dialogue.plan step x) = continue_plan w chat value step x
answer w chat value (Dialogue.attach order_id) = continue_attach w chat value order_id
answer w chat value Dialogue.credit = continue_credit w chat value
answer w chat value (Dialogue.reseller step x) = continue_reseller w chat value step x

unfoldable pub continue_state : World → ℕ → String → Dialogue → Action Bot (Unit {0})
unfolding answer clear_state send_menu
continue_state w chat value dialogue =
    if str_eq value "/cancel"
    then (clear_state chat >> send_menu w chat Notice.cancelled)
    else answer w chat value dialogue

-- ===== src/Chat/Stored.antt =====
-- A property of the stored dialogues that calls of the bot keep: the rules for the calls that a
-- handler is made of, and for those that never store a dialogue (telegram_consumer.py).

use pasarguard_control_plane.Base.{
  ℕ, ◌≡◌, String, Bool, true, false, not, List, [], ◌∷◌, ◌==◌, if◌then◌else◌, Error, Result, ok,
  err, permission_error, telegram_error, Action, pure, lift, gets, modify, raise_if, ◌>>=◌, Keeps,
  follow_keeps, where_rows, Option-cases, Bool-cases, inl, inr,
}
use pasarguard_control_plane.Store.{Db}
use pasarguard_control_plane.Chat.Context.{context}
use pasarguard_control_plane.Chat.Digits.{number, whole}
use pasarguard_control_plane.Chat.State.{
  Dialogue, Notice, Keyboard, Sent, Bot, World, on_db, send, answer_callback, notify_chats,
  notify_others, caught, or_refused,
}
use pasarguard_control_plane.Chat.Dialogues.{current_role, send_menu, with_number}

-- The dialogues of the chats, as Redis holds them.
abbrev pub States : Type 0
States = List (ℕ × Dialogue)

-- a call that keeps a property of the stored dialogues
pub record Safe (P : States → Type 0) {A : Type 0} (m : Action Bot A) : Type 0 where
  pub run : Keeps (λ b. P b.states) m

module _ (P : States → Type 0) where
  pub bind :
      {A B : Type 0} {m : Action Bot A} {f : A → Action Bot B}
      → Safe P m
      → ((a : A) → Safe P (f a))
      → Safe P (m >>= f)
  bind {A} {B} {m} {f} h k = record {
    run = λ s p. follow_keeps (λ b. P b.states) f (m s) (λ a. (k a).run) (h.run s p);
  }

  -- a call that gives back the stored dialogues as they were
  pub same : {A : Type 0} {m : Action Bot A} → ((b : Bot) → (m b).1.states ≡ b.states) → Safe P m
  same {A} {m} h = record { run = λ s p. rw (h s) p }

  pub returns-Safe : {A : Type 0} (a : A) → Safe P (pure a)
  returns-Safe a = record { run = λ s p. p }

  pub lift-Safe : {A : Type 0} (r : Result A) → Safe P (lift r)
  lift-Safe r = record { run = λ s p. p }

  pub gets-Safe : {A : Type 0} (f : Bot → A) → Safe P (gets f)
  gets-Safe f = record { run = λ s p. p }

  pub raise_if-Safe : (c : Bool) (e : Error) → Safe P (raise_if c e)
  raise_if-Safe c e = record { run = λ s p. p }

  pub on_db-Safe : {A : Type 0} (m : Action Db A) → Safe P (on_db m)
  unfolding on_db
  on_db-Safe m = record { run = λ s p. p }

  pub if_Safe :
      {A : Type 0} (c : Bool) {m n : Action Bot A}
      → Safe P m
      → Safe P n
      → Safe P (if c then m else n)
  if_Safe true h k = h
  if_Safe false h k = k

  pub or_refused-Safe :
      {A B : Type 0} {m : Action Bot A} {k : A → Action Bot B} {h : Action Bot B}
      → Safe P m
      → ((a : A) → Safe P (k a))
      → Safe P h
      → Safe P (or_refused m k h)
  unfolding or_refused
  or_refused-Safe {A} {B} {m} {k} {h} a b c = record { run = λ s p. goes_on (m s) (a.run s p) }
    where
      goes_on : (r : Result A × Bot) → P r.1.states → P (caught k h r).1.states
      goes_on (ok x, s) p = (b x).run s p
      goes_on (err permission_error, s) p = c.run s p
      goes_on (err _, s) p = p

  pub send-Safe : (w : World) (chat : ℕ) (n : Notice) (k : Keyboard) → Safe P (send w chat n k)
  unfolding send
  send-Safe w chat n k =
      bind {f = λ _. modify (λ b. record b { sent = Sent.message chat n k ∷ b.sent })}
        (raise_if-Safe (not (w.delivers chat)) telegram_error) (λ _. record { run = λ s p. p })

  pub answer_callback-Safe : (w : World) (n : Notice) → Safe P (answer_callback w n)
  unfolding answer_callback
  answer_callback-Safe w n =
      bind {f = λ _. modify (λ b. record b { sent = Sent.toast n ∷ b.sent })}
        (raise_if-Safe (not w.answers) telegram_error) (λ _. record { run = λ s p. p })

  pub notify_chats-Safe :
      (w : World) (chats : List ℕ) (n : Notice) (k : Keyboard) → Safe P (notify_chats w chats n k)
  unfolding notify_chats
  notify_chats-Safe w [] n k = returns-Safe tt
  notify_chats-Safe w (c ∷ cs) n k = bind (send-Safe w c n k) (λ _. notify_chats-Safe w cs n k)

  pub notify_others-Safe :
      (w : World) (chat : ℕ) (chats : List ℕ) (n : Notice) (k : Keyboard)
      → Safe P (notify_others w chat chats n k)
  unfolding notify_others
  notify_others-Safe w chat chats n k =
      notify_chats-Safe w (where_rows (λ c. not (c == chat)) chats) n k

  pub current_role-Safe : (w : World) (chat : ℕ) → Safe P (current_role w chat)
  unfolding current_role
  current_role-Safe w chat = record {
    run = λ s p. elim (Option-cases (context w.env chat s.db)) [
      | inl e ↦ rw (e, current_role) p
      | inr (c, e) ↦ rw (e, current_role) p
    ];
  }

  pub send_menu-Safe : (w : World) (chat : ℕ) (n : Notice) → Safe P (send_menu w chat n)
  unfolding send_menu
  send_menu-Safe w chat n =
      bind (current_role-Safe w chat) (λ role. send-Safe w chat n (Keyboard.menu role))

  -- an answer that is no number, or not a good one, is asked for again
  pub with_number-Safe :
      (w : World) (value : String) (good : ℕ → Bool) {again : Action Bot (Unit {0})}
      {use_it : ℕ → Action Bot (Unit {0})}
      → Safe P again
      → ((n : ℕ) → good n ≡ true → Safe P (use_it n))
      → Safe P (with_number w value good again use_it)
  unfolding with_number
  with_number-Safe w value good {again} {use_it} h k =
      elim (Option-cases (whole w.script (number value))) [
        | inl e ↦ rw (e, with_number) h
        | inr (r, e) ↦
            rw (e, with_number)
              (bind (lift-Safe r)
                (λ n. elim (Bool-cases (good n)) [ inl f ↦ rw f (k n f) | inr f ↦ rw f h ]))
      ]

pub ruleset safe_steps = (
  bind, lift-Safe, gets-Safe, raise_if-Safe, on_db-Safe, returns-Safe, if_Safe, or_refused-Safe,
  send-Safe, answer_callback-Safe, notify_chats-Safe, notify_others-Safe, current_role-Safe,
  send_menu-Safe,
)

-- ===== src/Lib.antt =====
-- A model of PasarGuard Control Plane (src/control_plane), the billing and administration service
-- of a network of resellers: organizations form a tree, usage that a panel reports is priced along
-- the chain of payers and settled in a double-entry ledger, and people act on it over Telegram and
-- a web app.
--
-- Parts and files. Names are those of the source.
--   Ledger      src/control_plane/app.py: account, balance, transfer
--   Domain      src/control_plane/domain.py: price_usage, cascade
--   Tenancy     src/control_plane/app.py: the organization tree, depth limits, edges
--   Usage       src/control_plane/app.py: observe; src/control_plane/api.py: usage, usage_batch
--   Outbox      src/control_plane/outbox.py: the event queue and its worker
--   Rbac        src/control_plane/rbac.py, with effective_role of app.py
--   Store       the tables of app.py as one state, audit, commit and rollback
--   Identity    membership_for, manager and the other guards of app.py and web_api.py
--   Orders      src/control_plane/web_api.py: the customer funnel; Orders/Lists what it shows
--   Funding     web_api.py: requests for credit
--   Approvals   web_api.py: wallet adjustments and their approval
--   Catalog     web_api.py: shelves and plans
--   Network     web_api.py and api.py: creation, funding and suspension of organizations
--   Servers     web_api.py: access to panels, panel_operation
--   Limiter     src/control_plane/observability.py: RateLimiter
--   Chat        src/control_plane/telegram_consumer.py: the bot
--     State       chats' dialogues (bot-state:<chat>), messages sent, set_state, send, notify_chats
--     Menus       SECTIONS, TOP, ALIASES, sections_for, menu_for, label_to_section
--     Callbacks   the buttons' data, and how handle_callback splits it
--     Digits      number, money, isdigit and int
--     Context     context, require_context, the permission check of a handler
--     Deals       orders: place_order, order_detail, customer_order_action, reviewer_order_action,
--                 apply_quote, order_queue, staff_chats
--     Desk        servers and catalog; Money funding, approvals and resellers
--     Dialogues   the dialogue of an order; Quotes those of a quote and an account; Shelves those of
--                 the catalog; Forms those of a credit and a reseller, and continue_state
--     Pages       the buttons under the pages; Sections open_section and handle_message
--     Dispatch    handle_callback, order_callback, and an update of main
--     Offers, Presses, Spelling, Buttons, Agrees, Collected, Kept, Progress, Calls hold theorems,
--                 and Spells, AsWeb, Stored, Ends, Ready, Steps, Updates, Books and Balanced lemmas
--   Base        shared names, the result monad, and lemmas on lists, integers and calls
--   Tests       a small network and concrete runs
--
-- State. A handler is a function from the state of a session to a result and the state that the
-- session has then: a raise keeps what was written, as a session does until it is rolled back, and
-- `request` of Store rolls it back at the end of a request. Rows are records, tables are lists,
-- ids are numbers that `uid` draws in order, and times are numbers of seconds that a handler is
-- given. An enumeration stands for a text column with a check constraint, and a constructor of Key
-- for each f-string that builds an idempotency key; which key a client's text spells is the field
-- `client_key` of Env, and which row a query of memberships without an order gives back first is its
-- field `first_row`. Sessions are made with autoflush off: Outbox has what a session has added apart
-- from what its queries see, and `on_outbox` flushes behind each event, which is exact where a
-- request queues one event for a topic and an aggregate. A usage batch is taken to flush between its
-- observations, which is exact where they are of distinct bindings.
--
-- Interaction. Usage and Orders, Funding, Approvals and Network call the ledger through `on_books`
-- and the queue through `on_outbox`; all web handlers pass Identity first. The bot calls the same
-- operations as the web app through `on_db`, and a refusal is the error `permission_error`. What it
-- takes from outside is the record World: the environment, the time, Python's tables of digits, the
-- texts of ids, random draws, whether Telegram takes a message, and what a server answers. A message
-- is a Notice, which names what it says; Redis drops a dialogue by the update `expire`.
--
-- Fuel. `edges` walks with one step more than there are organizations and one more, which is
-- always enough, since a walk that meets an organization twice stops. `show` has n + 1 steps for
-- the digits of n. `unique_order_slug` takes its random draws as an argument.
--
-- Not modelled: Telegram, Redis and HTTP clients, signatures, secrets, metrics, the wording of
-- messages with the figures of the dashboard, the reseller list and the transactions, the other list
-- endpoints of the web app, the order of rows by name, and locking: a transfer is one step. Amounts
-- are unbounded, where the columns are 64-bit. The delivery handlers of the outbox and the panel's
-- client are arguments.
pub mod Base
pub mod Ledger
pub mod Domain
pub mod Tenancy
pub mod Outbox
pub mod Rbac
pub mod Store
pub mod Chat
pub mod Usage
pub mod Identity
pub mod Orders
pub mod Funding
pub mod Approvals
pub mod Catalog
pub mod Limiter
pub mod Network
pub mod Servers
pub mod Tests

-- ===== src/Chat.antt =====
-- The Telegram bot, src/control_plane/telegram_consumer.py.
pub mod Menus
pub mod Offers
pub mod Callbacks
pub mod Presses
pub mod Context
pub mod Digits
pub mod Spelling
pub mod Spells
pub mod Deals
pub mod Buttons
pub mod Desk
pub mod Money
pub mod Agrees
pub mod AsWeb
pub mod State
pub mod Dialogues
pub mod Quotes
pub mod Shelves
pub mod Forms
pub mod Pages
pub mod Sections
pub mod Dispatch
pub mod Stored
pub mod Ends
pub mod Ready
pub mod Steps
pub mod Updates
pub mod Kept
pub mod Collected
pub mod Progress
pub mod Books
pub mod Balanced
pub mod Calls

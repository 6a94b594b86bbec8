-- ===== src/Ledger/Rows.antt =====
-- The rows of the double-entry ledger (src/control_plane/app.py: Account, Transaction, Entry).
-- Every account has the code "wallet" and (owner_key, code) is unique, so an account is named by
-- its owner: the id column only repeats it.
use pasarguard_control_plane.Base.{
  ℕ, String, ◌≡◌, ◌↔◌, Bool, true, false, Option, List, arith, ◌==◌, ℤ, ◌&&◌, str_eq, eq_iff,
}

-- `owner_key`: the counterpart of all funding, or an organization
pub data Owner : Type 0 where
  system : Owner
  org : ℕ → Owner

abbrev pub owner_eq : Owner → Owner → Bool
owner_eq Owner.system Owner.system = true
owner_eq (Owner.org a) (Owner.org b) = a == b
owner_eq _ _ = false

pub owner_eq_iff : (a b : Owner) → (owner_eq a b ≡ true) ↔ (a ≡ b)
owner_eq_iff Owner.system Owner.system = ground arith
owner_eq_iff Owner.system (Owner.org b) = ground arith
owner_eq_iff (Owner.org a) Owner.system = ground arith
owner_eq_iff (Owner.org a) (Owner.org b) = ground arith

-- `idempotency_key`: a constructor for each f-string that builds one, and the texts that none
-- builds. A client's text may spell a key of either kind: see `client_key` of Store.
pub data Key : Type 0 where
  client : String → Key
  usage : ℕ → ℕ → ℕ → ℕ → Key
  funding_request approval panel_order : ℕ → Key

abbrev pub key_eq : Key → Key → Bool
key_eq (Key.client a) (Key.client b) = str_eq a b
key_eq (Key.usage b c l o) (Key.usage b' c' l' o') = b == b' && c == c' && l == l' && o == o'
key_eq (Key.funding_request a) (Key.funding_request b) = a == b
key_eq (Key.approval a) (Key.approval b) = a == b
key_eq (Key.panel_order a) (Key.panel_order b) = a == b
key_eq _ _ = false

pub key_eq_iff : (a b : Key) → (key_eq a b ≡ true) ↔ (a ≡ b)
key_eq_iff (Key.client a) (Key.client b) = ground (arith, eq_iff a b)
key_eq_iff (Key.client a) _ = ground arith
key_eq_iff (Key.usage b c l o) (Key.usage b' c' l' o') = ground arith
key_eq_iff (Key.usage b c l o) _ = ground arith
key_eq_iff (Key.funding_request a) (Key.funding_request b) = ground arith
key_eq_iff (Key.funding_request a) _ = ground arith
key_eq_iff (Key.approval a) (Key.approval b) = ground arith
key_eq_iff (Key.approval a) _ = ground arith
key_eq_iff (Key.panel_order a) (Key.panel_order b) = ground arith
key_eq_iff (Key.panel_order a) _ = ground arith

pub data Kind : Type 0 where
  fund usage adjustment order_funded : Kind

pub data Side : Type 0 where
  debit credit : Side

pub record Account : Type 0 where
  pub owner : Owner
  pub balance_irr : ℤ

pub record Entry : Type 0 where
  pub transaction_id : ℕ
  pub account : Owner
  pub side : Side
  pub amount_irr : ℕ

pub record Transaction : Type 0 where
  pub id : ℕ
  pub idempotency_key : Key
  pub kind : Kind
  pub reference : Option ℕ
  pub actor_id : Option ℕ

-- `next_id` stands for `uid()`: every id is new.
pub record Books : Type 0 where
  pub next_id : ℕ
  pub accounts : List Account
  pub transactions : List Transaction
  pub entries : List Entry

-- ===== src/Tests/Metering.antt =====
-- Runs of the metering: a reading that the reseller's credit stops half way.
use pasarguard_control_plane.Base.{
  ◌≡◌, refl, some, none, [], ◌∷◌, true, ok, err, http, pos, ◌+ℤ◌, ◌-ℤ◌,
}
use pasarguard_control_plane.Domain.{Settlement, cascade, price_usage, round_half_up}
use pasarguard_control_plane.Tenancy.{ContractStatus, edges}
use pasarguard_control_plane.Ledger.{account, find_transaction, transfer}
use pasarguard_control_plane.Ledger.Credit.{Unmoved, Ended}
use pasarguard_control_plane.Ledger.Rows.{Owner, Books, Transaction, Key, Kind}
use pasarguard_control_plane.Store.{Db}
use pasarguard_control_plane.Store.Rows.{OrderStatus}
use pasarguard_control_plane.Usage.{
  find_checkpoint, coefficient_of, edges_of, priced, observe, usage, usage_batch,
}
use pasarguard_control_plane.Usage.Settle.{IsGood, observe-IsGood}
use pasarguard_control_plane.Usage.Requests.{
  HalfPaid, charge_row, usage_takes_back, usage_batch-keeps_half,
}
use pasarguard_control_plane.Tests.Data.{db_with, network, reading, binding, checkpoint}
use pasarguard_control_plane.Tests.Kernel.{no_books-IsSound, no_books-IsSolvent}

abbrev db : Db
db = db_with OrderStatus.pending

good : IsGood network db
good = record { sound = no_books-IsSound; solvent = no_books-IsSolvent; same_orgs = refl }

observe-IsGood_example : IsGood network (observe 2 50 reading db).1
observe-IsGood_example = observe-IsGood network 2 50 reading db good

-- the customer pays 1500 to the reseller
abbrev first : Settlement
first = record {
  child_id = 3;
  parent_id = 2;
  delta_bytes = pos 1073741824;
  rate_irr = 1500;
  amount_irr = 1500;
}

-- and the reseller would pay three times as much
abbrev second : Settlement
second = record {
  child_id = 2;
  parent_id = 1;
  delta_bytes = pos 1073741824;
  rate_irr = 4500;
  amount_irr = 4500;
}

-- the same network with a dear contract on top
abbrev dear_db : Db
dear_db = record db {
  tenants = record db.tenants {
    contracts =
        record {
          parent_id = 1;
          child_id = 2;
          price_per_gib_irr = 4500;
          status = ContractStatus.active;
        }
        ∷ record {
          parent_id = 2;
          child_id = 3;
          price_per_gib_irr = 1500;
          status = ContractStatus.active;
        }
        ∷ [];
  };
}

abbrev paid : Transaction
paid = record {
  id = 1;
  idempotency_key = Key.usage 80 0 1073741824 3;
  kind = Kind.usage;
  reference = some 80;
  actor_id = none;
}

abbrev after_first : Books
after_first = (charge_row dear_db binding 0 1073741824 first dear_db.books).1

abbrev after_second : Books
after_second = (charge_row dear_db binding 0 1073741824 second after_first).1

half_paid : HalfPaid dear_db reading 2 50
unfolding priced transfer ◌+ℤ◌ ◌-ℤ◌ find_checkpoint coefficient_of edges_of edges cascade
    price_usage round_half_up account
half_paid = record {
  binding = binding;
  checkpoint = checkpoint;
  first = first;
  second = second;
  others = [];
  transaction = paid;
  after_first = after_first;
  after_second = after_second;
  found = refl;
  known = refl;
  above = refl;
  rows = refl;
  paid = refl;
  refused = refl;
}

usage_takes_back_example :
    let (r, d') = usage 2 50 reading dear_db in
    (r ≡ err (http 402)) × (d'.books ≡ dear_db.books) × (d'.checkpoints ≡ dear_db.checkpoints)
usage_takes_back_example = usage_takes_back 2 50 reading dear_db half_paid

usage_batch-keeps_half_example :
    let (r, d') = usage_batch 2 50 (reading ∷ []) dear_db in
    (r ≡ err (http 402))
    × (d'.checkpoints ≡ dear_db.checkpoints)
    × (find_transaction (Key.usage 80 0 1073741824 first.child_id) d'.books.transactions
        ≡ some paid)
    × (d'.books ≡ half_paid.after_second)
    × Unmoved after_first d'.books
    × Ended dear_db.tenants.organizations
        (Owner.org first.child_id)
        (Owner.org first.parent_id)
        first.amount_irr
        (Key.usage 80 0 1073741824 first.child_id)
        Kind.usage
        (some 80)
        true
        none
        dear_db.books
        (ok paid, after_first)
unfolding half_paid transfer
usage_batch-keeps_half_example = usage_batch-keeps_half 2 50 reading dear_db half_paid

-- ===== src/Chat/Books.antt =====
-- What a call does to the ledger within a session (src/control_plane/app.py, web_api.py): the rules
-- by which the calls of a handler keep it sound.
use pasarguard_control_plane.Base.{
  ℕ, ◌≡◌, refl, Bool, true, false, Option, some, none, if◌then◌else◌, Error, Result, ok, err,
  Action, pure, lift, gets, modify, raise_if, or_raise, ◌>>=◌, ◌>>◌, Keeps, follow_keeps, String,
  List, ℤ, pos, negsuc, zero, suc, http, permission_error,
}
use pasarguard_control_plane.Tenancy.{Organization}
use pasarguard_control_plane.Ledger.{account, transfer}
use pasarguard_control_plane.Ledger.Rows.{Owner, Key, Kind, Books}
use pasarguard_control_plane.Ledger.Sound.{IsSound, transfer-IsSound}
use pasarguard_control_plane.Orders.Money.{account-IsSound}
use pasarguard_control_plane.Outbox.Rows.{Topic, Payload}
use pasarguard_control_plane.Store.{Db, audit, uid, on_books, on_outbox, request}
use pasarguard_control_plane.Store.Rows.{Detail}
use pasarguard_control_plane.Chat.Context.{refusal, as_refusal}
use pasarguard_control_plane.Chat.AsWeb.{close, request-close}

-- a call that keeps the ledger sound, whether it returns or raises
pub record Sound {A : Type 0} (m : Action Db A) : Type 0 where
  pub run : Keeps (λ d. IsSound d.books) m

pub bind :
    {A B : Type 0} {m : Action Db A} {f : A → Action Db B}
    → Sound m
    → ((a : A) → Sound (f a))
    → Sound (m >>= f)
bind {A} {B} {m} {f} h k = record {
  run = λ d s. follow_keeps (λ d. IsSound d.books) f (m d) (λ a. (k a).run) (h.run d s);
}

-- a call that leaves the books as they were
pub same : {A : Type 0} {m : Action Db A} → ((d : Db) → (m d).1.books ≡ d.books) → Sound m
same {A} {m} h = record { run = λ d s. rw (h d) s }

pub returns-Sound : {A : Type 0} (a : A) → Sound (pure a)
returns-Sound a = record { run = λ d s. s }

pub lift-Sound : {A : Type 0} (r : Result A) → Sound (lift r)
lift-Sound r = record { run = λ d s. s }

pub gets-Sound : {A : Type 0} (f : Db → A) → Sound (gets f)
gets-Sound f = record { run = λ d s. s }

-- a result that is computed from what is read
pub reads-Sound : {A : Type 0} (f : Db → Result A) → Sound (λ d. (f d, d))
reads-Sound f = record { run = λ d s. s }

pub raise_if-Sound : (c : Bool) (e : Error) → Sound (raise_if c e)
raise_if-Sound c e = record { run = λ d s. s }

pub or_raise-Sound : {A : Type 0} (o : Option A) (e : Error) → Sound (or_raise o e)
or_raise-Sound none e = record { run = λ d s. s }
or_raise-Sound (some a) e = record { run = λ d s. s }

pub modify-Sound : (f : Db → Db) → ((d : Db) → (f d).books ≡ d.books) → Sound (modify f)
modify-Sound f h = record { run = λ d s. rw (h d) s }

pub uid-Sound : Sound uid
unfolding uid
uid-Sound = record { run = λ d s. s }

pub audit-Sound :
    (action target_type : String) (target actor organization : Option ℕ)
    (details : List (String × Detail))
    → Sound (audit action target_type target actor organization details)
unfolding audit
audit-Sound action target_type target actor organization details = record { run = λ d s. s }

pub on_outbox-Sound : (now : ℕ) (t : Topic) (id : ℕ) (p : Payload) → Sound (on_outbox now t id p)
unfolding on_outbox
on_outbox-Sound now t id p = record { run = λ d s. s }

pub if_Sound :
    {A : Type 0} (c : Bool) {m n : Action Db A} → Sound m → Sound n → Sound (if c then m else n)
if_Sound true h k = h
if_Sound false h k = k

pub request-Sound : {A : Type 0} {m : Action Db A} → Sound m → Sound (request m)
request-Sound {A} {m} h = record { run = λ d s. rw (request-close m d) (end d s (m d) (h.run d s)) }
  where
    end :
        (d : Db)
        → IsSound d.books
        → (r : Result A × Db) → IsSound r.1.books
        → IsSound (close d r).1.books
    end d s (ok a, d') k = k
    end d s (err e, d') k = s

pub as_refusal-Sound : {A : Type 0} {m : Action Db A} → Sound m → Sound (as_refusal m)
unfolding as_refusal
as_refusal-Sound {A} {m} h = record { run = λ d s. end (m d) (h.run d s) }
  where
    end : (r : Result A × Db) → IsSound r.1.books → IsSound (refusal r).1.books
    end (ok a, d') k = k
    end (err (http n), d') k = k
    end (err _, d') k = k

pub on_books-Sound :
    {A : Type 0} (m : Action Books A)
    → ((b : Books) → IsSound b → IsSound (m b).1)
    → Sound (on_books m)
unfolding on_books
on_books-Sound m h = record { run = λ d s. h d.books s }

pub account-Sound : (o : Owner) → Sound (on_books (account o))
account-Sound o = on_books-Sound (account o) (account-IsSound o)

pub transfer-Sound :
    (orgs : List Organization) (source target : Owner) (amount : ℕ) (key : Key) (kind : Kind)
    (ref : Option ℕ) (enforce : Bool) (actor : Option ℕ)
    → Sound (on_books (transfer orgs source target amount key kind ref enforce actor))
transfer-Sound orgs source target amount key kind ref enforce actor =
    on_books-Sound (transfer orgs source target amount key kind ref enforce actor)
      (transfer-IsSound orgs source target amount key kind ref enforce actor)

pub ruleset sound_steps = (
  bind, returns-Sound, lift-Sound, gets-Sound, reads-Sound, raise_if-Sound, or_raise-Sound,
  modify-Sound, uid-Sound, audit-Sound, on_outbox-Sound, request-Sound, as_refusal-Sound,
  account-Sound, if_Sound, transfer-Sound, refl,
)

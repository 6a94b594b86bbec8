-- ===== src/Funding/Decide.antt =====
-- What a decision on a request for credit does (web_api.py: decide_funding_request).
use pasarguard_control_plane.Base.{
  ℕ, String, str_eq, ◌≡◌, refl, ap, sym, ◌∙◌, Bool, true, false, not, ◌||◌, some, List, [], ◌∷◌,
  ◌==◌, find, arith, ok, err, Action, http, Post, Reads, Post-follow, Reads-follow, Post-weaken,
  or_raise, or_raise-Reads, raise_if, raise_if-Reads, gets, pure, ◌>>=◌, ◌>>◌, if◌then◌else◌,
  find-passes, ==_iff, >>=-err,
}
use pasarguard_control_plane.Tenancy.{Organization, get_org}
use pasarguard_control_plane.Ledger.{transfer}
use pasarguard_control_plane.Ledger.Credit.{Ended, returned-Ended}
use pasarguard_control_plane.Ledger.Rows.{Owner, Key, Kind, Books, Transaction}
use pasarguard_control_plane.Store.{Db, audit, on_books}
use pasarguard_control_plane.Store.Rows.{FundingStatus, FundingRequest}
use pasarguard_control_plane.Orders.Closing.{on_books-Post}
use pasarguard_control_plane.Funding.{
  is_pending, put_request, may_decide, decidable_request, pay_request, decided, record_decision,
  carry_out, decide_funding_request,
}

-- The request waits, and its organization is the branch's to fund.
pub record IsDecidable (d : Db) (branch request_id : ℕ) (allow_rootless : Bool) (r : FundingRequest)
    : Type 0 where
  pub child : Organization
  pub found : find (λ x. x.id == request_id) d.funding_requests ≡ some r
  pub waits : is_pending r.status ≡ true
  pub known : get_org r.organization_id d.tenants.organizations ≡ some child
  pub allowed : may_decide branch allow_rootless child ≡ true

decidable_request-Reads :
    (d : Db) (branch request_id : ℕ) (allow_rootless : Bool)
    → Reads d
        (IsDecidable d branch request_id allow_rootless)
        (decidable_request branch request_id allow_rootless d)
unfolding decidable_request
decidable_request-Reads d branch request_id allow_rootless =
    let Q : FundingRequest → Db → Type 0 =
      λ r s. (s ≡ d) × IsDecidable d branch request_id allow_rootless r in
    let guard : FundingRequest → Organization → Action Db FundingRequest =
      λ r c. raise_if (not (may_decide branch allow_rootless c)) (http 403) >> pure r in
    let look : FundingRequest → Action Db FundingRequest = λ r.
      (gets (λ d. get_org r.organization_id d.tenants.organizations) >>= λ o. or_raise o (http 404))
      >>= guard r in
    let waiting : FundingRequest → Action Db FundingRequest =
      λ r. raise_if (not (is_pending r.status)) (http 409) >> look r in
    Reads-follow waiting d (λ r. find (λ x. x.id == request_id) d.funding_requests ≡ some r) Q _
      (or_raise-Reads d (http 404) (find (λ x. x.id == request_id) d.funding_requests))
      (λ r found.
        Reads-follow (λ _. look r) d (λ _. not (is_pending r.status) ≡ false) Q _
          (raise_if-Reads d (http 409) (not (is_pending r.status)))
          (λ _ waits.
            Reads-follow (guard r) d
              (λ o. get_org r.organization_id d.tenants.organizations ≡ some o) Q _
              (or_raise-Reads d (http 404) (get_org r.organization_id d.tenants.organizations))
              (λ c known.
                Reads-follow (λ _. pure r) d (λ _. not (may_decide branch allow_rootless c) ≡ false)
                  Q _ (raise_if-Reads d (http 403) (not (may_decide branch allow_rootless c)))
                  (λ _ allowed. (
                    refl,
                    record {
                      child = c;
                      found = found;
                      waits = ground (arith, waits);
                      known = known;
                      allowed = ground (arith, allowed);
                    },
                  )))))

-- The ledger behind a decision. An approval is one transfer that returned: with a new key, and the
-- amount moved from SYSTEM to the organization, or with a key used before, and nothing moved. A
-- rejection is nothing.
abbrev pub Paid : ℕ → Bool → FundingRequest → Db → Db → Type 0
Paid actor true r d d' =
    (t : Transaction) × (transfer d.tenants.organizations Owner.system (Owner.org r.organization_id)
        r.amount_irr (Key.funding_request r.id) Kind.fund (some r.id) false (some actor) d.books
      ≡ (ok t, d'.books))
    × Ended d.tenants.organizations Owner.system (Owner.org r.organization_id) r.amount_irr
        (Key.funding_request r.id) Kind.fund (some r.id) false (some actor) d.books (ok t, d'.books)
Paid actor false r d d' = d'.books ≡ d.books

pub record Decided (now actor branch request_id : ℕ) (decision : String) (allow_rootless : Bool)
    (d : Db) (r' : FundingRequest) (d' : Db) : Type 0 where
  pub row : FundingRequest
  pub decidable : IsDecidable d branch request_id allow_rootless row
  pub moved :
      r'
      ≡ decided now actor
          (if str_eq decision "approve" then FundingStatus.approved else FundingStatus.rejected)
          row
  pub requests : d'.funding_requests ≡ put_request r' d.funding_requests
  pub tenants : d'.tenants ≡ d.tenants
  pub paid : Paid actor (str_eq decision "approve") row d d'
  pub known_word : (str_eq decision "approve" || str_eq decision "reject") ≡ true

pay_request-Paid :
    (actor : ℕ) (r : FundingRequest) (d : Db)
    → Post
        (λ _ d'. Paid actor true r d d' × (d' ≡ record d { books = d'.books }))
        (pay_request actor r d)
unfolding pay_request
pay_request-Paid actor r d =
    let m : Action Books Transaction =
      transfer d.tenants.organizations Owner.system (Owner.org r.organization_id) r.amount_irr
        (Key.funding_request r.id) Kind.fund (some r.id) false (some actor) in
    Post-follow (λ _. pure tt)
      (λ t d'. (m d.books ≡ (ok t, d'.books)) × (d' ≡ record d { books = d'.books }))
      (λ _ d'. Paid actor true r d d' × (d' ≡ record d { books = d'.books })) (on_books m d)
      (on_books-Post m d)
      (λ t d' (e, rest). (
        (
          t,
          e,
          returned-Ended d.tenants.organizations Owner.system (Owner.org r.organization_id)
              r.amount_irr (Key.funding_request r.id) Kind.fund (some r.id) false (some actor)
              d.books e,
        ),
        rest,
      ))

abbrev outcome : Bool → FundingStatus
outcome approves = if approves then FundingStatus.approved else FundingStatus.rejected

carry_out_lem :
    (now actor : ℕ) (approves : Bool) (r : FundingRequest) (d : Db)
    → Post
        (λ r' d'.
          (r' ≡ decided now actor (outcome approves) r)
          × (d'.funding_requests ≡ put_request r' d.funding_requests)
          × (d'.tenants ≡ d.tenants)
          × Paid actor approves r d d')
        (carry_out now actor approves r d)
unfolding carry_out record_decision audit
carry_out_lem now actor true r d =
    Post-follow (λ _. record_decision now actor true r)
      (λ _ d'. Paid actor true r d d' × (d' ≡ record d { books = d'.books })) _
      (pay_request actor r d) (pay_request-Paid actor r d)
      (λ _ d' (paid, rest). (
        refl,
        ap (λ z. put_request (decided now actor FundingStatus.approved r) z.funding_requests) rest,
        ap (λ z. z.tenants) rest,
        paid,
      ))
carry_out_lem now actor false r d = (refl, refl, refl, refl)

module _ (now actor branch request_id : ℕ) (decision : String) (allow_rootless : Bool)
    (d : Db) where
  -- A decision that returns says "approve" or "reject", about a request that waits and whose
  -- organization is directly below the deciding one, or below none where that is allowed. It
  -- closes the request. A rejection leaves the ledger as it is; an approval moves the amount from
  -- SYSTEM to the organization, unless the ledger has a transaction under the request's key
  -- already: then nothing moves.
  pub decide_funding_request-Decided :
      Post
        (Decided now actor branch request_id decision allow_rootless d)
        (decide_funding_request now actor branch request_id decision allow_rootless d)
  unfolding decide_funding_request
  decide_funding_request-Decided =
      let Q : FundingRequest → Db → Type 0 =
        Decided now actor branch request_id decision allow_rootless d in
      let approves = str_eq decision "approve" in
      let known = approves || str_eq decision "reject" in
      Reads-follow
        (λ _. decidable_request branch request_id allow_rootless >>= carry_out now actor approves) d
        (λ _. not known ≡ false) Q (raise_if (not known) (http 422) d)
        (raise_if-Reads d (http 422) (not known))
        (λ _ word.
          Reads-follow (carry_out now actor approves) d
            (IsDecidable d branch request_id allow_rootless) Q
            (decidable_request branch request_id allow_rootless d)
            (decidable_request-Reads d branch request_id allow_rootless)
            (λ r decidable.
              Post-weaken _ Q (carry_out now actor approves r d)
                (carry_out_lem now actor approves r d)
                (λ r' d' (moved, requests, tenants, paid). record {
                  row = r;
                  decidable = decidable;
                  moved = moved;
                  requests = requests;
                  tenants = tenants;
                  paid = paid;
                  known_word = ground (arith, word);
                })))

find_request-put_request :
    (r old : FundingRequest) (rows : List FundingRequest)
    → find (λ x. x.id == r.id) rows ≡ some old
    → find (λ x. x.id == r.id) (put_request r rows) ≡ some r
unfolding put_request
find_request-put_request r old [] e = ground arith
find_request-put_request r old (x ∷ rows) e = ground (arith, find_request-put_request r old rows)

-- a request that does not wait is refused
decided_refused :
    (d : Db) (branch request_id : ℕ) (allow_rootless : Bool) (r : FundingRequest)
    → find (λ x. x.id == request_id) d.funding_requests ≡ some r
    → is_pending r.status ≡ false
    → decidable_request branch request_id allow_rootless d ≡ (err (http 409), d)
unfolding decidable_request
decided_refused d branch request_id allow_rootless r found e = rw (found, e) refl

outcome_closed : (approves : Bool) → is_pending (outcome approves) ≡ false
outcome_closed true = refl
outcome_closed false = refl

-- A request is decided once: after a decision that returned, every decision on the same request,
-- by whichever branch and of either kind, is refused with 409 and changes nothing.
pub decide_funding_request-once :
    (now actor branch request_id : ℕ) (decision : String) (allow_rootless : Bool) (d : Db)
    (now' actor' branch' : ℕ) (decision' : String) (allow_rootless' : Bool)
    → (str_eq decision' "approve" || str_eq decision' "reject") ≡ true
    → Post
        (λ _ d'.
          decide_funding_request now' actor' branch' request_id decision' allow_rootless' d'
          ≡ (err (http 409), d'))
        (decide_funding_request now actor branch request_id decision allow_rootless d)
unfolding decide_funding_request
decide_funding_request-once now actor branch request_id decision allow_rootless d now' actor'
      branch' decision' allow_rootless' word =
    Post-weaken (Decided now actor branch request_id decision allow_rootless d) _
      (decide_funding_request now actor branch request_id decision allow_rootless d)
      (decide_funding_request-Decided now actor branch request_id decision allow_rootless d)
      (λ r' d' h.
        let row_at = λ (i : ℕ) (rows : List FundingRequest). find (λ x. x.id == i) rows in
        let is_row : r'.id ≡ request_id =
          ap (λ z. z.id) h.moved
          ∙ (==_iff h.row.id request_id).0
              (find-passes (λ x. x.id == request_id) d.funding_requests h.row h.decidable.found) in
        let found : row_at request_id d'.funding_requests ≡ some r' =
          ap (row_at request_id) h.requests
          ∙ ap (λ i. row_at i (put_request r' d.funding_requests)) (sym is_row)
          ∙ find_request-put_request r' h.row d.funding_requests
              (ap (λ i. row_at i d.funding_requests) is_row ∙ h.decidable.found) in
        let closed : is_pending r'.status ≡ false =
          ap (λ z. is_pending z.status) h.moved ∙ outcome_closed (str_eq decision "approve") in
        rw word (
          >>=-err (decidable_request branch' request_id allow_rootless')
            (carry_out now' actor' (str_eq decision' "approve")) d'
            (decided_refused d' branch' request_id allow_rootless' r' found closed)))

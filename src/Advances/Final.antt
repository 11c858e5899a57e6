-- ===== src/Advances/Final.antt =====
-- The end of an advance's life: what holds once it is consumed, refunded or expired, and what a
-- request that ends it has checked.
use aris_cloud.Prelude.{
  ℕ, ◌<◌, ◌∙◌, ap, inr, inl, refl, ◌≡◌, ◌≢◌, Bool, true, false, not, ◌&&◌, List, [], ◌∷◌,
  if◌then◌else◌, arith, select, first, none, some, Option, Option-cases,
}
use aris_cloud.Prelude.Int.{ℤ, pos, leb_ℤ, ltb_ℤ}
use aris_cloud.Prelude.Result.{
  Result, ok, raise_if, or_raise, Ensures, Ensures-bind, Ensures-ok, validation_error,
  business_conflict, resource_not_found,
}
use aris_cloud.Scope.{TokenData, Store, enforce_tenant_scope, enforce_store_scope}
use aris_cloud.Cash.Db.{Caller}
use aris_cloud.Cash.Flow.{issue_voucher_cash, refund_voucher_cash, record_non_cash_voucher_movement}
use aris_cloud.Advances.{
  is_due, Option, Bool-cases, AdvanceStatus, VoucherType, PosAdvance, is_active, is_terminal,
  expire_advance_if_needed, sweep_expired_advances, find_advance, put_advance,
}
use aris_cloud.Advances.Handlers.{
  expire_stored, get_advance, has_code, lookup_advance, validate_advance, AdvanceDb, AdvanceAction,
  refund, consume, expire_now, AdvanceRef, names, issuance_reason, refund_reason, create_advance,
  caller_at, act_on_advance, resolve_sale_id_for_consume, mutate_advance, sweep_endpoint,
  resolve_advance_for_checkout, checkout_advance,
}

-- The requests that write advances; those that list them run a sweep.
pub data AdvanceRequest : Type 0 where
  create : Caller → ℕ → ℤ → Bool → VoucherType → AdvanceRequest
  mutate : TokenData → List Store → Caller → ℕ → ℕ → AdvanceAction → AdvanceRequest
  sweep : Caller → AdvanceRequest
  get : TokenData → List Store → Caller → ℕ → AdvanceRequest
  lookup : TokenData → List Store → Caller → ℕ → Option ℕ → AdvanceRequest
  checkout : Caller → ℕ → AdvanceRef → ℤ → AdvanceRequest

unfoldable pub perform : AdvanceRequest → AdvanceDb → Result AdvanceDb
perform (create c today amount in_cash voucher_type) db =
    create_advance c today amount in_cash voucher_type db
perform (mutate token stores c today id action) db =
    mutate_advance token stores c today id action db
perform (sweep c) db = ok (sweep_endpoint c db)
perform (get token stores c id) db = get_advance token stores c id db
perform (lookup token stores c barcode number) db = lookup_advance token stores c barcode number db
perform (checkout c sale_id ref amount) db = checkout_advance c sale_id ref amount db

-- `uuid4` gives a new advance an id that no advance has.
abbrev pub IsFresh : AdvanceRequest → AdvanceDb → Type 0
IsFresh (create c today amount in_cash voucher_type) db = find_advance c.new_id db.advances ≡ none
IsFresh _ db = Unit

-- The primary key.
abbrev pub UniqueIds : List PosAdvance → Type 0
UniqueIds [] = Unit
UniqueIds (row ∷ rows) = (find_advance row.id rows ≡ none) × UniqueIds rows

find_advance_id :
    (id : ℕ) (rows : List PosAdvance) {row : PosAdvance}
    → find_advance id rows ≡ some row
    → row.id ≡ id
unfolding find_advance
find_advance_id id [] {row} h = cc
find_advance_id id (r ∷ rows) {row} h = ground (arith, find_advance_id id rows {row = row})

find_advance-put :
    (id : ℕ) (r : PosAdvance) (rows : List PosAdvance)
    → r.id ≢ id
    → find_advance id (put_advance r rows) ≡ find_advance id rows
unfolding find_advance put_advance
find_advance-put id r [] h = refl
find_advance-put id r (x ∷ rows) h = ground (arith, find_advance-put id r rows h)

stored_absent :
    (p : PosAdvance → Bool) (rows : List PosAdvance) {r : PosAdvance}
    → first (select p rows) ≡ some r
    → find_advance r.id rows ≢ none
unfolding find_advance
stored_absent p [] {r} h = ground arith
stored_absent p (x ∷ rows) {r} h = ground (arith, stored_absent p rows {r = r})

stored :
    (p : PosAdvance → Bool) (rows : List PosAdvance) {r : PosAdvance}
    → UniqueIds rows
    → first (select p rows) ≡ some r
    → find_advance r.id rows ≡ some r
unfolding find_advance
stored p [] {r} u h = cc
stored p (x ∷ rows) {r} u h =
    ground (arith, stored p rows {r = r} u.1, stored_absent p rows {r = r})

find_advance-sweep :
    (t s now id : ℕ) (rows : List PosAdvance) {row : PosAdvance}
    → is_terminal row.status ≡ true
    → find_advance id rows ≡ some row
    → find_advance id (sweep_expired_advances t s now rows).0 ≡ some row
unfolding find_advance sweep_expired_advances expire_advance_if_needed
find_advance-sweep t s now id [] {row} done h = h
find_advance-sweep t s now id (x ∷ rows) {row} done h =
    ground (arith, find_advance-sweep t s now id rows {row = row} done)

module _ (id : ℕ) (row : PosAdvance) (done : is_terminal row.status ≡ true) where
  abbrev Holds : AdvanceDb → Type 0
  Holds db = find_advance id db.advances ≡ some row

  expire_id : (now : ℕ) (r : PosAdvance) → (expire_advance_if_needed now r).0.id ≡ r.id
  unfolding expire_advance_if_needed
  expire_id now r = ground arith

  expire_terminal :
      (now : ℕ) (r : PosAdvance)
      → is_terminal r.status ≡ true
      → (expire_advance_if_needed now r).0 ≡ r
  unfolding expire_advance_if_needed
  expire_terminal now r h = ground arith

  module _ (db : AdvanceDb) (h : Holds db) where
    put-Holds :
        (r : PosAdvance) (rows : List PosAdvance)
        → r.id ≢ id
        → rows ≡ db.advances
        → find_advance id (put_advance r rows) ≡ some row
    put-Holds r rows other same = find_advance-put id r rows other ∙ ap (find_advance id) same ∙ h

    act-Holds :
        (c : Caller) (today : ℕ) (action : AdvanceAction) (r : PosAdvance) (db' : AdvanceDb)
        → r.id ≢ id
        → db'.advances ≡ db.advances
        → Ensures Holds (act_on_advance c today action r db')
    unfolding act_on_advance
    act-Holds c today (refund none) r db' other same = tt
    act-Holds c today (refund (some in_cash)) r db' other same =
        Ensures-bind Holds
          (if in_cash
            then refund_voucher_cash c r.id r.issued_amount db'.cash
            else ok (
                record_non_cash_voucher_movement c today (refund_reason r.voucher_type) r.id
                  r.issued_amount db'.cash))
          _
          λ cash _.
            put-Holds (record r { status = AdvanceStatus.refunded; refunded_at = some c.now })
              db'.advances other same
    act-Holds c today (consume none sale_id) r db' other same = tt
    act-Holds c today (consume (some total) sale_id) r db' other same =
        Ensures-bind Holds (raise_if (ltb_ℤ total r.issued_amount) validation_error) _ λ _ _.
          Ensures-bind Holds (resolve_sale_id_for_consume db'.sales r sale_id) _ λ sale _.
            put-Holds (record r { status = AdvanceStatus.consumed; consumed_sale_id = sale })
              db'.advances other same
    act-Holds c today expire_now r db' other same =
        put-Holds (record r { status = AdvanceStatus.expired; expired_at = some c.now })
          db'.advances other same

    live_other :
        (now id' : ℕ) (found : PosAdvance) {u : Unit {0}}
        → or_raise (find_advance id' db.advances) resource_not_found ≡ ok found
        → raise_if (is_terminal (expire_advance_if_needed now found).0.status) business_conflict
          ≡ ok u
        → (expire_advance_if_needed now found).0.id ≢ id
    live_other now id' found e live same = ground (
      arith,
      done,
      h,
      expire_id now found,
      expire_terminal now found,
      find_advance_id id' db.advances {row = found},
    )

    mutate-Holds :
        (token : TokenData) (stores : List Store) (c : Caller) (today id' : ℕ)
        (action : AdvanceAction)
        → Ensures Holds (mutate_advance token stores c today id' action db)
    unfolding mutate_advance
    mutate-Holds token stores c today id' action =
        Ensures-bind Holds (or_raise (find_advance id' db.advances) resource_not_found) _ λ found e.
          let r = (expire_advance_if_needed c.now found).0 in
          Ensures-bind Holds (enforce_tenant_scope token (some found.tenant_id) false) _ λ _ _.
            Ensures-bind Holds (enforce_store_scope token (some found.store_id) stores false) _
              λ _ _.
                Ensures-bind Holds (raise_if (is_terminal r.status) business_conflict) _ λ _ live.
                  act-Holds (caller_at c r) today action r _ (live_other c.now id' found e live)
                    refl

    create-Holds :
        (c : Caller) (today : ℕ) (amount : ℤ) (in_cash : Bool) (voucher_type : VoucherType)
        → find_advance c.new_id db.advances ≡ none
        → Ensures Holds (create_advance c today amount in_cash voucher_type db)
    unfolding create_advance find_advance
    create-Holds c today amount in_cash voucher_type fresh =
        Ensures-bind Holds (raise_if (leb_ℤ amount (pos 0)) validation_error) _ λ _ _.
          Ensures-bind Holds
            (if in_cash
              then issue_voucher_cash c c.new_id amount db.cash
              else ok (
                  record_non_cash_voucher_movement c today (issuance_reason voucher_type) c.new_id
                    amount db.cash))
            _ λ cash _. ground (arith, h, fresh)

    resolve_other :
        (c : Caller) (ref : AdvanceRef) (amount : ℤ)
        → UniqueIds db.advances
        → Ensures (λ r. r.id ≢ id) (resolve_advance_for_checkout c ref amount db)
    unfolding resolve_advance_for_checkout
    resolve_other c ref amount u =
        let P : PosAdvance → Type 0 = λ r. r.id ≢ id in
        Ensures-bind P (or_raise (first (select (names c ref) db.advances)) validation_error) _
          λ found e.
            let r = (expire_advance_if_needed c.now found).0 in
            Ensures-bind P (raise_if (not (is_active r.status)) business_conflict) _ λ _ live.
              Ensures-bind P
                (raise_if (not (leb_ℤ amount r.issued_amount && leb_ℤ r.issued_amount amount))
                  validation_error)
                _
                λ _ _ same. ground (
                  arith,
                  done,
                  h,
                  expire_id c.now found,
                  expire_terminal c.now found,
                  stored (names c ref) db.advances {r = found} u,
                )

    checkout-Holds :
        (c : Caller) (sale_id : ℕ) (ref : AdvanceRef) (amount : ℤ)
        → UniqueIds db.advances
        → Ensures Holds (checkout_advance c sale_id ref amount db)
    unfolding checkout_advance
    checkout-Holds c sale_id ref amount u =
        Ensures-bind Holds (resolve_advance_for_checkout c ref amount db) _ λ r e.
          put-Holds (record r { status = AdvanceStatus.consumed; consumed_sale_id = some sale_id })
            db.advances
            (Ensures-ok (λ r'. r'.id ≢ id) (resolve_advance_for_checkout c ref amount db)
              (resolve_other c ref amount u) e)
            refl

    expire_stored-Holds :
        (now : ℕ) (found : PosAdvance)
        → find_advance found.id db.advances ≡ some found
        → Holds (expire_stored now found db)
    unfolding expire_stored expire_advance_if_needed
    expire_stored-Holds now found there = elim (Bool-cases (is_due now found)) [
      | inr fresh ↦ rw fresh h
      | inl due ↦
          let other : found.id ≢ id = ground (arith, due, done, h, there) in
          let r = record found { status = AdvanceStatus.expired; expired_at = some now } in
          rw due (put-Holds r db.advances other refl)
    ]

    get-Holds :
        (token : TokenData) (stores : List Store) (c : Caller) (id' : ℕ)
        → Ensures Holds (get_advance token stores c id' db)
    unfolding get_advance
    get-Holds token stores c id' =
        Ensures-bind Holds (or_raise (find_advance id' db.advances) resource_not_found) _ λ found e.
          Ensures-bind Holds (enforce_tenant_scope token (some found.tenant_id) false) _ λ _ _.
            Ensures-bind Holds (enforce_store_scope token (some found.store_id) stores false) _
              λ _ _.
                expire_stored-Holds c.now found
                  (ground (arith, e, find_advance_id id' db.advances {row = found}))

    validate-Holds :
        (token : TokenData) (stores : List Store) (c : Caller) (o : Option PosAdvance)
        → ((found : PosAdvance) → o ≡ some found → find_advance found.id db.advances ≡ some found)
        → Ensures Holds (validate_advance token stores c o db)
    unfolding validate_advance
    validate-Holds token stores c none there = h
    validate-Holds token stores c (some found) there =
        Ensures-bind Holds (enforce_tenant_scope token (some found.tenant_id) false) _ λ _ _.
          Ensures-bind Holds (enforce_store_scope token (some found.store_id) stores false) _
            λ _ _. expire_stored-Holds c.now found (there found refl)

    lookup-Holds :
        (token : TokenData) (stores : List Store) (c : Caller) (barcode : ℕ) (number : Option ℕ)
        → UniqueIds db.advances
        → Ensures Holds (lookup_advance token stores c barcode number db)
    unfolding lookup_advance
    lookup-Holds token stores c barcode number u =
        validate-Holds token stores c (first (select (has_code barcode number) db.advances))
          λ found e. stored (has_code barcode number) db.advances {r = found} u e

    perform-Holds :
        (r : AdvanceRequest) → UniqueIds db.advances → IsFresh r db → Ensures Holds (perform r db)
    unfolding perform sweep_endpoint
    perform-Holds (create c today amount in_cash voucher_type) u fresh =
        create-Holds c today amount in_cash voucher_type fresh
    perform-Holds (mutate token stores c today id' action) u fresh =
        mutate-Holds token stores c today id' action
    perform-Holds (sweep c) u fresh =
        find_advance-sweep c.tenant_id c.store_id c.now id db.advances {row = row} done h
    perform-Holds (get token stores c id') u fresh = get-Holds token stores c id'
    perform-Holds (lookup token stores c barcode number) u fresh =
        lookup-Holds token stores c barcode number u
    perform-Holds (checkout c sale_id ref amount) u fresh = checkout-Holds c sale_id ref amount u

-- Where ids are unique, and a new advance gets a new id, an advance that is consumed, refunded or
-- expired stays as it is, whatever request succeeds.
pub perform-terminal_is_final :
    (r : AdvanceRequest) (db db' : AdvanceDb) (id : ℕ) (row : PosAdvance)
    → UniqueIds db.advances
    → IsFresh r db
    → find_advance id db.advances ≡ some row
    → is_terminal row.status ≡ true
    → perform r db ≡ ok db'
    → find_advance id db'.advances ≡ some row
perform-terminal_is_final r db db' id row u fresh found done e =
    Ensures-ok (Holds id row done) (perform r db) (perform-Holds id row done db found r u fresh) e

-- A request on an advance that succeeds found it active and, at the time of the request, not past
-- its date; the caller's token is of the advance's tenant.
pub mutate_advance-requires :
    (token : TokenData) (stores : List Store) (c : Caller) (today id : ℕ) (action : AdvanceAction)
    (db db' : AdvanceDb)
    → mutate_advance token stores c today id action db ≡ ok db'
    → (row : PosAdvance) × (find_advance id db.advances ≡ some row)
      × (row.status ≡ AdvanceStatus.active)
      × (c.now < row.expires_at)
      × (token.tenant_id ≡ some row.tenant_id)
unfolding mutate_advance expire_advance_if_needed enforce_tenant_scope
mutate_advance-requires token stores c today id action db db' e =
    elim (Option-cases (find_advance id db.advances)) [
      | inl missing ↦ absurd (ground arith)
      | inr (row, found) ↦ (row, found, ground arith, ground arith, ground arith)
    ]

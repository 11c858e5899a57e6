-- ===== src/Transfers/Live.antt =====
-- What is on its way can arrive: a reception in `transfer_actions` of app/aris3/routers/transfers.py,
-- whose selects all read the stored stock, accepts lines together that it accepts one by one.
use aris_cloud.Prelude.{
  ℕ, ◌∙◌, ap, inr, inl, sym, Bool-cases, refl, ◌≡◌, Bool, true, false, List, [], ◌∷◌, ◌++◌, map,
  is_empty, arith, All, select, length,
}
use aris_cloud.Prelude.Result.{Result, ok, err, ◌>>=◌, Ensures-ok, AppError, validation_error}
use aris_cloud.Prelude.Text.{Text, codes}
use aris_cloud.Transfers.{
  Transfer, TransferLine, TransferReceiveLine, received, TransferDb, TransferMovement, Caller,
  receive, is_in_transit, is_epc, get_lines, require_action_permission, enforce_transfer_store,
  put_transfer, StockItem,
}
use aris_cloud.Transfers.Stock.{
  Tracked, begin, matching, change_rows, at, at_or_nowhere, in_transit_sku, in_transit_epc, write,
}
use aris_cloud.Transfers.Totals.{MovementTotals, totals_of, get_movement_totals, outstanding, bump}
use aris_cloud.Transfers.Sums.{moved, totals_of-moved}
use aris_cloud.Transfers.Rules.{receive_rule}
use aris_cloud.Transfers.{partial_received}
use aris_cloud.Transfers.Tracks.{Tracks}
use aris_cloud.Transfers.Kept.Receive.{receive_line-Tracks}
use aris_cloud.Transfers.Invariant.Actions.{receives-IsOf}
use aris_cloud.Transfers.Settled.{IsSettled, IsAllArrived, receive_transfer-IsSettled}
use aris_cloud.Transfers.Actions.Receive.{
  receive_movement, receive_transfer, receive_each, receive_line, receive_units, receive_epc,
  check_receive_line, arrive,
}

abbrev pub is_ok {ℓ} : {A : Type ℓ} → Result A → Bool
is_ok (ok a) = true
is_ok (err e) = false

is_ok-bind {ℓ κ} :
    {A : Type ℓ} {B : Type κ} (m : Result A) (f g : A → Result B)
    → ((a : A) → is_ok (f a) ≡ is_ok (g a))
    → is_ok (m >>= f) ≡ is_ok (m >>= g)
is_ok-bind (ok a) f g h = h a
is_ok-bind (err e) f g h = refl

ok_of {ℓ} : {A : Type ℓ} (r : Result A) → is_ok r ≡ true → (a : A) × (r ≡ ok a)
ok_of (ok a) h = (a, refl)
ok_of (err e) h = cc

each_unit : (rows : List Tracked) → All (λ _. Unit {0}) rows
each_unit [] = tt
each_unit (r ∷ rows) = (tt, each_unit rows)

abbrev stored_of : List Tracked → List StockItem
stored_of rows = map (λ r. r.stored) rows

matching-length :
    (p : StockItem → Bool) (rows : List Tracked)
    → length (matching p rows) ≡ length (select p (stored_of rows))
unfolding matching
matching-length p [] = refl
matching-length p (r ∷ rows) = ground (arith, matching-length p rows)

-- Whether rows are changed hangs on the stored rows alone.
change_rows-stored :
    (g : Tracked → Tracked) (e : AppError) (p : StockItem → Bool) (n : ℕ)
    (rows rows' : List Tracked)
    → stored_of rows ≡ stored_of rows'
    → is_ok (change_rows g e p n rows) ≡ is_ok (change_rows g e p n rows')
unfolding change_rows
change_rows-stored g e p n rows rows' h =
    let same =
      matching-length p rows ∙ ap (λ xs. length (select p xs)) h ∙ sym (matching-length p rows') in
    ground (arith, same)

module _ (id_text : ℕ → Text) (tenant : ℕ) (t : Transfer) (lines : List TransferLine)
    (totals : MovementTotals) where
  receive_units-stored :
      (line : TransferLine) (r : TransferReceiveLine) (rows rows' : List Tracked)
      → stored_of rows ≡ stored_of rows'
      → is_ok (receive_units id_text tenant t line r rows)
        ≡ is_ok (receive_units id_text tenant t line r rows')
  unfolding receive_units receive_epc
  receive_units-stored line r rows rows' h =
      let s = line.snapshot in
      let g = write (arrive id_text t.destination_store_id r) in
      elim (Bool-cases (is_epc line.line_type)) [
        | inl e ↦ ground (
          arith,
          e,
          change_rows-stored g validation_error
              (in_transit_epc tenant (at_or_nowhere t.origin_store_id) s.epc) 1 rows rows' h,
        )
        | inr e ↦ ground (
          arith,
          e,
          change_rows-stored g validation_error (in_transit_sku tenant (at t.origin_store_id) s)
              r.qty rows rows' h,
        )
      ]

  receive_line-stored :
      (r : TransferReceiveLine) (rows rows' : List Tracked)
      → stored_of rows ≡ stored_of rows'
      → is_ok (receive_line id_text tenant t lines totals r rows)
        ≡ is_ok (receive_line id_text tenant t lines totals r rows')
  unfolding receive_line
  receive_line-stored r rows rows' h =
      is_ok-bind (check_receive_line lines totals r) _ _
        λ line. receive_units-stored line r rows rows' h

  -- Lines that are accepted one by one are accepted together.
  pub receive_each-together :
      (rs : List TransferReceiveLine) (base rows : List Tracked)
      → stored_of rows ≡ stored_of base
      → All (λ r. is_ok (receive_line id_text tenant t lines totals r base) ≡ true) rs
      → is_ok (receive_each id_text tenant t lines totals rs rows) ≡ true
  unfolding receive_each
  receive_each-together [] base rows h all = refl
  receive_each-together (r ∷ rs) base rows h all =
      let (after, e) =
        ok_of (receive_line id_text tenant t lines totals r rows)
          (receive_line-stored r rows base h ∙ all.0) in
      let tracked =
        Ensures-ok (Tracks (stored_of base) (λ _. Unit {0})) _
          (receive_line-Tracks (stored_of base) tenant (λ _. Unit {0}) (λ _ _ _ _ _. tt) id_text t
            lines totals r rows (h, each_unit rows))
          e in
      ap (λ m. is_ok (m >>= (λ rows'. receive_each id_text tenant t lines totals rs rows'))) e
      ∙ receive_each-together rs base after tracked.0 all.1

arrived_by :
    (tenant : ℕ) (rs : List TransferReceiveLine) (t : Transfer) (ms : List TransferMovement)
    → ((l : ℕ)
        → moved l (map (receive_movement tenant t.id) rs)
          ≡ outstanding (totals_of l (get_movement_totals t.id ms)))
    → IsAllArrived t.id (map (receive_movement tenant t.id) rs ++ ms)
unfolding bump
arrived_by tenant rs t ms all l = ground (
  arith,
  all l,
  totals_of-moved t.id l receive (map (receive_movement tenant t.id) rs) ms
      (receives-IsOf tenant t.id rs),
)

receive_transfer-ok :
    (c : Caller) (tenant : ℕ) (rs : List TransferReceiveLine) (t : Transfer) (db : TransferDb)
    → require_action_permission c (codes "transfers.receive") ≡ ok tt
    → enforce_transfer_store c.token t.destination_store_id ≡ ok tt
    → is_in_transit t.status ≡ true
    → is_empty rs ≡ false
    → is_ok (
        receive_each c.id_text tenant t
          (get_lines t.id db.lines)
          (get_movement_totals t.id db.movements)
          rs
          (begin db.stock))
      ≡ true
    → is_ok (receive_transfer c tenant rs t db) ≡ true
unfolding receive_transfer
receive_transfer-ok c tenant rs t db may at_store way some_line h =
    let (rows, e) =
      ok_of
        (receive_each c.id_text tenant t (get_lines t.id db.lines)
          (get_movement_totals t.id db.movements) rs (begin db.stock))
        h in
    ground (arith, may, at_store, way, some_line, e)

-- A transfer on its way completes: when the caller may receive it, each line of the request would be
-- accepted alone, and the quantities asked of each line are what is outstanding at it, the request is
-- accepted, and it leaves a transfer row with the status RECEIVED.
pub receive_transfer-completes :
    (c : Caller) (tenant : ℕ) (rs : List TransferReceiveLine) (t : Transfer) (db : TransferDb)
    → require_action_permission c (codes "transfers.receive") ≡ ok tt
    → enforce_transfer_store c.token t.destination_store_id ≡ ok tt
    → is_in_transit t.status ≡ true
    → is_empty rs ≡ false
    → All
        (λ r.
          is_ok (
            receive_line c.id_text tenant t
              (get_lines t.id db.lines)
              (get_movement_totals t.id db.movements)
              r
              (begin db.stock))
          ≡ true)
        rs
    → ((l : ℕ)
        → moved l (map (receive_movement tenant t.id) rs)
          ≡ outstanding (totals_of l (get_movement_totals t.id db.movements)))
    → (db' : TransferDb) × (after : Transfer) × (receive_transfer c tenant rs t db ≡ ok db')
      × (db'.transfers ≡ put_transfer after db.transfers)
      × (after.id ≡ t.id)
      × (after.status ≡ received)
receive_transfer-completes c tenant rs t db may at_store way some_line each all =
    let totals = get_movement_totals t.id db.movements in
    let together =
      receive_each-together c.id_text tenant t (get_lines t.id db.lines) totals rs (begin db.stock)
        (begin db.stock) refl each in
    let (db', e) =
      ok_of (receive_transfer c tenant rs t db)
        (receive_transfer-ok c tenant rs t db may at_store way some_line together) in
    let settled =
      Ensures-ok (λ o. IsSettled t db o partial_received) _
        (receive_transfer-IsSettled c tenant rs t db) e in
    let arrived =
      Ensures-ok (λ o. IsAllArrived t.id o.movements) _
        (receive_rule (λ o. IsAllArrived t.id o.movements) c tenant t db rs
          λ _ _ rows _. arrived_by tenant rs t db.movements all)
        e in
    (db', settled.after, e, settled.written, settled.same_id, settled.complete arrived)

-- ===== src/Transfers/Closed.antt =====
-- A closed transfer (received or canceled) stays as it is, whatever is requested afterwards: the
-- handlers of app/aris3/routers/transfers.py and what they leave of the transfers table.
use aris_cloud.Prelude.{
  ℕ, ◌∙◌, ap, inr, inl, Bool-cases, refl, ◌≡◌, ◌≢◌, true, false, not, List, [], ◌∷◌, is_empty,
  arith, All, none, some, ◌==◌, or_else,
}
use aris_cloud.Prelude.{◌∙◌, ap, or_else, is_empty, not, inl, inr, Bool-cases, []}
use aris_cloud.Prelude.Result.{
  or_raise, Ensures-bind, Ensures-raise_if, Ensures-map, or_raise-some, Ensures, validation_error,
  or_raise, Ensures, Ensures-bind, Ensures-raise_if, validation_error,
}
use aris_cloud.Transfers.{
  Transfer, TransferStatus, TransferDb, Caller, find_transfer, put_transfer, is_active, is_draft,
  is_in_transit, resolve_transfer_tenant,
}
use aris_cloud.Transfers.Drafts.{
  TransferCreateRequest, TransferUpdateRequest, create_transfer, update_transfer,
  require_transaction_id, check_stores, update_lines,
}
use aris_cloud.Transfers.Stock.{begin}
use aris_cloud.Transfers.Lines.{normalize_transfer_lines}
use aris_cloud.Transfers.Actions.{
  TransferActionRequest, TransferRequest, create_request, update_request, action_request,
  act_on_transfer, transfer_actions, perform_transfer,
}
use aris_cloud.Transfers.Status.{
  Edge, sent, dropped, called_back, arrived_in_part, completed, unmoved, Moves,
  act_on_transfer-Moves,
}

-- The id names a row of this tenant alone, as a primary key does.
abbrev pub IsOwn : ℕ → ℕ → Transfer → Type 0
IsOwn tenant id t = t.id ≡ id → t.tenant_id ≡ tenant

in_transit-active : (s : TransferStatus) → is_in_transit s ≡ true → is_active s ≡ true
unfolding is_in_transit is_active
in_transit-active s h = ground arith

Edge-from_active : {s s' : TransferStatus} → Edge s s' → is_active s ≡ true
unfolding is_active
Edge-from_active sent = refl
Edge-from_active dropped = refl
Edge-from_active called_back = refl
Edge-from_active (arrived_in_part {s} h) = in_transit-active s h
Edge-from_active (completed {s} h) = in_transit-active s h
Edge-from_active (unmoved {s} h) = in_transit-active s h

draft-active : (s : TransferStatus) → is_draft s ≡ true → is_active s ≡ true
unfolding is_draft is_active
draft-active s h = ground arith

find_transfer-put :
    (tenant id : ℕ) (t : Transfer) (ts : List Transfer)
    → t.id ≢ id
    → find_transfer tenant id (put_transfer t ts) ≡ find_transfer tenant id ts
unfolding find_transfer put_transfer
find_transfer-put tenant id t [] h = refl
find_transfer-put tenant id t (u ∷ ts) h = ground (arith, find_transfer-put tenant id t ts h)

-- What a find gives is one of the rows, with the id and the tenant asked for.
find_transfer-found :
    (tenant id other : ℕ) (ts : List Transfer) {u : Transfer}
    → find_transfer tenant id ts ≡ some u
    → All (IsOwn other id) ts
    → (u.id ≡ id) × (u.tenant_id ≡ tenant) × (other ≡ tenant)
unfolding find_transfer
find_transfer-found tenant id other [] h own = cc
find_transfer-found tenant id other (v ∷ ts) {u} h own =
    ground (arith, find_transfer-found tenant id other ts {u = u})

find_transfer-id :
    (tenant id : ℕ) (ts : List Transfer) {u : Transfer}
    → find_transfer tenant id ts ≡ some u
    → u.id ≡ id
unfolding find_transfer
find_transfer-id tenant id [] h = cc
find_transfer-id tenant id (v ∷ ts) {u} h = ground (arith, find_transfer-id tenant id ts {u = u})

module _ (tenant id : ℕ) (t : Transfer) (closed : is_active t.status ≡ false) where
  -- A row that a request found active and writes is not the closed one.
  kept :
      (tenant' id' : ℕ) (ts : List Transfer) (u after : Transfer)
      → find_transfer tenant id ts ≡ some t
      → All (IsOwn tenant id) ts
      → find_transfer tenant' id' ts ≡ some u
      → is_active u.status ≡ true
      → after.id ≡ u.id
      → find_transfer tenant id (put_transfer after ts) ≡ some t
  kept tenant' id' ts u after found own other active same =
      let this = find_transfer-found tenant' id tenant ts {u = u} in
      let that = find_transfer-id tenant' id' ts {u = u} other in
      elim (Bool-cases (u.id == id)) [
        | inl e ↦ ground (arith, this, that)
        | inr ne ↦ find_transfer-put tenant id after ts (ground arith) ∙ found
      ]

  -- The same over all the tables that an action leaves.
  Moves-kept :
      (tenant' id' : ℕ) (u : Transfer) (db db' : TransferDb)
      → find_transfer tenant id db.transfers ≡ some t
      → All (IsOwn tenant id) db.transfers
      → find_transfer tenant' id' db.transfers ≡ some u
      → Moves u db db'
      → find_transfer tenant id db'.transfers ≡ some t
  Moves-kept tenant' id' u db db' found own other m =
      let same =
        kept tenant' id' db.transfers u m.after found own other (Edge-from_active m.edge)
          m.same_id in
      elim m.written [
        | inl w ↦ ap (find_transfer tenant id) w ∙ same
        | inr w ↦ ap (find_transfer tenant id) w.1 ∙ found
      ]

  module _ (db : TransferDb) (found : find_transfer tenant id db.transfers ≡ some t)
      (own : All (IsOwn tenant id) db.transfers) where
    abbrev Keeps : TransferDb → Type 0
    Keeps db' = find_transfer tenant id db'.transfers ≡ some t

    create-Keeps :
        (c : Caller) (payload : TransferCreateRequest)
        → c.new_id ≢ id
        → Ensures Keeps (create_transfer c payload db)
    unfolding create_transfer find_transfer
    create-Keeps c payload fresh =
        Ensures-bind Keeps (require_transaction_id payload.transaction_id) _ λ _ _.
          Ensures-bind Keeps (resolve_transfer_tenant c.token payload.tenant_id) _ λ tenant' _.
            Ensures-bind Keeps
              (check_stores c tenant' payload.origin_store_id payload.destination_store_id db) _
              λ _ _. Ensures-raise_if Keeps (is_empty payload.lines) validation_error _ λ _.
                Ensures-bind Keeps
                  (normalize_transfer_lines tenant' payload.origin_store_id none db [] payload.lines
                    (begin db.stock))
                  _ λ done _. ground (arith, found)

    update-Keeps :
        (c : Caller) (id' : ℕ) (payload : TransferUpdateRequest)
        → Ensures Keeps (update_transfer c id' payload db)
    unfolding update_transfer
    update-Keeps c id' payload =
        Ensures-bind Keeps (require_transaction_id payload.transaction_id) _ λ _ _.
          Ensures-bind Keeps (resolve_transfer_tenant c.token payload.tenant_id) _ λ tenant' _.
            Ensures-bind Keeps (or_raise (find_transfer tenant' id' db.transfers) validation_error)
              _
              λ u e. Ensures-raise_if Keeps (not (is_draft u.status)) validation_error _ λ open_now.
                let origin = or_else payload.origin_store_id u.origin_store_id in
                let destination = or_else payload.destination_store_id u.destination_store_id in
                Ensures-bind Keeps (check_stores c tenant' origin destination db) _ λ _ _.
                  Ensures-bind Keeps (update_lines c tenant' u.id origin payload.lines db) _
                    λ done _.
                      kept tenant' id' db.transfers u _ found own (or_raise-some _ _ e)
                        (draft-active u.status (ground arith)) refl

    actions-Keeps :
        (c : Caller) (id' : ℕ) (payload : TransferActionRequest)
        → Ensures Keeps (transfer_actions c id' payload db)
    unfolding transfer_actions
    actions-Keeps c id' payload =
        Ensures-bind Keeps (require_transaction_id payload.transaction_id) _ λ _ _.
          Ensures-bind Keeps (resolve_transfer_tenant c.token payload.tenant_id) _ λ tenant' _.
            Ensures-bind Keeps (or_raise (find_transfer tenant' id' db.transfers) validation_error)
              _
              λ u e.
                Ensures-map (Moves u db) Keeps (act_on_transfer c tenant' payload.action u db)
                  (λ db' m. Moves-kept tenant' id' u db db' found own (or_raise-some _ _ e) m)
                  (act_on_transfer-Moves c tenant' payload.action u db)

-- The ids that a request draws are not the given one.
abbrev pub Avoids : ℕ → TransferRequest → Type 0
Avoids id (create_request c payload) = c.new_id ≢ id
Avoids id (update_request c other payload) = Unit
Avoids id (action_request c other payload) = Unit

-- A transfer that was received or canceled is found unchanged after any request that succeeds: no
-- action, no update and no creation that draws another id alters it, its id being its tenant's alone.
pub perform_transfer-keeps_closed :
    (r : TransferRequest) (tenant id : ℕ) (t : Transfer) (db : TransferDb)
    → is_active t.status ≡ false
    → find_transfer tenant id db.transfers ≡ some t
    → All (IsOwn tenant id) db.transfers
    → Avoids id r
    → Ensures (λ db'. find_transfer tenant id db'.transfers ≡ some t) (perform_transfer r db)
unfolding perform_transfer
perform_transfer-keeps_closed (create_request c payload) tenant id t db closed found own avoids =
    create-Keeps tenant id t closed db found own c payload avoids
perform_transfer-keeps_closed (update_request c other payload) tenant id t db closed found own
      avoids =
    update-Keeps tenant id t closed db found own c other payload
perform_transfer-keeps_closed (action_request c other payload) tenant id t db closed found own
      avoids =
    actions-Keeps tenant id t closed db found own c other payload

-- ===== src/Transfers/Duties.antt =====
-- Who may act on a transfer in app/aris3/routers/transfers.py: a user of one store is at one end of it.
use aris_cloud.Prelude.{
  ℕ, ◌∙◌, ap, inr, inl, sym, Bool-cases, ◌≡◌, ◌≢◌, Bool, true, false, not, ◌&&◌, List, [], ◌∷◌,
  if◌then◌else◌, is_empty, arith, All, none, some, ◌==◌, or_else, Option-cases,
}
use aris_cloud.Prelude.Result.{
  Result, ok, err, or_raise, Ensures, Ensures-bind, Ensures-map, or_raise-some, Ensures-ok,
  Ensures-raise_if, validation_error,
}
use aris_cloud.Transfers.{
  Transfer, TransferReceiveLine, TransferDb, Caller, has_broad_transfer_scope,
  enforce_transfer_store, put_transfer, find_transfer, resolve_transfer_tenant, is_draft,
}
use aris_cloud.Scope.{TokenData}
use aris_cloud.Transfers.Stock.{begin}
use aris_cloud.Transfers.Lines.{normalize_transfer_lines}
use mathlib.Core.Path.{subst}
use aris_cloud.Transfers.Status.{Moves, act_on_transfer-Moves}
use aris_cloud.Transfers.Rules.{dispatch_rule, receive_rule}
use aris_cloud.Transfers.Drafts.{
  TransferCreateRequest, TransferUpdateRequest, create_transfer, update_transfer,
  require_transaction_id, check_stores, update_lines,
}
use aris_cloud.Transfers.Actions.{
  TransferActionRequest, TransferRequest, create_request, update_request, action_request,
  act_on_transfer, transfer_actions, perform_transfer,
}
use aris_cloud.Transfers.Actions.Dispatch.{dispatch_transfer}
use aris_cloud.Transfers.Actions.Receive.{receive_transfer}

enforced :
    (token : TokenData) (store : ℕ)
    → has_broad_transfer_scope token ≡ false
    → enforce_transfer_store token store ≡ ok tt
    → token.store_id ≡ some store
unfolding enforce_transfer_store
enforced token store narrow h = elim (Option-cases token.store_id) [
  | inl e ↦ ground (arith, narrow, e)
  | inr (s, e) ↦ ground (arith, narrow, e)
]

dispatch-store :
    (c : Caller) (tenant : ℕ) (t : Transfer) (db : TransferDb)
    → has_broad_transfer_scope c.token ≡ false
    → Ensures (λ _. c.token.store_id ≡ some t.origin_store_id) (dispatch_transfer c tenant t db)
dispatch-store c tenant t db narrow =
    dispatch_rule (λ _. c.token.store_id ≡ some t.origin_store_id) c tenant t db
      λ scope _ _ _ _ _. enforced c.token t.origin_store_id narrow scope

receive-store :
    (c : Caller) (tenant : ℕ) (rs : List TransferReceiveLine) (t : Transfer) (db : TransferDb)
    → has_broad_transfer_scope c.token ≡ false
    → Ensures
        (λ _. c.token.store_id ≡ some t.destination_store_id)
        (receive_transfer c tenant rs t db)
receive-store c tenant rs t db narrow =
    receive_rule (λ _. c.token.store_id ≡ some t.destination_store_id) c tenant t db rs
      λ scope _ _ _. enforced c.token t.destination_store_id narrow scope

-- A token without a broad role cannot both dispatch and receive between two stores: once it dispatched
-- from the one, it receives nothing at the other, whatever the tables hold by then.
pub dispatch-excludes-receive :
    (c c' : Caller) (tenant : ℕ) (rs : List TransferReceiveLine) (t t' : Transfer)
    (db db' sent_db : TransferDb)
    → has_broad_transfer_scope c.token ≡ false
    → c'.token ≡ c.token
    → t.origin_store_id ≢ t.destination_store_id
    → t'.destination_store_id ≡ t.destination_store_id
    → dispatch_transfer c tenant t db ≡ ok sent_db
    → (arrived_db : TransferDb) → receive_transfer c' tenant rs t' db' ≢ ok arrived_db
dispatch-excludes-receive c c' tenant rs t t' db db' sent_db narrow same apart ends sent arrived_db
      arrived =
    let out =
      Ensures-ok (λ _. c.token.store_id ≡ some t.origin_store_id) _
        (dispatch-store c tenant t db narrow) sent in
    let into =
      Ensures-ok (λ _. c'.token.store_id ≡ some t'.destination_store_id) _
        (receive-store c' tenant rs t' db' (ap has_broad_transfer_scope same ∙ narrow)) arrived in
    ground (arith, out, into, same, ends, apart)

-- The two stores of a transfer differ.
abbrev pub IsDirected : Transfer → Type 0
IsDirected t = t.origin_store_id ≢ t.destination_store_id

always : (r : Result (Unit {0})) → Ensures (λ _. Unit {0}) r
always (ok u) = tt
always (err e) = tt

either : (b : Bool) (t u : Transfer) → IsDirected t → IsDirected u → IsDirected (if b then t else u)
either true t u h h' = h
either false t u h h' = h'

put_transfer-All :
    (t : Transfer) (ts : List Transfer)
    → IsDirected t
    → All IsDirected ts
    → All IsDirected (put_transfer t ts)
unfolding put_transfer
put_transfer-All t [] h all = tt
put_transfer-All t (u ∷ ts) h all =
    (either (u.id == t.id) t u h all.0, put_transfer-All t ts h all.1)

find_transfer-All :
    (tenant id : ℕ) (ts : List Transfer) {t : Transfer}
    → find_transfer tenant id ts ≡ some t
    → All IsDirected ts
    → IsDirected t
unfolding find_transfer
find_transfer-All tenant id [] h all = cc
find_transfer-All tenant id (u ∷ ts) {t} h all =
    elim (Bool-cases (u.id == id && u.tenant_id == tenant)) [
      | inl e ↦ λ same. all.0 (ground (arith, h, e, same))
      | inr e ↦ find_transfer-All tenant id ts {t = t} (ground (arith, h, e)) all.1
    ]

check_stores-apart :
    (c : Caller) (tenant origin destination : ℕ) (db : TransferDb)
    → Ensures (λ _. origin ≢ destination) (check_stores c tenant origin destination db)
unfolding check_stores
check_stores-apart c tenant origin destination db =
    Ensures-raise_if (λ _. origin ≢ destination) (origin == destination) validation_error _
      λ e.
        Ensures-map (λ _. Unit {0}) (λ _. origin ≢ destination) _ (λ _ _. ground (arith, e))
          (always _)

abbrev AreDirected : TransferDb → Type 0
AreDirected db = All IsDirected db.transfers

Moves-AreDirected :
    (t : Transfer) (db db' : TransferDb)
    → IsDirected t
    → AreDirected db
    → Moves t db db'
    → AreDirected db'
Moves-AreDirected t db db' h all m =
    let directed : IsDirected m.after = λ same. h (sym m.same_origin ∙ same ∙ m.same_destination) in
    elim m.written [
      | inl w ↦ subst (All IsDirected) (sym w) (put_transfer-All m.after db.transfers directed all)
      | inr w ↦ subst (All IsDirected) (sym w.1) all
    ]

module _ (db : TransferDb) (all : AreDirected db) where
  create-AreDirected :
      (c : Caller) (payload : TransferCreateRequest)
      → Ensures AreDirected (create_transfer c payload db)
  unfolding create_transfer
  create-AreDirected c payload =
      let P = AreDirected in
      let origin = payload.origin_store_id in
      let destination = payload.destination_store_id in
      Ensures-bind P (require_transaction_id payload.transaction_id) _ λ _ _.
        Ensures-bind P (resolve_transfer_tenant c.token payload.tenant_id) _ λ tenant _.
          Ensures-bind P (check_stores c tenant origin destination db) _ λ _ e.
            Ensures-raise_if P (is_empty payload.lines) validation_error _ λ _.
              Ensures-bind P
                (normalize_transfer_lines tenant origin none db [] payload.lines (begin db.stock)) _
                λ done _.
                  (Ensures-ok _ _ (check_stores-apart c tenant origin destination db) e, all)

  update-AreDirected :
      (c : Caller) (id : ℕ) (payload : TransferUpdateRequest)
      → Ensures AreDirected (update_transfer c id payload db)
  unfolding update_transfer
  update-AreDirected c id payload =
      let P = AreDirected in
      Ensures-bind P (require_transaction_id payload.transaction_id) _ λ _ _.
        Ensures-bind P (resolve_transfer_tenant c.token payload.tenant_id) _ λ tenant _.
          Ensures-bind P (or_raise (find_transfer tenant id db.transfers) validation_error) _ λ u _.
            Ensures-raise_if P (not (is_draft u.status)) validation_error _ λ _.
              let origin = or_else payload.origin_store_id u.origin_store_id in
              let destination = or_else payload.destination_store_id u.destination_store_id in
              Ensures-bind P (check_stores c tenant origin destination db) _ λ _ e.
                Ensures-bind P (update_lines c tenant u.id origin payload.lines db) _ λ done _.
                  put_transfer-All _ db.transfers
                    (Ensures-ok _ _ (check_stores-apart c tenant origin destination db) e) all

  actions-AreDirected :
      (c : Caller) (id : ℕ) (payload : TransferActionRequest)
      → Ensures AreDirected (transfer_actions c id payload db)
  unfolding transfer_actions
  actions-AreDirected c id payload =
      let P = AreDirected in
      Ensures-bind P (require_transaction_id payload.transaction_id) _ λ _ _.
        Ensures-bind P (resolve_transfer_tenant c.token payload.tenant_id) _ λ tenant _.
          Ensures-bind P (or_raise (find_transfer tenant id db.transfers) validation_error) _ λ t e.
            Ensures-map (Moves t db) P (act_on_transfer c tenant payload.action t db)
              (λ db' m.
                Moves-AreDirected t db db'
                  (find_transfer-All tenant id db.transfers (or_raise-some _ _ e) all) all m)
              (act_on_transfer-Moves c tenant payload.action t db)

-- Every request that succeeds keeps the two stores of each transfer different.
pub perform_transfer-AreDirected :
    (r : TransferRequest) (db : TransferDb)
    → All IsDirected db.transfers
    → Ensures (λ db'. All IsDirected db'.transfers) (perform_transfer r db)
unfolding perform_transfer
perform_transfer-AreDirected (create_request c payload) db all = create-AreDirected db all c payload
perform_transfer-AreDirected (update_request c id payload) db all =
    update-AreDirected db all c id payload
perform_transfer-AreDirected (action_request c id payload) db all =
    actions-AreDirected db all c id payload

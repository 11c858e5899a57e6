-- ===== src/Transfers/Status.antt =====
-- How a transfer's status moves (Transfers.Actions): each action that succeeds rewrites the one row
-- of the transfer, along an edge of the diagram below.
use aris_cloud.Prelude.{
  ◌||◌, ℕ, inr, inl, Bool-cases, refl, ◌≡◌, true, List, arith, ◌⊎◌, Option, some, ◌==◌,
}
use aris_cloud.Prelude.Result.{Ensures}
use aris_cloud.Transfers.{
  Transfer, TransferStatus, draft, dispatched, partial_received, received, canceled, TransferDb,
  TransferAction, dispatch_action, receive_action, report_shortages_action,
  resolve_shortages_action, cancel_action, other_action, TransferReceiveLine, TransferShortageLine,
  TransferShortageResolution, Caller, put_transfer, is_draft, is_in_transit, is_dispatched,
}
use aris_cloud.Transfers.Totals.{outstanding_total, MovementTotals}
use aris_cloud.Transfers.Rules.{dispatch_rule, cancel_rule, receive_rule, report_rule, resolve_rule}
use aris_cloud.Transfers.Actions.{act_on_transfer}
use aris_cloud.Transfers.Actions.Dispatch.{dispatch_transfer, cancel_transfer}
use aris_cloud.Transfers.Actions.Receive.{receive_transfer, settle_receive}
use aris_cloud.Transfers.Actions.Shortages.{report_shortages, resolve_shortages, settle_resolve}

-- The moves of a transfer's status.
pub data Edge : TransferStatus → TransferStatus → Type 0 where
  sent : Edge draft dispatched
  dropped : Edge draft canceled
  called_back : Edge dispatched canceled
  arrived_in_part : {s : TransferStatus} → is_in_transit s ≡ true → Edge s partial_received
  completed : {s : TransferStatus} → is_in_transit s ≡ true → Edge s received
  unmoved : {s : TransferStatus} → is_in_transit s ≡ true → Edge s s

-- The transfer as an action leaves it.
pub record Moves (t : Transfer) (db db' : TransferDb) : Type 0 where
  pub after : Transfer
  pub edge : Edge t.status after.status
  pub same_id : after.id ≡ t.id
  pub same_tenant : after.tenant_id ≡ t.tenant_id
  pub same_origin : after.origin_store_id ≡ t.origin_store_id
  pub same_destination : after.destination_store_id ≡ t.destination_store_id
  pub written :
      (db'.transfers ≡ put_transfer after db.transfers)
      ⊎ ((after ≡ t) × (db'.transfers ≡ db.transfers))

rewritten :
    (t after : Transfer) (db db' : TransferDb)
    → Edge t.status after.status
    → after.id ≡ t.id
    → after.tenant_id ≡ t.tenant_id
    → after.origin_store_id ≡ t.origin_store_id
    → after.destination_store_id ≡ t.destination_store_id
    → db'.transfers ≡ put_transfer after db.transfers
    → Moves t db db'
rewritten t after db db' edge i n o d w = record {
  after = after;
  edge = edge;
  same_id = i;
  same_tenant = n;
  same_origin = o;
  same_destination = d;
  written = inl w;
}

draft_only : (s : TransferStatus) → is_draft s ≡ true → Edge s dispatched
unfolding is_draft
draft_only draft h = sent
draft_only _ h = cc

cancelable : (s : TransferStatus) → (is_draft s || is_dispatched s) ≡ true → Edge s canceled
unfolding is_draft is_dispatched
cancelable draft h = dropped
cancelable dispatched h = called_back
cancelable _ h = cc

settled :
    (now : ℕ) (totals : MovementTotals) (t : Transfer) (db db' : TransferDb)
    → is_in_transit t.status ≡ true
    → db'.transfers ≡ put_transfer (settle_receive now totals t) db.transfers
    → Moves t db db'
unfolding settle_receive
settled now totals t db db' way w = elim (Bool-cases (outstanding_total totals == 0)) [
  | inl done ↦
      rewritten t (record t { status = received; received_at = some now }) db db' (completed way)
        refl refl refl refl (ground arith)
  | inr open_still ↦
      rewritten t (record t { status = partial_received }) db db' (arrived_in_part way) refl refl
        refl refl (ground arith)
]

stays :
    (t : Transfer) (db db' : TransferDb)
    → is_in_transit t.status ≡ true
    → db'.transfers ≡ db.transfers
    → Moves t db db'
stays t db db' way w = record {
  after = t;
  edge = unmoved way;
  same_id = refl;
  same_tenant = refl;
  same_origin = refl;
  same_destination = refl;
  written = inr (refl, w);
}

settled_by_resolution :
    (now : ℕ) (totals : MovementTotals) (t : Transfer) (db db' : TransferDb)
    → is_in_transit t.status ≡ true
    → db'.transfers ≡ put_transfer (settle_resolve now totals t) db.transfers
    → Moves t db db'
unfolding settle_resolve
settled_by_resolution now totals t db db' way w =
    elim (Bool-cases (outstanding_total totals == 0)) [
      | inl done ↦
          rewritten t (record t { status = received; received_at = some now }) db db'
            (completed way) refl refl refl refl (ground arith)
      | inr open_still ↦ rewritten t t db db' (unmoved way) refl refl refl refl (ground arith)
    ]

module _ (c : Caller) (tenant : ℕ) (t : Transfer) (db : TransferDb) where
  dispatch-Moves : Ensures (Moves t db) (dispatch_transfer c tenant t db)
  dispatch-Moves = dispatch_rule (Moves t db) c tenant t db λ _ still checked rows _ _.
      rewritten t (record t { status = dispatched }) db _ (draft_only t.status still) refl refl refl
        refl refl

  cancel-Moves : Ensures (Moves t db) (cancel_transfer c tenant t db)
  cancel-Moves = cancel_rule (Moves t db) c tenant t db λ still rows _.
      rewritten t (record t { status = canceled }) db _ (cancelable t.status still) refl refl refl
        refl refl

  receive-Moves :
      (rs : List TransferReceiveLine) → Ensures (Moves t db) (receive_transfer c tenant rs t db)
  receive-Moves rs =
      receive_rule (Moves t db) c tenant t db rs λ _ way rows _. settled c.now _ t db _ way refl

  report-Moves :
      (ss : List TransferShortageLine) → Ensures (Moves t db) (report_shortages c tenant ss t db)
  report-Moves ss = report_rule (Moves t db) c tenant t db ss λ way _. stays t db _ way refl

  resolve-Moves :
      (given : Option TransferShortageResolution)
      → Ensures (Moves t db) (resolve_shortages c tenant given t db)
  resolve-Moves given =
      resolve_rule (Moves t db) c tenant t db given
        λ r _ way rows _. settled_by_resolution c.now _ t db _ way refl

-- Whatever action succeeds on a transfer, its status moves along an edge: a draft is dispatched or
-- canceled, a dispatched transfer may be canceled, and a transfer on its way stays so, arrives in part
-- or is completed; its id, tenant and stores stay, and no other row of the transfers is written.
pub act_on_transfer-Moves :
    (c : Caller) (tenant : ℕ) (a : TransferAction) (t : Transfer) (db : TransferDb)
    → Ensures (Moves t db) (act_on_transfer c tenant a t db)
unfolding act_on_transfer
act_on_transfer-Moves c tenant dispatch_action t db = dispatch-Moves c tenant t db
act_on_transfer-Moves c tenant (receive_action lines) t db = receive-Moves c tenant t db lines
act_on_transfer-Moves c tenant (report_shortages_action lines) t db =
    report-Moves c tenant t db lines
act_on_transfer-Moves c tenant (resolve_shortages_action given) t db =
    resolve-Moves c tenant t db given
act_on_transfer-Moves c tenant cancel_action t db = cancel-Moves c tenant t db
act_on_transfer-Moves c tenant other_action t db = tt

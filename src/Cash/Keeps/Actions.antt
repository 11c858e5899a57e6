-- ===== src/Cash/Keeps/Actions.antt =====
-- The changes of one open session keep the invariant.
use aris_cloud.Prelude.{ℕ, ◌≡◌, refl, Option, none, some, arith, if◌then◌else◌}
use aris_cloud.Prelude.Int.{ℤ, pos, ◌+ℤ◌, ◌-ℤ◌, ◌≤ℤ◌, leb_ℤ, int_laws}
use aris_cloud.Prelude.Result.{ok, raise_if, Ensures, Ensures-bind, validation_error}
use aris_cloud.Cash.Db.{
  closed, MovementType, CashSession, CashMovement, CashDb, Caller, ensure_not_closed,
  ensure_positive_amount, ensure_non_negative_balance,
}
use aris_cloud.Cash.Session.{
  SessionAction, open_action, cash_in_action, cash_out_action, close_action, other_action,
  session_movement, act_on_session,
}
use aris_cloud.Cash.Flow.{adds_cash, flow_movement, record_cash_movement}
use aris_cloud.Cash.Rows.{IsStored, All-find}
use aris_cloud.Cash.Ledger.{signed, effect, IsNonNegative, IsLedger}
use aris_cloud.Cash.Keeps.Write.{Follows, write-IsLedger}

-- The actions that `_record_cash_movement` is called with.
abbrev pub IsFlow : MovementType → Type 0
IsFlow MovementType.sale = Unit
IsFlow MovementType.cash_in = Unit
IsFlow MovementType.cash_out = Unit
IsFlow MovementType.cash_out_refund = Unit
IsFlow _ = ⊥

pub positive : (a : Option ℤ) {v : ℤ} → ensure_positive_amount a ≡ ok v → pos 1 ≤ℤ v
unfolding ensure_positive_amount
positive none h = cc
positive (some v) h = ground arith

pub covered : (v : ℤ) {u : Unit {0}} → ensure_non_negative_balance v ≡ ok u → pos 0 ≤ℤ v
unfolding ensure_non_negative_balance
covered v h = ground arith

flow-effect :
    (action : MovementType) (amount e : ℤ)
    → IsFlow action
    → (if adds_cash action then e +ℤ amount else e -ℤ amount) ≡ signed action amount +ℤ e
unfolding signed
flow-effect MovementType.sale amount e flow = omega int_laws
flow-effect MovementType.cash_in amount e flow = omega int_laws
flow-effect MovementType.cash_out amount e flow = omega int_laws
flow-effect MovementType.cash_out_refund amount e flow = omega int_laws
flow-effect _ amount e flow = absurd flow

-- Only the expected cash changes, by what the movement adds.
pub cash-Follows :
    (s : CashSession) (m : CashMovement) (e : ℤ)
    → e ≡ effect m +ℤ s.expected_cash
    → pos 0 ≤ℤ e
    → m.cash_session_id ≡ some s.id
    → m.tenant_id ≡ s.tenant_id
    → m.store_id ≡ s.store_id
    → m.business_date ≡ s.business_date
    → Follows s (record s { expected_cash = e }) m
cash-Follows s m e moved covered_after session tenant store date = record {
  same_id = refl;
  same_tenant = refl;
  same_store = refl;
  same_cashier = refl;
  same_date = refl;
  stays_open = λ is_open. (is_open, refl);
  moved_by = moved;
  non_negative = covered_after;
  of_session = session;
  of_tenant = tenant;
  of_store = store;
  of_date = date;
}

module _ (c : Caller) (s : CashSession) (db : CashDb) (l : IsLedger db) where
  module _ (stored : IsStored s db.sessions) where
    funds : pos 0 ≤ℤ s.expected_cash
    funds = All-find IsNonNegative s db.sessions stored l.non_negative

    module _ (tenant : c.tenant_id ≡ s.tenant_id) (store : c.store_id ≡ s.store_id) where
      cash_in-IsLedger :
          (amount : Option ℤ) → Ensures IsLedger (act_on_session c (cash_in_action amount) s db)
      unfolding act_on_session signed
      cash_in-IsLedger amount = Ensures-bind IsLedger (ensure_positive_amount amount) _ λ v e.
          let after = s.expected_cash +ℤ v in
          let m = session_movement c s MovementType.cash_in v after in
          write-IsLedger db s (record s { expected_cash = after }) m l stored
            (cash-Follows s m after (omega int_laws) (omega (int_laws, positive amount e, funds))
              refl tenant store refl)

      cash_out-IsLedger :
          (amount : Option ℤ) → Ensures IsLedger (act_on_session c (cash_out_action amount) s db)
      unfolding act_on_session signed
      cash_out-IsLedger amount = Ensures-bind IsLedger (ensure_positive_amount amount) _ λ v e.
          let after = s.expected_cash -ℤ v in
          let m = session_movement c s MovementType.cash_out v after in
          Ensures-bind IsLedger (ensure_non_negative_balance after) _ λ u rest.
            write-IsLedger db s (record s { expected_cash = after }) m l stored
              (cash-Follows s m after (omega int_laws) (covered after rest) refl tenant store refl)

      close-IsLedger :
          (counted : Option ℤ) → Ensures IsLedger (act_on_session c (close_action counted) s db)
      unfolding act_on_session signed
      close-IsLedger none = tt
      close-IsLedger (some counted) =
          write-IsLedger db s
            (record s {
              counted_cash = some counted;
              difference = some (counted -ℤ s.expected_cash);
              status = closed;
              closed_at = some c.now;
            })
            (session_movement c s MovementType.close_session (pos 0) s.expected_cash) l stored
            (record {
              same_id = refl;
              same_tenant = refl;
              same_store = refl;
              same_cashier = refl;
              same_date = refl;
              stays_open = λ is_open. absurd (ground arith);
              moved_by = omega int_laws;
              non_negative = funds;
              of_session = refl;
              of_tenant = tenant;
              of_store = store;
              of_date = refl;
            })

      pub act_on_session-IsLedger :
          (action : SessionAction) → Ensures IsLedger (act_on_session c action s db)
      unfolding act_on_session
      act_on_session-IsLedger (cash_in_action amount) = cash_in-IsLedger amount
      act_on_session-IsLedger (cash_out_action amount) = cash_out-IsLedger amount
      act_on_session-IsLedger (close_action counted) = close-IsLedger counted
      act_on_session-IsLedger (open_action a b d) = tt
      act_on_session-IsLedger other_action = tt

      pub record_cash_movement-IsLedger :
          (id : ℕ) (action : MovementType) (amount : ℤ)
          → IsFlow action
          → Ensures IsLedger (record_cash_movement c s id action amount db)
      unfolding record_cash_movement
      record_cash_movement-IsLedger id action amount flow =
          let after =
            if adds_cash action then s.expected_cash +ℤ amount else s.expected_cash -ℤ amount in
          let m = flow_movement c s id action amount after in
          Ensures-bind IsLedger (raise_if (leb_ℤ amount (pos 0)) validation_error) _ λ _ _.
            Ensures-bind IsLedger (ensure_not_closed db c.tenant_id c.store_id s.business_date) _
              λ _ _. Ensures-bind IsLedger (ensure_non_negative_balance after) _ λ u rest.
                write-IsLedger db s (record s { expected_cash = after }) m l stored
                  (cash-Follows s m after (flow-effect action amount s.expected_cash flow)
                    (covered after rest) refl tenant store refl)

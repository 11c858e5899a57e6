-- ===== src/Tests/Drafts.antt =====
-- A return that is drafted and completed (app/aris3/services/pos_returns.py).
use aris_cloud.Prelude.{◌+◌, refl, ◌≡◌, ◌≢◌, true, false, List, [], ◌∷◌, none, some}
use aris_cloud.Prelude.Int.{pos, negsuc, ◌+ℤ◌, ◌-ℤ◌, ltb_ℤ}
use aris_cloud.Prelude.Result.{Result, ok, err}
use aris_cloud.Prelude.Text.{codes}
use aris_cloud.Scope.{TokenData, Store, enforce_store_scope, find_store, has_broad_store_role}
use aris_cloud.Returns.{NormalizedLine, return_draft, returned_in, completed_returned_quantity}
use aris_cloud.Returns.Drafts.{
  ReturnRow, resolve_return_store, get_return_events, find_return, put_return, void, complete,
  sum_of, check_settlement, to_returned, apply_action,
}
use aris_cloud.Returns.Completion.{apply_action-quantities, apply_action-once, apply_action-settled}

abbrev stores : List Store
stores = record { id = 2; tenant_id = 1 } ∷ []

abbrev cashier : TokenData
cashier = record { tenant_id = some 1; store_id = some 2; role = codes "cashier" }

abbrev quoted_line : NormalizedLine
quoted_line = record {
  sale_line_id = 4;
  is_exchange = false;
  qty = 2;
  unit_price = pos 1250;
  line_total = pos 2500;
}

abbrev draft : ReturnRow
draft = record {
  id = 8;
  tenant_id = 1;
  store_id = 2;
  sale_id = 5;
  action = return_draft;
  returned_lines = [];
  quoted_lines = quoted_line ∷ [];
  net_adjustment = negsuc 2499;
  exchange_total = pos 0;
  settlement_payments = [];
}

-- The same lines in a second draft.
abbrev drafts : List ReturnRow
drafts = record draft { id = 9 } ∷ draft ∷ []

abbrev or_drafts : Result (List ReturnRow) → List ReturnRow
or_drafts (ok rows) = rows
or_drafts (err e) = drafts

abbrev completed : List ReturnRow
completed = or_drafts (apply_action cashier stores 20 8 none (complete (pos 2500 ∷ [])) drafts)

abbrev completed_again : List ReturnRow
completed_again =
    or_drafts (apply_action cashier stores 21 9 none (complete (pos 2500 ∷ [])) completed)

draft_completes :
    apply_action cashier stores 20 8 none (complete (pos 2500 ∷ [])) drafts ≡ ok completed
unfolding apply_action resolve_return_store enforce_store_scope find_store has_broad_store_role
    find_return put_return check_settlement sum_of ◌+ℤ◌ ◌-ℤ◌
draft_completes = refl

-- Two drafts of the same two pieces are completed one after the other: four pieces are returned.
returned_twice : completed_returned_quantity 4 (get_return_events 5 completed_again) ≡ 4
unfolding apply_action resolve_return_store enforce_store_scope find_store has_broad_store_role
    find_return put_return check_settlement sum_of get_return_events completed_returned_quantity
    returned_in ◌+ℤ◌ ◌-ℤ◌
returned_twice = refl

apply_action-quantities_example :
    (completed_returned_quantity 4 (get_return_events 5 completed)
      ≡ returned_in 4 (to_returned quoted_line ∷ [])
        + completed_returned_quantity 4 (get_return_events 5 drafts))
    × (others' : List ReturnRow) × (apply_action cashier stores 20 8 none
          (complete (pos 2500 ∷ []))
          (draft ∷ completed)
        ≡ ok others')
unfolding find_return
apply_action-quantities_example =
    apply_action-quantities cashier stores 20 8 none (complete (pos 2500 ∷ [])) drafts completed
      (draft ∷ completed) 4 {r = draft} refl refl draft_completes

apply_action-once_example : apply_action cashier stores 22 8 none void completed ≢ ok []
unfolding find_return
apply_action-once_example =
    apply_action-once cashier stores 20 8 none (complete (pos 2500 ∷ [])) drafts completed cashier
      stores 22 none void [] refl draft_completes

apply_action-settled_example :
    (ltb_ℤ (pos 0) (negsuc 2499) ≡ true → sum_of (pos 2500 ∷ []) ≡ negsuc 2499)
    × (ltb_ℤ (negsuc 2499) (pos 0) ≡ true → sum_of (pos 2500 ∷ []) ≡ pos 0 -ℤ negsuc 2499)
unfolding find_return
apply_action-settled_example =
    apply_action-settled cashier stores 20 8 none (pos 2500 ∷ []) drafts completed {r = draft} refl
      draft_completes

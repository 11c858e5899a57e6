-- ===== src/Returns/Completion.antt =====
-- What ends a return: it ends once, it is settled, and it counts for the sale.
use aris_cloud.Prelude.{
  ℕ, ◌+◌, inr, inl, refl, ◌≡◌, ◌≢◌, true, false, ◌&&◌, List, [], ◌∷◌, map, arith, Option, none,
  some, Option-cases,
}
use aris_cloud.Prelude.Int.{ℤ, pos, ◌+ℤ◌, ◌-ℤ◌, leb_ℤ, ltb_ℤ, +ℤ_parts, -ℤ_parts, eq_of_parts}
use aris_cloud.Prelude.Result.{ok}
use aris_cloud.Scope.{TokenData, Store}
use aris_cloud.Returns.{
  returned_in, completed_returned_quantity, return_void, return_complete, is_tracked,
}
use aris_cloud.Returns.Drafts.{
  ReturnRow, get_return_events, find_return, put_return, is_draft, DraftAction, void, complete,
  sum_of, check_settlement, to_returned, act_on_draft, apply_action, tracked_row,
}

put_return-get :
    (x r : ReturnRow) (rows : List ReturnRow) (k : ℕ)
    → find_return x.id rows ≡ some r
    → is_tracked r.action ≡ false
    → is_tracked x.action ≡ false
    → x.sale_id ≡ r.sale_id
    → completed_returned_quantity k (get_return_events x.sale_id (put_return x rows))
      ≡ completed_returned_quantity k (get_return_events x.sale_id rows)
unfolding find_return put_return get_return_events completed_returned_quantity
put_return-get x r [] k f u v e = cc
put_return-get x r (y ∷ rows) k f u v e = ground (arith, put_return-get x r rows k)

find_return_id :
    (id : ℕ) (rows : List ReturnRow) {r : ReturnRow} → find_return id rows ≡ some r → r.id ≡ id
unfolding find_return
find_return_id id [] {r} h = cc
find_return_id id (y ∷ rows) {r} h = ground (arith, find_return_id id rows {r = r})

find_return-put :
    (x : ReturnRow) (rows : List ReturnRow) {r : ReturnRow}
    → find_return x.id rows ≡ some r
    → find_return x.id (put_return x rows) ≡ some x
unfolding find_return put_return
find_return-put x [] {r} h = cc
find_return-put x (y ∷ rows) {r} h = ground (arith, find_return-put x rows {r = r})

-- What an action adds to the quantities returned of a line.
abbrev pub quantity_added : ℕ → DraftAction → ReturnRow → ℕ
quantity_added k void r = 0
quantity_added k (complete payments) r = returned_in k (map to_returned r.quoted_lines)

-- A return that is completed adds the quantities of its quote to those returned of the sale, and one
-- that is voided adds nothing. What is in the other rows does not matter: on any rows in which the same
-- return is found, the action is accepted as well.
pub apply_action-quantities :
    (token : TokenData) (stores : List Store) (new_id id : ℕ) (requested : Option ℕ)
    (action : DraftAction) (rows rows' others : List ReturnRow) (k : ℕ) {r : ReturnRow}
    → find_return id rows ≡ some r
    → find_return id others ≡ some r
    → apply_action token stores new_id id requested action rows ≡ ok rows'
    → (completed_returned_quantity k (get_return_events r.sale_id rows')
        ≡ quantity_added k action r
          + completed_returned_quantity k (get_return_events r.sale_id rows))
      × (others' : List ReturnRow) × (apply_action token stores new_id id requested action others
          ≡ ok others')
unfolding apply_action act_on_draft get_return_events completed_returned_quantity
apply_action-quantities token stores new_id id requested void rows rows' others k {r} found there
      h =
    let own = find_return_id id rows {r = r} found in
    let x = record r { action = return_void } in
    (ground (arith, put_return-get x r rows k), put_return x others, ground arith)
apply_action-quantities token stores new_id id requested (complete payments) rows rows' others k {r}
      found there h =
    let own = find_return_id id rows {r = r} found in
    let x = record r { action = return_complete; settlement_payments = payments } in
    (
      ground (arith, put_return-get x r rows k),
      tracked_row new_id r ∷ put_return x others,
      ground arith,
    )

ended :
    (token : TokenData) (stores : List Store) (new_id id : ℕ) (requested : Option ℕ)
    (action : DraftAction) (rows rows' : List ReturnRow) {r : ReturnRow}
    → find_return new_id rows ≡ none
    → find_return id rows ≡ some r
    → apply_action token stores new_id id requested action rows ≡ ok rows'
    → (x : ReturnRow) × (find_return id rows' ≡ some x) × (is_draft x.action ≡ false)
unfolding apply_action act_on_draft find_return
ended token stores new_id id requested void rows rows' {r} fresh found h =
    let x = record r { action = return_void } in
    (x, ground (arith, find_return_id id rows {r = r} found, find_return-put x rows {r = r}), refl)
ended token stores new_id id requested (complete payments) rows rows' {r} fresh found h =
    let x = record r { action = return_complete; settlement_payments = payments } in
    (x, ground (arith, find_return_id id rows {r = r} found, find_return-put x rows {r = r}), refl)

drafted :
    (token : TokenData) (stores : List Store) (new_id id : ℕ) (requested : Option ℕ)
    (action : DraftAction) (rows rows' : List ReturnRow)
    → apply_action token stores new_id id requested action rows ≡ ok rows'
    → (r : ReturnRow) × (find_return id rows ≡ some r) × (is_draft r.action ≡ true)
unfolding apply_action
drafted token stores new_id id requested action rows rows' h =
    elim (Option-cases (find_return id rows)) [
      | inl missing ↦ absurd (ground arith)
      | inr (r, found) ↦ (r, found, ground arith)
    ]

zero_difference : (a b : ℤ) → leb_ℤ (a -ℤ b) (pos 0) && leb_ℤ (pos 0) (a -ℤ b) ≡ true → a ≡ b
zero_difference a b h = eq_of_parts a b (ground (arith, -ℤ_parts a b))

zero_sum : (a b : ℤ) → leb_ℤ (a +ℤ b) (pos 0) && leb_ℤ (pos 0) (a +ℤ b) ≡ true → a ≡ pos 0 -ℤ b
zero_sum a b h = eq_of_parts a (pos 0 -ℤ b) (ground (arith, +ℤ_parts a b, -ℤ_parts (pos 0) b))

-- A return ends once: after an action on it that succeeds, and whose new event has a new id, no action
-- on it succeeds.
pub apply_action-once :
    (token : TokenData) (stores : List Store) (new_id id : ℕ) (requested : Option ℕ)
    (action : DraftAction) (rows rows' : List ReturnRow) (token' : TokenData) (stores' : List Store)
    (new_id' : ℕ) (requested' : Option ℕ) (action' : DraftAction) (rows'' : List ReturnRow)
    → find_return new_id rows ≡ none
    → apply_action token stores new_id id requested action rows ≡ ok rows'
    → apply_action token' stores' new_id' id requested' action' rows' ≢ ok rows''
apply_action-once token stores new_id id requested action rows rows' token' stores' new_id'
      requested' action' rows'' fresh h again =
    let (r, found, _) = drafted token stores new_id id requested action rows rows' h in
    let (x, stored, done) =
      ended token stores new_id id requested action rows rows' {r = r} fresh found h in
    let (y, stored', draft) =
      drafted token' stores' new_id' id requested' action' rows' rows'' again in
    ground (arith, stored, stored', done, draft)

-- A return with a difference is completed only by payments that add up to it.
pub apply_action-settled :
    (token : TokenData) (stores : List Store) (new_id id : ℕ) (requested : Option ℕ)
    (payments : List ℤ) (rows rows' : List ReturnRow) {r : ReturnRow}
    → find_return id rows ≡ some r
    → apply_action token stores new_id id requested (complete payments) rows ≡ ok rows'
    → (ltb_ℤ (pos 0) r.net_adjustment ≡ true → sum_of payments ≡ r.net_adjustment)
      × (ltb_ℤ r.net_adjustment (pos 0) ≡ true → sum_of payments ≡ pos 0 -ℤ r.net_adjustment)
unfolding apply_action act_on_draft check_settlement
apply_action-settled token stores new_id id requested payments rows rows' {r} found h = (
  λ over. zero_difference (sum_of payments) r.net_adjustment (ground arith),
  λ under. zero_sum (sum_of payments) r.net_adjustment (ground arith),
)

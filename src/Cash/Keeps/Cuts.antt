-- ===== src/Cash/Keeps/Cuts.antt =====
-- Cuts of a session, and the cash that they take out, keep the invariant.
use aris_cloud.Prelude.{
  ◌∙◌, ℕ, ◌≡◌, refl, not, Option, none, some, List, [], ◌∷◌, All, select, first, arith, leb, ◌==◌,
  Bool, true, Bool-cases, inl, inr, sym,
}
use aris_cloud.Prelude.Int.{ℤ, ◌-ℤ◌, int_laws}
use aris_cloud.Prelude.Result.{
  or_raise-some, Ensures-raise_if, raise_if, or_raise, Ensures, Ensures-bind, validation_error,
  business_conflict, resource_not_found,
}
use aris_cloud.Cash.Db.{
  CashSession, CashCut, CashDb, Caller, MovementType, is_opened, ensure_not_closed,
  ensure_positive_amount, ensure_non_negative_balance, void_cut, completed_cut,
}
use mathlib.Core.Path.{subst}
use aris_cloud.Cash.Session.{session_movement}
use aris_cloud.Cash.Cuts.{
  CutPayload, is_active_session, resolve_active_session, resolve_cut_window, last_cut, next_number,
  new_cut, deposit_to_apply, cut_cash_out, store_cut, create_cash_cut, CutAction, void_action,
  print_mark_action, complete_action, apply_cash_out_action, is_cut, put_cut, act_on_cut,
  cash_cut_action,
}
use aris_cloud.Cash.Rows.{find, first-IsPicked}
use aris_cloud.Cash.Ledger.{signed, IsCutOf, IsOfStore, IsLedger}
use aris_cloud.Cash.Keeps.Write.{write-IsLedger}
use aris_cloud.Cash.Keeps.Actions.{cash-Follows, covered}
use aris_cloud.Cash.Keeps.Query.{IsOfCaller, open_session_query-IsOfCaller}

-- What the first row of a select satisfies.
first-All :
    (P : CashCut → Type 0) (p : CashCut → Bool) (cuts : List CashCut) {x : CashCut}
    → All P cuts
    → first (select p cuts) ≡ some x
    → P x × (p x ≡ true)
first-All P p [] h e = cc
first-All P p (y ∷ cuts) {x} h e = elim (Bool-cases (p y)) [
  | inl yes_it ↦
      let q : y ≡ x = ground (arith, yes_it, e) in subst (λ z. P z × (p z ≡ true)) q (h.0, yes_it)
  | inr no_it ↦ first-All P p cuts h.1 (ground (arith, no_it, e))
]

put_cut-IsCutOf :
    (rows : List CashSession) (x : CashCut) (cuts : List CashCut)
    → IsCutOf rows x
    → All (IsCutOf rows) cuts
    → All (IsCutOf rows) (put_cut x cuts)
unfolding put_cut
put_cut-IsCutOf rows x [] new h = tt
put_cut-IsCutOf rows x (y ∷ cuts) new h = elim (Bool-cases (y.id == x.id)) [
  | inl same ↦ rw same (new, put_cut-IsCutOf rows x cuts new h.1)
  | inr other ↦ rw other (h.0, put_cut-IsCutOf rows x cuts new h.1)
]

copied :
    (o : Option CashSession) (x y : CashCut)
    → y.tenant_id ≡ x.tenant_id
    → y.store_id ≡ x.store_id
    → IsOfStore o x
    → IsOfStore o y
copied none x y tenant store h = h
copied (some s) x y tenant store h = (h.0 ∙ sym tenant, h.1 ∙ sym store)

pub with_cuts-IsLedger :
    (db : CashDb) (cuts : List CashCut)
    → IsLedger db
    → All (IsCutOf db.sessions) cuts
    → IsLedger (record db { cuts = cuts })
with_cuts-IsLedger db cuts l h = record {
  unique = l.unique;
  balanced = l.balanced;
  non_negative = l.non_negative;
  attached = l.attached;
  unlocked = l.unlocked;
  single = l.single;
  cut_from = h;
}

-- The session of a cut of the caller's store.
pub cut_session-IsOfCaller :
    (c : Caller) (db : CashDb) (l : IsLedger db) (id : ℕ) (x : CashCut) (s : CashSession)
    → first (select (is_cut c id) db.cuts) ≡ some x
    → first (select (λ row. row.id == x.cash_session_id) db.sessions) ≡ some s
    → IsOfCaller c db s
cut_session-IsOfCaller c db l id x s found session =
    let (stored, passes) =
      first-IsPicked (λ row. row.id == x.cash_session_id) db.sessions l.unique {s = s} session in
    let (of_store, own) = first-All (IsCutOf db.sessions) (is_cut c id) db.cuts l.cut_from found in
    let same : x.cash_session_id ≡ s.id = ground (arith, passes) in
    let of_s : IsOfStore (some s) x = rw (same, stored) at of_store in
    record {
      stored = stored;
      tenant = ground (arith, own, of_s);
      store = ground (arith, own, of_s);
    }

pub own_cut-IsCutOf :
    (c : Caller) (db : CashDb) (l : IsLedger db) (id : ℕ) (x : CashCut)
    → first (select (is_cut c id) db.cuts) ≡ some x
    → IsCutOf db.sessions x
own_cut-IsCutOf c db l id x found =
    (first-All (IsCutOf db.sessions) (is_cut c id) db.cuts l.cut_from found).0

module _ (c : Caller) (db : CashDb) (l : IsLedger db) where
  resolve_active_session-IsOfCaller :
      (id : Option ℕ) (s : CashSession)
      → resolve_active_session c id db ≡ some s
      → IsOfCaller c db s
  unfolding resolve_active_session
  resolve_active_session-IsOfCaller none s e = open_session_query-IsOfCaller c db l s e
  resolve_active_session-IsOfCaller (some id) s e =
      let (stored, passes) =
        first-IsPicked (is_active_session c id) db.sessions l.unique {s = s} e in
      record { stored = stored; tenant = ground arith; store = ground arith }

  cut_cash_out-IsLedger :
      (s : CashSession) (amount : ℤ) (cuts : List CashCut)
      → IsOfCaller c db s
      → All (IsCutOf db.sessions) cuts
      → Ensures IsLedger (cut_cash_out c s amount cuts db)
  unfolding cut_cash_out signed
  cut_cash_out-IsLedger s amount cuts own h =
      let after = s.expected_cash -ℤ amount in
      let m = session_movement c s MovementType.cash_out amount after in
      Ensures-bind IsLedger (ensure_non_negative_balance after) _ λ u rest.
        write-IsLedger (record db { cuts = cuts }) s (record s { expected_cash = after }) m
          (with_cuts-IsLedger db cuts l h) own.stored
          (cash-Follows s m after (omega int_laws) (covered after rest) refl own.tenant own.store
            refl)

  store_cut-IsLedger :
      (s : CashSession) (amount : Option ℤ) (cuts : List CashCut)
      → IsOfCaller c db s
      → All (IsCutOf db.sessions) cuts
      → Ensures IsLedger (store_cut c s amount cuts db)
  unfolding store_cut
  store_cut-IsLedger s none cuts own h = with_cuts-IsLedger db cuts l h
  store_cut-IsLedger s (some amount) cuts own h = cut_cash_out-IsLedger s amount cuts own h

  new_cut-IsCutOf :
      (payload : CutPayload) (s : CashSession) (number : ℕ) (window : ℕ × ℕ)
      → IsOfCaller c db s
      → IsCutOf db.sessions (new_cut c payload s number window)
  new_cut-IsCutOf payload s number window own =
      let of_s : IsOfStore (some s) (new_cut c payload s number window) =
        (sym own.tenant, sym own.store) in
      rw own.stored of_s

  pub create_cash_cut-IsLedger :
      (payload : CutPayload) → Ensures IsLedger (create_cash_cut c payload db)
  unfolding create_cash_cut
  create_cash_cut-IsLedger payload =
      Ensures-bind IsLedger
        (or_raise (resolve_active_session c payload.cash_session_id db) business_conflict) _
        λ s found.
          let own =
            resolve_active_session-IsOfCaller payload.cash_session_id s (or_raise-some _ _ found) in
          let window = resolve_cut_window c payload s db in
          Ensures-bind IsLedger (ensure_not_closed db c.tenant_id c.store_id s.business_date) _
            λ _ _. Ensures-raise_if IsLedger (leb window.1 window.0) validation_error _ λ _.
              store_cut-IsLedger s (deposit_to_apply payload) _ own (
                new_cut-IsCutOf payload s (next_number (last_cut s.id db.cuts)) window own,
                l.cut_from,
              )

  renewed-IsCutOf :
      (id : ℕ) (x y : CashCut)
      → first (select (is_cut c id) db.cuts) ≡ some x
      → (y.cash_session_id ≡ x.cash_session_id)
        × (y.tenant_id ≡ x.tenant_id)
        × (y.store_id ≡ x.store_id)
      → All (IsCutOf db.sessions) (put_cut y db.cuts)
  renewed-IsCutOf id x y found same =
      let own = own_cut-IsCutOf c db l id x found in
      let moved : IsOfStore (find y.cash_session_id db.sessions) x = rw same.0 own in
      put_cut-IsCutOf db.sessions y db.cuts (copied _ x y same.1 same.2 moved) l.cut_from

  act_on_cut-IsLedger :
      (id : ℕ) (x : CashCut)
      → first (select (is_cut c id) db.cuts) ≡ some x
      → (action : CutAction) → Ensures IsLedger (act_on_cut c action x db)
  unfolding act_on_cut
  act_on_cut-IsLedger id x found void_action =
      with_cuts-IsLedger db _ l
        (renewed-IsCutOf id x (record x { status = void_cut }) found (refl, refl, refl))
  act_on_cut-IsLedger id x found print_mark_action = l
  act_on_cut-IsLedger id x found (complete_action none) = tt
  act_on_cut-IsLedger id x found (complete_action (some counted)) = with_cuts-IsLedger db _ l (
      renewed-IsCutOf id x
        (record x {
          status = completed_cut;
          counted_cash = some counted;
          completed_at = some c.now;
        })
        found (refl, refl, refl))
  act_on_cut-IsLedger id x found (apply_cash_out_action requested) =
      Ensures-bind IsLedger (ensure_positive_amount requested) _ λ amount _.
        Ensures-bind IsLedger
          (or_raise (first (select (λ row. row.id == x.cash_session_id) db.sessions))
            business_conflict)
          _
          λ s session.
            Ensures-bind IsLedger (raise_if (not (is_opened s.status)) business_conflict) _ λ _ _.
              cut_cash_out-IsLedger s amount _
                (cut_session-IsOfCaller c db l id x s found (or_raise-some _ _ session))
                (renewed-IsCutOf id x (record x { deposit_removed_amount = some amount }) found
                  (refl, refl, refl))

  pub cash_cut_action-IsLedger :
      (id : ℕ) (action : CutAction) → Ensures IsLedger (cash_cut_action c id action db)
  unfolding cash_cut_action
  cash_cut_action-IsLedger id action =
      Ensures-bind IsLedger (or_raise (first (select (is_cut c id) db.cuts)) resource_not_found) _
        λ x found. act_on_cut-IsLedger id x (or_raise-some _ _ found) action

-- ===== src/Idempotency/Runs.antt =====
-- Requests that run side by side under idempotency keys, as steps of the service: a handler starts,
-- commits its transaction, and records its response; an exception at any point records a failure
-- (app/aris3/core/errors.py), and a process that stops records nothing.
use aris_cloud.Prelude.{ℕ, suc, ◌≡◌, List, [], ◌∷◌, ◌++◌, if◌then◌else◌}
use aris_cloud.Prelude.Result.{ok}
use aris_cloud.Idempotency.{
  same_key, RequestKey, IdempotencyRecord, context, start, record_success, record_failure,
}

-- A handler before and after the commit of its transaction.
pub data Phase : Type 0 where
  claimed committed : Phase

-- The records, the handlers that run, and the keys whose transactions were committed, newest first.
pub record Service : Type 0 where
  pub rows : List IdempotencyRecord
  pub running : List (RequestKey × Phase)
  pub effects : List RequestKey

abbrev pub idle : Service
idle = record { rows = []; running = []; effects = [] }

pub data Step : Service → Service → Type 0 where
  begins :
      {s : Service} (key : RequestKey) (request_hash : ℕ) (seen rows : List IdempotencyRecord)
      → start key request_hash seen s.rows ≡ ok (context rows)
      → Step s (record s { rows = rows; running = (key, claimed) ∷ s.running })
  commits :
      {rows : List IdempotencyRecord} {effects : List RequestKey}
      (before after : List (RequestKey × Phase)) (key : RequestKey)
      → Step
          (record { rows = rows; running = before ++ (key, claimed) ∷ after; effects = effects })
          (record {
            rows = rows;
            running = before ++ (key, committed) ∷ after;
            effects = key ∷ effects;
          })
  succeeds :
      {rows : List IdempotencyRecord} {effects : List RequestKey}
      (before after : List (RequestKey × Phase)) (key : RequestKey) (status_code body : ℕ)
      → Step
          (record { rows = rows; running = before ++ (key, committed) ∷ after; effects = effects })
          (record {
            rows = record_success key status_code body rows;
            running = before ++ (key, committed) ∷ after;
            effects = effects;
          })
  fails :
      {rows : List IdempotencyRecord} {effects : List RequestKey}
      (before after : List (RequestKey × Phase)) (key : RequestKey) (phase : Phase)
      (status_code body : ℕ)
      → Step
          (record { rows = rows; running = before ++ (key, phase) ∷ after; effects = effects })
          (record {
            rows = record_failure key status_code body rows;
            running = before ++ after;
            effects = effects;
          })
  ends :
      {rows : List IdempotencyRecord} {effects : List RequestKey}
      (before after : List (RequestKey × Phase)) (key : RequestKey) (phase : Phase)
      → Step
          (record { rows = rows; running = before ++ (key, phase) ∷ after; effects = effects })
          (record { rows = rows; running = before ++ after; effects = effects })

pub data Reachable : Service → Type 0 where
  at_idle : Reachable idle
  step : {s s' : Service} → Reachable s → Step s s' → Reachable s'

-- How often the transaction of a key was committed.
unfoldable pub count_effects : RequestKey → List RequestKey → ℕ
count_effects key [] = 0
count_effects key (k ∷ ks) =
    let rest = count_effects key ks in if same_key k key then suc rest else rest

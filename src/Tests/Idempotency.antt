-- ===== src/Tests/Idempotency.antt =====
-- A request that runs, commits, and is retried (app/aris3/services/idempotency.py).
use aris_cloud.Prelude.{Option, ℕ, ◌≤◌, ◌↔◌, refl, ◌≡◌, ◌≢◌, true, List, [], ◌∷◌, arith, none, some}
use aris_cloud.Prelude.Result.{ok, err, idempotency_request_in_progress}
use aris_cloud.Idempotency.{
  RequestKey, RecordState, IdempotencyRecord, context, replay, get_by_key, new_record, start,
  finish, record_success, record_failure, extract_idempotency_key,
}
use aris_cloud.Idempotency.Runs.{
  committed, Service, Reachable, count_effects, at_idle, step, begins, commits, succeeds,
}
use aris_cloud.Idempotency.Once.{
  Reachable-effects, Reachable-succeeded, Reachable-failed_after_commit,
}
use aris_cloud.Idempotency.Replay.{start-replays, start-after_finish}

abbrev key : RequestKey
key = record { tenant_id = 1; endpoint = 2; method = 3; idempotency_key = 4 }

abbrev claimed_rows : List IdempotencyRecord
claimed_rows = new_record key 9 ∷ []

abbrev answered_rows : List IdempotencyRecord
answered_rows =
    record {
      key = key;
      request_hash = 9;
      state = RecordState.succeeded;
      status_code = some 200;
      response_body = some 5;
    }
    ∷ []

abbrev committed_service : Service
committed_service = record {
  rows = claimed_rows;
  running = (key, committed) ∷ [];
  effects = key ∷ [];
}

abbrev answered_service : Service
answered_service = record {
  rows = answered_rows;
  running = (key, committed) ∷ [];
  effects = key ∷ [];
}

started : start key 9 [] [] ≡ ok (context claimed_rows)
unfolding start get_by_key
started = refl

retried_too_early : start key 9 claimed_rows claimed_rows ≡ err idempotency_request_in_progress
unfolding start get_by_key
retried_too_early = refl

legacy_header : extract_idempotency_key none (some 4) true ≡ ok (some 4)
unfolding extract_idempotency_key
legacy_header = refl

committed-Reachable : Reachable committed_service
committed-Reachable = step (step at_idle (begins key 9 [] claimed_rows started)) (commits [] [] key)

answered-Reachable : Reachable answered_service
unfolding record_success
answered-Reachable = step committed-Reachable (succeeds [] [] key 200 5)

Reachable-effects_example : count_effects key (key ∷ []) ≤ 1
Reachable-effects_example = Reachable-effects key committed-Reachable

Reachable-succeeded_example : count_effects key (key ∷ []) ≡ 1
unfolding get_by_key
Reachable-succeeded_example = Reachable-succeeded key answered-Reachable refl refl

Reachable-failed_after_commit_example :
    (count_effects key (key ∷ []) ≡ 1)
    × (row : IdempotencyRecord) × (get_by_key key (record_failure key 500 6 claimed_rows)
        ≡ some row)
    × (row.state ≡ RecordState.failed)
Reachable-failed_after_commit_example =
    Reachable-failed_after_commit [] [] key 500 6 committed-Reachable

start-replays_example :
    (start key 9 answered_rows answered_rows ≢ ok (context []))
    × ((start key 9 answered_rows answered_rows ≡ ok (replay 200 5)) ↔ (
        (◌≡◌ {A = ℕ} 9 9)
        × (RecordState.succeeded ≢ RecordState.in_progress)
        × (◌≡◌ {A = Option ℕ} (some 200) (some 200))
        × (◌≡◌ {A = Option ℕ} (some 5) (some 5))))
unfolding get_by_key
start-replays_example = start-replays key 9 answered_rows 200 5 [] refl

start-after_finish_example :
    start key 9
      (finish RecordState.failed key 422 7 claimed_rows)
      (finish RecordState.failed key 422 7 claimed_rows)
    ≡ ok (replay 422 7)
unfolding get_by_key
start-after_finish_example =
    start-after_finish RecordState.failed key 9 422 7 claimed_rows refl (λ h. ground arith)

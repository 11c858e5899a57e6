-- ===== src/Idempotency/Replay.antt =====
-- What a request under a known key is answered.
use aris_cloud.Prelude.{ℕ, ◌↔◌, ◌≡◌, ◌≢◌, List, if◌then◌else◌, arith, some, ◌==◌}
use aris_cloud.Prelude.Result.{ok, err, idempotency_key_reused_with_different_payload}
use aris_cloud.Idempotency.{
  RequestKey, RecordState, IdempotencyRecord, context, replay, get_by_key, handle_existing, start,
  finish,
}
use aris_cloud.Idempotency.Once.{get_by_key-finish}

-- A request under a key that has a record never runs. It is answered with the recorded response
-- exactly when the payload is the same, the first request has ended, and its response is recorded.
pub start-replays :
    (key : RequestKey) (request_hash : ℕ) (rows : List IdempotencyRecord) {row : IdempotencyRecord}
    (code body : ℕ) (rows' : List IdempotencyRecord)
    → get_by_key key rows ≡ some row
    → (start key request_hash rows rows ≢ ok (context rows'))
      × ((start key request_hash rows rows ≡ ok (replay code body)) ↔ (
          (row.request_hash ≡ request_hash)
          × (row.state ≢ RecordState.in_progress)
          × (row.status_code ≡ some code)
          × (row.response_body ≡ some body)))
unfolding start handle_existing
start-replays key request_hash rows {row} code body rows' found = (
  λ h. ground arith,
  (λ h. (ground arith, λ p. ground arith, ground arith, ground arith), λ h. ground arith),
)

-- After a response is recorded, success or failure, a retry with the same payload is answered with
-- it, and one with another payload is refused.
pub start-after_finish :
    (state : RecordState) (key : RequestKey) (request_hash code body : ℕ)
    (rows : List IdempotencyRecord) {row : IdempotencyRecord}
    → get_by_key key rows ≡ some row
    → state ≢ RecordState.in_progress
    → let rows' = finish state key code body rows in
      start key request_hash rows' rows' ≡ (
        if row.request_hash == request_hash
        then ok (replay code body)
        else err idempotency_key_reused_with_different_payload)
unfolding start handle_existing
start-after_finish state key request_hash code body rows {row} found ended =
    ground (arith, get_by_key-finish state key key code body rows)

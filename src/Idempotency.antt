-- ===== src/Idempotency.antt =====
-- app/aris3/services/idempotency.py with app/aris3/repos/idempotency.py: the records of requests by
-- tenant, endpoint, method and key. Keys, hashes and response bodies are only compared and copied, so
-- they are numbers; that `json.loads` gives back what `json.dumps` wrote is left to the library.
pub mod Runs
pub mod Once
pub mod Replay
use aris_cloud.Prelude.{
  false, true, ℕ, Bool, not, ◌&&◌, Option, none, some, List, [], ◌∷◌, ◌==◌, if◌then◌else◌, first,
  first_some, select,
}
use aris_cloud.Prelude.Result.{
  Result, ok, err, idempotency_key_required, idempotency_request_in_progress,
  idempotency_key_reused_with_different_payload,
}

pub record RequestKey : Type 0 where
  pub tenant_id : ℕ
  pub endpoint : ℕ
  pub method : ℕ
  pub idempotency_key : ℕ

pub data RecordState : Type 0 where
  in_progress succeeded failed : RecordState

pub record IdempotencyRecord : Type 0 where
  pub key : RequestKey
  pub request_hash : ℕ
  pub state : RecordState
  pub status_code : Option ℕ
  pub response_body : Option ℕ

abbrev pub same_key : RequestKey → RequestKey → Bool
same_key a b =
    a.tenant_id == b.tenant_id
    && a.endpoint == b.endpoint
    && a.method == b.method
    && a.idempotency_key == b.idempotency_key

unfoldable pub get_by_key : RequestKey → List IdempotencyRecord → Option IdempotencyRecord
get_by_key key rows = first (select (λ row. same_key row.key key) rows)

-- What `start` returns: a context, with the table that has its new record, or a replay.
pub data Started : Type 0 where
  context : List IdempotencyRecord → Started
  replay : ℕ → ℕ → Started

abbrev is_in_progress : RecordState → Bool
is_in_progress RecordState.in_progress = true
is_in_progress _ = false

abbrev pub recorded_response : Option ℕ → Option ℕ → Result Started
recorded_response (some status_code) (some response_body) = ok (replay status_code response_body)
recorded_response _ _ = err idempotency_request_in_progress

unfoldable pub handle_existing : Option IdempotencyRecord → ℕ → Result Started
handle_existing none request_hash = err idempotency_request_in_progress
handle_existing (some existing) request_hash =
    if not (existing.request_hash == request_hash)
    then err idempotency_key_reused_with_different_payload
    else if is_in_progress existing.state
    then err idempotency_request_in_progress
    else recorded_response existing.status_code existing.response_body

abbrev pub new_record : RequestKey → ℕ → IdempotencyRecord
new_record key request_hash = record {
  key = key;
  request_hash = request_hash;
  state = RecordState.in_progress;
  status_code = none;
  response_body = none;
}

-- `repo.create`: the unique constraint on the key refuses a second record.
unfoldable pub create : RequestKey → ℕ → List IdempotencyRecord → Result Started
unfolding get_by_key handle_existing
create key request_hash rows = elim (get_by_key key rows) [
  | none ↦ ok (context (new_record key request_hash ∷ rows))
  | some existing ↦ handle_existing (some existing) request_hash
]

-- The lookup reads the table as it was (`seen`); other requests may have written it before `create`.
unfoldable pub start :
    RequestKey → ℕ → List IdempotencyRecord → List IdempotencyRecord → Result Started
unfolding get_by_key handle_existing create
start key request_hash seen rows = elim (get_by_key key seen) [
  | none ↦ create key request_hash rows
  | some existing ↦ handle_existing (some existing) request_hash
]

-- `record_success` and `record_failure`, on the record of a key.
unfoldable pub finish :
    RecordState → RequestKey → ℕ → ℕ → List IdempotencyRecord → List IdempotencyRecord
finish state key status_code response_body [] = []
finish state key status_code response_body (row ∷ rows) =
    let rest = finish state key status_code response_body rows in
    if same_key row.key key
    then record row {
      state = state;
      status_code = some status_code;
      response_body = some response_body;
    }
      ∷ rows
    else row ∷ rest

unfoldable pub record_success : RequestKey → ℕ → ℕ → List IdempotencyRecord → List IdempotencyRecord
unfolding finish
record_success = finish RecordState.succeeded

unfoldable pub record_failure : RequestKey → ℕ → ℕ → List IdempotencyRecord → List IdempotencyRecord
unfolding finish
record_failure = finish RecordState.failed

-- The two spellings of the header; an empty one counts as missing.
unfoldable pub extract_idempotency_key : Option ℕ → Option ℕ → Bool → Result (Option ℕ)
extract_idempotency_key header legacy required = elim (first_some header legacy) [
  | some key ↦ ok (some key)
  | none ↦ if required then err idempotency_key_required else ok none
]

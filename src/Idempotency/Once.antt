-- ===== src/Idempotency/Once.antt =====
-- A key's transaction is committed at most once.
use aris_cloud.Prelude.{
  refl, ℕ, suc, ◌+◌, ◌≤◌, inr, inl, Bool-cases, ◌≡◌, Bool, true, false, not, ◌&&◌, List, [], ◌∷◌,
  ◌++◌, if◌then◌else◌, arith, Option, none, some,
}
use aris_cloud.Prelude.Result.{ok}
use aris_cloud.Idempotency.{
  record_failure, record_success, RequestKey, RecordState, IdempotencyRecord, context, same_key,
  get_by_key, new_record, handle_existing, create, start, finish,
}
use mathlib.Core.Path.{subst}
use aris_cloud.Idempotency.Runs.{
  at_idle, step, step, Reachable, ends, fails, succeeds, commits, begins, Step, Service,
  count_effects, Phase, claimed, committed,
}

abbrev pub is_committed : Phase → Bool
is_committed claimed = false
is_committed committed = true

-- The handlers of a key that run, before (`false`) or after (`true`) their commit.
abbrev pub count_running : Bool → RequestKey → List (RequestKey × Phase) → ℕ
count_running done key [] = 0
count_running done key ((k, phase) ∷ rest) =
    let n = count_running done key rest in
    if same_key k key && (if done then is_committed phase else not (is_committed phase))
    then suc n
    else n

-- What the record of a key says of its commits and of its handlers.
abbrev pub IsOnceFor : Option IdempotencyRecord → ℕ → ℕ → ℕ → Type 0
IsOnceFor none e c m = (e ≡ 0) × (c ≡ 0) × (m ≡ 0)
IsOnceFor (some row) e c m = (e + c ≤ 1) × (m ≤ e) × (row.state ≡ RecordState.succeeded → e ≡ 1)

same_key_trans : (a b c : RequestKey) → same_key a b ≡ true → same_key a c ≡ same_key b c
same_key_trans a b c h = ground arith

same_key-eq : (x a b : RequestKey) → same_key a b ≡ true → same_key x b ≡ same_key x a
same_key-eq x a b h = ground arith

count_running-append :
    (done : Bool) (key : RequestKey) (xs ys : List (RequestKey × Phase))
    → count_running done key (xs ++ ys) ≡ count_running done key xs + count_running done key ys
count_running-append done key [] ys = ground arith
count_running-append done key (x ∷ xs) ys = ground (arith, count_running-append done key xs ys)

start-context :
    (key : RequestKey) (h : ℕ) (seen rows : List IdempotencyRecord) {rows' : List IdempotencyRecord}
    → start key h seen rows ≡ ok (context rows')
    → (get_by_key key rows ≡ none) × (rows' ≡ new_record key h ∷ rows)
unfolding start handle_existing create
start-context key h seen rows e = (ground arith, ground arith)

abbrev pub answered : RecordState → ℕ → ℕ → Option IdempotencyRecord → Option IdempotencyRecord
answered state code body none = none
answered state code body (some row) =
    some (record row { state = state; status_code = some code; response_body = some body })

pub get_by_key-finish :
    (state : RecordState) (key k : RequestKey) (code body : ℕ) (rows : List IdempotencyRecord)
    → get_by_key k (finish state key code body rows)
      ≡ (if same_key key k then answered state code body (get_by_key k rows) else get_by_key k rows)
unfolding get_by_key finish
get_by_key-finish state key k code body [] = ground arith
get_by_key-finish state key k code body (row ∷ rows) = elim (Bool-cases (same_key row.key key)) [
  | inl same ↦ ground (arith, same_key_trans row.key key k same)
  | inr other ↦
      ground (arith, get_by_key-finish state key k code body rows, same_key_trans row.key k key)
]

-- The handler that a step is about, taken out of the list.
count_running-at :
    (done : Bool) (k : RequestKey) (before after : List (RequestKey × Phase))
    (x : RequestKey × Phase)
    → count_running done k (before ++ x ∷ after)
      ≡ count_running done k (x ∷ []) + count_running done k (before ++ after)
count_running-at done k before after x = ground (
  arith,
  count_running-append done k before (x ∷ after),
  count_running-append done k before after,
)

get_by_key-same :
    (key k : RequestKey) (rows : List IdempotencyRecord)
    → same_key key k ≡ true
    → get_by_key k rows ≡ get_by_key key rows
unfolding get_by_key
get_by_key-same key k [] h = ground arith
get_by_key-same key k (row ∷ rows) h =
    ground (arith, get_by_key-same key k rows h, same_key-eq row.key key k h)

begins-IsOnceFor :
    (key k : RequestKey) (h : ℕ) (rows : List IdempotencyRecord) (e c m : ℕ)
    → get_by_key key rows ≡ none
    → IsOnceFor (get_by_key k rows) e c m
    → IsOnceFor (get_by_key k (new_record key h ∷ rows)) e (if same_key key k then suc c else c) m
unfolding get_by_key
begins-IsOnceFor key k h rows e c m fresh i = ground (arith, get_by_key-same key k rows)

commits-IsOnceFor :
    (same : Bool) (row : Option IdempotencyRecord) (e c m : ℕ)
    → IsOnceFor row e ((if same then 1 else 0) + c) m
    → IsOnceFor row (if same then suc e else e) c ((if same then 1 else 0) + m)
commits-IsOnceFor same none e c m i = ground arith
commits-IsOnceFor same (some row) e c m i = ground arith

ends-IsOnceFor :
    (row : Option IdempotencyRecord) (e c m c' m' : ℕ)
    → c' ≤ c
    → m' ≤ m
    → IsOnceFor row e c m
    → IsOnceFor row e c' m'
ends-IsOnceFor none e c m c' m' p q i = ground arith
ends-IsOnceFor (some row) e c m c' m' p q i = ground arith

answered-IsOnceFor :
    (state : RecordState) (code body : ℕ) (row : Option IdempotencyRecord) (e c m : ℕ)
    → (state ≡ RecordState.succeeded → 1 ≤ m)
    → IsOnceFor row e c m
    → IsOnceFor (answered state code body row) e c m
answered-IsOnceFor state code body none e c m s i = i
answered-IsOnceFor state code body (some row) e c m s i = (i.0, i.1, λ h. ground (arith, s h))

finish-IsOnceFor :
    (state : RecordState) (key k : RequestKey) (code body : ℕ) (rows : List IdempotencyRecord)
    (e c m : ℕ)
    → (same_key key k ≡ true → state ≡ RecordState.succeeded → 1 ≤ m)
    → IsOnceFor (get_by_key k rows) e c m
    → IsOnceFor (get_by_key k (finish state key code body rows)) e c m
finish-IsOnceFor state key k code body rows e c m s i = elim (Bool-cases (same_key key k)) [
  | inl same ↦
      rw (get_by_key-finish state key k code body rows, same)
        (answered-IsOnceFor state code body (get_by_key k rows) e c m (s same) i)
  | inr other ↦ rw (get_by_key-finish state key k code body rows, other) i
]

abbrev pub IsOnce : RequestKey → Service → Type 0
IsOnce k s =
    IsOnceFor (get_by_key k s.rows) (count_effects k s.effects) (count_running false k s.running)
      (count_running true k s.running)

Step-IsOnce : (k : RequestKey) {s s' : Service} → Step s s' → IsOnce k s → IsOnce k s'
unfolding count_effects record_success record_failure
Step-IsOnce k {s} (begins key h seen rows e) i =
    let fresh = start-context key h seen s.rows e in
    rw fresh.1 (ground (arith, begins-IsOnceFor key k h s.rows _ _ _ fresh.0 i))
Step-IsOnce k (commits {rows} {effects} before after key) i =
    let claims = count_running-at false k before after (key, claimed) in
    let done = count_running-at true k before after (key, claimed) in
    let claims' = count_running-at false k before after (key, committed) in
    let done' = count_running-at true k before after (key, committed) in
    ground (
      arith,
      commits-IsOnceFor (same_key key k) (get_by_key k rows) (count_effects k effects)
          (count_running false k (before ++ after)) (count_running true k (before ++ after)),
    )
Step-IsOnce k (succeeds {rows} {effects} before after key code body) i =
    let done = count_running-at true k before after (key, committed) in
    finish-IsOnceFor RecordState.succeeded key k code body rows _ _ _ (λ same _. ground arith) i
Step-IsOnce k (fails {rows} {effects} before after key phase code body) i =
    let claims = count_running-at false k before after (key, phase) in
    let done = count_running-at true k before after (key, phase) in
    finish-IsOnceFor RecordState.failed key k code body rows _ _ _ (λ same h. absurd (ground arith))
      (ends-IsOnceFor (get_by_key k rows) _ _ _ _ _ (ground arith) (ground arith) i)
Step-IsOnce k (ends {rows} {effects} before after key phase) i =
    let claims = count_running-at false k before after (key, phase) in
    let done = count_running-at true k before after (key, phase) in
    ends-IsOnceFor (get_by_key k rows) _ _ _ _ _ (ground arith) (ground arith) i

Reachable-IsOnce : {s : Service} (k : RequestKey) → Reachable s → IsOnce k s
unfolding get_by_key count_effects
Reachable-IsOnce k at_idle = (refl, refl, refl)
Reachable-IsOnce k (step before taken) = Step-IsOnce k taken (Reachable-IsOnce k before)

effects_once : (row : Option IdempotencyRecord) (e c m : ℕ) → IsOnceFor row e c m → e ≤ 1
effects_once none e c m i = ground arith
effects_once (some row) e c m i = ground arith

-- However requests under a key interleave, fail or stop, its transaction is committed at most once.
pub Reachable-effects : {s : Service} (k : RequestKey) → Reachable s → count_effects k s.effects ≤ 1
Reachable-effects k r = effects_once _ _ _ _ (Reachable-IsOnce k r)

-- A record that says that its request succeeded stands for a transaction that was committed.
pub Reachable-succeeded :
    {s : Service} (k : RequestKey) {row : IdempotencyRecord}
    → Reachable s
    → get_by_key k s.rows ≡ some row
    → row.state ≡ RecordState.succeeded
    → count_effects k s.effects ≡ 1
Reachable-succeeded {s} k {row} r found good =
    let i =
      subst
        (λ o.
          IsOnceFor o (count_effects k s.effects) (count_running false k s.running)
            (count_running true k s.running))
        found (Reachable-IsOnce k r) in
    i.2 good

same_key_refl : (k : RequestKey) → same_key k k ≡ true
same_key_refl k = ground arith

failed_row :
    (code body : ℕ) (o : Option IdempotencyRecord) (e c m : ℕ)
    → 1 ≤ m
    → IsOnceFor o e c m
    → (e ≡ 1)
      × (row : IdempotencyRecord) × (answered RecordState.failed code body o ≡ some row)
      × (row.state ≡ RecordState.failed)
failed_row code body none e c m p i = absurd (ground arith)
failed_row code body (some row) e c m p i = (
  ground arith,
  record row { state = RecordState.failed; status_code = some code; response_body = some body },
  refl,
  refl,
)

-- A handler that raises after its commit has its request recorded as failed, although the
-- transaction stands.
pub Reachable-failed_after_commit :
    {rows : List IdempotencyRecord} {effects : List RequestKey}
    (before after : List (RequestKey × Phase)) (key : RequestKey) (code body : ℕ)
    → Reachable
        (record { rows = rows; running = before ++ (key, committed) ∷ after; effects = effects })
    → (count_effects key effects ≡ 1)
      × (row : IdempotencyRecord) × (get_by_key key (record_failure key code body rows) ≡ some row)
      × (row.state ≡ RecordState.failed)
unfolding record_failure
Reachable-failed_after_commit {rows} {effects} before after key code body r =
    let done = count_running-at true key before after (key, committed) in
    let own = same_key_refl key in
    rw (get_by_key-finish RecordState.failed key key code body rows, own)
      (failed_row code body (get_by_key key rows) _ _ _ (ground arith) (Reachable-IsOnce key r))

-- ===== src/Dlq/Record/Effect.antt =====
-- What a recorded failure does to the rows.
use omnisync.Base.{
  ℕ, ◌≡◌, ◌≢◌, refl, sym, subst, inl, inr, true, String, Option, none, some, List, [], ◌∷◌, ◌++◌,
  any, ◌==◌, select, first-All, All-zip, All-select, All-select_passes, arith, Option-cases,
  Bool-cases, str_eq, ◌⊎◌, ◌+◌, All, eq_iff, cut, Uuid, Timestamp,
}
use omnisync.Base.Json.{Json}
use omnisync.Base.Rows.{find, put, HasUniqueIds, find-put, find-append}
use omnisync.Base.Rows.First.{any-put, any-append, any_self}
use omnisync.Base.Keyset.{sort}
use omnisync.Base.Keyset.Sorted.{All-sort}
use omnisync.Config.{Settings}
use omnisync.Session.{Session}
use omnisync.Dlq.Model.{FailedEvent, Status, pending}
use omnisync.Dlq.Backoff.{compute_backoff}
use omnisync.Dlq.Record.{
  newer, is_active, is_active_for, find_active, seeded, correlation_or, refresh, new_failure,
  record_failure,
}
use omnisync.Dlq.Record.Collapse.{failed_id, find_active-IsStored}

-- What an active row has already of these, where there is one.
abbrev pub status_so_far : Option FailedEvent → Status
status_so_far none = pending
status_so_far (some f) = f.status

abbrev pub attempts_so_far : Option FailedEvent → ℕ
attempts_so_far none = 0
attempts_so_far (some f) = f.replay_attempts

abbrev pub last_attempt_so_far : Option FailedEvent → Option Timestamp
last_attempt_so_far none = none
last_attempt_so_far (some f) = f.last_attempt_at

abbrev pub correlation_so_far : Option FailedEvent → Option String
correlation_so_far none = none
correlation_so_far (some f) = f.correlation_id

-- A retry that is scheduled already keeps its time; else it comes after the delay that is due.
abbrev pub IsScheduled : Settings → Timestamp → Option FailedEvent → Option Timestamp → Type 0
IsScheduled cfg now none next = next ≡ some (now + compute_backoff cfg 0)
IsScheduled cfg now (some f) next =
    ((t : Timestamp) × (f.next_retry_at ≡ some t) × (next ≡ some t))
    ⊎ ((f.next_retry_at ≡ none) × (next ≡ some (now + compute_backoff cfg f.replay_attempts)))

-- A new id that is not empty replaces the old one; a new row takes what it gets.
abbrev pub IsCorrelated : Option String → Option FailedEvent → Option String → Type 0
IsCorrelated given none kept = kept ≡ given
IsCorrelated none (some f) kept = kept ≡ f.correlation_id
IsCorrelated (some t) (some f) kept =
    ((t ≡ "") × (kept ≡ f.correlation_id)) ⊎ ((t ≢ "") × (kept ≡ some t))

-- The row of a failure.
pub record IsRecordOf (cfg : Settings) (now : Timestamp) (source operation : String)
    (payload : Json) (error_text : String) (correlation_id : Option String)
    (before : Option FailedEvent) (row : FailedEvent) : Type 0 where
  pub active : is_active_for source operation row ≡ true
  pub payload_kept : row.payload ≡ payload
  pub error_cut : row.error_text ≡ cut 2000 error_text
  pub scheduled : IsScheduled cfg now before row.next_retry_at
  pub correlated : IsCorrelated correlation_id before row.correlation_id
  pub status_kept : row.status ≡ status_so_far before
  pub attempts_kept : row.replay_attempts ≡ attempts_so_far before
  pub last_attempt_kept : row.last_attempt_at ≡ last_attempt_so_far before

seeded-IsScheduled :
    (cfg : Settings) (now : Timestamp) (f : FailedEvent)
    → IsScheduled cfg now (some f) (seeded cfg now f)
unfolding seeded
seeded-IsScheduled cfg now f = elim (Option-cases f.next_retry_at) [
  | inl unset ↦ rw (unset, seeded) (inr (refl, refl))
  | inr (t, set) ↦ rw (set, seeded) (inl (t, refl, refl))
]

correlation_or-IsCorrelated :
    (given : Option String) (f : FailedEvent)
    → IsCorrelated given (some f) (correlation_or given f.correlation_id)
unfolding correlation_or
correlation_or-IsCorrelated none f = refl
correlation_or-IsCorrelated (some t) f = elim (Bool-cases (str_eq t "")) [
  | inl empty ↦ rw empty (inl ((eq_iff t "").0 empty, refl))
  | inr given ↦ rw given (inr ((λ e. ground (arith, given, (eq_iff t "").1 e)), refl))
]

-- A table that has a row under an id, and is the same as before elsewhere.
abbrev Holds : Uuid → FailedEvent → List FailedEvent → List FailedEvent → Type 0
Holds i row before after =
    (find failed_id i after ≡ some row)
    × ((j : Uuid) → j ≢ i → find failed_id j after ≡ find failed_id j before)

append-Holds :
    (i : Uuid) (row : FailedEvent) (rows : List FailedEvent)
    → row.id ≡ i
    → All (λ f. f.id ≢ i) rows
    → Holds i row rows (rows ++ row ∷ [])
append-Holds i row rows e fresh =
    let fresh' : All (λ f. f.id ≢ row.id) rows =
      subst (λ k. All (λ f. f.id ≢ k) rows) (sym e) fresh in
    (
      ground (arith, find-append failed_id i row rows fresh'),
      λ j n. ground (arith, find-append failed_id j row rows fresh'),
    )

put-Holds :
    (i : Uuid) (row : FailedEvent) (rows : List FailedEvent) {f : FailedEvent}
    → row.id ≡ i
    → find failed_id i rows ≡ some f
    → Holds i row rows (put failed_id row rows)
put-Holds i row rows {f} e h = (
  ground (arith, find-put failed_id i row rows),
  λ j n. ground (arith, find-put failed_id j row rows),
)

module _ (cfg : Settings) (source operation : String) (payload : Json) (error_text : String)
    (correlation_id : Option String) where
  refresh-IsRecordOf :
      (now : Timestamp) (f : FailedEvent)
      → is_active_for source operation f ≡ true
      → IsRecordOf cfg now source operation payload error_text correlation_id
          (some f)
          (refresh cfg now payload error_text correlation_id f)
  unfolding refresh is_active_for
  refresh-IsRecordOf now f h = record {
    active = h;
    payload_kept = refl;
    error_cut = refl;
    scheduled = seeded-IsScheduled cfg now f;
    correlated = correlation_or-IsCorrelated correlation_id f;
    status_kept = refl;
    attempts_kept = refl;
    last_attempt_kept = refl;
  }

  new_failure-IsRecordOf :
      (now created : Timestamp) (i : Uuid)
      → IsRecordOf cfg now source operation payload error_text correlation_id none
          (new_failure cfg now created i source operation payload error_text correlation_id)
  unfolding new_failure is_active_for is_active
  new_failure-IsRecordOf now created i = record {
    active = ground (arith, eq_iff source source, eq_iff operation operation);
    payload_kept = refl;
    error_cut = refl;
    scheduled = refl;
    correlated = refl;
    status_kept = refl;
    attempts_kept = refl;
    last_attempt_kept = refl;
  }

  -- Over rows with distinct ids and with a new UUID to draw, a recorded failure returns the id of a
  -- row that is active for the source and the operation, with the new payload and the error text cut
  -- to 2000 characters. Where there was such a row already, it keeps its status, its attempts, the time
  -- of the last one, the time of the next retry if it has one, and its correlation id if no new one is
  -- given. A new row is pending with no attempts, and it takes the correlation id as it is. A next
  -- retry that was not set comes after the backoff of the attempts that are counted. Every other row
  -- stays as it was.
  pub record_failure-IsRecordOf :
      (s : Session)
      → HasUniqueIds failed_id s.db.failed_events
      → All (λ f. f.id ≢ s.world.uuids 0) s.db.failed_events
      → let (i, s') = record_failure cfg source operation payload error_text correlation_id s in
        let before = s.db.failed_events in
        ((row : FailedEvent) × (find failed_id i s'.db.failed_events ≡ some row)
          × IsRecordOf cfg
              (s.world.clock 0)
              source
              operation
              payload
              error_text
              correlation_id
              (find_active source operation before)
              row)
        × ((j : Uuid) → j ≢ i → find failed_id j s'.db.failed_events ≡ find failed_id j before)
  unfolding record_failure refresh new_failure
  record_failure-IsRecordOf s u fresh =
      let rows = s.db.failed_events in
      let now = s.world.clock 0 in
      elim (Option-cases (find_active source operation rows)) [
        | inl missing ↦
            let row =
              new_failure cfg now (s.world.clock 1) (s.world.uuids 0) source operation payload
                error_text correlation_id in
            let holds = append-Holds (s.world.uuids 0) row rows refl fresh in
            rw (missing, record_failure)
              (
                (row, holds.0, new_failure-IsRecordOf now (s.world.clock 1) (s.world.uuids 0)),
                holds.1,
              )
        | inr (f, found) ↦
            let stored = find_active-IsStored source operation rows {f = f} u found in
            let row = refresh cfg now payload error_text correlation_id f in
            let holds = put-Holds f.id row rows {f = f} refl stored.0 in
            rw (found, record_failure) ((row, holds.0, refresh-IsRecordOf now f stored.1), holds.1)
      ]

-- Only the table of failures is written.
pub record_failure_frame :
    (cfg : Settings) (source operation : String) (payload : Json) (error_text : String)
    (correlation_id : Option String) (s : Session)
    → let s' = (record_failure cfg source operation payload error_text correlation_id s).1 in
      s'.db ≡ record s.db { failed_events = s'.db.failed_events }
unfolding record_failure
record_failure_frame cfg source operation payload error_text correlation_id s =
    elim (Option-cases (find_active source operation s.db.failed_events)) [
      | inl missing ↦ rw (missing, record_failure) refl
      | inr (f, found) ↦ rw (found, record_failure) refl
    ]

abbrev IsMember : String → String → List FailedEvent → FailedEvent → Type 0
IsMember source operation rows f =
    (any (λ a. a.id == f.id) rows ≡ true) × (is_active_for source operation f ≡ true)

find_active-IsMember :
    (source operation : String) (rows : List FailedEvent) {f : FailedEvent}
    → find_active source operation rows ≡ some f
    → IsMember source operation rows f
unfolding find_active
find_active-IsMember source operation rows {f} h =
    let p = is_active_for source operation in
    first-All (IsMember source operation rows) (λ _. true)
      (sort newer (λ x. x.created_at) (select p rows)) {a = f}
      (All-sort newer (λ x. x.created_at) (IsMember source operation rows) (select p rows)
        (All-zip (λ x. any (λ a. a.id == x.id) rows ≡ true) (λ x. p x ≡ true) (select p rows)
          (All-select (λ x. any (λ a. a.id == x.id) rows ≡ true) p rows (any_self failed_id rows))
          (All-select_passes p rows)))
      h

-- Whatever the table holds, an active row of the source and the operation is in it afterwards.
pub record_failure_active :
    (cfg : Settings) (source operation : String) (payload : Json) (error_text : String)
    (correlation_id : Option String) (s : Session)
    → any
        (is_active_for source operation)
        (record_failure cfg source operation payload error_text correlation_id s).1.db.failed_events
      ≡ true
unfolding record_failure refresh
record_failure_active cfg source operation payload error_text correlation_id s =
    let rows = s.db.failed_events in
    elim (Option-cases (find_active source operation rows)) [
      | inl missing ↦
          rw (missing, record_failure)
            (any-append (is_active_for source operation) _ rows
              (new_failure-IsRecordOf cfg source operation payload error_text correlation_id
                (s.world.clock 0) (s.world.clock 1) (s.world.uuids 0)).active)
      | inr (f, found) ↦
          rw (found, record_failure)
            (any-put failed_id (is_active_for source operation) _ rows
              (find_active-IsMember source operation rows {f = f} found).0
              (refresh-IsRecordOf cfg source operation payload error_text correlation_id
                (s.world.clock 0) f
                (find_active-IsMember source operation rows {f = f} found).1).active)
    ]

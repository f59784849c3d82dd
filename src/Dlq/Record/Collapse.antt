-- ===== src/Dlq/Record/Collapse.antt =====
-- At most one active row for each pair of a source and an operation.
use omnisync.Base.{
  ◌≤◌, ◌≡◌, ◌≢◌, refl, sym, subst, inl, inr, true, String, Option, none, some, List, [], ◌∷◌, ◌++◌,
  arith, Bool-cases, Option-cases, length, select, first, All, All-map, All-zip, All-select,
  All-select_passes, first-All, length-select-append, eq_iff, Uuid,
}
use omnisync.Base.Json.{Json}
use omnisync.Base.Keyset.{sort}
use omnisync.Base.Keyset.Sorted.{All-sort, length-sort}
use omnisync.Base.Rows.{
  find, put, HasUniqueIds, find_self, found_only, put-HasUniqueIds, append-HasUniqueIds,
  length-select-put,
}
use omnisync.Config.{Settings}
use omnisync.Session.{Session}
use omnisync.Dlq.Model.{FailedEvent}
use omnisync.Dlq.Record.{is_active_for, newer, find_active, refresh, new_failure, record_failure}

abbrev pub failed_id : FailedEvent → Uuid
failed_id f = f.id

-- The active rows of a source and an operation.
abbrev pub active_rows : String → String → List FailedEvent → List FailedEvent
active_rows source operation = select (is_active_for source operation)

pub record IsQueue (rows : List FailedEvent) : Type 0 where
  pub ids : HasUniqueIds failed_id rows
  pub collapsed : (source operation : String) → length (active_rows source operation rows) ≤ 1

-- A row is written back that is active only where the row of its id was.
pub put-IsQueue :
    (row : FailedEvent) (rows : List FailedEvent) {f : FailedEvent}
    → find failed_id row.id rows ≡ some f
    → ((source operation : String)
        → is_active_for source operation row ≡ true
        → is_active_for source operation f ≡ true)
    → IsQueue rows
    → IsQueue (put failed_id row rows)
put-IsQueue row rows {f} h keeps q = record {
  ids = put-HasUniqueIds failed_id row rows q.ids;
  collapsed = λ source operation.
      let shrinks = length-select-put failed_id (is_active_for source operation) row rows (
        All-map
          (λ a same i p.
            subst (λ x. is_active_for source operation x ≡ true) (sym (same i))
              (keeps source operation p))
          rows (found_only failed_id row.id rows {b = f} q.ids h)) in
      omega (arith, q.collapsed source operation);
}

abbrev IsStored : String → String → List FailedEvent → FailedEvent → Type 0
IsStored source operation rows f =
    (find failed_id f.id rows ≡ some f) × (is_active_for source operation f ≡ true)

-- The row that is refreshed is an active row of the table.
pub find_active-IsStored :
    (source operation : String) (rows : List FailedEvent) {f : FailedEvent}
    → HasUniqueIds failed_id rows
    → find_active source operation rows ≡ some f
    → IsStored source operation rows f
unfolding find_active
find_active-IsStored source operation rows {f} u h =
    let p = is_active_for source operation in
    first-All (IsStored source operation rows) (λ _. true)
      (sort newer (λ x. x.created_at) (select p rows)) {a = f}
      (All-sort newer (λ x. x.created_at) (IsStored source operation rows) (select p rows)
        (All-zip (λ x. find failed_id x.id rows ≡ some x) (λ x. p x ≡ true) (select p rows)
          (All-select (λ x. find failed_id x.id rows ≡ some x) p rows (find_self failed_id rows u))
          (All-select_passes p rows)))
      h

first-none : (xs : List FailedEvent) → first (λ _. true) xs ≡ none → length xs ≡ 0
first-none [] h = refl
first-none (x ∷ xs) h = absurd (cc)

pub find_active-none :
    (source operation : String) (rows : List FailedEvent)
    → find_active source operation rows ≡ none
    → length (active_rows source operation rows) ≡ 0
unfolding find_active
find_active-none source operation rows h =
    let sorted =
      sort newer (λ (x : FailedEvent). x.created_at) (active_rows source operation rows) in
    omega (
      arith,
      first-none sorted h,
      length-sort newer (λ (x : FailedEvent). x.created_at) (active_rows source operation rows),
    )

same_pair :
    (source operation : String) (f : FailedEvent)
    → is_active_for source operation f ≡ true
    → (source ≡ f.source) × (operation ≡ f.operation)
unfolding is_active_for
same_pair source operation f h =
    ground (arith, eq_iff f.source source, eq_iff f.operation operation)

append-IsQueue :
    (row : FailedEvent) (rows : List FailedEvent)
    → All (λ f. f.id ≢ row.id) rows
    → length (active_rows row.source row.operation rows) ≡ 0
    → IsQueue rows
    → IsQueue (rows ++ row ∷ [])
append-IsQueue row rows fresh unused q = record {
  ids = append-HasUniqueIds failed_id row rows fresh q.ids;
  collapsed = λ source operation.
      let whole = length-select-append (is_active_for source operation) rows (row ∷ []) in
      elim (Bool-cases (is_active_for source operation row)) [
        | inl here ↦
            let pair = same_pair source operation row here in
            let free : length (active_rows source operation rows) ≡ 0 =
              rw (pair.0, pair.1) unused in
            ground (arith, whole, free)
        | inr other ↦ ground (arith, whole, q.collapsed source operation)
      ];
}

-- From a queue with distinct ids and at most one active row for each source and operation, and with
-- a new UUID to draw, a recorded failure ends in such a queue.
pub record_failure-IsQueue :
    (cfg : Settings) (source operation : String) (payload : Json) (error_text : String)
    (correlation_id : Option String) (s : Session)
    → All (λ f. f.id ≢ s.world.uuids 0) s.db.failed_events
    → IsQueue s.db.failed_events
    → IsQueue
        (record_failure cfg source operation payload error_text correlation_id s).1.db.failed_events
unfolding record_failure refresh new_failure is_active_for
record_failure-IsQueue cfg source operation payload error_text correlation_id s fresh q =
    let rows = s.db.failed_events in
    elim (Option-cases (find_active source operation rows)) [
      | inl missing ↦
          rw (missing, record_failure)
            (append-IsQueue _ rows fresh (find_active-none source operation rows missing) q)
      | inr (f, found) ↦
          rw (found, record_failure)
            (put-IsQueue _ rows {f = f} (find_active-IsStored source operation rows q.ids found).0
              (λ a b h. h) q)
    ]

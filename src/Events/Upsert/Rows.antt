-- ===== src/Events/Upsert/Rows.antt =====
-- The rows of `normalized_events` under the statements of an upsert: what a reload finds, what
-- `rows` holds for a key, and what ON CONFLICT leaves in the table.
use omnisync.Base.{
  ◌≡◌, refl, inl, inr, Bool, true, Option, none, some, List, [], ◌∷◌, arith, String, if◌then◌else◌,
  Bool-cases, any, first, Uuid, Timestamp, draw,
}
use omnisync.Session.{Session}
use omnisync.Events.Model.{NormalizedEvent, NormalizedEventCreate}
use omnisync.Events.Upsert.{
  Key, same_key, key_of, event_key, has_key, reload, map_get, row_of, build_rows, overwrite,
  insert_on_conflict, insert_rows, snapshot_previous,
}
use omnisync.Events.Upsert.Keys.{same_key_iff, same_key_sym, input_of, IsDeduped}

-- The row of a key.
abbrev pub event_of : Key → List NormalizedEvent → Option NormalizedEvent
event_of k = first (has_key k)

-- The constraint `uq_source_external_id`: no key occurs twice.
abbrev pub IsUnique : List NormalizedEvent → Type 0
IsUnique [] = Unit
IsUnique (ev ∷ evs) = (event_of (event_key ev) evs ≡ none) × IsUnique evs

-- Under the constraint the dict of the rows is a lookup of the row.
pub map_get-eq-event_of :
    (k : Key) (evs : List NormalizedEvent) → IsUnique evs → map_get k evs ≡ event_of k evs
unfolding map_get
map_get-eq-event_of k [] u = refl
map_get-eq-event_of k (ev ∷ evs) u =
    ground (arith, map_get-eq-event_of k evs u.1, same_key_iff (event_key ev) k)

abbrev asked : List NormalizedEventCreate → NormalizedEvent → Bool
asked es ev = any (λ e. same_key (event_key ev) (key_of e)) es

asked_of_input :
    (k : Key) (es : List NormalizedEventCreate) (ev : NormalizedEvent) (e : NormalizedEventCreate)
    → input_of k es ≡ some e
    → has_key k ev ≡ true
    → asked es ev ≡ true
asked_of_input k [] ev e h q = cc
asked_of_input k (e' ∷ es) ev e h q =
    ground
      (arith, asked_of_input k es ev e, same_key_iff (event_key ev) k, same_key_sym k (key_of e'))

-- A reload for a batch finds the row of each key of the batch.
pub event_of-reload :
    (k : Key) (es : List NormalizedEventCreate) (evs : List NormalizedEvent)
    (e : NormalizedEventCreate)
    → input_of k es ≡ some e
    → event_of k (reload es evs) ≡ event_of k evs
unfolding reload
event_of-reload k es [] e h = refl
event_of-reload k es (ev ∷ evs) e h =
    ground (arith, event_of-reload k es evs e h, asked_of_input k es ev e h)

event_of-reload-none :
    (k : Key) (es : List NormalizedEventCreate) (evs : List NormalizedEvent)
    → event_of k evs ≡ none
    → event_of k (reload es evs) ≡ none
unfolding reload
event_of-reload-none k es [] h = refl
event_of-reload-none k es (ev ∷ evs) h = ground (arith, event_of-reload-none k es evs)

pub event_of-unreload :
    (k : Key) (es : List NormalizedEventCreate) (evs : List NormalizedEvent) (old : NormalizedEvent)
    → IsUnique evs
    → event_of k (reload es evs) ≡ some old
    → event_of k evs ≡ some old
unfolding reload
event_of-unreload k es [] old u h = absurd (cc)
event_of-unreload k es (ev ∷ evs) old u h =
    ground (arith, event_of-unreload k es evs old u.1, u.0, same_key_iff (event_key ev) k)

pub reload-IsUnique :
    (es : List NormalizedEventCreate) (evs : List NormalizedEvent)
    → IsUnique evs
    → IsUnique (reload es evs)
unfolding reload
reload-IsUnique es [] u = tt
reload-IsUnique es (ev ∷ evs) u =
    ground (arith, reload-IsUnique es evs u.1, event_of-reload-none (event_key ev) es evs u.0)

-- What ON CONFLICT makes of the stored row, if there is one.
abbrev pub merge : Option NormalizedEvent → NormalizedEvent → NormalizedEvent
merge none row = row
merge (some old) row = overwrite old row

event_key-overwrite : (old row : NormalizedEvent) → event_key (overwrite old row) ≡ event_key old
unfolding overwrite
event_key-overwrite old row = refl

event_of-insert :
    (k : Key) (row : NormalizedEvent) (evs : List NormalizedEvent)
    → event_of k (insert_on_conflict row evs) ≡ (
        if same_key (event_key row) k
        then some (merge (event_of (event_key row) evs) row)
        else event_of k evs)
unfolding insert_on_conflict
event_of-insert k row [] = refl
event_of-insert k row (ev ∷ evs) = ground (
  arith,
  event_of-insert k row evs,
  event_key-overwrite ev row,
  same_key_iff (event_key ev) (event_key row),
  same_key_iff (event_key row) k,
  same_key_iff (event_key ev) k,
)

insert-IsUnique :
    (row : NormalizedEvent) (evs : List NormalizedEvent)
    → IsUnique evs
    → IsUnique (insert_on_conflict row evs)
unfolding insert_on_conflict
insert-IsUnique row [] u = (refl, tt)
insert-IsUnique row (ev ∷ evs) u = ground (
  arith,
  insert-IsUnique row evs u.1,
  event_key-overwrite ev row,
  event_of-insert (event_key ev) row evs,
  same_key_sym (event_key row) (event_key ev),
)

-- The constraint holds after the upsert of any rows.
pub insert_rows-IsUnique :
    (rows evs : List NormalizedEvent) → IsUnique evs → IsUnique (insert_rows rows evs)
unfolding insert_rows
insert_rows-IsUnique [] evs u = u
insert_rows-IsUnique (row ∷ rows) evs u =
    insert_rows-IsUnique rows (insert_on_conflict row evs) (insert-IsUnique row evs u)

-- After the statement a key has the row of the statement, merged with the stored one, or else the
-- row that it had.
abbrev pub after_rows : Option NormalizedEvent → Option NormalizedEvent → Option NormalizedEvent
after_rows none stored = stored
after_rows (some row) stored = some (merge stored row)

event_of-none :
    (k j : Key) (evs : List NormalizedEvent)
    → same_key k j ≡ true
    → event_of k evs ≡ none
    → event_of j evs ≡ none
event_of-none k j evs h e = ground (arith, same_key_iff k j)

pub event_of-insert_rows :
    (k : Key) (rows evs : List NormalizedEvent)
    → IsUnique rows
    → event_of k (insert_rows rows evs) ≡ after_rows (event_of k rows) (event_of k evs)
unfolding insert_rows
event_of-insert_rows k [] evs u = refl
event_of-insert_rows k (row ∷ rows) evs u = ground (
  arith,
  event_of-insert_rows k rows (insert_on_conflict row evs) u.1,
  event_of-insert k row evs,
  event_of-none (event_key row) k rows,
  same_key_iff (event_key row) k,
)

-- What `rows` holds for the first input of a key.
pub build_rows-event_of :
    (now : Timestamp) (by : Option String) (stored : List NormalizedEvent) (k : Key)
    (es : List NormalizedEventCreate) (s : Session) (e : NormalizedEventCreate)
    → input_of k es ≡ some e
    → (i : Uuid) × (event_of k (build_rows now by stored es s).0
        ≡ some (row_of now i (map_get (key_of e) stored) e))
unfolding build_rows row_of
build_rows-event_of now by stored k [] s e h = absurd (cc)
build_rows-event_of now by stored k (e' ∷ es) s e h =
    let s' = snapshot_previous by (map_get (key_of e') stored) e' s in
    elim (Bool-cases (same_key (key_of e') k)) [
      | inl here ↦ (s'.world.uuids 0, ground arith)
      | inr later ↦
          let ih =
            build_rows-event_of now by stored k es (record s' { world = draw s'.world }) e
              (ground arith) in
          (ih.0, ground (arith, ih.1))
    ]

pub build_rows-event_of-none :
    (now : Timestamp) (by : Option String) (stored : List NormalizedEvent) (k : Key)
    (es : List NormalizedEventCreate) (s : Session)
    → input_of k es ≡ none
    → event_of k (build_rows now by stored es s).0 ≡ none
unfolding build_rows row_of
build_rows-event_of-none now by stored k [] s h = refl
build_rows-event_of-none now by stored k (e' ∷ es) s h =
    let existing = map_get (key_of e') stored in
    let s' = snapshot_previous by existing e' s in
    ground
      (arith, build_rows-event_of-none now by stored k es (record s' { world = draw s'.world }))

pub build_rows-IsUnique :
    (now : Timestamp) (by : Option String) (stored : List NormalizedEvent)
    (es : List NormalizedEventCreate) (s : Session)
    → IsDeduped es
    → IsUnique (build_rows now by stored es s).0
unfolding build_rows row_of
build_rows-IsUnique now by stored [] s d = tt
build_rows-IsUnique now by stored (e ∷ es) s d =
    let s' = snapshot_previous by (map_get (key_of e) stored) e s in
    let rest = record s' { world = draw s'.world } in
    (
      build_rows-event_of-none now by stored (key_of e) es rest d.0,
      build_rows-IsUnique now by stored es rest d.1,
    )

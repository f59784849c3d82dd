-- ===== src/SyncState/Cursors.antt =====
-- Reading a watermark back.
use omnisync.Base.{
  ◌≡◌, ◌≢◌, refl, sym, ap, subst, ◌∙◌, inl, inr, ◌⊎◌, true, false, String, Option, none, some, List,
  [], ◌∷◌, ◌++◌, arith, Bool-cases, Option-cases, eq_iff, first, first-All, first-append, All-map,
  Uuid,
}
use omnisync.Base.Rows.First.{first-put, first-put_other, first_passes}
use omnisync.Base.Rows.{find, put, HasUniqueIds, find_self, found_only}
use omnisync.Session.{Session}
use omnisync.SyncState.Model.{SyncState}
use omnisync.SyncState.{is_stream, changed, get_cursor, set_cursor}

abbrev pub state_id : SyncState → Uuid
state_id st = st.id

abbrev cursor_in : Option SyncState → Option String
cursor_in none = none
cursor_in (some st) = st.cursor

is_stream_iff :
    (source stream : String) (st : SyncState)
    → is_stream source stream st ≡ true
    → (st.source ≡ source) × (st.stream ≡ stream)
unfolding is_stream
is_stream_iff source stream st h = ground (arith, eq_iff st.source source, eq_iff st.stream stream)

is_stream_same :
    (source stream source' stream' : String) (st st' : SyncState)
    → st.source ≡ st'.source
    → st.stream ≡ st'.stream
    → is_stream source stream st ≡ true
    → is_stream source' stream' st ≡ is_stream source' stream' st'
unfolding is_stream
is_stream_same source stream source' stream' st st' h k q = rw (h, k) refl

unchanged_eq : (a b : Option String) → changed a b ≡ false → a ≡ b
unfolding changed
unchanged_eq none none h = refl
unchanged_eq none (some b) h = absurd (cc)
unchanged_eq (some a) none h = absurd (cc)
unchanged_eq (some a) (some b) h = ground (arith, eq_iff a b)

-- The lookup of a pair gives a row, and every other lookup is the same as before.
abbrev Holds : String → String → SyncState → List SyncState → List SyncState → Type 0
Holds source stream row before after =
    (first (is_stream source stream) after ≡ some row)
    × ((source' stream' : String)
        → (source' ≢ source) ⊎ (stream' ≢ stream)
        → first (is_stream source' stream') after ≡ first (is_stream source' stream') before)

other_stream :
    (source stream source' stream' : String) (st : SyncState)
    → is_stream source stream st ≡ true
    → (source' ≢ source) ⊎ (stream' ≢ stream)
    → is_stream source' stream' st ≡ false
other_stream source stream source' stream' st h n =
    elim (Bool-cases (is_stream source' stream' st)) [
      | inl e ↦
          let a = is_stream_iff source stream st h in
          let b = is_stream_iff source' stream' st e in
          elim n [ inl m ↦ absurd (m (sym b.0 ∙ a.0)) | inr m ↦ absurd (m (sym b.1 ∙ a.1)) ]
      | inr e ↦ e
    ]

append-Holds :
    (source stream : String) (row : SyncState) (rows : List SyncState)
    → first (is_stream source stream) rows ≡ none
    → is_stream source stream row ≡ true
    → Holds source stream row rows (rows ++ row ∷ [])
append-Holds source stream row rows h q = (
  first-append (is_stream source stream) rows (row ∷ []) ∙ ground (arith, h, q),
  λ source' stream' n.
      first-append (is_stream source' stream') rows (row ∷ [])
      ∙ ground (arith, other_stream source stream source' stream' row q n),
)

put-Holds :
    (source stream : String) (row : SyncState) (rows : List SyncState) {st : SyncState}
    → HasUniqueIds state_id rows
    → first (is_stream source stream) rows ≡ some st
    → row.id ≡ st.id
    → is_stream source stream row ≡ true
    → is_stream source stream st ≡ true
    → Holds source stream row rows (put state_id row rows)
put-Holds source stream row rows {st} u h i q q' =
    let stored =
      first-All (λ x. find state_id x.id rows ≡ some x) (is_stream source stream) rows {a = st}
        (find_self state_id rows u) h in
    (
      first-put state_id (is_stream source stream) row rows {a = st} u h i q,
      λ source' stream' n.
          first-put_other state_id (is_stream source' stream') row rows
            (All-map
              (λ a same e.
                let w : a ≡ st = same (e ∙ i) in
                subst (λ x. is_stream source' stream' x ≡ false) (sym w)
                  (other_stream source stream source' stream' st q' n))
              rows (found_only state_id st.id rows {b = st} u stored))
            (other_stream source stream source' stream' row q n),
    )

-- Over rows with distinct ids: after `set_cursor` a read of that source and stream gives the cursor
-- that was set, and a read of any other pair gives what it gave before.
pub get_cursor-set_cursor :
    (source : String) (cursor : Option String) (stream : String) (s : Session)
    → HasUniqueIds state_id s.db.sync_states
    → let s' = set_cursor source cursor stream s in
      (get_cursor source stream s'.db ≡ cursor)
      × ((source' stream' : String)
          → (source' ≢ source) ⊎ (stream' ≢ stream)
          → get_cursor source' stream' s'.db ≡ get_cursor source' stream' s.db)
unfolding get_cursor set_cursor is_stream
get_cursor-set_cursor source cursor stream s u =
    let rows = s.db.sync_states in
    elim (Option-cases (first (is_stream source stream) rows)) [
      | inl missing ↦
          let row : SyncState = record {
            id = s.world.uuids 0;
            source = source;
            stream = stream;
            cursor = cursor;
            updated_at = s.world.clock 0;
          } in
          let holds =
            append-Holds source stream row rows missing
              (ground (arith, eq_iff source source, eq_iff stream stream)) in
          rw (missing, set_cursor)
            (ap cursor_of holds.0, λ source' stream' n. ap cursor_of (holds.1 source' stream' n))
      | inr (st, found) ↦
          let q = first_passes (is_stream source stream) rows {a = st} found in
          elim (Bool-cases (changed st.cursor cursor)) [
            | inl e ↦
                let row = record st { cursor = cursor; updated_at = s.world.clock 0 } in
                let holds = put-Holds source stream row rows {st = st} u found refl q q in
                rw (found, e, set_cursor)
                  (
                    ap cursor_of holds.0,
                    λ source' stream' n. ap cursor_of (holds.1 source' stream' n),
                  )
            | inr e ↦
                rw (found, e, set_cursor)
                  (ap cursor_of found ∙ unchanged_eq st.cursor cursor e, λ source' stream' n. refl)
          ]
    ]
  where
    cursor_of : Option SyncState → Option String
    cursor_of o = elim o [ none ↦ none | some st ↦ st.cursor ]

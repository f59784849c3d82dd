-- ===== src/Events/Upsert/Ids.antt =====
-- Ids of events: a batch draws a new one for each row of the statement, and ON CONFLICT keeps the
-- id of a stored row, so that no two events share one.
use omnisync.Base.{
  ℕ, suc, ◌≡◌, ◌≢◌, ◌+◌, ap, subst, any, sym, ◌∙◌, inl, inr, Option, String, none, some, List, [],
  ◌∷◌, arith, Bool-cases, All, Uuid, Timestamp, World, draw,
}
use omnisync.Session.{Session}
use omnisync.Events.Model.{NormalizedEvent, NormalizedEventCreate}
use omnisync.Events.Upsert.{
  Key, has_key, key_of, map_get, has_version, content_changed, snapshot, snapshot_previous,
  build_rows, row_of, insert_on_conflict, insert_rows,
}
use omnisync.Events.Upsert.Rows.{event_of}

abbrev pub IsFreshId : Uuid → List NormalizedEvent → Type 0
IsFreshId i = All (λ ev. ev.id ≢ i)

-- The primary key of the table.
abbrev pub HasDistinctIds : List NormalizedEvent → Type 0
HasDistinctIds [] = Unit
HasDistinctIds (ev ∷ evs) = IsFreshId ev.id evs × HasDistinctIds evs

event_of-fresh :
    (i : Uuid) (k : Key) (evs : List NormalizedEvent) {a : NormalizedEvent}
    → IsFreshId i evs
    → event_of k evs ≡ some a
    → a.id ≢ i
event_of-fresh i k [] f h = absurd (cc)
event_of-fresh i k (ev ∷ evs) {a} f h = elim (Bool-cases (has_key k ev)) [
  | inl here ↦ let e : a ≡ ev = ground arith in λ q. f.0 (cc)
  | inr there ↦ event_of-fresh i k evs {a = a} f.1 (ground arith)
]

-- Two rows with one id are the same row.
pub event_of-id :
    (k j : Key) (evs : List NormalizedEvent) {a b : NormalizedEvent}
    → HasDistinctIds evs
    → event_of k evs ≡ some a
    → event_of j evs ≡ some b
    → a.id ≡ b.id
    → a ≡ b
event_of-id k j [] d h g q = absurd (cc)
event_of-id k j (ev ∷ evs) {a} {b} d h g q = elim (Bool-cases (has_key k ev)) [
  | inl k_here ↦ elim (Bool-cases (has_key j ev)) [
    | inl j_here ↦ ground arith
    | inr j_there ↦
        let e : a ≡ ev = ground arith in
        absurd (event_of-fresh ev.id j evs {a = b} d.0 (ground arith) (cc))
  ]
  | inr k_there ↦ elim (Bool-cases (has_key j ev)) [
    | inl j_here ↦
        let e : b ≡ ev = ground arith in
        absurd (event_of-fresh ev.id k evs {a = a} d.0 (ground arith) (cc))
    | inr j_there ↦ event_of-id k j evs d.1 (ground arith) (ground arith) q
  ]
]

insert-IsFreshId :
    (i : Uuid) (row : NormalizedEvent) (evs : List NormalizedEvent)
    → row.id ≢ i
    → IsFreshId i evs
    → IsFreshId i (insert_on_conflict row evs)
unfolding insert_on_conflict
insert-IsFreshId i row [] n f = (n, tt)
insert-IsFreshId i row (ev ∷ evs) n f = ground (arith, insert-IsFreshId i row evs n f.1)

insert-HasDistinctIds :
    (row : NormalizedEvent) (evs : List NormalizedEvent)
    → IsFreshId row.id evs
    → HasDistinctIds evs
    → HasDistinctIds (insert_on_conflict row evs)
unfolding insert_on_conflict
insert-HasDistinctIds row [] f d = (tt, tt)
insert-HasDistinctIds row (ev ∷ evs) f d = ground (
  arith,
  insert-HasDistinctIds row evs f.1 d.1,
  insert-IsFreshId ev.id row evs (λ q. f.0 (sym q)) d.0,
)

insert-All_fresh :
    (row : NormalizedEvent) (rows evs : List NormalizedEvent)
    → IsFreshId row.id rows
    → All (λ r. IsFreshId r.id evs) rows
    → All (λ r. IsFreshId r.id (insert_on_conflict row evs)) rows
insert-All_fresh row [] evs f h = tt
insert-All_fresh row (r ∷ rows) evs f h =
    (insert-IsFreshId r.id row evs (λ q. f.0 (sym q)) h.0, insert-All_fresh row rows evs f.1 h.1)

pub insert_rows-HasDistinctIds :
    (rows evs : List NormalizedEvent)
    → HasDistinctIds rows
    → All (λ r. IsFreshId r.id evs) rows
    → HasDistinctIds evs
    → HasDistinctIds (insert_rows rows evs)
unfolding insert_rows
insert_rows-HasDistinctIds [] evs dr f d = d
insert_rows-HasDistinctIds (row ∷ rows) evs dr f d =
    insert_rows-HasDistinctIds rows (insert_on_conflict row evs) dr.1
      (insert-All_fresh row rows evs dr.0 f.1) (insert-HasDistinctIds row evs f.0 d)

-- What `uuid4` promises: the draws to come differ from each other.
abbrev pub DrawsDistinct : World → Type 0
DrawsDistinct w = (m n : ℕ) → w.uuids m ≡ w.uuids n → m ≡ n

-- They have a property of ids, such as being new.
abbrev pub DrawsHave : (Uuid → Type 0) → World → Type 0
DrawsHave P w = (m : ℕ) → P (w.uuids m)

-- A later point of the same draws.
abbrev Shifted : World → World → Type 0
Shifted w w' = (d : ℕ) × ((m : ℕ) → w'.uuids m ≡ w.uuids (m + d))

Shifted-draw : (w w' : World) → Shifted w w' → Shifted w (draw w')
Shifted-draw w w' (d, h) = (suc d, λ m. h (suc m) ∙ ap w.uuids (omega arith))

Shifted-snapshot :
    (by : Option String) (ev : NormalizedEvent) (s : Session)
    → Shifted s.world (snapshot by ev s).world
unfolding snapshot
Shifted-snapshot by ev s = elim (Bool-cases (any (has_version ev.id ev.version) s.db.versions)) [
  | inl old ↦ rw old (0, λ m. ap s.world.uuids (omega arith))
  | inr new ↦ rw new (1, λ m. ap s.world.uuids (omega arith))
]

Shifted-snapshot_previous :
    (by : Option String) (old : Option NormalizedEvent) (e : NormalizedEventCreate) (s : Session)
    → Shifted s.world (snapshot_previous by old e s).world
unfolding snapshot_previous
Shifted-snapshot_previous by none e s = (0, λ m. ap s.world.uuids (omega arith))
Shifted-snapshot_previous by (some old) e s = elim (Bool-cases (content_changed old e)) [
  | inl changed ↦ rw changed (Shifted-snapshot by old s)
  | inr same ↦ rw same (0, λ m. ap s.world.uuids (omega arith))
]

DrawsHave-Shifted :
    (P : Uuid → Type 0) (w w' : World) → Shifted w w' → DrawsHave P w → DrawsHave P w'
DrawsHave-Shifted P w w' (d, h) a m = subst P (sym (h m)) (a (m + d))

DrawsDistinct-Shifted : (w w' : World) → Shifted w w' → DrawsDistinct w → DrawsDistinct w'
DrawsDistinct-Shifted w w' (d, h) a m n e =
    let q : m + d ≡ n + d = a (m + d) (n + d) (sym (h m) ∙ e ∙ h n) in omega arith

module _ (now : Timestamp) (by : Option String) (stored : List NormalizedEvent) where
  -- The session in which the rows after the first one are built.
  abbrev after_row : NormalizedEventCreate → Session → Session
  after_row e s =
      let s' = snapshot_previous by (map_get (key_of e) stored) e s in
      record s' { world = draw s'.world }

  Shifted-after_row :
      (e : NormalizedEventCreate) (s : Session) → Shifted s.world (after_row e s).world
  Shifted-after_row e s =
      let s' = snapshot_previous by (map_get (key_of e) stored) e s in
      Shifted-draw s.world s'.world (Shifted-snapshot_previous by (map_get (key_of e) stored) e s)

  -- What the draws have, the ids of the rows have.
  pub build_rows-have :
      (P : Uuid → Type 0) (es : List NormalizedEventCreate) (s : Session)
      → DrawsHave P s.world
      → All (λ r. P r.id) (build_rows now by stored es s).0
  unfolding build_rows row_of
  build_rows-have P [] s a = tt
  build_rows-have P (e ∷ es) s a =
      let s' = snapshot_previous by (map_get (key_of e) stored) e s in
      (
        DrawsHave-Shifted P s.world s'.world
            (Shifted-snapshot_previous by (map_get (key_of e) stored) e s) a 0,
        build_rows-have P es (after_row e s)
            (DrawsHave-Shifted P s.world (after_row e s).world (Shifted-after_row e s) a),
      )

  pub build_rows-HasDistinctIds :
      (es : List NormalizedEventCreate) (s : Session)
      → DrawsDistinct s.world
      → HasDistinctIds (build_rows now by stored es s).0
  unfolding build_rows row_of
  build_rows-HasDistinctIds [] s a = tt
  build_rows-HasDistinctIds (e ∷ es) s a =
      let s' = snapshot_previous by (map_get (key_of e) stored) e s in
      let distinct : DrawsDistinct s'.world =
        DrawsDistinct-Shifted s.world s'.world
          (Shifted-snapshot_previous by (map_get (key_of e) stored) e s) a in
      (
        build_rows-have (λ i. i ≢ s'.world.uuids 0) es (after_row e s)
            (λ m q. absurd (let z : suc m ≡ 0 = distinct (suc m) 0 q in omega arith)),
        build_rows-HasDistinctIds es (after_row e s)
            (DrawsDistinct-Shifted s.world (after_row e s).world (Shifted-after_row e s) a),
      )

-- ===== src/Events/Upsert/Recorded/Snapshots.antt =====
-- The contents that the version table holds after the snapshots of an upsert.
use omnisync.Base.{
  ℕ, ◌≤◌, ◌<◌, ◌≡◌, ◌≢◌, refl, ap, ◌∙◌, inl, inr, ◌⊎◌, Option, none, some, String, List, [], ◌∷◌,
  true, ◌&&◌, ◌==◌, if◌then◌else◌, is_some, any-eq-first, All, Uuid, Timestamp, arith, Option-cases,
  draw,
}
use native.Mathlib.Decide.{ℕ_discrete}
use omnisync.Session.{Session}
use omnisync.Events.Model.{NormalizedEvent, NormalizedEventCreate, EventVersion}
use omnisync.Events.Upsert.{
  Key, key_of, map_get, has_version, version_row, snapshot, snapshot_previous, build_rows,
  snapshot_all,
}
use omnisync.Events.Upsert.History.{version_of-snapshot}
use omnisync.Events.Upsert.Recorded.{content_of, IsRecorded}

abbrev pub or_content : Option String → Option String → Option String
or_content (some c) d = some c
or_content none d = d

-- The first of some events with an id and a version.
abbrev pub first_content : Uuid → ℕ → List NormalizedEvent → Option String
first_content i n [] = none
first_content i n (ev ∷ evs) =
    let rest = first_content i n evs in
    if ev.id == i && ev.version == n then some ev.content else rest

content_of-snapshot :
    (i : Uuid) (n : ℕ) (by : Option String) (ev : NormalizedEvent) (s : Session)
    → content_of i n (snapshot by ev s).db.versions
      ≡ or_content
          (content_of i n s.db.versions)
          (if ev.id == i && ev.version == n then some ev.content else none)
unfolding version_row
content_of-snapshot i n by ev s = ground (arith, version_of-snapshot i n by ev s)

pub content_of-snapshot_all :
    (i : Uuid) (n : ℕ) (by : Option String) (evs : List NormalizedEvent) (s : Session)
    → content_of i n (snapshot_all by evs s).db.versions
      ≡ or_content (content_of i n s.db.versions) (first_content i n evs)
unfolding snapshot_all
content_of-snapshot_all i n by [] s = ground arith
content_of-snapshot_all i n by (ev ∷ evs) s =
    ground (
      arith,
      content_of-snapshot_all i n by evs (snapshot by ev s),
      content_of-snapshot i n by ev s,
    )

-- Where the stored rows are recorded, nothing has to be added before they are overwritten.
abbrev AllRecorded : List NormalizedEvent → List EventVersion → Type 0
AllRecorded stored vs =
    (k : Key) (old : NormalizedEvent)
    → map_get k stored ≡ some old
    → is_some (content_of old.id old.version vs) ≡ true

snapshot_recorded :
    (by : Option String) (ev : NormalizedEvent) (s : Session)
    → is_some (content_of ev.id ev.version s.db.versions) ≡ true
    → snapshot by ev s ≡ s
unfolding snapshot
snapshot_recorded by ev s h =
    ground (arith, any-eq-first (has_version ev.id ev.version) s.db.versions)

snapshot_previous_recorded :
    (by : Option String) (stored : List NormalizedEvent) (e : NormalizedEventCreate) (s : Session)
    → AllRecorded stored s.db.versions
    → snapshot_previous by (map_get (key_of e) stored) e s ≡ s
unfolding snapshot_previous
snapshot_previous_recorded by stored e s h = elim (Option-cases (map_get (key_of e) stored)) [
  | inl missing ↦ ground arith
  | inr (old, found) ↦ ground (arith, snapshot_recorded by old s (h (key_of e) old found))
]

pub versions-build_rows :
    (now : Timestamp) (by : Option String) (stored : List NormalizedEvent)
    (es : List NormalizedEventCreate) (s : Session)
    → AllRecorded stored s.db.versions
    → (build_rows now by stored es s).1.db.versions ≡ s.db.versions
unfolding build_rows
versions-build_rows now by stored [] s h = refl
versions-build_rows now by stored (e ∷ es) s h =
    rw (snapshot_previous_recorded by stored e s h)
      (versions-build_rows now by stored es (record s { world = draw s.world }) h)

-- Two events of the results with one id are one event.
abbrev pub Agree : NormalizedEvent → List NormalizedEvent → Type 0
Agree ev = All (λ r. r.id ≡ ev.id → r ≡ ev)

first_content-other :
    (ev : NormalizedEvent) (n : ℕ) (rs : List NormalizedEvent)
    → Agree ev rs
    → n ≢ ev.version
    → first_content ev.id n rs ≡ none
first_content-other ev n [] a h = refl
first_content-other ev n (r ∷ rs) a h = ground (arith, first_content-other ev n rs a.1 h, a.0)

module _ (by : Option String) (rs : List NormalizedEvent) (s : Session) (ev : NormalizedEvent) where
  -- An event is recorded after the last snapshots if it was before, or if they add its content.
  pub IsRecorded-after :
      Agree ev rs
      → (content_of ev.id ev.version s.db.versions ≡ some ev.content)
        ⊎ ((content_of ev.id ev.version s.db.versions ≡ none)
            × (first_content ev.id ev.version rs ≡ some ev.content))
      → ((n : ℕ) → 1 ≤ n → n < ev.version → is_some (content_of ev.id n s.db.versions) ≡ true)
      → ((n : ℕ) → ev.version < n → content_of ev.id n s.db.versions ≡ none)
      → IsRecorded ev (snapshot_all by rs s).db.versions
  IsRecorded-after agree now below beyond = record {
    current = here;
    complete = λ n low high. reached n low high;
    bounded = λ n high.
        content_of-snapshot_all ev.id n by rs s
        ∙ rw (beyond n high) (first_content-other ev n rs agree (omega arith));
  }
    where
      here : content_of ev.id ev.version (snapshot_all by rs s).db.versions ≡ some ev.content
      here = elim now [
        | inl old ↦ content_of-snapshot_all ev.id ev.version by rs s ∙ rw old
        | inr (new, added) ↦ content_of-snapshot_all ev.id ev.version by rs s ∙ rw (new, added)
      ]

      earlier :
          (n : ℕ)
          → 1 ≤ n
          → n < ev.version
          → is_some (content_of ev.id n (snapshot_all by rs s).db.versions) ≡ true
      earlier n low high = ground (arith, content_of-snapshot_all ev.id n by rs s, below n low high)

      reached :
          (n : ℕ)
          → 1 ≤ n
          → n ≤ ev.version
          → is_some (content_of ev.id n (snapshot_all by rs s).db.versions) ≡ true
      reached n low high = elim (ℕ_discrete n ev.version) [
        | yes e ↦
            ap (λ m. is_some (content_of ev.id m (snapshot_all by rs s).db.versions)) e
            ∙ ap is_some here
        | no ne ↦ earlier n low (omega arith)
      ]

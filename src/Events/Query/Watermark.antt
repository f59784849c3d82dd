-- ===== src/Events/Query/Watermark.antt =====
-- The watermark of a source and an event type is the newest of its stored events.
use omnisync.Base.{
  ◌≡◌, refl, sym, subst, inl, inr, ◌⊎◌, ◌≤◌, ◌==◌, ◌&&◌, Bool, true, false, String, Option, none,
  some, List, [], ◌∷◌, any, All, All-map, select, arith, Bool-cases, Option-cases, str_eq, ltb, max,
  Timestamp,
}
use omnisync.Session.{Store}
use omnisync.Events.Model.{NormalizedEvent}
use omnisync.Events.Query.{latest, where_text, get_watermark}

abbrev pub is_of : String → String → NormalizedEvent → Bool
is_of source event_type ev = str_eq ev.source source && str_eq ev.event_type event_type

-- The highest time of the rows that pass the test; none where no row does.
abbrev pub IsNewest : (NormalizedEvent → Bool) → List NormalizedEvent → Option Timestamp → Type 0
IsNewest p rows none = any p rows ≡ false
IsNewest p rows (some t) =
    All (λ ev. (p ev ≡ false) ⊎ (ev.timestamp ≤ t)) rows
    × (any (λ ev. p ev && ev.timestamp == t) rows ≡ true)

abbrev IsBelow : (NormalizedEvent → Bool) → Timestamp → NormalizedEvent → Type 0
IsBelow p t ev = (p ev ≡ false) ⊎ (ev.timestamp ≤ t)

IsBelow-raise :
    (p : NormalizedEvent → Bool) (t t' : Timestamp) (rows : List NormalizedEvent)
    → t ≤ t'
    → All (IsBelow p t) rows
    → All (IsBelow p t') rows
IsBelow-raise p t t' rows le h =
    All-map (λ ev b. elim b [ inl n ↦ inl n | inr l ↦ inr (omega (arith, l, le)) ]) rows h

none_pass :
    (p : NormalizedEvent → Bool) (t : Timestamp) (rows : List NormalizedEvent)
    → any p rows ≡ false
    → All (IsBelow p t) rows
none_pass p t [] h = tt
none_pass p t (ev ∷ rows) h = (inl (ground (arith, h)), none_pass p t rows (ground (arith, h)))

-- A row in front of the rows whose newest time is known.
IsNewest-skip :
    (p : NormalizedEvent → Bool) (ev : NormalizedEvent) (rows : List NormalizedEvent)
    (o : Option Timestamp)
    → p ev ≡ false
    → IsNewest p rows o
    → IsNewest p (ev ∷ rows) o
IsNewest-skip p ev rows none out h = ground (arith, out, h)
IsNewest-skip p ev rows (some t) out h = ((inl out, h.0), ground (arith, out, h.1))

IsNewest-none :
    (p : NormalizedEvent → Bool) (ev : NormalizedEvent) (rows : List NormalizedEvent)
    → p ev ≡ true
    → IsNewest p rows none
    → IsNewest p (ev ∷ rows) (some ev.timestamp)
IsNewest-none p ev rows here h =
    ((inr (omega arith), none_pass p ev.timestamp rows h), ground (arith, here))

IsNewest-max :
    (p : NormalizedEvent → Bool) (ev : NormalizedEvent) (rows : List NormalizedEvent)
    (t : Timestamp)
    → p ev ≡ true
    → IsNewest p rows (some t)
    → IsNewest p (ev ∷ rows) (some (max ev.timestamp t))
IsNewest-max p ev rows t here h = elim (Bool-cases (ltb ev.timestamp t)) [
  | inl below ↦
      let e : max ev.timestamp t ≡ t = ground (arith, below) in
      subst (λ m. IsNewest p (ev ∷ rows) (some m)) (sym e)
        ((inr (ground (arith, below)), h.0), ground (arith, h.1))
  | inr above ↦
      let e : max ev.timestamp t ≡ ev.timestamp = ground (arith, above) in
      subst (λ m. IsNewest p (ev ∷ rows) (some m)) (sym e)
        (
          (inr (omega arith), IsBelow-raise p t ev.timestamp rows (ground (arith, above)) h.0),
          ground (arith, here),
        )
]

latest-IsNewest :
    (p q : NormalizedEvent → Bool) (rows : List NormalizedEvent)
    → IsNewest (λ ev. p ev && q ev) rows (latest (select q (select p rows)))
unfolding latest
latest-IsNewest p q [] = refl
latest-IsNewest p q (ev ∷ rows) =
    let r : NormalizedEvent → Bool = λ x. p x && q x in
    let rest = latest-IsNewest p q rows in
    elim (Bool-cases (p ev)) [
      | inr out ↦ rw out (IsNewest-skip r ev rows _ (ground (arith, out)) rest)
      | inl in_p ↦ elim (Bool-cases (q ev)) [
        | inr out ↦ rw (in_p, out) (IsNewest-skip r ev rows _ (ground (arith, out)) rest)
        | inl in_q ↦ elim (Option-cases (latest (select q (select p rows)))) [
          | inl empty ↦
              rw (in_p, in_q, latest, empty)
                (IsNewest-none r ev rows (ground (arith, in_p, in_q)) (rw empty at rest))
          | inr (t, found) ↦
              rw (in_p, in_q, latest, found)
                (IsNewest-max r ev rows t (ground (arith, in_p, in_q)) (rw found at rest))
        ]
      ]
    ]

pub get_watermark-IsNewest :
    (source event_type : String) (db : Store)
    → str_eq event_type "" ≡ false
    → IsNewest (is_of source event_type) db.events (get_watermark source (some event_type) db)
unfolding get_watermark where_text
get_watermark-IsNewest source event_type db given =
    rw (given, get_watermark)
      (latest-IsNewest (λ ev. str_eq ev.source source) (λ ev. str_eq ev.event_type event_type)
        db.events)

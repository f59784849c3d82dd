-- ===== src/Telegram/Stored.antt =====
-- What the fetched updates of src/telegram/tasks.py leave in the store.
use omnisync.Base.{
  any, true, ◌==◌, ◌≡◌, refl, sym, ap, subst, ◌∙◌, inl, inr, ◌⊎◌, ℕ, suc, ◌≤◌, String, Option, none,
  some, List, [], ◌∷◌, arith, All, All-map, Uuid, Timestamp,
}
use omnisync.Base.Json.{Json}
use omnisync.Base.Rows.{HasUniqueIds}
use omnisync.Config.{Settings}
use omnisync.Session.{Session, Store}
use omnisync.SyncState.{get_cursor, set_cursor}
use omnisync.SyncState.Cursors.{state_id, get_cursor-set_cursor}
use omnisync.Events.Model.{NormalizedEventCreate}
use omnisync.Events.Upsert.{Key, upsert_events_bulk}
use omnisync.Events.Upsert.Keys.{input_of}
use omnisync.Events.Upsert.Rows.{event_of, IsUnique}
use omnisync.Events.Upsert.Effect.{upserted, upsert_events_bulk-event_of_input}
use omnisync.Events.Upsert.Frame.{sync_states-upsert_events_bulk}
use omnisync.RawPayloads.{Backend}
use omnisync.Integrations.Latest.{set_cursor-events}
use omnisync.Github.Normalize.{decimal}
use omnisync.Telegram.Normalize.{TelegramUpdate}
use omnisync.Telegram.Poll.{acknowledge, store_if_any, collect_updates, store_updates, offset_of}
use omnisync.Telegram.Poll.Collect.{
  IsCovered, HasEvent, collect_updates-IsCollected, collect_updates_reached, collect_updates_frame,
}
use omnisync.Telegram.Poll.Offset.{offset_of-decimal}

pub get_cursor-states :
    (a b : Store)
    → a.sync_states ≡ b.sync_states
    → get_cursor "telegram" "default" a ≡ get_cursor "telegram" "default" b
unfolding get_cursor
get_cursor-states a b h = rw h refl

module _ (cfg : Settings) (backend : Backend) (dump : TelegramUpdate → Json)
    (correlation_id : String) where
  pub store_if_any_eq :
      (events : List NormalizedEventCreate) (s : Session)
      → (store_if_any events correlation_id s).1
        ≡ (upsert_events_bulk events (some correlation_id) s).1
  unfolding store_if_any upsert_events_bulk
  store_if_any_eq [] s = refl
  store_if_any_eq (e ∷ es) s = refl

  acknowledge-events : (m : Option ℕ) (s : Session) → (acknowledge m s).db.events ≡ s.db.events
  unfolding acknowledge
  acknowledge-events none s = refl
  acknowledge-events (some m) s = set_cursor-events "telegram" (some (decimal (suc m))) "default" s

  pub committed-acknowledge :
      (m : Option ℕ) (s : Session) → (acknowledge m s).committed ≡ s.committed
  unfolding acknowledge set_cursor
  committed-acknowledge none s = refl
  committed-acknowledge (some m) s = ground arith

  -- The cursor after the updates: the one after the highest of them, or as before where there are none.
  abbrev pub IsAcknowledged : List TelegramUpdate → Option String → Option String → Type 0
  IsAcknowledged updates before after =
      ((updates ≡ []) × (after ≡ before))
      ⊎ ((m : ℕ) × (offset_of after ≡ some (some (suc m)))
          × All (λ u. u.update_id ≤ m) updates
          × (any (λ u. u.update_id == m) updates ≡ true))

  acknowledge-IsAcknowledged :
      (updates : List TelegramUpdate) (m : Option ℕ) (s : Session)
      → HasUniqueIds state_id s.db.sync_states
      → All (λ u. IsCovered m u.update_id) updates
      → ((k : ℕ) → m ≡ some k → any (λ u. u.update_id == k) updates ≡ true)
      → IsAcknowledged updates
          (get_cursor "telegram" "default" s.db)
          (get_cursor "telegram" "default" (acknowledge m s).db)
  unfolding acknowledge
  acknowledge-IsAcknowledged [] none s u c r = inl (refl, refl)
  acknowledge-IsAcknowledged (x ∷ xs) none s u c r = absurd (omega (arith, c.0))
  acknowledge-IsAcknowledged updates (some m) s u c r = inr (
    m,
    ap offset_of (get_cursor-set_cursor "telegram" (some (decimal (suc m))) "default" s u).0
        ∙ offset_of-decimal (suc m),
    c,
    r m refl,
  )

  -- What the commit of a poll makes of the store, for the fetched updates.
  pub record IsPolled (updates : List TelegramUpdate) (before after : Store) : Type 0 where
    pub events : List NormalizedEventCreate
    pub kept : All (HasEvent events) updates
    pub stored :
        (k : Key) (e : NormalizedEventCreate)
        → input_of k events ≡ some e
        → (now : Timestamp) × (i : Uuid) × (event_of k after.events
            ≡ some (upserted now i (event_of k before.events) e))
    pub acknowledged :
        IsAcknowledged updates
          (get_cursor "telegram" "default" before)
          (get_cursor "telegram" "default" after)

  -- Only the events and the cursors of a store matter.
  pub IsPolled-congr :
      (updates : List TelegramUpdate) (before before' after after' : Store)
      → before.events ≡ before'.events
      → before.sync_states ≡ before'.sync_states
      → after.events ≡ after'.events
      → after.sync_states ≡ after'.sync_states
      → IsPolled updates before after
      → IsPolled updates before' after'
  IsPolled-congr updates before before' after after' h k h' k' t = record {
    events = t.events;
    kept = t.kept;
    stored = λ key e q.
        let found = t.stored key e q in
        (
          found.0,
          found.1,
          ap (event_of key) (sym h')
              ∙ found.2
              ∙ ap (λ rows. some (upserted found.0 found.1 (event_of key rows) e)) h,
        );
    acknowledged =
        subst (λ c. IsAcknowledged updates c (get_cursor "telegram" "default" after'))
          (get_cursor-states before before' k)
          (subst (IsAcknowledged updates (get_cursor "telegram" "default" before))
            (get_cursor-states after after' k') t.acknowledged);
  }

  pub store_updates-IsPolled :
      (updates : List TelegramUpdate) (s : Session)
      → IsUnique s.db.events
      → HasUniqueIds state_id s.db.sync_states
      → IsPolled updates s.db (store_updates cfg backend dump correlation_id updates s).1.db
  unfolding store_updates
  store_updates-IsPolled updates s u ids =
      let run = collect_updates cfg backend dump correlation_id updates [] none s in
      let found = collect_updates-IsCollected cfg backend dump correlation_id updates [] none s in
      let frame = (collect_updates_frame cfg backend dump correlation_id updates [] none s).1 in
      let s2 = acknowledge run.0.1 run.1 in
      let same : s2.db.events ≡ s.db.events =
        acknowledge-events run.0.1 run.1 ∙ ap (λ (d : Store). d.events) frame in
      let states : run.1.db.sync_states ≡ s.db.sync_states =
        ap (λ (d : Store). d.sync_states) frame in
      let done = store_if_any_eq run.0.0 s2 in
      let after = (store_updates cfg backend dump correlation_id updates s).1.db in
      record {
        events = run.0.0;
        kept = All-map (λ x h. h.1) updates found.2;
        stored = λ k e q.
            let put =
              upsert_events_bulk-event_of_input run.0.0 (some correlation_id) s2
                (subst IsUnique (sym same) u) k e q in
            (
              s2.world.clock 0,
              put.0,
              ap (λ (p : Session). event_of k p.db.events) done
                  ∙ put.1
                  ∙ ap (λ rows. some (upserted (s2.world.clock 0) put.0 (event_of k rows) e)) same,
            );
        acknowledged =
            let moved =
              acknowledge-IsAcknowledged updates run.0.1 run.1
                (subst (HasUniqueIds state_id) (sym states) ids)
                (All-map (λ x h. h.0) updates found.2)
                (λ k e.
                  elim (collect_updates_reached cfg backend dump correlation_id updates [] none s
                    {m = k} e) [ inl never ↦ absurd (cc) | inr here ↦ here ]) in
            subst (λ c. IsAcknowledged updates c (get_cursor "telegram" "default" after))
              (get_cursor-states run.1.db s.db states)
              (subst (IsAcknowledged updates (get_cursor "telegram" "default" run.1.db))
                (sym (
                  get_cursor-states after s2.db (
                    ap (λ (p : Session). p.db.sync_states) done
                    ∙ sync_states-upsert_events_bulk run.0.0 (some correlation_id) s2)))
                moved);
      }

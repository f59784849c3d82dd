-- ===== src/SyncState.antt =====
-- src/sync_state/service.py: the watermark of each source and stream.
pub mod Model
pub mod Cursors
mod Tests
use omnisync.Base.{
  ℕ, Bool, true, false, ◌&&◌, String, Option, none, some, List, [], ◌∷◌, ◌++◌, str_eq, first,
  if◌then◌else◌, draw, tick,
}
use omnisync.Base.Rows.{put}
use omnisync.Session.{Session, Store}
use omnisync.SyncState.Model.{SyncState}

unfoldable pub is_stream : String → String → SyncState → Bool
is_stream source stream st = str_eq st.source source && str_eq st.stream stream

-- The cursor of the first row, NULL and no row alike.
unfoldable pub get_cursor : String → String → Store → Option String
unfolding is_stream
get_cursor source stream db = elim (first (is_stream source stream) db.sync_states) [
  | none ↦ none
  | some st ↦ st.cursor
]

-- An unchanged row is not written, and `onupdate` does not run.
changed : Option String → Option String → Bool
changed none none = false
changed (some a) (some b) = if str_eq a b then false else true
changed _ _ = true

unfoldable pub set_cursor : String → Option String → String → Session → Session
unfolding is_stream changed
set_cursor source cursor stream s = elim (first (is_stream source stream) s.db.sync_states) [
  | none ↦ record s {
    db = record s.db {
      sync_states =
          s.db.sync_states
          ++ record {
            id = s.world.uuids 0;
            source = source;
            stream = stream;
            cursor = cursor;
            updated_at = s.world.clock 0;
          }
            ∷ [];
    };
    world = tick (draw s.world);
  }
  | some st ↦
      if changed st.cursor cursor
      then record s {
        db = record s.db {
          sync_states =
              put (λ r. r.id) (record st { cursor = cursor; updated_at = s.world.clock 0 })
                s.db.sync_states;
        };
        world = tick s.world;
      }
      else s
]

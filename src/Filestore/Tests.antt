-- ===== src/Filestore/Tests.antt =====
-- Concrete runs of the file store.
use omnisync.Base.{◌≡◌, refl, none, some, [], ◌∷◌}
use omnisync.Filestore.{Listed, list_objects}

abbrev listed : Listed
listed = record { key = "a.txt"; size = none; etag = some "\"9f\""; last_modified = some 5 }

changed :
    list_objects ((listed ∷ []) ∷ [] ∷ []) (some 4)
    ≡ record { key = "a.txt"; size = 0; etag = "9f"; last_modified = some 5 } ∷ []
unfolding list_objects
changed = refl

unchanged : list_objects ((listed ∷ []) ∷ []) (some 5) ≡ []
unfolding list_objects
unchanged = refl

-- ===== src/Auth/Tests.antt =====
-- Concrete runs of the authentication.
use omnisync.Base.{
  ℕ, ◌≤◌, true, false, ◌+◌, ◌≡◌, refl, some, List, [], ◌∷◌, arith, str_eq, ltb, if◌then◌else◌,
}
use omnisync.Session.{Session, Store}
use omnisync.Auth.Model.{User}
use omnisync.Auth.{
  Claims, valid, expired, malformed, Crypto, accepted, refused, unauthorized, user_already_exists,
  AuthSettings, time_to_live, logout, refresh, get_current_user, get_user_by_username, register,
  login, create_access_token, create_refresh_token,
}
use omnisync.Auth.Revocation.{
  IsReadable, logout_revokes, revoked_token_returns, register_then_login,
}

abbrev claims : Claims
claims = record { sub = "ann"; exp = 100; iat = 0; token_type = some "refresh" }

-- A library that knows one token, valid to the end of its last second.
abbrev crypto : Crypto
crypto = record {
  encode = λ _. "token";
  decode = λ now checked t.
      if str_eq t "token"
      then (if checked then (if ltb 100 now then expired else valid claims) else valid claims)
      else malformed;
  hash = λ _ p. p;
  verify = λ p h. str_eq p h;
}

abbrev cfg : AuthSettings
cfg = record { jwt_expire_minutes = 1440; jwt_refresh_expire_minutes = 10080 }

abbrev ann : User
ann = record { id = 1; username = "ann"; hashed_password = "pw"; is_active = true; created_at = 5 }

abbrev store_with : List User → Store
store_with users = record {
  events = [];
  versions = [];
  outbox = [];
  raw_payloads = [];
  failed_events = [];
  sync_states = [];
  sync_logs = [];
  deliveries = [];
  users = users;
}

abbrev session : Session
session = record {
  committed = store_with [];
  db = store_with [];
  world = record { uuids = λ n. n + 100; clock = λ n. n + 1000 };
}

-- A logout 50.5 seconds after the epoch.
token-IsReadable : IsReadable crypto 50500000 "token" claims
token-IsReadable = (refl, λ e. ground (arith, e))

logout_revokes_example :
    let redis' = logout crypto 50500000 "token" [] in
    (refresh crypto cfg 60000000 "token" redis' (store_with (ann ∷ []))
      ≡ refused (unauthorized "Refresh token has been revoked"))
    × (get_current_user crypto 60000000 "Bearer token" redis' (store_with (ann ∷ []))
        ≡ refused (unauthorized "Token has been revoked"))
    × (refresh crypto cfg 60000000 "" redis' (store_with (ann ∷ []))
        ≡ refresh crypto cfg 60000000 "" [] (store_with (ann ∷ [])))
unfolding time_to_live
logout_revokes_example =
    logout_revokes crypto 50500000 "token" claims cfg 60000000 [] (store_with (ann ∷ []))
      "Bearer token" "" token-IsReadable (omega arith) refl refl (λ e. cc)

-- The end of the token, in seconds, is 100.
valid_in_time : (t : ℕ) → t ≤ 100 → crypto.decode t true "token" ≡ valid claims
valid_in_time t h = let e : ltb 100 t ≡ false = ground (arith, h) in rw e refl

revoked_token_returns_example :
    refresh crypto cfg 100000000 "token" (logout crypto 50500000 "token" []) (store_with (ann ∷ []))
    ≡ accepted record {
      access_token = create_access_token crypto cfg "ann" 100000000;
      refresh_token = create_refresh_token crypto cfg "ann" 100000000;
    }
unfolding get_user_by_username
revoked_token_returns_example =
    revoked_token_returns crypto 50500000 "token" claims cfg (store_with (ann ∷ [])) {u = ann}
      token-IsReadable valid_in_time refl refl refl (omega arith)

register_then_login_example :
    let s' = (register crypto cfg "ann" "pw" 1000 session).1 in
    (login crypto cfg "ann" "pw" 2000 s'.committed
      ≡ accepted record {
        access_token = create_access_token crypto cfg "ann" 2000;
        refresh_token = create_refresh_token crypto cfg "ann" 2000;
      })
    × (register crypto cfg "ann" "other" 2000 s' ≡ (refused user_already_exists, s'))
unfolding get_user_by_username
register_then_login_example =
    register_then_login crypto cfg "ann" "pw" "other" 1000 2000 session refl refl

-- ===== src/Auth.antt =====
-- src/auth/service.py, dependencies.py and router.py. The JWT library, the password hashing and the
-- claims' encoding are an interface; Redis is the list of its keys with the times at which they end.
pub mod Model
pub mod Reply
pub mod Revocation
mod Tests
use Prim.Native.Nat.{◌/◌}
use Prim.Native.String
use text.Mathlib.Text.{starts_with}
use omnisync.Base.{
  ℕ, zero, suc, ◌+◌, ◌-◌, ◌*◌, ◌≡◌, Bool, true, false, not, ◌&&◌, String, Option, none, some, List,
  [], ◌∷◌, ◌++◌, max, ltb, ◌==◌, str_eq, first, any, or_else, if◌then◌else◌, Uuid, Timestamp,
  second, tick, draw,
}
use omnisync.Session.{Session, Store, commit}
use omnisync.Auth.Model.{User}

-- The claims of a token, its times in seconds.
pub record Claims : Type 0 where
  pub sub : String
  pub exp : ℕ
  pub iat : ℕ
  pub token_type : Option String

pub data Decoded : Type 0 where
  valid : Claims → Decoded
  expired : Decoded
  malformed : Decoded

-- `jose.jwt`, with the secret and the time of the call in seconds, and `passlib`, with its salt.
pub record Crypto : Type 0 where
  pub encode : Claims → String
  pub decode : ℕ → Bool → String → Decoded
  pub hash : Uuid → String → String
  pub verify : String → String → Bool

pub data AuthError : Type 0 where
  invalid_token : AuthError
  wrong_token_type : AuthError
  token_expired : AuthError
  unauthorized : String → AuthError
  user_already_exists : AuthError

pub data Answer {ℓ} (A : Type ℓ) : Type ℓ where
  accepted : A → Answer A
  refused : AuthError → Answer A

pub record AuthSettings : Type 0 where
  pub jwt_expire_minutes : ℕ
  pub jwt_refresh_expire_minutes : ℕ

pub record TokenResponse : Type 0 where
  pub access_token : String
  pub refresh_token : String

abbrev pub minute : ℕ
minute = 60 * second

-- `timegm(utctimetuple())`
abbrev pub seconds_of : Timestamp → ℕ
seconds_of t = t / second

-- A key of Redis with its value's end.
abbrev pub Redis : Type 0
Redis = List (String × Timestamp)

unfoldable pub exists_key : String → Timestamp → Redis → Bool
exists_key key now = any (λ r. str_eq r.0 key && ltb now r.1)

-- `max(int(exp - now), 1)`; `int` cuts towards zero.
unfoldable pub time_to_live : ℕ → Timestamp → ℕ
time_to_live exp now = max ((exp * second - now) / second) 1

unfoldable pub is_token_blacklisted : Timestamp → String → Redis → Bool
unfolding exists_key
is_token_blacklisted now token redis = exists_key token now redis

unfoldable pub get_user_by_username : String → Store → Option User
get_user_by_username username db = first (λ u. str_eq u.username username) db.users

next_id : List User → ℕ
next_id [] = 1
next_id (u ∷ us) = let rest = next_id us in max (suc u.id) rest

active_only : User → Answer User
active_only u =
    if u.is_active then accepted u else refused (unauthorized "User account is disabled")

-- The lookup after a token was verified.
user_of : Answer Claims → Store → Answer User
unfolding get_user_by_username active_only
user_of (refused e) db = refused e
user_of (accepted c) db = elim (get_user_by_username c.sub db) [
  | none ↦ refused (unauthorized "User not found")
  | some u ↦ active_only u
]

-- `authorization[7:]`
abbrev pub drop_text : ℕ → String → String
drop_text zero s = s
drop_text (suc n) String.[] = ""
drop_text (suc n) (String.◌∷◌ c s) = drop_text n s

module _ (crypto : Crypto) where
  unfoldable pub create_access_token : AuthSettings → String → Timestamp → String
  create_access_token cfg username now = crypto.encode record {
    sub = username;
    exp = seconds_of (now + cfg.jwt_expire_minutes * minute);
    iat = seconds_of now;
    token_type = some "access";
  }

  unfoldable pub create_refresh_token : AuthSettings → String → Timestamp → String
  create_refresh_token cfg username now = crypto.encode record {
    sub = username;
    exp = seconds_of (now + cfg.jwt_refresh_expire_minutes * minute);
    iat = seconds_of now;
    token_type = some "refresh";
  }

  -- `payload.get("token_type", "access")`
  unfoldable pub verify_token : Timestamp → String → String → Answer Claims
  verify_token now token expected_type = elim (crypto.decode (seconds_of now) true token) [
    | valid c ↦
        if str_eq (or_else c.token_type "access") expected_type
        then accepted c
        else refused wrong_token_type
    | expired ↦ refused token_expired
    | malformed ↦ refused invalid_token
  ]

  -- `setex` replaces the key. An `exp` of zero is false.
  unfoldable pub blacklist_token : Timestamp → String → Redis → Redis
  unfolding time_to_live
  blacklist_token now token redis = elim (crypto.decode (seconds_of now) false token) [
    | valid c ↦ if c.exp == 0 then redis else (token, now + time_to_live c.exp now * second) ∷ redis
    | _ ↦ redis
  ]

  unfoldable pub create_user : String → String → Session → Answer User × Session
  unfolding get_user_by_username next_id
  create_user username password s = elim (get_user_by_username username s.db) [
    | some u ↦ (refused user_already_exists, s)
    | none ↦
        let u : User = record {
          id = next_id s.db.users;
          username = username;
          hashed_password = crypto.hash (s.world.uuids 0) password;
          is_active = true;
          created_at = s.world.clock 0;
        } in
        (
          accepted u,
          commit (record s {
            db = record s.db { users = s.db.users ++ u ∷ [] };
            world = tick (draw s.world);
          }),
        )
  ]

  unfoldable pub authenticate_user : String → String → Store → Answer User
  unfolding get_user_by_username active_only
  authenticate_user username password db = elim (get_user_by_username username db) [
    | none ↦ refused (unauthorized "Invalid username or password")
    | some u ↦
        if crypto.verify password u.hashed_password
        then active_only u
        else refused (unauthorized "Invalid username or password")
  ]

  unfoldable pub get_current_user : Timestamp → String → Redis → Store → Answer User
  unfolding is_token_blacklisted verify_token user_of
  get_current_user now authorization redis db =
      let token = drop_text 7 authorization in
      if starts_with authorization "Bearer "
      then (if is_token_blacklisted now token redis
          then refused (unauthorized "Token has been revoked")
          else user_of (verify_token now token "access") db)
      else refused (unauthorized "Invalid authorization header format")

  tokens_for : AuthSettings → Timestamp → Answer User → Answer TokenResponse
  unfolding create_access_token create_refresh_token
  tokens_for cfg now (refused e) = refused e
  tokens_for cfg now (accepted u) = accepted record {
    access_token = create_access_token cfg u.username now;
    refresh_token = create_refresh_token cfg u.username now;
  }

  -- The endpoints; one reading of the clock stands for those of a call.
  unfoldable pub register :
      AuthSettings → String → String → Timestamp → Session → Answer TokenResponse × Session
  unfolding create_user tokens_for
  register cfg username password now s =
      let (u, s') = create_user username password s in (tokens_for cfg now u, s')

  unfoldable pub login : AuthSettings → String → String → Timestamp → Store → Answer TokenResponse
  unfolding authenticate_user tokens_for
  login cfg username password now db = tokens_for cfg now (authenticate_user username password db)

  unfoldable pub refresh : AuthSettings → Timestamp → String → Redis → Store → Answer TokenResponse
  unfolding is_token_blacklisted verify_token user_of tokens_for
  refresh cfg now refresh_token redis db =
      if is_token_blacklisted now refresh_token redis
      then refused (unauthorized "Refresh token has been revoked")
      else tokens_for cfg now (user_of (verify_token now refresh_token "refresh") db)

  unfoldable pub logout : Timestamp → String → Redis → Redis
  unfolding blacklist_token
  logout now refresh_token redis = blacklist_token now refresh_token redis

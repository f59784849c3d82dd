-- ===== src/Auth/Revocation.antt =====
-- What a logout does to the later use of a token, and what a registration does to a login.
use text.Mathlib.Text.{starts_with}
use omnisync.Base.{
  ℕ, String, ◌+◌, ◌*◌, ◌≤◌, ◌<◌, ◌≡◌, ◌≢◌, refl, sym, ap, subst, ◌∙◌, true, false, String, none,
  some, [], ◌∷◌, ◌++◌, arith, ◌==◌, str_eq, eq_iff, first-append, Timestamp, second, tick, draw,
}
use omnisync.Session.{Session, Store, commit}
use omnisync.Auth.Model.{User}
use omnisync.Auth.{
  Claims, valid, Crypto, Answer, accepted, refused, unauthorized, user_already_exists, AuthSettings,
  Redis, seconds_of, exists_key, time_to_live, blacklist_token, is_token_blacklisted, logout,
  refresh, get_current_user, drop_text, verify_token, user_of, active_only, tokens_for,
  create_access_token, create_refresh_token, get_user_by_username, create_user, authenticate_user,
  register, login, next_id,
}

module _ (crypto : Crypto) (now : Timestamp) (token : String) (c : Claims) where
  -- When a token that is revoked at `now` can be used again.
  abbrev pub revoked_until : Timestamp
  revoked_until = now + time_to_live c.exp now * second

  -- The token is readable and has an end.
  abbrev pub IsReadable : Type 0
  IsReadable = (crypto.decode (seconds_of now) false token ≡ valid c) × (c.exp ≢ 0)

  logout_adds :
      (redis : Redis) → IsReadable → logout crypto now token redis ≡ (token, revoked_until) ∷ redis
  unfolding logout blacklist_token
  logout_adds redis h =
      let nz : (c.exp == 0) ≡ false = ground (arith, h.1) in rw (h.0, nz, blacklist_token) refl

  blacklisted_after :
      (later : Timestamp) (redis : Redis)
      → IsReadable
      → later < revoked_until
      → is_token_blacklisted later token (logout crypto now token redis) ≡ true
  unfolding is_token_blacklisted exists_key
  blacklisted_after later redis h l =
      ap (is_token_blacklisted later token) (logout_adds redis h)
      ∙ ground (arith, eq_iff token token, l)

  not_blacklisted_other :
      (other : String) (later : Timestamp) (redis : Redis)
      → IsReadable
      → other ≢ token
      → is_token_blacklisted later other (logout crypto now token redis)
        ≡ is_token_blacklisted later other redis
  unfolding is_token_blacklisted exists_key
  not_blacklisted_other other later redis h n =
      ap (is_token_blacklisted later other) (logout_adds redis h)
      ∙ ground (arith, eq_iff token other, n)

  -- After a logout with a readable token: until its revocation ends, neither a refresh nor a request
  -- with the token is accepted, and a refresh with any other token goes as it would have gone.
  pub logout_revokes :
      (cfg : AuthSettings) (later : Timestamp) (redis : Redis) (db : Store)
      (authorization other : String)
      → IsReadable
      → later < revoked_until
      → starts_with authorization "Bearer " ≡ true
      → drop_text 7 authorization ≡ token
      → other ≢ token
      → let redis' = logout crypto now token redis in
        (refresh crypto cfg later token redis' db
          ≡ refused (unauthorized "Refresh token has been revoked"))
        × (get_current_user crypto later authorization redis' db
            ≡ refused (unauthorized "Token has been revoked"))
        × (refresh crypto cfg later other redis' db ≡ refresh crypto cfg later other redis db)
  unfolding refresh get_current_user
  logout_revokes cfg later redis db authorization other h l b d n = (
    rw (blacklisted_after later redis h l, refresh) refl,
    rw (b, d, blacklisted_after later redis h l, get_current_user) refl,
    rw (not_blacklisted_other other later redis h n, refresh) refl,
  )

  -- Once the revocation has ended, and while the library takes the token for valid.
  accepted_again :
      (cfg : AuthSettings) (later : Timestamp) (db : Store) {u : User}
      → IsReadable
      → revoked_until ≤ later
      → crypto.decode (seconds_of later) true token ≡ valid c
      → c.token_type ≡ some "refresh"
      → get_user_by_username c.sub db ≡ some u
      → u.is_active ≡ true
      → refresh crypto cfg later token (logout crypto now token []) db
        ≡ accepted record {
          access_token = create_access_token crypto cfg u.username later;
          refresh_token = create_refresh_token crypto cfg u.username later;
        }
  unfolding refresh verify_token user_of active_only tokens_for is_token_blacklisted exists_key
  accepted_again cfg later db {u} h l v k g a =
      let ended : is_token_blacklisted later token (logout crypto now token []) ≡ false =
        ap (is_token_blacklisted later token) (logout_adds [] h)
        ∙ ground (arith, eq_iff token token, l) in
      let verified : verify_token crypto later token "refresh" ≡ accepted c =
        rw (v, k, verify_token) refl in
      let looked : user_of (accepted c) db ≡ accepted u = rw (g, a, user_of, active_only) refl in
      rw (ended, refresh)
        (ap (tokens_for crypto cfg later) (ap (λ x. user_of x db) verified ∙ looked))

-- A refresh token of an active user, where the library takes a token for valid up to and in the second
-- in which it expires: after a logout, at least a second before that, a refresh with the revoked token
-- is accepted again when its last second begins.
pub revoked_token_returns :
    (crypto : Crypto) (now : Timestamp) (token : String) (c : Claims) (cfg : AuthSettings)
    (db : Store) {u : User}
    → IsReadable crypto now token c
    → ((t : ℕ) → t ≤ c.exp → crypto.decode t true token ≡ valid c)
    → c.token_type ≡ some "refresh"
    → get_user_by_username c.sub db ≡ some u
    → u.is_active ≡ true
    → now + second ≤ c.exp * second
    → refresh crypto cfg (c.exp * second) token (logout crypto now token []) db
      ≡ accepted record {
        access_token = create_access_token crypto cfg u.username (c.exp * second);
        refresh_token = create_refresh_token crypto cfg u.username (c.exp * second);
      }
unfolding time_to_live
revoked_token_returns crypto now token c cfg db {u} readable decodes kind user active early =
    let whole : seconds_of (c.exp * second) ≡ c.exp = omega arith in
    accepted_again crypto now token c cfg (c.exp * second) db {u = u} readable
      (omega (arith, early))
      (ap (λ t. crypto.decode t true token) whole ∙ decodes c.exp (omega arith)) kind user active

-- A registration of a new name, with a hash that the library verifies: a login with the same name and
-- password is accepted at any later time with tokens for that name, and a second registration of the
-- name is refused and changes nothing.
pub register_then_login :
    (crypto : Crypto) (cfg : AuthSettings) (username password other : String)
    (now later : Timestamp) (s : Session)
    → get_user_by_username username s.db ≡ none
    → crypto.verify password (crypto.hash (s.world.uuids 0) password) ≡ true
    → let s' = (register crypto cfg username password now s).1 in
      (login crypto cfg username password later s'.committed
        ≡ accepted record {
          access_token = create_access_token crypto cfg username later;
          refresh_token = create_refresh_token crypto cfg username later;
        })
      × (register crypto cfg username other later s' ≡ (refused user_already_exists, s'))
unfolding register create_user login authenticate_user get_user_by_username active_only tokens_for
register_then_login crypto cfg username password other now later s missing good =
    let row : User = record {
      id = next_id s.db.users;
      username = username;
      hashed_password = crypto.hash (s.world.uuids 0) password;
      is_active = true;
      created_at = s.world.clock 0;
    } in
    let s' : Session = commit (record s {
      db = record s.db { users = s.db.users ++ row ∷ [] };
      world = tick (draw s.world);
    }) in
    let created : create_user crypto username password s ≡ (accepted row, s') =
      rw (missing, create_user) refl in
    let found : get_user_by_username username s'.db ≡ some row =
      first-append (λ (u : User). str_eq u.username username) s.db.users (row ∷ [])
      ∙ ground (arith, missing, eq_iff username username) in
    subst
      (λ (r : Answer User × Session).
        (login crypto cfg username password later r.1.committed
          ≡ accepted record {
            access_token = create_access_token crypto cfg username later;
            refresh_token = create_refresh_token crypto cfg username later;
          })
        × (register crypto cfg username other later r.1 ≡ (refused user_already_exists, r.1)))
      (sym created) (rw (found, good, authenticate_user) refl, rw (found, create_user) refl)

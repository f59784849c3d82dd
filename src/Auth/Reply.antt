-- ===== src/Auth/Reply.antt =====
-- What an endpoint that asks for a user (src/auth/dependencies.py) answers.
use omnisync.Auth.{Answer, accepted, refused, AuthError}
use omnisync.Auth.Model.{User}

-- `denied` is the answer of `get_current_user`, `unprocessable` 422, `not_found` 404 and
-- `internal_error` 500.
pub data Reply {ℓ} (A : Type ℓ) : Type ℓ where
  answered : A → Reply A
  denied : AuthError → Reply A
  unprocessable : Reply A
  not_found : Reply A
  internal_error : Reply A

-- A request with no valid user is answered before its other parameters are looked at.
unfoldable pub as_user {ℓ} : {A : Type ℓ} → Answer User → Reply A → Reply A
as_user (refused e) reply = denied e
as_user (accepted u) reply = reply

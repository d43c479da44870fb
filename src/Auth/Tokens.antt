-- ===== src/Auth/Tokens.antt =====
-- The repositories: backend/app/repositories/refresh_token.py and user.py, over the tables as lists.
pub mod Counting
use secondbrain_ai.Prelude.{
  ℕ, ◌+◌, ◌<◌, Bool, true, false, not, ◌&&◌, Option, none, some, List, [], ◌∷◌, ◌++◌, map, keep_if,
  ltb, ◌==◌, if◌then◌else◌,
}
use secondbrain_ai.Prelude.Text.{Text, text_eq, strip}
use secondbrain_ai.Auth.Records.{User, RefreshToken, Externals}

-- `get_by_jti`
unfoldable pub get_by_jti : ℕ → List RefreshToken → Option RefreshToken
get_by_jti jti [] = none
get_by_jti jti (t ∷ ts) = if t.jti == jti then some t else get_by_jti jti ts

abbrev revoked_row : ℕ → RefreshToken → RefreshToken
revoked_row now t = record t { is_active = false; revoked_at = some now }

-- `update(RefreshToken).where(test, is_active).values(is_active=False, revoked_at=now)`
unfoldable pub revoke_where : (RefreshToken → Bool) → ℕ → List RefreshToken → List RefreshToken
revoke_where test now [] = []
revoke_where test now (t ∷ ts) =
    (if test t && t.is_active then revoked_row now t else t) ∷ revoke_where test now ts

-- The number of rows that such an update touches.
unfoldable pub count_where : (RefreshToken → Bool) → List RefreshToken → ℕ
count_where test [] = 0
count_where test (t ∷ ts) = (if test t && t.is_active then 1 else 0) + count_where test ts

abbrev pub of_family : ℕ → RefreshToken → Bool
of_family family t = t.family_id == family

abbrev pub of_user : ℕ → RefreshToken → Bool
of_user user t = t.user_id == user

unfoldable pub revoke_family : ℕ → ℕ → List RefreshToken → List RefreshToken
unfolding revoke_where
revoke_family family = revoke_where (of_family family)

-- `revoke_all_for_user`, with the row count that it returns.
unfoldable pub revoke_all_for_user : ℕ → ℕ → List RefreshToken → List RefreshToken × ℕ
unfolding revoke_where count_where
revoke_all_for_user user now ts =
    (revoke_where (of_user user) now ts, count_where (of_user user) ts)

-- `mark_rotated`: the row of the token that is passed.
unfoldable pub mark_rotated : ℕ → ℕ → ℕ → List RefreshToken → List RefreshToken
mark_rotated jti replaced_by now [] = []
mark_rotated jti replaced_by now (t ∷ ts) =
    (if t.jti == jti
      then record t { is_active = false; revoked_at = some now; replaced_by_jti = some replaced_by }
      else t)
    ∷ mark_rotated jti replaced_by now ts

-- `purge_expired`
unfoldable pub purge_expired : ℕ → List RefreshToken → List RefreshToken
purge_expired cutoff = keep_if (λ t. not (ltb t.expires_at cutoff))

-- `users.get`
unfoldable pub get_user : ℕ → List User → Option User
get_user id [] = none
get_user id (u ∷ us) = if u.id == id then some u else get_user id us

unfoldable pub find_by_email : Text → List User → Option User
unfolding text_eq
find_by_email email [] = none
find_by_email email (u ∷ us) = if text_eq u.email email then some u else find_by_email email us

-- The row of a user with a new password hash.
unfoldable pub set_password_hash : ℕ → Text → List User → List User
set_password_hash id hashed [] = []
set_password_hash id hashed (u ∷ us) =
    (if u.id == id then record u { hashed_password = hashed } else u)
    ∷ set_password_hash id hashed us

module _ (x : Externals) where
  unfoldable pub normalize_email : Text → Text
  unfolding strip
  normalize_email email = x.lower (strip email)

  unfoldable pub get_by_email : Text → List User → Option User
  unfolding normalize_email find_by_email
  get_by_email email us = find_by_email (normalize_email email) us

  unfoldable pub email_exists : Text → List User → Bool
  unfolding get_by_email
  email_exists email us = elim (get_by_email email us) [ none ↦ false | some u ↦ true ]

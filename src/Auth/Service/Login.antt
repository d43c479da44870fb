-- ===== src/Auth/Service/Login.antt =====
-- What register and authenticate do to the tokens: at most one row more, of the family drawn.
use secondbrain_ai.Prelude.{
  ◌+◌, ◌*◌, ◌≡◌, refl, sym, ◌∙◌, inl, inr, true, false, Option, none, some, arith, Option-cases,
}
use secondbrain_ai.Prelude.Text.{Text}
use secondbrain_ai.Prelude.Outcome.{ok, raised}
use secondbrain_ai.Auth.Records.{
  User, RefreshToken, Db, authentication_error, Externals, Settings, ClientContext, Draw,
  IssuedTokens,
}
use secondbrain_ai.Auth.Security.{create_token, verify_password}
use secondbrain_ai.Auth.Tokens.{get_by_jti, get_by_email}
use secondbrain_ai.Auth.Service.{
  short_agent, day, issue_token_pair, persist_refresh_token, add_token, register, upgrade_hash,
  authenticate_user, authenticate_found, authenticate,
}
use secondbrain_ai.Auth.Service.Request.{run}
use secondbrain_ai.Auth.Service.Leaves.{
  Leaves, Adds, action_rules, Leaves-users_now, Adds-bind, Adds-raise, add_user-Leaves,
}

module _ (x : Externals) (settings : Settings) (context : ClientContext) (draw : Draw) where
  -- The row of the token that a login issues.
  abbrev first_row : User → RefreshToken
  first_row user = record {
    jti = draw.refresh_jti;
    family_id = draw.family_id;
    user_id = user.id;
    expires_at = draw.now + settings.refresh_token_ttl_days * day;
    revoked_at = none;
    replaced_by_jti = none;
    user_agent = short_agent context.user_agent;
    ip_address = context.ip_address;
    is_active = true;
  }

  issue_token_pair-Adds :
      (user : User) → Adds draw.family_id (issue_token_pair x settings context draw user none none)
  unfolding issue_token_pair persist_refresh_token add_token create_token
  issue_token_pair-Adds user = record {
    at = λ s. elim (Option-cases (get_by_jti draw.refresh_jti s.working.tokens)) [
      | inl free ↦ (inr (first_row user, refl, ground arith), ground arith)
      | inr (t, taken) ↦ (inl (ground arith), ground arith)
    ];
  }

  upgrade_hash-Leaves :
      (u : User) (password : Text) → Leaves (upgrade_hash x settings context draw u password)
  unfolding upgrade_hash
  upgrade_hash-Leaves u password = record { at = λ s. (ground arith, ground arith) }

  pub register-Adds :
      (email password name : Text)
      → Adds draw.family_id (register x settings context draw email password name)
  unfolding register
  register-Adds email password name =
      search (action_rules, add_user-Leaves, issue_token_pair-Adds) depth 8

  authenticate_user-Adds :
      (password : Text) (u : User)
      → Adds draw.family_id (authenticate_user x settings context draw password u)
  unfolding authenticate_user
  authenticate_user-Adds password u =
      search (action_rules, upgrade_hash-Leaves, issue_token_pair-Adds) depth 8

  authenticate_found-Adds :
      (password : Text) (found : Option User)
      → Adds draw.family_id (authenticate_found x settings context draw password found)
  unfolding authenticate_found
  authenticate_found-Adds password none = Adds-raise _ _
  authenticate_found-Adds password (some u) = authenticate_user-Adds password u

  pub authenticate-Adds :
      (email password : Text)
      → Adds draw.family_id (authenticate x settings context draw email password)
  unfolding authenticate
  authenticate-Adds email password =
      Adds-bind draw.family_id _ _ (Leaves-users_now _)
        (λ found. authenticate_found-Adds password found)

  authenticate-run :
      (db : Db) (email password : Text)
      → run (authenticate x settings context draw email password) db
        ≡ run
            (authenticate_found x settings context draw password (get_by_email x email db.users))
            db
  unfolding run authenticate
  authenticate-run db email password = refl

  refused :
      (db : Db) (password : Text) (found : Option User)
      → ((user : User)
          → found ≡ some user
          → verify_password x password user.hashed_password ≡ false)
      → run (authenticate_found x settings context draw password found) db
        ≡ (raised (authentication_error "Incorrect email or password."), db)
  unfolding run authenticate_found authenticate_user
  refused db password none wrong = refl
  refused db password (some user) wrong = rw (wrong user refl)

  -- A login with the wrong password ends exactly as one with an address that nobody has: the same
  -- exception, and a database that is as before.
  pub authenticate_no_enumeration :
      (db : Db) (email email' password : Text) (user : User)
      → get_by_email x email db.users ≡ none
      → get_by_email x email' db.users ≡ some user
      → verify_password x password user.hashed_password ≡ false
      → (run (authenticate x settings context draw email password) db
          ≡ run (authenticate x settings context draw email' password) db)
        × (run (authenticate x settings context draw email password) db
            ≡ (raised (authentication_error "Incorrect email or password."), db))
  authenticate_no_enumeration db email email' password user unknown known wrong =
      let absent = authenticate-run db email password ∙ refused db password _ (λ u e. cc) in
      let refusal =
        authenticate-run db email' password
        ∙ refused db password _
            (λ u e. let same : some user ≡ some u = sym known ∙ e in ground (arith, same)) in
      (absent ∙ sym refusal, absent)

  authenticate_user_ok :
      (db after : Db) (password : Text) (user : User) (issued : IssuedTokens)
      → run (authenticate_user x settings context draw password user) db ≡ (ok issued, after)
      → (verify_password x password user.hashed_password ≡ true)
        × (user.is_active ≡ true)
        × (issued.user.id ≡ user.id)
  unfolding run authenticate_user upgrade_hash issue_token_pair persist_refresh_token add_token
      create_token
  authenticate_user_ok db after password user issued h = (ground arith, ground arith, ground arith)

  -- A login that succeeds was made for a stored, active user, with a password that verifies.
  pub authenticate_ok :
      (db after : Db) (email password : Text) (issued : IssuedTokens)
      → run (authenticate x settings context draw email password) db ≡ (ok issued, after)
      → (user : User) × (get_by_email x email db.users ≡ some user)
        × (verify_password x password user.hashed_password ≡ true)
        × (user.is_active ≡ true)
        × (issued.user.id ≡ user.id)
  authenticate_ok db after email password issued h =
      found_ok (get_by_email x email db.users) (sym (authenticate-run db email password) ∙ h)
    where
      found_ok :
          (found : Option User)
          → run (authenticate_found x settings context draw password found) db ≡ (ok issued, after)
          → (user : User) × (found ≡ some user)
            × (verify_password x password user.hashed_password ≡ true)
            × (user.is_active ≡ true)
            × (issued.user.id ≡ user.id)
      found_ok none r = unfold run authenticate_found in cc
      found_ok (some user) r =
          let (verified, active, same) =
            authenticate_user_ok db after password user issued (unfold authenticate_found in r) in
          (user, refl, verified, active, same)

-- ===== src/Auth/Service/Leaves.antt =====
-- Actions that leave the tokens alone, or add one row to them, and their composition.
use secondbrain_ai.Prelude.{ℕ, ◌≡◌, refl, ◌∙◌, ◌⊎◌, inl, subst, Bool, List, [], ◌∷◌, ◌++◌, arith}
use secondbrain_ai.Prelude.Outcome.{Outcome, ok, raised}
use secondbrain_ai.Auth.Records.{User, RefreshToken, Session, AuthError}
use secondbrain_ai.Auth.Service.{add_user}
use secondbrain_ai.Auth.Service.Monad.{
  Action, pure, raise, lift, users_now, raise_if, set_users, ◌>>=◌,
}

-- The table gained at most one row, of the family.
abbrev pub Grown : ℕ → List RefreshToken → List RefreshToken → Type 0
Grown family ts us =
    (us ≡ ts) ⊎ ((row : RefreshToken) × (row.family_id ≡ family) × (us ≡ ts ++ row ∷ []))

-- An action that leaves the tokens alone and commits nothing.
pub record Leaves {A : Type 0} (m : Action A) : Type 0 where
  pub at :
      (s : Session) → ((m s).1.working.tokens ≡ s.working.tokens) × ((m s).1.durable ≡ s.durable)

pub record Adds {A : Type 0} (family : ℕ) (m : Action A) : Type 0 where
  pub at :
      (s : Session)
      → Grown family s.working.tokens (m s).1.working.tokens × ((m s).1.durable ≡ s.durable)

module _ {A : Type 0} where
  pub Leaves-pure : (a : A) → Leaves (pure a)
  Leaves-pure a = record { at = λ s. (refl, refl) }

  pub Leaves-raise : (e : AuthError) → Leaves (raise {A = A} e)
  Leaves-raise e = record { at = λ s. (refl, refl) }

  pub Leaves-lift : (r : Outcome AuthError A) → Leaves (lift r)
  Leaves-lift r = record { at = λ s. (refl, refl) }

  pub Leaves-users_now : (f : List User → A) → Leaves (users_now f)
  Leaves-users_now f = record { at = λ s. (refl, refl) }

pub Leaves-raise_if : (b : Bool) (e : AuthError) → Leaves (raise_if b e)
Leaves-raise_if b e = record { at = λ s. (refl, refl) }

pub Leaves-set_users : (f : List User → List User) → Leaves (set_users f)
Leaves-set_users f = record { at = λ s. (refl, refl) }

module _ {A B : Type 0} where
  bind-Adds_at :
      (family : ℕ) (k : A → Action B) (s s' : Session) (r : Outcome AuthError A)
      → s'.working.tokens ≡ s.working.tokens
      → s'.durable ≡ s.durable
      → ((a : A) → Adds family (k a))
      → let m : Action A = λ _. (r, s') in
        Grown family s.working.tokens ((m >>= k) s).1.working.tokens
        × (((m >>= k) s).1.durable ≡ s.durable)
  bind-Adds_at family k s s' (ok a) e d h =
      let (grown, kept) = (h a).at s' in
      (subst (λ ts. Grown family ts (k a s').1.working.tokens) e grown, kept ∙ d)
  bind-Adds_at family k s s' (raised x) e d h = (inl e, d)

  bind-Leaves_at :
      (k : A → Action B) (s s' : Session) (r : Outcome AuthError A)
      → s'.working.tokens ≡ s.working.tokens
      → s'.durable ≡ s.durable
      → ((a : A) → Leaves (k a))
      → let m : Action A = λ _. (r, s') in
        (((m >>= k) s).1.working.tokens ≡ s.working.tokens) × (((m >>= k) s).1.durable ≡ s.durable)
  bind-Leaves_at k s s' (ok a) e d h = let (same, kept) = (h a).at s' in (same ∙ e, kept ∙ d)
  bind-Leaves_at k s s' (raised x) e d h = (e, d)

  pub Adds-bind :
      (family : ℕ) (m : Action A) (k : A → Action B)
      → Leaves m
      → ((a : A) → Adds family (k a))
      → Adds family (m >>= k)
  Adds-bind family m k lm ak = record {
    at = λ s. let (e, d) = lm.at s in bind-Adds_at family k s (m s).1 (m s).0 e d ak;
  }

  pub Leaves-bind :
      (m : Action A) (k : A → Action B) → Leaves m → ((a : A) → Leaves (k a)) → Leaves (m >>= k)
  Leaves-bind m k lm lk = record {
    at = λ s. let (e, d) = lm.at s in bind-Leaves_at k s (m s).1 (m s).0 e d lk;
  }

pub Adds-raise : {A : Type 0} (family : ℕ) (e : AuthError) → Adds family (raise {A = A} e)
Adds-raise family e = record { at = λ s. (inl refl, refl) }

pub ruleset action_rules = (
  Leaves-pure, Leaves-raise, Leaves-lift, Leaves-users_now, Leaves-raise_if, Leaves-set_users,
  Leaves-bind, Adds-bind, Adds-raise,
)

pub add_user-Leaves : (u : User) → Leaves (add_user u)
unfolding add_user
add_user-Leaves u = record { at = λ s. (ground arith, ground arith) }

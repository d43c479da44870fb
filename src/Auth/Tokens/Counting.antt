-- ===== src/Auth/Tokens/Counting.antt =====
-- How many tokens of a family can still be used, under each operation.
use secondbrain_ai.Prelude.{
  ℕ, ◌+◌, ◌≤◌, ◌≡◌, refl, Bool, true, ◌&&◌, some, List, [], ◌∷◌, ◌++◌, arith, ◌==◌, if◌then◌else◌,
}
use secondbrain_ai.Auth.Records.{RefreshToken}
use secondbrain_ai.Auth.Tokens.{get_by_jti, revoke_where, of_family, revoke_family, mark_rotated}

abbrev pub one_if : Bool → ℕ
one_if b = if b then 1 else 0

-- The active tokens of a family.
abbrev pub active_in : ℕ → List RefreshToken → ℕ
active_in family [] = 0
active_in family (t ∷ ts) = one_if (t.family_id == family && t.is_active) + active_in family ts

-- An update only ever deactivates.
pub active_in-revoke_where :
    (test : RefreshToken → Bool) (now family : ℕ) (ts : List RefreshToken)
    → active_in family (revoke_where test now ts) ≤ active_in family ts
unfolding revoke_where
active_in-revoke_where test now family [] = omega arith
active_in-revoke_where test now family (t ∷ ts) =
    ground (arith, active_in-revoke_where test now family ts)

-- A revoked family has no active token.
pub active_in-revoke_family :
    (now family : ℕ) (ts : List RefreshToken) → active_in family (revoke_family family now ts) ≡ 0
unfolding revoke_family revoke_where
active_in-revoke_family now family [] = refl
active_in-revoke_family now family (t ∷ ts) = ground (arith, active_in-revoke_family now family ts)

pub active_in-append :
    (family : ℕ) (ts us : List RefreshToken)
    → active_in family (ts ++ us) ≡ active_in family ts + active_in family us
active_in-append family [] us = omega arith
active_in-append family (t ∷ ts) us = omega (arith, active_in-append family ts us)

pub active_in-mark_rotated-le :
    (jti by now family : ℕ) (ts : List RefreshToken)
    → active_in family (mark_rotated jti by now ts) ≤ active_in family ts
unfolding mark_rotated
active_in-mark_rotated-le jti by now family [] = omega arith
active_in-mark_rotated-le jti by now family (t ∷ ts) =
    ground (arith, active_in-mark_rotated-le jti by now family ts)

-- Rotating a stored, active token takes one active token from its family.
pub active_in-mark_rotated :
    (jti by now family : ℕ) (stored : RefreshToken) (ts : List RefreshToken)
    → get_by_jti jti ts ≡ some stored
    → stored.is_active ≡ true
    → active_in family (mark_rotated jti by now ts) + one_if (stored.family_id == family)
      ≤ active_in family ts
unfolding mark_rotated get_by_jti
active_in-mark_rotated jti by now family stored [] h a = cc
active_in-mark_rotated jti by now family stored (t ∷ ts) h a = ground (
  arith,
  active_in-mark_rotated jti by now family stored ts,
  active_in-mark_rotated-le jti by now family ts,
)

pub active_in-revoke_family-le :
    (now family f : ℕ) (ts : List RefreshToken)
    → active_in f (revoke_family family now ts) ≤ active_in f ts
unfolding revoke_family
active_in-revoke_family-le now family f ts = active_in-revoke_where (of_family family) now f ts

-- A row at the end does not hide a row that was found.
pub get_by_jti-append :
    (jti : ℕ) (ts us : List RefreshToken) (t : RefreshToken)
    → get_by_jti jti ts ≡ some t
    → get_by_jti jti (ts ++ us) ≡ some t
unfolding get_by_jti
get_by_jti-append jti [] us t h = cc
get_by_jti-append jti (u ∷ ts) us t h = ground (arith, get_by_jti-append jti ts us t)

-- Adding the successor's row and rotating the token leaves each family no more active tokens.
pub active_in_rotation :
    (by now f : ℕ) (stored row : RefreshToken) (ts : List RefreshToken)
    → get_by_jti stored.jti ts ≡ some stored
    → stored.is_active ≡ true
    → row.family_id ≡ stored.family_id
    → active_in f (mark_rotated stored.jti by now (ts ++ row ∷ [])) ≤ active_in f ts
active_in_rotation by now f stored row ts found active same =
    let all = ts ++ row ∷ [] in
    ground (
      arith,
      active_in-mark_rotated stored.jti by now f stored all
          (get_by_jti-append stored.jti ts (row ∷ []) stored found) active,
      active_in-append f ts (row ∷ []),
      same,
    )

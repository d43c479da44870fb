-- ===== src/Repositories/Git/Accepted.antt =====
-- The addresses that `parse_repository` accepts, and what it makes of them.
use secondbrain_ai.Prelude.{
  ℕ, ◌≡◌, ◌≢◌, refl, subst, inl, inr, true, false, Option, none, some, [], ◌∷◌, arith, drop, length,
  All, chain, or_else, Bool-cases,
}
use secondbrain_ai.Prelude.Text.{Text, codes, strip, after_prefix, nonempty}
use secondbrain_ai.Prelude.Outcome.{ok}
use secondbrain_ai.Retrieval.Terms.{Unicode}
use secondbrain_ai.Repositories.Git.{
  RepositoryRef, Directories, in_name, name_front, ends_reference, longer_name, shortest_name,
  with_owner, owner_and_name, after_url, matched, github_ref, as_reference, is_local,
  parse_repository, no_such_branch, explain_clone_failure,
}

-- A text of characters that an owner or a name may have.
abbrev pub Plain : Unicode → Text → Type 0
Plain u t = All (λ c. in_name u c ≡ true) t

abbrev pub Named : Unicode → Text → Text → Type 0
Named u owner name = Plain u owner × (nonempty owner ≡ true) × Plain u name × (nonempty name ≡ true)

name_front-Plain : (u : Unicode) (t : Text) → Plain u (name_front u t)
unfolding name_front
name_front-Plain u [] = tt
name_front-Plain u (c ∷ t) = elim (Bool-cases (in_name u c)) [
  | inl good ↦ rw good (good, name_front-Plain u t)
  | inr bad ↦ rw bad tt
]

longer_name_lem :
    (c : ℕ) (o : Option Text) (name : Text)
    → longer_name c o ≡ some name
    → (rest : Text) × (o ≡ some rest) × (name ≡ c ∷ rest)
longer_name_lem c none name h = cc
longer_name_lem c (some rest) name h = (rest, refl, cc)

shortest_name-Plain :
    (u : Unicode) (t name : Text)
    → shortest_name u t ≡ some name
    → Plain u name × (nonempty name ≡ true)
unfolding shortest_name
shortest_name-Plain u [] name h = cc
shortest_name-Plain u (c ∷ t) name h = elim (Bool-cases (in_name u c)) [
  | inr bad ↦ let no_name : none ≡ some name = rw (shortest_name, bad) at h in cc
  | inl good ↦ elim (Bool-cases (ends_reference t)) [
    | inl ends ↦
        let one : some (c ∷ []) ≡ some name = rw (shortest_name, good, ends) at h in
        let e : c ∷ [] ≡ name = cc in rw (← e) ((good, tt), refl)
    | inr on ↦
        let more : longer_name c (shortest_name u t) ≡ some name =
          rw (shortest_name, good, on) at h in
        let (rest, found, shape) = longer_name_lem c (shortest_name u t) name more in
        rw shape ((good, (shortest_name-Plain u t rest found).0), refl)
  ]
]

with_owner_lem :
    (w : Text) (o : Option Text) (owner name : Text)
    → with_owner w o ≡ some (owner, name)
    → (o ≡ some name) × (w ≡ owner) × (nonempty w ≡ true)
with_owner_lem w none owner name h = cc
with_owner_lem [] (some n) owner name h = cc
with_owner_lem (c ∷ w) (some n) owner name h = (cc, cc, refl)

chain_lem {ℓ κ} :
    {A : Type ℓ} {B : Type κ} (o : Option A) (f : A → Option B) {b : B}
    → chain o f ≡ some b
    → (a : A) × (o ≡ some a) × (f a ≡ some b)
chain_lem none f h = cc
chain_lem (some a) f h = (a, refl, h)

owner_and_name-Named :
    (u : Unicode) (t owner name : Text)
    → owner_and_name u t ≡ some (owner, name)
    → Named u owner name
unfolding owner_and_name
owner_and_name-Named u t owner name h =
    let front = name_front u t in
    let (found, same, filled) =
      with_owner_lem front
        (chain (after_prefix (codes "/") (drop (length front) t)) (shortest_name u)) owner name h in
    let (rest, behind, short) =
      chain_lem (after_prefix (codes "/") (drop (length front) t)) (shortest_name u) found in
    let (plain, some_name) = shortest_name-Plain u rest name short in
    (rw (← same) (name_front-Plain u t), rw (← same) filled, plain, some_name)

or_else-Named :
    (u : Unicode) (o p : Option (Text × Text)) (owner name : Text)
    → (o ≡ some (owner, name) → Named u owner name)
    → (p ≡ some (owner, name) → Named u owner name)
    → or_else o p ≡ some (owner, name)
    → Named u owner name
or_else-Named u none p owner name f g h = g h
or_else-Named u (some x) p owner name f g h = f h

matched-Named :
    (u : Unicode) (t owner name : Text) → matched u t ≡ some (owner, name) → Named u owner name
unfolding matched
matched-Named u t owner name h =
    or_else-Named u (chain (after_url t) (owner_and_name u)) _ owner name
      (λ e.
        let (rest, behind, named) = chain_lem (after_url t) (owner_and_name u) e in
        owner_and_name-Named u rest owner name named)
      (λ e.
        or_else-Named u (chain (after_prefix (codes "git@github.com:") t) (owner_and_name u))
          (owner_and_name u t) owner name
          (λ e'.
            let (rest, behind, named) =
              chain_lem (after_prefix (codes "git@github.com:") t) (owner_and_name u) e' in
            owner_and_name-Named u rest owner name named)
          (owner_and_name-Named u t owner name) e)
      h

-- What a reference that is no path of the server's may become: the address of one repository on
-- GitHub, whose owner and name have only characters of `[\w.-]`.
abbrev pub OnGithub : Unicode → Option Text → RepositoryRef → Type 0
OnGithub u branch r = (r ≡ github_ref branch r.owner r.name) × Named u r.owner r.name

as_reference-OnGithub :
    (u : Unicode) (reference : Text) (branch : Option Text) (o : Option (Text × Text))
    (r : RepositoryRef)
    → ((owner name : Text) → o ≡ some (owner, name) → Named u owner name)
    → as_reference reference branch o ≡ ok r
    → OnGithub u branch r
as_reference-OnGithub u reference branch none r named h = cc
as_reference-OnGithub u reference branch (some (owner, name)) r named h =
    let e : github_ref branch owner name ≡ r = cc in
    subst (OnGithub u branch) e (refl, named owner name refl)

-- Only github.com is accepted: if an address that is no path of the server's is accepted, then the
-- server clones https://github.com/owner/name.git, where owner and name are not empty and have
-- only characters of `[\w.-]`, and the branch is the one that was given.
pub parse_repository-OnGithub :
    (u : Unicode) (ds : Directories) (reference : Text) (branch : Option Text) (r : RepositoryRef)
    → is_local ds (strip reference) ≡ false
    → parse_repository u ds reference branch ≡ ok r
    → OnGithub u branch r
unfolding parse_repository
parse_repository-OnGithub u ds reference branch r remote h =
    let made : as_reference reference branch (matched u (strip reference)) ≡ ok r =
      rw (parse_repository, remote) at h in
    as_reference-OnGithub u reference branch (matched u (strip reference)) r
      (matched-Named u (strip reference)) made

-- The advice that a branch does not exist is never given: git says `Remote branch … not found`, and
-- an earlier test takes every text with `not found`.
pub explain_clone_failure-ne-no_such_branch :
    (lower : Text → Text) (stderr : Text) → explain_clone_failure lower stderr ≢ no_such_branch
unfolding explain_clone_failure
explain_clone_failure-ne-no_such_branch lower stderr h = ground arith

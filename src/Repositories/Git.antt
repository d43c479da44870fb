-- ===== src/Repositories/Git.antt =====
-- backend/app/services/repositories/git.py: which repository an address names, and what is said of
-- a clone that failed.
pub mod Addresses
pub mod Accepted
pub mod Forms
mod Tests
use secondbrain_ai.Prelude.{
  ℕ, Bool, true, false, ◌&&◌, ◌||◌, Option, none, some, List, [], ◌∷◌, ◌++◌, take, drop, length,
  chain, or_else, ◌==◌, if◌then◌else◌,
}
use secondbrain_ai.Prelude.Text.{
  Text, codes, strip, text_eq, starts_with, after_prefix, contains, nonempty,
}
use secondbrain_ai.Prelude.Outcome.{Outcome, ok, raised}
use secondbrain_ai.Prelude.Paths.{path_name}
use secondbrain_ai.Retrieval.Terms.{Unicode}

-- `RepositoryRef`
pub record RepositoryRef : Type 0 where
  pub clone_url : Text
  pub owner : Text
  pub name : Text
  pub branch : Option Text

-- Whether there is a directory at a path, and `str(Path(text))`.
pub record Directories : Type 0 where
  pub is_dir : Text → Bool
  pub path_text : Text → Text

-- A character of `[\w.-]`.
abbrev pub in_name : Unicode → ℕ → Bool
in_name u c = u.is_word c || c == 46 || c == 45

-- The longest front of such characters.
unfoldable pub name_front : Unicode → Text → Text
name_front u [] = []
name_front u (c ∷ t) = let rest = name_front u t in if in_name u c then c ∷ rest else []

-- `(?:\.git)?/?$`
unfoldable pub ends_reference : Text → Bool
unfolding text_eq
ends_reference t =
    text_eq t [] || text_eq t (codes ".git") || text_eq t (codes "/") || text_eq t (codes ".git/")

abbrev pub longer_name : ℕ → Option Text → Option Text
longer_name c none = none
longer_name c (some name) = some (c ∷ name)

-- `(?P<name>[\w.-]+?)` before such an end: the shortest name.
unfoldable pub shortest_name : Unicode → Text → Option Text
unfolding ends_reference
shortest_name u [] = none
shortest_name u (c ∷ t) =
    let longer = longer_name c (shortest_name u t) in
    if in_name u c then (if ends_reference t then some (c ∷ []) else longer) else none

abbrev pub with_owner : Text → Option Text → Option (Text × Text)
with_owner owner none = none
with_owner [] (some name) = none
with_owner (c ∷ owner) (some name) = some (c ∷ owner, name)

-- `(?P<owner>[\w.-]+)/(?P<name>…)…$`
unfoldable pub owner_and_name : Unicode → Text → Option (Text × Text)
unfolding name_front shortest_name after_prefix
owner_and_name u t =
    let owner = name_front u t in
    with_owner owner (chain (after_prefix (codes "/") (drop (length owner) t)) (shortest_name u))

-- `(?:www\.)?`
unfoldable pub skip_www : Text → Text
unfolding starts_with
skip_www t = if starts_with (codes "www.") t then drop 4 t else t

-- `^https?://(?:www\.)?github\.com/`
unfoldable pub after_url : Text → Option Text
unfolding after_prefix skip_www
after_url t =
    chain (or_else (after_prefix (codes "https://") t) (after_prefix (codes "http://") t))
      (λ host. after_prefix (codes "github.com/") (skip_www host))

-- The first of `_PATTERNS` that matches.
unfoldable pub matched : Unicode → Text → Option (Text × Text)
unfolding owner_and_name after_url after_prefix
matched u t = or_else (chain (after_url t) (owner_and_name u)) (
    or_else (chain (after_prefix (codes "git@github.com:") t) (owner_and_name u))
      (owner_and_name u t))

abbrev pub github_ref : Option Text → Text → Text → RepositoryRef
github_ref branch owner name = record {
  clone_url = codes "https://github.com/" ++ (owner ++ (codes "/" ++ (name ++ codes ".git")));
  owner = owner;
  name = name;
  branch = branch;
}

abbrev pub as_reference : Text → Option Text → Option (Text × Text) → Outcome Text RepositoryRef
as_reference reference branch none = raised (
    reference
    ++ codes
        " is not a GitHub repository. Use a URL like https://github.com/owner/name, or just owner/name.")
as_reference reference branch (some (owner, name)) = ok (github_ref branch owner name)

-- `candidate.removeprefix("file://")`
unfoldable pub without_scheme : Text → Text
unfolding starts_with
without_scheme t = if starts_with (codes "file://") t then drop 7 t else t

unfoldable pub local_ref : Directories → Option Text → Text → RepositoryRef
unfolding without_scheme path_name
local_ref ds branch candidate = record {
  clone_url = ds.path_text (without_scheme candidate);
  owner = codes "local";
  name = path_name (without_scheme candidate);
  branch = branch;
}

-- A path of the server's own.
unfoldable pub is_local : Directories → Text → Bool
unfolding starts_with
is_local ds candidate = starts_with (codes "file://") candidate || ds.is_dir candidate

-- `parse_repository`
unfoldable pub parse_repository :
    Unicode → Directories → Text → Option Text → Outcome Text RepositoryRef
unfolding strip is_local local_ref matched
parse_repository u ds reference branch =
    let candidate = strip reference in
    if is_local ds candidate
    then ok (local_ref ds branch candidate)
    else as_reference reference branch (matched u candidate)

-- What `_explain_clone_failure` says, in its order.
pub data CloneFailure : Type 0 where
  is_private not_on_github unreachable no_such_branch : CloneFailure
  other_failure : Text → CloneFailure

-- `_explain_clone_failure`, given `str.lower`.
unfoldable pub explain_clone_failure : (Text → Text) → Text → CloneFailure
unfolding contains strip
explain_clone_failure lower stderr =
    let lowered = lower stderr in
    if contains (codes "could not read username") lowered
      || contains (codes "authentication failed") lowered
    then is_private
    else if contains (codes "repository not found") lowered || contains (codes "not found") lowered
    then not_on_github
    else if contains (codes "could not resolve host") lowered
        || contains (codes "unable to access") lowered
    then unreachable
    else if contains (codes "remote branch") lowered && contains (codes "not found") lowered
    then no_such_branch
    else other_failure (take 300 (strip stderr))

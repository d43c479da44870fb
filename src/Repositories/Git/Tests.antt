-- ===== src/Repositories/Git/Tests.antt =====
-- Addresses of repositories, and instances of the theorems on them.
use secondbrain_ai.Prelude.{ℕ, ◌≡◌, refl, true, false, ◌&&◌, ◌||◌, none, some, arith, leb, ◌==◌}
use secondbrain_ai.Prelude.Text.{codes, is_space, strip, text_eq}
use secondbrain_ai.Prelude.Outcome.{ok}
use secondbrain_ai.Retrieval.Terms.{Unicode}
use secondbrain_ai.Repositories.Git.{
  Directories, RepositoryRef, github_ref, is_local, parse_repository,
}
use secondbrain_ai.Repositories.Git.Accepted.{OnGithub, parse_repository-OnGithub}
use secondbrain_ai.Repositories.Git.Addresses.{Punctuated, https_www, git_slash, address}
use secondbrain_ai.Repositories.Git.Forms.{parse_repository-address}

-- ASCII.
abbrev ascii : Unicode
ascii = record {
  lower = λ t. t;
  is_word =
      λ c. (leb 48 c && leb c 57) || (leb 65 c && leb c 90) || (leb 97 c && leb c 122) || c == 95;
}

abbrev no_directories : Directories
no_directories = record { is_dir = λ t. false; path_text = λ t. t }

ssh_test :
    parse_repository ascii no_directories (codes " git@github.com:ada/engine.git ") none
    ≡ ok (github_ref none (codes "ada") (codes "engine"))
unfolding parse_repository
ssh_test = refl

abbrev engine : RepositoryRef
engine = github_ref none (codes "ada") (codes "engine")

remote : is_local no_directories (strip (codes "ada/engine")) ≡ false
unfolding is_local strip
remote = refl

shorthand : parse_repository ascii no_directories (codes "ada/engine") none ≡ ok engine
unfolding parse_repository
shorthand = refl

parse_repository-OnGithub_example : OnGithub ascii none engine
parse_repository-OnGithub_example =
    parse_repository-OnGithub ascii no_directories (codes "ada/engine") none engine remote shorthand

ascii-Punctuated : Punctuated ascii
ascii-Punctuated = record { no_slash = refl; no_colon = refl; no_at = refl; no_space = no_letter }
  where
    no_letter : (c : ℕ) → is_space c ≡ true → ascii.is_word c ≡ false
    no_letter c h = unfold is_space in ground arith

parse_repository-address_example :
    parse_repository ascii no_directories
      (address https_www git_slash (codes "ada") (codes "a.b"))
      (some (codes "dev"))
    ≡ ok (github_ref (some (codes "dev")) (codes "ada") (codes "a.b"))
unfolding text_eq
parse_repository-address_example =
    parse_repository-address ascii no_directories (some (codes "dev")) https_www git_slash
      (codes "ada") (codes "a.b") ascii-Punctuated (refl, (refl, (refl, tt))) refl
      (refl, (refl, (refl, tt))) refl refl refl

-- ===== src/Repositories/Git/Forms.antt =====
-- The forms in which people write the address of a repository.
use secondbrain_ai.Prelude.{
  ℕ, ◌≡◌, refl, ap, subst, ◌∙◌, inl, inr, true, false, Option, none, some, [], ◌∷◌, ◌++◌, arith,
  All, All-append, Bool-cases, ◌==◌,
}
use secondbrain_ai.Prelude.Text.{
  Text, codes, is_space, text_eq, starts_with, after_prefix, nonempty,
}
use secondbrain_ai.Prelude.Outcome.{ok}
use secondbrain_ai.Retrieval.Terms.{Unicode}
use secondbrain_ai.Repositories.Git.{
  Directories, in_name, name_front, ends_reference, longer_name, shortest_name, with_owner,
  owner_and_name, skip_www, after_url, matched, github_ref, is_local, parse_repository,
}
use secondbrain_ai.Repositories.Git.Accepted.{Plain}
use secondbrain_ai.Repositories.Git.Addresses.{
  drop-append, Scheme, https, http, https_www, http_www, ssh, shorthand, Ending, bare, git, slash,
  git_slash, prefix_of, suffix_of, address, has_git_tail, Punctuated, Spaceless, none_pass,
  strip-Spaceless, not_end, no_space_47, prefix-Spaceless, suffix-Spaceless, no_prefix,
}

module _ (u : Unicode) (h : Punctuated u) where
  slash_ends : in_name u 47 ≡ false
  slash_ends = rw h.no_slash refl

  name_front-append :
      (owner rest : Text) → Plain u owner → name_front u (owner ++ 47 ∷ rest) ≡ owner
  unfolding name_front
  name_front-append [] rest p = rw slash_ends refl
  name_front-append (c ∷ owner) rest p = rw p.0 (rw (name_front-append owner rest p.1) refl)

  not_slash : (c : ℕ) → in_name u c ≡ true → (c == 47) ≡ false
  not_slash c p = elim (Bool-cases (c == 47)) [
    | inr other ↦ other
    | inl same ↦
        let e : c ≡ 47 = ground arith in
        let both : in_name u 47 ≡ true = subst (λ x. in_name u x ≡ true) e p in cc
  ]

  slash_free : (t : Text) → Plain u t → All (λ c. (c == 47) ≡ false) t
  slash_free [] p = tt
  slash_free (c ∷ t) p = (not_slash c p.0, slash_free t p.1)

  ends : (ending : Ending) → ends_reference (suffix_of ending) ≡ true
  unfolding ends_reference text_eq
  ends bare = refl
  ends git = refl
  ends slash = refl
  ends git_slash = refl

  shortest_name-append :
      (ending : Ending) (c : ℕ) (t : Text)
      → in_name u c ≡ true
      → Plain u t
      → has_git_tail (c ∷ t) ≡ false
      → shortest_name u (c ∷ (t ++ suffix_of ending)) ≡ some (c ∷ t)
  unfolding shortest_name
  shortest_name-append ending c [] p ps e = rw p (rw (ends ending) refl)
  shortest_name-append ending c (d ∷ t) p ps e =
      let tail : text_eq (d ∷ t) (codes ".git") ≡ false = ground arith in
      let on = not_end ending (d ∷ t) (slash_free (d ∷ t) ps) refl tail in
      rw p (rw on (ap (longer_name c) (shortest_name-append ending d t ps.0 ps.1 (ground arith))))

  owner_and_name-append :
      (ending : Ending) (o : ℕ) (owner : Text) (n : ℕ) (name : Text)
      → Plain u (o ∷ owner)
      → Plain u (n ∷ name)
      → has_git_tail (n ∷ name) ≡ false
      → owner_and_name u ((o ∷ owner) ++ 47 ∷ ((n ∷ name) ++ suffix_of ending))
        ≡ some (o ∷ owner, n ∷ name)
  unfolding owner_and_name after_prefix starts_with
  owner_and_name-append ending o owner n name p q e =
      let rest = (n ∷ name) ++ suffix_of ending in
      rw (name_front-append (o ∷ owner) rest p) (
        rw (drop-append owner (47 ∷ rest))
          (ap (with_owner (o ∷ owner)) (shortest_name-append ending n name q.0 q.1 e)))

  -- An address that begins with an owner has no scheme.
  no_scheme :
      (front : Text) (bad : ℕ) (more owner rest : Text)
      → All (λ c. (c == 47) ≡ false) front
      → in_name u bad ≡ false
      → (bad == 47) ≡ false
      → Plain u owner
      → starts_with (front ++ bad ∷ more) (owner ++ 47 ∷ rest) ≡ false
  unfolding starts_with
  no_scheme [] bad more [] rest f b s p = rw s refl
  no_scheme [] bad more (c ∷ owner) rest f b s p = elim (Bool-cases (bad == c)) [
    | inr other ↦ rw other refl
    | inl same ↦
        let e : c ≡ bad = ground arith in
        let both : in_name u bad ≡ true = subst (λ x. in_name u x ≡ true) e p.0 in cc
  ]
  no_scheme (a ∷ front) bad more [] rest f b s p = rw f.0 refl
  no_scheme (a ∷ front) bad more (c ∷ owner) rest f b s p =
      ground (arith, no_scheme front bad more owner rest f.1 b s p.1)

  colon_out : in_name u 58 ≡ false
  colon_out = rw h.no_colon refl

  at_out : in_name u 64 ≡ false
  at_out = rw h.no_at refl

  -- An address with none of the prefixes is read as owner and name.
  unlisted :
      (t : Text)
      → after_prefix (codes "https://") t ≡ none
      → after_prefix (codes "http://") t ≡ none
      → after_prefix (codes "git@github.com:") t ≡ none
      → matched u t ≡ owner_and_name u t
  unfolding matched after_url
  unlisted t a b c = rw (a, b, c) refl

  matched-address :
      (scheme : Scheme) (ending : Ending) (o : ℕ) (owner : Text) (n : ℕ) (name : Text)
      → Plain u (o ∷ owner)
      → Plain u (n ∷ name)
      → has_git_tail (n ∷ name) ≡ false
      → matched u (address scheme ending (o ∷ owner) (n ∷ name)) ≡ some (o ∷ owner, n ∷ name)
  unfolding matched after_url after_prefix skip_www starts_with
  matched-address https ending o owner n name p q e =
      rw (owner_and_name-append ending o owner n name p q e) refl
  matched-address http ending o owner n name p q e =
      rw (owner_and_name-append ending o owner n name p q e) refl
  matched-address https_www ending o owner n name p q e =
      rw (owner_and_name-append ending o owner n name p q e) refl
  matched-address http_www ending o owner n name p q e =
      rw (owner_and_name-append ending o owner n name p q e) refl
  matched-address ssh ending o owner n name p q e =
      rw (owner_and_name-append ending o owner n name p q e) refl
  matched-address shorthand ending o owner n name p q e =
      let rest = (n ∷ name) ++ suffix_of ending in
      let t = (o ∷ owner) ++ 47 ∷ rest in
      let no_https : after_prefix (codes "https://") t ≡ none = no_prefix (codes "https://") t (
        no_scheme (codes "https") 58 (codes "//") (o ∷ owner) rest
          (none_pass (λ c. c == 47) (codes "https") refl) colon_out refl p) in
      let no_http : after_prefix (codes "http://") t ≡ none = no_prefix (codes "http://") t (
        no_scheme (codes "http") 58 (codes "//") (o ∷ owner) rest
          (none_pass (λ c. c == 47) (codes "http") refl) colon_out refl p) in
      let no_ssh : after_prefix (codes "git@github.com:") t ≡ none =
        no_prefix (codes "git@github.com:") t (
          no_scheme (codes "git") 64 (codes "github.com:") (o ∷ owner) rest
            (none_pass (λ c. c == 47) (codes "git") refl) at_out refl p) in
      unlisted t no_https no_http no_ssh ∙ owner_and_name-append ending o owner n name p q e

  in_name-space : (c : ℕ) → in_name u c ≡ true → is_space c ≡ false
  unfolding is_space
  in_name-space c p = elim (Bool-cases (is_space c)) [
    | inr other ↦ other
    | inl space ↦ let w = h.no_space c space in ground arith
  ]

  Plain-Spaceless : (t : Text) → Plain u t → Spaceless t
  unfolding Spaceless
  Plain-Spaceless [] p = tt
  Plain-Spaceless (c ∷ t) p = (in_name-space c p.0, Plain-Spaceless t p.1)

  no_file :
      (scheme : Scheme) (ending : Ending) (owner name : Text)
      → Plain u owner
      → starts_with (codes "file://") (address scheme ending owner name) ≡ false
  unfolding starts_with
  no_file https ending owner name p = refl
  no_file http ending owner name p = refl
  no_file https_www ending owner name p = refl
  no_file http_www ending owner name p = refl
  no_file ssh ending owner name p = refl
  no_file shorthand ending owner name p =
      no_scheme (codes "file") 58 (codes "//") owner (name ++ suffix_of ending)
        (none_pass (λ c. c == 47) (codes "file") refl) colon_out refl p

  address-Spaceless :
      (scheme : Scheme) (ending : Ending) (owner name : Text)
      → Plain u owner
      → Plain u name
      → Spaceless (address scheme ending owner name)
  unfolding Spaceless
  address-Spaceless scheme ending owner name p q =
      All-append _ (prefix_of scheme) _ (prefix-Spaceless scheme) (
        All-append _ owner _ (Plain-Spaceless owner p)
          (no_space_47, All-append _ name _ (Plain-Spaceless name q) (suffix-Spaceless ending)))

-- Every form in which the address of a repository on GitHub is written, with a name that does not end
-- in `.git` itself, is read as that repository, unless the server has a directory of that name.
pub parse_repository-address :
    (u : Unicode) (ds : Directories) (branch : Option Text) (scheme : Scheme) (ending : Ending)
    (owner name : Text)
    → Punctuated u
    → Plain u owner
    → nonempty owner ≡ true
    → Plain u name
    → nonempty name ≡ true
    → has_git_tail name ≡ false
    → ds.is_dir (address scheme ending owner name) ≡ false
    → parse_repository u ds (address scheme ending owner name) branch
      ≡ ok (github_ref branch owner name)
unfolding parse_repository is_local
parse_repository-address u ds branch scheme ending [] name h p f q g e remote = cc
parse_repository-address u ds branch scheme ending (o ∷ owner) [] h p f q g e remote = cc
parse_repository-address u ds branch scheme ending (o ∷ owner) (n ∷ name) h p f q g e remote =
    let t = address scheme ending (o ∷ owner) (n ∷ name) in
    rw (strip-Spaceless t (address-Spaceless u h scheme ending (o ∷ owner) (n ∷ name) p q)) (
      rw (no_file u h scheme ending (o ∷ owner) (n ∷ name) p, remote)
        (rw (matched-address u h scheme ending o owner n name p q e) refl))

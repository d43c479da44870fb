-- ===== src/Repositories/Git/Addresses.antt =====
-- How the address of a repository may begin and end, and texts without space at their ends.
use secondbrain_ai.Prelude.{
  ℕ, ◌≡◌, refl, ap, ◌∙◌, Bool, true, false, ◌||◌, none, List, [], ◌∷◌, ◌++◌, arith, drop, length,
  any, All, ◌==◌,
}
use secondbrain_ai.Prelude.Text.{
  Text, codes, is_space, lstrip, rstrip, push_left, strip, text_eq, starts_with, after_prefix,
  nonempty,
}
use secondbrain_ai.Retrieval.Terms.{Unicode}
use secondbrain_ai.Repositories.Git.{ends_reference}

-- How an address begins: a browser's URL, an SSH remote, or nothing but the owner.
pub data Scheme : Type 0 where
  https http https_www http_www ssh shorthand : Scheme

-- How it ends.
pub data Ending : Type 0 where
  bare git slash git_slash : Ending

abbrev pub prefix_of : Scheme → Text
prefix_of https = codes "https://github.com/"
prefix_of http = codes "http://github.com/"
prefix_of https_www = codes "https://www.github.com/"
prefix_of http_www = codes "http://www.github.com/"
prefix_of ssh = codes "git@github.com:"
prefix_of shorthand = []

abbrev pub suffix_of : Ending → Text
suffix_of bare = []
suffix_of git = codes ".git"
suffix_of slash = codes "/"
suffix_of git_slash = codes ".git/"

abbrev pub address : Scheme → Ending → Text → Text → Text
address scheme ending owner name = prefix_of scheme ++ (owner ++ (47 ∷ (name ++ suffix_of ending)))

-- Whether the text ends in `.git` behind its first character.
abbrev pub has_git_tail : Text → Bool
has_git_tail [] = false
has_git_tail (c ∷ t) = text_eq t (codes ".git") || has_git_tail t

-- What `\w` leaves out.
pub record Punctuated (u : Unicode) : Type 0 where
  pub no_slash : u.is_word 47 ≡ false
  pub no_colon : u.is_word 58 ≡ false
  pub no_at : u.is_word 64 ≡ false
  pub no_space : (c : ℕ) → is_space c ≡ true → u.is_word c ≡ false

pub drop-append {ℓ} : {A : Type ℓ} (xs ys : List A) → drop (length xs) (xs ++ ys) ≡ ys
drop-append [] ys = refl
drop-append (x ∷ xs) ys = drop-append xs ys

unfoldable pub Spaceless : Text → Type 0
Spaceless t = All (λ c. is_space c ≡ false) t

pub none_pass : (p : ℕ → Bool) (t : Text) → any p t ≡ false → All (λ c. p c ≡ false) t
none_pass p [] h = tt
none_pass p (c ∷ t) h = (ground arith, none_pass p t (ground arith))

lstrip-Spaceless : (t : Text) → Spaceless t → lstrip t ≡ t
unfolding Spaceless lstrip
lstrip-Spaceless [] h = refl
lstrip-Spaceless (c ∷ t) h = rw h.0 refl

push_left_lem : (c : ℕ) (t : Text) → is_space c ≡ false → push_left c t ≡ c ∷ t
unfolding push_left
push_left_lem c [] h = rw h refl
push_left_lem c (d ∷ t) h = refl

rstrip-Spaceless : (t : Text) → Spaceless t → rstrip t ≡ t
unfolding Spaceless rstrip
rstrip-Spaceless [] h = refl
rstrip-Spaceless (c ∷ t) h =
    push_left_lem c (rstrip t) h.0 ∙ ap (λ (x : Text). c ∷ x) (rstrip-Spaceless t h.1)

pub strip-Spaceless : (t : Text) → Spaceless t → strip t ≡ t
unfolding strip
strip-Spaceless t h = ap rstrip (lstrip-Spaceless t h) ∙ rstrip-Spaceless t h

-- A name goes on, unless what is left of it is `.git`.
pub not_end :
    (ending : Ending) (t : Text)
    → All (λ c. (c == 47) ≡ false) t
    → nonempty t ≡ true
    → text_eq t (codes ".git") ≡ false
    → ends_reference (t ++ suffix_of ending) ≡ false
unfolding ends_reference text_eq
not_end bare [] h n e = ground arith
not_end bare (a ∷ []) h n e = ground arith
not_end bare (a ∷ b ∷ []) h n e = ground arith
not_end bare (a ∷ b ∷ c ∷ []) h n e = ground arith
not_end bare (a ∷ b ∷ c ∷ d ∷ []) h n e = ground arith
not_end bare (a ∷ b ∷ c ∷ d ∷ x ∷ t) h n e = ground arith
not_end git [] h n e = ground arith
not_end git (a ∷ []) h n e = ground arith
not_end git (a ∷ b ∷ []) h n e = ground arith
not_end git (a ∷ b ∷ c ∷ []) h n e = ground arith
not_end git (a ∷ b ∷ c ∷ d ∷ []) h n e = ground arith
not_end git (a ∷ b ∷ c ∷ d ∷ x ∷ t) h n e = ground arith
not_end slash [] h n e = ground arith
not_end slash (a ∷ []) h n e = ground arith
not_end slash (a ∷ b ∷ []) h n e = ground arith
not_end slash (a ∷ b ∷ c ∷ []) h n e = ground arith
not_end slash (a ∷ b ∷ c ∷ d ∷ []) h n e = ground arith
not_end slash (a ∷ b ∷ c ∷ d ∷ x ∷ t) h n e = ground arith
not_end git_slash [] h n e = ground arith
not_end git_slash (a ∷ []) h n e = ground arith
not_end git_slash (a ∷ b ∷ []) h n e = ground arith
not_end git_slash (a ∷ b ∷ c ∷ []) h n e = ground arith
not_end git_slash (a ∷ b ∷ c ∷ d ∷ []) h n e = ground arith
not_end git_slash (a ∷ b ∷ c ∷ d ∷ x ∷ t) h n e = ground arith

pub no_space_47 : is_space 47 ≡ false
unfolding is_space
no_space_47 = refl

pub prefix-Spaceless : (scheme : Scheme) → Spaceless (prefix_of scheme)
unfolding Spaceless is_space
prefix-Spaceless https = none_pass is_space (prefix_of https) refl
prefix-Spaceless http = none_pass is_space (prefix_of http) refl
prefix-Spaceless https_www = none_pass is_space (prefix_of https_www) refl
prefix-Spaceless http_www = none_pass is_space (prefix_of http_www) refl
prefix-Spaceless ssh = none_pass is_space (prefix_of ssh) refl
prefix-Spaceless shorthand = none_pass is_space (prefix_of shorthand) refl

pub suffix-Spaceless : (ending : Ending) → Spaceless (suffix_of ending)
unfolding Spaceless is_space
suffix-Spaceless bare = none_pass is_space (suffix_of bare) refl
suffix-Spaceless git = none_pass is_space (suffix_of git) refl
suffix-Spaceless slash = none_pass is_space (suffix_of slash) refl
suffix-Spaceless git_slash = none_pass is_space (suffix_of git_slash) refl

pub no_prefix : (p t : Text) → starts_with p t ≡ false → after_prefix p t ≡ none
unfolding after_prefix
no_prefix p t h = rw h refl

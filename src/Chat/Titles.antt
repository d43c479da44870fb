-- ===== src/Chat/Titles.antt =====
-- `derive_title` of backend/app/services/chat.py.
use secondbrain_ai.Prelude.{
  ℕ, ◌+◌, ◌≤◌, suc, ◌≡◌, refl, subst, Option, none, some, List, [], ◌∷◌, ◌++◌, arith, length,
  length-append, length-take, take, leb, leb→le, Bool-cases, ◌==◌, inl, inr, if◌then◌else◌,
}
use secondbrain_ai.Prelude.Text.{Text, codes, is_space, join}

abbrev pub next_word : Text → List Text → List Text
next_word [] words = words
next_word (c ∷ run) words = (c ∷ run) ∷ words

-- `text.split()`, with the word that stands before the text.
unfoldable pub words_from : Text → Text → List Text
unfolding is_space
words_from run [] = next_word run []
words_from run (c ∷ t) =
    let later = words_from [] t in
    let longer = words_from (run ++ c ∷ []) t in if is_space c then next_word run later else longer

unfoldable pub or_here : ℕ → Option Text → Option Text
or_here c none = if c == 32 then some [] else none
or_here c (some u) = some (c ∷ u)

-- The text before its last space, if there is one.
unfoldable pub before_last_space : Text → Option Text
unfolding or_here
before_last_space [] = none
before_last_space (c ∷ t) = or_here c (before_last_space t)

-- `text.rsplit(" ", 1)[0]`
abbrev pub cut_at : Text → Option Text → Text
cut_at t none = t
cut_at t (some u) = u

abbrev pub or_new : Text → Text
or_new [] = codes "New conversation"
or_new (c ∷ t) = c ∷ t

-- `derive_title`
unfoldable pub derive_title : Text → ℕ → Text
unfolding words_from before_last_space join
derive_title question limit =
    let cleaned = join (32 ∷ []) (words_from [] question) in
    if leb (length cleaned) limit
    then or_new cleaned
    else cut_at (take limit cleaned) (before_last_space (take limit cleaned)) ++ 0x2026 ∷ []

length-or_here :
    (c n : ℕ) (o : Option Text) (u : Text)
    → ((v : Text) → o ≡ some v → length v ≤ n)
    → or_here c o ≡ some u
    → length u ≤ suc n
unfolding or_here
length-or_here c n (some v) u k h =
    let e : c ∷ v ≡ u = cc in subst (λ x. length x ≤ suc n) e (omega (arith, k v refl))
length-or_here c n none u k h = elim (Bool-cases (c == 32)) [
  | inl space ↦
      let at : some [] ≡ some u = rw (or_here, space) at h in
      let e : [] ≡ u = cc in subst (λ x. length x ≤ suc n) e (omega arith)
  | inr other ↦ let at : none ≡ some u = rw (or_here, other) at h in cc
]

length-before_last_space : (t u : Text) → before_last_space t ≡ some u → length u ≤ length t
unfolding before_last_space
length-before_last_space [] u h = cc
length-before_last_space (c ∷ t) u h =
    length-or_here c (length t) (before_last_space t) u (λ v e. length-before_last_space t v e) h

length-cut_at :
    (t : Text) (o : Option Text) → before_last_space t ≡ o → length (cut_at t o) ≤ length t
length-cut_at t none e = omega arith
length-cut_at t (some u) e = length-before_last_space t u e

length-or_new :
    (t : Text) (limit : ℕ)
    → 16 ≤ limit
    → length t ≤ limit
    → (1 ≤ length (or_new t)) × (length (or_new t) ≤ limit + 1)
length-or_new [] limit h l = (omega arith, omega (arith, h))
length-or_new (c ∷ t) limit h l = (omega arith, omega (arith, l))

-- With a limit of sixteen or more, a title has a character and at most one more than the limit.
pub length-derive_title :
    (question : Text) (limit : ℕ)
    → 16 ≤ limit
    → (1 ≤ length (derive_title question limit))
      × (length (derive_title question limit) ≤ limit + 1)
unfolding derive_title
length-derive_title question limit h =
    let cleaned = join (32 ∷ []) (words_from [] question) in
    elim (Bool-cases (leb (length cleaned) limit)) [
      | inl short ↦ rw short (length-or_new cleaned limit h (leb→le (length cleaned) limit short))
      | inr long ↦
          let front = take limit cleaned in
          let kept = length-cut_at front (before_last_space front) refl in
          let sum = length-append (cut_at front (before_last_space front)) (0x2026 ∷ []) in
          rw long (omega (arith, sum), omega (arith, sum, kept, length-take limit cleaned))
    ]

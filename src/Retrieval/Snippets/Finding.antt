-- ===== src/Retrieval/Snippets/Finding.antt =====
-- Where `str.find` finds a term in backend/app/services/retrieval.py, and the parts of a text.
use secondbrain_ai.Prelude.{
  ℕ, ◌+◌, ◌-◌, ◌≤◌, zero, suc, ◌≡◌, refl, sym, ap, ◌∙◌, true, false, none, some, List, [], ◌∷◌, map,
  arith, length, take, drop, any, Bool-cases, Option-cases, inl, inr,
}
use secondbrain_ai.Prelude.Text.{Text, starts_with, contains}
use secondbrain_ai.Retrieval.Snippets.{find, first_position}
use mathlib.Core.List.{Memᴰ}

find-some : (p t : Text) (n : ℕ) → find p t ≡ some n → starts_with p (drop n t) ≡ true
unfolding find
find-some p [] n h = elim (Bool-cases (starts_with p [])) [
  | inl here ↦ let at : some 0 ≡ some n = rw here at h in let e : n ≡ 0 = ground arith in rw e here
  | inr no_match ↦ let at : none ≡ some n = rw no_match at h in cc
]
find-some p (c ∷ t) n h = elim (Bool-cases (starts_with p (c ∷ t))) [
  | inl here ↦ let at : some 0 ≡ some n = rw here at h in let e : n ≡ 0 = ground arith in rw e here
  | inr no_match ↦ elim (Option-cases (find p t)) [
    | inl absent ↦ let at : none ≡ some n = rw (no_match, absent) at h in cc
    | inr (m, found) ↦
        let at : some (suc m) ≡ some n = rw (no_match, found) at h in
        let e : n ≡ suc m = ground arith in rw e (find-some p t m found)
  ]
]

find-none : (p t : Text) → find p t ≡ none → contains p t ≡ false
unfolding find contains
find-none p [] h = ground arith
find-none p (c ∷ t) h = elim (Bool-cases (starts_with p (c ∷ t))) [
  | inl here ↦ let at : some 0 ≡ none = rw here at h in cc
  | inr no_match ↦ elim (Option-cases (find p t)) [
    | inl absent ↦ rw no_match (find-none p t absent)
    | inr (m, found) ↦ let at : some (suc m) ≡ none = rw (no_match, found) at h in cc
  ]
]

pub starts_with-take :
    (p t : Text) (n : ℕ) → starts_with p t ≡ true → length p ≤ n → starts_with p (take n t) ≡ true
unfolding starts_with
starts_with-take [] t n h l = refl
starts_with-take (c ∷ p) [] n h l = cc
starts_with-take (c ∷ p) (d ∷ t) zero h l = ground arith
starts_with-take (c ∷ p) (d ∷ t) (suc n) h l = ground (arith, starts_with-take p t n)

pub length-starts_with : (p t : Text) → starts_with p t ≡ true → length p ≤ length t
unfolding starts_with
length-starts_with [] t h = omega arith
length-starts_with (c ∷ p) [] h = cc
length-starts_with (c ∷ p) (d ∷ t) h = ground (arith, length-starts_with p t)

pub starts_with→contains : (p t : Text) → starts_with p t ≡ true → contains p t ≡ true
unfolding contains
starts_with→contains p [] h = h
starts_with→contains p (c ∷ t) h = rw h refl

pub contains-drop : (p t : Text) (n : ℕ) → contains p (drop n t) ≡ true → contains p t ≡ true
unfolding contains
contains-drop p t zero h = h
contains-drop p [] (suc n) h = h
contains-drop p (c ∷ t) (suc n) h = ground (arith, contains-drop p t n h)

drop_nil : (n : ℕ) → drop {A = ℕ} n [] ≡ []
drop_nil zero = refl
drop_nil (suc n) = refl

take_nil : (n : ℕ) → take {A = ℕ} n [] ≡ []
take_nil zero = refl
take_nil (suc n) = refl

pub drop-take : (k m : ℕ) (t : Text) → drop k (take m t) ≡ take (m - k) (drop k t)
drop-take zero m t = let e : m ≡ m - 0 = omega arith in ap (λ x. take x t) e
drop-take (suc k) zero t =
    let e : 0 ≡ 0 - suc k = omega arith in drop_nil (suc k) ∙ ap (λ x. take x (drop (suc k) t)) e
drop-take (suc k) (suc m) [] = sym (take_nil (suc m - suc k))
drop-take (suc k) (suc m) (c ∷ t) =
    let e : m - k ≡ suc m - suc k = omega arith in drop-take k m t ∙ ap (λ x. take x (drop k t)) e

pub drop-drop : (k n : ℕ) (t : Text) → drop k (drop n t) ≡ drop (n + k) t
drop-drop k zero t = let e : k ≡ 0 + k = omega arith in ap (λ x. drop x t) e
drop-drop k (suc n) [] = drop_nil k ∙ sym (drop_nil (suc n + k))
drop-drop k (suc n) (c ∷ t) =
    let e : suc (n + k) ≡ suc n + k = omega arith in drop-drop k n t ∙ ap (λ x. drop x (c ∷ t)) e

pub map-take : (f : ℕ → ℕ) (n : ℕ) (t : Text) → map f (take n t) ≡ take n (map f t)
map-take f zero t = refl
map-take f (suc n) [] = refl
map-take f (suc n) (c ∷ t) = ap (λ x. f c ∷ x) (map-take f n t)

pub map-drop : (f : ℕ → ℕ) (n : ℕ) (t : Text) → map f (drop n t) ≡ drop n (map f t)
map-drop f zero t = refl
map-drop f (suc n) [] = refl
map-drop f (suc n) (c ∷ t) = map-drop f n t

pub length-map : (f : ℕ → ℕ) (t : Text) → length (map f t) ≡ length t
length-map f [] = refl
length-map f (c ∷ t) = omega (arith, length-map f t)

pub first_position-some :
    (terms : List Text) (low : Text) (n : ℕ)
    → first_position terms low ≡ some n
    → (term : Text) × Memᴰ term terms × (starts_with term (drop n low) ≡ true)
unfolding first_position
first_position-some [] low n h = cc
first_position-some (term ∷ terms) low n h = elim (Option-cases (find term low)) [
  | inl absent ↦
      let others : first_position terms low ≡ some n = rw (first_position, absent) at h in
      let (t, m, s) = first_position-some terms low n others in (t, Memᴰ.tail m, s)
  | inr (m, found) ↦
      let at : some m ≡ some n = rw (first_position, found) at h in
      let e : m ≡ n = ground arith in
      (term, Memᴰ.head refl, find-some term low n (found ∙ ap some e))
]

pub first_position-none :
    (terms : List Text) (low : Text)
    → first_position terms low ≡ none
    → any (λ t. contains t low) terms ≡ false
unfolding first_position
first_position-none [] low h = refl
first_position-none (term ∷ terms) low h = elim (Option-cases (find term low)) [
  | inl absent ↦
      let others : first_position terms low ≡ none = rw (first_position, absent) at h in
      rw (find-none term low absent) (first_position-none terms low others)
  | inr (m, found) ↦ let at : some m ≡ none = rw (first_position, found) at h in cc
]

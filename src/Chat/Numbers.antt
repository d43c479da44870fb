-- ===== src/Chat/Numbers.antt =====
-- `_referenced_numbers` of backend/app/services/chat.py, and numbers in decimal.
use secondbrain_ai.Prelude.{
  ℕ, ◌+◌, ◌*◌, ◌/◌, ◌%◌, ◌≤◌, ◌<◌, ◌≡◌, refl, ◌∙◌, arith, Bool-cases, inl, inr, zero, suc, Bool,
  true, false, ◌||◌, Option, none, some, List, [], ◌∷◌, ◌++◌, all, ltb, ◌==◌, if◌then◌else◌,
}
use secondbrain_ai.Prelude.Text.{Text, is_space, strip}

-- The value of a digit, by the interpreter's Unicode tables.
abbrev pub Digits : Type 0
Digits = ℕ → Option ℕ

abbrev pub is_digit : Digits → ℕ → Bool
is_digit digits c = elim (digits c) [ none ↦ false | some d ↦ true ]

-- A character of `[\d\s,]`.
unfoldable pub in_reference : Digits → ℕ → Bool
unfolding is_space
in_reference digits c = is_digit digits c || is_space c || c == 44

abbrev pub closed : Option Text → List Text → List Text
closed none found = found
closed (some []) found = found
closed (some (c ∷ run)) found = (c ∷ run) ∷ found

abbrev pub extended : Option Text → ℕ → Option Text
extended none c = none
extended (some run) c = some (run ++ c ∷ [])

-- `re.finditer(r"\[([\d\s,]+)\]", text)`: the groups, with the run since a bracket that may be one.
unfoldable pub references : Digits → Option Text → Text → List Text
unfolding in_reference
references digits seen [] = []
references digits seen (c ∷ t) =
    let fresh = references digits (some []) t in
    let after = references digits none t in
    let further = references digits (extended seen c) t in
    if c == 91
    then fresh
    else if c == 93
    then closed seen after
    else if in_reference digits c
    then further
    else after

-- `text.split(",")`, with the part since the last comma.
unfoldable pub split_commas : Text → Text → List Text
split_commas part [] = part ∷ []
split_commas part (c ∷ t) =
    let here = split_commas [] t in
    let more = split_commas (part ++ c ∷ []) t in if c == 44 then part ∷ here else more

abbrev pub digit_of : Option ℕ → ℕ
digit_of none = 0
digit_of (some d) = d

-- `int(token)`, from a value on.
unfoldable pub value_from : Digits → ℕ → Text → ℕ
value_from digits n [] = n
value_from digits n (c ∷ t) = value_from digits (n * 10 + digit_of (digits c)) t

-- The number of a token that is one.
abbrev pub add_number : Digits → Text → List ℕ → List ℕ
unfolding value_from
add_number digits [] ns = ns
add_number digits (c ∷ t) ns =
    if all (is_digit digits) (c ∷ t) then value_from digits 0 (c ∷ t) ∷ ns else ns

unfoldable pub numbers_of : Digits → List Text → List ℕ
unfolding strip add_number
numbers_of digits [] = []
numbers_of digits (token ∷ tokens) = add_number digits (strip token) (numbers_of digits tokens)

unfoldable pub all_numbers : Digits → List Text → List ℕ
unfolding numbers_of split_commas
all_numbers digits [] = []
all_numbers digits (group ∷ groups) =
    numbers_of digits (split_commas [] group) ++ all_numbers digits groups

-- `_referenced_numbers`
unfoldable pub referenced_numbers : Digits → Text → List ℕ
unfolding all_numbers references
referenced_numbers digits text = all_numbers digits (references digits none text)

-- A number in decimal: the first argument bounds the digits, and the number itself is enough.
unfoldable decimal_from : ℕ → ℕ → Text
decimal_from zero n = []
decimal_from (suc fuel) n =
    let front = decimal_from fuel (n / 10) in
    if ltb n 10 then (48 + n) ∷ [] else front ++ (48 + n % 10) ∷ []

unfoldable pub decimal : ℕ → Text
unfolding decimal_from
decimal n = decimal_from (suc n) n

-- The digits of ASCII have their values.
abbrev pub KnowsAscii : Digits → Type 0
KnowsAscii digits = (d : ℕ) → d < 10 → digits (48 + d) ≡ some d

value_from-append :
    (digits : Digits) (n c : ℕ) (t : Text)
    → value_from digits n (t ++ c ∷ []) ≡ value_from digits n t * 10 + digit_of (digits c)
unfolding value_from
value_from-append digits n c [] = refl
value_from-append digits n c (d ∷ t) = value_from-append digits (n * 10 + digit_of (digits d)) c t

value_from-decimal_from :
    (digits : Digits) (fuel n : ℕ)
    → KnowsAscii digits
    → n < fuel
    → value_from digits 0 (decimal_from fuel n) ≡ n
unfolding decimal_from value_from
value_from-decimal_from digits zero n known h = absurd (omega (arith, h))
value_from-decimal_from digits (suc fuel) n known h = elim (Bool-cases (ltb n 10)) [
  | inl small ↦
      let e : digits (48 + n) ≡ some n = known n (ground arith) in rw (small, e) (omega arith)
  | inr large ↦
      let big : 10 ≤ n = ground arith in
      let e : digits (48 + n % 10) ≡ some (n % 10) = known (n % 10) (omega arith) in
      let front = value_from-decimal_from digits fuel (n / 10) known (omega (arith, h, big)) in
      let last = value_from-append digits 0 (48 + n % 10) (decimal_from fuel (n / 10)) in
      rw large (last ∙ rw (front, e) (omega arith))
]

-- The number that a source bears in the prompt is read back from its digits, whatever its size.
pub value_from-decimal :
    (digits : Digits) (n : ℕ) → KnowsAscii digits → value_from digits 0 (decimal n) ≡ n
unfolding decimal
value_from-decimal digits n known = value_from-decimal_from digits (suc n) n known (omega arith)

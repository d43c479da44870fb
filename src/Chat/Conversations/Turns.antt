-- ===== src/Chat/Conversations/Turns.antt =====
-- The messages of a conversation before and after a turn.
use secondbrain_ai.Prelude.{
  ℕ, suc, append-nil, ap, ◌<◌, ◌≤◌, ◌≡◌, refl, inl, inr, arith, Bool, true, false, ◌&&◌, List, [],
  ◌∷◌, ◌++◌, keep_if, leb, All, Bool-cases, ◌==◌, if◌then◌else◌,
}
use secondbrain_ai.Chat.Conversations.{
  ChatMessage, insert_by_ordinal, order_by_ordinal, is_of, list_for_conversation, next_ordinal,
}

module _ (m : ChatMessage) where
  insert_before_last :
      (x : ChatMessage) (xs : List ChatMessage)
      → x.ordinal < m.ordinal
      → insert_by_ordinal x (xs ++ m ∷ []) ≡ insert_by_ordinal x xs ++ m ∷ []
  unfolding insert_by_ordinal
  insert_before_last x [] h = ground (arith, h)
  insert_before_last x (y ∷ ys) h =
      let rest = insert_before_last x ys h in
      elim (Bool-cases (leb x.ordinal y.ordinal)) [ inl e ↦ rw e refl | inr e ↦ rw (e, rest) refl ]

  -- A message whose ordinal is above all others comes last.
  order_append :
      (xs : List ChatMessage)
      → All (λ x. x.ordinal < m.ordinal) xs
      → order_by_ordinal (xs ++ m ∷ []) ≡ order_by_ordinal xs ++ m ∷ []
  unfolding order_by_ordinal insert_by_ordinal
  order_append [] h = refl
  order_append (x ∷ xs) (here, there) =
      rw (order_append xs there) (insert_before_last x (order_by_ordinal xs) here)

keep_append :
    (p : ChatMessage → Bool) (xs ys : List ChatMessage)
    → keep_if p (xs ++ ys) ≡ keep_if p xs ++ keep_if p ys
keep_append p [] ys = refl
keep_append p (x ∷ xs) ys =
    let rest = keep_append p xs ys in
    elim (Bool-cases (p x)) [ inl e ↦ rw (e, rest) refl | inr e ↦ rw (e, rest) refl ]

-- One step of `next_ordinal`.
abbrev after_one : Bool → ℕ → ℕ → ℕ
after_one own o rest = if own && leb rest o then suc o else rest

after_one-above-rest : (own : Bool) (o rest : ℕ) → rest ≤ after_one own o rest
after_one-above-rest false o rest = omega arith
after_one-above-rest true o rest = ground arith

after_one-above : (own : Bool) (o rest : ℕ) → own ≡ true → o < after_one own o rest
after_one-above own o rest h = rw h (ground arith)

after_one_bound :
    (own : Bool) (o rest n : ℕ) → rest ≤ n → (own ≡ true → o < n) → after_one own o rest ≤ n
after_one_bound false o rest n h q = h
after_one_bound true o rest n h q = ground (arith, h, q refl)

-- The messages of a conversation lie below its next ordinal.
keep-Below :
    (c owner n : ℕ) (ms : List ChatMessage)
    → next_ordinal c ms ≤ n
    → All (λ x. x.ordinal < n) (keep_if (is_of c owner) ms)
unfolding next_ordinal
keep-Below c owner n [] h = tt
keep-Below c owner n (m ∷ ms) h =
    let low = after_one-above-rest (m.conversation_id == c) m.ordinal (next_ordinal c ms) in
    let rest = keep-Below c owner n ms (omega (arith, low, h)) in
    elim (Bool-cases (m.conversation_id == c)) [
      | inl e ↦ elim (Bool-cases (m.owner_id == owner)) [
        | inl f ↦
            let below = after_one-above (m.conversation_id == c) m.ordinal (next_ordinal c ms) e in
            rw (e, f) (omega (arith, below, h), rest)
        | inr f ↦ rw (e, f) rest
      ]
      | inr e ↦ rw e rest
    ]

pub next_ordinal-append :
    (c n : ℕ) (ms : List ChatMessage) (m : ChatMessage)
    → next_ordinal c ms ≤ n
    → m.ordinal < n
    → next_ordinal c (ms ++ m ∷ []) ≤ n
unfolding next_ordinal
next_ordinal-append c n [] m h q = after_one_bound (m.conversation_id == c) m.ordinal 0 n h (λ e. q)
next_ordinal-append c n (x ∷ ms) m h q =
    let own = x.conversation_id == c in
    let low = after_one-above-rest own x.ordinal (next_ordinal c ms) in
    let rest = next_ordinal-append c n ms m (omega (arith, low, h)) q in
    after_one_bound own x.ordinal (next_ordinal c (ms ++ m ∷ [])) n rest (λ e.
      let above = after_one-above own x.ordinal (next_ordinal c ms) e in omega (arith, above, h))

module _ (c owner : ℕ) (ms : List ChatMessage) (m : ChatMessage) where
  -- A message of the conversation whose ordinal is not below the next is listed last.
  pub list-append :
      is_of c owner m ≡ true
      → next_ordinal c ms ≤ m.ordinal
      → list_for_conversation c owner (ms ++ m ∷ []) ≡ list_for_conversation c owner ms ++ m ∷ []
  unfolding list_for_conversation
  list-append h above =
      rw (keep_append (is_of c owner) ms (m ∷ []), h)
        (order_append m (keep_if (is_of c owner) ms) (keep-Below c owner m.ordinal ms above))

  pub list_append_other :
      is_of c owner m ≡ false
      → list_for_conversation c owner (ms ++ m ∷ []) ≡ list_for_conversation c owner ms
  unfolding list_for_conversation
  list_append_other h =
      rw (keep_append (is_of c owner) ms (m ∷ []), h)
        (ap order_by_ordinal (append-nil (keep_if (is_of c owner) ms)))

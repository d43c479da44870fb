-- ===== src/Chat/Conversations/Questions.antt =====
-- What a turn promises of its conversation, and the conversation that a question is put to.
use secondbrain_ai.Prelude.{
  ℕ, ◌+◌, ap, sym, ◌∙◌, ◌≡◌, ◌≢◌, ◌⊎◌, refl, inl, inr, Bool, true, false, ◌&&◌, Option, none, some,
  List, [], ◌∷◌, ◌++◌, Bool-cases, ◌==◌, ==_iff,
}
use mathlib.Core.List.{Memᴰ}
use secondbrain_ai.Prelude.Outcome.{Outcome, ok, raised}
use secondbrain_ai.Prelude.Text.{Text}
use secondbrain_ai.Chat.{user, assistant, Answer}
use secondbrain_ai.Chat.Conversations.{
  Conversation, ChatMessage, Rows, AskRequest, Drawn, Asked, StreamError, Streamed,
  list_for_conversation, conversation_of_owner, touch, existing_or_refused, resolved, event_stream,
}

-- The conversation is the one that the request names, a stored one of the owner's, or, if it names
-- none, the one that it begins.
abbrev pub Granted : Drawn → AskRequest → ℕ → Rows → ℕ → Type 0
Granted drawn payload owner rows c =
    ((payload.conversation_id ≡ some c)
      × ((row : Conversation) × Memᴰ row rows.conversations
          × (row.id ≡ c)
          × (row.owner_id ≡ owner)))
    ⊎ (payload.conversation_id ≡ none) × (c ≡ drawn.conversation_id)

abbrev pub question_of : Drawn → AskRequest → ℕ → Asked → ChatMessage
question_of drawn payload owner asked = record {
  id = drawn.question_id;
  conversation_id = asked.conversation;
  owner_id = owner;
  ordinal = asked.ordinal;
  role = user;
  content = payload.question;
  citations = [];
}

-- The answer's row, if the stream ended with an answer and saving it raised nothing.
abbrev pub answers_of :
    Drawn → ℕ → Asked → Option Text → Outcome StreamError Answer → List ChatMessage
answers_of drawn owner asked (some e) ended = []
answers_of drawn owner asked none (raised e) = []
answers_of drawn owner asked none (ok answer) =
    record {
      id = drawn.answer_id;
      conversation_id = asked.conversation;
      owner_id = owner;
      ordinal = asked.ordinal + 1;
      role = assistant;
      content = answer.text;
      citations = answer.citations;
    }
    ∷ []

pub record Kept (drawn : Drawn) (payload : AskRequest) (owner : ℕ) (refused : Option Text)
    (answering : List ChatMessage → Streamed) (rows : Rows) (asked : Asked) : Type 0 where
  pub granted : Granted drawn payload owner rows asked.conversation
  pub told : asked.history ≡ list_for_conversation asked.conversation owner rows.messages
  pub listed :
      list_for_conversation asked.conversation owner
        (event_stream drawn owner refused answering asked).1.messages
      ≡ asked.history
        ++ question_of drawn payload owner asked
          ∷ answers_of drawn owner asked refused (answering asked.history).ended
  pub others :
      (c o : ℕ)
      → c ≢ asked.conversation
      → list_for_conversation c o (event_stream drawn owner refused answering asked).1.messages
        ≡ list_for_conversation c o rows.messages

are_ids : (a b c d : ℕ) → (a == b && c == d) ≡ true → (a ≡ b) × (c ≡ d)
are_ids a b c d h = elim (Bool-cases (a == b)) [
  | inl e ↦ ((==_iff a b).0 e, (==_iff c d).0 (rw e at h))
  | inr e ↦ cc (rw e at h)
]

found_row :
    (id owner : ℕ) (cs : List Conversation) (row : Conversation)
    → conversation_of_owner id owner cs ≡ some row
    → Memᴰ row cs × (row.id ≡ id) × (row.owner_id ≡ owner)
unfolding conversation_of_owner
found_row id owner [] row h = cc
found_row id owner (c ∷ cs) row h = elim (Bool-cases (c.id == id && c.owner_id == owner)) [
  | inl e ↦
      let found = rw e at h in
      let same : row ≡ c = cc in
      let (named, owned) = are_ids c.id id c.owner_id owner e in
      (
        Memᴰ.head same,
        ap (λ (x : Conversation). x.id) same ∙ named,
        ap (λ (x : Conversation). x.owner_id) same ∙ owned,
      )
  | inr e ↦
      let (m, named, owned) = found_row id owner cs row (rw e at h) in (Memᴰ.tail m, named, owned)
]

abbrev or_else_pair : ℕ × Rows → Option (ℕ × Rows) → ℕ × Rows
or_else_pair r none = r
or_else_pair r (some x) = x

-- What `_resolve_conversation` returns: its conversation, with the messages as they were.
module _ (drawn : Drawn) (payload : AskRequest) (owner : ℕ) (rows : Rows) where
  resolved_found :
      (id : ℕ) (found : Option Conversation) (r : ℕ × Rows)
      → payload.conversation_id ≡ some id
      → conversation_of_owner id owner rows.conversations ≡ found
      → existing_or_refused drawn rows found ≡ some r
      → Granted drawn payload owner rows r.0 × (r.1.messages ≡ rows.messages)
  unfolding existing_or_refused
  resolved_found id none r given q h = cc
  resolved_found id (some c) r given q h =
      let same : (c.id, record rows { conversations = touch drawn.now 2 c.id rows.conversations })
          ≡ r =
        cc in
      let (m, named, owned) = found_row id owner rows.conversations c q in
      let is_c : r.0 ≡ c.id = ap (λ (x : ℕ × Rows). x.0) (sym same) in
      (
        inl (given ∙ ap {B = Option ℕ} some (sym named ∙ sym is_c), (c, m, sym is_c, owned)),
        ap (λ (x : ℕ × Rows). x.1.messages) (sym same),
      )

  pub resolved-Granted :
      (given : Option ℕ) (r : ℕ × Rows)
      → payload.conversation_id ≡ given
      → resolved given drawn payload owner rows ≡ some r
      → Granted drawn payload owner rows r.0 × (r.1.messages ≡ rows.messages)
  unfolding resolved existing_or_refused
  resolved-Granted (some id) r q h =
      resolved_found id (conversation_of_owner id owner rows.conversations) r q refl h
  resolved-Granted none r q h =
      let same = ap (or_else_pair r) h in
      (
        inr (q, ap (λ (x : ℕ × Rows). x.0) (sym same)),
        ap (λ (x : ℕ × Rows). x.1.messages) (sym same),
      )

pub is_of_own : (c owner : ℕ) → (c == c && owner == owner) ≡ true
is_of_own c owner = rw ((==_iff c c).1 refl, (==_iff owner owner).1 refl) refl

pub is_of_other : (c c' : ℕ) (q : Bool) → c' ≢ c → (c == c' && q) ≡ false
is_of_other c c' q h = elim (Bool-cases (c == c')) [
  | inl e ↦ absurd (h (sym ((==_iff c c').0 e)))
  | inr e ↦ rw e refl
]

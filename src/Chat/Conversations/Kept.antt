-- ===== src/Chat/Conversations/Kept.antt =====
-- What a turn leaves in the conversation, whatever the model does.
use secondbrain_ai.Prelude.{
  ℕ, ◌+◌, ap, subst, ◌∙◌, append_assoc, ◌≡◌, ◌≢◌, refl, arith, Option, none, some, List, [], ◌∷◌,
  ◌++◌, ◌==◌, chain,
}
use secondbrain_ai.Prelude.Outcome.{Outcome, ok, raised}
use secondbrain_ai.Prelude.Text.{Text}
use secondbrain_ai.Chat.{assistant, Answer}
use secondbrain_ai.Chat.Conversations.{
  ChatMessage, Rows, AskRequest, Drawn, Asked, StreamError, Streamed, list_for_conversation,
  resolve_conversation, add_question, add_message, ask, persist_answer, close_stream, event_stream,
}
use secondbrain_ai.Chat.Conversations.Turns.{list-append, list_append_other, next_ordinal-append}
use secondbrain_ai.Chat.Conversations.Questions.{
  Granted, question_of, answers_of, Kept, resolved-Granted, is_of_own, is_of_other,
}

module _ (drawn : Drawn) (payload : AskRequest) (owner : ℕ) (r : ℕ × Rows) where
  abbrev added : Asked
  unfolding add_question
  added = add_question drawn payload owner r

  abbrev question : ChatMessage
  unfolding added
  question = question_of drawn payload owner added

  abbrev answered : Answer → ChatMessage
  unfolding added
  answered answer = record {
    id = drawn.answer_id;
    conversation_id = r.0;
    owner_id = owner;
    ordinal = added.ordinal + 1;
    role = assistant;
    content = answer.text;
    citations = answer.citations;
  }

  question_listed :
      list_for_conversation r.0 owner (r.1.messages ++ question ∷ [])
      ≡ list_for_conversation r.0 owner r.1.messages ++ question ∷ []
  unfolding add_question added question
  question_listed = list-append r.0 owner r.1.messages question (is_of_own r.0 owner) (omega arith)

  closed_listed :
      (refused : Option Text) (ended : Outcome StreamError Answer)
      → list_for_conversation r.0 owner (close_stream drawn owner refused added ended).1.messages
        ≡ added.history ++ question ∷ answers_of drawn owner added refused ended
  unfolding add_question added question answered close_stream add_message persist_answer
  closed_listed (some e) (raised x) = question_listed
  closed_listed none (raised x) = question_listed
  closed_listed (some e) (ok answer) = question_listed
  closed_listed none (ok answer) =
      let ms = r.1.messages in
      let low =
        next_ordinal-append r.0 (added.ordinal + 1) ms question (omega arith) (omega arith) in
      list-append r.0 owner (ms ++ question ∷ []) (answered answer) (is_of_own r.0 owner) low
      ∙ ap (λ xs. xs ++ answered answer ∷ []) question_listed
      ∙ append_assoc (list_for_conversation r.0 owner ms) (question ∷ []) (answered answer ∷ [])

  other_listed :
      (c o : ℕ) (ms : List ChatMessage) (m : ChatMessage)
      → c ≢ r.0
      → m.conversation_id ≡ r.0
      → list_for_conversation c o (ms ++ m ∷ []) ≡ list_for_conversation c o ms
  other_listed c o ms m h of =
      list_append_other c o ms m (rw of (is_of_other r.0 c (m.owner_id == o) h))

  closed_others :
      (c o : ℕ) (refused : Option Text) (ended : Outcome StreamError Answer)
      → c ≢ r.0
      → list_for_conversation c o (close_stream drawn owner refused added ended).1.messages
        ≡ list_for_conversation c o r.1.messages
  unfolding add_question added question answered close_stream add_message persist_answer
  closed_others c o (some e) (raised x) h = other_listed c o r.1.messages question h refl
  closed_others c o none (raised x) h = other_listed c o r.1.messages question h refl
  closed_others c o (some e) (ok answer) h = other_listed c o r.1.messages question h refl
  closed_others c o none (ok answer) h =
      other_listed c o (r.1.messages ++ question ∷ []) (answered answer) h refl
      ∙ other_listed c o r.1.messages question h refl

  -- What holds of the question that was added, for a conversation with the messages that the rows had.
  added-Kept :
      (rows : Rows) (refused : Option Text) (answering : List ChatMessage → Streamed)
      → Granted drawn payload owner rows r.0
      → r.1.messages ≡ rows.messages
      → Kept drawn payload owner refused answering rows added
  unfolding add_question added event_stream
  added-Kept rows refused answering granted same = record {
    granted = granted;
    told = ap (list_for_conversation r.0 owner) same;
    listed = closed_listed refused (answering added.history).ended;
    others = λ c o h.
        closed_others c o refused (answering added.history).ended h
        ∙ ap (list_for_conversation c o) same;
  }

module _ (drawn : Drawn) (payload : AskRequest) (owner : ℕ) (refused : Option Text)
    (answering : List ChatMessage → Streamed) (rows : Rows) (asked : Asked) where
  found-Kept :
      (found : Option (ℕ × Rows))
      → resolve_conversation drawn payload owner rows ≡ found
      → chain found (λ r. some (add_question drawn payload owner r)) ≡ some asked
      → Kept drawn payload owner refused answering rows asked
  unfolding resolve_conversation added
  found-Kept none q h = cc
  found-Kept (some r) q h =
      let (granted, same) =
        resolved-Granted drawn payload owner rows payload.conversation_id r refl q in
      let given : add_question drawn payload owner r ≡ asked = cc in
      subst (Kept drawn payload owner refused answering rows) given
        (added-Kept drawn payload owner r rows refused answering granted same)

-- When a question is accepted, its conversation is the one that the request names, which is stored and the
-- owner's, or a new one where it names none; the messages that the conversation had are handed to `answer`;
-- and afterwards the conversation lists those in the same order, then the question, then the answer with its
-- citations, if the model finished and saving the answer raised nothing, and else nothing more; the messages of
-- no other conversation change.
pub ask-Kept :
    (drawn : Drawn) (payload : AskRequest) (owner : ℕ) (refused : Option Text)
    (answering : List ChatMessage → Streamed) (rows : Rows) (asked : Asked)
    → ask drawn payload owner rows ≡ some asked
    → Kept drawn payload owner refused answering rows asked
unfolding ask
ask-Kept drawn payload owner refused answering rows asked h =
    found-Kept drawn payload owner refused answering rows asked
      (resolve_conversation drawn payload owner rows) refl h

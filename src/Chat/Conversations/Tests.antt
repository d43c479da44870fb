-- ===== src/Chat/Conversations/Tests.antt =====
-- Turns of a conversation at concrete inputs.
use secondbrain_ai.Prelude.{ℕ, ◌≡◌, refl, Option, none, some, List, [], ◌∷◌}
use secondbrain_ai.Prelude.Outcome.{ok, raised}
use secondbrain_ai.Prelude.Text.{codes}
use secondbrain_ai.Chat.{user}
use secondbrain_ai.Chat.Conversations.{
  Conversation, ChatMessage, Rows, AskRequest, Drawn, Asked, llm_unavailable, Streamed,
  add_question, resolved, existing_or_refused, ask, event_stream, list_for_conversation,
  delete_conversation,
}
use secondbrain_ai.Chat.Conversations.Questions.{Kept}
use secondbrain_ai.Chat.Conversations.Kept.{ask-Kept}

abbrev row : ℕ → ℕ → Conversation
row id owner = record {
  id = id;
  owner_id = owner;
  title = [];
  scope_document_ids = [];
  message_count = 0;
  updated_at = 0;
}

abbrev said : ℕ → ℕ → ℕ → ChatMessage
said id conversation ordinal = record {
  id = id;
  conversation_id = conversation;
  owner_id = 7;
  ordinal = ordinal;
  role = user;
  content = [];
  citations = [];
}

abbrev stored : Rows
stored = record {
  conversations = row 1 7 ∷ row 2 8 ∷ [];
  messages = said 11 1 1 ∷ said 10 1 0 ∷ [];
}

abbrev question_to : ℕ → AskRequest
question_to conversation = record {
  question = codes "why?";
  conversation_id = some conversation;
  document_ids = [];
}

abbrev draws : Drawn
draws = record { now = 5; conversation_id = 3; question_id = 12; answer_id = 13 }

abbrev because : List ChatMessage → Streamed
because history = record {
  tokens = codes "so" ∷ [] ∷ [];
  ended = ok record { citations = []; text = codes "so"; asked = none };
}

abbrev offline : List ChatMessage → Streamed
offline history = record { tokens = []; ended = raised (llm_unavailable (codes "ollama")) }

abbrev ids : List ChatMessage → List ℕ
ids [] = []
ids (m ∷ ms) = m.id ∷ ids ms

abbrev listed_ids : Option Asked → (List ChatMessage → Streamed) → List ℕ
unfolding event_stream list_for_conversation
listed_ids none answering = []
listed_ids (some asked) answering =
    ids (list_for_conversation 1 7 (event_stream draws 7 none answering asked).1.messages)

-- The question and the answer follow the two messages that were stored.
turn_example : listed_ids (ask draws (question_to 1) 7 stored) because ≡ 10 ∷ 11 ∷ 12 ∷ 13 ∷ []
unfolding ask listed_ids resolved existing_or_refused
turn_example = refl

-- A model that cannot be reached leaves the question alone.
offline_example : listed_ids (ask draws (question_to 1) 7 stored) offline ≡ 10 ∷ 11 ∷ 12 ∷ []
unfolding ask listed_ids resolved existing_or_refused
offline_example = refl

-- The conversation of another owner is not found.
refused_example : ask draws (question_to 2) 7 stored ≡ none
unfolding ask resolved existing_or_refused
refused_example = refl

deleted_example :
    delete_conversation 1 7 stored ≡ some record { conversations = row 2 8 ∷ []; messages = [] }
unfolding delete_conversation
deleted_example = refl

abbrev asked_now : Asked
unfolding add_question
asked_now = add_question draws (question_to 1) 7 (
  1,
  record stored {
    conversations = record (row 1 7) { message_count = 2; updated_at = 5 } ∷ row 2 8 ∷ [];
  },
)

accepted : ask draws (question_to 1) 7 stored ≡ some asked_now
unfolding ask asked_now resolved existing_or_refused
accepted = refl

ask-Kept_example : Kept draws (question_to 1) 7 none because stored asked_now
ask-Kept_example = ask-Kept draws (question_to 1) 7 none because stored asked_now accepted

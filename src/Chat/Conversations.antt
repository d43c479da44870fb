-- ===== src/Chat/Conversations.antt =====
-- The handler ask of backend/app/api/v1/routes/chat.py with its stream of events, persist_answer of
-- backend/app/services/chat.py, and the queries of backend/app/repositories/conversation.py.
pub mod Questions
pub mod Turns
pub mod Kept
mod Tests
use secondbrain_ai.Prelude.{
  ℕ, suc, ◌+◌, Bool, true, false, ◌&&◌, not, Option, none, some, List, [], ◌∷◌, ◌++◌, map, keep_if,
  leb, ◌==◌, if◌then◌else◌, chain,
}
use secondbrain_ai.Prelude.Outcome.{Outcome, ok, raised}
use secondbrain_ai.Prelude.Text.{Text, codes}
use secondbrain_ai.Chat.{Role, user, assistant, Citation, Answer}
use secondbrain_ai.Chat.Titles.{derive_title}

-- `Conversation`, whose scope is never written by a request.
pub record Conversation : Type 0 where
  pub id : ℕ
  pub owner_id : ℕ
  pub title : Text
  pub scope_document_ids : List ℕ
  pub message_count : ℕ
  pub updated_at : ℕ

-- `ChatMessage`, without the model and the latency.
pub record ChatMessage : Type 0 where
  pub id : ℕ
  pub conversation_id : ℕ
  pub owner_id : ℕ
  pub ordinal : ℕ
  pub role : Role
  pub content : Text
  pub citations : List Citation

pub record Rows : Type 0 where
  pub conversations : List Conversation
  pub messages : List ChatMessage

-- `ORDER BY ordinal`; equal ordinals, which SQL gives in any order, stay in the order of the table.
unfoldable pub insert_by_ordinal : ChatMessage → List ChatMessage → List ChatMessage
insert_by_ordinal m [] = m ∷ []
insert_by_ordinal m (x ∷ xs) =
    let rest = insert_by_ordinal m xs in if leb m.ordinal x.ordinal then m ∷ x ∷ xs else x ∷ rest

unfoldable pub order_by_ordinal : List ChatMessage → List ChatMessage
unfolding insert_by_ordinal
order_by_ordinal [] = []
order_by_ordinal (m ∷ ms) = insert_by_ordinal m (order_by_ordinal ms)

-- The `WHERE` of `list_for_conversation`.
abbrev pub is_of : ℕ → ℕ → ChatMessage → Bool
is_of conversation owner m = m.conversation_id == conversation && m.owner_id == owner

-- `ChatMessageRepository.list_for_conversation`
unfoldable pub list_for_conversation : ℕ → ℕ → List ChatMessage → List ChatMessage
unfolding order_by_ordinal
list_for_conversation conversation owner ms =
    order_by_ordinal (keep_if (is_of conversation owner) ms)

-- `ChatMessageRepository.next_ordinal`: one more than the largest, and 0 where there is none.
unfoldable pub next_ordinal : ℕ → List ChatMessage → ℕ
next_ordinal conversation [] = 0
next_ordinal conversation (m ∷ ms) =
    let rest = next_ordinal conversation ms in
    if m.conversation_id == conversation && leb rest m.ordinal then suc m.ordinal else rest

-- `ConversationRepository.get_for_owner`
unfoldable pub conversation_of_owner : ℕ → ℕ → List Conversation → Option Conversation
conversation_of_owner id owner [] = none
conversation_of_owner id owner (c ∷ cs) =
    let rest = conversation_of_owner id owner cs in
    if c.id == id && c.owner_id == owner then some c else rest

-- A write to the row of a conversation, which sets the time of its last change.
unfoldable pub touch : ℕ → ℕ → ℕ → List Conversation → List Conversation
touch now more id cs =
    map
      (λ (c : Conversation).
        if c.id == id
        then record c { message_count = c.message_count + more; updated_at = now }
        else c)
      cs

-- `AskRequest`; a list of documents that is left out is empty.
pub record AskRequest : Type 0 where
  pub question : Text
  pub conversation_id : Option ℕ
  pub document_ids : List ℕ

-- What a request draws: the time, and identifiers for the rows that it may add.
pub record Drawn : Type 0 where
  pub now : ℕ
  pub conversation_id : ℕ
  pub question_id : ℕ
  pub answer_id : ℕ

abbrev pub existing_or_refused : Drawn → Rows → Option Conversation → Option (ℕ × Rows)
unfolding touch
existing_or_refused drawn rows none = none
existing_or_refused drawn rows (some c) =
    some (c.id, record rows { conversations = touch drawn.now 2 c.id rows.conversations })

abbrev pub resolved : Option ℕ → Drawn → AskRequest → ℕ → Rows → Option (ℕ × Rows)
unfolding conversation_of_owner derive_title
resolved (some id) drawn payload owner rows =
    existing_or_refused drawn rows (conversation_of_owner id owner rows.conversations)
resolved none drawn payload owner rows = some (
  drawn.conversation_id,
  record rows {
    conversations =
        rows.conversations
        ++ record {
          id = drawn.conversation_id;
          owner_id = owner;
          title = derive_title payload.question 60;
          scope_document_ids = payload.document_ids;
          message_count = 2;
          updated_at = drawn.now;
        }
          ∷ [];
  },
)

-- `_resolve_conversation`: none is NotFoundError.
unfoldable pub resolve_conversation : Drawn → AskRequest → ℕ → Rows → Option (ℕ × Rows)
resolve_conversation drawn payload owner rows =
    resolved payload.conversation_id drawn payload owner rows

unfoldable pub add_message : ChatMessage → Rows → Rows
add_message m rows = record rows { messages = rows.messages ++ m ∷ [] }

-- What `ask` has when it commits: the conversation, the messages before, the question's ordinal.
pub record Asked : Type 0 where
  pub conversation : ℕ
  pub history : List ChatMessage
  pub ordinal : ℕ
  pub rows : Rows

unfoldable pub add_question : Drawn → AskRequest → ℕ → ℕ × Rows → Asked
unfolding list_for_conversation next_ordinal add_message
add_question drawn payload owner (conversation, rows) =
    let ordinal = next_ordinal conversation rows.messages in
    record {
      conversation = conversation;
      history = list_for_conversation conversation owner rows.messages;
      ordinal = ordinal;
      rows =
          add_message
            record {
              id = drawn.question_id;
              conversation_id = conversation;
              owner_id = owner;
              ordinal = ordinal;
              role = user;
              content = payload.question;
              citations = [];
            }
            rows;
    }

-- `ask` until its commit: none is NotFoundError, which commits nothing.
unfoldable pub ask : Drawn → AskRequest → ℕ → Rows → Option Asked
unfolding resolve_conversation add_question
ask drawn payload owner rows =
    chain (resolve_conversation drawn payload owner rows)
      (λ found. some (add_question drawn payload owner found))

-- `persist_answer`, when nothing raises, at the time `now`.
unfoldable pub persist_answer : ℕ → ℕ → ℕ → ℕ → ℕ → Answer → Rows → Rows
unfolding add_message touch
persist_answer now id conversation owner ordinal answer rows =
    let added =
      add_message
        record {
          id = id;
          conversation_id = conversation;
          owner_id = owner;
          ordinal = ordinal;
          role = assistant;
          content = answer.text;
          citations = answer.citations;
        }
        rows in
    record added { conversations = touch now 0 conversation added.conversations }

-- What `answer` raises: LLMUnavailableError with its provider, or another exception with its text.
pub data StreamError : Type 0 where
  llm_unavailable other_error : Text → StreamError

-- A run of `answer`: the chunks that it yields, and its last state or what it raises after them.
pub record Streamed : Type 0 where
  pub tokens : List Text
  pub ended : Outcome StreamError Answer

-- The events of `event_stream`; the latency and the field with the provider's name are left out.
pub data ChatEvent : Type 0 where
  opened : ℕ → ChatEvent
  token : Text → ChatEvent
  citations : List Citation → ChatEvent
  done : ℕ → ℕ → ChatEvent
  error : Text → ChatEvent

unfoldable pub token_events : List Text → List ChatEvent
token_events [] = []
token_events ([] ∷ ts) = token_events ts
token_events ((c ∷ t) ∷ ts) = ChatEvent.token (c ∷ t) ∷ token_events ts

unfoldable pub error_event : StreamError → ChatEvent
error_event (llm_unavailable provider) = ChatEvent.error (
    codes "The "
    ++ (provider
        ++ codes " model is unavailable. Start it, or configure a different provider in settings."))
error_event (other_error e) = ChatEvent.error (codes "The answer failed midway: " ++ e)

-- The end of `event_stream`, given what saving the answer raises, if anything.
unfoldable pub close_stream :
    Drawn → ℕ → Option Text → Asked → Outcome StreamError Answer → List ChatEvent × Rows
unfolding persist_answer error_event
close_stream drawn owner refused asked (raised e) = (error_event e ∷ [], asked.rows)
close_stream drawn owner (some e) asked (ok answer) =
    (ChatEvent.citations answer.citations ∷ error_event (other_error e) ∷ [], asked.rows)
close_stream drawn owner none asked (ok answer) = (
  ChatEvent.citations answer.citations ∷ ChatEvent.done drawn.answer_id asked.conversation ∷ [],
  persist_answer drawn.now drawn.answer_id asked.conversation owner (asked.ordinal + 1) answer
      asked.rows,
)

-- `event_stream` after the commit of `ask`.
unfoldable pub event_stream :
    Drawn → ℕ → Option Text → (List ChatMessage → Streamed) → Asked → List ChatEvent × Rows
unfolding close_stream token_events
event_stream drawn owner refused answering asked =
    let streamed = answering asked.history in
    let (events, rows) = close_stream drawn owner refused asked streamed.ended in
    (ChatEvent.opened asked.conversation ∷ (token_events streamed.tokens ++ events), rows)

-- `delete_conversation` of an owner: none is NotFoundError. The messages go with their conversation.
unfoldable pub delete_conversation : ℕ → ℕ → Rows → Option Rows
unfolding conversation_of_owner
delete_conversation id owner rows = chain (conversation_of_owner id owner rows.conversations) (λ c.
    some (record {
      conversations = keep_if (λ (x : Conversation). not (x.id == id)) rows.conversations;
      messages = keep_if (λ (m : ChatMessage). not (m.conversation_id == id)) rows.messages;
    }))

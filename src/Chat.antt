-- ===== src/Chat.antt =====
-- backend/app/services/chat.py: an answer from the passages of a search, and what it cites.
pub mod Numbers
pub mod Grounded
pub mod Conversations
pub mod Titles
mod Tests
use Prim.Native.String.{String}
use secondbrain_ai.Prelude.{
  ℕ, ◌+◌, suc, Bool, true, false, not, Option, none, some, List, [], ◌∷◌, ◌++◌, map, flatten, take,
  take_last, keep_if, any, ◌==◌, if◌then◌else◌,
}
use secondbrain_ai.Prelude.Text.{Text, codes, strip, join}
use secondbrain_ai.Retrieval.Search.{SearchHit}
use secondbrain_ai.Chat.Numbers.{Digits, referenced_numbers, decimal}

-- `MessageRole`, `Role`, and the messages of a conversation and of a prompt.
pub data Role : Type 0 where
  system user assistant : Role

pub record Message : Type 0 where
  pub role : Role
  pub content : Text

-- `Citation`
pub record Citation : Type 0 where
  pub number : ℕ
  pub chunk_id : ℕ
  pub document_id : ℕ
  pub document_title : Text
  pub filename : Text
  pub snippet : Text
  pub page_number : Option ℕ
  pub section_title : Option Text

-- `_citation_for`
unfoldable pub citation_for : ℕ → SearchHit → Citation
citation_for number hit = record {
  number = number;
  chunk_id = hit.chunk_id;
  document_id = hit.document_id;
  document_title = hit.document_title;
  filename = hit.filename;
  snippet = hit.snippet;
  page_number = hit.page_number;
  section_title = hit.section_title;
}

-- The sources, numbered from here on.
unfoldable pub sources_from : ℕ → List SearchHit → List Citation
unfolding citation_for
sources_from number [] = []
sources_from number (hit ∷ hits) = citation_for number hit ∷ sources_from (suc number) hits

abbrev pub or_first_three : List Citation → List Citation → List Citation
or_first_three [] sources = take 3 sources
or_first_three (c ∷ cs) sources = c ∷ cs

-- The sources that a text cites, or else the first three.
unfoldable pub cited : Digits → Text → List Citation → List Citation
unfolding referenced_numbers
cited digits text sources =
    let numbers = referenced_numbers digits text in
    or_first_three (keep_if (λ c. any (λ n. c.number == n) numbers) sources) sources

-- `MAX_HISTORY_MESSAGES`
abbrev pub max_history_messages : ℕ
max_history_messages = 6

-- The parts of a location that are not empty; page 0 is none.
abbrev pub text_part : Text → List Text
text_part [] = []
text_part (c ∷ t) = (c ∷ t) ∷ []

abbrev pub page_part : Option ℕ → List Text
unfolding decimal
page_part none = []
page_part (some n) = if n == 0 then [] else (codes "page " ++ decimal n) ∷ []

abbrev pub section_part : Option Text → List Text
section_part none = []
section_part (some t) = text_part t

abbrev pub title_part : Text → Text → List Text
title_part [] filename = text_part filename
title_part (c ∷ t) filename = (c ∷ t) ∷ []

unfoldable pub source_block : ℕ → SearchHit → Text
unfolding decimal page_part join strip
source_block number hit =
    codes "["
    ++ (decimal number
        ++ (codes "] "
            ++ (join (codes " · ") (
                  title_part hit.document_title hit.filename
                  ++ (page_part hit.page_number ++ section_part hit.section_title))
                ++ (codes "\n" ++ strip hit.text))))

unfoldable pub source_blocks : ℕ → List SearchHit → List Text
unfolding source_block
source_blocks number [] = []
source_blocks number (hit ∷ hits) = source_block number hit ∷ source_blocks (suc number) hits

-- `_format_sources`
unfoldable pub format_sources : List SearchHit → Text → Text
unfolding source_blocks join
format_sources hits question =
    codes "Sources:\n\n"
    ++ (join (codes "\n\n") (source_blocks 1 hits) ++ (codes "\n\nQuestion: " ++ question))

abbrev pub replayed : Message → Message
replayed past = record {
  role = elim past.role [ user ↦ user | system ↦ assistant | assistant ↦ assistant ];
  content = past.content;
}

-- `_build_messages`, given the system prompt.
unfoldable pub build_messages : Text → Text → List SearchHit → List Message → List Message
unfolding format_sources replayed
build_messages prompt question hits history =
    record { role = system; content = prompt }
    ∷ (map replayed (take_last max_history_messages history)
        ++ record { role = user; content = format_sources hits question } ∷ [])

-- `AnswerStream` at the last yield, with the messages that the model was given, if it was called.
pub record Answer : Type 0 where
  pub citations : List Citation
  pub text : Text
  pub asked : Option (List Message)

-- `answer`, given what the search found and the chunks that the model streams for its messages.
unfoldable pub answer :
    Digits → (List Message → List Text) → Text → Text → List SearchHit → List Message → Answer
unfolding sources_from cited build_messages
answer digits stream prompt question [] history = record {
  citations = [];
  text =
      codes
        "I could not find anything in your documents about that. Try rephrasing, or upload the document you have in mind.";
  asked = none;
}
answer digits stream prompt question (hit ∷ hits) history =
    let messages = build_messages prompt question (hit ∷ hits) history in
    let text = flatten (stream messages) in
    record {
      citations = cited digits text (sources_from 1 (hit ∷ hits));
      text = text;
      asked = some messages;
    }

-- ===== src/Chat/Tests.antt =====
-- Runs of chat, and instances of its theorems.
use secondbrain_ai.Prelude.{
  ℕ, ◌-◌, ◌≤◌, ◌≡◌, refl, ◌&&◌, none, some, List, [], ◌∷◌, arith, length, All, leb, if◌then◌else◌,
}
use secondbrain_ai.Prelude.Text.{Text, codes}
use secondbrain_ai.Retrieval.Ranking.{nought}
use secondbrain_ai.Retrieval.Search.{SearchHit}
use secondbrain_ai.Chat.{Message, sources_from, answer}
use secondbrain_ai.Chat.Numbers.{Digits, referenced_numbers, KnowsAscii}
use secondbrain_ai.Chat.Grounded.{Numbers, Chosen, answer-Chosen}
use secondbrain_ai.Chat.Titles.{derive_title}

abbrev ascii : Digits
ascii c = if leb 48 c && leb c 57 then some (c - 48) else none

referenced_numbers_run :
    referenced_numbers ascii (codes "So [1, 3] and [x] and [12]") ≡ 1 ∷ 3 ∷ 12 ∷ []
unfolding referenced_numbers
referenced_numbers_run = refl

derive_title_run : derive_title (codes "where is  the offer letter") 16 ≡ codes "where is the…"
unfolding derive_title
derive_title_run = refl

abbrev hit : ℕ → SearchHit
hit n = record {
  chunk_id = n;
  document_id = 1;
  document_title = codes "Notes";
  filename = codes "notes.txt";
  extension = codes "txt";
  text = codes "text";
  score = nought;
  page_number = some 2;
  section_title = none;
  matched_by = [];
  snippet = codes "text";
}

abbrev model : List Message → List Text
model messages = codes "See " ∷ codes "[2]." ∷ []

answer-Chosen_example :
    (1 ≤ length (answer ascii model [] (codes "q") (hit 7 ∷ hit 8 ∷ []) []).citations)
    × All
        (Numbers 1 (hit 7 ∷ hit 8 ∷ []))
        (answer ascii model [] (codes "q") (hit 7 ∷ hit 8 ∷ []) []).citations
    × Chosen ascii
        (answer ascii model [] (codes "q") (hit 7 ∷ hit 8 ∷ []) []).text
        (sources_from 1 (hit 7 ∷ hit 8 ∷ []))
        (answer ascii model [] (codes "q") (hit 7 ∷ hit 8 ∷ []) []).citations
answer-Chosen_example = answer-Chosen ascii model [] (codes "q") (hit 7) (hit 8 ∷ []) []

ascii-KnowsAscii : KnowsAscii ascii
ascii-KnowsAscii d h = ground arith

-- ===== src/Parsing/Registry.antt =====
-- `ParserRegistry` of backend/app/services/parsing/__init__.py, and the parsers that it is built of.
pub mod Dispatch
use Prim.Native.String.{String}
use secondbrain_ai.Prelude.{
  ℕ, Bool, true, false, Option, none, some, List, [], ◌∷◌, ◌++◌, map, ◌==◌, if◌then◌else◌,
}
use secondbrain_ai.Prelude.Text.{Text, codes, text_eq}
use secondbrain_ai.Prelude.Outcome.{Outcome, ok, raised}
use secondbrain_ai.Retrieval.Terms.{Unicode}
use secondbrain_ai.Parsing.Base.{ParsedDocument, parse_plain}
use secondbrain_ai.Parsing.Markdown.{parse_markdown}
use secondbrain_ai.Parsing.Code.{parse_code}
use secondbrain_ai.Parsing.Delimited.{Csv, parse_delimited}

-- `ParseContext`, with the bytes of the file at its path.
pub record ParseContext : Type 0 where
  pub content : List ℕ
  pub filename : Text
  pub mime_type : Text
  pub extension : Text

-- What a parser raises: a `DocumentParseError`, or any other exception.
pub data ParseFailure : Type 0 where
  document_parse_error : Text → ParseFailure
  unexpected : Text → ParseFailure

-- `DocumentParser`
pub record DocumentParser : Type 0 where
  pub name : Text
  pub extensions : List Text
  pub parse : ParseContext → Outcome ParseFailure ParsedDocument

-- An extension and the parser that claims it.
pub record Claim : Type 0 where
  pub claimed : Text
  pub parser : DocumentParser

-- `_by_extension.get`
unfoldable pub parser_of : Text → List Claim → Option DocumentParser
unfolding text_eq
parser_of extension [] = none
parser_of extension (c ∷ cs) =
    let rest = parser_of extension cs in if text_eq c.claimed extension then some c.parser else rest

abbrev pub claims_of_parser : DocumentParser → List Text → List Claim
claims_of_parser p [] = []
claims_of_parser p (e ∷ es) = record { claimed = e; parser = p } ∷ claims_of_parser p es

-- The two loops of `__init__`, as one over the claims.
unfoldable pub parser_claims : List DocumentParser → List Claim
parser_claims [] = []
parser_claims (p ∷ ps) = claims_of_parser p p.extensions ++ parser_claims ps

abbrev pub or_taken : Claim → List Claim → Option DocumentParser → Outcome Text (List Claim)
or_taken c table none = ok (c ∷ table)
or_taken c table (some existing) = raised (
    codes "Both "
    ++ (existing.name
        ++ (codes " and "
            ++ (c.parser.name
                ++ (codes " claim "
                    ++ (c.claimed ++ codes ". Extensions must map to exactly one parser."))))))

-- An extension that is claimed once enters the table.
unfoldable pub claim : Claim → List Claim → Outcome Text (List Claim)
unfolding parser_of
claim c table = or_taken c table (parser_of c.claimed table)

abbrev pub and_claim :
    (List Claim → Outcome Text (List Claim)) → Outcome Text (List Claim) → Outcome Text (List Claim)
and_claim f (raised message) = raised message
and_claim f (ok table) = f table

unfoldable pub claim_all : List Claim → List Claim → Outcome Text (List Claim)
unfolding claim
claim_all [] table = ok table
claim_all (c ∷ cs) table = and_claim (claim_all cs) (claim c table)

-- `ParserRegistry.__init__`
unfoldable pub new_registry : List DocumentParser → Outcome Text (List Claim)
unfolding claim_all parser_claims
new_registry parsers = claim_all (parser_claims parsers) []

-- `extension.lower().lstrip(".")`
unfoldable pub lstrip_dots : Text → Text
lstrip_dots [] = []
lstrip_dots (c ∷ t) = if c == 46 then lstrip_dots t else c ∷ t

-- `for_extension`, given `str.lower`.
unfoldable pub for_extension : (Text → Text) → Text → List Claim → Option DocumentParser
unfolding parser_of lstrip_dots
for_extension lower extension table = parser_of (lstrip_dots (lower extension)) table

-- A failure of any kind becomes one of the domain.
unfoldable pub as_parse_error :
    Text → Outcome ParseFailure ParsedDocument → Outcome ParseFailure ParsedDocument
as_parse_error filename (ok parsed) = ok parsed
as_parse_error filename (raised (document_parse_error message)) =
    raised (document_parse_error message)
as_parse_error filename (raised (unexpected message)) =
    raised (document_parse_error (filename ++ (codes " could not be read: " ++ message)))

unfoldable pub parse_by : ParseContext → Option DocumentParser → Outcome ParseFailure ParsedDocument
unfolding as_parse_error
parse_by context none = raised (
    document_parse_error
      (codes "No parser is available for ." ++ (context.extension ++ codes " files.")))
parse_by context (some p) = as_parse_error context.filename (p.parse context)

-- `ParserRegistry.parse`
unfoldable pub parse_file :
    (Text → Text) → List Claim → ParseContext → Outcome ParseFailure ParsedDocument
unfolding parse_by for_extension
parse_file lower table context = parse_by context (for_extension lower context.extension table)

-- What the parsers are given: the decoding of `read_text`, the Unicode tables, `csv`, and the parsers
-- that third-party libraries do the work of, by their names.
pub record Readers : Type 0 where
  pub read_text : List ℕ → Text
  pub unicode : Unicode
  pub csv : Csv
  pub by_library : Text → ParseContext → Outcome ParseFailure ParsedDocument

abbrev pub names : List String → List Text
names [] = []
names (s ∷ ss) = codes s ∷ names ss

-- The extensions of `CodeParser`.
abbrev pub code_parser_extensions : List String
code_parser_extensions =
    "py" ∷ "pyi" ∷ "js" ∷ "jsx" ∷ "ts" ∷ "tsx" ∷ "java" ∷ "kt" ∷ "go" ∷ "rs" ∷ "rb" ∷ "php" ∷ "c"
    ∷ "h" ∷ "cpp" ∷ "hpp" ∷ "cc" ∷ "cs" ∷ "swift" ∷ "scala" ∷ "sh" ∷ "bash" ∷ "zsh" ∷ "ps1" ∷ "sql"
    ∷ "r" ∷ "lua" ∷ "pl" ∷ "ex" ∷ "exs" ∷ "erl" ∷ "hs" ∷ "clj" ∷ "dart" ∷ "vue" ∷ "svelte" ∷ "css"
    ∷ "scss" ∷ "less" ∷ "graphql" ∷ "proto" ∷ "tf" ∷ "dockerfile" ∷ "gradle" ∷ "cmake" ∷ "m" ∷ "mm"
    ∷ "vb" ∷ "asm" ∷ "json" ∷ "yaml" ∷ "yml" ∷ "toml" ∷ "xml" ∷ []

abbrev pub library_parser : Readers → String → List String → DocumentParser
library_parser r name extensions = record {
  name = codes name;
  extensions = names extensions;
  parse = r.by_library (codes name);
}

abbrev pub as_failure : Outcome Text ParsedDocument → Outcome ParseFailure ParsedDocument
as_failure (ok parsed) = ok parsed
as_failure (raised message) = raised (document_parse_error message)

abbrev pub markdown_parser : Readers → DocumentParser
markdown_parser r = record {
  name = codes "MarkdownParser";
  extensions = names ("md" ∷ "markdown" ∷ []);
  parse = λ context. ok (parse_markdown (r.read_text context.content));
}

abbrev pub delimited_parser : Readers → DocumentParser
delimited_parser r = record {
  name = codes "DelimitedTextParser";
  extensions = names ("csv" ∷ "tsv" ∷ []);
  parse = λ context.
      as_failure
        (parse_delimited r.csv context.filename context.extension (r.read_text context.content));
}

abbrev pub code_parser : Readers → DocumentParser
code_parser r = record {
  name = codes "CodeParser";
  extensions = names code_parser_extensions;
  parse = λ context. ok (parse_code r.unicode context.extension (r.read_text context.content));
}

abbrev pub plain_parser : Readers → DocumentParser
plain_parser r = record {
  name = codes "PlainTextParser";
  extensions = names ("txt" ∷ "log" ∷ "rst" ∷ "org" ∷ "ini" ∷ []);
  parse = λ context. ok (parse_plain (r.read_text context.content));
}

-- The parsers of `build_parser_registry`.
unfoldable pub all_parsers : Readers → List DocumentParser
all_parsers r =
    library_parser r "PdfParser" ("pdf" ∷ [])
    ∷ library_parser r "DocxParser" ("docx" ∷ [])
    ∷ library_parser r "PptxParser" ("pptx" ∷ [])
    ∷ library_parser r "XlsxParser" ("xlsx" ∷ "xlsm" ∷ [])
    ∷ library_parser r "EpubParser" ("epub" ∷ [])
    ∷ library_parser r "OdtParser" ("odt" ∷ [])
    ∷ library_parser r "RtfParser" ("rtf" ∷ [])
    ∷ markdown_parser r
    ∷ library_parser r "HtmlParser" ("html" ∷ "htm" ∷ [])
    ∷ delimited_parser r
    ∷ library_parser r "ImageParser" ("png" ∷ "jpg" ∷ "jpeg" ∷ "webp" ∷ "gif" ∷ "bmp" ∷ "tiff" ∷ [])
    ∷ code_parser r
    ∷ plain_parser r
    ∷ []

-- `build_parser_registry`
unfoldable pub build_parser_registry : Readers → Outcome Text (List Claim)
unfolding new_registry all_parsers
build_parser_registry r = new_registry (all_parsers r)

-- ===== src/FileTypes.antt =====
-- backend/app/services/uploads/file_types.py: what is accepted, and how that is decided.
pub mod Detection
mod Tests
use Prim.Native.String.{String}
use secondbrain_ai.Prelude.{
  ℕ, Bool, true, ◌||◌, Option, none, some, List, [], ◌∷◌, ◌++◌, map, any, if◌then◌else◌,
}
use secondbrain_ai.Prelude.Text.{Text, codes, text_eq, starts_with}
use secondbrain_ai.Prelude.Paths.{path_name, suffix}

-- `FileCategory`
pub data FileCategory : Type 0 where
  document spreadsheet presentation image text code archive audio : FileCategory

-- `FileType`
pub record FileType : Type 0 where
  pub extension : Text
  pub mime_type : Text
  pub category : FileCategory
  pub signatures : List (List ℕ)

abbrev pub file_type : String → String → FileCategory → List (List ℕ) → FileType
file_type ext mime cat sigs = record {
  extension = codes ext;
  mime_type = codes mime;
  category = cat;
  signatures = sigs;
}

-- `_ZIP`
abbrev pub zip_signatures : List (List ℕ)
zip_signatures = (80 ∷ 75 ∷ 3 ∷ 4 ∷ []) ∷ (80 ∷ 75 ∷ 5 ∷ 6 ∷ []) ∷ (80 ∷ 75 ∷ 7 ∷ 8 ∷ []) ∷ []

abbrev code_extensions : List String
code_extensions =
    ".py" ∷ ".pyi" ∷ ".js" ∷ ".jsx" ∷ ".ts" ∷ ".tsx" ∷ ".java" ∷ ".kt" ∷ ".go" ∷ ".rs" ∷ ".rb"
    ∷ ".php" ∷ ".c" ∷ ".h" ∷ ".cpp" ∷ ".hpp" ∷ ".cc" ∷ ".cs" ∷ ".swift" ∷ ".scala" ∷ ".sh" ∷ ".bash"
    ∷ ".zsh" ∷ ".ps1" ∷ ".sql" ∷ ".r" ∷ ".lua" ∷ ".pl" ∷ ".ex" ∷ ".exs" ∷ ".erl" ∷ ".hs" ∷ ".clj"
    ∷ ".dart" ∷ ".vue" ∷ ".svelte" ∷ ".css" ∷ ".scss" ∷ ".less" ∷ ".graphql" ∷ ".proto" ∷ ".tf"
    ∷ ".dockerfile" ∷ ".gradle" ∷ ".cmake" ∷ ".m" ∷ ".mm" ∷ ".vb" ∷ ".asm" ∷ []

abbrev code_type : String → FileType
code_type ext = file_type ext "text/plain" code []

abbrev last_types : List FileType
last_types =
    file_type ".zip" "application/zip" archive zip_signatures
    ∷ file_type ".mp3" "audio/mpeg" audio ((73 ∷ 68 ∷ 51 ∷ []) ∷ (255 ∷ 251 ∷ []) ∷ [])
    ∷ file_type ".wav" "audio/wav" audio ((82 ∷ 73 ∷ 70 ∷ 70 ∷ []) ∷ [])
    ∷ file_type ".m4a" "audio/mp4" audio []
    ∷ file_type ".flac" "audio/flac" audio ((102 ∷ 76 ∷ 97 ∷ 67 ∷ []) ∷ [])
    ∷ file_type ".ogg" "audio/ogg" audio ((79 ∷ 103 ∷ 103 ∷ 83 ∷ []) ∷ [])
    ∷ []

abbrev code_types : List String → List FileType
code_types [] = last_types
code_types (e ∷ es) = code_type e ∷ code_types es

-- `_TYPES`
abbrev pub types : List FileType
types =
    file_type ".pdf" "application/pdf" document ((37 ∷ 80 ∷ 68 ∷ 70 ∷ 45 ∷ []) ∷ [])
    ∷ file_type ".docx" "application/vnd.openxmlformats-officedocument.wordprocessingml.document"
        document zip_signatures
    ∷ file_type ".odt" "application/vnd.oasis.opendocument.text" document zip_signatures
    ∷ file_type ".rtf" "application/rtf" document ((123 ∷ 92 ∷ 114 ∷ 116 ∷ 102 ∷ []) ∷ [])
    ∷ file_type ".epub" "application/epub+zip" document zip_signatures
    ∷ file_type ".xlsx" "application/vnd.openxmlformats-officedocument.spreadsheetml.sheet"
        spreadsheet zip_signatures
    ∷ file_type ".csv" "text/csv" spreadsheet []
    ∷ file_type ".tsv" "text/tab-separated-values" spreadsheet []
    ∷ file_type ".pptx" "application/vnd.openxmlformats-officedocument.presentationml.presentation"
        presentation zip_signatures
    ∷ file_type ".png" "image/png" image ((137 ∷ 80 ∷ 78 ∷ 71 ∷ 13 ∷ 10 ∷ 26 ∷ 10 ∷ []) ∷ [])
    ∷ file_type ".jpg" "image/jpeg" image ((255 ∷ 216 ∷ 255 ∷ []) ∷ [])
    ∷ file_type ".jpeg" "image/jpeg" image ((255 ∷ 216 ∷ 255 ∷ []) ∷ [])
    ∷ file_type ".webp" "image/webp" image ((82 ∷ 73 ∷ 70 ∷ 70 ∷ []) ∷ [])
    ∷ file_type ".gif" "image/gif" image
        ((71 ∷ 73 ∷ 70 ∷ 56 ∷ 55 ∷ 97 ∷ []) ∷ (71 ∷ 73 ∷ 70 ∷ 56 ∷ 57 ∷ 97 ∷ []) ∷ [])
    ∷ file_type ".bmp" "image/bmp" image ((66 ∷ 77 ∷ []) ∷ [])
    ∷ file_type ".tiff" "image/tiff" image ((73 ∷ 73 ∷ 42 ∷ 0 ∷ []) ∷ (77 ∷ 77 ∷ 0 ∷ 42 ∷ []) ∷ [])
    ∷ file_type ".txt" "text/plain" text []
    ∷ file_type ".md" "text/markdown" text []
    ∷ file_type ".markdown" "text/markdown" text []
    ∷ file_type ".rst" "text/x-rst" text []
    ∷ file_type ".org" "text/x-org" text []
    ∷ file_type ".html" "text/html" text []
    ∷ file_type ".htm" "text/html" text []
    ∷ file_type ".xml" "application/xml" text []
    ∷ file_type ".json" "application/json" text []
    ∷ file_type ".yaml" "application/yaml" text []
    ∷ file_type ".yml" "application/yaml" text []
    ∷ file_type ".toml" "application/toml" text []
    ∷ file_type ".ini" "text/plain" text []
    ∷ file_type ".log" "text/plain" text []
    ∷ code_types code_extensions

-- A later entry of `BY_EXTENSION` replaces an earlier one with its extension.
unfoldable pub by_extension : Text → List FileType → Option FileType
unfolding text_eq
by_extension ext [] = none
by_extension ext (t ∷ ts) =
    let later = by_extension ext ts in
    elim later [ some u ↦ some u | none ↦ (if text_eq t.extension ext then some t else none) ]

abbrev pub probe_bytes : ℕ
probe_bytes = 32

abbrev pub tool_names : List Text
tool_names =
    codes "dockerfile"
    ∷ codes "makefile"
    ∷ codes "rakefile"
    ∷ codes "gemfile"
    ∷ codes "procfile"
    ∷ codes "justfile"
    ∷ []

abbrev pub member : Text → List Text → Bool
member t ts = any (λ u. text_eq t u) ts

-- The type found, or code if the name is that of a tool.
unfoldable pub or_tool : Text → Option FileType → Option FileType
unfolding text_eq
or_tool stem (some found) = some found
or_tool stem none =
    if member stem tool_names
    then some (record {
      extension = 46 ∷ stem;
      mime_type = codes "text/plain";
      category = code;
      signatures = [];
    })
    else none

-- `detect`, given `str.lower`.
unfoldable pub detect : (Text → Text) → Text → Option FileType
detect lower filename =
    or_tool (lower (path_name filename)) (by_extension (lower (suffix (path_name filename))) types)

-- `signature_matches`
unfoldable pub signature_matches : FileType → List ℕ → Bool
unfolding starts_with
signature_matches t head = elim t.signatures [
  | [] ↦ true
  | s ∷ ss ↦ any (λ signature. starts_with signature head) (s ∷ ss)
]

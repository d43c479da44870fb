-- ===== src/Parsing/Registry/Dispatch.antt =====
-- Which parser a file goes to.
use secondbrain_ai.Prelude.{
  ◌≡◌, refl, sym, subst, inl, inr, Bool, true, false, not, Option, none, some, List, [], ◌∷◌, arith,
  All, All-mono, all, Bool-cases,
}
use mathlib.Core.List.{reverse}
use secondbrain_ai.Prelude.Text.{Text, text_eq, text_eq_refl, text_eq→eq}
use secondbrain_ai.Prelude.Outcome.{Outcome, ok, raised}
use secondbrain_ai.FileTypes.{FileType, FileCategory, types}
use secondbrain_ai.Parsing.Base.{ParsedDocument}
use secondbrain_ai.Parsing.Registry.{
  ParseContext, ParseFailure, document_parse_error, unexpected, DocumentParser, Claim, parser_of,
  parser_claims, or_taken, claim, and_claim, claim_all, new_registry, lstrip_dots, for_extension,
  as_parse_error, parse_by, parse_file, Readers, all_parsers, build_parser_registry,
}

-- The table finds the claim.
abbrev pub Dispatched : List Claim → Claim → Type 0
Dispatched table c = parser_of c.claimed table ≡ some c.parser

and_claim_lem :
    (f : List Claim → Outcome Text (List Claim)) (o : Outcome Text (List Claim))
    (table : List Claim)
    → and_claim f o ≡ ok table
    → (between : List Claim) × (o ≡ ok between) × (f between ≡ ok table)
and_claim_lem f (raised message) table h = cc
and_claim_lem f (ok between) table h = (between, refl, h)

claim_lem :
    (c : Claim) (table : List Claim) (o : Option DocumentParser) (after : List Claim)
    → or_taken c table o ≡ ok after
    → (o ≡ none) × (after ≡ c ∷ table)
claim_lem c table none after h = (refl, cc)
claim_lem c table (some p) after h = cc

-- A later claim of another extension hides no earlier one.
parser_of-later :
    (c d : Claim) (table : List Claim)
    → parser_of c.claimed table ≡ none
    → Dispatched table d
    → Dispatched (c ∷ table) d
unfolding parser_of
parser_of-later c d table free found = elim (Bool-cases (text_eq c.claimed d.claimed)) [
  | inr other ↦ rw other found
  | inl same ↦
      let e : c.claimed ≡ d.claimed = text_eq→eq c.claimed d.claimed same in
      let taken : parser_of c.claimed table ≡ some d.parser = rw e found in cc
]

claim_all-Dispatched :
    (cs table after earlier : List Claim)
    → claim_all cs table ≡ ok after
    → All (Dispatched table) earlier
    → All (Dispatched after) earlier × All (Dispatched after) cs
unfolding claim_all claim
claim_all-Dispatched [] table after earlier h hs =
    let e : table ≡ after = cc in (subst (λ t. All (Dispatched t) earlier) e hs, tt)
claim_all-Dispatched (c ∷ cs) table after earlier h hs =
    let (between, first, next) = and_claim_lem (claim_all cs) (claim c table) after h in
    let (free, shape) = claim_lem c table (parser_of c.claimed table) between first in
    let now : Dispatched (c ∷ table) c = unfold parser_of in rw (text_eq_refl c.claimed) refl in
    let kept : All (Dispatched (c ∷ table)) (c ∷ earlier) = (
      now,
      All-mono (Dispatched table) (Dispatched (c ∷ table)) earlier
          (λ d m. parser_of-later c d table free m) hs,
    ) in
    let both =
      claim_all-Dispatched cs between after (c ∷ earlier) next
        (subst (λ t. All (Dispatched t) (c ∷ earlier)) (sym shape) kept) in
    (both.0.1, (both.0.0, both.1))

-- If a registry can be built of some parsers, it gives each extension that one of them claims to that
-- parser, wherever the parser stands in the list.
pub new_registry-Dispatched :
    (parsers : List DocumentParser) (table : List Claim)
    → new_registry parsers ≡ ok table
    → All (Dispatched table) (parser_claims parsers)
unfolding new_registry
new_registry-Dispatched parsers table h =
    (claim_all-Dispatched (parser_claims parsers) [] table [] h tt).1

raised_inj {ℓ κ} :
    {E : Type ℓ} {A : Type κ} {a b : E} → ◌≡◌ {A = Outcome E A} (raised a) (raised b) → a ≡ b
raised_inj h = cc

-- Whatever a parser raises, and if there is none for the extension, `parse` raises a
-- `DocumentParseError` and nothing else.
pub parse_file-DomainError :
    (lower : Text → Text) (table : List Claim) (context : ParseContext) (e : ParseFailure)
    → parse_file lower table context ≡ raised e
    → (message : Text) × (e ≡ document_parse_error message)
unfolding parse_file
parse_file-DomainError lower table context e h =
    by_parser (for_extension lower context.extension table) h
  where
    outcome :
        (o : Outcome ParseFailure ParsedDocument)
        → as_parse_error context.filename o ≡ raised e
        → (message : Text) × (e ≡ document_parse_error message)
    outcome (ok parsed) k = unfold as_parse_error in cc
    outcome (raised (document_parse_error message)) k =
        unfold as_parse_error in (message, sym (raised_inj k))
    outcome (raised (unexpected message)) k = unfold as_parse_error in (_, sym (raised_inj k))

    by_parser :
        (o : Option DocumentParser)
        → parse_by context o ≡ raised e
        → (message : Text) × (e ≡ document_parse_error message)
    by_parser none k = unfold parse_by in (_, sym (raised_inj k))
    by_parser (some p) k = unfold parse_by in outcome (p.parse context) k

abbrev pub is_some {ℓ} : {A : Type ℓ} → Option A → Bool
is_some none = false
is_some (some a) = true

-- What no parser reads.
abbrev pub is_media : FileCategory → Bool
is_media FileCategory.archive = true
is_media FileCategory.audio = true
is_media _ = false

-- Whether there is a parser for the extension of an accepted type.
abbrev pub has_parser : List Claim → FileType → Bool
has_parser table t = is_some (parser_of (lstrip_dots t.extension) table)

abbrev same : Bool → Bool → Bool
same true b = b
same false b = not b

all_same→All {ℓ} :
    {A : Type ℓ} (f g : A → Bool) (xs : List A)
    → all (λ x. same (f x) (g x)) xs ≡ true
    → All (λ x. f x ≡ g x) xs
all_same→All f g [] h = tt
all_same→All f g (x ∷ xs) h =
    (same_lem (f x) (g x) (ground arith), all_same→All f g xs (ground arith))
  where
    same_lem : (a b : Bool) → same a b ≡ true → a ≡ b
    same_lem true b k = sym k
    same_lem false true k = cc
    same_lem false false k = refl

-- The parsers of the program claim no extension twice, so that the registry can be built; and of the
-- types in the table of file types, exactly those that are neither archives nor audio have a parser.
pub build_parser_registry-types :
    (r : Readers)
    → (table : List Claim) × (build_parser_registry r ≡ ok table)
      × All (λ t. has_parser table t ≡ not (is_media t.category)) types
unfolding build_parser_registry parser_of lstrip_dots text_eq
build_parser_registry-types r = (
  reverse (parser_claims (all_parsers r)),
  refl,
  all_same→All (has_parser (reverse (parser_claims (all_parsers r))))
      (λ t. not (is_media t.category)) types refl,
)

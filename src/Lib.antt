-- ===== src/Lib.antt =====
-- SecondBrain AI: the core of its backend, a search engine over a user's own documents.
--
-- The program. A file is uploaded, parsed into blocks of text, cut into passages, embedded, and found again
-- by a search that fuses the meaning of the query with its words. Users sign in with a password and hold
-- a session by a short access token and a refresh token that is rotated at each use. A source repository
-- can be imported: a walk of its checkout decides which files are indexed.
--
-- The parts and their files:
--   Auth          backend/app/services/auth.py (register, authenticate, refresh, logout, logout_everywhere,
--                 resolve_access_token, the pair of tokens), backend/app/core/security.py (passwords and
--                 tokens), backend/app/repositories/user.py and refresh_token.py, and get_session of
--                 backend/app/api/dependencies.py. An operation is an Action: a function of the session that
--                 returns the outcome and the session, which keeps what is committed beside what is written.
--                 Auth/Service/Request runs one as a request, committed on success and rolled back else.
--   Chunking      backend/app/services/chunking/__init__.py: Blocks, Separators, Packing, Oversized,
--                 Splitter (split, _emit, _breaks_anchor, build_chunker) and Whitespace.
--   Documents     backend/app/models/document.py and backend/app/repositories/document.py, chunk.py:
--                 the rows, and the queries that the other parts use.
--   FileTypes     backend/app/services/uploads/file_types.py: the table, detect, signature_matches.
--   Uploads       backend/app/services/uploads/service.py (upload, delete, _guarded, _title_from) and
--                 backend/app/services/storage/local.py: a world of rows and of objects by key.
--   Indexing      backend/app/services/indexing.py: index_document over a world of committed rows and of
--                 vectors; it uses Chunking's split and Documents.
--   Retrieval     backend/app/services/retrieval.py: Terms, Snippets, Ranking (the fusion) and Search.
--   Chat          backend/app/services/chat.py: the prompt, the citations of an answer (Numbers reads them),
--                 and titles. Conversations has the handlers of backend/app/api/v1/routes/chat.py that put a
--                 question, stream its answer and delete a conversation, over rows of conversations and
--                 messages (backend/app/models/conversation.py, backend/app/repositories/conversation.py).
--   Parsing       backend/app/services/parsing: the registry and its dispatch (Registry), the parsers of
--                 text.py (Base, Markdown, Code, Delimited, Paragraphs), the JSON value that is stored
--                 (Payload), and ParsingService of pipeline.py with the job of
--                 backend/app/api/v1/routes/documents.py that parses and then indexes (Pipeline).
--   Repositories  backend/app/services/repositories: walker.py, the walk of a checkout (Walker); git.py, the
--                 reading of addresses and what is said of a clone that failed (Git); service.py, the import
--                 of the walk's files and the status of the repository (Import).
--   Retry         backend/app/core/retry.py: retry_policy and the loop of with_retry over what tenacity decides.
--   VectorStore   backend/app/services/vectorstore/qdrant_store.py: upserts in batches and deletions over a client.
--   Analytics     backend/app/services/analytics.py: the log of searches and the figures of the dashboard.
--   Prelude       texts as lists of code points, with str.strip, startswith, in and join; pathlib's names
--                 and suffixes; outcomes of calls that may raise; lists over native numbers.
--
-- How they meet. Uploads and Repositories.Import add rows and objects; a job parses each document into blocks
-- under its blocks_key and, if that succeeds, indexes it: Parsing.Pipeline composes the two over one archive.
-- Indexing cuts the blocks with Chunking, and writes rows of Documents and vectors, which VectorStore keeps
-- by identifier. Retrieval reads both, and Chat answers from its hits.
--
-- Parameters. Argon2, PyJWT, SHA-256, str.lower, str.isalnum, the class \w, the embedder, the vector store in
-- retrieval, the decoding of text, the csv reader, the parsers of formats that are read by libraries, the
-- model that streams an answer, and whether a file can be removed or a row inserted are arguments of the
-- models. What tenacity decides after an attempt that raised is a function with the laws that its documentation states, the client of Qdrant a
-- state with upsert and delete and theirs; both have an instance in VectorStore/Tests. git is an
-- argument with the checkout that it leaves, and so is what other requests commit while a file is
-- parsed. Identifiers that the program draws at random are given to the call, and that they are new is a
-- hypothesis where it matters. A request reads the clock once.
--
-- Fuel. The recursion of the chunker takes the depth that the interpreter allows as fuel, and running out is its
-- RecursionError, so the theorems hold at each depth. The walk's fuel is the number of directories, that of
-- with_retry is one more than the attempts, that of batches and windows is the number of rows, that of cutting
-- paragraphs and of reading the modifiers of a line is the length of the text, none of which a run uses up.
-- The other loops are structural.
--
-- Simplified. Scores are exact fractions, where the program has floats. Rows that SQL returns in no order come
-- in the order of the table. A checkout does not change under the walk. Between the transactions of
-- indexing nothing else writes, nor between a question and its answer, and the database itself does not
-- fail there. A derived object holds the JSON value that is written, without its text and the temporary
-- file; one of another shape, which no parse writes, is read as missing, and reading the blocks for indexing does
-- not raise. The mode of a search is one of three, where the program has a text; int reads a number of any
-- length. Messages of exceptions leave out the quotes of repr; waits between attempts are left out.
--
-- Not modelled: the parsers that call libraries for PDF, Office, HTML, archives and images; the
-- adapters of embedders and of language models; the creation of the collection, the search and the count of
-- Qdrant; the lists and filters of documents and conversations for their pages; the aggregates of the
-- dashboard that are a single query; the other HTTP handlers and their schemas, which hand their arguments to the
-- services; configuration and logging; the migrations, which are generated; and the frontend, which is another
-- language.
pub mod Analytics
pub mod Auth
pub mod Chat
pub mod Chunking
pub mod Documents
pub mod FileTypes
pub mod Indexing
pub mod Parsing
pub mod Prelude
pub mod Repositories
pub mod Retrieval
pub mod Retry
pub mod Uploads
pub mod VectorStore

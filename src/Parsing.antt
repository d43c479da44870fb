-- ===== src/Parsing.antt =====
-- backend/app/services/parsing: from a file to blocks of text that can be cited.
pub mod Paragraphs
pub mod Base
pub mod Markdown
pub mod Code
pub mod Delimited
pub mod Payload
pub mod Registry
pub mod Pipeline
mod Tests

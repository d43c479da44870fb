-- ===== src/Repositories.antt =====
-- backend/app/services/repositories: importing a source repository.
pub mod Walker
pub mod Git
pub mod Import

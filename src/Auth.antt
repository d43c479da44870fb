-- ===== src/Auth.antt =====
-- Accounts and sessions: backend/app/services/auth.py, backend/app/core/security.py, their rows
-- (backend/app/models/user.py, refresh_token.py), their repositories, and `get_session` of
-- backend/app/api/dependencies.py.
pub mod Records
pub mod Security
pub mod Tokens
pub mod Service

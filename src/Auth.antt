-- ===== src/Auth.antt =====
-- app/auth, app/security and app/api/deps.py: the credentials of a request.
pub mod Tokens
pub mod Csrf
pub mod Sessions
pub mod ApiTokens
pub mod State
pub mod SignIn
pub mod Pipeline

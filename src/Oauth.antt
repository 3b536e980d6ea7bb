-- ===== src/Oauth.antt =====
-- internal/oauth: the login's stored credentials, the checks on a server's metadata, and its tokens.
pub mod Credentials
pub mod Metadata
pub mod Tokens

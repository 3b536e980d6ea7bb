-- ===== src/Client.antt =====
-- internal/apiclient: the client of the backend that issues sessions.
pub mod Sessions
pub mod Requests

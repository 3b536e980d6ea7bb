-- ===== src/Capture.antt =====
-- internal/dependencycapture: the capture proxy, its replay store and the upload of interactions.
pub mod Target
pub mod Behaviors
pub mod Headers
pub mod Body
pub mod Redact
pub mod Preview
pub mod HopHeaders
pub mod Proxy
pub mod Uploader

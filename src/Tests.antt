-- ===== src/Tests.antt =====
-- The properties at concrete inputs.
mod Data
mod Capturing
mod Tunnel
mod Wire
mod Uploading
mod Backend
mod Commands
mod Proxying
mod Login
mod Serving

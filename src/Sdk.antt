-- ===== src/Sdk.antt =====
-- The SDK for WebRTC: live-streaming-web/nginx/html/players/js/srs.sdk.js, and its older copy under
-- demos/js.
pub mod WhipId
pub mod Exchange
pub mod Session
pub mod Internal
pub mod Demos
pub mod Senders
mod Tests

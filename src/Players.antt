-- ===== src/Players.antt =====
-- The Flash player and publisher of live-streaming-web/nginx/html/players/js: srs.player.js,
-- srs.publisher.js and the log element, srs.log.js.
pub mod Log
pub mod Fluency
pub mod Player
pub mod Publisher
pub mod SwfUrl

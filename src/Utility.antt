-- ===== src/Utility.antt =====
-- winlin.utility.js of live-streaming-web/nginx/html/console/js and of players/js, which differ in
-- the default port of WebRTC only: the helpers that the console and the players share.
pub mod Arrays
pub mod Strings
pub mod Dates
pub mod Agents

-- ===== src/Console.antt =====
-- The console of live-streaming-web/nginx/html/console/js: srs.console.js, the texts of srs.en.js and
-- srs.cn.js, and the widgets bravo_alert and bravo_popover.
pub mod Filters
pub mod Logs
pub mod Directive
pub mod Server
pub mod Summary
pub mod Links
pub mod Objects
pub mod Polling
pub mod Streams
pub mod Details
pub mod Navigation
mod Tests
pub mod Routes
pub mod Collapse
pub mod Alert

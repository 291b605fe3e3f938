-- ===== src/Urls.antt =====
-- The URLs that the pages parse and make: winlin.utility.js, srs.sdk.js and srs.page.js.
pub mod Query
pub mod Rtmp
pub mod Page
mod Tests
pub mod Offered

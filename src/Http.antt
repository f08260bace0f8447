-- ===== src/Http.antt =====
-- HTTP: src/http/.
pub mod Request
pub mod ParseWorker
pub mod Context
pub mod Response
pub mod Server
pub mod Site
pub mod Examples

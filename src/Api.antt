-- ===== src/Api.antt =====
-- internal/api: the HTTP handlers and the test of the token. A request is its decoded body; a
-- response is its status, with the parts of the body that the handler decides.
pub mod Gc
pub mod Control
pub mod Dispatch
pub mod Peers
pub mod Logs
pub mod Settings
pub mod Auth

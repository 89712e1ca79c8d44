-- ===== src/Transfer/Delta.antt =====
-- The pruned payload and the cache together give the original image back.
pub mod Skip
pub mod Inject
pub mod RoundTrip

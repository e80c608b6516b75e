-- ===== src/Browser.antt =====
-- The logic of the client in the browser (frontend/hooks, frontend/lib, frontend/store and the
-- handlers of frontend/components), without what is drawn.
pub mod Reconnecting
pub mod Scrolling
pub mod Fetching
pub mod Caches
pub mod Bidding
pub mod Items
pub mod Times
pub mod Forms

-- ===== src/Feeds.antt =====
-- backend/internal/store/feeds.go and activation.go: the operations on the table feeds. A table is
-- the list of its rows; a statement reads the clock once, as `now`.
pub mod Writes
pub mod Lease
pub mod LeaseLaws
pub mod Activation
pub mod Import
pub mod ImportLaws
pub mod ActivationLaws

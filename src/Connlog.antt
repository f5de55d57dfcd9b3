-- ===== src/Connlog.antt =====
-- internal/connlog/store.go: the ring buffer of connection events and its live subscribers.
pub mod Types
pub mod Methods
pub mod Ring
pub mod Valid
pub mod Session
pub mod History
pub mod Reads
pub mod Order

-- ===== src/Gateway.antt =====
-- internal/gateway/gateway.go: the rules of nftables.
pub mod Script
pub mod Elements
pub mod Control
pub mod InPlace

-- ===== src/Services.antt =====
-- The three services behind the gateway (services/).
pub mod Inventory
pub mod Payments
pub mod Orders

-- ===== src/Server/Handlers.antt =====
-- The effect of the handlers of src/wallet.rs and of src/control.rs on the tables.
pub mod Payments
pub mod Tables
pub mod Node

-- ===== src/State.antt =====
-- What the node remembers that LDK does not (src/state/mod.rs): three tables behind locks. A lock
-- is held for one call, so that each function is one atomic step from a table to a table.
pub mod Offers
pub mod Addresses
pub mod Forwarding

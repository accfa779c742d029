-- ===== src/Examples.antt =====
-- Samples of the model and the theorems at concrete inputs.
pub mod Samples
mod Tables
mod Texts
mod Machine
mod Handlers
mod Issued
mod Routes
mod Cheapest
mod Served
mod Started

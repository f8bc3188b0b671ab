-- ===== src/Examples.antt =====
-- Theorems applied to concrete inputs.
pub mod Ranges
pub mod Imports
pub mod Reports
pub mod Queues
pub mod Resolutions
pub mod Tables
pub mod Prestos
pub mod Runs
pub mod Storages
pub mod Statements
pub mod DataSources
pub mod Views

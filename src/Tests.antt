-- ===== src/Tests.antt =====
-- Runs of the models on concrete data, and the theorems applied to it.
pub mod States
pub mod Brokers
pub mod Masters
pub mod Codecs
pub mod Tables
pub mod Models
pub mod Executions
pub mod Handlers
pub mod Selections
pub mod Descriptors
pub mod Settings

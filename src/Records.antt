-- ===== src/Records.antt =====
-- Reconciliation of publication records from several providers (records/).
pub mod Matching
pub mod Normalization
pub mod Sets
pub mod Models
pub mod Services
pub mod Imports

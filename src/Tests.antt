-- ===== src/Tests.antt =====
-- Runs of the modelled code at concrete inputs, and the theorems applied to them.
mod Errors
mod Diagnostics
mod Doctor
mod Bulk
mod AuditBatch
mod Retry
mod Session
mod IndexAudit
mod Capacity
mod Hotspot
mod Operations
mod Slowlog
mod Consistency

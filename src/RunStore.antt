-- ===== src/RunStore.antt =====
-- platform/observability, workbench_observability/runs.py: the durable store of long-lived runs.
pub mod Database
pub mod Operations
pub mod Lookup
pub mod Claims
pub mod Creation
pub mod Upserts
pub mod Listings
pub mod Memory
mod Tests

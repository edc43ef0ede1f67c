-- ===== src/Jobs.antt =====
-- platform/jobs, workbench_jobs/queue.py: the Redis queue with its processing and dead-letter
-- lists, and workbench_gateway/reconcile.py, which fills it from the run store.
pub mod Redis
pub mod Memory
pub mod Queue
pub mod Reclaim
pub mod Reconcile
pub mod Worker
mod Tests

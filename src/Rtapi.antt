-- ===== src/Rtapi.antt =====
-- The real-time API: rtapi/ of the repository.
pub mod Shmem
pub mod Timespec
pub mod Priority
pub mod Mutex
pub mod Task
pub mod Clock

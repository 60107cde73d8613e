-- ===== src/Hal.antt =====
-- The hardware abstraction layer: hal/ of the repository.
pub mod Data
pub mod Fixture
pub mod Pool
pub mod Structs
pub mod Sorted
pub mod App
pub mod Calls
pub mod Lifecycle
pub mod Comps
pub mod Mounting
pub mod Threads
pub mod Registry
pub mod Params
pub mod Pins
pub mod Functs
pub mod Tidy
pub mod Cycle
pub mod Stats

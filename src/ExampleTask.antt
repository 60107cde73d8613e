-- ===== src/ExampleTask.antt =====
-- The example task: ExampleTask/ of the repository.
pub mod Controller
pub mod Channel
pub mod Setup
pub mod Fixture
pub mod Guard

-- ===== src/Jdocs.antt =====
-- internal/jdocs: the process that answers requests for the robot's documents.
pub mod Translate
pub mod Server
pub mod Ready
pub mod Refines
mod Tests

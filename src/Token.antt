-- ===== src/Token.antt =====
-- internal/token: the token of the robot, the requests for it and the retries.
pub mod Identity
pub mod Queue
pub mod Backoff
mod Tests

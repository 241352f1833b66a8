-- ===== src/Clad/Robot.antt =====
-- What the gateway reads from the engine: internal/clad/gateway/messageRobotToExternal.go.
pub mod Faces
pub mod Objects
pub mod Actions
pub mod Completed
pub mod Events
pub mod Messages

-- ===== src/Clad/External.antt =====
-- What the gateway writes to the engine: internal/clad/gateway/messageExternalToRobot.go.
pub mod Motion
pub mod Paths
pub mod Faces
pub mod Objects
pub mod Messages

-- ===== src/Gateway.antt =====
-- cloud: the gateway between the SDK's clients and the robot's processes.
pub mod Hashes
pub mod Tokens
pub mod Feed
pub mod Proxy
pub mod Listeners
pub mod Blocks
pub mod Faces
pub mod Connections
pub mod Behavior
pub mod Update
pub mod NavMap
pub mod Animations
pub mod Commands
pub mod Rpc
pub mod Events
pub mod Switchboard
mod Samples
mod Tests

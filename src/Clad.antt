-- ===== src/Clad.antt =====
-- internal/clad: the messages between the processes, as bytes.
pub mod Wire
pub mod Lists
pub mod Docs
pub mod Fields
pub mod Union
pub mod Writable
pub mod Tokens
pub mod Mic
pub mod Shared
pub mod Switchboard
pub mod External
pub mod Robot

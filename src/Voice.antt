-- ===== src/Voice.antt =====
-- internal/voice: the cloud process between the microphone, the AI and the speech streams.
pub mod Locale
pub mod Messages
pub mod Process

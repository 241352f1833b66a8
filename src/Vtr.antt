-- ===== src/Vtr.antt =====
-- internal/voice/vtr: voice to intent. Speech is cut into frames, its end detected, and the text
-- that was recognised is matched to an intent and its parameters.
pub mod Vad
pub mod Texts
pub mod Params
pub mod Match
pub mod Numbers
pub mod Weather
mod Tests

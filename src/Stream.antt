-- ===== src/Stream.antt =====
-- internal/voice/stream: a stream of audio, from the samples that are added to the answer.
pub mod Samples
pub mod Buffer
pub mod Response
mod Tests

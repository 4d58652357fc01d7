-- ===== src/Audio.antt =====
-- src/audio: audio files.
pub mod Wav

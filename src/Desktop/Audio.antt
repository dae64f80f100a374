-- ===== src/Desktop/Audio.antt =====
-- doubao_c_version/audio.c.
pub mod Queue
pub mod Decode
pub mod Streams

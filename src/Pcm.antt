-- ===== src/Pcm.antt =====
-- src/aitts/streaming.py: the transport of PCM samples from a speech engine to the playback device.
pub mod Ring
pub mod Spool
pub mod Streams
use ai_tts.Common.{ℕ}

abbrev pub sample_rate : ℕ
sample_rate = 24000

-- ===== src/Tests.antt =====
-- Databases, and the theorems applied to them.
mod Data
mod Store
mod Plan
mod Segments
mod Voices
mod Synthesis
mod Settings
mod Floor
mod Cache
mod Metrics
mod Model
mod Pcm
mod Playback
mod Interrupt

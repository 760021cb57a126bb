-- ===== src/AudioTick.antt =====
-- include/kerchunk_audio_tick.h and src/kerchunk_audio_tick.c: what the audio thread keeps, and its
-- two sub-ticks, reception and transmission.
mod State
pub mod Rx
pub mod Tx
pub mod Block
pub use State.{AudioState}

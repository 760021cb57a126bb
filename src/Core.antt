-- ===== src/Core.antt =====
-- src/kerchunk_core.c: what the modules share through the core API. `Ptt` counts who keys the
-- transmitter, `Taps` holds the listeners to audio frames, `Sessions` the emergency flag and the
-- sessions that a one-time password has raised.
pub mod Ptt
pub mod Taps
pub mod Sessions

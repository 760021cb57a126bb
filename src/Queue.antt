-- ===== src/Queue.antt =====
-- src/kerchunk_queue.c: the outbound audio queue. Every operation runs under one mutex, so each is a
-- function of the whole state. The state's functions are in `Items` (what is queued) and `Playback`
-- (what is sent), the proofs in the other children.
pub mod Items
pub mod Playback
pub mod Order
pub mod Invariant
pub mod Frames
pub mod Flush

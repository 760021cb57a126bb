-- ===== src/AudioTick/State.antt =====
-- `kerchunk_audio_state_t` of include/kerchunk_audio_tick.h. The fields that the code uses as truth
-- values are Booleans, counters that pass below zero are integers, and `ptt_hold_ticks`, which is
-- only reset and counted up, is a number.
use kerchunk.Prelude.{ℕ, Bool, ℤ}

pub record AudioState : Type 0 where
  pub software_relay : Bool
  pub tx_delay_ms : ℤ
  pub tx_tail_ms : ℤ
  pub relay_drain_ms : ℤ
  pub relay_drain : ℤ
  pub relay_was_active : Bool
  pub queue_ptt : Bool
  pub queue_fired_drain : Bool
  pub queue_drain_start_us : ℕ
  pub tx_delay_rem : ℤ
  pub tx_tail_rem : ℤ
  pub ptt_hold_ticks : ℕ

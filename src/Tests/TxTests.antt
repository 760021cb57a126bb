-- ===== src/Tests/TxTests.antt =====
-- Runs of src/kerchunk_tx_state.c and src/kerchunk_txactivity.c.
use kerchunk.Prelude.{◌≡◌, refl, true, false, pos, negsuc, List, [], ◌∷◌, arith}
use kerchunk.TxState.{TxInputs}
use kerchunk.TxActivity.{TxActivity, end, Reading, init, tick, run}
use kerchunk.TxActivity.Laws.{IsValid}

abbrev resting : TxInputs
resting = record {
  cor_active = false;
  software_relay = true;
  queue_ptt = false;
  tx_delay_rem = pos 0;
  tx_tail_rem = negsuc 0;
  relay_drain = pos 0;
  ptt_held = false;
}

-- Two ticks of silence end a session, four near a tone, which is remembered for three ticks.
abbrev detector : TxActivity
detector = record {
  end_silence_ticks = 2;
  end_silence_dtmf_ticks = 4;
  dtmf_grace_ticks = 3;
  trust_cos_bit = true;
  published = false;
  silent_ticks = 0;
  dtmf_seen_ago = 1073741823;
  cos_bit_sticky = false;
  cos_flapped_session = false;
}

detector-init : init (pos 2) (pos 4) (pos 3) true ≡ detector
unfolding init
detector-init = refl

detector-IsValid : IsValid detector
detector-IsValid = ground arith

-- COS comes up, drops, and the last reading brings no data.
abbrev keyed : List Reading
keyed = (pos 1, false) ∷ (pos 0, false) ∷ []

keyed_ends : (tick (run detector keyed) (negsuc 0) false).1 ≡ end
unfolding run tick
keyed_ends = refl

abbrev talking : TxActivity
talking = record detector { published = true; cos_bit_sticky = true }

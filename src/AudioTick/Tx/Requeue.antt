-- ===== src/AudioTick/Tx/Requeue.antt =====
-- Items that are queued when the tail of src/kerchunk_audio_tick.c is fully written, and PTT is
-- still held for the playback ring to empty.
use kerchunk.Prelude.{
  ℕ, zero, suc, ◌≡◌, refl, ◌⊎◌, Bool, true, false, ℤ, pos, pos_part, is_pos, if◌then◌else◌, List,
  [], ◌∷◌, ◌++◌, arith, inl, inr,
}
use kerchunk.AudioTick.State.{AudioState}
use kerchunk.AudioTick.Tx.{
  TxAction, fire_drain, release_ptt, drain, TxIn, Pass, queue_paused, start_ptt, delay_silence,
  fire_first, drain_frame, tail_silence, new_pass, hold_or_release, finish_queue, cancel_tail,
  after_drain, run_blocks, tick_tx, actions_max, write_tail,
}
use kerchunk.AudioTick.Tx.Actions.{tally, tally-append, push_action-counts, completes}

-- PTT is held, no delay is left, and the tail has been written to the last sample.
pub record TailWritten (s : AudioState) : Type 0 where
  pub held : s.queue_ptt ≡ true
  pub no_delay : is_pos s.tx_delay_rem ≡ false
  pub written : s.tx_tail_rem ≡ pos 0

-- What every block keeps of a pass from such a state.
record Silent (p : Pass) : Type 0 where
  state : TailWritten p.audio
  uncompleted : tally completes p.actions ≡ 0

delay_silence-done :
    (slots frame : ℕ) (paused : Bool) (p : Pass)
    → is_pos p.audio.tx_delay_rem ≡ false
    → delay_silence slots frame paused p ≡ p
unfolding delay_silence
delay_silence-done zero frame paused p h = refl
delay_silence-done (suc slots) frame paused p h = ground arith

tail_silence-done :
    (slots frame : ℕ) (p : Pass)
    → is_pos p.audio.tx_tail_rem ≡ false
    → tail_silence slots frame p ≡ p
unfolding tail_silence
tail_silence-done zero frame p h = refl
tail_silence-done (suc slots) frame p h = ground arith

drain_frame-Silent :
    (frame : ℕ) (paused : Bool) (i : TxIn) (p : Pass)
    → Silent p
    → Silent (drain_frame frame paused i p).0
unfolding drain_frame fire_first
drain_frame-Silent frame paused i p h =
    let q = fire_first i p in
    ground
      (arith, push_action-counts p.actions fire_drain, push_action-counts q.actions (drain frame))

-- After the tick the state is as before, or PTT was released.
abbrev Ended : Pass → Type 0
Ended p = (tally completes p.actions ≡ 0) × (TailWritten p.audio ⊎ (p.audio.queue_ptt ≡ false))

write_tail-Ended : (frame : ℕ) (i : TxIn) (p : Pass) → Silent p → Ended (write_tail frame i p)
unfolding write_tail hold_or_release
write_tail-Ended frame i p h =
    ground (arith, tail_silence-done actions_max frame p, push_action-counts p.actions release_ptt)

after_drain-Ended :
    (rate frame : ℕ) (paused : Bool) (i : TxIn) (p : Pass) (drained : Bool)
    → Silent p
    → Ended (after_drain rate frame paused i (p, drained))
unfolding after_drain finish_queue cancel_tail
after_drain-Ended rate frame paused i p drained h = ground (arith, write_tail-Ended frame i p h)

run_blocks-Ended :
    (rate frame : ℕ) (s : AudioState) (i : TxIn) → TailWritten s → Ended (run_blocks rate frame s i)
unfolding run_blocks start_ptt tally
run_blocks-Ended rate frame s i h =
    let paused = queue_paused s i in
    let p = new_pass s i in
    let q = drain_frame frame paused i p in
    ground (
      arith,
      delay_silence-done actions_max frame paused p h.no_delay,
      drain_frame-Silent frame paused i p,
      after_drain-Ended rate frame paused i q.0 q.1,
    )

tick_tx-Ended :
    (s : AudioState) (i : TxIn) (rate frame : ℤ)
    → TailWritten s
    → let (s', actions, _) = tick_tx s i rate frame in
      (tally completes actions ≡ 0) × (TailWritten s' ⊎ (s'.queue_ptt ≡ false))
unfolding tick_tx tally
tick_tx-Ended s i rate frame h =
    ground (arith, run_blocks-Ended (pos_part rate) (pos_part frame) s i h)

-- The actions of a sequence of calls, up to the one that lets PTT go.
unfoldable pub until_release : ℤ → ℤ → AudioState → List TxIn → List TxAction
until_release rate frame s [] = []
until_release rate frame s (i ∷ is) =
    let (s', actions, _) = tick_tx s i rate frame in
    let rest = until_release rate frame s' is in actions ++ (if s'.queue_ptt then rest else [])

-- Items that come when the tail is written and PTT not yet released are sent, but their end is
-- never reported: from such a state, whatever is queued and however long it plays, no QUEUE_COMPLETE
-- is fired before PTT is let go.
pub until_release-uncompleted :
    (rate frame : ℤ) (s : AudioState) (is : List TxIn)
    → TailWritten s
    → tally completes (until_release rate frame s is) ≡ 0
unfolding until_release tally
until_release-uncompleted rate frame s [] h = refl
until_release-uncompleted rate frame s (i ∷ is) h =
    let (s', actions, _) = tick_tx s i rate frame in
    let (none_here, after) = tick_tx-Ended s i rate frame h in
    let rest = if s'.queue_ptt then until_release rate frame s' is else [] in
    elim after [
      | inl t ↦
          ground (
            arith,
            tally-append completes actions rest,
            until_release-uncompleted rate frame s' is t,
          )
      | inr off ↦ ground (arith, tally-append completes actions rest)
    ]

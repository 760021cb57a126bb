-- ===== src/AudioTick/Tx/Actions.antt =====
-- Counting the actions of a transmission tick, and what each block of src/kerchunk_audio_tick.c adds
-- to them.
use kerchunk.Prelude.{
  ℕ, zero, suc, ◌+◌, ◌≤◌, ◌<◌, ◌≡◌, Bool, true, ℤ, pos, negsuc, pos_part, is_pos, is_neg, ◌-ℤ◌,
  if◌then◌else◌, List, [], ◌∷◌, ◌++◌, length, length-append, arith,
}
use kerchunk.AudioTick.Tx.{
  TxAction, assert_ptt, release_ptt, fire_complete, silence, drain, Pass, push_action, has_room,
  chunk, delay_silence, tail_silence, actions_max, delay_step, tail_step,
}

-- How often each kind of action stands in a list.
unfoldable pub tally : (TxAction → ℕ) → List TxAction → ℕ
tally k [] = 0
tally k (a ∷ l) = k a + tally k l

pub tally-append :
    (k : TxAction → ℕ) (l m : List TxAction) → tally k (l ++ m) ≡ tally k l + tally k m
unfolding tally
tally-append k [] m = omega arith
tally-append k (a ∷ l) m = omega (arith, tally-append k l m)

pub tally-push_action :
    (k : TxAction → ℕ) (l : List TxAction) (a : TxAction)
    → (tally k (push_action l a) ≡ tally k l + (if has_room l then k a else 0))
      × (length l ≤ actions_max → length (push_action l a) ≤ actions_max)
unfolding push_action tally
tally-push_action k l a = ground (arith, tally-append k l (a ∷ []), length-append l (a ∷ []))

abbrev pub asserts : TxAction → ℕ
asserts assert_ptt = 1
asserts _ = 0

abbrev pub releases : TxAction → ℕ
releases release_ptt = 1
releases _ = 0

abbrev pub drains : TxAction → ℕ
drains (drain n) = 1
drains _ = 0

abbrev pub completes : TxAction → ℕ
completes (fire_complete n) = 1
completes _ = 0

-- A loop of silence adds nothing but silence, and moves only its own counter.
pub record OnlySilence (p q : Pass) : Type 0 where
  pub same_asserts : tally asserts q.actions ≡ tally asserts p.actions
  pub same_releases : tally releases q.actions ≡ tally releases p.actions
  pub same_drains : tally drains q.actions ≡ tally drains p.actions
  pub same_completes : tally completes q.actions ≡ tally completes p.actions
  pub same_ptt : q.audio.queue_ptt ≡ p.audio.queue_ptt
  pub same_fired : q.audio.queue_fired_drain ≡ p.audio.queue_fired_drain
  pub same_hold : q.audio.ptt_hold_ticks ≡ p.audio.ptt_hold_ticks
  pub same_tail_ms : q.audio.tx_tail_ms ≡ p.audio.tx_tail_ms
  pub same_rerun : q.rerun ≡ p.rerun
  pub capped : length p.actions ≤ actions_max → length q.actions ≤ actions_max

-- The counts of all kinds when an action is pushed.
pub push_action-counts :
    (l : List TxAction) (a : TxAction)
    → (tally asserts (push_action l a) ≡ tally asserts l + (if has_room l then asserts a else 0))
      × (tally releases (push_action l a)
          ≡ tally releases l + (if has_room l then releases a else 0))
      × (tally drains (push_action l a) ≡ tally drains l + (if has_room l then drains a else 0))
      × (tally completes (push_action l a)
          ≡ tally completes l + (if has_room l then completes a else 0))
      × (length l ≤ actions_max → length (push_action l a) ≤ actions_max)
push_action-counts l a = (
  (tally-push_action asserts l a).0,
  (tally-push_action releases l a).0,
  (tally-push_action drains l a).0,
  (tally-push_action completes l a).0,
  (tally-push_action completes l a).1,
)

abbrev pub add_silence : Pass → ℤ → List TxAction
add_silence p sn = push_action p.actions (silence sn)

silence-counts :
    (p : Pass) (sn : ℤ)
    → (tally asserts (add_silence p sn) ≡ tally asserts p.actions)
      × (tally releases (add_silence p sn) ≡ tally releases p.actions)
      × (tally drains (add_silence p sn) ≡ tally drains p.actions)
      × (tally completes (add_silence p sn) ≡ tally completes p.actions)
      × (length p.actions ≤ actions_max → length (add_silence p sn) ≤ actions_max)
silence-counts p sn =
    let l = p.actions in
    let a = silence sn in
    ground (
      arith,
      tally-push_action asserts l a,
      tally-push_action releases l a,
      tally-push_action drains l a,
      tally-push_action completes l a,
    )

delay_step-OnlySilence :
    (frame : ℕ) (p : Pass)
    → OnlySilence p (delay_step frame p)
      × ((delay_step frame p).audio.tx_tail_rem ≡ p.audio.tx_tail_rem)
unfolding delay_step
delay_step-OnlySilence frame p = ground (arith, silence-counts p (chunk p.audio.tx_delay_rem frame))

-- A round moves its counter down, and not below zero.
abbrev pub Lowers : ℕ → ℤ → ℤ → Type 0
Lowers frame a b =
    (is_neg b ≡ is_neg a)
    × (pos_part b ≤ pos_part a)
    × (is_pos a ≡ true → 0 < frame → pos_part b < pos_part a)

pub sub_chunk-Lowers : (frame : ℕ) (a : ℤ) → is_pos a ≡ true → Lowers frame a (a -ℤ chunk a frame)
unfolding ◌-ℤ◌
sub_chunk-Lowers frame (pos a) h = ground arith
sub_chunk-Lowers frame (negsuc a) h = cc

-- Block 2 only adds silence, and leaves the tail alone.
pub delay_silence-OnlySilence :
    (slots frame : ℕ) (paused : Bool) (p : Pass)
    → OnlySilence p (delay_silence slots frame paused p)
      × ((delay_silence slots frame paused p).audio.tx_tail_rem ≡ p.audio.tx_tail_rem)
unfolding delay_silence
delay_silence-OnlySilence zero frame paused p = ground arith
delay_silence-OnlySilence (suc slots) frame paused p =
    let q = delay_step frame p in
    ground (arith, delay_step-OnlySilence frame p, delay_silence-OnlySilence slots frame paused q)

tail_step-OnlySilence :
    (frame : ℕ) (p : Pass)
    → OnlySilence p (tail_step frame p)
      × ((tail_step frame p).audio.tx_delay_rem ≡ p.audio.tx_delay_rem)
unfolding tail_step
tail_step-OnlySilence frame p = ground (arith, silence-counts p (chunk p.audio.tx_tail_rem frame))

pub tail_silence-OnlySilence :
    (slots frame : ℕ) (p : Pass)
    → OnlySilence p (tail_silence slots frame p)
      × ((tail_silence slots frame p).audio.tx_delay_rem ≡ p.audio.tx_delay_rem)
unfolding tail_silence
tail_silence-OnlySilence zero frame p = ground arith
tail_silence-OnlySilence (suc slots) frame p =
    let q = tail_step frame p in
    ground (arith, tail_step-OnlySilence frame p, tail_silence-OnlySilence slots frame q)

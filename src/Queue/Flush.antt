-- ===== src/Queue/Flush.antt =====
-- Throwing the queue of src/kerchunk_queue.c away: what a preemption leaves, and what a flush leaves.
use kerchunk.Prelude.{ℕ, ◌+◌, ◌<◌, ◌≡◌, Bool, false, ℤ, if◌then◌else◌, List, [], ◌∷◌, arith}
use kerchunk.Queue.Items.{ItemType, Queue, add_item, new_item, mid_playback}
use kerchunk.Queue.Playback.{drain, load_from, load_next_item, flush, preempt}
use kerchunk.Queue.Invariant.{IsValid}

-- A preemption silences the queue at once: nothing waits, no batch goes on, the next drain delivers
-- nothing, and every item that was there is counted, the one being sent included.
pub preempt_silences :
    (memory : Bool) (n : ℕ) (q : Queue)
    → IsValid q
    → let (q', dropped, source) = preempt q in
      (q'.items ≡ [])
      × (mid_playback q' ≡ false)
      × ((drain memory n q').1 ≡ 0)
      × (dropped ≡ q.count + (if q.draining then 1 else 0))
unfolding preempt drain load_next_item load_from
preempt_silences memory n q v = ground arith

-- A flush in the gap behind a file leaves the gap: the emptied queue still counts as being played.
-- So two items that are added next go out in the order of the calls, whatever their priorities.
pub flush_keeps_gap :
    (kind : ItemType) (a b : List ℤ) (low high : ℤ) (flags : ℕ) (q : Queue)
    → 0 < q.gap_remaining
    → let q0 = (flush q).0 in
      let q1 = (add_item kind a low flags q0).0 in
      let q2 = (add_item kind b high flags q1).0 in
      q2.items ≡ new_item kind a low flags q0 ∷ new_item kind b high flags q1 ∷ []
unfolding flush add_item
flush_keeps_gap kind a b low high flags q g = ground arith

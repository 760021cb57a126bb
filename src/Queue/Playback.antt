-- ===== src/Queue/Playback.antt =====
-- The consumer's side of src/kerchunk_queue.c: loading an item, draining it frame by frame with the
-- silence between files, and throwing the queue away.
use kerchunk.Prelude.{
  ℕ, ◌+◌, ◌-◌, ◌*◌, ◌/◌, Bool, true, false, not, ◌&&◌, ◌||◌, ℤ, pos, ltb, leb, ◌==◌, if◌then◌else◌,
  Option, none, some, List, [], ◌∷◌, ◌++◌, length, take, drop, replicate,
}
use kerchunk.Queue.Items.{ItemType, audio_file, audio_buffer, tone, silence, Item, Queue}

-- `GAP_SAMPLES`
abbrev pub gap_samples : Queue → ℕ
gap_samples q = q.rate * 10 / 1000

-- The samples of an item, none for a missing buffer.
abbrev pub samples : Option (List ℤ) → List ℤ
samples none = []
samples (some b) = b

-- What `load_next_item` takes over from an item: its samples, or `none` where it is skipped. The
-- flag says whether the copy of a buffer that is not owned can be allocated.
unfoldable pub take_samples : Bool → Item → Option (Option (List ℤ))
take_samples memory item = elim item.kind [
  | audio_file ↦ (elim item.buf [
    | none ↦ none
    | some b ↦ if ltb 0 (length b) then some (some b) else none
  ])
  | audio_buffer ↦
      if item.owns then some item.buf else if memory then some (some (samples item.buf)) else none
  | tone ↦ some none
  | silence ↦ some none
]

-- The head is popped, and what was drained before is dropped.
abbrev pub pop_head : List Item → Queue → Queue
pop_head rest q = record q {
  items = rest;
  count = q.count - 1;
  drain_buf = none;
  drain_len = 0;
  drain_pos = 0;
}

-- An item becomes the one being drained.
abbrev pub begin_item : Item → Option (List ℤ) → Queue → Queue
begin_item item buf q = record q {
  drain_buf = buf;
  drain_len = length (samples buf);
  drain_item_id = item.id;
  drain_type = item.kind;
  drain_flags = item.flags;
  last_drain_flags = item.flags;
  drain_source = item.source;
  draining = true;
  batch_active = true;
}

-- The loop of `load_next_item`, over the items that it pops.
unfoldable pub load_from : Bool → List Item → Queue → Queue × Bool
load_from memory [] q = (record q { batch_active = false }, false)
load_from memory (item ∷ rest) q =
    let next = load_from memory rest (pop_head rest q) in
    elim (take_samples memory item) [
      | none ↦ next
      | some buf ↦ (begin_item item buf (pop_head rest q), true)
    ]

-- `load_next_item`
unfoldable pub load_next_item : Bool → Queue → Queue × Bool
unfolding load_from
load_next_item memory q = load_from memory q.items q

-- The gap of `kerchunk_queue_drain`: a frame of silence, and the gap shorter by what fits.
abbrev pub drain_gap : ℕ → Queue → Queue × List ℤ
drain_gap max_n q =
    let gap_n = if ltb q.gap_remaining max_n then q.gap_remaining else max_n in
    (record q { gap_remaining = q.gap_remaining - gap_n }, replicate max_n (pos 0))

abbrev is_file : ItemType → Bool
is_file audio_file = true
is_file _ = false

abbrev is_nil : List Item → Bool
is_nil [] = true
is_nil (x ∷ xs) = false

-- The end of an item: a gap follows if it was a file and another item waits.
unfoldable pub end_item : Queue → Queue
end_item q = record q {
  draining = false;
  drain_buf = none;
  gap_remaining =
      if not (is_nil q.items) && is_file q.drain_type then gap_samples q else q.gap_remaining;
}

-- The copy of `kerchunk_queue_drain`: a frame from the drain buffer, padded with silence.
unfoldable pub copy_frame : ℕ → Queue → Queue × List ℤ
unfolding end_item
copy_frame max_n q =
    let remaining = q.drain_len - q.drain_pos in
    let to_copy = if ltb remaining max_n then remaining else max_n in
    let out =
      take to_copy (drop q.drain_pos (samples q.drain_buf))
      ++ replicate (max_n - to_copy) (pos 0) in
    let q' = record q { drain_pos = q.drain_pos + to_copy } in
    (if leb q'.drain_len q'.drain_pos then end_item q' else q', out)

-- `kerchunk_queue_drain`; the result is the number of samples, `max_n` or 0, with the frame.
unfoldable pub drain : Bool → ℕ → Queue → Queue × ℕ × List ℤ
unfolding load_next_item copy_frame
drain memory max_n q =
    if max_n == 0
    then (q, 0, [])
    else if ltb 0 q.gap_remaining
    then (let (q', out) = drain_gap max_n q in (q', max_n, out))
    else if not q.draining || leb q.drain_len q.drain_pos
    then (let (q', loaded) = load_next_item memory (record q { draining = false }) in
        if loaded then (let (q'', out) = copy_frame max_n q' in (q'', max_n, out)) else (q', 0, []))
    else (let (q', out) = copy_frame max_n q in (q', max_n, out))

-- What `kerchunk_queue_flush` and `kerchunk_queue_shutdown` reset; the flush returns how many items
-- it dropped. The gap is left as it is.
unfoldable pub flush : Queue → Queue × ℕ
flush q = (
  record q {
    items = [];
    count = 0;
    drain_buf = none;
    drain_len = 0;
    drain_pos = 0;
    draining = false;
    batch_active = false;
  },
  length q.items,
)

-- `kerchunk_queue_shutdown`
unfoldable pub shutdown : Queue → Queue
unfolding flush
shutdown q = (flush q).0

abbrev is_tagged : List ℕ → Bool
is_tagged [] = false
is_tagged (c ∷ s) = true

abbrev pub head_source : List Item → List ℕ
head_source [] = []
head_source (x ∷ xs) = x.source

-- The source that `kerchunk_queue_preempt` reports, before the clip to the caller's buffer.
unfoldable pub playing_source : Queue → List ℕ
playing_source q =
    if q.draining && is_tagged q.drain_source then q.drain_source else head_source q.items

-- `kerchunk_queue_preempt`: what was playing, and the number of items dropped, the drained one
-- included.
unfoldable pub preempt : Queue → Queue × ℕ × List ℕ
unfolding playing_source
preempt q =
    let q' = record q { items = []; count = 0; batch_active = false; gap_remaining = 0 } in
    let dropped = length q.items in
    if q.draining
    then (
      record q' { drain_buf = none; drain_len = 0; drain_pos = 0; draining = false },
      dropped + 1,
      playing_source q,
    )
    else (q', dropped, playing_source q)

-- `kerchunk_queue_depth`, `kerchunk_queue_is_draining`, `kerchunk_queue_drain_flags` and
-- `kerchunk_queue_drain_source`
unfoldable pub depth : Queue → ℕ
depth q = q.count

unfoldable pub is_draining : Queue → Bool
is_draining q = q.draining

unfoldable pub last_flags : Queue → ℕ
last_flags q = q.last_drain_flags

unfoldable pub drain_source_of : Queue → List ℕ
drain_source_of q = q.drain_source

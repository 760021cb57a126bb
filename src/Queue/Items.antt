-- ===== src/Queue/Items.antt =====
-- The state of src/kerchunk_queue.c and the operations of producers. Samples are integers, a source
-- tag is the list of its bytes. Item ids are numbers: `g_next_id` would pass `INT_MAX` after two
-- thousand million items only. Memory is an argument: whether the allocations of the call succeed.
use kerchunk.Prelude.{
  ℕ, ◌+◌, ◌*◌, ◌/◌, Bool, true, false, not, ◌&&◌, ◌||◌, ℤ, pos, pos_part, is_pos, ltb_ℤ, ltb, leb,
  ◌==◌, if◌then◌else◌, Option, none, some, List, [], ◌∷◌, ◌++◌, length, take, replicate,
}

-- `kerchunk_queue_item_type_t`
pub data ItemType : Type 0 where
  audio_file audio_buffer tone silence : ItemType

-- `kerchunk_queue_item_t` without its link: the samples that the item points to, if any.
pub record Item : Type 0 where
  pub id : ℕ
  pub kind : ItemType
  pub priority : ℤ
  pub flags : ℕ
  pub source : List ℕ
  pub buf : Option (List ℤ)
  pub owns : Bool

-- The file-scope variables.
pub record Queue : Type 0 where
  pub rate : ℕ
  pub items : List Item
  pub next_id : ℕ
  pub count : ℕ
  pub drain_buf : Option (List ℤ)
  pub drain_len : ℕ
  pub drain_pos : ℕ
  pub draining : Bool
  pub drain_item_id : ℕ
  pub drain_type : ItemType
  pub drain_flags : ℕ
  pub last_drain_flags : ℕ
  pub drain_source : List ℕ
  pub batch_active : Bool
  pub gap_remaining : ℕ

-- `MAX_QUEUE_DEPTH`
abbrev pub max_queue_depth : ℕ
max_queue_depth = 256

-- `kerchunk_queue_init`
unfoldable pub init : Queue → Queue
init q = record q {
  items = [];
  next_id = 1;
  count = 0;
  drain_buf = none;
  drain_len = 0;
  drain_pos = 0;
  draining = false;
  batch_active = false;
}

-- `kerchunk_queue_set_rate`
unfoldable pub set_rate : Queue → ℕ → Queue
set_rate q r = record q { rate = r }

-- The walk of `insert_item` behind the head: past every item of at least the new one's priority.
unfoldable pub insert_after : Item → List Item → List Item
insert_after item [] = item ∷ []
insert_after item (x ∷ xs) =
    if not (ltb_ℤ x.priority item.priority) then x ∷ insert_after item xs else item ∷ x ∷ xs

-- `insert_item` on an idle queue.
unfoldable pub insert_priority : Item → List Item → List Item
unfolding insert_after
insert_priority item [] = item ∷ []
insert_priority item (x ∷ xs) =
    if ltb_ℤ x.priority item.priority then item ∷ x ∷ xs else x ∷ insert_after item xs

-- A batch is being played: new items may not go in front.
abbrev pub mid_playback : Queue → Bool
mid_playback q = q.batch_active || (q.draining || ltb 0 q.gap_remaining)

-- `insert_item`; the flag is false for the result -1.
unfoldable pub insert_item : Item → Queue → Queue × Bool
insert_item item q = if leb max_queue_depth q.count then (q, false) else (
  record q {
    items = if mid_playback q then q.items ++ (item ∷ []) else insert_priority item q.items;
    count = q.count + 1;
  },
  true,
)

-- The item that the adding functions fill in.
abbrev pub new_item : ItemType → List ℤ → ℤ → ℕ → Queue → Item
new_item kind buf priority flags q = record {
  id = q.next_id;
  kind = kind;
  priority = priority;
  flags = flags;
  source = [];
  buf = some buf;
  owns = true;
}

-- What the adding functions share once the samples are ready: an id is taken, also where the queue
-- turns out to be full. The result is the id, or `none` for -1.
unfoldable pub add_item : ItemType → List ℤ → ℤ → ℕ → Queue → Queue × Option ℕ
unfolding insert_item
add_item kind buf priority flags q =
    let (q', done) =
      insert_item (new_item kind buf priority flags q) (record q { next_id = q.next_id + 1 }) in
    (q', if done then some q.next_id else none)

-- `kerchunk_queue_add_buffer`; a missing buffer is `none`.
unfoldable pub add_buffer : Bool → Option (List ℤ) → ℤ → ℕ → Queue → Queue × Option ℕ
unfolding add_item
add_buffer memory none priority flags q = (q, none)
add_buffer memory (some buf) priority flags q =
    if length buf == 0 || not memory then (q, none) else add_item audio_buffer buf priority flags q

-- `kerchunk_queue_add_file`: `wav` and `pcm` are what the two readers of src/kerchunk_wav.c return
-- for the path (samples with their rate, and raw samples of rate 0), `resample` is its resampler.
unfoldable pub add_file :
    Bool
    → Option (List ℤ × ℕ)
    → Option (List ℤ)
    → (List ℤ → ℕ → ℕ → Option (List ℤ))
    → ℤ
    → Queue
    → Queue × Option ℕ
unfolding add_item
add_file memory none none resample priority q = (q, none)
add_file memory none (some buf) resample priority q =
    if memory then add_item audio_file buf priority 0 q else (q, none)
add_file memory (some (buf, rate)) pcm resample priority q =
    let fitted =
      if not (rate == 0) && not (rate == q.rate)
      then elim (resample buf rate q.rate) [ none ↦ buf | some b ↦ b ]
      else buf in
    if memory then add_item audio_file fitted priority 0 q else (q, none)

-- `((size_t)g_queue_rate * (size_t)duration_ms) / 1000`
abbrev pub duration_samples : Queue → ℤ → ℕ
duration_samples q ms = q.rate * pos_part ms / 1000

abbrev pub valid_duration : ℤ → Bool
valid_duration ms = is_pos ms && leb (pos_part ms) 300000

-- `kerchunk_queue_add_tone`: `render` is libplcode's tone encoder; where it cannot be made, the
-- buffer stays silent.
unfoldable pub add_tone :
    Bool → (ℤ → ℤ → ℕ → Option (List ℤ)) → ℤ → ℤ → ℤ → ℤ → Queue → Queue × Option ℕ
unfolding add_item
add_tone memory render freq_hz ms amplitude priority q =
    if is_pos freq_hz && (valid_duration ms && memory)
    then (let n = duration_samples q ms in
        let quiet = replicate n (pos 0) in
        let samples : List ℤ = elim (render freq_hz amplitude n) [ none ↦ quiet | some b ↦ b ] in
        add_item audio_buffer samples priority 0 q)
    else (q, none)

-- `kerchunk_queue_add_silence`
unfoldable pub add_silence : Bool → ℤ → ℤ → Queue → Queue × Option ℕ
unfolding add_item
add_silence memory ms priority q =
    if valid_duration ms && memory
    then add_item audio_buffer (replicate (duration_samples q ms) (pos 0)) priority 0 q
    else (q, none)

-- `snprintf` into a tag of `QUEUE_SOURCE_MAX` bytes keeps 15.
abbrev pub clip_source : List ℕ → List ℕ
clip_source s = take 15 s

-- The walk of `kerchunk_queue_tag_item`: the first item of the id.
unfoldable pub tag_first : ℕ → List ℕ → List Item → List Item
tag_first id source [] = []
tag_first id source (x ∷ xs) =
    if x.id == id then record x { source = clip_source source } ∷ xs else x ∷ tag_first id source xs

-- `kerchunk_queue_tag_item`
unfoldable pub tag_item : ℕ → Option (List ℕ) → Queue → Queue
unfolding tag_first
tag_item id none q = q
tag_item id (some source) q = record q { items = tag_first id source q.items }

-- `kerchunk_queue_add_buffer_src`, `_add_tone_src` and `_add_silence_src`: the plain function, and
-- then the tag on the id that it returned.
unfoldable pub add_src : (Queue → Queue × Option ℕ) → Option (List ℕ) → Queue → Queue × Option ℕ
unfolding tag_item
add_src add source q =
    let (q', id) = add q in elim id [ none ↦ (q', none) | some n ↦ (tag_item n source q', some n) ]

-- ===== src/Tests/QueueTests.antt =====
-- Runs of src/kerchunk_queue.c.
use kerchunk.Prelude.{ℕ, ◌<◌, ◌≡◌, refl, true, false, pos, none, some, [], ◌∷◌, arith, replicate}
use kerchunk.Queue.Items.{audio_file, audio_buffer, Item, Queue}
use kerchunk.Queue.Invariant.{IsValid}
use kerchunk.Queue.Frames.{play, play_lem}

abbrev spoken : Item
spoken = record {
  id = 1;
  kind = audio_file;
  priority = pos 5;
  flags = 0;
  source = [];
  buf = some (pos 1 ∷ pos 2 ∷ pos 3 ∷ []);
  owns = true;
}

abbrev idle : Queue
idle = record {
  rate = 1000;
  items = spoken ∷ record spoken { id = 2; priority = pos 3 } ∷ [];
  next_id = 3;
  count = 2;
  drain_buf = none;
  drain_len = 0;
  drain_pos = 0;
  draining = false;
  drain_item_id = 0;
  drain_type = audio_buffer;
  drain_flags = 0;
  last_drain_flags = 0;
  drain_source = [];
  batch_active = false;
  gap_remaining = 0;
}

idle-IsValid : IsValid idle
idle-IsValid = ground arith

-- The first file is being sent: two of its three samples are left.
abbrev playing : Queue
playing = record idle {
  items = record spoken { id = 2; priority = pos 3 } ∷ [];
  count = 1;
  drain_buf = some (pos 1 ∷ pos 2 ∷ pos 3 ∷ []);
  drain_len = 3;
  drain_pos = 1;
  draining = true;
  batch_active = true;
}

playing-IsValid : IsValid playing
playing-IsValid = ground arith

play_lem_example : (z : ℕ) × (z < 4) × (play true 4 3 playing ≡ pos 2 ∷ pos 3 ∷ replicate z (pos 0))
play_lem_example =
    play_lem true 4 3 playing (omega arith) playing-IsValid refl refl (omega arith) (omega arith)

abbrev in_gap : Queue
in_gap = record playing { draining = false; drain_buf = none; gap_remaining = 10 }

-- ===== src/Rrd/Rotate.antt =====
-- The rotation of the rings of src/kerchunk_rrd.c.
use kerchunk.Prelude.{ℕ, zero, suc, ◌+◌, ◌-◌, ◌/◌, ◌%◌, ltb, leb, if◌then◌else◌}
use kerchunk.Rrd.{Slot, zero_slot, Rrd, put_slot, u32, minutes_max, hours_max, days_max}

abbrev pub add_slot : Slot → Slot → Slot
add_slot a b = record {
  rx_count = u32 (a.rx_count + b.rx_count);
  tx_count = u32 (a.tx_count + b.tx_count);
  rx_ms = u32 (a.rx_ms + b.rx_ms);
  tx_ms = u32 (a.tx_ms + b.tx_ms);
}

-- The loop of the two consolidations: the slots below so many, added in order.
unfoldable pub sum_slots : ℕ → (ℕ → Slot) → Slot
sum_slots zero f = zero_slot
sum_slots (suc n) f = add_slot (sum_slots n f) (f n)

-- `consolidate_minutes_to_hour`
unfoldable pub consolidate_minutes : Rrd → Rrd
unfolding sum_slots
consolidate_minutes d = record d {
  hours = put_slot d.hour_idx (sum_slots minutes_max d.minutes) d.hours;
}

-- `consolidate_hours_to_day`. The loop of the source reads the hours only.
unfoldable pub consolidate_hours : Rrd → Rrd
unfolding sum_slots
consolidate_hours d = record d { days = put_slot d.day_idx (sum_slots hours_max d.hours) d.days }

-- The bodies of the three rotations.
unfoldable pub next_minute : Rrd → Rrd
next_minute d =
    let i = (d.minute_idx + 1) % minutes_max in
    record d { minute_idx = i; minutes = put_slot i zero_slot d.minutes }

unfoldable pub next_hour : Rrd → Rrd
unfolding consolidate_minutes
next_hour d0 =
    let d = consolidate_minutes d0 in
    let i = (d.hour_idx + 1) % hours_max in
    record d { hour_idx = i; hours = put_slot i zero_slot d.hours }

unfoldable pub next_day : Rrd → Rrd
unfolding consolidate_hours
next_day d0 =
    let d = consolidate_hours d0 in
    let i = (d.day_idx + 1) % days_max in
    record d { day_idx = i; days = put_slot i zero_slot d.days }

unfoldable pub repeat : ℕ → (Rrd → Rrd) → Rrd → Rrd
repeat zero f d = d
repeat (suc n) f d = repeat n f (f d)

abbrev pub at_most : ℕ → ℕ → ℕ
at_most limit n = if ltb limit n then limit else n

-- The three parts of `kerchunk_rrd_tick`.
unfoldable pub rotate_minutes : ℕ → Rrd → Rrd
unfolding repeat next_minute
rotate_minutes now d =
    if leb 60 (now - d.last_minute_ts)
    then (let d' = repeat (at_most minutes_max ((now - d.last_minute_ts) / 60)) next_minute d in
        record d' { last_minute_ts = now })
    else d

unfoldable pub rotate_hours : ℕ → Rrd → Rrd
unfolding repeat next_hour
rotate_hours now d =
    if leb 3600 (now - d.last_hour_ts)
    then (let d' = repeat (at_most hours_max ((now - d.last_hour_ts) / 3600)) next_hour d in
        record d' { last_hour_ts = now })
    else d

unfoldable pub rotate_days : ℕ → Rrd → Rrd
unfolding repeat next_day
rotate_days now d =
    if leb 86400 (now - d.last_day_ts)
    then (let d' = repeat (at_most days_max ((now - d.last_day_ts) / 86400)) next_day d in
        record d' { last_day_ts = now })
    else d

-- `kerchunk_rrd_tick`
unfoldable pub rrd_tick : ℕ → Rrd → Rrd
unfolding rotate_minutes rotate_hours rotate_days
rrd_tick now d = rotate_days now (rotate_hours now (rotate_minutes now d))

-- ===== src/Rrd.antt =====
-- src/kerchunk_rrd.c: the round-robin record of the repeater's use. The file is its contents; an array of
-- slots is a function of the index. The time is an argument, in seconds since 1970, and never before a
-- time stamp of the file. `gmtime_r` gives the remainders of the time.
pub mod Rotate
pub mod Record
pub mod Hours
pub mod Users
use kerchunk.Prelude.{
  ℕ, zero, suc, ◌+◌, ◌-◌, ◌*◌, ◌/◌, ◌%◌, ◌^◌, ltb, leb, ◌==◌, if◌then◌else◌, List, [], ◌∷◌,
}
use kerchunk.Text.{Bytes}

abbrev pub minutes_max : ℕ
minutes_max = 60

abbrev pub hours_max : ℕ
hours_max = 24

abbrev pub days_max : ℕ
days_max = 30

abbrev pub users_max : ℕ
users_max = 64

-- `uint32_t`
abbrev pub u32 : ℕ → ℕ
u32 n = n % 2 ^ 32

-- `rrd_slot_t`
pub record Slot : Type 0 where
  pub rx_count : ℕ
  pub tx_count : ℕ
  pub rx_ms : ℕ
  pub tx_ms : ℕ

abbrev pub zero_slot : Slot
zero_slot = record { rx_count = 0; tx_count = 0; rx_ms = 0; tx_ms = 0 }

-- `rrd_user_t`
pub record RrdUser : Type 0 where
  pub user_id : ℕ
  pub name : Bytes
  pub tx_count : ℕ
  pub tx_time_ms : ℕ
  pub last_heard : ℕ
  pub longest_ms : ℕ

-- `rrd_counters_t`
pub record Counters : Type 0 where
  pub rx_time_ms : ℕ
  pub tx_time_ms : ℕ
  pub rx_count : ℕ
  pub tx_count : ℕ
  pub longest_rx_ms : ℕ
  pub shortest_rx_ms : ℕ
  pub kerchunk_count : ℕ
  pub tot_events : ℕ
  pub emergency_count : ℕ
  pub access_denied : ℕ
  pub dtmf_commands : ℕ
  pub cwid_count : ℕ
  pub pages_sent : ℕ
  pub weather_count : ℕ
  pub nws_alerts : ℕ
  pub phone_calls : ℕ
  pub queue_items : ℕ
  pub cdr_records : ℕ
  pub restarts : ℕ
  pub total_uptime_ms : ℕ
  pub start_time : ℕ

-- `rrd_file_t` behind its magic number; `users` has `user_count` entries.
pub record Rrd : Type 0 where
  pub minute_idx : ℕ
  pub hour_idx : ℕ
  pub day_idx : ℕ
  pub last_minute_ts : ℕ
  pub last_hour_ts : ℕ
  pub last_day_ts : ℕ
  pub minutes : ℕ → Slot
  pub hours : ℕ → Slot
  pub days : ℕ → Slot
  pub counters : Counters
  pub users : List RrdUser

abbrev pub put_slot : ℕ → Slot → (ℕ → Slot) → ℕ → Slot
put_slot i x f j = if i == j then x else f j

abbrev pub zero_counters : Counters
zero_counters = record {
  rx_time_ms = 0;
  tx_time_ms = 0;
  rx_count = 0;
  tx_count = 0;
  longest_rx_ms = 0;
  shortest_rx_ms = 0;
  kerchunk_count = 0;
  tot_events = 0;
  emergency_count = 0;
  access_denied = 0;
  dtmf_commands = 0;
  cwid_count = 0;
  pages_sent = 0;
  weather_count = 0;
  nws_alerts = 0;
  phone_calls = 0;
  queue_items = 0;
  cdr_records = 0;
  restarts = 0;
  total_uptime_ms = 0;
  start_time = 0;
}

-- The three time stamps, on the boundaries of the clock.
abbrev pub align : ℕ → Rrd → Rrd
align now d = record d {
  last_minute_ts = now - now % 60;
  last_hour_ts = now - now % 60 - now % 3600 / 60 * 60;
  last_day_ts = now - now % 60 - now % 3600 / 60 * 60 - now % 86400 / 3600 * 3600;
}

-- A zeroed file that starts now, as `kerchunk_rrd_open` makes it.
unfoldable pub rrd_fresh : ℕ → Rrd
rrd_fresh now = align now (record {
  minute_idx = 0;
  hour_idx = 0;
  day_idx = 0;
  last_minute_ts = 0;
  last_hour_ts = 0;
  last_day_ts = 0;
  minutes = λ i. zero_slot;
  hours = λ i. zero_slot;
  days = λ i. zero_slot;
  counters = record zero_counters { start_time = now };
  users = [];
})

-- What `kerchunk_rrd_open` does to a file that is there.
unfoldable pub rrd_resume : ℕ → Rrd → Rrd
rrd_resume now d =
    let c = d.counters in
    align now (record d {
      counters = record c {
        restarts = u32 (c.restarts + 1);
        total_uptime_ms =
            if ltb 0 c.start_time
            then (c.total_uptime_ms + (now - c.start_time) * 1000) % 2 ^ 64
            else c.total_uptime_ms;
        start_time = now;
      };
    })

-- `kerchunk_rrd_reset`
unfoldable pub rrd_reset : ℕ → Rrd → Rrd
unfolding rrd_fresh
rrd_reset now d =
    let f = rrd_fresh now in
    record f { counters = record (f.counters) { restarts = d.counters.restarts } }

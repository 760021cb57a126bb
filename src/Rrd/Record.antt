-- ===== src/Rrd/Record.antt =====
-- What src/kerchunk_rrd.c records: transmissions, counters and users.
use kerchunk.Prelude.{
  ℕ, ◌+◌, ◌%◌, ◌^◌, ◌||◌, ltb, leb, ◌==◌, if◌then◌else◌, Option, none, some, List, [], ◌∷◌, ◌++◌,
  length,
}
use kerchunk.Text.{Bytes, fit}
use kerchunk.User.{decimal}
use kerchunk.Rrd.{Rrd, RrdUser, Counters, put_slot, u32, users_max}

abbrev pub user_update : ℕ → ℕ → RrdUser → RrdUser
user_update dur now u = record u {
  tx_count = u32 (u.tx_count + 1);
  tx_time_ms = (u.tx_time_ms + dur) % 2 ^ 64;
  last_heard = now;
  longest_ms = if ltb u.longest_ms dur then dur else u.longest_ms;
}

-- The loop over the users of `kerchunk_rrd_record_rx`: the first of the id is brought up to date.
unfoldable pub update_user : ℕ → ℕ → ℕ → List RrdUser → List RrdUser
update_user id dur now [] = []
update_user id dur now (u ∷ us) =
    let rest = update_user id dur now us in
    if u.user_id == id then user_update dur now u ∷ us else u ∷ rest

-- The scalar counters of `kerchunk_rrd_record_rx`.
abbrev pub count_rx : ℕ → Counters → Counters
count_rx dur c = record c {
  rx_count = u32 (c.rx_count + 1);
  rx_time_ms = (c.rx_time_ms + dur) % 2 ^ 64;
  longest_rx_ms = if ltb c.longest_rx_ms dur then dur else c.longest_rx_ms;
  shortest_rx_ms =
      if c.shortest_rx_ms == 0 || ltb dur c.shortest_rx_ms then dur else c.shortest_rx_ms;
  kerchunk_count = if ltb dur 1000 then u32 (c.kerchunk_count + 1) else c.kerchunk_count;
}

-- `kerchunk_rrd_record_rx`; the user 0 stands for none.
unfoldable pub record_rx : ℕ → ℕ → ℕ → Rrd → Rrd
unfolding update_user
record_rx dur id now d =
    let m = d.minutes d.minute_idx in
    record d {
      minutes =
          put_slot d.minute_idx
            (record m { rx_count = u32 (m.rx_count + 1); rx_ms = u32 (m.rx_ms + dur) }) d.minutes;
      counters = count_rx dur d.counters;
      users = if ltb 0 id then update_user id dur now d.users else d.users;
    }

-- `kerchunk_rrd_record_tx`
unfoldable pub record_tx : ℕ → Rrd → Rrd
record_tx dur d =
    let m = d.minutes d.minute_idx in
    let c = d.counters in
    record d {
      minutes =
          put_slot d.minute_idx
            (record m { tx_count = u32 (m.tx_count + 1); tx_ms = u32 (m.tx_ms + dur) }) d.minutes;
      counters = record c {
        tx_count = u32 (c.tx_count + 1);
        tx_time_ms = (c.tx_time_ms + dur) % 2 ^ 64;
        queue_items = u32 (c.queue_items + 1);
      };
    }

-- The names that `kerchunk_rrd_inc` knows.
pub data CounterName : Type 0 where
  dtmf cwid page weather nws phone tot emergency denied cdr : CounterName

-- `kerchunk_rrd_inc` at a name that it knows; at any other it does nothing.
unfoldable pub count : CounterName → Counters → Counters
count dtmf c = record c { dtmf_commands = u32 (c.dtmf_commands + 1) }
count cwid c = record c { cwid_count = u32 (c.cwid_count + 1) }
count page c = record c { pages_sent = u32 (c.pages_sent + 1) }
count weather c = record c { weather_count = u32 (c.weather_count + 1) }
count nws c = record c { nws_alerts = u32 (c.nws_alerts + 1) }
count phone c = record c { phone_calls = u32 (c.phone_calls + 1) }
count tot c = record c { tot_events = u32 (c.tot_events + 1) }
count emergency c = record c { emergency_count = u32 (c.emergency_count + 1) }
count denied c = record c { access_denied = u32 (c.access_denied + 1) }
count cdr c = record c { cdr_records = u32 (c.cdr_records + 1) }

unfoldable pub rrd_inc : CounterName → Rrd → Rrd
unfolding count
rrd_inc name d = record d { counters = count name d.counters }

-- The loop of `kerchunk_rrd_user`.
unfoldable pub find_user : ℕ → List RrdUser → Option RrdUser
find_user id [] = none
find_user id (u ∷ us) = let rest = find_user id us in if u.user_id == id then some u else rest

-- The name of a new user; an absent name is replaced by one made of the id.
abbrev pub name_or_id : ℕ → Option Bytes → Bytes
name_or_id id none = b'u' ∷ b's' ∷ b'e' ∷ b'r' ∷ b'_' ∷ decimal 10 id
name_or_id id (some name) = fit 32 name

abbrev pub new_user : ℕ → Option Bytes → RrdUser
new_user id name = record {
  user_id = id;
  name = name_or_id id name;
  tx_count = 0;
  tx_time_ms = 0;
  last_heard = 0;
  longest_ms = 0;
}

-- `kerchunk_rrd_user`; `none` is NULL.
unfoldable pub rrd_user : ℕ → Option Bytes → Rrd → Rrd × Option RrdUser
unfolding find_user
rrd_user id name d = if id == 0 then (d, none) else (elim (find_user id d.users) [
  | some u ↦ (d, some u)
  | none ↦
      if leb users_max (length d.users)
      then (d, none)
      else (record d { users = d.users ++ (new_user id name ∷ []) }, some (new_user id name))
])

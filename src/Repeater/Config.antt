-- ===== src/Repeater/Config.antt =====
-- The limits that `repeater_configure` of modules/mod_repeater.c puts on the configuration.
use kerchunk.Prelude.{ℕ, Bool, true, ◌≡◌, ℤ, pos, negsuc, ◌≤◌, ◌≤ℤ◌, ltb_ℤ, if◌then◌else◌, arith}
use kerchunk.Repeater.{Settings}
use kerchunk.Repeater.Handlers.{debounce_ms}

-- What `kerchunk_config_get_duration_ms` and `kerchunk_config_get` give for the keys of [repeater].
pub record RptKeys : Type 0 where
  pub tail_time : ℤ
  pub hang_time : ℤ
  pub timeout_time : ℤ
  pub cor_debounce : ℤ
  pub require_identification : Bool
  pub relay_on : Bool

-- `if (v < lo) v = lo; if (v > hi) v = hi;`
unfoldable pub clamp : ℤ → ℤ → ℤ → ℤ
clamp lo hi v = let v1 = if ltb_ℤ v lo then lo else v in if ltb_ℤ hi v1 then hi else v1

-- `repeater_configure`
unfoldable pub repeater_configure : RptKeys → Settings → Settings
repeater_configure k s = record s {
  tail_time_ms = clamp (pos 0) (pos 30000) k.tail_time;
  hang_time_ms = clamp (pos 0) (pos 10000) k.hang_time;
  tot_time_ms = clamp (pos 10000) (pos 600000) k.timeout_time;
  cor_debounce_ms = clamp (pos 0) (pos 5000) k.cor_debounce;
  require_id = k.require_identification;
  software_relay = k.relay_on;
}

clamp-bounds :
    (lo hi : ℕ) (v : ℤ)
    → lo ≤ hi
    → (pos lo ≤ℤ clamp (pos lo) (pos hi) v) × (clamp (pos lo) (pos hi) v ≤ℤ pos hi)
unfolding clamp
clamp-bounds lo hi (pos n) h = ground arith
clamp-bounds lo hi (negsuc n) h = ground arith

-- Whatever the configuration holds: the tail is at most 30 s, the hang time at most 10 s, the time-out
-- between 10 s and 10 minutes, and a debounce at most 5 s; with identification required a rise of COR
-- is debounced for 500 ms at least.
pub repeater_configure_lem :
    (k : RptKeys) (s : Settings)
    → let c = repeater_configure k s in
      (pos 0 ≤ℤ c.tail_time_ms)
      × (c.tail_time_ms ≤ℤ pos 30000)
      × (pos 0 ≤ℤ c.hang_time_ms)
      × (c.hang_time_ms ≤ℤ pos 10000)
      × (pos 10000 ≤ℤ c.tot_time_ms)
      × (c.tot_time_ms ≤ℤ pos 600000)
      × (pos 0 ≤ℤ debounce_ms c)
      × (debounce_ms c ≤ℤ pos 5000)
      × (c.require_id ≡ true → pos 500 ≤ℤ debounce_ms c)
unfolding repeater_configure debounce_ms
repeater_configure_lem k s = ground (
  arith,
  clamp-bounds 0 30000 k.tail_time,
  clamp-bounds 0 10000 k.hang_time,
  clamp-bounds 10000 600000 k.timeout_time,
  clamp-bounds 0 5000 k.cor_debounce,
)

-- ===== src/Rrd/Hours.antt =====
-- What an hour's slot holds once src/kerchunk_rrd.c has closed it.
use kerchunk.Prelude.{
  ℕ, zero, suc, ◌+◌, ◌-◌, ◌%◌, ◌/◌, ◌<◌, ◌≤◌, ◌≡◌, refl, ap, ◌∙◌, ◌==◌, leb, if◌then◌else◌, true,
  false, arith, Bool-cases, inl, inr,
}
use kerchunk.Rrd.{Slot, Rrd, zero_slot, put_slot, u32, minutes_max, hours_max}
use kerchunk.Rrd.Rotate.{
  add_slot, sum_slots, consolidate_minutes, next_minute, next_hour, repeat, at_most, rotate_minutes,
  rotate_hours, rotate_days, rrd_tick,
}

-- The slots below so many but one, added.
unfoldable pub sum_but : ℕ → ℕ → (ℕ → Slot) → Slot
sum_but k zero f = zero_slot
sum_but k (suc n) f = let rest = sum_but k n f in if n == k then rest else add_slot rest (f n)

record IsBounded (s : Slot) : Type 0 where
  rx_count_lt : u32 s.rx_count ≡ s.rx_count
  tx_count_lt : u32 s.tx_count ≡ s.tx_count
  rx_ms_lt : u32 s.rx_ms ≡ s.rx_ms
  tx_ms_lt : u32 s.tx_ms ≡ s.tx_ms

sum_but-IsBounded : (k n : ℕ) (f : ℕ → Slot) → IsBounded (sum_but k n f)
unfolding sum_but
sum_but-IsBounded k zero f = omega arith
sum_but-IsBounded k (suc n) f = ground (arith, sum_but-IsBounded k n f)

add_slot-zero_slot : (s : Slot) → IsBounded s → add_slot s zero_slot ≡ s
add_slot-zero_slot s b = ground arith

sum_slots-put_slot : (k n : ℕ) (f : ℕ → Slot) → sum_slots n (put_slot k zero_slot f) ≡ sum_but k n f
unfolding sum_slots sum_but
sum_slots-put_slot k zero f = refl
sum_slots-put_slot k (suc n) f = elim (Bool-cases (n == k)) [
  | inl e ↦ ground (
    arith,
    sum_slots-put_slot k n f,
    add_slot-zero_slot (sum_but k n f) (sum_but-IsBounded k n f),
  )
  | inr e ↦ ground (arith, sum_slots-put_slot k n f)
]

-- One round of a rotation.
once_minutes :
    (now : ℕ) (d : Rrd)
    → 60 ≤ now - d.last_minute_ts
    → now - d.last_minute_ts < 120
    → rotate_minutes now d ≡ record (next_minute d) { last_minute_ts = now }
unfolding rotate_minutes repeat
once_minutes now d a b =
    let one : at_most minutes_max ((now - d.last_minute_ts) / 60) ≡ 1 = ground arith in
    let due : leb 60 (now - d.last_minute_ts) ≡ true = ground arith in rw (due, one) refl

once_hours :
    (now : ℕ) (d : Rrd)
    → 3600 ≤ now - d.last_hour_ts
    → now - d.last_hour_ts < 7200
    → rotate_hours now d ≡ record (next_hour d) { last_hour_ts = now }
unfolding rotate_hours repeat
once_hours now d a b =
    let one : at_most hours_max ((now - d.last_hour_ts) / 3600) ≡ 1 = ground arith in
    let due : leb 3600 (now - d.last_hour_ts) ≡ true = ground arith in rw (due, one) refl

no_days : (now : ℕ) (d : Rrd) → now - d.last_day_ts < 86400 → rotate_days now d ≡ d
unfolding rotate_days
no_days now d h = let due : leb 86400 (now - d.last_day_ts) ≡ false = ground arith in rw due refl

closed_hour :
    (d : Rrd)
    → d.hour_idx < hours_max
    → (next_hour d).hours d.hour_idx ≡ sum_slots minutes_max d.minutes
unfolding next_hour consolidate_minutes
closed_hour d h = ground arith

-- At a tick that closes an hour, with one minute due and no day, the hour is given the sum of the slots
-- of all minutes but the one that the minute's rotation has just taken for the new minute.
pub hour_loses_minute :
    (now : ℕ) (d : Rrd)
    → d.hour_idx < hours_max
    → 60 ≤ now - d.last_minute_ts
    → now - d.last_minute_ts < 120
    → 3600 ≤ now - d.last_hour_ts
    → now - d.last_hour_ts < 7200
    → now - d.last_day_ts < 86400
    → (rrd_tick now d).hours d.hour_idx
      ≡ sum_but ((d.minute_idx + 1) % minutes_max) minutes_max d.minutes
unfolding rrd_tick next_minute
hour_loses_minute now d i a b c e g =
    let d1 : Rrd = record (next_minute d) { last_minute_ts = now } in
    let d2 : Rrd = record (next_hour d1) { last_hour_ts = now } in
    let m = once_minutes now d a b in
    let h = once_hours now d1 c e in
    ap (λ x. (rotate_days now (rotate_hours now x)).hours d.hour_idx) m
    ∙ ap (λ x. (rotate_days now x).hours d.hour_idx) h
    ∙ ap (λ x. x.hours d.hour_idx) (no_days now d2 g)
    ∙ closed_hour d1 i
    ∙ sum_slots-put_slot ((d.minute_idx + 1) % minutes_max) minutes_max d.minutes

-- ===== src/Rrd/Users.antt =====
-- The users of src/kerchunk_rrd.c, and the bounds that its file keeps.
use kerchunk.Prelude.{
  ℕ, zero, suc, ◌-◌, ◌/◌, ◌<◌, ◌≤◌, ◌≡◌, ◌≢◌, refl, Bool, true, false, ◌&&◌, leb, ◌==◌,
  if◌then◌else◌, Option, none, some, List, [], ◌∷◌, ◌++◌, length, length-append, arith, Bool-cases,
  Option-cases, inl, inr,
}
use kerchunk.Text.{Bytes}
use kerchunk.Rrd.{Rrd, RrdUser, users_max, minutes_max, hours_max, days_max, rrd_resume, rrd_reset}
use kerchunk.Rrd.Rotate.{
  consolidate_minutes, consolidate_hours, next_minute, next_hour, next_day, repeat, at_most,
  rotate_minutes, rotate_hours, rotate_days, rrd_tick,
}
use kerchunk.Rrd.Record.{
  update_user, record_rx, record_tx, CounterName, rrd_inc, find_user, new_user, rrd_user,
}

-- No user has the id.
abbrev pub LacksUser : ℕ → List RrdUser → Type 0
LacksUser id [] = Unit {0}
LacksUser id (u ∷ us) = (u.user_id ≢ id) × LacksUser id us

abbrev pub DistinctUsers : List RrdUser → Type 0
DistinctUsers [] = Unit {0}
DistinctUsers (u ∷ us) = (0 < u.user_id) × LacksUser u.user_id us × DistinctUsers us

pub record IsValid (d : Rrd) : Type 0 where
  pub minute_lt : d.minute_idx < minutes_max
  pub hour_lt : d.hour_idx < hours_max
  pub day_lt : d.day_idx < days_max
  pub users_le : length d.users ≤ users_max
  pub distinct : DistinctUsers d.users

find_user-LacksUser : (id : ℕ) (us : List RrdUser) → find_user id us ≡ none → LacksUser id us
unfolding find_user
find_user-LacksUser id [] h = tt
find_user-LacksUser id (u ∷ us) h = elim (Bool-cases (u.user_id == id)) [
  | inl e ↦ ground arith
  | inr e ↦ (ground arith, find_user-LacksUser id us (ground arith))
]

LacksUser-append :
    (id : ℕ) (us : List RrdUser) (u : RrdUser)
    → LacksUser id us
    → id ≢ u.user_id
    → LacksUser id (us ++ (u ∷ []))
LacksUser-append id [] u l n = ground arith
LacksUser-append id (v ∷ us) u l n = (l.0, LacksUser-append id us u l.1 n)

DistinctUsers-append :
    (us : List RrdUser) (u : RrdUser)
    → DistinctUsers us
    → LacksUser u.user_id us
    → 0 < u.user_id
    → DistinctUsers (us ++ (u ∷ []))
DistinctUsers-append [] u d l p = ground arith
DistinctUsers-append (v ∷ us) u d l p =
    let (q, ls, ds) = d in
    (q, LacksUser-append v.user_id us u ls (ground arith), DistinctUsers-append us u ds l.1 p)

LacksUser-update_user :
    (k id dur now : ℕ) (us : List RrdUser)
    → LacksUser k us
    → LacksUser k (update_user id dur now us)
unfolding update_user
LacksUser-update_user k id dur now [] l = tt
LacksUser-update_user k id dur now (u ∷ us) l =
    ground (arith, LacksUser-update_user k id dur now us l.1)

DistinctUsers-update_user :
    (id dur now : ℕ) (us : List RrdUser)
    → DistinctUsers us
    → DistinctUsers (update_user id dur now us) × (length (update_user id dur now us) ≡ length us)
unfolding update_user
DistinctUsers-update_user id dur now [] d = (tt, refl)
DistinctUsers-update_user id dur now (u ∷ us) d =
    let (p, l, ds) = d in
    ground (
      arith,
      DistinctUsers-update_user id dur now us ds,
      LacksUser-update_user u.user_id id dur now us l,
    )

rrd_user-IsValid :
    (id : ℕ) (name : Option Bytes) (d : Rrd) → IsValid d → IsValid (rrd_user id name d).0
unfolding rrd_user
rrd_user-IsValid id name d v = elim (Option-cases (find_user id d.users)) [
  | inl e ↦ ground (
    arith,
    DistinctUsers-append d.users (new_user id name) v.distinct (find_user-LacksUser id d.users e),
    length-append d.users (new_user id name ∷ []),
  )
  | inr (u, e) ↦ ground arith
]

record_rx-IsValid : (dur id now : ℕ) (d : Rrd) → IsValid d → IsValid (record_rx dur id now d)
unfolding record_rx
record_rx-IsValid dur id now d v =
    ground (arith, DistinctUsers-update_user id dur now d.users v.distinct)

repeat-IsValid :
    (f : Rrd → Rrd)
    → ((d : Rrd) → IsValid d → IsValid (f d))
    → (n : ℕ) (d : Rrd) → IsValid d
    → IsValid (repeat n f d)
unfolding repeat
repeat-IsValid f k zero d v = v
repeat-IsValid f k (suc n) d v = repeat-IsValid f k n (f d) (k d v)

next_minute-IsValid : (d : Rrd) → IsValid d → IsValid (next_minute d)
unfolding next_minute
next_minute-IsValid d v = ground arith

next_hour-IsValid : (d : Rrd) → IsValid d → IsValid (next_hour d)
unfolding next_hour consolidate_minutes
next_hour-IsValid d v = ground arith

next_day-IsValid : (d : Rrd) → IsValid d → IsValid (next_day d)
unfolding next_day consolidate_hours
next_day-IsValid d v = ground arith

rotate_minutes-IsValid : (now : ℕ) (d : Rrd) → IsValid d → IsValid (rotate_minutes now d)
unfolding rotate_minutes
rotate_minutes-IsValid now d v =
    let n = at_most minutes_max ((now - d.last_minute_ts) / 60) in
    ground (arith, repeat-IsValid next_minute next_minute-IsValid n d v)

rotate_hours-IsValid : (now : ℕ) (d : Rrd) → IsValid d → IsValid (rotate_hours now d)
unfolding rotate_hours
rotate_hours-IsValid now d v =
    let n = at_most hours_max ((now - d.last_hour_ts) / 3600) in
    ground (arith, repeat-IsValid next_hour next_hour-IsValid n d v)

rotate_days-IsValid : (now : ℕ) (d : Rrd) → IsValid d → IsValid (rotate_days now d)
unfolding rotate_days
rotate_days-IsValid now d v =
    let n = at_most days_max ((now - d.last_day_ts) / 86400) in
    ground (arith, repeat-IsValid next_day next_day-IsValid n d v)

rrd_tick-IsValid : (now : ℕ) (d : Rrd) → IsValid d → IsValid (rrd_tick now d)
unfolding rrd_tick
rrd_tick-IsValid now d v =
    let d1 = rotate_minutes now d in
    let d2 = rotate_hours now d1 in
    rotate_days-IsValid now d2 (rotate_hours-IsValid now d1 (rotate_minutes-IsValid now d v))

-- What is done with the file.
pub data RrdInput : Type 0 where
  tick restart reset : ℕ → RrdInput
  received : ℕ → ℕ → ℕ → RrdInput
  sent : ℕ → RrdInput
  counted : CounterName → RrdInput
  user_met : ℕ → Option Bytes → RrdInput

unfoldable pub step : RrdInput → Rrd → Rrd
step (tick now) d = rrd_tick now d
step (restart now) d = rrd_resume now d
step (reset now) d = rrd_reset now d
step (received dur id now) d = record_rx dur id now d
step (sent dur) d = record_tx dur d
step (counted name) d = rrd_inc name d
step (user_met id name) d = (rrd_user id name d).0

unfoldable pub run : List RrdInput → Rrd → Rrd
run [] d = d
run (i ∷ is) d = run is (step i d)

step-IsValid : (i : RrdInput) (d : Rrd) → IsValid d → IsValid (step i d)
unfolding step rrd_resume rrd_reset record_tx rrd_inc
step-IsValid (tick now) d v = rrd_tick-IsValid now d v
step-IsValid (restart now) d v = ground arith
step-IsValid (reset now) d v = ground arith
step-IsValid (received dur id now) d v = record_rx-IsValid dur id now d v
step-IsValid (sent dur) d v = ground arith
step-IsValid (counted name) d v = ground arith
step-IsValid (user_met id name) d v = rrd_user-IsValid id name d v

-- Over any ticks, restarts, resets, recordings, counts and users, from a valid file: the three indices
-- stay within their rings, and at most 64 users are kept, whose ids are positive and distinct.
pub run_rrd-IsValid : (is : List RrdInput) (d : Rrd) → IsValid d → IsValid (run is d)
unfolding run
run_rrd-IsValid [] d v = v
run_rrd-IsValid (i ∷ is) d v = run_rrd-IsValid is (step i d) (step-IsValid i d v)

abbrev pub is_none : Option RrdUser → Bool
is_none none = true
is_none (some u) = false

find_user-append :
    (k : ℕ) (us : List RrdUser) (u : RrdUser)
    → find_user k (us ++ (u ∷ []))
      ≡ (if is_none (find_user k us) && u.user_id == k then some u else find_user k us)
unfolding find_user
find_user-append k [] u = ground arith
find_user-append k (v ∷ us) u = ground (arith, find_user-append k us u)

-- Asking for the user of a positive id gives the one that later lookups of the id find, whether it was
-- there or is new, and changes no other lookup; it gives none exactly where the id is new and the
-- table is full.
pub rrd_user_lem :
    (id k : ℕ) (name : Option Bytes) (d : Rrd)
    → 0 < id
    → let (d', found) = rrd_user id name d in
      (find_user k d'.users ≡ (if id == k then found else find_user k d.users))
      × (is_none found ≡ (is_none (find_user id d.users) && leb users_max (length d.users)))
unfolding rrd_user
rrd_user_lem id k name d p =
    let added = find_user-append k d.users (new_user id name) in
    elim (Option-cases (find_user id d.users)) [
      | inl e ↦ ground (arith, added)
      | inr (u, e) ↦ ground (arith, added)
    ]

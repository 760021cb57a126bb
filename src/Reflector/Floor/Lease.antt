-- ===== src/Reflector/Floor/Lease.antt =====
-- The lease on the floor, of src/reflectd/main.c: once it has ended the next poll
-- frees the floor.
use kerchunk.Prelude.{
  ℕ, zero, suc, ◌+◌, ◌<◌, ◌≤◌, ◌≡◌, ◌≢◌, refl, inl, inr, ◌∙◌, true, ◌&&◌, leb, ◌==◌, Option, none,
  some, length, arith, Bool-cases, Option-cases, if◌then◌else◌, ◌-◌,
}
use kerchunk.Reflector.{
  Rcfg, Reflector, Reason, lease_expired, floor_release, floor_try_grant, is_some_talker,
  floor_tick, floor_tick_from,
}
use kerchunk.Reflector.Floor.{idle_tg}

pub release_other :
    (i tg : ℕ) (reason : Option Reason) (now : ℕ) (s : Reflector)
    → i ≢ tg
    → (floor_release i reason now s).tgs tg ≡ s.tgs tg
unfolding floor_release
release_other i tg reason now s d = elim (Option-cases (s.tgs i).talker) [
  | inl e ↦ ground arith
  | inr (h, e) ↦ ground arith
]

release_due :
    (i : ℕ) (reason : Option Reason) (now : ℕ) (s : Reflector)
    → is_some_talker (s.tgs i).talker ≡ true
    → (floor_release i reason now s).tgs i ≡ idle_tg
unfolding floor_release
release_due i reason now s d = elim (Option-cases (s.tgs i).talker) [
  | inl e ↦ ground arith
  | inr (h, e) ↦ ground arith
]

-- A pass frees the floors of its range whose lease has ended, and no other.
floor_tick_from_below :
    (i n now : ℕ) (s : Reflector) (j : ℕ) → j < i → (floor_tick_from i n now s).tgs j ≡ s.tgs j
unfolding floor_tick_from
floor_tick_from_below i zero now s j h = refl
floor_tick_from_below i (suc n) now s j h =
    let due = is_some_talker (s.tgs i).talker && leb (s.tgs i).lease_expires_ms now in
    let s1 = if due then floor_release i (some lease_expired) now s else s in
    floor_tick_from_below (i + 1) n now s1 j (omega arith)
    ∙ ground (arith, release_other i j (some lease_expired) now s)

floor_tick_from_lem :
    (i n now : ℕ) (s : Reflector) (j : ℕ)
    → i ≤ j
    → j < i + n
    → (floor_tick_from i n now s).tgs j ≡ (
        if is_some_talker (s.tgs j).talker && leb (s.tgs j).lease_expires_ms now
        then idle_tg
        else s.tgs j)
unfolding floor_tick_from
floor_tick_from_lem i zero now s j a b = ground arith
floor_tick_from_lem i (suc n) now s j a b =
    let due = is_some_talker (s.tgs i).talker && leb (s.tgs i).lease_expires_ms now in
    let s1 = if due then floor_release i (some lease_expired) now s else s in
    elim (Bool-cases (i == j)) [
      | inl e ↦
          floor_tick_from_below (i + 1) n now s1 j (ground arith)
          ∙ ground (arith, release_due i (some lease_expired) now s)
      | inr e ↦
          floor_tick_from_lem (i + 1) n now s1 j (ground arith) (omega arith)
          ∙ ground (arith, release_other i j (some lease_expired) now s)
    ]

-- A poll frees every floor of the configured talkgroups whose lease has ended, and leaves the
-- others as they are.
pub floor_tick_lem :
    (cfg : Rcfg) (now : ℕ) (s : Reflector) (j : ℕ)
    → j < length cfg.tgs
    → (floor_tick cfg now s).tgs j ≡ (
        if is_some_talker (s.tgs j).talker && leb (s.tgs j).lease_expires_ms now
        then idle_tg
        else s.tgs j)
unfolding floor_tick
floor_tick_lem cfg now s j h =
    floor_tick_from_lem 0 (length cfg.tgs) now s j (omega arith) (omega arith)

-- A takeover, at a time other than 0, of a floor whose lease on another node has ended credits the
-- new holder with its airtime when it lets go, and the old one with none.
pub takeover_uncredited :
    (cfg : Rcfg) (tg old node now later : ℕ) (s : Reflector)
    → old ≢ node
    → (s.tgs tg).talker ≡ some old
    → (s.tgs tg).lease_expires_ms ≤ now
    → 0 < now
    → let s' = floor_release tg none later (floor_try_grant cfg tg node now s).0 in
      ((s'.nodes old).floor_ms ≡ (s.nodes old).floor_ms)
      × ((s'.nodes node).floor_ms ≡ (s.nodes node).floor_ms + (later - now))
unfolding floor_release floor_try_grant
takeover_uncredited cfg tg old node now later s d t e p = ground arith

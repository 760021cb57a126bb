-- ===== src/Reflector/Floor/Kept.antt =====
-- Until the lease on a floor ends nobody else gets it, in src/reflectd/main.c.
use mathlib.Core.Path.{subst}
use kerchunk.Prelude.{
  ℕ, zero, suc, ◌+◌, ◌<◌, ◌≡◌, ◌≢◌, refl, sym, ap, ◌∙◌, Bool, true, false, not, ◌&&◌, ◌||◌, ltb,
  leb, ◌==◌, Option, none, some, List, [], ◌∷◌, length, arith, if◌then◌else◌, ◌-◌, ◌%◌,
}
use kerchunk.Reflector.{
  Rcfg, Reflector, TgRt, lease_expired, rcfg_tg_idx, floor_release, floor_try_grant, is_talker,
  is_some_talker, floor_tick, floor_tick_from, release_all_from, rcfg_node_allowed_on_tg,
  admin_action,
}
use kerchunk.Reflector.Inputs.{
  leave_tg, handle_set_tg, handle_login, talk_start, talk_end, receive_packet, deny_packet,
  close_node, admin_release_floor, step, run, ReflectorInput, login, close_of, talk_starts,
  talk_ends, mute, unmute, set_tg, packet, admin_release, poll, login_tg,
}
use kerchunk.Reflector.Floor.Lease.{release_other}

-- Inputs that are neither the node's own nor the operator's release of the talkgroup.
abbrev pub is_at : ℕ → Option ℕ → Bool
is_at tg none = false
is_at tg (some i) = i == tg

abbrev pub is_of_others : Rcfg → ℕ → ℕ → ReflectorInput → Bool
is_of_others cfg tg node (close_of n) = not (n == node)
is_of_others cfg tg node (talk_starts n) = not (n == node)
is_of_others cfg tg node (talk_ends n) = not (n == node)
is_of_others cfg tg node (set_tg n t) = not (n == node)
is_of_others cfg tg node (packet n bootstrap payload) = not (n == node)
is_of_others cfg tg node (admin_release t) = not (is_at tg (rcfg_tg_idx cfg (t % 65536)))
is_of_others cfg tg node (login n) = true
is_of_others cfg tg node (mute n) = true
is_of_others cfg tg node (unmute n) = true
is_of_others cfg tg node poll = true

-- What another node does at a talkgroup leaves the holder's floor alone while the lease runs.
grant_kept :
    (cfg : Rcfg) (i tg node other now : ℕ) (s : Reflector)
    → (s.tgs tg).talker ≡ some node
    → now < (s.tgs tg).lease_expires_ms
    → other ≢ node
    → ((floor_try_grant cfg i other now s).0).tgs tg ≡ s.tgs tg
unfolding floor_try_grant
grant_kept cfg i tg node other now s t l d = ground arith

release_held_kept :
    (i tg node other now : ℕ) (s : Reflector)
    → (s.tgs tg).talker ≡ some node
    → other ≢ node
    → (if is_talker other (s.tgs i).talker then floor_release i none now s else s).tgs tg ≡ s.tgs tg
release_held_kept i tg node other now s t d = ground (arith, release_other i tg none now s)

release_all_kept :
    (i n tg node other now : ℕ) (s : Reflector)
    → (s.tgs tg).talker ≡ some node
    → other ≢ node
    → (release_all_from i n other now s).tgs tg ≡ s.tgs tg
unfolding release_all_from
release_all_kept i zero tg node other now s t d = refl
release_all_kept i (suc n) tg node other now s t d =
    let s1 = if is_talker other (s.tgs i).talker then floor_release i none now s else s in
    let same = release_held_kept i tg node other now s t d in
    release_all_kept (i + 1) n tg node other now s1 (ap (λ r. r.talker) same ∙ t) d ∙ same

tick_kept :
    (i n tg node now : ℕ) (s : Reflector)
    → (s.tgs tg).talker ≡ some node
    → now < (s.tgs tg).lease_expires_ms
    → (floor_tick_from i n now s).tgs tg ≡ s.tgs tg
unfolding floor_tick_from
tick_kept i zero tg node now s t l = refl
tick_kept i (suc n) tg node now s t l =
    let due = is_some_talker (s.tgs i).talker && leb (s.tgs i).lease_expires_ms now in
    let s1 = if due then floor_release i (some lease_expired) now s else s in
    let same : s1.tgs tg ≡ s.tgs tg =
      ground (arith, release_other i tg (some lease_expired) now s) in
    tick_kept (i + 1) n tg node now s1 (ap (λ r. r.talker) same ∙ t) (ground arith) ∙ same

-- A talkgroup is as given.
pub record Kept (tg : ℕ) (t : TgRt) (s : Reflector) : Type 0 where
  pub kept : s.tgs tg ≡ t

Kept-if :
    {tg : ℕ} {t : TgRt} (b : Bool) (a c : Reflector)
    → Kept tg t a
    → Kept tg t c
    → Kept tg t (if b then a else c)
Kept-if true a c p q = p
Kept-if false a c p q = q

Kept-at :
    {tg : ℕ} {t : TgRt} (o : Option ℕ) {a : Reflector} {f : ℕ → Reflector}
    → Kept tg t a
    → ((i : ℕ) → o ≡ some i → Kept tg t (f i))
    → Kept tg t (elim o [ none ↦ a | some i ↦ f i ])
Kept-at none p q = p
Kept-at (some i) p q = q i refl

Kept-refl : (tg : ℕ) (s : Reflector) → Kept tg (s.tgs tg) s
Kept-refl tg s = record { kept = refl }

-- The floor is let go where another node holds it.
Kept-held :
    (o : Option ℕ) (tg node other now : ℕ) (s : Reflector)
    → (s.tgs tg).talker ≡ some node
    → other ≢ node
    → Kept tg (s.tgs tg) (elim o [
      | none ↦ s
      | some i ↦ if is_talker other (s.tgs i).talker then floor_release i none now s else s
    ])
Kept-held none tg node other now s t d = Kept-refl tg s
Kept-held (some i) tg node other now s t d = record {
  kept = release_held_kept i tg node other now s t d;
}

set_tg-Kept :
    (cfg : Rcfg) (other number tg node now : ℕ) (s : Reflector)
    → (s.tgs tg).talker ≡ some node
    → other ≢ node
    → Kept tg (s.tgs tg) (handle_set_tg cfg other number now s)
unfolding handle_set_tg leave_tg
set_tg-Kept cfg other number tg node now s t d =
    let old = (s.nodes other).cur_tg in
    let left =
      Kept-if (old == 0 || old == number) _ _ (Kept-refl tg s)
        (Kept-held (rcfg_tg_idx cfg old) tg node other now s t d) in
    let same = Kept-refl tg s in
    Kept-if (number == 0 || ltb 65535 number) _ _ (record { kept = refl })
      (Kept-at (rcfg_tg_idx cfg number) (record { kept = refl })
        (λ i e.
          Kept-if (not (rcfg_node_allowed_on_tg cfg other number)) _ _ (record { kept = refl })
            (record { kept = left.kept })))

talk_start-Kept :
    (cfg : Rcfg) (other tg node now : ℕ) (s : Reflector)
    → (s.tgs tg).talker ≡ some node
    → now < (s.tgs tg).lease_expires_ms
    → other ≢ node
    → Kept tg (s.tgs tg) (talk_start cfg other now s)
unfolding talk_start
talk_start-Kept cfg other tg node now s t l d =
    Kept-at (rcfg_tg_idx cfg (s.nodes other).cur_tg) (Kept-refl tg s) (λ i e.
      let g = grant_kept cfg i tg node other now s t l d in
      Kept-if (floor_try_grant cfg i other now s).1 _ _ (record { kept = g }) (record { kept = g }))

receive_packet-Kept :
    (cfg : Rcfg) (other : ℕ) (bootstrap payload : Bool) (tg node now : ℕ) (s : Reflector)
    → (s.tgs tg).talker ≡ some node
    → now < (s.tgs tg).lease_expires_ms
    → other ≢ node
    → Kept tg (s.tgs tg) (receive_packet cfg other bootstrap payload now s)
unfolding receive_packet deny_packet
receive_packet-Kept cfg other bootstrap payload tg node now s t l d =
    Kept-if ((s.nodes other).muted || bootstrap) _ _ (Kept-refl tg s) (
      Kept-at (rcfg_tg_idx cfg (s.nodes other).cur_tg) (Kept-refl tg s) (λ i e.
        let g = grant_kept cfg i tg node other now s t l d in
        let s' = (floor_try_grant cfg i other now s).0 in
        Kept-if (floor_try_grant cfg i other now s).1 _ _ (record { kept = g })
          (Kept-if (leb 500 (now - (s'.nodes other).last_floor_denied_ms)) _ _ (record { kept = g })
            (record { kept = g }))))

step-Kept :
    (cfg : Rcfg) (i : ReflectorInput) (tg node now : ℕ) (s : Reflector)
    → (s.tgs tg).talker ≡ some node
    → now < (s.tgs tg).lease_expires_ms
    → is_of_others cfg tg node i ≡ true
    → Kept tg (s.tgs tg) (step cfg i now s)
unfolding step close_node talk_end admin_release_floor floor_tick handle_login
step-Kept cfg (login n) tg node now s t l o =
    Kept-if
      ((cfg.nodes n).banned
        || ((s.nodes n).connected || not (rcfg_node_allowed_on_tg cfg n (login_tg cfg n))))
      _ _ (Kept-refl tg s) (record { kept = refl })
step-Kept cfg (close_of n) tg node now s t l o =
    Kept-if (s.nodes n).connected _ _
      (record { kept = release_all_kept 0 (length cfg.tgs) tg node n now s t (ground arith) })
      (Kept-refl tg s)
step-Kept cfg (talk_starts n) tg node now s t l o =
    Kept-if (s.nodes n).connected _ _ (talk_start-Kept cfg n tg node now s t l (ground arith))
      (Kept-refl tg s)
step-Kept cfg (talk_ends n) tg node now s t l o =
    Kept-if (s.nodes n).connected _ _
      (Kept-held (rcfg_tg_idx cfg (s.nodes n).cur_tg) tg node n now s t (ground arith))
      (Kept-refl tg s)
step-Kept cfg (mute n) tg node now s t l o = record { kept = refl }
step-Kept cfg (unmute n) tg node now s t l o = record { kept = refl }
step-Kept cfg (set_tg n number) tg node now s t l o =
    Kept-if (s.nodes n).connected _ _ (set_tg-Kept cfg n number tg node now s t (ground arith))
      (Kept-refl tg s)
step-Kept cfg (packet n bootstrap payload) tg node now s t l o =
    Kept-if (s.nodes n).connected _ _
      (receive_packet-Kept cfg n bootstrap payload tg node now s t l (ground arith))
      (Kept-refl tg s)
step-Kept cfg (admin_release number) tg node now s t l o =
    Kept-at (rcfg_tg_idx cfg (number % 65536)) (Kept-refl tg s)
      (λ i e. record { kept = release_other i tg (some admin_action) now s (ground arith) })
step-Kept cfg poll tg node now s t l o = record {
  kept = tick_kept 0 (length cfg.tgs) tg node now s t l;
}

-- All inputs are those of others, and come while the lease runs.
abbrev pub AllOthers : Rcfg → ℕ → ℕ → ℕ → List (ReflectorInput × ℕ) → Type 0
AllOthers cfg tg node lease [] = Unit {0}
AllOthers cfg tg node lease ((i, now) ∷ is) =
    (is_of_others cfg tg node i ≡ true) × (now < lease) × AllOthers cfg tg node lease is

-- While a lease runs, nothing that other nodes do, nor the polls, logins, mutes, nor the operator
-- at other talkgroups, takes the floor from its holder, changes the lease or ends the recording.
pub run_keeps_floor :
    (cfg : Rcfg) (tg node : ℕ) (is : List (ReflectorInput × ℕ)) (s : Reflector)
    → (s.tgs tg).talker ≡ some node
    → AllOthers cfg tg node (s.tgs tg).lease_expires_ms is
    → (run cfg is s).tgs tg ≡ s.tgs tg
unfolding run
run_keeps_floor cfg tg node [] s t a = refl
run_keeps_floor cfg tg node ((i, now) ∷ is) s t a =
    let (o, l, more) = a in
    let same = (step-Kept cfg i tg node now s t l o).kept in
    run_keeps_floor cfg tg node is (step cfg i now s) (ap (λ r. r.talker) same ∙ t)
      (subst (λ r. AllOthers cfg tg node r.lease_expires_ms is) (sym same) more)
    ∙ same

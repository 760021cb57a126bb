-- ===== src/Reflector/Floor/Banned.antt =====
-- A node that the operator has banned, in src/reflectd/main.c.
use kerchunk.Prelude.{
  ℕ, ◌≡◌, ◌≢◌, refl, ◌∙◌, Bool, true, false, not, ◌||◌, ltb, leb, ◌==◌, Option, none, some, List,
  [], ◌∷◌, length, arith, ◌+◌, ◌-◌, ◌%◌, if◌then◌else◌,
}
use kerchunk.Reflector.{
  Rcfg, Reflector, NodeRt, rcfg_tg_idx, floor_try_grant, floor_tick, release_all_from,
  rcfg_node_allowed_on_tg, admin_action,
}
use kerchunk.Reflector.Inputs.{
  with_node, leave_tg, handle_set_tg, handle_login, talk_start, talk_end, receive_packet,
  deny_packet, close_node, admin_release_floor, step, run, ReflectorInput, login, close_of,
  talk_starts, talk_ends, mute, unmute, set_tg, packet, admin_release, poll, login_tg,
}
use kerchunk.Reflector.Floor.{IsValid, Releases}
use kerchunk.Reflector.Floor.Release.{
  floor_tick_from-Releases, release_all_from-Releases, Releases-held, Releases-at,
  leave_tg-Releases,
}
use kerchunk.Reflector.Floor.Steps.{run_holders-IsValid}

-- A node is not connected.
pub record Out (m : ℕ) (s : Reflector) : Type 0 where
  pub out : (s.nodes m).connected ≡ false

module _ {m : ℕ} where
  Out-if :
      (b : Bool) (a c : Reflector)
      → (b ≡ true → Out m a)
      → (b ≡ false → Out m c)
      → Out m (if b then a else c)
  Out-if true a c p q = p refl
  Out-if false a c p q = q refl

  Out-at :
      (o : Option ℕ) {a : Reflector} {f : ℕ → Reflector}
      → Out m a
      → ((i : ℕ) → Out m (f i))
      → Out m (elim o [ none ↦ a | some i ↦ f i ])
  Out-at none p q = p
  Out-at (some i) p q = q i

  Releases-Out : {s s' : Reflector} → Releases s s' → Out m s → Out m s'
  Releases-Out r o = record { out = r.same_connected m ∙ o.out }

  -- A node is written that is as much connected as before, or not at all.
  with_node-Out :
      (node : ℕ) (n : NodeRt) (s : Reflector)
      → n.connected ≡ (s.nodes node).connected
      → Out m s
      → Out m (with_node node n s)
  with_node-Out node n s c o = record { out = ground (arith, o.out) }

  cut_off-Out :
      (node : ℕ) (n : NodeRt) (s : Reflector)
      → n.connected ≡ false
      → Out m s
      → Out m (with_node node n s)
  cut_off-Out node n s c o = record { out = ground (arith, o.out) }

  grant-Out :
      (cfg : Rcfg) (tg node now : ℕ) (s : Reflector)
      → Out m s
      → Out m (floor_try_grant cfg tg node now s).0
  unfolding floor_try_grant
  grant-Out cfg tg node now s o = record { out = ground (arith, o.out) }

  login-Out :
      (cfg : Rcfg) (node : ℕ) (s : Reflector)
      → (cfg.nodes m).banned ≡ true
      → Out m s
      → Out m (handle_login cfg node s)
  unfolding handle_login
  login-Out cfg node s b o =
      Out-if
        ((cfg.nodes node).banned
          || ((s.nodes node).connected
              || not (rcfg_node_allowed_on_tg cfg node (login_tg cfg node))))
        _ _ (λ h. o) (λ h. record { out = ground (arith, o.out) })

  set_tg-Out :
      (cfg : Rcfg) (node tg now : ℕ) (s : Reflector)
      → Out m s
      → Out m (handle_set_tg cfg node tg now s)
  unfolding handle_set_tg
  set_tg-Out cfg node tg now s o =
      let left = leave_tg cfg node tg now s in
      let moved =
        with_node-Out node (record (left.nodes node) { cur_tg = tg }) left refl
          (Releases-Out (leave_tg-Releases cfg node tg now s) o) in
      Out-if (tg == 0 || ltb 65535 tg) _ _ (λ h. record { out = o.out })
        (λ h.
          Out-at (rcfg_tg_idx cfg tg) (record { out = o.out })
            (λ i.
              Out-if (not (rcfg_node_allowed_on_tg cfg node tg)) _ _ (λ h. record { out = o.out })
                (λ h. record { out = moved.out })))

  talk_start-Out :
      (cfg : Rcfg) (node now : ℕ) (s : Reflector) → Out m s → Out m (talk_start cfg node now s)
  unfolding talk_start
  talk_start-Out cfg node now s o = Out-at (rcfg_tg_idx cfg (s.nodes node).cur_tg) o (λ i.
      let g = grant-Out cfg i node now s o in
      Out-if (floor_try_grant cfg i node now s).1 _ _ (λ h. g) (λ h. record { out = g.out }))

  receive_packet-Out :
      (cfg : Rcfg) (node : ℕ) (bootstrap payload : Bool) (now : ℕ) (s : Reflector)
      → Out m s
      → Out m (receive_packet cfg node bootstrap payload now s)
  unfolding receive_packet deny_packet
  receive_packet-Out cfg node bootstrap payload now s o =
      Out-if ((s.nodes node).muted || bootstrap) _ _ (λ h. o)
        (λ h. Out-at (rcfg_tg_idx cfg (s.nodes node).cur_tg) o (λ i.
          let g = grant-Out cfg i node now s o in
          let s' = (floor_try_grant cfg i node now s).0 in
          let n = s'.nodes node in
          let counted = with_node-Out node (record n { rtp_in = n.rtp_in + 1 }) s' refl g in
          let told = with_node-Out node (record n { last_floor_denied_ms = now }) s' refl g in
          Out-if (floor_try_grant cfg i node now s).1 _ _ (λ h. record { out = counted.out })
            (λ h.
              Out-if (leb 500 (now - n.last_floor_denied_ms)) _ _ (λ k. record { out = told.out })
                (λ k. g))))

  step-Out :
      (cfg : Rcfg) (i : ReflectorInput) (now : ℕ) (s : Reflector)
      → (cfg.nodes m).banned ≡ true
      → Out m s
      → Out m (step cfg i now s)
  unfolding step close_node talk_end admin_release_floor floor_tick
  step-Out cfg (login n) now s b o = login-Out cfg n s b o
  step-Out cfg (close_of n) now s b o =
      let r = release_all_from 0 (length cfg.tgs) n now s in
      let closed =
        cut_off-Out n (record (r.nodes n) { connected = false; muted = false }) r refl
          (Releases-Out (release_all_from-Releases 0 (length cfg.tgs) n now s) o) in
      Out-if (s.nodes n).connected _ _ (λ h. record { out = closed.out }) (λ h. o)
  step-Out cfg (talk_starts n) now s b o =
      Out-if (s.nodes n).connected _ _ (λ h. talk_start-Out cfg n now s o) (λ h. o)
  step-Out cfg (talk_ends n) now s b o =
      Out-if (s.nodes n).connected _ _
        (λ h. Releases-Out (Releases-held (rcfg_tg_idx cfg (s.nodes n).cur_tg) n now s) o) (λ h. o)
  step-Out cfg (mute n) now s b o = with_node-Out n _ s refl o
  step-Out cfg (unmute n) now s b o = with_node-Out n _ s refl o
  step-Out cfg (set_tg n tg) now s b o =
      Out-if (s.nodes n).connected _ _ (λ h. set_tg-Out cfg n tg now s o) (λ h. o)
  step-Out cfg (packet n bootstrap payload) now s b o =
      Out-if (s.nodes n).connected _ _ (λ h. receive_packet-Out cfg n bootstrap payload now s o)
        (λ h. o)
  step-Out cfg (admin_release tg) now s b o =
      Releases-Out (Releases-at (rcfg_tg_idx cfg (tg % 65536)) (some admin_action) now s) o
  step-Out cfg poll now s b o = Releases-Out (floor_tick_from-Releases 0 (length cfg.tgs) now s) o

  run-Out :
      (cfg : Rcfg) (is : List (ReflectorInput × ℕ)) (s : Reflector)
      → (cfg.nodes m).banned ≡ true
      → Out m s
      → Out m (run cfg is s)
  unfolding run
  run-Out cfg [] s b o = o
  run-Out cfg ((i, now) ∷ is) s b o = run-Out cfg is (step cfg i now s) b (step-Out cfg i now s b o)

-- Where no talkgroup has the number 0, a banned node that is not connected stays so over any inputs at any
-- times, from a valid state, and never holds a floor.
pub banned_out :
    (cfg : Rcfg) (m : ℕ) (is : List (ReflectorInput × ℕ)) (s : Reflector)
    → (cfg.nodes m).banned ≡ true
    → (s.nodes m).connected ≡ false
    → rcfg_tg_idx cfg 0 ≡ none
    → IsValid cfg s
    → ((run cfg is s).nodes m).connected ≡ false
      × ((i : ℕ) → ((run cfg is s).tgs i).talker ≢ some m)
banned_out cfg m is s b c z v =
    let o = run-Out cfg is s b (record { out = c }) in
    let w = run_holders-IsValid cfg is s z v in
    (o.out, λ i h. ground (arith, o.out, w.holder_connected i m h))

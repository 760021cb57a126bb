-- ===== src/Reflector/Floor/Steps.antt =====
-- Every input of src/reflectd/main.c keeps holders on their talkgroups.
use kerchunk.Prelude.{
  ℕ, ◌+◌, ◌≡◌, ◌≢◌, refl, inl, inr, Bool, true, false, not, ◌||◌, ltb, leb, ◌==◌, Option, none,
  some, List, [], ◌∷◌, length, arith, Bool-cases, ◌-◌, ◌%◌,
}
use kerchunk.Reflector.{
  Rcfg, Reflector, rcfg_tg_idx, floor_try_grant, floor_tick, release_all_from,
  rcfg_node_allowed_on_tg, admin_action,
}
use kerchunk.Reflector.Inputs.{
  with_node, leave_tg, handle_set_tg, handle_login, talk_start, talk_end, receive_packet,
  deny_packet, close_node, admin_release_floor, step, run, ReflectorInput, login, close_of,
  talk_starts, talk_ends, mute, unmute, set_tg, packet, admin_release, poll, login_tg,
}
use kerchunk.Reflector.Floor.{
  IsValid, Releases-holder, Releases-IsValid, floor_try_grant-IsValid, rcfg_tg_idx_lt,
}
use kerchunk.Reflector.Floor.Release.{
  floor_tick_from-Releases, release_all_from-Releases, release_all_from_lem, Releases-held,
  Releases-at, leave_tg-Releases, leave_tg_frees, with_node_same, with_node_free, send-IsValid,
  IsValid-if,
}

IsValid-at :
    (cfg : Rcfg) (o : Option ℕ) {a : Reflector} {f : ℕ → Reflector}
    → IsValid cfg a
    → ((i : ℕ) → o ≡ some i → IsValid cfg (f i))
    → IsValid cfg (elim o [ none ↦ a | some i ↦ f i ])
IsValid-at cfg none p q = p
IsValid-at cfg (some i) p q = q i refl

handle_set_tg-IsValid :
    (cfg : Rcfg) (node tg now : ℕ) (s : Reflector)
    → rcfg_tg_idx cfg 0 ≡ none
    → IsValid cfg s
    → IsValid cfg (handle_set_tg cfg node tg now s)
unfolding handle_set_tg
handle_set_tg-IsValid cfg node tg now s z v =
    let left = leave_tg cfg node tg now s in
    let left-IsValid = Releases-IsValid cfg (leave_tg-Releases cfg node tg now s) v in
    let n = record (left.nodes node) { cur_tg = tg } in
    let moved : IsValid cfg (with_node node n left) =
      elim (Bool-cases ((s.nodes node).cur_tg == tg)) [
        | inl e ↦
            with_node_same cfg node n left refl
              (ground (arith, (leave_tg-Releases cfg node tg now s).same_cur_tg node)) left-IsValid
        | inr e ↦
            with_node_free cfg node n left (leave_tg_frees cfg node tg now s z (ground arith) v)
              left-IsValid
      ] in
    IsValid-if cfg (tg == 0 || ltb 65535 tg) _ _ (λ h. send-IsValid cfg _ s v)
      (λ h. IsValid-at cfg (rcfg_tg_idx cfg tg) (send-IsValid cfg _ s v) (λ i e.
        IsValid-if cfg (not (rcfg_node_allowed_on_tg cfg node tg)) _ _ (λ h. send-IsValid cfg _ s v)
          (λ h. send-IsValid cfg _ (with_node node n left) moved)))

deny_packet-IsValid :
    (cfg : Rcfg) (i node now : ℕ) (s : Reflector)
    → IsValid cfg s
    → IsValid cfg (deny_packet i node now s)
unfolding deny_packet
deny_packet-IsValid cfg i node now s v =
    IsValid-if cfg (leb 500 (now - (s.nodes node).last_floor_denied_ms)) _ _
      (λ h. send-IsValid cfg _ _ (
        with_node_same cfg node (record (s.nodes node) { last_floor_denied_ms = now }) s refl refl
          v))
      (λ h. v)

talk_start-IsValid :
    (cfg : Rcfg) (node now : ℕ) (s : Reflector)
    → (s.nodes node).connected ≡ true
    → IsValid cfg s
    → IsValid cfg (talk_start cfg node now s)
unfolding talk_start
talk_start-IsValid cfg node now s c v =
    IsValid-at cfg (rcfg_tg_idx cfg (s.nodes node).cur_tg) v (λ i e.
      let g = floor_try_grant-IsValid cfg i node now s c e v in
      IsValid-if cfg (floor_try_grant cfg i node now s).1 _ _ (λ h. g)
        (λ h. send-IsValid cfg _ _ g))

receive_packet-IsValid :
    (cfg : Rcfg) (node : ℕ) (bootstrap payload : Bool) (now : ℕ) (s : Reflector)
    → (s.nodes node).connected ≡ true
    → IsValid cfg s
    → IsValid cfg (receive_packet cfg node bootstrap payload now s)
unfolding receive_packet
receive_packet-IsValid cfg node bootstrap payload now s c v =
    IsValid-if cfg ((s.nodes node).muted || bootstrap) _ _ (λ h. v)
      (λ h. IsValid-at cfg (rcfg_tg_idx cfg (s.nodes node).cur_tg) v (λ i e.
        let g = floor_try_grant-IsValid cfg i node now s c e v in
        let s' = (floor_try_grant cfg i node now s).0 in
        let n = s'.nodes node in
        IsValid-if cfg (floor_try_grant cfg i node now s).1 _ _
          (λ h.
            send-IsValid cfg _ _
              (with_node_same cfg node (record n { rtp_in = n.rtp_in + 1 }) s' refl refl g))
          (λ h. deny_packet-IsValid cfg i node now s' g)))

-- No floor is left to a node whose connection closes.
pub close_node_frees :
    (cfg : Rcfg) (node now : ℕ) (s : Reflector) (j : ℕ)
    → IsValid cfg s
    → ((close_node cfg node now s).tgs j).talker ≢ some node
unfolding close_node
close_node_frees cfg node now s j v h =
    let r = release_all_from-Releases 0 (length cfg.tgs) node now s in
    let lt =
      rcfg_tg_idx_lt cfg (s.nodes node).cur_tg j
        (v.holder_on_tg j node (Releases-holder r j node h)) in
    release_all_from_lem 0 (length cfg.tgs) node now s j (omega arith) (omega arith) h

close_node-IsValid :
    (cfg : Rcfg) (node now : ℕ) (s : Reflector)
    → IsValid cfg s
    → IsValid cfg (close_node cfg node now s)
unfolding close_node
close_node-IsValid cfg node now s v =
    let r = release_all_from 0 (length cfg.tgs) node now s in
    let rel = release_all_from-Releases 0 (length cfg.tgs) node now s in
    send-IsValid cfg _ _ (
      with_node_free cfg node (record (r.nodes node) { connected = false; muted = false }) r
        (λ j h. close_node_frees cfg node now s j v h) (Releases-IsValid cfg rel v))

handle_login-IsValid :
    (cfg : Rcfg) (node : ℕ) (s : Reflector) → IsValid cfg s → IsValid cfg (handle_login cfg node s)
unfolding handle_login
handle_login-IsValid cfg node s v =
    let tg = login_tg cfg node in
    IsValid-if cfg
      ((cfg.nodes node).banned
        || ((s.nodes node).connected || not (rcfg_node_allowed_on_tg cfg node tg)))
      _ _ (λ h. v)
      (λ h.
        send-IsValid cfg _ _
          (with_node_free cfg node _ s (λ j t. ground (arith, v.holder_connected j node t)) v))

step-IsValid :
    (cfg : Rcfg) (i : ReflectorInput) (now : ℕ) (s : Reflector)
    → rcfg_tg_idx cfg 0 ≡ none
    → IsValid cfg s
    → IsValid cfg (step cfg i now s)
unfolding step talk_end admin_release_floor floor_tick
step-IsValid cfg (login node) now s z v = handle_login-IsValid cfg node s v
step-IsValid cfg (close_of node) now s z v =
    IsValid-if cfg (s.nodes node).connected _ _ (λ h. close_node-IsValid cfg node now s v) (λ h. v)
step-IsValid cfg (talk_starts node) now s z v =
    IsValid-if cfg (s.nodes node).connected _ _ (λ h. talk_start-IsValid cfg node now s h v)
      (λ h. v)
step-IsValid cfg (talk_ends node) now s z v =
    IsValid-if cfg (s.nodes node).connected _ _
      (λ h.
        Releases-IsValid cfg (Releases-held (rcfg_tg_idx cfg (s.nodes node).cur_tg) node now s) v)
      (λ h. v)
step-IsValid cfg (mute node) now s z v = with_node_same cfg node _ s refl refl v
step-IsValid cfg (unmute node) now s z v = with_node_same cfg node _ s refl refl v
step-IsValid cfg (set_tg node tg) now s z v =
    IsValid-if cfg (s.nodes node).connected _ _ (λ h. handle_set_tg-IsValid cfg node tg now s z v)
      (λ h. v)
step-IsValid cfg (packet node bootstrap payload) now s z v =
    IsValid-if cfg (s.nodes node).connected _ _
      (λ h. receive_packet-IsValid cfg node bootstrap payload now s h v) (λ h. v)
step-IsValid cfg (admin_release tg) now s z v =
    Releases-IsValid cfg (Releases-at (rcfg_tg_idx cfg (tg % 65536)) (some admin_action) now s) v
step-IsValid cfg poll now s z v =
    Releases-IsValid cfg (floor_tick_from-Releases 0 (length cfg.tgs) now s) v

-- Where no talkgroup has the number 0, any inputs at any times, from a valid state, keep every
-- holder connected and on the talkgroup whose floor it holds, and an idle talkgroup without lease
-- and recording.
pub run_holders-IsValid :
    (cfg : Rcfg) (is : List (ReflectorInput × ℕ)) (s : Reflector)
    → rcfg_tg_idx cfg 0 ≡ none
    → IsValid cfg s
    → IsValid cfg (run cfg is s)
unfolding run
run_holders-IsValid cfg [] s z v = v
run_holders-IsValid cfg ((i, now) ∷ is) s z v =
    run_holders-IsValid cfg is (step cfg i now s) z (step-IsValid cfg i now s z v)

-- So a node holds one floor at most.
pub one_floor :
    (cfg : Rcfg) (s : Reflector) (i j n : ℕ)
    → IsValid cfg s
    → (s.tgs i).talker ≡ some n
    → (s.tgs j).talker ≡ some n
    → i ≡ j
one_floor cfg s i j n v p q = ground (arith, v.holder_on_tg i n p, v.holder_on_tg j n q)

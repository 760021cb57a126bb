-- ===== src/Reflector/Inputs.antt =====
-- What reaches the reflector of src/reflectd/main.c: messages and packets of nodes, requests of the
-- operator, and time.
use kerchunk.Prelude.{
  ℕ, ◌+◌, ◌-◌, ◌%◌, Bool, true, false, not, ◌&&◌, ◌||◌, ltb, leb, ◌==◌, if◌then◌else◌, Option, none,
  some, List, [], ◌∷◌, ◌++◌, length,
}
use kerchunk.Reflector.{
  Rcfg, Reflector, NodeRt, put, is_talker, when_sent, protocol_error, unknown_tg, not_authorized,
  admin_action, floor_denied, tg_denied, tg_ok, tg_roster, recorded, fanned_out, rcfg_tg_idx,
  rcfg_node_allowed_on_tg, floor_try_grant, floor_release, floor_tick, release_all_from, Notice,
}

abbrev pub with_node : ℕ → NodeRt → Reflector → Reflector
with_node node n s = record s { nodes = put node n s.nodes }

abbrev pub send : List Notice → Reflector → Reflector
send ms s = record s { sent = s.sent ++ ms }

-- The roster of a talkgroup that there is.
abbrev pub roster_of : Option ℕ → List Notice
roster_of none = []
roster_of (some i) = tg_roster i ∷ []

-- The talkgroup that a login picks.
abbrev pub login_tg : Rcfg → ℕ → ℕ
login_tg cfg node = elim (cfg.nodes node).allowed_tgs [
  | [] ↦ (cfg.nodes node).default_tg
  | first ∷ others ↦ if (cfg.nodes node).default_tg == 0 then first else (cfg.nodes node).default_tg
]

-- `handle_login` of a known node whose version and proof hold; it is refused where the node is banned or
-- connected.
unfoldable pub handle_login : Rcfg → ℕ → Reflector → Reflector
handle_login cfg node s =
    let tg = login_tg cfg node in
    if (cfg.nodes node).banned
      || ((s.nodes node).connected || not (rcfg_node_allowed_on_tg cfg node tg))
    then s
    else send (roster_of (rcfg_tg_idx cfg tg)) (
        with_node node
          (record (s.nodes node) {
            connected = true;
            cur_tg = tg;
            rtp_in = 0;
            floor_holds = 0;
            floor_ms = 0;
          })
          s)

-- The release of the floor of the old talkgroup in `handle_set_tg`.
unfoldable pub leave_tg : Rcfg → ℕ → ℕ → ℕ → Reflector → Reflector
leave_tg cfg node tg now s =
    let old = (s.nodes node).cur_tg in
    if old == 0 || old == tg then s else (elim (rcfg_tg_idx cfg old) [
      | none ↦ s
      | some i ↦ if is_talker node (s.tgs i).talker then floor_release i none now s else s
    ])

-- `handle_set_tg`
unfoldable pub handle_set_tg : Rcfg → ℕ → ℕ → ℕ → Reflector → Reflector
unfolding leave_tg
handle_set_tg cfg node tg now s =
    let old = (s.nodes node).cur_tg in
    if tg == 0 || ltb 65535 tg
    then send (tg_denied node tg protocol_error ∷ []) s
    else (elim (rcfg_tg_idx cfg tg) [
      | none ↦ send (tg_denied node tg unknown_tg ∷ []) s
      | some i ↦
          if not (rcfg_node_allowed_on_tg cfg node tg)
          then send (tg_denied node tg not_authorized ∷ []) s
          else (let left = leave_tg cfg node tg now s in
              send
                (tg_ok node tg
                    ∷ (if old == 0 || old == tg then [] else roster_of (rcfg_tg_idx cfg old))
                  ++ (tg_roster i ∷ []))
                (with_node node (record (left.nodes node) { cur_tg = tg }) left))
    ])

-- `handle_simulate_talk_start`
unfoldable pub talk_start : Rcfg → ℕ → ℕ → Reflector → Reflector
unfolding floor_try_grant
talk_start cfg node now s = elim (rcfg_tg_idx cfg (s.nodes node).cur_tg) [
  | none ↦ s
  | some i ↦
      let (s', granted) = floor_try_grant cfg i node now s in
      if granted then s' else send (floor_denied node i ∷ []) s'
]

-- `handle_simulate_talk_end`
unfoldable pub talk_end : Rcfg → ℕ → ℕ → Reflector → Reflector
unfolding floor_release
talk_end cfg node now s = elim (rcfg_tg_idx cfg (s.nodes node).cur_tg) [
  | none ↦ s
  | some i ↦ if is_talker node (s.tgs i).talker then floor_release i none now s else s
]

-- The notice of a denied packet in `audio_drain_udp`, at most one in 500 ms.
unfoldable pub deny_packet : ℕ → ℕ → ℕ → Reflector → Reflector
deny_packet i node now s =
    let n = s.nodes node in
    if leb 500 (now - n.last_floor_denied_ms)
    then send (floor_denied node i ∷ [])
        (with_node node (record n { last_floor_denied_ms = now }) s)
    else s

-- A packet of `audio_drain_udp` that the sender's key opens: `bootstrap` is the payload type 99.
unfoldable pub receive_packet : Rcfg → ℕ → Bool → Bool → ℕ → Reflector → Reflector
unfolding floor_try_grant deny_packet
receive_packet cfg node bootstrap payload now s =
    if (s.nodes node).muted || bootstrap then s else (elim (rcfg_tg_idx cfg (s.nodes node).cur_tg) [
      | none ↦ s
      | some i ↦
          let (s', granted) = floor_try_grant cfg i node now s in
          let n = s'.nodes node in
          if granted
          then send
              (when_sent ((s'.tgs i).recording && payload) (recorded i) ++ (fanned_out i node ∷ []))
              (with_node node (record n { rtp_in = n.rtp_in + 1 }) s')
          else deny_packet i node now s'
    ])

-- The close of a node's connection in `on_ws_event`.
unfoldable pub close_node : Rcfg → ℕ → ℕ → Reflector → Reflector
unfolding release_all_from
close_node cfg node now s =
    let r = release_all_from 0 (length cfg.tgs) node now s in
    send (roster_of (rcfg_tg_idx cfg (r.nodes node).cur_tg))
      (with_node node (record (r.nodes node) { connected = false; muted = false }) r)

pub data ReflectorInput : Type 0 where
  login close_of talk_starts talk_ends mute unmute : ℕ → ReflectorInput
  set_tg : ℕ → ℕ → ReflectorInput
  packet : ℕ → Bool → Bool → ReflectorInput
  admin_release : ℕ → ReflectorInput
  poll : ReflectorInput

-- `admin_release_floor`; the number is that of a talkgroup.
unfoldable pub admin_release_floor : Rcfg → ℕ → ℕ → Reflector → Reflector
unfolding floor_release
admin_release_floor cfg tg now s = elim (rcfg_tg_idx cfg (tg % 65536)) [
  | none ↦ s
  | some i ↦ floor_release i (some admin_action) now s
]

-- One input at a time. Messages and packets are those of nodes that are connected.
unfoldable pub step : Rcfg → ReflectorInput → ℕ → Reflector → Reflector
step cfg (login node) now s = handle_login cfg node s
step cfg (close_of node) now s = if (s.nodes node).connected then close_node cfg node now s else s
step cfg (talk_starts node) now s =
    if (s.nodes node).connected then talk_start cfg node now s else s
step cfg (talk_ends node) now s = if (s.nodes node).connected then talk_end cfg node now s else s
step cfg (mute node) now s = with_node node (record (s.nodes node) { muted = true }) s
step cfg (unmute node) now s = with_node node (record (s.nodes node) { muted = false }) s
step cfg (set_tg node tg) now s =
    if (s.nodes node).connected then handle_set_tg cfg node tg now s else s
step cfg (packet node bootstrap payload) now s =
    if (s.nodes node).connected then receive_packet cfg node bootstrap payload now s else s
step cfg (admin_release tg) now s = admin_release_floor cfg tg now s
step cfg poll now s = floor_tick cfg now s

-- The inputs with their times.
unfoldable pub run : Rcfg → List (ReflectorInput × ℕ) → Reflector → Reflector
run cfg [] s = s
run cfg ((i, now) ∷ is) s = run cfg is (step cfg i now s)

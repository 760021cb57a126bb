-- ===== src/Reflector.antt =====
-- src/reflectd/main.c: who may talk on a talkgroup of the reflector. Nodes and talkgroups are known by
-- their index in the configuration; arrays over them are functions of it. The clock, in milliseconds, is
-- an argument. What is sent is recorded in `sent`, oldest first. The hang time is not negative, and a
-- recording starts wherever recordings are enabled.
pub mod Floor
pub mod Inputs
pub mod Roster
use kerchunk.Prelude.{
  ℕ, zero, suc, ◌+◌, ◌-◌, Bool, true, false, not, ◌&&◌, ◌||◌, ltb, leb, ◌==◌, if◌then◌else◌, Option,
  none, some, List, [], ◌∷◌, ◌++◌, length,
}

-- `rcfg_tg_t` and `rcfg_node_t`, as far as they are used here
pub record RcfgTg : Type 0 where
  pub number : ℕ
  pub members : List ℕ

pub record RcfgNode : Type 0 where
  pub allowed_tgs : List ℕ
  pub default_tg : ℕ
  pub banned : Bool

-- `rcfg_t`
pub record Rcfg : Type 0 where
  pub tgs : List RcfgTg
  pub nodes : ℕ → RcfgNode
  pub n_nodes : ℕ
  pub hangtime_ms : ℕ
  pub recording_enabled : Bool

-- `rcfg_tg_idx`, from an index on; `none` is -1.
unfoldable pub tg_idx_from : ℕ → List RcfgTg → ℕ → Option ℕ
tg_idx_from i [] number = none
tg_idx_from i (t ∷ ts) number =
    let rest = tg_idx_from (i + 1) ts number in if t.number == number then some i else rest

unfoldable pub rcfg_tg_idx : Rcfg → ℕ → Option ℕ
rcfg_tg_idx cfg number = tg_idx_from 0 cfg.tgs number

-- The search loops of `rcfg_node_allowed_on_tg`.
unfoldable pub is_listed : ℕ → List ℕ → Bool
is_listed n [] = false
is_listed n (x ∷ xs) = x == n || is_listed n xs

unfoldable pub members_at : ℕ → List RcfgTg → List ℕ
members_at i [] = []
members_at zero (t ∷ ts) = t.members
members_at (suc i) (t ∷ ts) = members_at i ts

-- `rcfg_node_allowed_on_tg`
unfoldable pub rcfg_node_allowed_on_tg : Rcfg → ℕ → ℕ → Bool
rcfg_node_allowed_on_tg cfg node number = ltb node cfg.n_nodes && (elim (rcfg_tg_idx cfg number) [
  | none ↦ false
  | some i ↦ is_listed node (members_at i cfg.tgs) && is_listed number (cfg.nodes node).allowed_tgs
])

-- `tg_rt_t`
pub record TgRt : Type 0 where
  pub talker : Option ℕ
  pub lease_expires_ms : ℕ
  pub recording : Bool

-- `node_rt_t`, as far as it bears on the floor; the airtime is in milliseconds.
pub record NodeRt : Type 0 where
  pub connected : Bool
  pub muted : Bool
  pub cur_tg : ℕ
  pub last_floor_denied_ms : ℕ
  pub rtp_in : ℕ
  pub floor_holds : ℕ
  pub floor_ms : ℕ
  pub floor_started_ms : ℕ

-- The reasons `LINK_ERR_` that are sent.
pub data Reason : Type 0 where
  lease_expired admin_action protocol_error unknown_tg not_authorized : Reason

-- What the reflector sends, writes or forwards.
pub data Notice : Type 0 where
  talker_is : ℕ → Option ℕ → Notice
  recording_starts : ℕ → ℕ → Notice
  recording_ends : ℕ → Notice
  recorded : ℕ → Notice
  floor_revoked : ℕ → ℕ → Reason → Notice
  floor_denied : ℕ → ℕ → Notice
  tg_denied : ℕ → ℕ → Reason → Notice
  tg_ok : ℕ → ℕ → Notice
  tg_roster : ℕ → Notice
  fanned_out : ℕ → ℕ → Notice

-- `g_tg_rt`, `g_node_rt`
pub record Reflector : Type 0 where
  pub tgs : ℕ → TgRt
  pub nodes : ℕ → NodeRt
  pub sent : List Notice

abbrev pub put {ℓ} : {A : Type ℓ} → ℕ → A → (ℕ → A) → ℕ → A
put i x f j = if i == j then x else f j

abbrev pub is_talker : ℕ → Option ℕ → Bool
is_talker node none = false
is_talker node (some n) = n == node

abbrev pub is_some_talker : Option ℕ → Bool
is_some_talker none = false
is_some_talker (some n) = true

abbrev pub when_sent : Bool → Notice → List Notice
when_sent b m = if b then m ∷ [] else []

-- The test at the head of `floor_try_grant`: someone else holds the floor.
abbrev pub is_busy : TgRt → ℕ → ℕ → Bool
is_busy t node now =
    is_some_talker t.talker && not (is_talker node t.talker) && ltb now t.lease_expires_ms

-- The rest of `floor_try_grant`. A new talker ends the recording of the last and starts one.
unfoldable pub take_floor : Rcfg → ℕ → ℕ → ℕ → Reflector → Reflector
take_floor cfg tg node now s =
    let t = s.tgs tg in
    let n = s.nodes node in
    if is_talker node t.talker
    then record s { tgs = put tg (record t { lease_expires_ms = now + cfg.hangtime_ms }) s.tgs }
    else record {
      tgs =
          put tg
            (record {
              talker = some node;
              lease_expires_ms = now + cfg.hangtime_ms;
              recording = cfg.recording_enabled;
            })
            s.tgs;
      nodes =
          put node (record n { floor_holds = n.floor_holds + 1; floor_started_ms = now }) s.nodes;
      sent =
          s.sent
          ++ (talker_is tg (some node) ∷ when_sent t.recording (recording_ends tg)
              ++ when_sent cfg.recording_enabled (recording_starts tg node));
    }

-- `floor_try_grant`
unfoldable pub floor_try_grant : Rcfg → ℕ → ℕ → ℕ → Reflector → Reflector × Bool
unfolding take_floor
floor_try_grant cfg tg node now s =
    if is_busy (s.tgs tg) node now then (s, false) else (take_floor cfg tg node now s, true)

-- The airtime of a holder that lets go.
abbrev pub tally : ℕ → NodeRt → NodeRt
tally now n =
    if ltb 0 n.floor_started_ms
    then record n { floor_ms = n.floor_ms + (now - n.floor_started_ms); floor_started_ms = 0 }
    else n

abbrev pub revoke_notice : ℕ → ℕ → Option Reason → Bool → List Notice
revoke_notice tg node none connected = []
revoke_notice tg node (some r) connected = when_sent connected (floor_revoked tg node r)

-- `floor_release`
unfoldable pub floor_release : ℕ → Option Reason → ℕ → Reflector → Reflector
floor_release tg reason now s =
    let t = s.tgs tg in
    elim t.talker [
      | none ↦ s
      | some node ↦ record {
        tgs = put tg (record { talker = none; lease_expires_ms = 0; recording = false }) s.tgs;
        nodes = put node (tally now (s.nodes node)) s.nodes;
        sent =
            s.sent
            ++ (when_sent t.recording (recording_ends tg)
                ++ (talker_is tg none ∷ revoke_notice tg node reason (s.nodes node).connected));
      }
    ]

-- The loop of `floor_tick`, over so many talkgroups from an index on.
unfoldable pub floor_tick_from : ℕ → ℕ → ℕ → Reflector → Reflector
unfolding floor_release
floor_tick_from i zero now s = s
floor_tick_from i (suc n) now s =
    let t = s.tgs i in
    floor_tick_from (i + 1) n now (
      if is_some_talker t.talker && leb t.lease_expires_ms now
      then floor_release i (some lease_expired) now s
      else s)

-- `floor_tick`
unfoldable pub floor_tick : Rcfg → ℕ → Reflector → Reflector
floor_tick cfg now s = floor_tick_from 0 (length cfg.tgs) now s

-- The loop of the close of a node's connection: it lets go of every floor.
unfoldable pub release_all_from : ℕ → ℕ → ℕ → ℕ → Reflector → Reflector
unfolding floor_release
release_all_from i zero node now s = s
release_all_from i (suc n) node now s =
    release_all_from (i + 1) n node now
      (if is_talker node (s.tgs i).talker then floor_release i none now s else s)

-- ===== src/Tests/ReflectorTests.antt =====
-- Runs of the floor control of src/reflectd/main.c.
use kerchunk.Prelude.{
  ℕ, ◌≡◌, ◌≢◌, refl, true, false, none, some, List, [], ◌∷◌, arith, replicate, ◌==◌, if◌then◌else◌,
}
use kerchunk.Reflector.{
  Rcfg, TgRt, NodeRt, Reflector, rcfg_tg_idx, floor_release, floor_try_grant, floor_tick,
  is_some_talker,
}
use kerchunk.Config.{CfgEntry}
use kerchunk.Reflector.Roster.{NodeEntry, rcfg_load, psk_key, default_key, nodes_key}
use kerchunk.Reflector.Roster.Valid.{IsRoster, rcfg_load-IsRoster}
use kerchunk.Reflector.Inputs.{
  run, set_tg, packet, poll, close_of, login, talk_starts, ReflectorInput,
}
use kerchunk.Reflector.Floor.{IsValid, idle_tg}
use kerchunk.Reflector.Floor.Steps.{run_holders-IsValid}
use kerchunk.Reflector.Floor.Kept.{run_keeps_floor}
use kerchunk.Reflector.Floor.Banned.{banned_out}

-- Two talkgroups with three nodes, of which node 0 talks on the first.
abbrev two_tgs : Rcfg
two_tgs = record {
  tgs =
      record { number = 91; members = 0 ∷ 1 ∷ 2 ∷ [] }
      ∷ record { number = 92; members = 0 ∷ 1 ∷ [] }
      ∷ [];
  nodes = λ n. record { allowed_tgs = 91 ∷ 92 ∷ []; default_tg = 91; banned = false };
  n_nodes = 3;
  hangtime_ms = 1500;
  recording_enabled = true;
}

abbrev on_first : NodeRt
on_first = record {
  connected = true;
  muted = false;
  cur_tg = 91;
  last_floor_denied_ms = 0;
  rtp_in = 0;
  floor_holds = 1;
  floor_ms = 0;
  floor_started_ms = 1000;
}

abbrev held : TgRt
held = record { talker = some 0; lease_expires_ms = 2500; recording = true }

abbrev talking : Reflector
talking = record { tgs = λ i. if i == 0 then held else idle_tg; nodes = λ n. on_first; sent = [] }

no_tg_0 : rcfg_tg_idx two_tgs 0 ≡ none
unfolding rcfg_tg_idx kerchunk.Reflector.tg_idx_from
no_tg_0 = refl

tg_91 : rcfg_tg_idx two_tgs 91 ≡ some 0
unfolding rcfg_tg_idx kerchunk.Reflector.tg_idx_from
tg_91 = refl

talking-IsValid : IsValid two_tgs talking
talking-IsValid = record {
  holder_connected = λ i n h. refl;
  holder_on_tg = λ i n h. ground (arith, tg_91);
  idle = λ i h. ground arith;
}

run_holders-IsValid_example : IsValid two_tgs (
    run two_tgs
      ((set_tg 0 92, 1100) ∷ (packet 1 false true, 1200) ∷ (close_of 1, 1300) ∷ [])
      talking)
run_holders-IsValid_example =
    run_holders-IsValid two_tgs
      ((set_tg 0 92, 1100) ∷ (packet 1 false true, 1200) ∷ (close_of 1, 1300) ∷ []) talking no_tg_0
      talking-IsValid

run_keeps_floor_example :
    (run two_tgs ((packet 1 false true, 2499) ∷ (poll, 2000) ∷ (close_of 2, 2100) ∷ []) talking).tgs
      0
    ≡ talking.tgs 0
run_keeps_floor_example =
    run_keeps_floor two_tgs 0 0
      ((packet 1 false true, 2499) ∷ (poll, 2000) ∷ (close_of 2, 2100) ∷ []) talking refl
      (ground arith)

-- Node 2 is banned and not connected, while node 0 talks.
abbrev two_banned : Rcfg
two_banned = record two_tgs {
  nodes = λ n. record { allowed_tgs = 91 ∷ 92 ∷ []; default_tg = 91; banned = n == 2 };
}

abbrev talking_without : Reflector
talking_without = record talking {
  nodes = λ n. if n == 2 then record on_first { connected = false; cur_tg = 0 } else on_first;
}

no_banned_0 : rcfg_tg_idx two_banned 0 ≡ none
unfolding rcfg_tg_idx kerchunk.Reflector.tg_idx_from
no_banned_0 = refl

banned_91 : rcfg_tg_idx two_banned 91 ≡ some 0
unfolding rcfg_tg_idx kerchunk.Reflector.tg_idx_from
banned_91 = refl

talking_without-IsValid : IsValid two_banned talking_without
talking_without-IsValid = record {
  holder_connected = λ i n h. ground arith;
  holder_on_tg = λ i n h. ground (arith, banned_91);
  idle = λ i h. ground arith;
}

abbrev tries : List (ReflectorInput × ℕ)
tries = (login 2, 1100) ∷ (talk_starts 2, 1200) ∷ (packet 2 false true, 1300) ∷ (login 1, 1400) ∷ []

banned_out_example :
    ((run two_banned tries talking_without).nodes 2).connected ≡ false
    × ((i : ℕ) → ((run two_banned tries talking_without).tgs i).talker ≢ some 2)
banned_out_example =
    banned_out two_banned 2 tries talking_without refl refl no_banned_0 talking_without-IsValid

-- The text of a configuration of these talkgroups, as its entries.
abbrev entries : List CfgEntry
entries =
    record {
      section = b'n' ∷ b'o' ∷ b'd' ∷ b'e' ∷ b'.' ∷ b'a' ∷ [];
      key = psk_key;
      value = replicate 64 b'a';
    }
    ∷ record {
      section = b'n' ∷ b'o' ∷ b'd' ∷ b'e' ∷ b'.' ∷ b'b' ∷ [];
      key = psk_key;
      value = replicate 64 b'a';
    }
    ∷ record {
      section = b'n' ∷ b'o' ∷ b'd' ∷ b'e' ∷ b'.' ∷ b'c' ∷ [];
      key = psk_key;
      value = replicate 64 b'a';
    }
    ∷ record {
      section = b'n' ∷ b'o' ∷ b'd' ∷ b'e' ∷ b'.' ∷ b'a' ∷ [];
      key = default_key;
      value = b'9' ∷ b'1' ∷ [];
    }
    ∷ record {
      section =
          b't' ∷ b'a' ∷ b'l' ∷ b'k' ∷ b'g' ∷ b'r' ∷ b'o' ∷ b'u' ∷ b'p' ∷ b'.' ∷ b'9' ∷ b'1' ∷ [];
      key = nodes_key;
      value = b'a' ∷ b',' ∷ b'b' ∷ b',' ∷ b'c' ∷ [];
    }
    ∷ record {
      section =
          b't' ∷ b'a' ∷ b'l' ∷ b'k' ∷ b'g' ∷ b'r' ∷ b'o' ∷ b'u' ∷ b'p' ∷ b'.' ∷ b'9' ∷ b'2' ∷ [];
      key = nodes_key;
      value = b'a' ∷ b',' ∷ b' ' ∷ b'b' ∷ [];
    }
    ∷ []

abbrev three_nodes : List NodeEntry
three_nodes =
    record {
      id = b'a' ∷ [];
      psk = replicate 32 170;
      allowed_tgs = 91 ∷ [];
      default_tg = 91;
      banned = false;
    }
    ∷ record {
      id = b'b' ∷ [];
      psk = replicate 32 170;
      allowed_tgs = [];
      default_tg = 0;
      banned = false;
    }
    ∷ record {
      id = b'c' ∷ [];
      psk = replicate 32 170;
      allowed_tgs = [];
      default_tg = 0;
      banned = false;
    }
    ∷ []

is_loaded : rcfg_load entries ≡ some (three_nodes, two_tgs.tgs)
unfolding rcfg_load kerchunk.Reflector.Roster.each_section kerchunk.Reflector.Roster.load_node
    kerchunk.Reflector.Roster.load_tg kerchunk.Reflector.Roster.hex_to_bytes
    kerchunk.Reflector.Roster.read_tgs kerchunk.Reflector.Roster.split_csv
    kerchunk.Reflector.Roster.tokens kerchunk.Reflector.Roster.node_idx_from
    kerchunk.Reflector.Roster.read_members kerchunk.Config.Entries.config_get
    kerchunk.Config.Entries.next_section kerchunk.Config.Entries.next_section_from
    kerchunk.Config.Entries.has_section kerchunk.Config.Numbers.atoi kerchunk.Config.Numbers.get_int
    kerchunk.Config.Numbers.signed kerchunk.Config.Duration.read_digits kerchunk.Text.trim
    kerchunk.Text.trim_start kerchunk.Text.trim_end kerchunk.Text.same_text
    kerchunk.Reflector.is_listed
is_loaded = refl

rcfg_load-IsRoster_example : IsRoster three_nodes two_tgs.tgs
rcfg_load-IsRoster_example = rcfg_load-IsRoster entries three_nodes two_tgs.tgs is_loaded

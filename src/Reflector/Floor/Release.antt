-- ===== src/Reflector/Floor/Release.antt =====
-- What lets go of floors in src/reflectd/main.c, and that every input keeps holders on their talkgroups.
use kerchunk.Prelude.{
  ℕ, zero, suc, ◌+◌, ◌<◌, ◌≤◌, ◌≡◌, ◌≢◌, refl, inl, inr, Bool, true, false, ◌&&◌, ◌||◌, leb, ◌==◌,
  Option, none, some, List, arith, Bool-cases, if◌then◌else◌,
}
use kerchunk.Reflector.{
  Rcfg, Reflector, NodeRt, Notice, Reason, lease_expired, rcfg_tg_idx, floor_release, is_talker,
  is_some_talker, floor_tick_from, release_all_from,
}
use kerchunk.Reflector.Inputs.{with_node, send, leave_tg}
use kerchunk.Reflector.Floor.{
  IsValid, Releases, Releases-refl, Releases-trans, floor_release-Releases, floor_release-idle,
  Releases-holder,
}

-- The floor is let go where a test says so.
pub Releases-if :
    (b : Bool) (tg : ℕ) (reason : Option Reason) (now : ℕ) (s : Reflector)
    → Releases s (if b then floor_release tg reason now s else s)
Releases-if true tg reason now s = floor_release-Releases tg reason now s
Releases-if false tg reason now s = Releases-refl s

pub floor_tick_from-Releases :
    (i n now : ℕ) (s : Reflector) → Releases s (floor_tick_from i n now s)
unfolding floor_tick_from
floor_tick_from-Releases i zero now s = Releases-refl s
floor_tick_from-Releases i (suc n) now s =
    let due = is_some_talker (s.tgs i).talker && leb (s.tgs i).lease_expires_ms now in
    let s1 = if due then floor_release i (some lease_expired) now s else s in
    Releases-trans (Releases-if due i (some lease_expired) now s)
      (floor_tick_from-Releases (i + 1) n now s1)

pub release_all_from-Releases :
    (i n node now : ℕ) (s : Reflector) → Releases s (release_all_from i n node now s)
unfolding release_all_from
release_all_from-Releases i zero node now s = Releases-refl s
release_all_from-Releases i (suc n) node now s =
    let held = is_talker node (s.tgs i).talker in
    let s1 = if held then floor_release i none now s else s in
    Releases-trans (Releases-if held i none now s) (release_all_from-Releases (i + 1) n node now s1)

released_if :
    (tg node now : ℕ) (s : Reflector)
    → ((if is_talker node (s.tgs tg).talker then floor_release tg none now s else s).tgs tg).talker
      ≢ some node
released_if tg node now s h = elim (Bool-cases (is_talker node (s.tgs tg).talker)) [
  | inl e ↦ ground (arith, floor_release-idle tg none now s)
  | inr e ↦ ground arith
]

-- No talkgroup of the range is left to the node.
pub release_all_from_lem :
    (i n node now : ℕ) (s : Reflector) (j : ℕ)
    → i ≤ j
    → j < i + n
    → ((release_all_from i n node now s).tgs j).talker ≢ some node
unfolding release_all_from
release_all_from_lem i zero node now s j a b h = omega arith
release_all_from_lem i (suc n) node now s j a b h =
    let s1 = if is_talker node (s.tgs i).talker then floor_release i none now s else s in
    elim (Bool-cases (i == j)) [
      | inl e ↦ ground (
        arith,
        released_if i node now s,
        Releases-holder (release_all_from-Releases (i + 1) n node now s1) j node h,
      )
      | inr e ↦ release_all_from_lem (i + 1) n node now s1 j (ground arith) (omega arith) h
    ]

pub Releases-choice :
    (b : Bool) {s a c : Reflector} → Releases s a → Releases s c → Releases s (if b then a else c)
Releases-choice true p q = p
Releases-choice false p q = q

-- The floor of a talkgroup, if there is one, is let go where the node holds it.
pub Releases-held :
    (o : Option ℕ) (node now : ℕ) (s : Reflector)
    → Releases s (elim o [
      | none ↦ s
      | some i ↦ if is_talker node (s.tgs i).talker then floor_release i none now s else s
    ])
Releases-held none node now s = Releases-refl s
Releases-held (some i) node now s = Releases-if (is_talker node (s.tgs i).talker) i none now s

pub Releases-at :
    (o : Option ℕ) (reason : Option Reason) (now : ℕ) (s : Reflector)
    → Releases s (elim o [ none ↦ s | some i ↦ floor_release i reason now s ])
Releases-at none reason now s = Releases-refl s
Releases-at (some i) reason now s = floor_release-Releases i reason now s

pub leave_tg-Releases :
    (cfg : Rcfg) (node tg now : ℕ) (s : Reflector) → Releases s (leave_tg cfg node tg now s)
unfolding leave_tg
leave_tg-Releases cfg node tg now s =
    Releases-choice ((s.nodes node).cur_tg == 0 || (s.nodes node).cur_tg == tg) (Releases-refl s)
      (Releases-held (rcfg_tg_idx cfg (s.nodes node).cur_tg) node now s)

-- A node that leaves its talkgroup for another holds no floor.
pub leave_tg_frees :
    (cfg : Rcfg) (node tg now : ℕ) (s : Reflector)
    → rcfg_tg_idx cfg 0 ≡ none
    → (s.nodes node).cur_tg ≢ tg
    → IsValid cfg s
    → (j : ℕ) → ((leave_tg cfg node tg now s).tgs j).talker ≢ some node
unfolding leave_tg
leave_tg_frees cfg node tg now s z d v j h =
    let held = Releases-holder (leave_tg-Releases cfg node tg now s) j node h in
    let on = v.holder_on_tg j node held in ground (arith, on, released_if j node now s)

-- A node keeps what bears on the floors, or holds none.
pub with_node_same :
    (cfg : Rcfg) (node : ℕ) (n : NodeRt) (s : Reflector)
    → n.connected ≡ (s.nodes node).connected
    → n.cur_tg ≡ (s.nodes node).cur_tg
    → IsValid cfg s
    → IsValid cfg (with_node node n s)
with_node_same cfg node n s c t v = record {
  holder_connected = λ i m h. ground (arith, v.holder_connected i m h);
  holder_on_tg = λ i m h. ground (arith, v.holder_on_tg i m h);
  idle = v.idle;
}

pub with_node_free :
    (cfg : Rcfg) (node : ℕ) (n : NodeRt) (s : Reflector)
    → ((j : ℕ) → (s.tgs j).talker ≢ some node)
    → IsValid cfg s
    → IsValid cfg (with_node node n s)
with_node_free cfg node n s f v = record {
  holder_connected = λ i m h. ground (arith, v.holder_connected i m h, f i);
  holder_on_tg = λ i m h. ground (arith, v.holder_on_tg i m h, f i);
  idle = v.idle;
}

pub send-IsValid :
    (cfg : Rcfg) (ms : List Notice) (s : Reflector) → IsValid cfg s → IsValid cfg (send ms s)
send-IsValid cfg ms s v = record {
  holder_connected = v.holder_connected;
  holder_on_tg = v.holder_on_tg;
  idle = v.idle;
}

pub IsValid-if :
    (cfg : Rcfg) (b : Bool) (a c : Reflector)
    → (b ≡ true → IsValid cfg a)
    → (b ≡ false → IsValid cfg c)
    → IsValid cfg (if b then a else c)
IsValid-if cfg true a c p q = p refl
IsValid-if cfg false a c p q = q refl

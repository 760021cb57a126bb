-- ===== src/Reflector/Floor.antt =====
-- The floor of a talkgroup, of src/reflectd/main.c: who holds it is connected and on that talkgroup.
pub mod Release
pub mod Steps
pub mod Lease
pub mod Kept
pub mod Banned
use mathlib.Core.Path.{subst}
use kerchunk.Prelude.{
  ℕ, zero, suc, ◌+◌, ◌<◌, ◌≤◌, ◌≡◌, ◌≢◌, refl, ◌⊎◌, inl, inr, sym, ap, ◌∙◌, Bool, true, false, ◌==◌,
  Option, none, some, List, [], ◌∷◌, length, arith, Bool-cases, Option-cases,
}
use kerchunk.Reflector.{
  Rcfg, RcfgTg, TgRt, Reflector, Reason, rcfg_tg_idx, tg_idx_from, floor_release, floor_try_grant,
  take_floor, floor_tick_from, release_all_from, is_talker, is_busy,
}

abbrev pub idle_tg : TgRt
idle_tg = record { talker = none; lease_expires_ms = 0; recording = false }

-- A holder is connected and on its talkgroup; an idle talkgroup has no lease and no recording.
pub record IsValid (cfg : Rcfg) (s : Reflector) : Type 0 where
  pub holder_connected : (i n : ℕ) → (s.tgs i).talker ≡ some n → (s.nodes n).connected ≡ true
  pub holder_on_tg :
      (i n : ℕ) → (s.tgs i).talker ≡ some n → rcfg_tg_idx cfg (s.nodes n).cur_tg ≡ some i
  pub idle : (i : ℕ) → (s.tgs i).talker ≡ none → s.tgs i ≡ idle_tg

-- What a step does that only lets go of floors.
pub record Releases (s s' : Reflector) : Type 0 where
  pub same_connected : (n : ℕ) → (s'.nodes n).connected ≡ (s.nodes n).connected
  pub same_cur_tg : (n : ℕ) → (s'.nodes n).cur_tg ≡ (s.nodes n).cur_tg
  pub each : (j : ℕ) → (s'.tgs j ≡ s.tgs j) ⊎ (s'.tgs j ≡ idle_tg)

pub Releases-refl : (s : Reflector) → Releases s s
Releases-refl s = record {
  same_connected = λ n. refl;
  same_cur_tg = λ n. refl;
  each = λ j. inl refl;
}

pub Releases-trans : {a b c : Reflector} → Releases a b → Releases b c → Releases a c
Releases-trans {a} {b} {c} p q = record {
  same_connected = λ n. q.same_connected n ∙ p.same_connected n;
  same_cur_tg = λ n. q.same_cur_tg n ∙ p.same_cur_tg n;
  each = λ j. elim (q.each j) [
    | inr e ↦ inr e
    | inl e ↦ elim (p.each j) [ inl d ↦ inl (e ∙ d) | inr d ↦ inr (e ∙ d) ]
  ];
}

pub floor_release-Releases :
    (tg : ℕ) (reason : Option Reason) (now : ℕ) (s : Reflector)
    → Releases s (floor_release tg reason now s)
unfolding floor_release
floor_release-Releases tg reason now s = elim (Option-cases (s.tgs tg).talker) [
  | inl e ↦ record {
    same_connected = λ n. ground arith;
    same_cur_tg = λ n. ground arith;
    each = λ j. ground arith;
  }
  | inr (h, e) ↦ record {
    same_connected = λ n. ground arith;
    same_cur_tg = λ n. ground arith;
    each = λ j. ground arith;
  }
]

pub floor_release-idle :
    (tg : ℕ) (reason : Option Reason) (now : ℕ) (s : Reflector)
    → ((floor_release tg reason now s).tgs tg).talker ≡ none
unfolding floor_release
floor_release-idle tg reason now s = elim (Option-cases (s.tgs tg).talker) [
  | inl e ↦ ground arith
  | inr (h, e) ↦ ground arith
]

-- Nobody comes to hold a floor.
pub Releases-holder :
    {s s' : Reflector} (r : Releases s s') (j n : ℕ)
    → (s'.tgs j).talker ≡ some n
    → (s.tgs j).talker ≡ some n
Releases-holder r j n h = elim (r.each j) [ inl e ↦ ground arith | inr e ↦ ground arith ]

pub Releases-IsValid :
    (cfg : Rcfg) {s s' : Reflector} → Releases s s' → IsValid cfg s → IsValid cfg s'
Releases-IsValid cfg {s} {s'} r v = record {
  holder_connected = λ i n h. r.same_connected n ∙ v.holder_connected i n (Releases-holder r i n h);
  holder_on_tg = λ i n h.
      ap (rcfg_tg_idx cfg) (r.same_cur_tg n) ∙ v.holder_on_tg i n (Releases-holder r i n h);
  idle =
      λ i h. elim (r.each i) [ inl e ↦ e ∙ v.idle i (ap (λ t. t.talker) (sym e) ∙ h) | inr e ↦ e ];
}

-- A grant to a node that is connected and on the talkgroup.
pub floor_try_grant-IsValid :
    (cfg : Rcfg) (tg node now : ℕ) (s : Reflector)
    → (s.nodes node).connected ≡ true
    → rcfg_tg_idx cfg (s.nodes node).cur_tg ≡ some tg
    → IsValid cfg s
    → IsValid cfg (floor_try_grant cfg tg node now s).0
unfolding floor_try_grant
floor_try_grant-IsValid cfg tg node now s c on v = record {
  holder_connected = λ i n h. ground (arith, v.holder_connected i n, v.holder_connected tg n);
  holder_on_tg = λ i n h. ground (arith, v.holder_on_tg i n, v.holder_on_tg tg n);
  idle = λ i h. ground (arith, v.idle i, v.idle tg);
}

-- An index that is found is one of the list.
tg_idx_from_lt :
    (i : ℕ) (ts : List RcfgTg) (number j : ℕ)
    → tg_idx_from i ts number ≡ some j
    → (i ≤ j) × (j < i + length ts)
unfolding tg_idx_from
tg_idx_from_lt i [] number j h = ground arith
tg_idx_from_lt i (t ∷ ts) number j h = ground (arith, tg_idx_from_lt (i + 1) ts number j)

pub rcfg_tg_idx_lt :
    (cfg : Rcfg) (number j : ℕ) → rcfg_tg_idx cfg number ≡ some j → j < length cfg.tgs
unfolding rcfg_tg_idx
rcfg_tg_idx_lt cfg number j h = omega (arith, (tg_idx_from_lt 0 cfg.tgs number j h).1)

-- ===== src/TxActivity/Traces.antt =====
-- What src/kerchunk_txactivity.c reports over a sequence of ticks.
use kerchunk.Prelude.{
  ℕ, ◌+◌, ◌≤◌, ◌<◌, ◌≡◌, ◌&&◌, Bool, true, false, ℤ, arith, refl, List, [], ◌∷◌, length, Bool-cases,
  inl, inr, ◌⊎◌, ◌∙◌,
}
use kerchunk.TxActivity.{TxActivity, end, Reading, is_silent, sample, edge, tick, run}
use kerchunk.TxActivity.Laws.{IsValid, tick-IsValid}

-- How many of the readings, counted back from the last, brought silence.
unfoldable pub silent_suffix : TxActivity → ℕ → List Reading → ℕ
silent_suffix s n [] = n
silent_suffix s n (r ∷ rest) =
    silent_suffix (tick s r.0 r.1).0 (elim (is_silent s r) [ true ↦ n + 1 | false ↦ 0 ]) rest

tick_silent :
    (s : TxActivity) (c : ℤ) (d : Bool) (n : ℕ)
    → IsValid s
    → s.silent_ticks ≤ n
    → (is_silent s (c, d) ≡ true → (tick s c d).0.silent_ticks ≤ n + 1)
      × (is_silent s (c, d) ≡ false → (tick s c d).0.silent_ticks ≡ 0)
      × ((tick s c d).1 ≡ end → (is_silent s (c, d) ≡ true) × (s.end_silence_ticks ≤ n + 1))
      × ((tick s c d).0.end_silence_ticks ≡ s.end_silence_ticks)
unfolding tick sample edge
tick_silent s c d n v h = ground arith

run-IsValid : (s : TxActivity) (rs : List Reading) → IsValid s → IsValid (run s rs)
unfolding run
run-IsValid s [] v = v
run-IsValid s (r ∷ rs) v = run-IsValid (tick s r.0 r.1).0 rs (tick-IsValid s r.0 r.1 v)

run_silent :
    (s : TxActivity) (n : ℕ) (rs : List Reading)
    → IsValid s
    → s.silent_ticks ≤ n
    → ((run s rs).silent_ticks ≤ silent_suffix s n rs)
      × ((run s rs).end_silence_ticks ≡ s.end_silence_ticks)
unfolding run silent_suffix
run_silent s n [] v h = (h, refl)
run_silent s n (r ∷ rs) v h =
    let s' = (tick s r.0 r.1).0 in
    let v' = tick-IsValid s r.0 r.1 v in
    let (more, reset, _, same) = tick_silent s r.0 r.1 n v h in
    elim (Bool-cases (is_silent s r)) [
      | inl e ↦ rw e (let (a, b) = run_silent s' (n + 1) rs v' (more e) in (a, b ∙ same))
      | inr e ↦ rw e (let (a, b) = run_silent s' 0 rs v' (omega (arith, reset e)) in (a, b ∙ same))
    ]

-- END is never early: when a tick reports it, that tick and the ones just before it, at least
-- `end_silence_ticks` in all, brought silence without interruption.
pub end_after_silence :
    (s : TxActivity) (rs : List Reading) (r : Reading)
    → IsValid s
    → s.silent_ticks ≡ 0
    → (tick (run s rs) r.0 r.1).1 ≡ end
    → (is_silent (run s rs) r ≡ true) × (s.end_silence_ticks ≤ silent_suffix s 0 rs + 1)
end_after_silence s rs r v z e =
    let (few, same) = run_silent s 0 rs v (omega arith) in
    let t = run s rs in
    let (_, _, ended, _) = tick_silent t r.0 r.1 (silent_suffix s 0 rs) (run-IsValid s rs v) few in
    ((ended e).0, omega (arith, (ended e).1))

-- Every reading of the sequence brings silence, at the state that it meets.
unfoldable pub all_silent : TxActivity → List Reading → Bool
all_silent s [] = true
all_silent s (r ∷ rs) = is_silent s r && all_silent (tick s r.0 r.1).0 rs

tick_counts :
    (s : TxActivity) (c : ℤ) (d : Bool)
    → IsValid s
    → is_silent s (c, d) ≡ true
    → ((tick s c d).0.end_silence_dtmf_ticks ≡ s.end_silence_dtmf_ticks)
      × (((tick s c d).0.published ≡ false)
          ⊎ (((tick s c d).0.silent_ticks ≡ s.silent_ticks + 1)
              × (s.silent_ticks + 1 < s.end_silence_dtmf_ticks)))
unfolding tick sample edge
tick_counts s c d v h = ground arith

stays_ended :
    (s : TxActivity) (rs : List Reading)
    → IsValid s
    → s.published ≡ false
    → all_silent s rs ≡ true
    → (run s rs).published ≡ false
unfolding run all_silent tick sample edge
stays_ended s [] v p h = p
stays_ended s (r ∷ rs) v p h =
    stays_ended (tick s r.0 r.1).0 rs (tick-IsValid s r.0 r.1 v) (ground arith) (ground arith)

-- A session always ends: once silence has lasted for the patient window, and for one tick at least,
-- the user is reported silent, whatever happened before.
pub silence_ends :
    (s : TxActivity) (r : Reading) (rs : List Reading)
    → IsValid s
    → s.end_silence_dtmf_ticks ≤ s.silent_ticks + length (r ∷ rs)
    → all_silent s (r ∷ rs) ≡ true
    → (run s (r ∷ rs)).published ≡ false
unfolding run all_silent
silence_ends s r [] v h e = ground (arith, tick_counts s r.0 r.1 v)
silence_ends s r (q ∷ rs) v h e =
    let s' = (tick s r.0 r.1).0 in
    let v' = tick-IsValid s r.0 r.1 v in
    let (same, cases) = tick_counts s r.0 r.1 v (ground arith) in
    elim cases [
      | inl over ↦ stays_ended s' (q ∷ rs) v' over (ground arith)
      | inr going ↦ silence_ends s' q rs v' (omega arith) (ground arith)
    ]

-- ===== src/Repeater/Runs.antt =====
-- Runs of the state machine of modules/mod_repeater.c over inputs of some kind.
use kerchunk.Prelude.{Bool, true, false, ◌≡◌, List, [], ◌∷◌}
use kerchunk.Repeater.{Rpt}
use kerchunk.Repeater.Handlers.{RptInput, cor_assert, cor_drop, emergency_set, step, run}

-- Every input of a run passes a test.
abbrev pub AllPass : (RptInput → Bool) → List RptInput → Type 0
AllPass p [] = Unit {0}
AllPass p (i ∷ is) = (p i ≡ true) × AllPass p is

-- What every input of the kind keeps, the run keeps.
pub run_keeps :
    (p : RptInput → Bool) (P : Rpt → Type 0)
    → ((i : RptInput) (w : Rpt) → p i ≡ true → P w → P (step i w))
    → (is : List RptInput) (w : Rpt) → AllPass p is
    → P w
    → P (run is w)
unfolding run
run_keeps p P keep [] w a h = h
run_keeps p P keep (i ∷ is) w a h = run_keeps p P keep is (step i w) a.1 (keep i w a.0 h)

-- Any input but a drop of COR.
abbrev pub but_cor_drop : RptInput → Bool
but_cor_drop cor_drop = false
but_cor_drop _ = true

-- Any input but a rise of COR.
abbrev pub but_cor_assert : RptInput → Bool
but_cor_assert cor_assert = false
but_cor_assert _ = true

-- Any input but the end of an emergency.
abbrev pub but_emergency_end : RptInput → Bool
but_emergency_end (emergency_set on) = on
but_emergency_end _ = true

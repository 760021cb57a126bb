-- ===== src/Core/Taps.antt =====
-- The audio taps of src/kerchunk_core.c: up to eight handlers with their user data, as a list in the
-- order of registration. The playback taps run through the same code on an array of their own.
use kerchunk.Prelude.{
  ℕ, ◌≤◌, ◌<◌, ◌≡◌, ◌≢◌, Bool, true, false, leb, ◌==◌, if◌then◌else◌, List, [], ◌∷◌, ◌++◌, length,
  arith,
}

-- A handler is known by its address.
pub record Tap : Type 0 where
  pub handler : ℕ
  pub userdata : ℕ

-- `MAX_TAPS`
abbrev pub max_taps : ℕ
max_taps = 8

-- `core_audio_tap_register`, `core_playback_tap_register`; the flag is false for -1.
unfoldable pub tap_register : ℕ → ℕ → List Tap → List Tap × Bool
tap_register handler userdata taps =
    if leb max_taps (length taps)
    then (taps, false)
    else (taps ++ (record { handler = handler; userdata = userdata } ∷ []), true)

-- `core_audio_tap_unregister`, `core_playback_tap_unregister`: the first entry of the handler goes,
-- and the ones behind it move up.
unfoldable pub tap_unregister : ℕ → List Tap → List Tap
tap_unregister handler [] = []
tap_unregister handler (t ∷ taps) =
    if t.handler == handler then taps else t ∷ tap_unregister handler taps

-- `kerchunk_core_dispatch_taps`: the handlers that are called, with their data, from a snapshot.
unfoldable pub dispatch_taps : {W : Type 0} → (Tap → W → W) → List Tap → W → W
dispatch_taps call [] w = w
dispatch_taps call (t ∷ taps) w = dispatch_taps call taps (call t w)

abbrev pub NotThere : ℕ → List Tap → Type 0
NotThere h [] = Unit {0}
NotThere h (t ∷ taps) = (t.handler ≢ h) × NotThere h taps

unregister_last :
    (h u : ℕ) (taps : List Tap)
    → NotThere h taps
    → tap_unregister h (taps ++ (record { handler = h; userdata = u } ∷ [])) ≡ taps
unfolding tap_unregister
unregister_last h u [] n = ground arith
unregister_last h u (t ∷ taps) n = ground (arith, unregister_last h u taps n.1)

-- A handler that registers and unregisters leaves the taps as they were, if it was not there; and a
-- registration fails exactly when eight are there, and then changes nothing.
pub tap_unregister-register :
    (h u : ℕ) (taps : List Tap)
    → NotThere h taps
    → let (taps', done) = tap_register h u taps in
      (done ≡ true → (tap_unregister h taps' ≡ taps) × (length taps < max_taps))
      × (done ≡ false → (taps' ≡ taps) × (max_taps ≤ length taps))
unfolding tap_register
tap_unregister-register h u taps n = ground (arith, unregister_last h u taps n)

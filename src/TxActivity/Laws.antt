-- ===== src/TxActivity/Laws.antt =====
-- What one tick of src/kerchunk_txactivity.c does to a session, on every reading.
use kerchunk.Prelude.{
  zero, suc, ◌≤◌, ◌≡◌, ◌↔◌, ◌||◌, Bool, true, false, ℤ, pos, negsuc, arith, refl,
}
use kerchunk.TxActivity.{TxActivity, begin, end, long_ago, init, sample, edge, tick}

-- Between two ticks: outside a session nothing is counted and no flap is remembered, and the
-- patient window is at least the plain one.
pub record IsValid (s : TxActivity) : Type 0 where
  pub idle_silent : s.published ≡ false → s.silent_ticks ≡ 0
  pub idle_unflapped : s.published ≡ false → s.cos_flapped_session ≡ false
  pub windows : s.end_silence_ticks ≤ s.end_silence_dtmf_ticks
  pub tone_age : s.dtmf_seen_ago ≤ long_ago
  pub untrusted : s.trust_cos_bit ≡ false → s.cos_bit_sticky ≡ false

-- A detector that was just set up, with whatever configuration, is valid.
pub init-IsValid : (a b c : ℤ) (t : Bool) → IsValid (init a b c t)
unfolding init
init-IsValid a b c t = ground arith

sample-windows :
    (s : TxActivity) (c : ℤ) (d : Bool)
    → IsValid s
    → let s' = sample s c d in
      (s'.published ≡ s.published)
      × (s'.silent_ticks ≡ s.silent_ticks)
      × (s'.end_silence_ticks ≤ s'.end_silence_dtmf_ticks)
      × (s'.dtmf_seen_ago ≤ long_ago)
      × (s'.trust_cos_bit ≡ false → s'.cos_bit_sticky ≡ false)
      × (s'.published ≡ false → s'.cos_flapped_session ≡ false)
unfolding sample
sample-windows s (pos zero) d v = ground arith
sample-windows s (pos (suc zero)) d v = ground arith
sample-windows s (pos (suc (suc n))) d v = ground arith
sample-windows s (negsuc n) d v = ground arith

edge-IsValid :
    (s : TxActivity) (p : Bool)
    → s.end_silence_ticks ≤ s.end_silence_dtmf_ticks
    → s.dtmf_seen_ago ≤ long_ago
    → (s.trust_cos_bit ≡ false → s.cos_bit_sticky ≡ false)
    → (s.published ≡ false → s.cos_flapped_session ≡ false)
    → (s.published ≡ false → s.silent_ticks ≡ 0)
    → IsValid (edge s p).0
unfolding edge
edge-IsValid s p h1 h2 h3 h4 h5 = ground arith

-- Every tick keeps the detector valid, whatever it reads.
pub tick-IsValid : (s : TxActivity) (c : ℤ) (d : Bool) → IsValid s → IsValid (tick s c d).0
unfolding tick
tick-IsValid s c d v =
    let (p, t, w, a, u, f) = sample-windows s c d v in
    let s' = sample s c d in edge-IsValid s' (s'.cos_bit_sticky || d) w a u f (ground arith)

edge-published :
    (s : TxActivity) (p : Bool)
    → (((edge s p).1 ≡ begin) ↔ ((s.published ≡ false) × ((edge s p).0.published ≡ true)))
      × (((edge s p).1 ≡ end) ↔ ((s.published ≡ true) × ((edge s p).0.published ≡ false)))
      × ((p ≡ true) → (edge s p).0.published ≡ true)
      × ((p ≡ true) → (edge s p).0.silent_ticks ≡ 0)
unfolding edge
edge-published s p = ground arith

sample-published : (s : TxActivity) (c : ℤ) (d : Bool) → (sample s c d).published ≡ s.published
unfolding sample
sample-published s c d = refl

-- The reported edges are exactly the changes of the published state: BEGIN on each change to
-- transmitting, END on each change to silence, and nothing else, so the two alternate.
pub tick-edges :
    (s : TxActivity) (c : ℤ) (d : Bool)
    → (((tick s c d).1 ≡ begin) ↔ ((s.published ≡ false) × ((tick s c d).0.published ≡ true)))
      × (((tick s c d).1 ≡ end) ↔ ((s.published ≡ true) × ((tick s c d).0.published ≡ false)))
unfolding tick
tick-edges s c d =
    let s' = sample s c d in
    ground (arith, edge-published s' (s'.cos_bit_sticky || d), sample-published s c d)

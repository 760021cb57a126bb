-- ===== src/Sched/Boundary.antt =====
-- The times that `compute_next_boundary` of src/kerchunk_sched.c computes.
use kerchunk.Prelude.{
  ℕ, zero, suc, ◌+◌, ◌*◌, ◌/◌, ◌≤◌, ◌<◌, ◌≡◌, ℤ, pos, pos_part, neg_part, ltb_ℤ, ◌+ℤ◌, ◌≤ℤ◌, ◌<ℤ◌,
  arith, Bool-cases, inl, inr,
}
use kerchunk.Sched.{advance, next_boundary}

-- The loop ends in the future, if its rounds are enough.
advance-future :
    (fuel epoch align : ℕ) (next : ℤ)
    → 0 < align
    → epoch + neg_part next < pos_part next + fuel
    → pos epoch <ℤ advance fuel epoch align next
unfolding advance
advance-future zero epoch align next p h = ground arith
advance-future (suc fuel) epoch align next p h =
    ground (arith, advance-future fuel epoch align (next +ℤ pos align) p)

-- It does not go further than a bound that holds at its start and behind the first future time.
advance-le :
    (fuel epoch align bound : ℕ) (next : ℤ)
    → next ≤ℤ pos bound
    → epoch + align ≤ bound
    → advance fuel epoch align next ≤ℤ pos bound
unfolding advance
advance-le zero epoch align bound next h b = ground arith
advance-le (suc fuel) epoch align bound next h b =
    ground (arith, advance-le fuel epoch align bound (next +ℤ pos align))

-- It goes by whole periods.
advance-periods :
    (fuel epoch align : ℕ) (next : ℤ)
    → let r = advance fuel epoch align next in
      (k : ℕ) × (pos_part r + neg_part next ≡ pos_part next + k * align + neg_part r)
unfolding advance
advance-periods zero epoch align next = (0, omega arith)
advance-periods (suc fuel) epoch align next = elim (Bool-cases (ltb_ℤ (pos epoch) next)) [
  | inl done ↦ (0, ground arith)
  | inr more ↦
      let (k, e) = advance-periods fuel epoch align (next +ℤ pos align) in
      (k + 1, ground (arith, e))
]

-- The next boundary of a schedule with a positive period lies strictly in the future, at the offset
-- from a multiple of the period, and no later than a period from now and a positive offset.
pub next_boundary_lem :
    (epoch align : ℕ) (offset : ℤ)
    → 0 < align
    → let next = next_boundary epoch align offset in
      (pos epoch <ℤ next)
      × (next ≤ℤ pos (epoch + align + pos_part offset))
      × ((k : ℕ) × (pos_part next + neg_part offset ≡ k * align + pos_part offset + neg_part next))
unfolding next_boundary
next_boundary_lem epoch align offset p =
    let n = epoch / align + 1 in
    let start = pos (n * align) +ℤ offset in
    let above : epoch < n * align = omega arith in
    let below : n * align ≤ epoch + align = omega arith in
    let (k, e) = advance-periods (neg_part offset) epoch align start in
    let st : pos_part start + neg_part offset ≡ n * align + pos_part offset + neg_part start =
      ground arith in
    (
      advance-future (neg_part offset) epoch align start p (omega (arith, st)),
      advance-le (neg_part offset) epoch align (epoch + align + pos_part offset) start
          (omega (arith, st)) (omega arith),
      (n + k, grind (arith, e, st)),
    )
